-- ===== src/Agent/Runtime/Cycle.antt =====
-- internal/agent/runtime.go: the order in which CycleModel goes through the models.
use pi_go_coding_agent.Base.{String, Bool, false, List, [], ◌∷◌, Option, some, ◌≡◌, All, ◌⊎◌, ◌==◌}
use pi_go_coding_agent.Session.World.{Result, ok, err}
use pi_go_coding_agent.Config.Models.{Model}
use pi_go_coding_agent.Config.Models.Search.{matches_both}
use pi_go_coding_agent.Agent.Runtime.{Runtime, Environment}

-- Whether a model has the names of another one, up to case.
abbrev pub is_named_as : Model → Model → Bool
is_named_as x m = matches_both x.provider x.id m

-- No model has the names of a later one.
abbrev pub AreDistinct : List Model → Type 0
AreDistinct [] = Unit
AreDistinct (m ∷ ms) = All (λ x. is_named_as x m ≡ false) ms × AreDistinct ms

abbrev pub HasNames : Model → Type 0
HasNames m = ((m.provider == "") ≡ false) × ((m.id == "") ≡ false)

module _ (env : Environment) where
  -- What becomes of the model: it is this one, or an error leaves the old one.
  abbrev pub Cycles : Model → Result (Option Model) → Model → Model → Type 0
  Cycles next result before after =
      ((result ≡ ok (some next)) × (after ≡ next))
      ⊎ ((why : String) × ((result ≡ err why) × (after ≡ before)))
