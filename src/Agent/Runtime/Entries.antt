-- ===== src/Agent/Runtime/Entries.antt =====
-- internal/agent/runtime.go: the index of the session, through all that a caller does.
pub mod Switches
pub mod Requests
use pi_go_coding_agent.Base.{
  String, Bool, true, false, List, [], ◌∷◌, Option, none, some, ◌≡◌, refl, not, ◌==◌, ◌&&◌, ◌||◌,
  if◌then◌else◌, inl, inr, Bool-cases, Option-cases,
}
use pi_go_coding_agent.Base.Text.{trim_space, equal_fold}
use pi_go_coding_agent.Types.{Message, Fields, ContentBlock}
use pi_go_coding_agent.Session.World.{Session, Result, ok, err, Action}
use pi_go_coding_agent.Session.Append.{
  append_new, append_message, append_model_change, append_thinking_level, append_compaction,
  append_branch_summary, append_label, append_session_name, append_custom_entry,
  append_custom_message, set_leaf,
}
use pi_go_coding_agent.Session.Placed.{
  IsPlaced, Keeps, append_new-Keeps, set_leaf-Keeps, create_new-Keeps, open_session-Keeps,
}
use pi_go_coding_agent.Config.Models.{Model}
use pi_go_coding_agent.Config.Models.Search.{resolve_model}
use pi_go_coding_agent.Agent.Fork.Indexed.{fork_session-Keeps, compact_context-Keeps}
use pi_go_coding_agent.Agent.Runtime.{
  Runtime, HostAction, Environment, Host, continue, ◌>>=◌, return, on_session,
}
use pi_go_coding_agent.Agent.Runtime.Models.{
  set_model, set_thinking_level, become_model, become_level,
}

-- A step keeps the index of the session right, whether or not it succeeds.
pub record Holds {A : Type 0} (f : Host A) : Type 0 where
  pub holds : (r : Runtime) → IsPlaced r.session.manager → IsPlaced (f r).1.session.manager

continue_holds :
    {A B : Type 0} (a : Result A) (f : A → Host B) (r : Runtime)
    → IsPlaced r.session.manager
    → ((x : A) → IsPlaced (f x r).1.session.manager)
    → IsPlaced (continue a f r).1.session.manager
continue_holds (ok a) f r before rest = rest a
continue_holds (err e) f r before rest = before

pub Holds-bind :
    {A B : Type 0} (f : Host A) (g : A → Host B)
    → Holds f
    → ((a : A) → Holds (g a))
    → Holds (f >>= g)
Holds-bind f g hf hg = record {
  holds = λ r v.
      continue_holds (f r).0 g (f r).1 (hf.holds r v) (λ a. (hg a).holds (f r).1 (hf.holds r v));
}

pub return-Holds : {A : Type 0} (a : A) → Holds (return a)
return-Holds a = record { holds = λ r v. v }

pub on_session-Holds : {A : Type 0} (f : Action A) → Keeps f → Holds (on_session f)
on_session-Holds f k = record { holds = λ r v. k.keeps r.session v }

pub if-Holds :
    {A : Type 0} (b : Bool) (f g : Host A) → Holds f → Holds g → Holds (if b then f else g)
if-Holds true f g hf hg = hf
if-Holds false f g hf hg = hg

-- A step that the state chooses.
pub if_at-Holds :
    {A : Type 0} (b : Runtime → Bool) (f g : Host A)
    → Holds f
    → Holds g
    → Holds (λ r. if b r then f r else g r)
if_at-Holds b f g hf hg = record {
  holds = λ r v. elim (Bool-cases (b r)) [
    | inl on ↦ rw on (hf.holds r v)
    | inr off ↦ rw off (hg.holds r v)
  ];
}

module _ (env : Environment) where
  resolved-Holds :
      (provider id : String) (p : Result Model) (r : Runtime)
      → resolve_model r.model_registry provider id ≡ p
      → IsPlaced r.session.manager
      → IsPlaced (set_model env provider id r).1.session.manager
  unfolding set_model append_model_change
  resolved-Holds provider id (err why) r at v = simp (at, set_model) v
  resolved-Holds provider id (ok m) r at v =
      simp (at, set_model)
        ((Holds-bind _ (λ e. become_model m) (on_session-Holds _ (append_new-Keeps env.outside _))
            (λ e. record { holds = λ r' v'. v' })).holds
          r v)

  pub set_model-Holds : (provider id : String) → Holds (set_model env provider id)
  set_model-Holds provider id = record { holds = λ r v. resolved-Holds provider id _ r refl v }

  pub set_thinking_level-Holds : (text : String) → Holds (set_thinking_level env text)
  unfolding set_thinking_level append_thinking_level
  set_thinking_level-Holds text =
      if_at-Holds (λ r. trim_space text == "") _ _ (record { holds = λ r v. v })
        (Holds-bind _ (λ e. become_level (trim_space text))
          (on_session-Holds _ (append_new-Keeps env.outside _))
          (λ e. record { holds = λ r' v'. v' }))
