-- ===== src/Agent/Runtime/Wanted.antt =====
-- internal/agent/runtime.go: the tools that are active after setActiveToolsByName.
use pi_go_coding_agent.Base.{
  String, Bool, true, false, List, [], ◌∷◌, ◌≡◌, refl, arith, ◌⊎◌, inl, inr, Bool-cases, not, ◌==◌,
  ◌&&◌, ◌||◌,
}
use pi_go_coding_agent.Base.Text.{trim_space}
use pi_go_coding_agent.Base.Dict.{insert, lookup, has_key, has_key-insert}
use pi_go_coding_agent.Session.World.{Result, ok, err}
use pi_go_coding_agent.Tools.Registry.{definitions_of}
use pi_go_coding_agent.Agent.Runtime.{Runtime}
use pi_go_coding_agent.Agent.Runtime.Active.{
  Names, names_of, choose_tools, become_active, set_active_tools_by_name, is_tool_active,
}

-- A name on the list that no tool has, and whether a name is on the list. Blank ones do not count.
abbrev pub has_unknown : Names → List String → Bool
has_unknown available [] = false
has_unknown available (text ∷ more) =
    (not (trim_space text == "") && not (has_key (trim_space text) available))
    || has_unknown available more

abbrev pub is_wanted : String → List String → Bool
is_wanted name [] = false
is_wanted name (text ∷ more) =
    (not (trim_space text == "") && (trim_space text == name)) || is_wanted name more

-- The choice holds the names of the list and those that were chosen before.
abbrev IsChoice : String → Names → List String → Bool → Result Names → Type 0
IsChoice name next wanted unknown (ok chosen) =
    (unknown ≡ false) × (has_key name chosen ≡ (has_key name next || is_wanted name wanted))
IsChoice name next wanted unknown (err why) = unknown ≡ true

IsChoice-insert :
    (name text : String) (next : Names) (more : List String) (unknown : Bool) (r : Result Names)
    → (trim_space text == "") ≡ false
    → IsChoice name (insert (trim_space text) tt next) more unknown r
    → IsChoice name next (text ∷ more) unknown r
IsChoice-insert name text next more unknown (ok chosen) named (known, holds) =
    (known, ground (arith, has_key-insert (trim_space text) name tt next))
IsChoice-insert name text next more unknown (err why) named h = h

IsChoice-skip :
    (name text : String) (next : Names) (more : List String) (unknown : Bool) (r : Result Names)
    → (trim_space text == "") ≡ true
    → IsChoice name next more unknown r
    → IsChoice name next (text ∷ more) unknown r
IsChoice-skip name text next more unknown (ok chosen) blank (known, holds) =
    (known, ground (arith, holds))
IsChoice-skip name text next more unknown (err why) blank h = h

choose_tools-IsChoice :
    (available : Names) (name : String) (wanted : List String) (next : Names)
    → IsChoice name next wanted (has_unknown available wanted) (choose_tools available wanted next)
unfolding choose_tools
choose_tools-IsChoice available name [] next = (refl, ground arith)
choose_tools-IsChoice available name (text ∷ more) next =
    elim (Bool-cases (trim_space text == "")) [
      | inl blank ↦
          rw (blank, choose_tools, has_unknown)
            (IsChoice-skip name text next more _ (choose_tools available more next) blank
              (choose_tools-IsChoice available name more next))
      | inr named ↦ elim (Bool-cases (has_key (trim_space text) available)) [
        | inl known ↦
            rw (named, known, choose_tools)
              (IsChoice-insert name text next more _ _ named
                (choose_tools-IsChoice available name more (insert (trim_space text) tt next)))
        | inr unknown ↦ rw (named, unknown, choose_tools) refl
      ]
    ]

-- setActiveToolsByName takes all the names or none. If each name on the list that is not blank is
-- that of a tool, just those are active afterwards; otherwise the runtime stays as it was.
pub set_active_tools_by_name_cases :
    (wanted : List String) (name : String) (r : Runtime)
    → let available = names_of (definitions_of r.tools) in
      let (result, after) = set_active_tools_by_name wanted r in
      ((has_unknown available wanted ≡ false)
        × ((result ≡ ok tt) × (is_tool_active after name ≡ is_wanted name wanted)))
      ⊎ ((has_unknown available wanted ≡ true)
          × (((why : String) × (result ≡ err why)) × (after ≡ r)))
unfolding set_active_tools_by_name is_tool_active has_key lookup
set_active_tools_by_name_cases wanted name r =
    by_choice (choose_tools (names_of (definitions_of r.tools)) wanted [])
      (choose_tools-IsChoice (names_of (definitions_of r.tools)) name wanted [])
  where
    by_choice :
        (c : Result Names)
        → IsChoice name [] wanted (has_unknown (names_of (definitions_of r.tools)) wanted) c
        → let (result, after) = become_active c r in
          ((has_unknown (names_of (definitions_of r.tools)) wanted ≡ false)
            × ((result ≡ ok tt) × (has_key name after.active_tools ≡ is_wanted name wanted)))
          ⊎ ((has_unknown (names_of (definitions_of r.tools)) wanted ≡ true)
              × (((why : String) × (result ≡ err why)) × (after ≡ r)))
    by_choice (ok chosen) (known, holds) = inl (known, (refl, ground (arith, holds)))
    by_choice (err why) unknown = inr (unknown, ((why, refl), refl))
