-- ===== src/Agent/Runtime/Moved.antt =====
-- internal/agent/runtime.go: the branches of the session before and after navigateTree.
use pi_go_coding_agent.Base.{ℕ, String, false, List, ◌++◌, some, ◌≡◌, ◌==◌}
use pi_go_coding_agent.Base.Dict.{lookup}
use pi_go_coding_agent.Session.Data.{Entry, Manager}
use pi_go_coding_agent.Session.Branch.{branch}
use pi_go_coding_agent.Session.Context.{all_messages, summary_messages}
use pi_go_coding_agent.Agent.Runtime.{Runtime}

-- The manager with another leaf.
abbrev pub at_leaf : String → Manager → Manager
at_leaf id m = record m { leaf_id = id }

-- The branch of an action's target with what the move has added, whose messages are those of a
-- summary; and the branches that were there.
pub record IsMoved (now : ℕ) (target text : String) (m m' : Manager) : Type 0 where
  pub added : List Entry
  pub extends : branch m' m'.leaf_id ≡ branch m target ++ added
  pub summarises :
      all_messages now added ≡ summary_messages now "<branch_summary>\n" text "\n</branch_summary>"
  pub preserves :
      (id : String) (i : ℕ)
      → lookup id m.by_id ≡ some i
      → (id == "") ≡ false
      → branch m' id ≡ branch m id
