-- ===== src/Agent/Runtime/Navigate.antt =====
-- internal/agent/runtime.go: navigateTree, which moves the leaf to another entry. What it only tells
-- the extensions, the instructions and the label, is left out.
use pi_go_coding_agent.Base.{String, Option, none, some, ◌==◌, if◌then◌else◌}
use pi_go_coding_agent.Base.Text.{trim_space}
use pi_go_coding_agent.Types.{Fields}
use pi_go_coding_agent.Session.World.{ok}
use pi_go_coding_agent.Session.Append.{set_leaf, append_branch_summary}
use pi_go_coding_agent.Agent.Runtime.{
  Runtime, HostAction, TreeAnswer, Environment, Host, ◌>>=◌, return, on_session,
}

abbrev pub Summary : Type 0
Summary = String × Option Fields

-- The summary of an extension's answer, if it is not blank, before that of the action.
abbrev pub summary_or : Summary → Option Summary → Summary
summary_or own none = own
summary_or own (some (s, details)) =
    let text = trim_space s in if text == "" then own else (text, details)

-- The summary that is appended; none where an extension cancels.
unfoldable pub summary_of : Summary → Option TreeAnswer → Option Summary
summary_of own none = some own
summary_of own (some answer) = if answer.cancel then none else some (summary_or own answer.summary)

module _ (env : Environment) where
  unfoldable pub append_summary : String → Summary → Host (Unit {0})
  append_summary old_leaf (text, details) r =
      if text == ""
      then (ok tt, r)
      else (on_session (append_branch_summary env.outside old_leaf text details) >>= λ _. return tt)
          r

  unfoldable pub move_leaf : String → Option Summary → Host (Unit {0})
  unfolding append_summary
  move_leaf target none r = (ok tt, r)
  move_leaf target (some summary) r =
      (on_session (set_leaf target) >>= λ _. append_summary r.session.leaf_id summary) r

  -- The answer of the extensions to session_before_tree
  abbrev pub answer_to : String → HostAction → Runtime → Option TreeAnswer
  answer_to target action r = if action.skip_before_hooks then none else env.before_tree r target

  -- navigateTree
  unfoldable pub navigate_tree : String → HostAction → Host (Unit {0})
  unfolding move_leaf summary_of
  navigate_tree target action r =
      let summary : Summary = (trim_space action.summary, action.summary_details) in
      if r.session.leaf_id == target
      then (ok tt, r)
      else move_leaf target (summary_of summary (answer_to target action r)) r
