-- ===== src/Agent/Fork.antt =====
-- internal/agent/runtime.go: forkSession, which copies the branch of an entry into a new session.
-- The events that it emits, and the sync of the runtime's model after it, leave the session alone.
pub mod Copied
pub mod Messages
pub mod Lost
pub mod Indexed
use pi_go_coding_agent.Base.{
  String, Bool, true, false, List, [], ◌∷◌, Option, none, some, ◌||◌, ◌==◌, if◌then◌else◌,
}
use pi_go_coding_agent.Base.Text.{trim_space, ◌^^◌}
use pi_go_coding_agent.Session.Data.{
  EntryType, message, model_change, thinking_level_change, compaction, branch_summary, custom,
  custom_message, session_info, Entry,
}
use pi_go_coding_agent.Session.World.{
  Outside, Session, Result, ok, err, Action, ◌>>=◌, ◌>>◌, return, fail,
}
use pi_go_coding_agent.Session.Append.{
  append_message, append_model_change, append_thinking_level, append_compaction,
  append_branch_summary, append_custom_entry, append_custom_message, append_session_name,
}
use pi_go_coding_agent.Session.Branch.{branch}
use pi_go_coding_agent.Session.Open.{create_new}

-- The model and the thinking level that the runtime has when it forks.
pub record Setup : Type 0 where
  pub provider : String
  pub model_id : String
  pub thinking_level : String

-- sawModelChange and sawThinkingLevel
unfoldable pub saw_model_change : List Entry → Bool
saw_model_change [] = false
saw_model_change (e ∷ es) =
    let rest = saw_model_change es in elim e.type [ model_change ↦ true | _ ↦ rest ]

unfoldable pub saw_thinking_level : List Entry → Bool
saw_thinking_level [] = false
saw_thinking_level (e ∷ es) =
    let rest = saw_thinking_level es in elim e.type [ thinking_level_change ↦ true | _ ↦ rest ]

module _ (o : Outside) where
  abbrev skip : Action (Unit {0})
  skip = return tt

  abbrev pub forget : Action Entry → Action (Unit {0})
  forget a = a >>= λ _. skip

  -- The switch of the loop: the Append method that an entry is copied by.
  unfoldable pub copy_entry : Entry → Action (Unit {0})
  copy_entry e = elim e.type [
    | message ↦ elim e.body [ none ↦ skip | some m ↦ forget (append_message o m) ]
    | model_change ↦ forget (append_model_change o e.provider e.model_id)
    | thinking_level_change ↦ forget (append_thinking_level o e.thinking_level)
    | compaction ↦
        forget (append_compaction o e.summary e.first_kept_entry e.tokens_before e.details)
    | branch_summary ↦ forget (append_branch_summary o e.from_id e.summary e.details)
    | custom ↦ forget (append_custom_entry o e.custom_type e.custom_data)
    | custom_message ↦
        forget (append_custom_message o e.custom_type e.content e.display e.custom_data)
    | session_info ↦ if trim_space e.name == "" then skip else forget (append_session_name o e.name)
    | _ ↦ skip
  ]

  unfoldable pub copy_entries : List Entry → Action (Unit {0})
  copy_entries [] = skip
  copy_entries (e ∷ es) = copy_entry e >>= λ _. copy_entries es

  unfoldable pub copy_setup : Setup → List Entry → Action (Unit {0})
  copy_setup now es =
      (if saw_model_change es
        then skip
        else forget (append_model_change o now.provider now.model_id))
      >>= λ _.
          if saw_thinking_level es
          then skip
          else forget (append_thinking_level o now.thinking_level)

  unfoldable pub copy_branch : Setup → List Entry → Action (Unit {0})
  copy_branch now es s =
      (create_new o s.header.cwd (trim_space s.session_file) >>= λ _.
      copy_entries es >>= λ _. copy_setup now es)
        s

  -- forkSession; true says that an extension has cancelled it.
  unfoldable pub fork_session : Setup → Bool → String → Action Bool
  unfolding copy_branch
  fork_session now cancelled entry_id s =
      if cancelled then (ok true, s) else elim (branch s.manager entry_id) [
        | [] ↦ (err ("cannot fork: entry " ^^ entry_id ^^ " not found"), s)
        | e ∷ es ↦ (copy_branch now (e ∷ es) >>= λ _. return false) s
      ]
