-- ===== src/Agent/Fork/Copied.antt =====
-- internal/agent/runtime.go: what forkSession hands on to the new session.
use pi_go_coding_agent.Base.{
  Bool-cases, Option-cases, List, [], ◌∷◌, ◌++◌, append_assoc, append-nil, ◌≡◌, refl, ap, sym, inl,
  inr, ◌==◌, ℕ, arith,
}
use pi_go_coding_agent.Base.Text.{trim_space}
use pi_go_coding_agent.Session.Data.{
  EntryType, message, model_change, thinking_level_change, compaction, branch_summary, custom,
  custom_message, session_info, label, Entry,
}
use pi_go_coding_agent.Session.World.{Outside, Session, Result, ok, err, Action, continue}
use pi_go_coding_agent.Session.Append.{
  add_entry, stamp, append_new, append_message, append_model_change, append_thinking_level,
  append_compaction, append_branch_summary, append_custom_entry, append_custom_message,
  append_session_name,
}
use pi_go_coding_agent.Session.Context.{entry_messages, all_messages}
use pi_go_coding_agent.Session.History.{append_new_cases}
use pi_go_coding_agent.Agent.Fork.{copy_entry, forget}

pub all_messages-append :
    (now : ℕ) (xs ys : List Entry)
    → all_messages now (xs ++ ys) ≡ all_messages now xs ++ all_messages now ys
unfolding all_messages
all_messages-append now [] ys = refl
all_messages-append now (x ∷ xs) ys =
    rw (all_messages-append now xs ys)
      (sym (append_assoc (entry_messages now x) (all_messages now xs) (all_messages now ys)))

-- A sequence that succeeds has a first step that does.
pub continue_ok :
    {A B : Type 0} (r : Result A) (f : A → Action B) (s : Session) (b : B)
    → (continue r f s).0 ≡ ok b
    → (a : A) × ((r ≡ ok a) × ((f a s).0 ≡ ok b))
continue_ok (ok a) f s b h = (a, (refl, h))
continue_ok (err e) f s b h = ground arith

module _ (o : Outside) (now : ℕ) where
  pub forget_append :
      (draft : Entry) (s : Session)
      → (forget o (append_new o draft) s).0 ≡ ok tt
      → all_messages now (forget o (append_new o draft) s).1.entries
        ≡ all_messages now s.entries ++ entry_messages now (stamp o s draft)
  unfolding add_entry all_messages
  forget_append draft s done = elim (append_new_cases o draft s) [
    | inl (fine, (grew, wrote)) ↦
        rw (fine, grew, all_messages-append) (ap (◌++◌ (all_messages now s.entries)) (append-nil _))
    | inr ((why, failed), same) ↦ ground arith
  ]

  pub copy_as :
      (t : EntryType) (e : Entry) (s : Session)
      → e.type ≡ t
      → (copy_entry o e s).0 ≡ ok tt
      → all_messages now (copy_entry o e s).1.entries
        ≡ all_messages now s.entries ++ entry_messages now e
  unfolding copy_entry entry_messages append_message append_model_change append_thinking_level
      append_compaction append_branch_summary append_custom_entry append_custom_message
      append_session_name
  copy_as message e s t done = elim (Option-cases e.body) [
    | inl no_body ↦ simp (t, no_body, copy_entry, entry_messages) (sym (append-nil _))
    | inr (m, body) ↦
        simp (t, body, copy_entry, entry_messages)
          (forget_append _ s (simp (t, body, copy_entry) at done))
  ]
  copy_as model_change e s t done =
      simp (t, copy_entry, entry_messages) (forget_append _ s (simp (t, copy_entry) at done))
  copy_as thinking_level_change e s t done =
      simp (t, copy_entry, entry_messages) (forget_append _ s (simp (t, copy_entry) at done))
  copy_as compaction e s t done =
      simp (t, copy_entry, entry_messages) (forget_append _ s (simp (t, copy_entry) at done))
  copy_as branch_summary e s t done =
      simp (t, copy_entry, entry_messages) (forget_append _ s (simp (t, copy_entry) at done))
  copy_as custom e s t done =
      simp (t, copy_entry, entry_messages) (forget_append _ s (simp (t, copy_entry) at done))
  copy_as custom_message e s t done =
      simp (t, copy_entry, entry_messages) (forget_append _ s (simp (t, copy_entry) at done))
  copy_as session_info e s t done = elim (Bool-cases (trim_space e.name == "")) [
    | inl blank ↦ simp (t, blank, copy_entry, entry_messages) (sym (append-nil _))
    | inr named ↦
        simp (t, named, copy_entry, entry_messages)
          (forget_append _ s (simp (t, named, copy_entry) at done))
  ]
  copy_as label e s t done = simp (t, copy_entry, entry_messages) (sym (append-nil _))
  copy_as (EntryType.other x) e s t done = simp (t, copy_entry, entry_messages) (sym (append-nil _))
  copy_as EntryType.session e s t done = simp (t, copy_entry, entry_messages) (sym (append-nil _))
