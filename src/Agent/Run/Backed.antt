-- ===== src/Agent/Run/Backed.antt =====
-- internal/agent/runtime.go: the session manager as the transcript of runLoop.
use pi_go_coding_agent.Base.{
  ℕ, String, Bool, Bool-cases, true, false, List, [], ◌∷◌, ◌++◌, append-nil, some, ◌≡◌, refl, ap,
  sym, ◌∙◌, inl, inr, arith, if◌then◌else◌,
}
use pi_go_coding_agent.Types.{Message}
use pi_go_coding_agent.Session.Data.{message, Entry, empty_entry}
use pi_go_coding_agent.Session.World.{Outside, Session, Result, ok, err}
use pi_go_coding_agent.Session.Append.{
  add_entry, stamp, append_new, append_message, append_compaction,
}
use pi_go_coding_agent.Session.Branch.{branch}
use pi_go_coding_agent.Session.Context.{entry_messages, all_messages, build_context}
use pi_go_coding_agent.Session.History.{append_new_cases}
use pi_go_coding_agent.Agent.Fork.Copied.{all_messages-append}
use pi_go_coding_agent.Agent.Compact.Run.{Helpers, Chosen, compact_context, plan_compaction}
use pi_go_coding_agent.Agent.Run.{Transcript}

module _ (o : Outside) (now : ℕ) where
  abbrev done_or_failed : {A : Type 0} → Result A → Result (Unit {0})
  done_or_failed (ok a) = ok tt
  done_or_failed (err why) = err why

  abbrev is_done : {A : Type 0} → Result A → Bool
  is_done (ok a) = true
  is_done (err why) = false

  abbrev pub messages_of : Session → List Message
  messages_of s = all_messages now s.entries

  -- AppendMessage, without the entry that it returns
  unfoldable pub append_to : Message → Session → Result (Unit {0}) × Session
  append_to m s = let (r, s') = append_message o m s in (done_or_failed r, s')

  messages-append_new :
      (draft : Entry) (s : Session)
      → messages_of (append_new o draft s).1
        ≡ messages_of s
          ++ (if is_done (append_new o draft s).0 then entry_messages now (stamp o s draft) else [])
  unfolding add_entry all_messages
  messages-append_new draft s = elim (append_new_cases o draft s) [
    | inl (fine, (grew, wrote)) ↦
        rw (fine, grew, all_messages-append) (ap (◌++◌ (all_messages now s.entries)) (append-nil _))
    | inr ((why, failed), (same, files)) ↦ rw (failed, same) (sym (append-nil _))
  ]

  no_messages : (b : Bool) (ms : List Message) → ms ++ (if b then [] else []) ≡ ms
  no_messages true ms = append-nil ms
  no_messages false ms = append-nil ms

  unfoldable pub compact_session : Helpers → Session → Bool × Session
  compact_session h s = let (r, s') = compact_context h o "" s in (is_done r, s')

  pub messages-compact_context :
      (h : Helpers) (s : Session) → messages_of (compact_context h o "" s).1 ≡ messages_of s
  unfolding compact_context append_compaction entry_messages
  messages-compact_context h s =
      by_plan
        (plan_compaction h (branch s.manager s.leaf_id)
          (build_context h.now s.manager s.leaf_id).messages "")
        refl
    where
      by_plan :
          (r : Result Chosen)
          → plan_compaction h
              (branch s.manager s.leaf_id)
              (build_context h.now s.manager s.leaf_id).messages
              ""
            ≡ r
          → messages_of (compact_context h o "" s).1 ≡ messages_of s
      by_plan (err why) at = simp (at, compact_context) refl
      by_plan (ok c) at =
          simp (at, compact_context) (messages-append_new _ s ∙ no_messages _ (messages_of s))

  -- maybeAutoCompactThreshold, where `is_over` says whether the context is over the threshold.
  unfoldable pub threshold_session : (ℕ → Session → Bool) → (ℕ → Helpers) → ℕ → Session → Session
  threshold_session is_over helpers n s =
      if is_over n s then (compact_session (helpers n) s).1 else s

  pub messages-threshold_session :
      (is_over : ℕ → Session → Bool) (helpers : ℕ → Helpers) (n : ℕ) (s : Session)
      → messages_of (threshold_session is_over helpers n s) ≡ messages_of s
  unfolding threshold_session compact_session
  messages-threshold_session is_over helpers n s = elim (Bool-cases (is_over n s)) [
    | inl over ↦ rw over (messages-compact_context (helpers n) s)
    | inr under ↦ rw under
  ]

  pub messages-append_to :
      (m : Message) (s : Session)
      → (append_to m s).0 ≡ ok tt
      → messages_of (append_to m s).1 ≡ messages_of s ++ m ∷ []
  unfolding append_to append_message entry_messages
  messages-append_to m s done =
      elim (append_new_cases o (record (empty_entry message) { body = some m }) s) [
        | inl (fine, kept) ↦ messages-append_new _ s ∙ rw fine
        | inr ((why, failed), same) ↦ ground (arith, rw failed at done)
      ]

  pub messages-append_to_failed :
      (m : Message) (s : Session) (why : String)
      → (append_to m s).0 ≡ err why
      → messages_of (append_to m s).1 ≡ messages_of s
  unfolding append_to append_message entry_messages
  messages-append_to_failed m s why no_append =
      elim (append_new_cases o (record (empty_entry message) { body = some m }) s) [
        | inl (fine, kept) ↦ ground (arith, rw fine at no_append)
        | inr ((reason, failed), same) ↦ messages-append_new _ s ∙ rw failed (append-nil _)
      ]

  -- The session as a transcript: an append adds its message, or it fails and adds none; and a
  -- compaction leaves the messages of the entries.
  unfoldable pub session_transcript : (ℕ → Session → Bool) → (ℕ → Helpers) → Transcript Session
  unfolding append_to compact_session threshold_session
  session_transcript is_over helpers = record {
    append = append_to;
    messages = messages_of;
    context = λ s. (build_context now s.manager s.leaf_id).messages;
    compact_threshold = threshold_session is_over helpers;
    compact = λ n. compact_session (helpers n);
    append-messages = λ m s done. messages-append_to m s done;
    append_failed = λ m s why failed. messages-append_to_failed m s why failed;
    compact_threshold-messages = λ n s. messages-threshold_session is_over helpers n s;
    compact-messages = λ n s. messages-compact_context (helpers n) s;
  }
