-- ===== src/Agent/Fork/Indexed.antt =====
-- internal/agent/runtime.go: the index of the session, through a fork and a compaction.
use pi_go_coding_agent.Base.{
  String, Bool, true, false, List, [], ◌∷◌, ◌≡◌, refl, ◌==◌, if◌then◌else◌, inl, inr, Bool-cases,
  Option-cases,
}
use pi_go_coding_agent.Base.Text.{trim_space}
use pi_go_coding_agent.Types.{Message}
use pi_go_coding_agent.Session.Data.{EntryType, Entry}
use pi_go_coding_agent.Session.World.{Outside, Session, Result, ok, err, Action, ◌>>=◌}
use pi_go_coding_agent.Session.World
use pi_go_coding_agent.Session.Append.{
  append_new, append_message, append_model_change, append_thinking_level, append_compaction,
  append_branch_summary, append_label, append_session_name, append_custom_entry,
  append_custom_message,
}
use pi_go_coding_agent.Session.Open.{create_new}
use pi_go_coding_agent.Session.Branch.{branch}
use pi_go_coding_agent.Session.Placed.{
  IsPlaced, Keeps, Keeps-bind, return-Keeps, append_new-Keeps, create_new-Keeps,
}
use pi_go_coding_agent.Agent.Fork.{
  Setup, saw_model_change, saw_thinking_level, forget, copy_entry, copy_entries, copy_setup,
  copy_branch, fork_session,
}
use pi_go_coding_agent.Agent.Compact.Run.{Helpers, Chosen, plan_compaction, compact_context}
use pi_go_coding_agent.Session.Context.{build_context}

module _ (o : Outside) where
  append_message-Keeps : (m : Message) → Keeps (append_message o m)
  unfolding append_message
  append_message-Keeps m = append_new-Keeps o _

  skip-Keeps : Keeps (World.return {A = Unit {0}} tt)
  skip-Keeps = return-Keeps tt

  forget-Keeps : (draft : Entry) → Keeps (forget o (append_new o draft))
  forget-Keeps draft = Keeps-bind _ _ (append_new-Keeps o draft) (λ e. skip-Keeps)

  copy_entry-Keeps : (t : EntryType) (e : Entry) → e.type ≡ t → Keeps (copy_entry o e)
  unfolding copy_entry append_message append_model_change append_thinking_level append_compaction
      append_branch_summary append_label append_session_name append_custom_entry
      append_custom_message
  copy_entry-Keeps EntryType.message e t = elim (Option-cases e.body) [
    | inl empty ↦ simp (t, empty, copy_entry) skip-Keeps
    | inr (m, body) ↦ simp (t, body, copy_entry) (forget-Keeps _)
  ]
  copy_entry-Keeps EntryType.session_info e t = elim (Bool-cases (trim_space e.name == "")) [
    | inl blank ↦ simp (t, blank, copy_entry) skip-Keeps
    | inr named ↦ simp (t, named, copy_entry) (forget-Keeps _)
  ]
  copy_entry-Keeps EntryType.model_change e t = simp (t, copy_entry) (forget-Keeps _)
  copy_entry-Keeps EntryType.thinking_level_change e t = simp (t, copy_entry) (forget-Keeps _)
  copy_entry-Keeps EntryType.compaction e t = simp (t, copy_entry) (forget-Keeps _)
  copy_entry-Keeps EntryType.branch_summary e t = simp (t, copy_entry) (forget-Keeps _)
  copy_entry-Keeps EntryType.custom e t = simp (t, copy_entry) (forget-Keeps _)
  copy_entry-Keeps EntryType.custom_message e t = simp (t, copy_entry) (forget-Keeps _)
  copy_entry-Keeps EntryType.session e t = simp (t, copy_entry) skip-Keeps
  copy_entry-Keeps EntryType.label e t = simp (t, copy_entry) skip-Keeps
  copy_entry-Keeps (EntryType.other x) e t = simp (t, copy_entry) skip-Keeps

  copy_entries-Keeps : (es : List Entry) → Keeps (copy_entries o es)
  unfolding copy_entries
  copy_entries-Keeps [] = skip-Keeps
  copy_entries-Keeps (e ∷ es) =
      Keeps-bind _ _ (copy_entry-Keeps e.type e refl) (λ u. copy_entries-Keeps es)

  Keeps-if :
      {A : Type 0} (b : Bool) (f g : Action A) → Keeps f → Keeps g → Keeps (if b then f else g)
  Keeps-if true f g kf kg = kf
  Keeps-if false f g kf kg = kg

  copy_setup-Keeps : (now : Setup) (es : List Entry) → Keeps (copy_setup o now es)
  unfolding copy_setup append_model_change append_thinking_level
  copy_setup-Keeps now es =
      Keeps-bind _ _ (Keeps-if (saw_model_change es) _ _ skip-Keeps (forget-Keeps _))
        (λ u. Keeps-if (saw_thinking_level es) _ _ skip-Keeps (forget-Keeps _))

  copy_branch-Keeps : (now : Setup) (es : List Entry) → Keeps (copy_branch o now es)
  unfolding copy_branch
  copy_branch-Keeps now es = record {
    keeps = λ s.
        (Keeps-bind (create_new o s.header.cwd (trim_space s.session_file))
            (λ u. copy_entries o es >>= λ u'. copy_setup o now es)
            (create_new-Keeps o s.header.cwd (trim_space s.session_file))
            (λ u. Keeps-bind _ _ (copy_entries-Keeps es) (λ u'. copy_setup-Keeps now es))).keeps
          s;
  }

  fork_branch-Keeps :
      (now : Setup) (id : String) (es : List Entry) (s : Session)
      → branch s.manager id ≡ es
      → IsPlaced s.manager
      → IsPlaced (fork_session o now false id s).1.manager
  unfolding fork_session
  fork_branch-Keeps now id [] s at v = simp (at, fork_session) v
  fork_branch-Keeps now id (e ∷ es) s at v =
      simp (at, fork_session)
        ((Keeps-bind _ _ (copy_branch-Keeps now (e ∷ es)) (λ u. return-Keeps false)).keeps s v)

  pub fork_session-Keeps :
      (now : Setup) (cancelled : Bool) (id : String) → Keeps (fork_session o now cancelled id)
  unfolding fork_session
  fork_session-Keeps now true id = record { keeps = λ s v. v }
  fork_session-Keeps now false id = record {
    keeps = λ s v. fork_branch-Keeps now id (branch s.manager id) s refl v;
  }

  planned-Keeps :
      (h : Helpers) (instructions : String) (s : Session) (p : Result Chosen)
      → plan_compaction h
          (branch s.manager s.leaf_id)
          (build_context h.now s.manager s.leaf_id).messages
          instructions
        ≡ p
      → IsPlaced s.manager
      → IsPlaced (compact_context h o instructions s).1.manager
  unfolding compact_context append_compaction
  planned-Keeps h instructions s (err why) at v = simp (at, compact_context) v
  planned-Keeps h instructions s (ok c) at v =
      simp (at, compact_context) ((append_new-Keeps o _).keeps s v)

  pub compact_context-Keeps :
      (h : Helpers) (instructions : String) → Keeps (compact_context h o instructions)
  compact_context-Keeps h instructions = record {
    keeps = λ s v. planned-Keeps h instructions s _ refl v;
  }
