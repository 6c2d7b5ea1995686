-- ===== src/Agent/Fork/Messages.antt =====
-- internal/agent/runtime.go: the messages of the session that forkSession makes.
use pi_go_coding_agent.Base.{
  String, Bool, Option-cases, true, false, List, [], ◌∷◌, ◌++◌, append_assoc, append-nil, ◌≡◌, refl,
  ◌∙◌, sym, inl, inr, if◌then◌else◌, ℕ, arith,
}
use pi_go_coding_agent.Base.Text.{trim_space}
use pi_go_coding_agent.Types.{Message}
use pi_go_coding_agent.Session.Data.{Entry}
use pi_go_coding_agent.Session.World.{◌>>=◌, Outside, Session, ok, Action, return}
use pi_go_coding_agent.Session.Append.{append_model_change, append_thinking_level}
use pi_go_coding_agent.Session.Context.{entry_messages, all_messages}
use pi_go_coding_agent.Session.Branch.{branch}
use pi_go_coding_agent.Session.Open.{create_new, begin_session}
use pi_go_coding_agent.Session.Operations.{manager-flush_all}
use pi_go_coding_agent.Session.Saved.{create_new-begun}
use pi_go_coding_agent.Agent.Fork.{
  Setup, copy_entry, copy_entries, copy_setup, copy_branch, fork_session, saw_model_change,
  saw_thinking_level,
}
use pi_go_coding_agent.Agent.Fork.Copied.{copy_as, continue_ok, forget_append}

module _ (o : Outside) (now : ℕ) where
  -- An action that, if it succeeds, adds entries with these messages.
  abbrev Adds : Action (Unit {0}) → List Message → Type 0
  Adds a ms =
      (s : Session)
      → (a s).0 ≡ ok tt
      → all_messages now (a s).1.entries ≡ all_messages now s.entries ++ ms

  Adds-skip : Adds (return tt) []
  Adds-skip s done = sym (append-nil _)

  Adds-bind :
      (a b : Action (Unit {0})) (ms ns : List Message)
      → Adds a ms
      → Adds b ns
      → Adds (a >>= λ _. b) (ms ++ ns)
  Adds-bind a b ms ns first second s done =
      let (u, (fine, rest)) = continue_ok (a s).0 (λ _. b) (a s).1 tt done in
      rw fine (
        second (a s).1 rest ∙ (rw (first s fine) (append_assoc (all_messages now s.entries) ms ns)))

  Adds-if : (c : Bool) (a : Action (Unit {0})) → Adds a [] → Adds (if c then return tt else a) []
  Adds-if true a adds s done = Adds-skip s done
  Adds-if false a adds s done = adds s done

  copy_entries-Adds : (es : List Entry) → Adds (copy_entries o es) (all_messages now es)
  unfolding copy_entries all_messages
  copy_entries-Adds [] = Adds-skip
  copy_entries-Adds (e ∷ es) =
      Adds-bind (copy_entry o e) (copy_entries o es) _ _
        (λ s done. copy_as o now e.type e s refl done) (copy_entries-Adds es)

  copy_setup-Adds : (setup : Setup) (es : List Entry) → Adds (copy_setup o setup es) []
  unfolding copy_setup append_model_change append_thinking_level entry_messages
  copy_setup-Adds setup es =
      Adds-bind _ _ [] [] (Adds-if (saw_model_change es) _ (forget_append o now _))
        (Adds-if (saw_thinking_level es) _ (forget_append o now _))

  entries-create_new :
      (cwd parent : String) (s : Session)
      → (create_new o cwd parent s).0 ≡ ok tt
      → (create_new o cwd parent s).1.entries ≡ []
  unfolding begin_session create_new
  entries-create_new cwd parent s done = elim (Option-cases (o.refuses s.calls)) [
    | inl fine ↦ rw (create_new-begun o cwd parent s fine, manager-flush_all)
    | inr (why, bad) ↦ ground arith
  ]

  messages-copy_branch :
      (setup : Setup) (es : List Entry) (s : Session)
      → (copy_branch o setup es s).0 ≡ ok tt
      → all_messages now (copy_branch o setup es s).1.entries ≡ all_messages now es
  unfolding copy_branch
  messages-copy_branch setup es s done =
      let made = create_new o s.header.cwd (trim_space s.session_file) in
      let rest : Action (Unit {0}) = copy_entries o es >>= λ _. copy_setup o setup es in
      let (u, (fine, more)) = continue_ok (made s).0 (λ _. rest) (made s).1 tt done in
      rw fine (
        Adds-bind (copy_entries o es) (copy_setup o setup es) _ _ (copy_entries-Adds es)
          (copy_setup-Adds setup es) (made s).1 more
        ∙ (rw (entries-create_new s.header.cwd (trim_space s.session_file) s fine)
            (unfold all_messages in append-nil _)))

  by_branch :
      (setup : Setup) (id : String) (s : Session) (es : List Entry)
      → branch s.manager id ≡ es
      → (fork_session o setup false id s).0 ≡ ok false
      → all_messages now (fork_session o setup false id s).1.entries ≡ all_messages now es
  unfolding fork_session
  by_branch setup id s [] at done = ground (arith, simp (at, fork_session) at done)
  by_branch setup id s (e ∷ es) at done =
      let copy = copy_branch o setup (e ∷ es) in
      let (u, (fine, more)) =
        continue_ok (copy s).0 (λ _. return false) (copy s).1 false
          (simp (at, fork_session) at done) in
      simp (at, fork_session) (rw fine (messages-copy_branch setup (e ∷ es) s fine))

  -- A fork that succeeds makes a session whose entries give the same messages, in the same order,
  -- as the entries of the branch that it copies, each entry taken by itself.
  pub messages-fork_session :
      (setup : Setup) (id : String) (s : Session)
      → (fork_session o setup false id s).0 ≡ ok false
      → all_messages now (fork_session o setup false id s).1.entries
        ≡ all_messages now (branch s.manager id)
  messages-fork_session setup id s done = by_branch setup id s (branch s.manager id) refl done
