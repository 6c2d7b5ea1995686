-- ===== src/Agent/Run/Rounds/Extends.antt =====
-- internal/agent/runtime.go: transcripts that grow, and the appends of a round.
use pi_go_coding_agent.Base.{
  List, [], ◌∷◌, ◌++◌, append-nil, append_assoc, ◌≡◌, ap, sym, ◌∙◌, inl, inr,
}
use pi_go_coding_agent.Types.{Message}
use pi_go_coding_agent.Agent.Run.{Transcript, Outside, Run}
use pi_go_coding_agent.Agent.Run.Calls.Answers.{result_cases}
use pi_go_coding_agent.Agent.Run.Rounds.{
  Round, again, returned, stopped_at, append_all, at_transcript,
}

module _ (o : Outside) {T : Type 0} (session : Transcript T) where
  -- The messages of one transcript are those of the other and some after them.
  abbrev pub Extends : T → T → Type 0
  Extends t t' = (ms : List Message) × (session.messages t' ≡ session.messages t ++ ms)

  pub Extends-refl : (t : T) → Extends t t
  Extends-refl t = ([], sym (append-nil _))

  pub Extends-same : (t t' : T) → session.messages t' ≡ session.messages t → Extends t t'
  Extends-same t t' h = ([], h ∙ sym (append-nil _))

  pub Extends-trans : (t u v : T) → Extends t u → Extends u v → Extends t v
  Extends-trans t u v (ms, a) (ns, b) =
      (ms ++ ns, b ∙ (rw a (append_assoc (session.messages t) ms ns)))

  pub Extends-more :
      (t u v : T) (m : Message)
      → Extends t u
      → session.messages v ≡ session.messages u ++ m ∷ []
      → Extends t v
  Extends-more t u v m a b = Extends-trans t u v a (m ∷ [], b)

  -- A round, or a run, keeps what the transcript had; one that returns a message has it as the last
  -- of the transcript, and has left no follow-up in the queue.
  abbrev pub Keeps : T → Round T → Type 0
  Keeps t (again pending attempts last s) = Extends t s.transcript
  Keeps t (stopped_at m why s) = Extends t s.transcript
  Keeps t (returned m s) =
      ((ms : List Message) × (session.messages s.transcript ≡ session.messages t ++ (ms ++ m ∷ [])))
      × (s.queues.follow_up_queue ≡ [])

  pub Keeps-later : (t u : T) (r : Round T) → Extends t u → Keeps u r → Keeps t r
  Keeps-later t u (again pending attempts last s) a b = Extends-trans t u s.transcript a b
  Keeps-later t u (stopped_at m why s) a b = Extends-trans t u s.transcript a b
  Keeps-later t u (returned m s) (ms, a) ((ns, b), c) = (
    (
      ms ++ ns,
      b
          ∙ (rw a (
              append_assoc (session.messages t) ms (ns ++ m ∷ [])
              ∙ ap (◌++◌ (session.messages t)) (sym (append_assoc ms ns (m ∷ []))))),
    ),
    c,
  )

  pub append_all-Extends :
      (ms : List Message) (s : Run T)
      → Extends s.transcript (append_all o session ms s).1.transcript
  unfolding append_all
  append_all-Extends [] s = Extends-refl s.transcript
  append_all-Extends (m ∷ ms) s = elim (result_cases (session.append m s.transcript).0) [
    | inr (why, failed) ↦
        simp (failed, append_all)
          (Extends-same s.transcript _ (session.append_failed m s.transcript why failed))
    | inl done ↦
        let s' = at_transcript o session (session.append m s.transcript).1 s in
        simp (done, append_all)
          (Extends-trans s.transcript s'.transcript _
            (m ∷ [], session.append-messages m s.transcript done) (append_all-Extends ms s'))
  ]
