-- ===== src/Session/Saved.antt =====
-- internal/session/manager.go: what appendEntry, flushAll and Open do with the file of a session.
use pi_go_coding_agent.Base.{
  ℕ, suc, String, ◌≡◌, ◌≢◌, refl, inl, inr, List, [], ◌∷◌, ◌++◌, append-nil, append_assoc, none,
  some, Bool-cases, arith, ◌==◌, ==-refl, Option-cases,
}
use pi_go_coding_agent.Base.Dict.{Dict, lookup, insert, lookup-insert}
use pi_go_coding_agent.Session.Data.{Entry, Line}
use pi_go_coding_agent.Session.World.{Outside, Session, ok}
use pi_go_coding_agent.Session.Open.{
  Rebuild, rebuild_step, rebuild_loop, rebuild_start, flush_all, create_new, begin_session,
  write_all,
}
use pi_go_coding_agent.Session.Reopen.{IsWhole, last_from, saved_lines, rebuild_loop-whole}

module _ (o : Outside) where
  -- The state after a line has been written.
  abbrev wrote_line : String → Line → List Line → Session → Session
  wrote_line path l old s = record s {
    world = record s.world { files = insert path (old ++ l ∷ []) s.files; calls = suc s.calls };
  }

  stored-write_all :
      (path : String) (ls old : List Line) (s : Session)
      → lookup path s.files ≡ some old
      → (write_all o path ls s).0 ≡ ok tt
      → lookup path (write_all o path ls s).1.files ≡ some (old ++ ls)
  unfolding write_all
  stored-write_all path [] old s there done = rw (append-nil, there)
  stored-write_all path (l ∷ ls) old s there done = elim (Option-cases (o.refuses s.calls)) [
    | inr (why, bad) ↦ ground arith
    | inl fine ↦
        let there' : lookup path (wrote_line path l old s).files ≡ some (old ++ l ∷ []) =
          rw (lookup-insert, ==-refl) in
        ground (
          arith,
          append_assoc old (l ∷ []) ls,
          stored-write_all path ls (old ++ l ∷ []) (wrote_line path l old s) there',
        )
  ]

  -- flushAll, if it succeeds, leaves the header and the entries as the lines of the file.
  pub stored-flush_all :
      (s : Session)
      → (flush_all o s).0 ≡ ok tt
      → lookup s.session_file (flush_all o s).1.files ≡ some (saved_lines o s.manager)
  unfolding flush_all
  stored-flush_all s done = elim (Bool-cases (s.session_file == "")) [
    | inl none_open ↦ ground arith
    | inr is_open ↦ elim (Option-cases (o.refuses s.calls)) [
      | inr (why, bad) ↦ ground arith
      | inl fine ↦
          let emptied : Session = record s {
            world = record s.world {
              files = insert s.session_file [] s.files;
              calls = suc s.calls;
            };
          } in
          ground (
            arith,
            stored-write_all s.session_file (saved_lines o s.manager) [] emptied
                (rw (lookup-insert, ==-refl)),
          )
    ]
  ]

  abbrev pub begun : String → String → Session → Session
  begun cwd parent s =
      begin_session o cwd parent (record s { world = record s.world { calls = suc s.calls } })

  pub create_new-begun :
      (cwd parent : String) (s : Session)
      → o.refuses s.calls ≡ none
      → create_new o cwd parent s ≡ flush_all o (begun cwd parent s)
  unfolding create_new
  create_new-begun cwd parent s fine = ground arith

  rebuild_loop-append :
      (r : Rebuild) (es fs : List Entry)
      → rebuild_loop o r (es ++ fs) ≡ rebuild_loop o (rebuild_loop o r es) fs
  unfolding rebuild_loop
  rebuild_loop-append r [] fs = refl
  rebuild_loop-append r (e ∷ es) fs = rebuild_loop-append (rebuild_step o r e) es fs

  done-rebuild_step :
      (r : Rebuild) (e : Entry)
      → r.last_id ≢ ""
      → e.id ≢ ""
      → e.parent_id ≡ ""
      → (rebuild_loop o r (e ∷ [])).done ≡ r.done ++ record e { parent_id = r.last_id } ∷ []
  unfolding rebuild_loop rebuild_step
  done-rebuild_step r e last named top = ground arith

  -- A second root with an identifier, as an append after SetLeaf with the empty identifier makes it
  -- behind entries that are saved, is no root after a restart: the migration of Open makes the
  -- entry before it its parent.
  pub second_root_adopted :
      (s : Session) (e : Entry) (calls : ℕ)
      → IsWhole "" s.entries
      → last_from "" s.entries ≢ ""
      → e.id ≢ ""
      → e.parent_id ≡ ""
      → (rebuild_loop o (rebuild_start o calls) (s.entries ++ e ∷ [])).done
        ≡ s.entries ++ record e { parent_id = last_from "" s.entries } ∷ []
  second_root_adopted s e calls w last named top =
      rw
        (
          rebuild_loop-append (rebuild_start o calls) s.entries (e ∷ []),
          rebuild_loop-whole o (rebuild_start o calls) s.entries w,
        )
        (done-rebuild_step _ e last named top)
