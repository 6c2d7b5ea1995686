-- ===== src/Session/Rebuilt.antt =====
-- internal/session/manager.go: the index that Open rebuilds.
use pi_go_coding_agent.Base.{
  ℕ, String, arith, ◌≡◌, refl, inl, inr, List, [], ◌∷◌, ◌++◌, none, some, Bool-cases, Option-cases,
  ◌||◌, ltb, ==-refl, length, last?, last?-snoc,
}
use pi_go_coding_agent.Base.Dict.{Dict, lookup, insert, lookup-insert}
use pi_go_coding_agent.Session.Data.{Entry, Header, Line}
use pi_go_coding_agent.Session.World.{Outside, Session, Result, ok, err, read_lines, continue_keeps}
use pi_go_coding_agent.Session.Open.{
  Rebuild, rebuild_step, rebuild_loop, rebuild_start, rebuild, load_lines, open_session, parse_file,
}
use pi_go_coding_agent.Session.Invariant.{IsIndexed}
use pi_go_coding_agent.Session.Placed.{Placed, Placed-snoc, nothing-Placed}
use pi_go_coding_agent.Session.Operations.{manager-flush_all}

-- An index that is right about the entries, and has the last one.
record Points (es : List Entry) (d : Dict ℕ) : Type 0 where
  right : Placed es d
  last : (e : Entry) → last? es ≡ some e → (i : ℕ) × (lookup e.id d ≡ some i)

module _ (es : List Entry) (d : Dict ℕ) (e : Entry) where
  Points-snoc : Points es d → Points (es ++ e ∷ []) (insert e.id (length es) d)
  Points-snoc v = record {
    right = Placed-snoc es d e v.right;
    last = λ x h.
        let same : e ≡ x = ground (arith, last?-snoc es e) in
        (length es, rw (← same, lookup-insert, ==-refl));
  }

nothing_yet : Points [] []
unfolding lookup
nothing_yet = record { right = nothing-Placed; last = λ e at. cc }

module _ (o : Outside) where
  rebuild_loop-Points :
      (r : Rebuild) (es : List Entry)
      → Points r.done r.index
      → Points (rebuild_loop o r es).done (rebuild_loop o r es).index
  unfolding rebuild_loop rebuild_step
  rebuild_loop-Points r [] v = v
  rebuild_loop-Points r (e ∷ es) v =
      rebuild_loop-Points (rebuild_step o r e) es (Points-snoc r.done r.index _ v)

  -- The migrated session before it may be written out.
  rebuilt-IsIndexed :
      (s : Session) (h : Header) (calls : ℕ)
      → s.leaf_id ≡ ""
      → let r = rebuild_loop o (rebuild_start o calls) s.entries in
        IsIndexed (record s.manager {
          header = h;
          entries = r.done;
          by_id = r.index;
          leaf_id = elim (last? r.done) [ none ↦ s.leaf_id | some e ↦ e.id ];
        })
  rebuilt-IsIndexed s h calls top =
      let r = rebuild_loop o (rebuild_start o calls) s.entries in
      let v = rebuild_loop-Points (rebuild_start o calls) s.entries nothing_yet in
      record {
        indexed = v.right;
        leaf = elim (Option-cases (last? r.done)) [
          | inl none_there ↦ inl (rw none_there top)
          | inr (e, there) ↦ inr (rw there (v.last e there))
        ];
      }

  rebuild-IsIndexed : (s : Session) → s.leaf_id ≡ "" → IsIndexed (rebuild o s).manager
  unfolding rebuild
  rebuild-IsIndexed s top =
      let r = rebuild_loop o (rebuild_start o s.calls) s.entries in
      let old = ltb s.header.version 3 in
      elim (Bool-cases (r.changed || old)) [
        | inl changed ↦
            simp (changed, rebuild, manager-flush_all) (rebuilt-IsIndexed s _ s.calls top)
        | inr kept ↦ simp (kept, rebuild) (rebuilt-IsIndexed s _ s.calls top)
      ]

  parsed-IsIndexed :
      (path : String) (lines : List Line) (p : Result (Header × List Entry)) (s : Session)
      → parse_file lines ≡ p
      → s.leaf_id ≡ ""
      → IsIndexed s.manager
      → IsIndexed (load_lines o path lines s).1.manager
  unfolding load_lines
  parsed-IsIndexed path lines (err why) s at top v = simp (at, load_lines) v
  parsed-IsIndexed path lines (ok (h, es)) s at top v =
      simp (at, load_lines) (rebuild-IsIndexed _ top)

  -- Whatever a file holds, entries without identifiers, with the same ones, or with parents that are
  -- missing or form a cycle, and whether or not it can be read and written: Open, on a manager without
  -- a leaf, leaves an index in which each identifier stands for an entry that has it, and a leaf
  -- that is in the index, or none.
  pub open_session-IsIndexed :
      (path : String) (s : Session)
      → s.leaf_id ≡ ""
      → IsIndexed s.manager
      → IsIndexed (open_session o path s).1.manager
  unfolding open_session
  open_session-IsIndexed path s top v =
      continue_keeps IsIndexed (read_lines o path s.world).0 _ _ v
        (λ lines. parsed-IsIndexed path lines (parse_file lines) _ refl top v)
