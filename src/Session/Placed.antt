-- ===== src/Session/Placed.antt =====
-- internal/session/manager.go: the index of a manager, through every method that changes it.
use pi_go_coding_agent.Base.{
  ℕ, String, Bool-cases, arith, ◌≡◌, refl, sym, ◌∙◌, inl, inr, List, [], ◌∷◌, ◌++◌, some, get_elem?,
  get_elem?-append, get_elem?-snoc, ◌==◌, ==→≡, length, ltb, ◌||◌,
}
use pi_go_coding_agent.Base.Dict.{Dict, lookup, insert, lookup-insert}
use pi_go_coding_agent.Session.Data.{Entry, Header, Line, Manager}
use pi_go_coding_agent.Session.World.{
  Outside, Session, Result, ok, err, Action, read_lines, make_dir, ◌>>=◌, return, continue_keeps,
}
use pi_go_coding_agent.Session.Append.{add_entry, stamp, append_new, set_leaf}
use pi_go_coding_agent.Session.Open.{
  Rebuild, rebuild_step, rebuild_loop, rebuild_start, rebuild, load_lines, open_session, parse_file,
  begin_session, create_new,
}
use pi_go_coding_agent.Session.History.{append_new_cases}
use pi_go_coding_agent.Session.Operations.{manager-flush_all}

-- Each identifier of the index stands for an entry that has it.
abbrev pub Placed : List Entry → Dict ℕ → Type 0
Placed es d =
    (k : String) (i : ℕ)
    → lookup k d ≡ some i
    → (e : Entry) × (get_elem? es i ≡ some e) × (e.id ≡ k)

abbrev pub IsPlaced : Manager → Type 0
IsPlaced m = Placed m.entries m.by_id

some_inj {ℓ} : {A : Type ℓ} {a b : A} → some a ≡ some b → a ≡ b
some_inj e = cc

pub Placed-snoc :
    (es : List Entry) (d : Dict ℕ) (e : Entry)
    → Placed es d
    → Placed (es ++ e ∷ []) (insert e.id (length es) d)
Placed-snoc es d e v k i at = elim (Bool-cases (e.id == k)) [
  | inl same ↦
      let here : some (length es) ≡ some i = sym (rw (lookup-insert, same) refl) ∙ at in
      let place : length es ≡ i = some_inj here in
      (e, rw (← place) (get_elem?-snoc es e), ==→≡ e.id k same)
  | inr differ ↦
      let old : lookup k d ≡ some i = sym (rw (lookup-insert, differ) refl) ∙ at in
      let (x, there, named) = v k i old in (x, get_elem?-append es (e ∷ []) i there, named)
]

pub nothing-Placed : Placed [] []
unfolding lookup
nothing-Placed k i at = cc

-- An action keeps the index right, whether or not it succeeds.
pub record Keeps {A : Type 0} (f : Action A) : Type 0 where
  pub keeps : (s : Session) → IsPlaced s.manager → IsPlaced (f s).1.manager

pub Keeps-bind :
    {A B : Type 0} (f : Action A) (g : A → Action B)
    → Keeps f
    → ((a : A) → Keeps (g a))
    → Keeps (f >>= g)
Keeps-bind f g kf kg = record {
  keeps = λ s v.
      continue_keeps IsPlaced (f s).0 g (f s).1 (kf.keeps s v)
        (λ a. (kg a).keeps (f s).1 (kf.keeps s v));
}

pub return-Keeps : {A : Type 0} (a : A) → Keeps (return a)
return-Keeps a = record { keeps = λ s v. v }

module _ (o : Outside) where
  pub append_new-Keeps : (draft : Entry) → Keeps (append_new o draft)
  unfolding add_entry
  append_new-Keeps draft = record {
    keeps = λ s v. elim (append_new_cases o draft s) [
      | inl (fine, (grew, wrote)) ↦ rw grew (Placed-snoc s.entries s.by_id (stamp o s draft) v)
      | inr (failed, (same, files)) ↦ rw same v
    ];
  }

  set_leaf_keeps :
      (id : String) (s : Session)
      → ((set_leaf id s).1.entries ≡ s.entries) × ((set_leaf id s).1.by_id ≡ s.by_id)
  unfolding set_leaf
  set_leaf_keeps id s = (ground arith, ground arith)

  pub set_leaf-Keeps : (id : String) → Keeps (set_leaf id)
  set_leaf-Keeps id = record {
    keeps = λ s v. let (es, index) = set_leaf_keeps id s in rw (es, index) v;
  }

  begin_session-IsPlaced :
      (cwd parent : String) (s : Session) → IsPlaced (begin_session o cwd parent s).manager
  unfolding begin_session
  begin_session-IsPlaced cwd parent s = nothing-Placed

  pub create_new-Keeps : (cwd parent : String) → Keeps (create_new o cwd parent)
  unfolding create_new
  create_new-Keeps cwd parent = record {
    keeps = λ s v.
        continue_keeps IsPlaced (make_dir o s.session_dir s.world).0 _ _ v
          (λ _. rw manager-flush_all (begin_session-IsPlaced cwd parent _));
  }

  rebuild_loop-Placed :
      (r : Rebuild) (es : List Entry)
      → Placed r.done r.index
      → Placed (rebuild_loop o r es).done (rebuild_loop o r es).index
  unfolding rebuild_loop rebuild_step
  rebuild_loop-Placed r [] v = v
  rebuild_loop-Placed r (e ∷ es) v =
      rebuild_loop-Placed (rebuild_step o r e) es (Placed-snoc r.done r.index _ v)

  rebuild-IsPlaced : (s : Session) → IsPlaced (rebuild o s).manager
  unfolding rebuild
  rebuild-IsPlaced s =
      let r = rebuild_loop o (rebuild_start o s.calls) s.entries in
      let v = rebuild_loop-Placed (rebuild_start o s.calls) s.entries nothing-Placed in
      elim (Bool-cases (r.changed || ltb s.header.version 3)) [
        | inl changed ↦ simp (changed, rebuild, manager-flush_all) v
        | inr kept ↦ simp (kept, rebuild) v
      ]

  parsed-IsPlaced :
      (path : String) (lines : List Line) (p : Result (Header × List Entry)) (s : Session)
      → parse_file lines ≡ p
      → IsPlaced s.manager
      → IsPlaced (load_lines o path lines s).1.manager
  unfolding load_lines
  parsed-IsPlaced path lines (err why) s at v = simp (at, load_lines) v
  parsed-IsPlaced path lines (ok (h, es)) s at v = simp (at, load_lines) (rebuild-IsPlaced _)

  pub open_session-Keeps : (path : String) → Keeps (open_session o path)
  unfolding open_session
  open_session-Keeps path = record {
    keeps = λ s v.
        continue_keeps IsPlaced (read_lines o path s.world).0 _ _ v
          (λ lines. parsed-IsPlaced path lines (parse_file lines) _ refl v);
  }
