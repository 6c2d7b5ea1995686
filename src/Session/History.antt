-- ===== src/Session/History.antt =====
-- internal/session/manager.go: what an append does to the branches, to the file and to the manager.
use pi_go_coding_agent.Base.{
  ℕ, suc, String, ◌≡◌, ◌≢◌, ap, sym, subst, ◌∙◌, ◌⊎◌, inl, inr, List, [], ◌∷◌, ◌++◌, none, some,
  length, Bool-cases, false, if◌then◌else◌, arith, ◌==◌, Option-cases, ==-refl, ==→≡, reverse,
}
use mathlib.Core.List.{reverse-cons, reverse-reverse}
use pi_go_coding_agent.Base.Dict.{lookup, insert}
use pi_go_coding_agent.Session.Data.{Entry, Manager, Line, entry_line}
use pi_go_coding_agent.Session.World.{Outside, Session, ok, err}
use pi_go_coding_agent.Session.Ids.{next_id_seen}
use pi_go_coding_agent.Session.Append.{add_entry, stamp, append_new, append_entry}
use pi_go_coding_agent.Session.Branch.{branch}
use pi_go_coding_agent.Session.Invariant.{IsTree}
use pi_go_coding_agent.Session.Grow.{lookup-add_self, lookup-add_old, add_entry-IsTree}
use pi_go_coding_agent.Session.Lineage.{
  Lineage, root, up, Lineage-add, branch-Lineage, branch-eq, entry_at-add_self,
}

module _ (e : Entry) (m : Manager) (v : IsTree m) (fresh : lookup e.id m.by_id ≡ none)
    (named : e.id ≢ "") (below : e.parent_id ≡ m.leaf_id) where
  grown : IsTree (add_entry e m)
  grown = add_entry-IsTree e m fresh named below v

  -- In a tree, an entry with a new identifier whose parent is the leaf leaves the branches of all
  -- entries that were there as they were.
  pub branch-add_old :
      (id : String) (i : ℕ) → lookup id m.by_id ≡ some i → branch (add_entry e m) id ≡ branch m id
  branch-add_old id i at =
      branch-eq (add_entry e m) grown id i (reverse (branch m id))
        (lookup-add_old e m fresh id i at) (Lineage-add e m fresh (branch-Lineage m v id i at))
      ∙ reverse-reverse (branch m id)

  from_leaf :
      (m.leaf_id ≡ "") ⊎ ((i : ℕ) × (lookup m.leaf_id m.by_id ≡ some i))
      → (m.leaf_id == "") ≡ false
      → branch (add_entry e m) e.id ≡ branch m m.leaf_id ++ e ∷ []
  from_leaf (inl top) on = cc (==-refl "", ap (λ (x : String). x == "") top)
  from_leaf (inr (i, at)) on =
      branch-eq (add_entry e m) grown e.id (length m.entries) (e ∷ reverse (branch m m.leaf_id))
        (lookup-add_self e m)
        (up e.id e named (entry_at-add_self e m) (
          subst (λ (k : String). Lineage (add_entry e m) k (reverse (branch m m.leaf_id)))
            (sym below) (Lineage-add e m fresh (branch-Lineage m v m.leaf_id i at))))
      ∙ (reverse-cons e (reverse (branch m m.leaf_id))
          ∙ ap (λ (es : List Entry). es ++ e ∷ []) (reverse-reverse (branch m m.leaf_id)))

  -- In a tree, for an entry with a new identifier whose parent is the leaf: the branch of the new
  -- entry is that of the old leaf with the new entry at its end, or the new entry alone if there
  -- was no leaf.
  pub branch-add :
      branch (add_entry e m) e.id ≡ (if m.leaf_id == "" then [] else branch m m.leaf_id) ++ e ∷ []
  branch-add = elim (Bool-cases (m.leaf_id == "")) [
    | inl top ↦ rw top (
        branch-eq (add_entry e m) grown e.id (length m.entries) (e ∷ []) (lookup-add_self e m)
          (up e.id e named (entry_at-add_self e m) (root _ (below ∙ ==→≡ _ _ top))))
    | inr on ↦ rw on (from_leaf v.leaf on)
  ]

module _ (o : Outside) (e : Entry) (s : Session) where
  -- The entry is in the manager and its line at the end of the file.
  abbrev pub Kept : Session → Type 0
  Kept s' =
      (s'.manager ≡ add_entry e s.manager)
      × ((ls : List Line) × (lookup s.session_file s.files ≡ some ls)
          × (s'.files ≡ insert s.session_file (ls ++ entry_line (o.entry_size e) e ∷ []) s.files))

  -- Neither the manager nor a file has changed.
  abbrev pub Untouched : Session → Type 0
  Untouched s' = (s'.manager ≡ s.manager) × (s'.files ≡ s.files)

  append_entry_cases :
      ((append_entry o e s).0 ≡ ok tt) × Kept (append_entry o e s).1
      ⊎ ((why : String) × ((append_entry o e s).0 ≡ err why)) × Untouched (append_entry o e s).1
  unfolding append_entry
  append_entry_cases = elim (Bool-cases (s.session_file == "")) [
    | inl none_open ↦
        inr (("session is not initialized", ground arith), (ground arith, ground arith))
    | inr is_open ↦ elim (Option-cases (o.refuses s.calls)) [
      | inr (why, no_open) ↦ inr ((why, ground arith), (ground arith, ground arith))
      | inl may_open ↦ elim (Option-cases (lookup s.session_file s.files)) [
        | inl missing ↦
            inr (("no such file or directory", ground arith), (ground arith, ground arith))
        | inr (ls, there) ↦ elim (Option-cases (o.refuses (suc s.calls))) [
          | inr (why, no_write) ↦ inr ((why, ground arith), (ground arith, ground arith))
          | inl may_write ↦ inl (ground arith, (ground arith, (ls, there, ground arith)))
        ]
      ]
    ]
  ]

pub append_new_cases :
    (o : Outside) (draft : Entry) (s : Session)
    → let e = stamp o s draft in
      let (r, s') = append_new o draft s in
      ((r ≡ ok e) × Kept o e s s') ⊎ (((why : String) × (r ≡ err why)) × Untouched o e s s')
unfolding append_new
append_new_cases o draft s = elim (append_entry_cases o (stamp o s draft) started) [
  | inl (done, (grew, (ls, there, wrote))) ↦
      inl (ground arith, (ground arith, (ls, there, ground arith)))
  | inr ((why, failed), same) ↦ inr ((why, ground arith), (ground arith, ground arith))
]
  where
    started : Session
    started = record s { world = record s.world { calls = suc (next_id_seen o s.by_id s.calls).1 } }
