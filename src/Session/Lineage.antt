-- ===== src/Session/Lineage.antt =====
-- internal/session/manager.go: Branch against an independent description of the way up the tree.
use pi_go_coding_agent.Base.{
  ℕ, zero, suc, ◌<◌, String, ◌≡◌, ◌≢◌, refl, ap, sym, subst, ◌∙◌, inl, inr, List, [], ◌∷◌, none,
  some, false, get_elem?, get_elem?-lt, get_elem?-append, get_elem?-snoc, arith, ◌==◌, Option-cases,
  ≢→==, any, reverse, All,
}
use mathlib.Core.List.{reverse-reverse}
use pi_go_coding_agent.Base.Dict.{lookup}
use pi_go_coding_agent.Session.Data.{Entry, Manager}
use pi_go_coding_agent.Session.Append.{add_entry}
use pi_go_coding_agent.Session.Branch.{entry_at, walk, branch, start_of, enough}
use pi_go_coding_agent.Session.Invariant.{IsTree}
use pi_go_coding_agent.Session.Grow.{lookup-add_self, lookup-add_old}

-- `Lineage m id es`: `es` are the entry `id`, its parent, the parent's parent and so on up to an
-- entry with no parent.
pub data Lineage (m : Manager) : String → List Entry → Type 0 where
  root : (id : String) → id ≡ "" → Lineage m id []
  up :
      (id : String) (e : Entry) {es : List Entry}
      → id ≢ ""
      → entry_at m id ≡ some e
      → Lineage m e.parent_id es
      → Lineage m id (e ∷ es)

-- An entry has one lineage.
pub Lineage-unique :
    {m : Manager} {id : String} {es fs : List Entry} → Lineage m id es → Lineage m id fs → es ≡ fs
Lineage-unique (root id p) (root _ q) = refl
Lineage-unique (root id p) (up _ e q at l) = absurd (q p)
Lineage-unique (up id e p at l) (root _ q) = absurd (p q)
Lineage-unique {m} (up id e p at l) (up _ f {es = fs} q at' k) =
    let same : e ≡ f = cc in
    cc (same, Lineage-unique l (subst (λ (x : Entry). Lineage m x.parent_id fs) (sym same) k))

-- Every identifier seen stands behind the place `i`.
abbrev Behind : Manager → ℕ → List String → Type 0
Behind m i = All (λ s. (j : ℕ) × (lookup s m.by_id ≡ some j) × (i < j))

differ :
    (m : Manager) (s k : String) (i : ℕ)
    → lookup k m.by_id ≡ some i
    → (j : ℕ) × (lookup s m.by_id ≡ some j) × (i < j)
    → s ≢ k
differ m s k i at (j, at', lt) same =
    let e : lookup s m.by_id ≡ some i = rw same at in let f : i ≡ j = cc in omega arith

not_seen :
    (m : Manager) (k : String) (i : ℕ) (seen : List String)
    → lookup k m.by_id ≡ some i
    → Behind m i seen
    → any (λ s. s == k) seen ≡ false
not_seen m k i [] at b = refl
not_seen m k i (s ∷ seen) at (s_behind, b) =
    ground (arith, not_seen m k i seen at b, differ m s k i at s_behind)

Behind-mono :
    (m : Manager) (j i : ℕ) (seen : List String) → j < i → Behind m i seen → Behind m j seen
Behind-mono m j i [] lt b = tt
Behind-mono m j i (s ∷ seen) lt ((k, at, behind), b) =
    ((k, at, omega arith), Behind-mono m j i seen lt b)

walk-root :
    (m : Manager) (fuel : ℕ) (seen : List String) (cur : String)
    → cur ≡ ""
    → walk m fuel seen cur ≡ []
unfolding walk
walk-root m zero seen cur e = refl
walk-root m (suc fuel) seen cur e = ground arith

walk-Lineage :
    (m : Manager) (v : IsTree m) (fuel : ℕ) (k : String) (i : ℕ) (seen : List String)
    → lookup k m.by_id ≡ some i
    → i < fuel
    → Behind m i seen
    → Lineage m k (walk m fuel seen k)
unfolding walk entry_at
walk-Lineage m v zero k i seen at lt b = elim lt [ ]
walk-Lineage m v (suc fuel) k i seen at lt b =
    rw (≢→== k "" named, not_seen m k i seen at b, at, found.1, walk, entry_at)
      (up k found.0 named (rw (at, found.1, entry_at)) (elim (v.parents i found.0 found.1) [
        | inl top ↦ rw (walk-root m fuel (k ∷ seen) found.0.parent_id top) (root _ top)
        | inr (j, at', before) ↦
            walk-Lineage m v fuel found.0.parent_id j (k ∷ seen) at' (omega arith)
              ((i, at, before), Behind-mono m j i seen before b)
      ]))
  where
    found : (e : Entry) × (get_elem? m.entries i ≡ some e) × (e.id ≡ k)
    found = v.indexed k i at

    named : k ≢ ""
    named e = v.named i found.0 found.1 (found.2 ∙ e)

module _ (m : Manager) (v : IsTree m) where
  start_of_named : (id : String) → id ≢ "" → start_of m id ≡ id
  unfolding start_of
  start_of_named id named = rw (≢→== id "" named, ≢→== id "" named)

  named_of_listed : (id : String) (i : ℕ) → lookup id m.by_id ≡ some i → id ≢ ""
  named_of_listed id i at e =
      let found = v.indexed id i at in v.named i found.0 found.1 (found.2 ∙ e)

  -- Where the entries form a tree, Branch of an identifier of the index gives the lineage of its
  -- entry, from the root down: the entry, its parent, and so on up to an entry without one.
  pub branch-Lineage :
      (id : String) (i : ℕ) → lookup id m.by_id ≡ some i → Lineage m id (reverse (branch m id))
  unfolding branch
  branch-Lineage id i at =
      rw (start_of_named id (named_of_listed id i at), reverse-reverse)
        (walk-Lineage m v (enough m) id i [] at
          (omega (arith, get_elem?-lt m.entries i (v.indexed id i at).1)) tt)

  pub branch-eq :
      (id : String) (i : ℕ) (es : List Entry)
      → lookup id m.by_id ≡ some i
      → Lineage m id es
      → branch m id ≡ reverse es
  branch-eq id i es at l =
      sym (reverse-reverse (branch m id)) ∙ ap reverse (Lineage-unique (branch-Lineage id i at) l)

module _ (e : Entry) (m : Manager) (fresh : lookup e.id m.by_id ≡ none) where
  entry_at-add :
      (k : String) (x : Entry) → entry_at m k ≡ some x → entry_at (add_entry e m) k ≡ some x
  unfolding entry_at
  entry_at-add k x h = elim (Option-cases (lookup k m.by_id)) [
    | inl missing ↦ let none_found : none ≡ some x = rw (missing, entry_at) at h in cc
    | inr (i, at) ↦
        let old : get_elem? m.entries i ≡ some x = rw (at, entry_at) at h in
        rw (lookup-add_old e m fresh k i at, entry_at)
          (unfold add_entry in get_elem?-append m.entries (e ∷ []) i old)
  ]

  pub Lineage-add : {k : String} {es : List Entry} → Lineage m k es → Lineage (add_entry e m) k es
  Lineage-add (root k top) = root k top
  Lineage-add (up k x named at l) = up k x named (entry_at-add k x at) (Lineage-add l)

pub entry_at-add_self : (e : Entry) (m : Manager) → entry_at (add_entry e m) e.id ≡ some e
unfolding entry_at
entry_at-add_self e m =
    rw (lookup-add_self e m, entry_at) (unfold add_entry in get_elem?-snoc m.entries e)
