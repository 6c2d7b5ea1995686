-- ===== src/Session/Grow.antt =====
-- internal/session/manager.go: appendEntry and SetLeaf, and the index and leaf of the manager.
use pi_go_coding_agent.Base.{
  ℕ, ◌<◌, String, ◌≡◌, ◌≢◌, refl, subst, ◌∙◌, ◌⊎◌, inl, inr, [], ◌∷◌, none, some, length,
  Bool-cases, get_elem?-lt, get_elem?-append, get_elem?-snoc, arith, ◌==◌, Option-cases, ==-refl,
}
use pi_go_coding_agent.Base.Dict.{lookup, lookup-insert, has_key}
use pi_go_coding_agent.Session.Data.{Entry, Manager}
use pi_go_coding_agent.Session.World.{Session}
use pi_go_coding_agent.Session.Append.{add_entry, set_leaf}
use pi_go_coding_agent.Session.Invariant.{IsIndexed, IsTree, snoc_cases}

module _ (e : Entry) (m : Manager) where
  pub lookup-add_self : lookup e.id (add_entry e m).by_id ≡ some (length m.entries)
  unfolding add_entry
  lookup-add_self = rw lookup-insert (rw ==-refl)

  pub lookup-add : (k : String) → e.id ≢ k → lookup k (add_entry e m).by_id ≡ lookup k m.by_id
  unfolding add_entry
  lookup-add k differ = ground (arith, lookup-insert e.id k (length m.entries) m.by_id)

  pub add-cases :
      (k : String) (i : ℕ)
      → lookup k (add_entry e m).by_id ≡ some i
      → ((e.id ≡ k) × (i ≡ length m.entries)) ⊎ (lookup k m.by_id ≡ some i)
  unfolding add_entry
  add-cases k i h = ground (arith, lookup-insert e.id k (length m.entries) m.by_id)

  pub add_entry-IsIndexed : IsIndexed m → IsIndexed (add_entry e m)
  unfolding add_entry
  add_entry-IsIndexed v = record {
    indexed = λ k i h. elim (add-cases k i h) [
      | inl (same, at) ↦ (e, rw at (get_elem?-snoc m.entries e), same)
      | inr old ↦
          let found = v.indexed k i old in
          (found.0, get_elem?-append m.entries (e ∷ []) i found.1, found.2)
    ];
    leaf = inr (length m.entries, lookup-add_self);
  }

  module _ (fresh : lookup e.id m.by_id ≡ none) where
    pub lookup-add_old :
        (k : String) (i : ℕ) → lookup k m.by_id ≡ some i → lookup k (add_entry e m).by_id ≡ some i
    lookup-add_old k i h =
        lookup-add k (λ same. cc (subst (λ x. lookup x m.by_id ≡ none) same fresh)) ∙ h

    parent_of :
        (k : String)
        → (k ≡ "") ⊎ ((i : ℕ) × (lookup k m.by_id ≡ some i))
        → IsIndexed m
        → (k ≡ "") ⊎ ((j : ℕ) × (lookup k (add_entry e m).by_id ≡ some j) × (j < length m.entries))
    parent_of k (inl root) v = inl root
    parent_of k (inr (i, at)) v =
        inr (i, lookup-add_old k i at, get_elem?-lt m.entries i (v.indexed k i at).1)

    -- An entry with a new identifier, whose parent is the leaf, leaves the entries a tree.
    pub add_entry-IsTree : e.id ≢ "" → e.parent_id ≡ m.leaf_id → IsTree m → IsTree (add_entry e m)
    unfolding add_entry
    add_entry-IsTree name up v = record {
      places = add_entry-IsIndexed v.places;
      listed = λ i x h. elim (snoc_cases m.entries e i h) [
        | inl old ↦ lookup-add_old x.id i (v.listed i x old)
        | inr (at, same) ↦ rw (at, same) lookup-add_self
      ];
      named = λ i x h. elim (snoc_cases m.entries e i h) [
        | inl old ↦ v.named i x old
        | inr (at, same) ↦ rw same name
      ];
      parents = λ i x h. elim (snoc_cases m.entries e i h) [
        | inl old ↦ elim (v.parents i x old) [
          | inl root ↦ inl root
          | inr (j, at, before) ↦ inr (j, lookup-add_old x.parent_id j at, before)
        ]
        | inr (at, same) ↦ rw (at, same, up) (parent_of m.leaf_id v.leaf v.places)
      ];
    }

module _ {m : Manager} {id : String} where
  move_leaf :
      (id ≡ "") ⊎ ((i : ℕ) × (lookup id m.by_id ≡ some i))
      → IsTree m
      → IsTree (record m { leaf_id = id })
  move_leaf at v = record {
    places = record { indexed = v.indexed; leaf = at };
    listed = v.listed;
    named = v.named;
    parents = v.parents;
  }

-- SetLeaf keeps the entries a tree, whatever the identifier.
pub set_leaf-IsTree :
    (id : String) (s : Session) → IsTree s.manager → IsTree (set_leaf id s).1.manager
unfolding set_leaf has_key
set_leaf-IsTree id s v = elim (Bool-cases (id == "")) [
  | inl root ↦ rw (root, set_leaf) (move_leaf (inl refl) v)
  | inr named ↦ elim (Option-cases (lookup id s.by_id)) [
    | inl missing ↦ rw (named, missing, set_leaf, has_key) v
    | inr (i, at) ↦ rw (named, at, set_leaf, has_key) (move_leaf (inr (i, at)) v)
  ]
]
