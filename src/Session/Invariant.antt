-- ===== src/Session/Invariant.antt =====
-- internal/session/manager.go: what holds of the manager's index and leaf, and of the parents.
use pi_go_coding_agent.Base.{
  ℕ, zero, suc, ◌<◌, String, ◌≡◌, ◌≢◌, refl, ap, ◌⊎◌, inl, inr, List, [], ◌∷◌, ◌++◌, some, length,
  get_elem?, arith,
}
use pi_go_coding_agent.Base.Dict.{lookup}
use pi_go_coding_agent.Session.Data.{Entry, Manager, new_manager}

-- An identifier of the index is that of the entry at its place, and the leaf is one, or empty.
pub record IsIndexed (m : Manager) : Type 0 where
  pub indexed :
      (k : String) (i : ℕ)
      → lookup k m.by_id ≡ some i
      → (e : Entry) × (get_elem? m.entries i ≡ some e) × (e.id ≡ k)
  pub leaf : (m.leaf_id ≡ "") ⊎ ((i : ℕ) × (lookup m.leaf_id m.by_id ≡ some i))

-- Every entry has an identifier of its own, and an earlier entry as parent, or none.
pub record IsTree (m : Manager) : Type 0 where
  pub places : IsIndexed m
  pub open places use *
  pub listed : (i : ℕ) (e : Entry) → get_elem? m.entries i ≡ some e → lookup e.id m.by_id ≡ some i
  pub named : (i : ℕ) (e : Entry) → get_elem? m.entries i ≡ some e → e.id ≢ ""
  pub parents :
      (i : ℕ) (e : Entry)
      → get_elem? m.entries i ≡ some e
      → (e.parent_id ≡ "") ⊎ ((j : ℕ) × (lookup e.parent_id m.by_id ≡ some j) × (j < i))

pub new_manager-IsTree : (dir : String) → IsTree (new_manager dir)
unfolding new_manager lookup
new_manager-IsTree dir = record {
  places = record { indexed = λ k i h. cc; leaf = inl refl };
  listed = λ i e h. cc;
  named = λ i e h. cc;
  parents = λ i e h. cc;
}

-- Where an element of a list with one more element is.
pub snoc_cases :
    (es : List Entry) (x : Entry) (i : ℕ) {e : Entry}
    → get_elem? (es ++ x ∷ []) i ≡ some e
    → (get_elem? es i ≡ some e) ⊎ ((i ≡ length es) × (e ≡ x))
snoc_cases [] x zero h = inr (refl, ground arith)
snoc_cases [] x (suc i) h = cc
snoc_cases (y ∷ ys) x zero h = inl h
snoc_cases (y ∷ ys) x (suc i) h = elim (snoc_cases ys x i h) [
  | inl old ↦ inl old
  | inr (at, same) ↦ inr (ap suc at, same)
]
