-- ===== src/Session/Total.antt =====
-- internal/session/manager.go: the loop of Branch and its rounds.
use Prim.Native.Nat.add
use pi_go_coding_agent.Base.{
  ℕ, zero, suc, ◌<◌, ◌+◌, ◌≤◌, String, ◌≡◌, refl, ap, inl, inr, List, [], ◌∷◌, some, Bool,
  Bool-cases, false, not, arith, ◌==◌, Option-cases, length, keep, any, get_elem?, reverse,
}
use pi_go_coding_agent.Base.Dict.{lookup}
use pi_go_coding_agent.Session.Data.{Entry, Manager}
use pi_go_coding_agent.Session.Branch.{walk, entry_at, branch, start_of, enough}
use pi_go_coding_agent.Session.Invariant.{IsIndexed}

abbrev is_seen : List String → Entry → Bool
is_seen seen e = any (λ s. s == e.id) seen

-- The entries whose identifier the loop has not seen.
abbrev unseen : List String → List Entry → List Entry
unseen seen = keep (λ e. not (is_seen seen e))

length-unseen-cons-le :
    (cur : String) (seen : List String) (es : List Entry)
    → length (unseen (cur ∷ seen) es) ≤ length (unseen seen es)
length-unseen-cons-le cur seen [] = omega arith
length-unseen-cons-le cur seen (e ∷ es) = ground (arith, length-unseen-cons-le cur seen es)

-- A round that sees an entry for the first time leaves fewer.
length-unseen-cons-lt :
    (cur : String) (seen : List String) (es : List Entry) (i : ℕ) (e : Entry)
    → get_elem? es i ≡ some e
    → e.id ≡ cur
    → any (λ s. s == cur) seen ≡ false
    → length (unseen (cur ∷ seen) es) < length (unseen seen es)
length-unseen-cons-lt cur seen [] i e at same new = cc
length-unseen-cons-lt cur seen (x ∷ es) zero e at same new =
    let here : x.id ≡ cur = cc in
    let unseen_here : is_seen seen x ≡ false = rw here new in
    ground (arith, length-unseen-cons-le cur seen es)
length-unseen-cons-lt cur seen (x ∷ es) (suc i) e at same new =
    ground (arith, length-unseen-cons-lt cur seen es i e at same new)

walk_more :
    (m : Manager) (v : IsIndexed m) (fuel more : ℕ) (seen : List String) (cur : String)
    → length (unseen seen m.entries) < fuel
    → walk m (fuel + more) seen cur ≡ walk m fuel seen cur
unfolding walk entry_at
walk_more m v zero more seen cur lt = elim lt [ ]
walk_more m v (suc fuel) more seen cur lt = rw add.suc (elim (Bool-cases (cur == "")) [
  | inl top ↦ rw (top, walk)
  | inr named ↦ elim (Bool-cases (any (λ s. s == cur) seen)) [
    | inl old ↦ rw (named, old, walk)
    | inr new ↦ elim (Option-cases (lookup cur m.by_id)) [
      | inl missing ↦ rw (named, new, missing, walk, entry_at)
      | inr (i, at) ↦
          let (e, there, same) = v.indexed cur i at in
          rw (named, new, at, there, walk, entry_at)
            (ap (◌∷◌ e) (
              walk_more m v fuel more (cur ∷ seen) e.parent_id
                (omega (arith, length-unseen-cons-lt cur seen m.entries i e there same new))))
    ]
  ]
])

-- No entry is new to the loop before it has started.
length-unseen-nil : (es : List Entry) → length (unseen [] es) ≡ length es
length-unseen-nil [] = refl
length-unseen-nil (e ∷ es) = ap suc (length-unseen-nil es)

-- On every index that is right about its entries, also one whose parents form a cycle, the rounds
-- that the model gives Branch are enough: any number of further rounds gives the same entries.
pub branch_total :
    (m : Manager) (leaf : String) (more : ℕ)
    → IsIndexed m
    → reverse (walk m (enough m + more) [] (start_of m leaf)) ≡ branch m leaf
unfolding branch
branch_total m leaf more v = ap reverse (
    walk_more m v (enough m) more [] (start_of m leaf) (omega (arith, length-unseen-nil m.entries)))
