-- ===== src/Session/Branch.antt =====
-- internal/session/manager.go: Branch, the way from an entry up to its root.
use pi_go_coding_agent.Base.{
  ℕ, zero, suc, String, List, [], ◌∷◌, Option, none, some, length, get_elem?, last?, any, reverse,
  ◌==◌, if◌then◌else◌,
}
use pi_go_coding_agent.Base.Dict.{lookup}
use pi_go_coding_agent.Session.Data.{Entry, Manager}

-- m.entries[m.byID[id]]. Where the code would panic at an index out of range, this is `none`.
unfoldable pub entry_at : Manager → String → Option Entry
unfolding lookup
entry_at m id = elim (lookup id m.by_id) [ none ↦ none | some i ↦ get_elem? m.entries i ]

-- The loop of Branch, newest entry first, with the identifiers that it has seen.
unfoldable pub walk : Manager → ℕ → List String → String → List Entry
walk m zero seen cur = []
walk m (suc fuel) seen cur =
    if cur == ""
    then []
    else if any (λ s. s == cur) seen
    then []
    else elim (entry_at m cur) [ none ↦ [] | some e ↦ e ∷ walk m fuel (cur ∷ seen) e.parent_id ]

-- A round of the loop sees an entry for the first time, so this many rounds are enough.
abbrev pub enough : Manager → ℕ
enough m = suc (length m.entries)

-- The leaf that Branch starts from.
unfoldable pub start_of : Manager → String → String
start_of m leaf =
    let first = if leaf == "" then m.leaf_id else leaf in
    if first == "" then elim (last? m.entries) [ none ↦ "" | some e ↦ e.id ] else first

unfoldable pub branch : Manager → String → List Entry
branch m leaf = reverse (walk m (enough m) [] (start_of m leaf))
