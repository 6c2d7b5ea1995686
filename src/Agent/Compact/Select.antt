-- ===== src/Agent/Compact/Select.antt =====
-- internal/agent/runtime.go: the part of a branch that a compaction keeps.
use pi_go_coding_agent.Base.{
  ℕ, zero, suc, ◌+◌, ◌-◌, ◌<◌, String, Bool-cases, true, false, List, [], ◌∷◌, ◌++◌, append-nil,
  ◌≡◌, ◌≢◌, refl, ap, sym, subst, ◌∙◌, arith, some, ≢→==, ==-refl, length, get_elem?, leb, inl, inr,
  All,
}
use pi_go_coding_agent.Session.Data.{Entry}
use pi_go_coding_agent.Session.Context.{context_of, all_messages, summary_messages, is_compaction}
use pi_go_coding_agent.Session.Compaction.{from_entry, NotCompactedAs, messages-context_of}
use pi_go_coding_agent.Agent.Compact.{
  message_like_ids, is_message_like, select_first_kept, at_least_one,
}

-- A branch split at an entry that adds a message, with `n` such entries from it on.
pub record KeptFrom (es : List Entry) (n : ℕ) (first : String) : Type 0 where
  pub before : List Entry
  pub entry : Entry
  pub behind : List Entry
  pub split : es ≡ before ++ entry ∷ behind
  pub found : entry.id ≡ first
  pub message_like : is_message_like entry ≡ true
  pub count : length (message_like_ids (entry ∷ behind)) ≡ n

some_inj : {x y : String} → some x ≡ some y → x ≡ y
some_inj h = cc

leb_gt : (a b : ℕ) → leb a b ≡ false → b < a
leb_gt a b h = ground arith

later :
    {es : List Entry} {n : ℕ} {first : String} (e : Entry)
    → KeptFrom es n first
    → KeptFrom (e ∷ es) n first
later e k = record {
  before = e ∷ k.before;
  entry = k.entry;
  behind = k.behind;
  split = ap (◌∷◌ e) k.split;
  found = k.found;
  message_like = k.message_like;
  count = k.count;
}

split_at :
    (es : List Entry) (i n : ℕ) (first : String)
    → get_elem? (message_like_ids es) i ≡ some first
    → length (message_like_ids es) ≡ i + n
    → KeptFrom es n first
unfolding message_like_ids
split_at [] i n first at len = ground arith
split_at (e ∷ es) zero n first here len = elim (Bool-cases (is_message_like e)) [
  | inr passes ↦ later e (split_at es zero n first (rw passes at here) (rw passes at len))
  | inl adds ↦ record {
    before = [];
    entry = e;
    behind = es;
    split = refl;
    found = some_inj (rw adds at here);
    message_like = adds;
    count = omega arith;
  }
]
split_at (e ∷ es) (suc i) n first here len = elim (Bool-cases (is_message_like e)) [
  | inr passes ↦ later e (split_at es (suc i) n first (rw passes at here) (rw passes at len))
  | inl adds ↦ later e (split_at es i n first (rw adds at here) (omega (arith, rw adds at len)))
]

-- The entry that is chosen stands on the branch, and from it on there are as many entries with a
-- message as are to be kept.
pub select_first_kept-KeptFrom :
    (es : List Entry) (keep_recent : ℕ) (first : String)
    → select_first_kept es keep_recent ≡ some first
    → KeptFrom es (at_least_one keep_recent) first
unfolding select_first_kept
select_first_kept-KeptFrom es k first h =
    elim (Bool-cases (leb (length (message_like_ids es)) (at_least_one k))) [
      | inl few ↦ ground arith
      | inr many ↦
          split_at es (length (message_like_ids es) - at_least_one k) (at_least_one k) first
            (rw many at h)
            (omega (arith, leb_gt (length (message_like_ids es)) (at_least_one k) many))
    ]

-- No two entries have the same identifier.
abbrev pub Distinct : List Entry → Type 0
Distinct [] = Unit
Distinct (e ∷ es) = All (λ f. f.id ≢ e.id) es × Distinct es

found_after :
    (xs ys : List Entry) (y : Entry) (id : String) → All (λ f. f.id ≢ id) (xs ++ y ∷ ys) → y.id ≢ id
found_after [] ys y id h = h.0
found_after (x ∷ xs) ys y id h = found_after xs ys y id h.1

from_entry-split :
    (before behind : List Entry) (entry : Entry)
    → Distinct (before ++ entry ∷ behind)
    → from_entry entry.id (before ++ entry ∷ behind) ≡ entry ∷ behind
unfolding from_entry
from_entry-split [] behind entry d = rw ==-refl
from_entry-split (x ∷ xs) behind entry d =
    let differs : x.id ≢ entry.id = λ same. found_after xs behind entry x.id d.0 (sym same) in
    rw (≢→== x.id entry.id differs) (from_entry-split xs behind entry d.1)

-- If a branch of entries with distinct identifiers is followed by a compaction, with an identifier
-- of its own, that keeps from what select_first_kept chose, the context is the summary and the
-- messages of a last part of the branch with as many message-like entries as are to be kept.
pub compacted_context :
    (now : ℕ) (es : List Entry) (keep_recent : ℕ) (c : Entry)
    → Distinct es
    → is_compaction c ≡ true
    → NotCompactedAs c.id es
    → select_first_kept es keep_recent ≡ some c.first_kept_entry
    → (before : List Entry) × (kept : List Entry) × (es ≡ before ++ kept)
      × (length (message_like_ids kept) ≡ at_least_one keep_recent)
      × ((context_of now (es ++ c ∷ [])).messages
          ≡ summary_messages now "<summary>\n" c.summary "\n</summary>" ++ all_messages now kept)
unfolding all_messages
compacted_context now es k c d is_c fresh chosen =
    let k' = select_first_kept-KeptFrom es k c.first_kept_entry chosen in
    let kept : from_entry c.first_kept_entry es ≡ k'.entry ∷ k'.behind =
      rw (k'.split, ← k'.found)
        (from_entry-split k'.before k'.behind k'.entry (subst Distinct k'.split d)) in
    (
      k'.before,
      k'.entry ∷ k'.behind,
      k'.split,
      k'.count,
      messages-context_of now es [] c is_c fresh tt ∙ rw (kept, append-nil),
    )
