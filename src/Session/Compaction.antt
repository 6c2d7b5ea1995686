-- ===== src/Session/Compaction.antt =====
-- internal/session/manager.go: the messages that BuildContext gives for a compacted branch, against
-- a description by the split of the branch at its last compaction.
use pi_go_coding_agent.Base.{
  ℕ, suc, String, ◌≡◌, refl, ap, ◌∙◌, inl, inr, List, [], ◌∷◌, ◌++◌, some, Bool-cases, true, false,
  ◌&&◌, if◌then◌else◌, arith, ◌==◌, ==-refl, length, take, drop, All,
}
use pi_go_coding_agent.Session.Data.{Entry}
use pi_go_coding_agent.Session.Context.{
  Settings, settings_step, settings_of, first_settings, entry_messages, all_messages, is_compaction,
  compaction_index, kept_messages, compacted_messages, branch_messages, context_of,
  summary_messages,
}

-- The entries from the one with this identifier on.
unfoldable pub from_entry : String → List Entry → List Entry
from_entry first [] = []
from_entry first (e ∷ es) = if e.id == first then e ∷ es else from_entry first es

kept_all :
    (now : ℕ) (first : String) (es : List Entry)
    → kept_messages now first true es ≡ all_messages now es
unfolding kept_messages all_messages
kept_all now first [] = refl
kept_all now first (e ∷ es) = ap (◌++◌ (entry_messages now e)) (kept_all now first es)

kept-from_entry :
    (now : ℕ) (first : String) (es : List Entry)
    → kept_messages now first false es ≡ all_messages now (from_entry first es)
unfolding kept_messages from_entry
kept-from_entry now first [] = unfold all_messages in refl
kept-from_entry now first (e ∷ es) = elim (Bool-cases (e.id == first)) [
  | inl here ↦
      rw (here, from_entry)
        (unfold all_messages in ap (◌++◌ (entry_messages now e)) (kept_all now first es))
  | inr later ↦ rw (later, from_entry) (kept-from_entry now first es)
]

-- `es` has no compaction entry.
abbrev pub NoCompaction : List Entry → Type 0
NoCompaction = All (λ e. is_compaction e ≡ false)

-- No entry of `es` is a compaction entry with this identifier.
abbrev pub NotCompactedAs : String → List Entry → Type 0
NotCompactedAs id = All (λ e. (is_compaction e && (e.id == id)) ≡ false)

compacted-settings_step :
    (s : Settings) (e : Entry)
    → is_compaction e ≡ false
    → (settings_step s e).compacted ≡ s.compacted
unfolding settings_step
compacted-settings_step s e h = ground arith

step_at_compaction :
    (s : Settings) (e : Entry) → is_compaction e ≡ true → (settings_step s e).compacted ≡ some e
unfolding settings_step
step_at_compaction s e h = ground arith

compacted-settings_of :
    (s : Settings) (es : List Entry) → NoCompaction es → (settings_of s es).compacted ≡ s.compacted
unfolding settings_of
compacted-settings_of s [] h = refl
compacted-settings_of s (e ∷ es) h =
    compacted-settings_of (settings_step s e) es h.1 ∙ compacted-settings_step s e h.0

settings_of-append :
    (s : Settings) (es fs : List Entry)
    → settings_of s (es ++ fs) ≡ settings_of (settings_of s es) fs
unfolding settings_of
settings_of-append s [] fs = refl
settings_of-append s (e ∷ es) fs = settings_of-append (settings_step s e) es fs

module _ (pre post : List Entry) (c : Entry) (is_c : is_compaction c ≡ true) where
  last_compaction :
      NoCompaction post → (settings_of first_settings (pre ++ c ∷ post)).compacted ≡ some c
  unfolding settings_of
  last_compaction h =
      ap (λ (s : Settings). s.compacted) (settings_of-append first_settings pre (c ∷ post))
      ∙ (compacted-settings_of _ post h ∙ step_at_compaction _ c is_c)

compaction_index-append :
    (pre post : List Entry) (c : Entry)
    → is_compaction c ≡ true
    → NotCompactedAs c.id pre
    → compaction_index c.id (pre ++ c ∷ post) ≡ some (length pre)
unfolding compaction_index
compaction_index-append [] post c is_c h = rw (is_c, ==-refl)
compaction_index-append (e ∷ es) post c is_c h =
    rw (h.0, compaction_index-append es post c is_c h.1)

take-length : {A : Type 0} (xs ys : List A) → take (length xs) (xs ++ ys) ≡ xs
take-length [] ys = refl
take-length (x ∷ xs) ys = ap (◌∷◌ x) (take-length xs ys)

drop-length : {A : Type 0} (xs ys : List A) (y : A) → drop (suc (length xs)) (xs ++ y ∷ ys) ≡ ys
drop-length [] ys y = refl
drop-length (x ∷ xs) ys y = drop-length xs ys y

-- Split at its last compaction entry, where no compaction before has the same identifier, a branch
-- gives the summary, the messages from the first kept entry up to the compaction, and all messages
-- after it.
pub messages-context_of :
    (now : ℕ) (pre post : List Entry) (c : Entry)
    → is_compaction c ≡ true
    → NotCompactedAs c.id pre
    → NoCompaction post
    → (context_of now (pre ++ c ∷ post)).messages
      ≡ summary_messages now "<summary>\n" c.summary "\n</summary>"
        ++ (all_messages now (from_entry c.first_kept_entry pre) ++ all_messages now post)
unfolding context_of branch_messages compacted_messages
messages-context_of now pre post c is_c before after = rw (
  last_compaction pre post c is_c after,
  compaction_index-append pre post c is_c before,
  take-length,
  drop-length,
  kept-from_entry,
)

-- Without a compaction entry a branch gives the messages of its entries in order.
pub messages-context_of_plain :
    (now : ℕ) (es : List Entry)
    → NoCompaction es
    → (context_of now es).messages ≡ all_messages now es
unfolding context_of branch_messages
messages-context_of_plain now es h = rw (compacted-settings_of first_settings es h)
