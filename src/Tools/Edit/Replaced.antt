-- ===== src/Tools/Edit/Replaced.antt =====
-- internal/tools/edit.go: the content before and after an edit.
use Prim.Native.Char.{Char}
use text.Mathlib.TextLemmas.{nil-append, cons-append}
use pi_go_coding_agent.Base.{
  true, subst, String, Bool-cases, Option-cases, Option, none, some, ◌≡◌, ap, sym, ◌∙◌, inl, inr,
  arith, ◌==◌, ==→≡,
}
use pi_go_coding_agent.Base.Text.{◌^^◌}
use pi_go_coding_agent.Session.World.{ok}
use pi_go_coding_agent.Tools.Edit.{cut_prefix, cut, count_from, count, replaced, edit_text}

some_inj : {A : Type 0} {a b : A} → some a ≡ some b → a ≡ b
some_inj e = cc

ok_inj : {a b : String} → ok a ≡ ok b → b ≡ a
ok_inj e = cc

char_of : (c d : Char) → (String.◌∷◌ c "" == String.◌∷◌ d "") ≡ true → c ≡ d
char_of c d h = let same = ==→≡ (String.◌∷◌ c "") (String.◌∷◌ d "") h in cc

cut_prefix-eq : (s t a : String) → cut_prefix s t ≡ some a → s ≡ t ^^ a
unfolding cut_prefix
cut_prefix-eq s String.[] a h = some_inj h ∙ sym (nil-append a)
cut_prefix-eq String.[] (String.◌∷◌ d t) a h = ground arith
cut_prefix-eq (String.◌∷◌ c s) (String.◌∷◌ d t) a h =
    elim (Bool-cases (String.◌∷◌ c "" == String.◌∷◌ d "")) [
      | inl same ↦
          let ih = cut_prefix-eq s t a (rw (same, cut_prefix) at h) in
          let eq = char_of c d same in cc (cons-append d t a)
      | inr differ ↦ ground (arith, rw (differ, cut_prefix) at h)
    ]

at_front :
    (old s x b a : String)
    → s ≡ old ^^ x
    → ◌≡◌ {A = Option (String × String)} (some ("", x)) (some (b, a))
    → s ≡ b ^^ old ^^ a
at_front old s x b a e same =
    subst (λ (p : String × String). s ≡ p.0 ^^ old ^^ p.1) (some_inj same) (rw nil-append e)

later_on :
    (old s x y b a : String) (c : Char)
    → s ≡ x ^^ old ^^ y
    → ◌≡◌ {A = Option (String × String)} (some (String.◌∷◌ c x, y)) (some (b, a))
    → String.◌∷◌ c s ≡ b ^^ old ^^ a
later_on old s x y b a c e same =
    subst (λ (p : String × String). String.◌∷◌ c s ≡ p.0 ^^ old ^^ p.1) (some_inj same)
      (rw (cons-append c x old, cons-append c (x ^^ old) y) (ap (String.◌∷◌ c) e))

cut-eq : (old s b a : String) → cut old s ≡ some (b, a) → s ≡ b ^^ old ^^ a
unfolding cut
cut-eq old String.[] b a h = elim (Option-cases (cut_prefix "" old)) [
  | inl no_prefix ↦ ground (arith, simp (no_prefix, cut) at h)
  | inr (x, here) ↦ at_front old "" x b a (cut_prefix-eq "" old x here) (simp (here, cut) at h)
]
cut-eq old (String.◌∷◌ c s) b a h = elim (Option-cases (cut_prefix (String.◌∷◌ c s) old)) [
  | inr (x, here) ↦
      at_front old (String.◌∷◌ c s) x b a (cut_prefix-eq (String.◌∷◌ c s) old x here)
        (simp (here, cut) at h)
  | inl no_prefix ↦ elim (Option-cases (cut old s)) [
    | inl nowhere ↦ ground (arith, simp (no_prefix, nowhere, cut) at h)
    | inr ((x, y), there) ↦
        later_on old s x y b a c (cut-eq old s x y there) (simp (no_prefix, there, cut) at h)
  ]
]

-- An edit that is accepted changes one place: the content is a text before, the old text and a text
-- behind, with no further occurrence of the old text there, and the new content has the new text in
-- the place of the old one.
pub edit_text-replaces :
    (old new content updated : String)
    → edit_text old new content ≡ ok updated
    → (b : String) × (a : String) × (content ≡ b ^^ old ^^ a)
      × (updated ≡ b ^^ new ^^ a)
      × (cut old a ≡ none)
unfolding edit_text count count_from replaced
edit_text-replaces old new content updated h = elim (Option-cases (cut old content)) [
  | inl nowhere ↦ ground (arith, simp (nowhere, edit_text, count, count_from) at h)
  | inr ((b, a), there) ↦ elim (Option-cases (cut old a)) [
    | inl once ↦ (
      b,
      a,
      cut-eq old content b a there,
      ok_inj (simp (there, once, edit_text, count, count_from, replaced) at h),
      once,
    )
    | inr ((x, y), again) ↦ ground (arith, simp (there, again, edit_text, count, count_from) at h)
  ]
]
