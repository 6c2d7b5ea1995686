-- ===== src/Config/Models/Resolve.antt =====
-- internal/config/models.go: what ResolveModel finds.
use pi_go_coding_agent.Base.{
  ◌≢◌, ≢→==, ℕ, zero, suc, String, Bool, Bool-cases, Option-cases, true, false, List, [], ◌∷◌, none,
  some, ◌≡◌, refl, ap, sym, ◌∙◌, ◌⊎◌, inl, inr, arith, keep, get_elem?, ◌||◌, ◌==◌, if◌then◌else◌,
}
use pi_go_coding_agent.Base.Text.{equal_fold}
use pi_go_coding_agent.Session.World.{ok}
use pi_go_coding_agent.Config.Models.{Model, ModelRegistry}
use pi_go_coding_agent.Config.Models.Search.{
  find_model, string_ltb, result_of, default_of, least, matches_both, matches_part, resolve_at,
  resolve_any, resolve_model,
}

-- A model of the list that passes the test.
abbrev pub Found : (Model → Bool) → List Model → Model → Type 0
Found p ms m = (i : ℕ) × (get_elem? ms i ≡ some m) × (p m ≡ true)

find_model-Found :
    (p : Model → Bool) (ms : List Model) (m : Model) → find_model p ms ≡ some m → Found p ms m
unfolding find_model
find_model-Found p [] m h = ground arith
find_model-Found p (x ∷ xs) m h = elim (Bool-cases (p x)) [
  | inl hit ↦ let same : x ≡ m = some_inj (rw hit at h) in (0, ap some same, rw (← same) hit)
  | inr miss ↦ let (i, at, passes) = find_model-Found p xs m (rw miss at h) in (suc i, at, passes)
]
  where
    some_inj : {a b : Model} → some a ≡ some b → a ≡ b
    some_inj e = cc

find_model-none :
    (p : Model → Bool) (ms : List Model) (i : ℕ) (m : Model)
    → find_model p ms ≡ none
    → get_elem? ms i ≡ some m
    → p m ≡ false
unfolding find_model
find_model-none p [] i m h at = ground arith
find_model-none p (x ∷ xs) zero m h at = ground arith
find_model-none p (x ∷ xs) (suc i) m h at = find_model-none p xs i m (ground arith) at

keep_hit :
    (p : Model → Bool) (x : Model) (xs : List Model) → p x ≡ true → keep p (x ∷ xs) ≡ x ∷ keep p xs
keep_hit p x xs h = ground arith

keep_miss :
    (p : Model → Bool) (x : Model) (xs : List Model) → p x ≡ false → keep p (x ∷ xs) ≡ keep p xs
keep_miss p x xs h = ground arith

keep-Found :
    (p : Model → Bool) (ms : List Model) (i : ℕ) (m : Model)
    → get_elem? (keep p ms) i ≡ some m
    → Found p ms m
keep-Found p [] i m h = ground arith
keep-Found p (x ∷ xs) i m h = elim (Bool-cases (p x)) [
  | inr miss ↦
      let there : get_elem? (keep p xs) i ≡ some m =
        ap (λ (l : List Model). get_elem? l i) (sym (keep_miss p x xs miss)) ∙ h in
      let (j, at, passes) = keep-Found p xs i m there in (suc j, at, passes)
  | inl hit ↦
      first_or_later i (ap (λ (l : List Model). get_elem? l i) (sym (keep_hit p x xs hit)) ∙ h) hit
        (λ k. keep-Found p xs k m)
]
  where
    first_or_later :
        (k : ℕ)
        → get_elem? (x ∷ keep p xs) k ≡ some m
        → p x ≡ true
        → ((j : ℕ) → get_elem? (keep p xs) j ≡ some m → Found p xs m)
        → Found p (x ∷ xs) m
    first_or_later zero at hit later = let same : x ≡ m = cc in (0, at, rw (← same) hit)
    first_or_later (suc k) at hit later =
        let (j, there, passes) = later k at in (suc j, there, passes)

least-get_elem? :
    (m : Model) (ms : List Model) → (i : ℕ) × (get_elem? (m ∷ ms) i ≡ some (least m ms))
unfolding least
least-get_elem? m [] = (0, refl)
least-get_elem? m (x ∷ xs) = elim (Bool-cases (string_ltb x.id m.id)) [
  | inl less ↦ let (i, at) = least-get_elem? x xs in (suc i, at ∙ rw less)
  | inr more ↦ let (i, at) = least-get_elem? m xs in skip i (at ∙ rw more)
]
  where
    skip :
        (i : ℕ) {z : Model}
        → get_elem? (m ∷ xs) i ≡ some z
        → (j : ℕ) × (get_elem? (m ∷ x ∷ xs) j ≡ some z)
    skip zero at = (0, at)
    skip (suc i) at = (suc (suc i), at)

-- What a search with a provider may give: a model of the provider.
abbrev pub of_provider : String → Model → Bool
of_provider provider m = equal_fold m.provider provider

both-of_provider :
    (provider id : String) (m : Model)
    → matches_both provider id m ≡ true
    → of_provider provider m ≡ true
both-of_provider provider id m h = ground arith

ok_inj : {a b : Model} → ok a ≡ ok b → a ≡ b
ok_inj e = cc

Found-also :
    (p q : Model → Bool) (ms : List Model) (x m : Model)
    → Found p ms x
    → x ≡ m
    → (p x ≡ true → q x ≡ true)
    → Found q ms m
Found-also p q ms x m (i, at, passes) same widen =
    (i, at ∙ ap some same, rw (← same) (widen passes))

resolve_at-Found :
    (ms : List Model) (provider id : String) (m : Model)
    → resolve_at ms provider id ≡ ok m
    → Found (of_provider provider) ms m
unfolding resolve_at result_of
resolve_at-Found ms provider id m h =
    elim (Option-cases (find_model (matches_both provider id) ms)) [
      | inr (x, hit) ↦
          Found-also (matches_both provider id) (of_provider provider) ms x m
            (find_model-Found _ ms x hit) (ok_inj (simp (hit, resolve_at) at h))
            (both-of_provider provider id x)
      | inl nothing ↦ elim (Bool-cases (id == "")) [
        | inr named ↦ ground (arith, simp (nothing, named, resolve_at) at h)
        | inl open_id ↦ elim (Option-cases (find_model (of_provider provider) ms)) [
          | inl nobody ↦ ground (arith, simp (nothing, open_id, nobody, resolve_at, result_of) at h)
          | inr (x, hit) ↦
              Found-also (of_provider provider) (of_provider provider) ms x m
                (find_model-Found _ ms x hit)
                (ok_inj (simp (nothing, open_id, hit, resolve_at, result_of) at h)) (λ e. e)
        ]
      ]
    ]

-- The test of a search without a provider: the identifier up to case, or a part of it or the name.
abbrev pub named_as : String → Model → Bool
named_as id m = equal_fold m.id id || matches_part id m

named-equal_fold : (id : String) (m : Model) → equal_fold m.id id ≡ true → named_as id m ≡ true
named-equal_fold id m h = ground arith

named-matches_part : (id : String) (m : Model) → matches_part id m ≡ true → named_as id m ≡ true
named-matches_part id m h = rw h (or_true _)
  where
    or_true : (b : Bool) → (b || true) ≡ true
    or_true true = refl
    or_true false = refl

-- A model that is found without a provider is one of the list, and has the identifier asked for, or
-- has it as a part of its identifier or name.
pub resolve_any-Found :
    (ms : List Model) (id : String) (m : Model)
    → resolve_any ms id ≡ ok m
    → Found (named_as id) ms m
unfolding resolve_any
resolve_any-Found ms id m h = elim (Option-cases (find_model (λ x. equal_fold x.id id) ms)) [
  | inr (x, hit) ↦
      Found-also (λ y. equal_fold y.id id) (named_as id) ms x m (find_model-Found _ ms x hit)
        (ok_inj (simp (hit, resolve_any) at h)) (named-equal_fold id x)
  | inl nothing ↦ elim (cases_of (keep (matches_part id) ms)) [
    | inl nobody ↦ ground (arith, simp (nothing, nobody, resolve_any) at h)
    | inr (x, xs, some_there) ↦
        let (i, at) = least-get_elem? x xs in
        let kept : get_elem? (keep (matches_part id) ms) i ≡ some (least x xs) =
          ap (λ (l : List Model). get_elem? l i) some_there ∙ at in
        Found-also (matches_part id) (named_as id) ms (least x xs) m
          (keep-Found (matches_part id) ms i (least x xs) kept)
          (ok_inj (simp (nothing, some_there, resolve_any) at h))
          (named-matches_part id (least x xs))
  ]
]
  where
    cases_of : (xs : List Model) → (xs ≡ []) ⊎ ((y : Model) × (ys : List Model) × (xs ≡ y ∷ ys))
    cases_of [] = inl refl
    cases_of (y ∷ ys) = inr (y, ys, refl)

-- A model that ResolveModel gives for a provider that is named is one of the registry and, up to
-- case, of that provider.
pub resolve_model-Found :
    (r : ModelRegistry) (provider id : String) (m : Model)
    → resolve_model r provider id ≡ ok m
    → provider ≢ ""
    → Found (of_provider provider) r.models m
unfolding resolve_model
resolve_model-Found r provider id m h given =
    resolve_at-Found r.models provider (if id == "" then default_of r provider else id) m
      (simp (≢→== provider "" given, resolve_model) at h)

-- If the registry has a model with this provider and identifier, up to case, and neither is empty,
-- then ResolveModel gives a model of the registry with them.
pub resolve_model-finds :
    (r : ModelRegistry) (provider id : String) (i : ℕ) (m : Model)
    → get_elem? r.models i ≡ some m
    → matches_both provider id m ≡ true
    → provider ≢ ""
    → id ≢ ""
    → (n : Model) × (resolve_model r provider id ≡ ok n)
      × Found (matches_both provider id) r.models n
unfolding resolve_model resolve_at
resolve_model-finds r provider id i m at both given named =
    elim (Option-cases (find_model (matches_both provider id) r.models)) [
      | inr (n, hit) ↦ (
        n,
        simp (≢→== provider "" given, ≢→== id "" named, hit, resolve_model, resolve_at),
        find_model-Found (matches_both provider id) r.models n hit,
      )
      | inl nothing ↦
          ground (arith, find_model-none (matches_both provider id) r.models i m nothing at)
    ]
