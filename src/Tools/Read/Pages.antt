-- ===== src/Tools/Read/Pages.antt =====
-- internal/tools/read.go: a file that is read page by page.
use pi_go_coding_agent.Base.{
  ℕ, zero, suc, ◌+◌, ◌-◌, ◌<◌, ◌≤◌, String, Bool-cases, true, false, List, [], ◌∷◌, ◌++◌,
  append-nil, ◌≡◌, refl, ap, sym, ◌∙◌, inl, inr, arith, ltb, leb, length, take, drop,
  take-append-drop, length-drop, if◌then◌else◌,
}
use pi_go_coding_agent.Session.World.{ok, err}
use pi_go_coding_agent.Tools.Read.{Page, page_of}

-- Reads at an offset, and then where each page says to continue.
unfoldable pub read_on : ℕ → List String → ℕ → ℕ → List String
read_on zero ls limit offset = []
read_on (suc fuel) ls limit offset = elim (page_of ls true offset limit) [
  | err why ↦ []
  | ok p ↦
      let rest = read_on fuel ls limit (suc p.end) in
      p.shown ++ (if ltb p.end p.total then rest else [])
]

module _ {A : Type 0} where
  take_all : (n : ℕ) (xs : List A) → length xs ≤ n → take n xs ≡ xs
  take_all zero [] h = refl
  take_all zero (x ∷ xs) h = ground arith
  take_all (suc n) [] h = refl
  take_all (suc n) (x ∷ xs) h = ap (◌∷◌ x) (take_all n xs (omega arith))

  drop-nil : (n : ℕ) → drop {A = A} n [] ≡ []
  drop-nil zero = refl
  drop-nil (suc n) = refl

  drop-drop : (m n k : ℕ) (xs : List A) → m + n ≡ k → drop n (drop m xs) ≡ drop k xs
  drop-drop zero n k xs e = ap (λ (i : ℕ). drop i xs) (omega arith)
  drop-drop (suc m) n k [] e = drop-nil n ∙ sym (drop-nil k)
  drop-drop (suc m) n zero (x ∷ xs) e = ground arith
  drop-drop (suc m) n (suc k) (x ∷ xs) e = drop-drop m n k xs (omega arith)

  split_drop : (m n : ℕ) (xs : List A) → take n (drop m xs) ++ drop (m + n) xs ≡ drop m xs
  split_drop m n xs = rw (← drop-drop m n (m + n) xs refl) (take-append-drop n (drop m xs))

page_to : List String → ℕ → ℕ → Page
page_to ls start end = record {
  shown = take (end - start) (drop start ls);
  start = start;
  end = end;
  total = length ls;
}

page_inside :
    (ls : List String) (limit start : ℕ)
    → start < length ls
    → page_of ls true (suc start) limit
      ≡ ok (page_to ls start (if ltb (length ls) (start + limit) then length ls else start + limit))
unfolding page_of page_to
page_inside ls limit start inside =
    let on : leb (length ls) start ≡ false = ground arith in
    let from : suc start - 1 ≡ start = omega arith in rw (from, on)

read_page_to :
    (fuel : ℕ) (ls : List String) (limit start end : ℕ)
    → page_of ls true (suc start) limit ≡ ok (page_to ls start end)
    → read_on (suc fuel) ls limit (suc start)
      ≡ take (end - start) (drop start ls)
        ++ (if ltb end (length ls) then read_on fuel ls limit (suc end) else [])
unfolding read_on page_to
read_page_to fuel ls limit start end at = simp (at, read_on)

last_page :
    (ls rest : List String) (start end : ℕ)
    → ltb end (length ls) ≡ false
    → take (end - start) (drop start ls) ++ (if ltb end (length ls) then rest else [])
      ≡ drop start ls
last_page ls rest start end h =
    let all_in : length ls ≤ end = ground arith in
    rw h
      (append-nil _ ∙ take_all (end - start) (drop start ls) (omega (arith, length-drop start ls)))

-- With a limit of at least one line, reading on from an offset inside the file shows all lines from
-- it on, each once and in order; as many pages as there are lines left are enough.
pub read_on-drop :
    (fuel : ℕ) (ls : List String) (limit start : ℕ)
    → 0 < limit
    → start < length ls
    → length ls ≤ start + fuel
    → read_on fuel ls limit (suc start) ≡ drop start ls
unfolding read_on
read_on-drop zero ls limit start pos_limit inside enough = ground arith
read_on-drop (suc fuel) ls limit start pos_limit inside enough =
    elim (Bool-cases (ltb (length ls) (start + limit))) [
      | inl short ↦
          read_page_to fuel ls limit start (length ls)
            (page_inside ls limit start inside ∙ rw short)
          ∙ last_page ls _ start (length ls) (ground arith)
      | inr full ↦
          read_page_to fuel ls limit start (start + limit)
            (page_inside ls limit start inside ∙ rw full)
          ∙ elim (Bool-cases (ltb (start + limit) (length ls))) [
            | inl more ↦
                let inside' : start + limit < length ls = ground arith in
                let size : start + limit - start ≡ limit = omega arith in
                rw
                  (
                    more,
                    size,
                    read_on-drop fuel ls limit (start + limit) pos_limit inside' (omega arith),
                  )
                  (split_drop start limit ls)
            | inr whole ↦ last_page ls _ start (start + limit) whole
          ]
    ]
