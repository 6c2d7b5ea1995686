-- ===== src/Base/Text.antt =====
-- What the program uses of Go's package strings. The case of letters is that of ASCII.
use Prim.Native.Nat.{ℕ, ◌+◌}
use Prim.Native.Char.{code}
use Prim.Native.String
use Prim.Native.String.{String}
use mathlib.Core.Bool.{Bool, true, false, ◌&&◌, ◌||◌}
use mathlib.Core.List.{List, [], ◌∷◌}
use native.Mathlib.Decide.{ℕ_discrete}
use mathlib.Core.Logic.{ite}
use pi_go_coding_agent.Base.Tests.{leb, ◌==◌, if◌then◌else◌}

infixl 65 ◌^^◌
-- Go's `+` on strings.
abbrev pub ◌^^◌ : String → String → String
s ^^ t = String.◌++◌ s t

-- unicode.IsSpace
unfoldable pub is_space : ℕ → Bool
is_space c =
    (leb 9 c && leb c 13)
    || ite (ℕ_discrete c 32) true false
    || ite (ℕ_discrete c 0x85) true false
    || ite (ℕ_discrete c 0xa0) true false
    || ite (ℕ_discrete c 0x1680) true false
    || (leb 0x2000 c && leb c 0x200a)
    || ite (ℕ_discrete c 0x2028) true false
    || ite (ℕ_discrete c 0x2029) true false
    || ite (ℕ_discrete c 0x202f) true false
    || ite (ℕ_discrete c 0x205f) true false
    || ite (ℕ_discrete c 0x3000) true false

unfoldable pub trim_left : String → String
unfolding is_space ℕ_discrete
trim_left String.[] = ""
trim_left (String.◌∷◌ c s) =
    let rest = trim_left s in if is_space (code c) then rest else String.◌∷◌ c s

unfoldable pub trim_right : String → String
unfolding is_space ℕ_discrete
trim_right String.[] = ""
trim_right (String.◌∷◌ c s) =
    let rest = trim_right s in if (rest == "") && is_space (code c) then "" else String.◌∷◌ c rest

-- strings.TrimSpace
unfoldable pub trim_space : String → String
unfolding trim_left trim_right
trim_space s = trim_right (trim_left s)

-- strings.Join
unfoldable pub join : String → List String → String
join sep [] = ""
join sep (x ∷ []) = x
join sep (x ∷ y ∷ ys) = x ^^ sep ^^ join sep (y ∷ ys)

-- The code of an upper-case ASCII letter becomes that of the lower-case one.
abbrev pub lower_code : ℕ → ℕ
lower_code c = if leb 65 c && leb c 90 then c + 32 else c

-- strings.EqualFold(s, t), and strings.ToLower(s) == t for a lower-case t
unfoldable pub equal_fold : String → String → Bool
unfolding ℕ_discrete
equal_fold String.[] String.[] = true
equal_fold String.[] (String.◌∷◌ d t) = false
equal_fold (String.◌∷◌ c s) String.[] = false
equal_fold (String.◌∷◌ c s) (String.◌∷◌ d t) =
    let rest = equal_fold s t in
    if ite (ℕ_discrete (lower_code (code c)) (lower_code (code d))) true false then rest else false
