-- ===== src/Tools/Numbers.antt =====
-- internal/tools: clampInt, and numbers as text: strconv.Atoi and the verb %d.
use Prim.Native.Char.{code, Char}
use Prim.Native.String
use native.Mathlib.Decide.{ℕ_discrete}
use pi_go_coding_agent.Base.{
  ℕ, zero, suc, ◌+◌, ◌-◌, ◌*◌, ◌/◌, ◌%◌, String, Bool, true, false, Option, none, some, ltb, leb,
  ◌&&◌, ite, if◌then◌else◌,
}
use pi_go_coding_agent.Base.Text.{◌^^◌}
use pi_go_coding_agent.Base.Int.{ℤ, pos, negsuc}

digit : ℕ → String
digit n = String.slice "0123456789" n (suc n)

decimal_from : ℕ → ℕ → String
unfolding digit
decimal_from zero n = ""
decimal_from (suc fuel) n =
    let rest = decimal_from fuel (n / 10) in if ltb n 10 then digit n else rest ^^ digit (n % 10)

-- A number has fewer digits than it counts, or one.
unfoldable pub decimal : ℕ → String
unfolding decimal_from
decimal n = decimal_from (suc n) n

is_digit : Char → Bool
is_digit c = leb 48 (code c) && leb (code c) 57

digits_from : ℕ → String → Option ℕ
unfolding is_digit
digits_from n String.[] = some n
digits_from n (String.◌∷◌ c s) =
    let rest = digits_from (n * 10 + (code c - 48)) s in if is_digit c then rest else none

digits : String → Option ℕ
unfolding digits_from
digits String.[] = none
digits (String.◌∷◌ c s) = digits_from 0 (String.◌∷◌ c s)

negated : ℕ → ℤ
negated zero = pos 0
negated (suc n) = negsuc n

max_int : ℕ
max_int = 9223372036854775807

positive_in_range : Option ℕ → Option ℤ
unfolding max_int
positive_in_range none = none
positive_in_range (some n) = if leb n max_int then some (pos n) else none

negative_in_range : Option ℕ → Option ℤ
unfolding max_int negated
negative_in_range none = none
negative_in_range (some n) = if leb n (suc max_int) then some (negated n) else none

-- strconv.Atoi, where `none` is an error
unfoldable pub atoi : String → Option ℤ
unfolding digits positive_in_range negative_in_range
atoi String.[] = none
atoi (String.◌∷◌ c s) =
    if ite (ℕ_discrete (code c) 45) true false
    then negative_in_range (digits s)
    else if ite (ℕ_discrete (code c) 43) true false
    then positive_in_range (digits s)
    else positive_in_range (digits (String.◌∷◌ c s))

-- clampInt for bounds that are not negative
unfoldable pub clamp_int : ℤ → ℕ → ℕ → ℕ
clamp_int (negsuc n) low high = low
clamp_int (pos n) low high = if ltb n low then low else if ltb high n then high else n
