-- ===== src/Base/Strings.antt =====
-- More of Go's package strings: prefixes, suffixes and cuts. A length is counted in bytes of UTF-8.
use Prim.Native.Char.{code}
use Prim.Native.Nat.{ℕ, ◌+◌, ◌-◌}
use Prim.Native.String.{String}
use mathlib.Core.Bool.{Bool, true, false, ◌&&◌, ◌||◌}
use mathlib.Core.List.{List, [], ◌∷◌}
use mathlib.Core.Logic.{ite}
use mathlib.Core.Option.{Option, none, some}
use native.Mathlib.Decide.{ℕ_discrete}
use pi_go_coding_agent.Base.Tests.{ltb, leb, ◌==◌, if◌then◌else◌}

abbrev pub is_code : ℕ → ℕ → Bool
is_code a b = ite (ℕ_discrete a b) true false

-- strings.HasPrefix
unfoldable pub has_prefix : String → String → Bool
has_prefix String.[] t = if t == "" then true else false
has_prefix (String.◌∷◌ c s) String.[] = true
has_prefix (String.◌∷◌ c s) (String.◌∷◌ d t) =
    let rest = has_prefix s t in (String.◌∷◌ c "" == String.◌∷◌ d "") && rest

-- strings.Contains
unfoldable pub contains : String → String → Bool
unfolding has_prefix
contains String.[] t = has_prefix "" t
contains (String.◌∷◌ c s) t = let rest = contains s t in has_prefix (String.◌∷◌ c s) t || rest

-- strings.HasSuffix
unfoldable pub has_suffix : String → String → Bool
has_suffix String.[] t = t == ""
has_suffix (String.◌∷◌ c s) t = let rest = has_suffix s t in (String.◌∷◌ c s == t) || rest

-- strings.TrimSuffix
unfoldable pub trim_suffix : String → String → String
trim_suffix String.[] t = ""
trim_suffix (String.◌∷◌ c s) t =
    let rest = trim_suffix s t in if String.◌∷◌ c s == t then "" else String.◌∷◌ c rest

-- strings.TrimPrefix
unfoldable pub trim_prefix : String → String → String
trim_prefix s String.[] = s
trim_prefix String.[] (String.◌∷◌ d t) = ""
trim_prefix (String.◌∷◌ c s) (String.◌∷◌ d t) =
    let rest = trim_prefix s t in
    if has_prefix (String.◌∷◌ c s) (String.◌∷◌ d t) then rest else String.◌∷◌ c s

-- strings.TrimRight for a set of characters
unfoldable pub trim_right_of : (ℕ → Bool) → String → String
trim_right_of p String.[] = ""
trim_right_of p (String.◌∷◌ c s) =
    let rest = trim_right_of p s in if (rest == "") && p (code c) then "" else String.◌∷◌ c rest

-- strings.Cut at a character: what stands before the first, and what stands after it if there is one.
unfoldable pub cut_at : ℕ → String → String × Option String
unfolding ℕ_discrete
cut_at n String.[] = ("", none)
cut_at n (String.◌∷◌ c s) =
    let (before, after) = cut_at n s in
    if is_code (code c) n then ("", some s) else (String.◌∷◌ c before, after)

-- strings.Split at a character
unfoldable pub split_on : ℕ → String → List String
unfolding ℕ_discrete
split_on n String.[] = "" ∷ []
split_on n (String.◌∷◌ c s) =
    let rest = split_on n s in
    if is_code (code c) n
    then "" ∷ rest
    else elim rest [ [] ↦ String.◌∷◌ c "" ∷ [] | x ∷ xs ↦ String.◌∷◌ c x ∷ xs ]

-- The bytes of a character
abbrev pub utf8_size : ℕ → ℕ
utf8_size n = if ltb n 0x80 then 1 else if ltb n 0x800 then 2 else if ltb n 0x10000 then 3 else 4

-- len(s)
unfoldable pub byte_length : String → ℕ
byte_length String.[] = 0
byte_length (String.◌∷◌ c s) = utf8_size (code c) + byte_length s

-- s[:n], without a character that it would cut into
unfoldable pub take_bytes : ℕ → String → String
take_bytes n String.[] = ""
take_bytes n (String.◌∷◌ c s) =
    let rest = take_bytes (n - utf8_size (code c)) s in
    if leb (utf8_size (code c)) n then String.◌∷◌ c rest else ""

abbrev pub text_or_empty : Option String → String
text_or_empty none = ""
text_or_empty (some s) = s
