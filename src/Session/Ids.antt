-- ===== src/Session/Ids.antt =====
-- internal/session/manager.go: shortID, nextIDSeen and nextID.
use pi_go_coding_agent.Base.{
  ℕ, zero, suc, ◌/◌, ◌%◌, String, List, [], ◌∷◌, none, some, take, get_elem?, length, leb,
  if◌then◌else◌,
}
use pi_go_coding_agent.Base.{◌++◌, ◌-◌, map, reverse}
use pi_go_coding_agent.Base.Text.{◌^^◌}
use pi_go_coding_agent.Base.Dict.{Dict, has_key}
use pi_go_coding_agent.Session.World.{Outside}

abbrev digits : List String
digits =
    "0" ∷ "1" ∷ "2" ∷ "3" ∷ "4" ∷ "5" ∷ "6" ∷ "7" ∷ "8" ∷ "9" ∷ "a" ∷ "b" ∷ "c" ∷ "d" ∷ "e" ∷ "f"
    ∷ []

hex_digit : ℕ → String
hex_digit n = elim (get_elem? digits n) [ none ↦ "" | some d ↦ d ]

concat : List String → String
concat [] = ""
concat (x ∷ xs) = x ^^ concat xs

-- hex.EncodeToString
hex_encode : List ℕ → String
unfolding hex_digit
hex_encode [] = ""
hex_encode (b ∷ bs) = hex_digit (b / 16) ^^ hex_digit (b % 16) ^^ hex_encode bs

-- The hexadecimal digits of a number below 16 ^ rounds, the last one first.
hex_reversed : ℕ → ℕ → List ℕ
hex_reversed zero n = []
hex_reversed (suc rounds) n =
    let rest = hex_reversed rounds (n / 16) in if leb n 0 then [] else (n % 16) ∷ rest

zeros : ℕ → List ℕ
zeros zero = []
zeros (suc n) = 0 ∷ zeros n

-- The first eight characters of fmt.Sprintf("%08x", n), for a 64-bit n.
hex_prefix : ℕ → String
unfolding hex_reversed zeros concat hex_digit
hex_prefix n =
    let ds = reverse (hex_reversed 16 n) in
    concat (map hex_digit (take 8 (zeros (8 - length ds) ++ ds)))

module _ (o : Outside) where
  -- shortID: the identifier, and the number of the next outside call.
  unfoldable pub short_id : ℕ → String × ℕ
  unfolding hex_encode hex_prefix
  short_id n = elim (o.random n) [
    | some bytes ↦ (hex_encode bytes, suc n)
    | none ↦ (hex_prefix (o.nanos (suc n)), suc (suc n))
  ]

  -- The loop of nextIDSeen, with the rounds that are left.
  unfoldable pub next_id_loop : {V : Type 0} → ℕ → Dict V → ℕ → String × ℕ
  next_id_loop zero seen n = let (a, n₁) = short_id n in let (b, n₂) = short_id n₁ in (a ^^ b, n₂)
  next_id_loop (suc rounds) seen n =
      let (id, n₁) = short_id n in
      let again = next_id_loop rounds seen n₁ in if has_key id seen then again else (id, n₁)

  -- nextIDSeen
  unfoldable pub next_id_seen : {V : Type 0} → Dict V → ℕ → String × ℕ
  next_id_seen seen n = next_id_loop 100 seen n
