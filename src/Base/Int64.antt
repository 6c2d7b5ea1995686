-- ===== src/Base/Int64.antt =====
-- Go's int64: a number below 2^64 that stands for itself below 2^63, and above it for itself less
-- 2^64. Sums and products wrap around.
use Prim.Native.Nat.{ℕ, ◌+◌, ◌-◌, ◌*◌, ◌%◌, ◌^◌}
use mathlib.Core.Bool.{Bool, ◌&&◌}
use pi_go_coding_agent.Base.Tests.{ltb, leb}

abbrev pub Int64 : Type 0
Int64 = ℕ

abbrev pub int64_add : Int64 → Int64 → Int64
int64_add a b = (a + b) % 2 ^ 64

abbrev pub int64_mul : Int64 → Int64 → Int64
int64_mul a b = (a * b) % 2 ^ 64

abbrev pub int64_sub : Int64 → Int64 → Int64
int64_sub a b = (a + (2 ^ 64 - b)) % 2 ^ 64

-- a ≤ b, where both are moved up by 2^63
abbrev pub int64_leb : Int64 → Int64 → Bool
int64_leb a b = leb ((a + 2 ^ 63) % 2 ^ 64) ((b + 2 ^ 63) % 2 ^ 64)

-- a > 0
abbrev pub is_positive : Int64 → Bool
is_positive a = ltb 0 a && ltb a (2 ^ 63)
