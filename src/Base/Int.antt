-- ===== src/Base/Int.antt =====
-- Go's signed `int` as an integer over the native numbers, with the tests that the program makes.
use Prim.Native.Nat.{ℕ, zero, suc}
use mathlib.Core.Bool.{Bool, true, false}
use zeus_dns_cli.Base.Tests.{ltb}

-- `negsuc n` is -(n + 1).
pub data ℤ : Type 0 where
  pos : ℕ → ℤ
  negsuc : ℕ → ℤ

-- The integer where it is positive, 0 elsewhere.
abbrev pub to_ℕ : ℤ → ℕ
to_ℕ (pos n) = n
to_ℕ (negsuc n) = 0

-- `a < n` and `n < a` at a number `n`.
abbrev pub ltb_pos : ℤ → ℕ → Bool
ltb_pos (pos a) n = ltb a n
ltb_pos (negsuc a) n = true

abbrev pub pos_ltb : ℕ → ℤ → Bool
pos_ltb n (pos a) = ltb n a
pos_ltb n (negsuc a) = false

-- `a <= 0`
abbrev pub leb_zero : ℤ → Bool
leb_zero (pos zero) = true
leb_zero (pos (suc n)) = false
leb_zero (negsuc n) = true
