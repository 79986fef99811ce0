-- ===== src/Prelude/Int.antt =====
-- Integers over the native numbers, and two's complement.
use Prim.Native.Nat.{ℕ, ◌+◌, ◌-◌}
use jehad_os.Prelude.{ltb, leb, if◌then◌else◌}

-- `negsuc n` is -(n + 1).
pub data ℤ : Type 0 where
  pos : ℕ → ℤ
  negsuc : ℕ → ℤ

abbrev pub pos_part : ℤ → ℕ
pos_part (pos n) = n
pos_part (negsuc n) = 0

abbrev pub neg_part : ℤ → ℕ
neg_part (pos n) = 0
neg_part (negsuc n) = n + 1

-- a - b, as an integer
abbrev pub sub_ℕ : ℕ → ℕ → ℤ
sub_ℕ a b = if leb b a then pos (a - b) else negsuc (b - a - 1)

-- The number in `modulus` bit patterns as a two's complement one; `half` is the sign bit.
abbrev pub to_signed : ℕ → ℕ → ℤ
to_signed half raw = if ltb raw half then pos raw else negsuc (half + half - 1 - raw)
