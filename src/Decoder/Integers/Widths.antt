-- ===== src/Decoder/Integers/Widths.antt =====
-- What the integers of the archive format decode to.
use jehad_os.Prelude.{ℕ, ◌+◌, ◌-◌, ◌*◌, ◌/◌, ◌%◌, ◌^◌, ◌≤◌, ◌<◌, Bool, List, ◌∷◌, ◌≡◌, arith, ok}
use jehad_os.Prelude.Int.{ℤ, pos, negsuc, neg_part}
use jehad_os.Decoder.Integers.{max_safe_integer, round_4096, value64, read_int_from, signed_if}

pub value64_nonneg :
    (lo hi : ℕ)
    → lo < 2 ^ 32
    → hi < 2 ^ 31
    → hi * 2 ^ 32 + lo ≤ max_safe_integer
    → value64 lo hi ≡ ok (pos (hi * 2 ^ 32 + lo))
unfolding value64
value64_nonneg lo hi l h s = ground arith

-- The bytes of a number, the lowest first.
abbrev pub byte_of : ℕ → ℕ → ℕ
byte_of n k = n / 2 ^ (8 * k) % 2 ^ 8

-- A 16-bit and a 32-bit pattern are read back as they were written, as unsigned numbers or by
-- their two's complement value, and a 64-bit pattern whose value is a natural number and a safe
-- integer is read back too, whatever follows.
pub read_int-words :
    (unsigned : Bool) (n m k : ℕ) (rest : List ℕ)
    → n < 2 ^ 16
    → m < 2 ^ 32
    → k ≤ max_safe_integer
    → (read_int_from unsigned (0x81 ∷ byte_of n 0 ∷ byte_of n 1 ∷ rest)
        ≡ ok (signed_if unsigned (2 ^ 15) n, 3))
      × (read_int_from unsigned
            (0x82 ∷ byte_of m 0 ∷ byte_of m 1 ∷ byte_of m 2 ∷ byte_of m 3 ∷ rest)
          ≡ ok (signed_if unsigned (2 ^ 31) m, 5))
      × (read_int_from unsigned (
            0x87
            ∷ byte_of k 0
            ∷ byte_of k 1
            ∷ byte_of k 2
            ∷ byte_of k 3
            ∷ byte_of k 4
            ∷ byte_of k 5
            ∷ byte_of k 6
            ∷ byte_of k 7
            ∷ rest)
          ≡ ok (pos k, 9))
unfolding read_int_from
read_int-words unsigned n m k rest hn hm hk = (ground arith, ground arith, ground arith)

-- A negative 64-bit pattern whose value is a safe integer is accepted, but what it decodes to is
-- at most -2^64, which is below every 64-bit value.
pub value64_negative :
    (lo hi : ℕ)
    → lo < 2 ^ 32
    → 2 ^ 31 ≤ hi
    → hi < 2 ^ 32
    → (2 ^ 32 - hi) * 2 ^ 32 - lo ≤ max_safe_integer
    → (v : ℤ) × (value64 lo hi ≡ ok v) × (2 ^ 64 ≤ neg_part v)
unfolding value64
value64_negative lo hi l h k s =
    (negsuc (2 ^ 64 + round_4096 ((2 ^ 32 - hi) * 2 ^ 32 - lo) - 1), ground arith, ground arith)
