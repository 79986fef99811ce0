-- ===== src/Decoder/Integers.antt =====
-- `byteAt`, `bytesAt` and `readIntAt` of apps/imessage-sensor/src/decoder/typedstream.ts.
-- `readIntAt` looks at the bytes from a position on, so the model takes that part of the data.
pub mod Widths
use Prim.Native.Nat.{bit_or}
use jehad_os.Prelude.{
  ℕ, zero, suc, ◌+◌, ◌-◌, ◌*◌, ◌/◌, ◌%◌, ◌^◌, Bool, true, false, not, ◌&&◌, ◌||◌, Option, none,
  some, List, [], ◌∷◌, ltb, leb, ◌==◌, if◌then◌else◌, length, take, drop, get_elem?, Result, ok,
  err, ◌>>=◌,
}
use jehad_os.Prelude.Int.{ℤ, pos, negsuc, to_signed}
use jehad_os.Decoder.Stream.{StreamError, malformed, reference_tag, end}

unfoldable pub byte_at : List ℕ → ℕ → Result StreamError ℕ
byte_at bytes idx = elim (get_elem? bytes idx) [ none ↦ err malformed | some b ↦ ok b ]

unfoldable pub bytes_at : List ℕ → ℕ → ℕ → Result StreamError (List ℕ)
bytes_at bytes idx n =
    if ltb (length bytes) (idx + n) then err malformed else ok (take n (drop idx bytes))

-- Little-endian words. The shifts of the source do not overlap, so `|` adds.
abbrev pub word16 : ℕ → ℕ → ℕ
word16 b0 b1 = b0 + b1 * 2 ^ 8

abbrev pub word32 : ℕ → ℕ → ℕ → ℕ → ℕ
word32 b0 b1 b2 b3 = b0 + b1 * 2 ^ 8 + b2 * 2 ^ 16 + b3 * 2 ^ 24

abbrev pub max_safe_integer : ℕ
max_safe_integer = 2 ^ 53 - 1

-- Half of 4096 and more rounds up, an even quotient at the tie stays: the rounding of a double
-- whose size lies between 2 ^ 64 and 2 ^ 65.
unfoldable pub round_4096 : ℕ → ℕ
round_4096 m =
    let q = m / 4096 in
    let r = m % 4096 in
    if ltb r 2048 then q * 4096 else if ltb 2048 r then (q + 1) * 4096 else (q + q % 2) * 4096

-- The I64 branch on the words `lo` and `hi`, where `hi` is read as a signed number: the value
-- `hi * 2^32 + lo` has to be a safe integer, and if `hi` is negative 2^64 is subtracted from it.
unfoldable pub value64 : ℕ → ℕ → Result StreamError ℤ
unfolding round_4096
value64 lo hi =
    if ltb hi (2 ^ 31)
    then (let v = hi * 2 ^ 32 + lo in if leb v max_safe_integer then ok (pos v) else err malformed)
    else (let size = (2 ^ 32 - hi) * 2 ^ 32 - lo in
        if leb size max_safe_integer
        then ok (negsuc (2 ^ 64 + round_4096 size - 1))
        else err malformed)

abbrev pub signed_if : Bool → ℕ → ℕ → ℤ
signed_if unsigned half raw = if unsigned then pos raw else to_signed half raw

-- The single-byte case: a byte above the reference tag is skipped unless END follows it. The
-- tail of the loop is `again`; `next` is what follows.
unfoldable pub skips : ℕ → List ℕ → Result StreamError Bool
skips cur [] = if ltb reference_tag cur then err malformed else ok false
skips cur (next ∷ _) = ok (ltb reference_tag cur && not (next == end))

unfoldable pub read_i16 : Bool → List ℕ → Result StreamError (ℤ × ℕ)
read_i16 unsigned (b0 ∷ b1 ∷ _) = ok (signed_if unsigned (2 ^ 15) (word16 b0 b1), 3)
read_i16 unsigned _ = err malformed

unfoldable pub read_i32 : Bool → List ℕ → Result StreamError (ℤ × ℕ)
read_i32 unsigned (b0 ∷ b1 ∷ b2 ∷ b3 ∷ _) = ok (signed_if unsigned (2 ^ 31) (word32 b0 b1 b2 b3), 5)
read_i32 unsigned _ = err malformed

unfoldable pub read_i64 : List ℕ → Result StreamError (ℤ × ℕ)
read_i64 (b0 ∷ b1 ∷ b2 ∷ b3 ∷ b4 ∷ b5 ∷ b6 ∷ b7 ∷ _) = do
  v ← value64 (word32 b0 b1 b2 b3) (word32 b4 b5 b6 b7)
  ok (v, 9)
read_i64 _ = err malformed

-- `readIntAt` from the bytes at `pos + offset` on: the value and `consumed`, which does not count
-- the bytes that were skipped.
unfoldable pub read_int_from : Bool → List ℕ → Result StreamError (ℤ × ℕ)
unfolding read_i16 read_i32 read_i64 skips value64
read_int_from unsigned [] = err malformed
read_int_from unsigned (cur ∷ rest) =
    let again = read_int_from unsigned rest in
    if cur == 0x81
    then read_i16 unsigned rest
    else if cur == 0x82
    then read_i32 unsigned rest
    else if cur == 0x87
    then read_i64 rest
    else (do
      skipped ← skips cur rest
      if skipped then again else ok (signed_if unsigned (2 ^ 7) cur, 1))
