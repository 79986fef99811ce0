-- ===== src/Decoder/Tables/Safety.antt =====
-- The table readers of apps/imessage-sensor/src/decoder/typedstream.ts end, and keep the tables
-- valid.
use jehad_os.Prelude.{
  ℕ, zero, suc, ◌+◌, ◌-◌, ◌*◌, ◌^◌, leb, ◌<◌, Bool, true, ◌≡◌, refl, some, List, [], ◌∷◌, ◌==◌,
  length, get_elem?, ltb, arith, inl, inr, drop, Option-cases,
}
use jehad_os.Prelude.Int.{ℤ, pos, negsuc}
use jehad_os.Decoder.Stream.{TypedStreamParser, reference_tag, start, empty}
use jehad_os.Decoder.Ensures.{Ensures, returns, fails, Ensures-bind, Ensures-if}
use jehad_os.Decoder.Method.Runs.{
  IsValid, Runs, Runs-bind, Runs-pure, Runs-throw, Runs-if, Runs-lift,
}
use jehad_os.Decoder.Method.Access.{advance-Runs, push_string-Runs, string_index-Runs}
use jehad_os.Decoder.Integers.{
  byte_at, bytes_at, read_int_from, read_i16, read_i32, read_i64, value64, skips, word32,
  max_safe_integer,
}
use jehad_os.Decoder.Tables.{
  Input, peek, next_byte, take_bytes, read_int, take_length, decoded, read_raw_string,
  read_shared_string,
}

get_elem?-below {ℓ} :
    {A : Type ℓ} (xs : List A) (i : ℕ) {a : A} → get_elem? xs i ≡ some a → i < length xs
get_elem?-below [] i h = cc
get_elem?-below (x ∷ xs) zero h = omega arith
get_elem?-below (x ∷ xs) (suc i) h = omega (arith, get_elem?-below xs i h)

pub byte_at-Ensures :
    (blob : List ℕ) (idx : ℕ) → Ensures (λ _. idx < length blob) (byte_at blob idx)
unfolding byte_at
byte_at-Ensures blob idx = elim (Option-cases (get_elem? blob idx)) [
  | inl out ↦ rw (out, byte_at) fails
  | inr (b, found) ↦ rw (found, byte_at) (returns (get_elem?-below blob idx found))
]

bytes_at-Ensures : (blob : List ℕ) (idx n : ℕ) → Ensures (λ _. Unit {0}) (bytes_at blob idx n)
unfolding bytes_at
bytes_at-Ensures blob idx n =
    Ensures-if (ltb (length blob) (idx + n)) (λ _. fails) (λ _. returns tt)

read_i16-Ensures : (unsigned : Bool) (bs : List ℕ) → Ensures (λ _. Unit {0}) (read_i16 unsigned bs)
unfolding read_i16
read_i16-Ensures unsigned (a ∷ b ∷ bs) = returns tt
read_i16-Ensures unsigned _ = fails

read_i32-Ensures : (unsigned : Bool) (bs : List ℕ) → Ensures (λ _. Unit {0}) (read_i32 unsigned bs)
unfolding read_i32
read_i32-Ensures unsigned (a ∷ b ∷ c ∷ d ∷ bs) = returns tt
read_i32-Ensures unsigned _ = fails

value64-Ensures : (lo hi : ℕ) → Ensures (λ _. Unit {0}) (value64 lo hi)
unfolding value64
value64-Ensures lo hi =
    Ensures-if (ltb hi (2 ^ 31))
      (λ _. Ensures-if (leb (hi * 2 ^ 32 + lo) max_safe_integer) (λ _. returns tt) (λ _. fails))
      (λ _.
        Ensures-if (leb ((2 ^ 32 - hi) * 2 ^ 32 - lo) max_safe_integer) (λ _. returns tt)
          (λ _. fails))

read_i64-Ensures : (bs : List ℕ) → Ensures (λ _. Unit {0}) (read_i64 bs)
unfolding read_i64
read_i64-Ensures (b0 ∷ b1 ∷ b2 ∷ b3 ∷ b4 ∷ b5 ∷ b6 ∷ b7 ∷ _) =
    Ensures-bind _ (value64-Ensures (word32 b0 b1 b2 b3) (word32 b4 b5 b6 b7)) λ v h. returns tt
read_i64-Ensures _ = fails

skips-Ensures : (b : ℕ) (bs : List ℕ) → Ensures (λ _. Unit {0}) (skips b bs)
unfolding skips
skips-Ensures b [] = Ensures-if (ltb reference_tag b) (λ _. fails) (λ _. returns tt)
skips-Ensures b (next ∷ bs) = returns tt

read_int_from-Ensures :
    (unsigned : Bool) (bs : List ℕ) → Ensures (λ _. Unit {0}) (read_int_from unsigned bs)
unfolding read_int_from
read_int_from-Ensures unsigned [] = fails
read_int_from-Ensures unsigned (b ∷ bs) =
    Ensures-if (b == 0x81) (λ _. read_i16-Ensures unsigned bs)
      λ _.
        Ensures-if (b == 0x82) (λ _. read_i32-Ensures unsigned bs)
          λ _.
            Ensures-if (b == 0x87) (λ _. read_i64-Ensures bs)
              λ _. Ensures-bind _ (skips-Ensures b bs) λ skipped h.
                Ensures-if skipped (λ _. read_int_from-Ensures unsigned bs) (λ _. returns tt)

module _ (x : Input) where
  -- A byte was read inside the blob.
  abbrev pub Read : TypedStreamParser → Type 0
  Read s = s.position < length x.blob

  pub peek-Runs :
      (s : TypedStreamParser)
      → IsValid s
      → Runs s (peek x) (λ _ t. Read s × (t.position ≡ s.position))
  unfolding peek
  peek-Runs s v = record {
    ensures = (Runs-lift _ v (byte_at-Ensures x.blob s.position) (λ b h. (h, refl))).ensures;
  }

  -- `next_byte` moves on, and there was a byte.
  pub next_byte-Runs :
      (s : TypedStreamParser)
      → IsValid s
      → Runs s (next_byte x) (λ _ t. Read s × (s.position < t.position))
  unfolding next_byte
  next_byte-Runs s v = Runs-bind (peek-Runs s v) λ b t e p.
      Runs-bind (advance-Runs t e.valid 1)
        λ _ u e' q. Runs-pure b e'.valid (p.0, omega (arith, p.1, q))

  pub take_bytes-Runs :
      (s : TypedStreamParser) (n : ℕ) → IsValid s → Runs s (take_bytes x n) (λ _ _. Unit)
  unfolding take_bytes
  take_bytes-Runs s n v = record {
    ensures =
        (Runs-bind {Q = λ _ _. Unit}
          (Runs-lift {Q = λ _ _. Unit} (bytes_at x.blob s.position n) v
            (bytes_at-Ensures x.blob s.position n) (λ _ _. tt))
          λ raw t e _.
            Runs-bind (advance-Runs t e.valid n) λ _ u e' q. Runs-pure raw e'.valid tt).ensures;
  }

  pub read_int-Runs :
      (s : TypedStreamParser) (unsigned : Bool)
      → IsValid s
      → Runs s (read_int x unsigned) (λ _ _. Unit)
  unfolding read_int
  read_int-Runs s unsigned v = record {
    ensures =
        (Runs-bind {Q = λ _ _. Unit}
          (Runs-lift {Q = λ _ _. Unit} _ v (read_int_from-Ensures unsigned (drop s.position x.blob))
            (λ _ _. tt))
          λ r t e _.
            Runs-bind (advance-Runs t e.valid r.1) λ _ u e' q. Runs-pure r.0 e'.valid tt).ensures;
  }

  take_length-Runs :
      (s : TypedStreamParser) (n : ℤ) → IsValid s → Runs s (take_length x n) (λ _ _. Unit)
  unfolding take_length
  take_length-Runs s (pos n) v = take_bytes-Runs s n v
  take_length-Runs s (negsuc n) v = Runs-throw

  decoded-Runs :
      (s : TypedStreamParser) (raw : List ℕ) → IsValid s → Runs s (decoded x raw) (λ _ _. Unit)
  unfolding decoded
  decoded-Runs s raw v = elim (Option-cases (x.decode raw)) [
    | inl bad ↦ rw (bad, decoded) Runs-throw
    | inr (text, good) ↦ rw (good, decoded) (Runs-pure text v tt)
  ]

  pub read_raw_string-Runs :
      (s : TypedStreamParser) → IsValid s → Runs s (read_raw_string x) (λ _ _. Unit)
  unfolding read_raw_string
  read_raw_string-Runs s v =
      Runs-bind (read_int-Runs s true v) λ n t e _.
        Runs-bind (take_length-Runs t n e.valid) λ raw u e' _. decoded-Runs u raw e'.valid

  pub read_shared_string-Runs :
      (s : TypedStreamParser)
      → IsValid s
      → Runs s (read_shared_string x) (λ idx t. idx < length t.strings)
  unfolding read_shared_string
  read_shared_string-Runs s v = Runs-bind (next_byte-Runs s v) λ b t e _.
      Runs-if (b == start)
        (λ _.
          Runs-bind (read_raw_string-Runs t e.valid)
            λ text u e' _. push_string-Runs u e'.valid text)
        λ _. Runs-if (b == empty) (λ _. Runs-throw) λ _. string_index-Runs t e.valid b
