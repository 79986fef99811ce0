-- ===== src/Commitments/Codes.antt =====
-- packages/core/src/commitments/transitions.ts: the codes that are derived are codes.
use Prim.Native.String.{char_at}
use jehad_os.Prelude.{
  ℕ, zero, suc, ◌<◌, ◌/◌, ◌%◌, ◌≡◌, refl, sym, subst, Bool, true, false, not, ◌&&◌, ==_iff, ◌==◌,
  Bool-cases, inl, inr, arith, &&-eq-true,
}
use jehad_os.Prelude.Unknown.{is_space, trim, trim_start, trim_end, keep_end}
use jehad_os.Commitments.{is_in, alphabet, is_code, code_char, code_of}

-- A test on every number below a bound.
unfoldable all_below : (ℕ → Bool) → ℕ → Bool
all_below test zero = true
all_below test (suc n) = test n && all_below test n

all_below-holds : (test : ℕ → Bool) (n k : ℕ) → all_below test n ≡ true → k < n → test k ≡ true
unfolding all_below
all_below-holds test zero k h lt = absurd (omega (arith, lt))
all_below-holds test (suc n) k h lt =
    let both = &&-eq-true (test n) (all_below test n) h in
    elim (Bool-cases (k == n)) [
      | inl e ↦ subst (λ m. test m ≡ true) (sym ((==_iff k n).0 e)) both.0
      | inr d ↦ all_below-holds test n k both.1 (ground arith)
    ]

is_false : (b : Bool) → not b ≡ true → b ≡ false
is_false false h = refl
is_false true h = cc

below_32 : (n : ℕ) → n % 32 < 32
below_32 n = omega arith

code_char-is_in : (n : ℕ) → is_in (code_char n) alphabet ≡ true
unfolding code_char is_in all_below
code_char-is_in n =
    all_below-holds (λ k. is_in (char_at alphabet k) alphabet) 32 (n % 32) refl (below_32 n)

code_char-not_space : (n : ℕ) → is_space (code_char n) ≡ false
unfolding code_char all_below
code_char-not_space n =
    is_false (is_space (char_at alphabet (n % 32)))
      (all_below-holds (λ k. not (is_space (char_at alphabet k))) 32 (n % 32) refl (below_32 n))

-- Every derived code passes the test on codes.
pub code_of-is_code : (value : ℕ) → is_code (code_of value) ≡ true
unfolding is_code code_of
code_of-is_code value =
    rw (code_char-is_in (value / 1024), code_char-is_in (value / 32), code_char-is_in value) refl

-- A derived code has no space to trim.
pub trim-code_of : (value : ℕ) → trim (code_of value) ≡ code_of value
unfolding trim trim_start trim_end keep_end code_of
trim-code_of value =
    rw
      (
        code_char-not_space (value / 1024),
        code_char-not_space (value / 32),
        code_char-not_space value,
      )
      refl
