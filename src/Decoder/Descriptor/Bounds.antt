-- ===== src/Decoder/Descriptor/Bounds.antt =====
-- `parseDescriptor` of apps/imessage-sensor/src/decoder/typedstream.ts ends, consumes what it
-- parses, and does not expand its arrays beyond what the stream can fill.
use jehad_os.Prelude.{
  ℕ, zero, suc, ◌+◌, ◌-◌, ◌*◌, ◌≤◌, ◌<◌, Bool, true, false, ◌≡◌, refl, some, List, [], ◌∷◌, ◌++◌,
  length, length-append, ok, arith, ltb, ◌==◌, Bool-cases, Option-cases, inl, inr, ltb-false→le,
  leb, if◌then◌else◌,
}
use jehad_os.Decoder.Stream.{Slot}
use jehad_os.Decoder.Ensures.{Ensures, returns, fails, Ensures-bind, Ensures-map}
use jehad_os.Decoder.Descriptor.{
  skip_qualifiers, read_count, skip_name, repeat_slots, Parsed, expect, char_array, close_array,
  parse_array, array_body, parse_scalar, parse_head, parse_one, parse_members, parse_all,
  parse_descriptor, scalar_type, is_qualifier, is_digit, is_unencodable, fits_bytes,
}

length-skip_qualifiers : (bs : List ℕ) → length (skip_qualifiers bs) ≤ length bs
unfolding skip_qualifiers
length-skip_qualifiers [] = omega arith
length-skip_qualifiers (b ∷ bs) = elim (Bool-cases (is_qualifier b)) [
  | inl yes_ ↦ rw yes_ (omega (arith, length-skip_qualifiers bs))
  | inr not_ ↦ rw not_ (omega arith)
]

length-read_count :
    (count : ℕ) (saw : Bool) (bs : List ℕ)
    → Ensures (λ r. length r.2 ≤ length bs) (read_count count saw bs)
unfolding read_count
length-read_count count saw [] = returns (omega arith)
length-read_count count saw (b ∷ bs) = elim (Bool-cases (is_digit b)) [
  | inl digit ↦ elim (Bool-cases (ltb 0xffffffff (count * 10 + (b - 0x30)))) [
    | inl big ↦ rw (digit, big) fails
    | inr small ↦
        rw (digit, small)
          (Ensures-map (length-read_count (count * 10 + (b - 0x30)) true bs) (λ r h. omega arith))
  ]
  | inr other ↦ rw other (returns (omega arith))
]

length-skip_name : (bs : List ℕ) → length (skip_name bs).1 ≤ length bs
unfolding skip_name
length-skip_name [] = omega arith
length-skip_name (b ∷ bs) = elim (Bool-cases (b == 0x3d)) [
  | inl eq ↦ rw eq (omega arith)
  | inr ne ↦ elim (Bool-cases (b == 0x7d)) [
    | inl brace ↦ rw (ne, brace) (omega arith)
    | inr other ↦ rw (ne, other) (omega (arith, length-skip_name bs))
  ]
]

length-expect :
    (byte : ℕ) (bs : List ℕ) {rest : List ℕ} → expect byte bs ≡ some rest → length rest < length bs
unfolding expect
length-expect byte [] h = cc
length-expect byte (b ∷ bs) h = ground arith

length-char_array :
    (bs : List ℕ) {rest : List ℕ} → char_array bs ≡ some rest → length rest < length bs
unfolding char_array
length-char_array [] h = cc
length-char_array (b ∷ bs) {rest} h = ground (arith, length-expect 0x5d bs {rest = rest})

length-repeat_slots :
    (n : ℕ) (element : List Slot) → length (repeat_slots n element) ≡ n * length element
unfolding repeat_slots
length-repeat_slots zero element = omega arith
length-repeat_slots (suc n) element =
    omega (arith, length-append element (repeat_slots n element), length-repeat_slots n element)

-- Of `n` code units, what is left of the text is shorter, and the slots take their share of a
-- budget of `m` slots for each unit.
abbrev pub Spends : ℕ → ℕ → List Slot × List ℕ → Type 0
Spends m n r = (length r.1 < n) × (length r.0 + length r.1 * m ≤ n * m)

mul_mono : (a b m : ℕ) → a ≤ b → a * m ≤ b * m
mul_mono a b m h = grind arith

module _ (m max_slots : ℕ) (pos : 1 ≤ m) (le : max_slots ≤ m) where
  Spends-mono : (k n : ℕ) (r : List Slot × List ℕ) → k ≤ n → Spends m k r → Spends m n r
  Spends-mono k n r h s = (omega arith, omega (arith, mul_mono k n m h))

  parse_scalar-Spends :
      (byte : ℕ) (bs : List ℕ) → Ensures (Spends m (suc (length bs))) (parse_scalar byte bs)
  unfolding parse_scalar
  parse_scalar-Spends byte bs = elim (Bool-cases (is_unencodable byte)) [
    | inl bad ↦ rw bad fails
    | inr fine ↦ elim (Option-cases (scalar_type byte)) [
      | inl unknown ↦ rw (fine, unknown) fails
      | inr (s, known) ↦ rw (fine, known) (returns (omega arith, omega arith))
    ]
  ]

  close_array-Spends :
      (count n : ℕ) (r : List Slot × List ℕ)
      → Spends m n r
      → Ensures (Spends m n) (close_array max_slots count r)
  unfolding close_array
  close_array-Spends count n (element, bs) h = elim (Option-cases (expect 0x5d bs)) [
    | inl open_ ↦ rw (open_, close_array) fails
    | inr (rest, closed) ↦ elim (Bool-cases (ltb max_slots (count * length element))) [
      | inl over ↦ rw (closed, close_array, over) fails
      | inr within ↦
          let shorter = length-expect 0x5d bs closed in
          let room = mul_mono (suc (length rest)) n m (omega arith) in
          rw (closed, close_array, within)
            (returns (
              omega arith,
              omega (arith, length-repeat_slots count element, ltb-false→le _ _ within),
            ))
    ]
  ]

  -- What the recursive calls ensure of the texts shorter than `n`.
  abbrev Ready : ℕ → (List ℕ → Parsed) → Type 0
  Ready n p = (bs : List ℕ) → length bs < n → Ensures (Spends m (length bs)) (p bs)

  array_body-Spends :
      (element : List ℕ → Parsed) (n : ℕ) (r : ℕ × Bool × List ℕ)
      → length r.2 < n
      → Ready n element
      → Ensures (Spends m n) (array_body element max_slots r)
  unfolding array_body
  array_body-Spends element n (count, false, rest) h ready = fails
  array_body-Spends element n (count, true, rest) h ready = elim (Option-cases (char_array rest)) [
    | inr (after, whole) ↦
        let shorter = length-char_array rest whole in
        let room = mul_mono (suc (length after)) n m (omega arith) in
        rw (whole, array_body) (returns (omega arith, omega arith))
    | inl other ↦
        rw (other, array_body)
          (Ensures-bind _ (ready rest h)
            λ r s. close_array-Spends count n r (Spends-mono (length rest) n r (omega arith) s))
  ]

  parse_head-Spends :
      (element members : List ℕ → Parsed) (bs : List ℕ)
      → Ready (length bs) element
      → Ready (length bs) members
      → Ensures (Spends m (length bs)) (parse_head element members max_slots bs)
  unfolding parse_head parse_array
  parse_head-Spends element members [] re rm = fails
  parse_head-Spends element members (byte ∷ bs) re rm = elim (Bool-cases (byte == 0x5b)) [
    | inl bracket ↦ rw bracket (
        Ensures-bind _ (length-read_count 0 false bs)
          λ r h. array_body-Spends element (suc (length bs)) r (omega arith) re)
    | inr other ↦ elim (Bool-cases (byte == 0x7b)) [
      | inr scalar ↦ rw (other, scalar) (parse_scalar-Spends byte bs)
      | inl brace ↦ rw (other, brace) (struct (skip_name bs).0 refl)
    ]
  ]
    where
      struct :
          (named : Bool)
          → (skip_name bs).0 ≡ named
          → Ensures
              (Spends m (suc (length bs)))
              (if (skip_name bs).0 then members (skip_name bs).1 else ok ([], (skip_name bs).1))
      struct true e = rw e (
          Ensures-map (rm (skip_name bs).1 (omega (arith, length-skip_name bs))) λ r s.
            Spends-mono (length (skip_name bs).1) (suc (length bs)) r
              (omega (arith, length-skip_name bs)) s)
      struct false e =
          let shorter = length-skip_name bs in
          let room = mul_mono (length (skip_name bs).1) (suc (length bs)) m (omega arith) in
          rw e (returns (omega arith, omega arith))

  -- The members of a struct add to the slots before them.
  abbrev Adds : ℕ → ℕ → List Slot × List ℕ → Type 0
  Adds before n r = (length r.1 < n) × (length r.0 + length r.1 * m ≤ before + n * m)

  mutual
    unfolding parse_one parse_members

    parse_one-Spends :
        (fuel : ℕ) (bs : List ℕ)
        → length bs + length bs < fuel
        → Ensures (Spends m (length bs)) (parse_one fuel max_slots bs)
    parse_one-Spends zero bs h = absurd (omega arith)
    parse_one-Spends (suc fuel) bs h =
        let shorter = length-skip_qualifiers bs in
        Ensures-map
          (parse_head-Spends (parse_one fuel max_slots) (parse_members fuel max_slots [])
            (skip_qualifiers bs) (λ text lt. parse_one-Spends fuel text (omega arith))
            (λ text lt.
              Ensures-map (parse_members-Adds fuel [] text (omega arith))
                λ r s. (s.0, omega (arith, s.1))))
          λ r s. Spends-mono (length (skip_qualifiers bs)) (length bs) r shorter s

    parse_members-Adds :
        (fuel : ℕ) (slots : List Slot) (bs : List ℕ)
        → length bs + length bs + 1 < fuel
        → Ensures (Adds (length slots) (length bs)) (parse_members fuel max_slots slots bs)
    parse_members-Adds zero slots bs h = absurd (omega arith)
    parse_members-Adds (suc fuel) slots [] h = fails
    parse_members-Adds (suc fuel) slots (b ∷ bs) h = elim (Bool-cases (b == 0x7d)) [
      | inl close ↦ rw close (returns (omega arith, omega arith))
      | inr more ↦ rw more (
          Ensures-bind _ (parse_one-Spends fuel (b ∷ bs) (omega arith)) λ r s.
            Ensures-map (parse_members-Adds fuel (slots ++ r.0) r.1 (omega arith))
              λ t a. (omega (arith, s.0), omega (arith, length-append slots r.0)))
    ]

  parse_all-Adds :
      (fuel : ℕ) (out : List Slot) (bs : List ℕ)
      → length bs ≤ fuel
      → Ensures
          (λ slots. length slots ≤ length out + length bs * m)
          (parse_all fuel max_slots out bs)
  unfolding parse_all
  parse_all-Adds fuel out [] h = returns (omega arith)
  parse_all-Adds zero out (b ∷ bs) h = absurd (omega arith)
  parse_all-Adds (suc fuel) out (b ∷ bs) h =
      Ensures-bind _
        (parse_one-Spends (suc (length (b ∷ bs) + length (b ∷ bs))) (b ∷ bs) (omega arith))
        λ r s.
          Ensures-map (parse_all-Adds fuel (out ++ r.0) r.1 (omega arith))
            λ t a. omega (arith, length-append out r.0)

abbrev pub at_least_one : ℕ → ℕ
at_least_one n = if leb 1 n then n else 1

-- Whatever the descriptor, `parseDescriptor` ends, and the slots that it returns are at most the
-- text's length times the stream bytes that are left (times one if none is).
pub parse_descriptor-Ensures :
    (text : List ℕ) (max_slots : ℕ)
    → Ensures
        (λ slots. length slots ≤ length text * at_least_one max_slots)
        (parse_descriptor text max_slots)
unfolding parse_descriptor
parse_descriptor-Ensures text max_slots = elim (Bool-cases (fits_bytes text)) [
  | inr wide ↦ rw wide fails
  | inl narrow ↦ rw narrow (
      Ensures-map
        (parse_all-Adds (at_least_one max_slots) max_slots (ground arith) (ground arith)
          (length text) [] text (omega arith))
        λ slots h. omega (arith, h))
]
