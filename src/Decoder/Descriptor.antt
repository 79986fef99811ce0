-- ===== src/Decoder/Descriptor.antt =====
-- `scalarType` and `parseDescriptor` of apps/imessage-sensor/src/decoder/typedstream.ts. The
-- position in the text is the list of code units that are left. The recursion takes fuel, and
-- `Descriptor.Bounds` shows that `parse_descriptor` gives enough.
pub mod Bounds
use jehad_os.Prelude.{
  ℕ, zero, suc, ◌+◌, ◌-◌, ◌*◌, Bool, true, false, not, ◌&&◌, ◌||◌, Option, none, some, List, [],
  ◌∷◌, ◌++◌, ltb, leb, ◌==◌, if◌then◌else◌, length, Result, ok, err, ◌>>=◌, ◌>>◌, throw_if, any,
}
use jehad_os.Decoder.Stream.{
  Slot, object, utf8string, cstring, selector, atom, class, int, uint, float, double, array,
  StreamError, malformed, stuck,
}

abbrev one_of : List ℕ → ℕ → Bool
one_of codes byte = any (λ c. c == byte) codes

unfoldable pub scalar_type : ℕ → Option Slot
scalar_type byte =
    if byte == 0x40
    then some object
    else if byte == 0x23
    then some class
    else if byte == 0x3a
    then some selector
    else if byte == 0x25
    then some atom
    else if byte == 0x2a
    then some cstring
    else if byte == 0x2b
    then some utf8string
    else if byte == 0x66
    then some float
    else if byte == 0x64
    then some double
    else if one_of (0x63 ∷ 0x69 ∷ 0x6c ∷ 0x71 ∷ 0x73 ∷ []) byte
    then some int
    else if one_of (0x43 ∷ 0x49 ∷ 0x4c ∷ 0x51 ∷ 0x53 ∷ 0x42 ∷ []) byte
    then some uint
    else none

-- `( b ^ v ?`, which are never written.
abbrev pub is_unencodable : ℕ → Bool
is_unencodable byte = one_of (0x28 ∷ 0x62 ∷ 0x5e ∷ 0x76 ∷ 0x3f ∷ []) byte

abbrev pub is_qualifier : ℕ → Bool
is_qualifier byte = one_of (0x72 ∷ 0x6e ∷ 0x4e ∷ 0x6f ∷ 0x4f ∷ 0x52 ∷ 0x56 ∷ []) byte

abbrev pub is_digit : ℕ → Bool
is_digit byte = leb 0x30 byte && leb byte 0x39

unfoldable pub skip_qualifiers : List ℕ → List ℕ
skip_qualifiers [] = []
skip_qualifiers (b ∷ bs) = let rest = skip_qualifiers bs in if is_qualifier b then rest else b ∷ bs

-- The digits of an array count: the count, whether there was a digit, and what is left.
unfoldable pub read_count : ℕ → Bool → List ℕ → Result StreamError (ℕ × Bool × List ℕ)
read_count count saw [] = ok (count, saw, [])
read_count count saw (b ∷ bs) =
    let next = count * 10 + (b - 0x30) in
    let rest = read_count next true bs in
    if is_digit b
    then (if ltb 0xffffffff next then err malformed else rest)
    else ok (count, saw, b ∷ bs)

-- Skips a struct's name: `true` with what follows `=` or the end of the text, `false` after `}`.
unfoldable pub skip_name : List ℕ → Bool × List ℕ
skip_name [] = (true, [])
skip_name (b ∷ bs) =
    let rest = skip_name bs in
    if b == 0x3d then (true, bs) else if b == 0x7d then (false, bs) else rest

unfoldable pub repeat_slots : ℕ → List Slot → List Slot
repeat_slots zero element = []
repeat_slots (suc n) element = element ++ repeat_slots n element

-- The slots of what was parsed, and the code units that are left.
abbrev pub Parsed : Type 0
Parsed = Result StreamError (List Slot × List ℕ)

-- `bytes[pos] === byte`, past it.
unfoldable pub expect : ℕ → List ℕ → Option (List ℕ)
expect byte [] = none
expect byte (b ∷ bs) = if b == byte then some bs else none

-- `c]` or `C]`, which keeps a char array whole.
unfoldable pub char_array : List ℕ → Option (List ℕ)
char_array [] = none
char_array (b ∷ bs) = if b == 0x63 || b == 0x43 then expect 0x5d bs else none

-- After the element of an array.
unfoldable pub close_array : ℕ → ℕ → List Slot × List ℕ → Parsed
close_array max_slots count (element, bs) = elim (expect 0x5d bs) [
  | none ↦ err malformed
  | some rest ↦
      if ltb max_slots (count * length element)
      then err malformed
      else ok (repeat_slots count element, rest)
]

-- After `[` and the count; `element` parses the element.
unfoldable pub array_body : (List ℕ → Parsed) → ℕ → ℕ × Bool × List ℕ → Parsed
array_body element max_slots (count, false, rest) = err malformed
array_body element max_slots (count, true, rest) = elim (char_array rest) [
  | some after ↦ ok (array count ∷ [], after)
  | none ↦ element rest >>= close_array max_slots count
]

unfoldable pub parse_array : (List ℕ → Parsed) → ℕ → List ℕ → Parsed
parse_array element max_slots bs = read_count 0 false bs >>= array_body element max_slots

unfoldable pub parse_scalar : ℕ → List ℕ → Parsed
parse_scalar byte bs =
    if is_unencodable byte
    then err malformed
    else elim (scalar_type byte) [ none ↦ err malformed | some s ↦ ok (s ∷ [], bs) ]

-- After the qualifiers; `element` and `members` are the recursive calls.
unfoldable pub parse_head : (List ℕ → Parsed) → (List ℕ → Parsed) → ℕ → List ℕ → Parsed
parse_head element members max_slots [] = err malformed
parse_head element members max_slots (byte ∷ bs) =
    if byte == 0x5b
    then parse_array element max_slots bs
    else if byte == 0x7b
    then (let (named, rest) = skip_name bs in if named then members rest else ok ([], rest))
    else parse_scalar byte bs

unfoldable mutual
  -- `parseOne`.
  pub parse_one : ℕ → ℕ → List ℕ → Parsed
  parse_one zero max_slots bs = err stuck
  parse_one (suc fuel) max_slots bs =
      parse_head (parse_one fuel max_slots) (parse_members fuel max_slots []) max_slots
        (skip_qualifiers bs)

  -- The members of a struct, up to `}`; `slots` are those before.
  pub parse_members : ℕ → ℕ → List Slot → List ℕ → Parsed
  parse_members zero max_slots slots bs = err stuck
  parse_members (suc fuel) max_slots slots [] = err malformed
  parse_members (suc fuel) max_slots slots (b ∷ bs) = if b == 0x7d then ok (slots, bs) else (do
    (more, rest) ← parse_one fuel max_slots (b ∷ bs)
    parse_members fuel max_slots (slots ++ more) rest)

unfoldable pub fits_bytes : List ℕ → Bool
fits_bytes [] = true
fits_bytes (c ∷ cs) = leb c 0xff && fits_bytes cs

-- The loop at the end of `parseDescriptor`.
unfoldable pub parse_all : ℕ → ℕ → List Slot → List ℕ → Result StreamError (List Slot)
parse_all fuel max_slots out [] = ok out
parse_all zero max_slots out (b ∷ bs) = err stuck
parse_all (suc fuel) max_slots out (b ∷ bs) = do
  (slots, rest) ← parse_one (suc (length (b ∷ bs) + length (b ∷ bs))) max_slots (b ∷ bs)
  parse_all fuel max_slots (out ++ slots) rest

unfoldable pub parse_descriptor : List ℕ → ℕ → Result StreamError (List Slot)
unfolding parse_one parse_head parse_all fits_bytes skip_qualifiers parse_array array_body skip_name
    parse_scalar scalar_type read_count char_array close_array repeat_slots expect
parse_descriptor text max_slots =
    if not (fits_bytes text) then err malformed else parse_all (length text) max_slots [] text
