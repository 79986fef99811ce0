-- ===== src/Prelude/Unknown.antt =====
-- Values of type `unknown`: what JSON.parse and the database's jsonb columns return, and the
-- operations of JavaScript's strings that the code applies to them. A text has no unpaired
-- surrogate.
use Prim.Native.Nat.{ℕ, zero, suc, ◌+◌, ◌/◌, ◌%◌}
use Prim.Native.Char.{Char, code}
use Prim.Native.String.{String, [], ◌∷◌, char_at}
use mathlib.Core.Bool.{Bool, true, false, not, ◌&&◌, ◌||◌}
use mathlib.Core.List.{List, [] as no_elements, ◌∷◌ as element}
use jehad_os.Prelude.Tests.{leb, ltb, ◌==◌, if◌then◌else◌}

-- A double: `finite negative whole fraction` is ±(whole + fraction / 2^1074).
pub data Number : Type 0 where
  nan : Number
  infinite : (negative : Bool) → Number
  finite : (negative : Bool) (whole fraction : ℕ) → Number

pub data Unknown : Type 0 where
  undefined : Unknown
  null : Unknown
  boolean : Bool → Unknown
  number : Number → Unknown
  string : String → Unknown
  array : (count : ℕ) (at : ℕ → Unknown) → Unknown
  object : (field : String → Unknown) → Unknown

-- The elements of an array, from an index on.
abbrev pub elements_from : (count start : ℕ) → (ℕ → Unknown) → List Unknown
elements_from zero start at = no_elements
elements_from (suc count) start at = element (at start) (elements_from count (suc start) at)

-- `typeof value === "number" && Number.isFinite(value) && value > 0`
unfoldable pub is_positive : Number → Bool
is_positive (finite false whole fraction) = not ((whole == 0) && (fraction == 0))
is_positive _ = false

-- `Number.isFinite(value) && value >= 0`, where -0 is not below 0
unfoldable pub is_not_negative : Number → Bool
is_not_negative (finite false whole fraction) = true
is_not_negative (finite true whole fraction) = (whole == 0) && (fraction == 0)
is_not_negative _ = false

abbrev pub within : ℕ → ℕ → Char → Bool
within low high c = leb low (code c) && leb (code c) high

abbrev pub is_char : ℕ → Char → Bool
is_char n c = code c == n

-- `[a-z0-9]`
abbrev pub is_alnum : Char → Bool
is_alnum c = within 97 122 c || within 48 57 c

-- What `trim` removes and `\s` matches.
abbrev pub is_space : Char → Bool
is_space c =
    within 9 13 c
    || (is_char 32 c
        || (is_char 160 c
            || (is_char 5760 c
                || (within 8192 8202 c
                    || (within 8232 8233 c
                        || (is_char 8239 c
                            || (is_char 8287 c || (is_char 12288 c || is_char 65279 c))))))))

unfoldable pub trim_start : String → String
trim_start [] = []
trim_start (c ∷ s) = let rest = trim_start s in if is_space c then rest else c ∷ s

-- The text without the spaces at its end.
unfoldable pub keep_end : Bool → Char → String → String
keep_end space c [] = if space then [] else c ∷ []
keep_end space c (d ∷ s) = c ∷ (d ∷ s)

unfoldable pub trim_end : String → String
unfolding keep_end
trim_end [] = []
trim_end (c ∷ s) = keep_end (is_space c) c (trim_end s)

unfoldable pub trim : String → String
unfolding trim_start trim_end
trim s = trim_end (trim_start s)

-- `s.length`: the number of UTF-16 units.
unfoldable pub units : String → ℕ
units [] = 0
units (c ∷ s) = (if ltb (code c) 65536 then 1 else 2) + units s

abbrev pub is_empty : String → Bool
is_empty [] = true
is_empty (c ∷ s) = false

-- The decimal digits of a number; a number has no more digits than its successor has units.
decimal_from : (fuel n : ℕ) → String → String
decimal_from zero n digits = digits
decimal_from (suc fuel) n digits =
    let more = char_at "0123456789" (n % 10) ∷ digits in
    let rest = decimal_from fuel (n / 10) more in if ltb n 10 then more else rest

unfoldable pub decimal : ℕ → String
unfolding decimal_from
decimal n = decimal_from (suc n) n []
