-- ===== src/Decoder/Stream.antt =====
-- The data of apps/imessage-sensor/src/decoder/typedstream.ts, the parser's state, and its
-- methods' type. Bytes and code units are numbers. A float is kept as the bytes that
-- `getFloat32` and `getFloat64` read.
use jehad_os.Prelude.{ℕ, Option, List, Result}
use jehad_os.Prelude.Int.{ℤ}

abbrev pub start : ℕ
start = 0x84

abbrev pub empty : ℕ
empty = 0x85

abbrev pub end : ℕ
end = 0x86

abbrev pub reference_tag : ℕ
reference_tag = 0x92

abbrev pub decimal : ℕ
decimal = 0x83

abbrev pub max_depth : ℕ
max_depth = 512

-- One slot of a parsed type descriptor.
pub data Slot : Type 0 where
  object utf8string cstring selector atom class int uint float double : Slot
  array : ℕ → Slot

-- A decoded data value.
pub data Val : Type 0 where
  str : List ℕ → Val
  obj : (idx : ℕ) → Val
  null : Val
  i : ℤ → Val
  u : ℤ → Val
  f : List ℕ → Val
  f_int : ℤ → Val
  d : List ℕ → Val
  d_int : ℤ → Val
  bytes : List ℕ → Val

pub data ObjectEntry : Type 0 where
  object : (cls : ℕ) (groups : List (List Val)) → ObjectEntry
  class : (name : ℕ) (parent : Option ℕ) (version : ℤ) → ObjectEntry
  cstring : (str_idx : ℕ) → ObjectEntry
  placeholder : ObjectEntry

-- A shared string, with its parsed descriptor once one was asked for.
pub record SharedString : Type 0 where
  pub text : List ℕ
  pub desc : Option (List Slot)

-- `StreamError`. `stuck` is no error of the source: it says that a loop or the recursion of the
-- model ran out of rounds.
pub data StreamError : Type 0 where
  malformed : StreamError
  stuck : StreamError

pub record TypedStreamParser : Type 0 where
  pub position : ℕ
  pub strings : List SharedString
  pub objects : List ObjectEntry
  pub depth : ℕ

pub record ParsedStream : Type 0 where
  pub root_idx : ℕ
  pub strings : List (List ℕ)
  pub objects : List ObjectEntry

-- A method: what it returns and the state it leaves, or what it throws.
abbrev pub Method : Type 0 → Type 0
Method A = TypedStreamParser → Result StreamError (A × TypedStreamParser)
