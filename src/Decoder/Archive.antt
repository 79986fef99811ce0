-- ===== src/Decoder/Archive.antt =====
-- `parse` of apps/imessage-sensor/src/decoder/typedstream.ts: the header, the root object, and
-- the end of the blob. The object reader gets `max_depth + 1` rounds.
pub mod Safety
use jehad_os.Prelude.{
  ℕ, zero, suc, ◌+◌, ◌-◌, ◌*◌, Bool, true, false, not, ◌&&◌, ◌||◌, Option, none, some, List, [],
  ◌∷◌, ◌++◌, map, ltb, leb, ◌==◌, if◌then◌else◌, length, get_elem?, set, drop, Result, ok, err,
}
use jehad_os.Prelude.Int.{ℤ, pos, negsuc}
use jehad_os.Decoder.Stream.{
  start, empty, end, reference_tag, decimal, max_depth, Slot, object, utf8string, cstring, selector,
  atom, class, int, uint, float, double, array, Val, str, obj, null, bytes, ObjectEntry,
  placeholder, SharedString, StreamError, malformed, stuck, TypedStreamParser, ParsedStream, Method,
}
use jehad_os.Decoder.Method.{
  ◌>>=◌, ◌>>◌, pure, throw, lift, advance, push_string, push_object, with_parent, set_parent, adopt,
  table_index, string_index, object_index, text_of, cstring_text,
}
use jehad_os.Decoder.Integers.{byte_at, bytes_at, read_int_from}
use jehad_os.Decoder.Descriptor.{parse_descriptor}
use jehad_os.Decoder.Tables.{
  Input, peek, next_byte, take_bytes, read_int, take_length, decoded, read_raw_string,
  read_shared_string, end_class, or_first, read_chain, read_class, keep_desc, descriptor, read_type,
}
use jehad_os.Decoder.Objects.{
  read_atom, lookup_object, read_cstring, read_float, obj_or_null, read_value, read_slots,
  read_types, more_groups, read_group, read_groups, enter, leave, write_object, fill_object,
  read_new_object, read_object,
}

-- "streamtyped"
abbrev pub streamtyped : List ℕ
streamtyped = 0x73 ∷ 0x74 ∷ 0x72 ∷ 0x65 ∷ 0x61 ∷ 0x6d ∷ 0x74 ∷ 0x79 ∷ 0x70 ∷ 0x65 ∷ 0x64 ∷ []

unfoldable pub same_codes : List ℕ → List ℕ → Bool
same_codes [] [] = true
same_codes (a ∷ as_) (b ∷ bs) = a == b && same_codes as_ bs
same_codes _ _ = false

abbrev pub is_1000 : ℤ → Bool
is_1000 (pos n) = n == 1000
is_1000 (negsuc n) = false

module _ (x : Input) where
  -- `parse` and `oxidize`, up to the root's group.
  unfoldable pub read_header : Method (Unit {0})
  read_header = do
    b ← next_byte x
    if not (b == 4) then throw malformed else (do
      signature ← read_raw_string x
      if not (same_codes signature streamtyped) then throw malformed else (do
        version ← read_int x false
        if is_1000 version then pure tt else throw malformed))

  unfoldable pub read_root : Option ℕ → Method (List Val)
  read_root none = throw malformed
  read_root (some idx) = read_types x (read_object x (max_depth + 1)) idx

  unfoldable pub root_index : List Val → Method ℕ
  root_index (obj idx ∷ _) = pure idx
  root_index _ = throw malformed

  unfoldable pub finish : ℕ → Method ParsedStream
  finish root s =
      if s.position == length x.blob
      then ok (
        record { root_idx = root; strings = map (λ e. e.text) s.strings; objects = s.objects },
        s,
      )
      else err malformed

  unfoldable pub parse_from : Method ParsedStream
  parse_from = do
    read_header
    idx ← read_type x
    group ← read_root idx
    root ← root_index group
    finish root

  unfoldable pub parse : Result StreamError (ParsedStream × TypedStreamParser)
  parse = parse_from (record { position = 0; strings = []; objects = []; depth = 0 })
