-- ===== src/Decoder/Tables.antt =====
-- The byte and table readers of `TypedStreamParser` in
-- apps/imessage-sensor/src/decoder/typedstream.ts. A loop takes one round for each byte of the
-- blob and one more.
pub mod Safety
pub mod Chains
use jehad_os.Prelude.{
  ℕ, zero, suc, ◌+◌, ◌-◌, ◌*◌, Bool, true, false, not, ◌&&◌, ◌||◌, Option, none, some, List, [],
  ◌∷◌, ◌++◌, map, ltb, leb, ◌==◌, if◌then◌else◌, length, get_elem?, set, drop, Result, ok, err,
}
use jehad_os.Prelude.Int.{ℤ, pos, negsuc}
use jehad_os.Decoder.Stream.{
  start, empty, end, reference_tag, decimal, max_depth, Slot, object, utf8string, cstring, selector,
  atom, class, int, uint, float, double, array, Val, str, obj, null, bytes, ObjectEntry,
  placeholder, SharedString, StreamError, malformed, stuck, TypedStreamParser, ParsedStream, Method,
}
use jehad_os.Decoder.Method.{
  ◌>>=◌, ◌>>◌, pure, throw, lift, advance, push_string, push_object, with_parent, set_parent, adopt,
  table_index, string_index, object_index, text_of, cstring_text,
}
use jehad_os.Decoder.Integers.{byte_at, bytes_at, read_int_from}
use jehad_os.Decoder.Descriptor.{parse_descriptor}

-- The bytes of the blob, and `TextDecoder.decode`, which refuses what is not UTF-8.
pub record Input : Type 0 where
  pub blob : List ℕ
  pub decode : List ℕ → Option (List ℕ)

module _ (x : Input) where
  -- `this.byteAt(this.pos)`.
  unfoldable pub peek : Method ℕ
  peek s = lift (byte_at x.blob s.position) s

  unfoldable pub next_byte : Method ℕ
  next_byte = do b ← peek; advance 1; pure b

  -- `bytesAt(this.pos, n)`, and past them.
  unfoldable pub take_bytes : ℕ → Method (List ℕ)
  take_bytes n s = (do raw ← lift (bytes_at x.blob s.position n); advance n; pure raw) s

  unfoldable pub read_int : Bool → Method ℤ
  read_int unsigned s =
      (do
        (v, consumed) ← lift (read_int_from unsigned (drop s.position x.blob))
        advance consumed
        pure v)
        s

  unfoldable pub take_length : ℤ → Method (List ℕ)
  take_length (pos n) = take_bytes n
  take_length (negsuc n) = throw malformed

  unfoldable pub decoded : List ℕ → Method (List ℕ)
  decoded raw = elim (x.decode raw) [ none ↦ throw malformed | some text ↦ pure text ]

  unfoldable pub read_raw_string : Method (List ℕ)
  read_raw_string = do n ← read_int true; raw ← take_length n; decoded raw

  unfoldable pub read_shared_string : Method ℕ
  read_shared_string = do
    b ← next_byte
    if b == start
        then (do text ← read_raw_string; push_string text)
        else if b == empty
        then throw malformed
        else string_index b

  -- The end of `readClass`, with the class chain's first and last new classes.
  unfoldable pub end_class : Option ℕ → Option ℕ → Option ℕ → Method (Option ℕ)
  end_class none prev final = pure final
  end_class (some first) prev final = do adopt prev final; pure (some first)

  abbrev pub or_first : Option ℕ → ℕ → Option ℕ
  or_first none idx = some idx
  or_first (some first) idx = some first

  -- The loop of `readClass`, over `firstNew` and `prevNew`.
  unfoldable pub read_chain : ℕ → Option ℕ → Option ℕ → Method (Option ℕ)
  read_chain zero first prev = throw stuck
  read_chain (suc rounds) first prev = do
    b ← next_byte
    if b == start
        then (do
          name ← read_shared_string
          version ← read_int true
          idx ← push_object (ObjectEntry.class name none version)
          adopt prev (some idx)
          read_chain rounds (or_first first idx) (some idx))
        else if b == empty
        then end_class first prev none
        else (do idx ← object_index b; end_class first prev (some idx))

  unfoldable pub read_class : Method (Option ℕ)
  read_class = read_chain (length x.blob + 1) none none

  -- `entry.desc`, computed from the text when it is missing. Whenever that happens the position
  -- is at most the number of bytes, so that the subtraction is exact.
  unfoldable pub keep_desc : ℕ → SharedString → Method (List Slot)
  keep_desc idx entry s = elim entry.desc [
    | some slots ↦ ok (slots, s)
    | none ↦ elim (parse_descriptor entry.text (length x.blob - s.position)) [
      | err e ↦ err e
      | ok slots ↦
          ok (slots, record s { strings = set s.strings idx (record entry { desc = some slots }) })
    ]
  ]

  unfoldable pub descriptor : ℕ → Method (List Slot)
  descriptor idx s = elim (get_elem? s.strings idx) [
    | none ↦ err stuck
    | some e ↦ keep_desc idx e s
  ]

  -- `readType`: the index of a descriptor in the shared table, which is parsed by then.
  unfoldable pub read_type : Method (Option ℕ)
  read_type = do
    b ← next_byte
    if b == start
        then (do text ← read_raw_string; idx ← push_string text; descriptor idx; pure (some idx))
        else if b == end || b == empty
        then pure none
        else (do idx ← string_index b; descriptor idx; pure (some idx))
