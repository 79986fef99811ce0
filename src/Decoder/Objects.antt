-- ===== src/Decoder/Objects.antt =====
-- `readValue`, `readTypes` and `readObject` of apps/imessage-sensor/src/decoder/typedstream.ts.
-- `readObject` calls itself through `readTypes` and `readValue`: those take the recursive call as
-- an argument, and the recursion goes on as long as it has rounds.
pub mod Safety
pub mod Depth
use jehad_os.Prelude.{
  ℕ, zero, suc, ◌+◌, ◌-◌, ◌*◌, Bool, true, false, not, ◌&&◌, ◌||◌, Option, none, some, List, [],
  ◌∷◌, ◌++◌, map, ltb, leb, ◌==◌, if◌then◌else◌, length, get_elem?, set, drop, Result, ok, err,
}
use jehad_os.Prelude.Int.{ℤ, pos, negsuc}
use jehad_os.Decoder.Stream.{
  start, empty, end, reference_tag, decimal, max_depth, Slot, object, utf8string, cstring, selector,
  atom, class, int, uint, float, double, array, Val, str, obj, null, bytes, ObjectEntry,
  placeholder, SharedString, StreamError, malformed, stuck, TypedStreamParser, ParsedStream, Method,
}
use jehad_os.Decoder.Method.{
  ◌>>=◌, ◌>>◌, pure, throw, lift, advance, push_string, push_object, with_parent, set_parent, adopt,
  table_index, string_index, object_index, text_of, cstring_text,
}
use jehad_os.Decoder.Integers.{byte_at, bytes_at, read_int_from}
use jehad_os.Decoder.Descriptor.{parse_descriptor}
use jehad_os.Decoder.Tables.{
  Input, peek, next_byte, take_bytes, read_int, take_length, decoded, read_raw_string,
  read_shared_string, end_class, or_first, read_chain, read_class, keep_desc, descriptor, read_type,
}

module _ (x : Input) where
  unfoldable pub read_atom : Method Val
  read_atom = do
    b ← peek x
    if b == empty
        then (do advance 1; pure null)
        else (do idx ← read_shared_string x; text ← text_of idx; pure (str text))

  unfoldable pub lookup_object : ℕ → Method (Option ObjectEntry)
  lookup_object byte s =
      ok (if ltb byte reference_tag then none else get_elem? s.objects (byte - reference_tag), s)

  unfoldable pub read_cstring : Method Val
  read_cstring = do
    b ← next_byte x
    if b == empty
        then pure null
        else if b == start
        then (do
          idx ← read_shared_string x
          push_object (ObjectEntry.cstring idx)
          text ← text_of idx
          pure (str text))
        else (do entry ← lookup_object b; cstring_text entry)

  -- `size` bytes after the tag, or an integer.
  unfoldable pub read_float : ℕ → (List ℕ → Val) → (ℤ → Val) → Method Val
  read_float size raw_value int_value = do
    b ← peek x
    if b == decimal
        then (do advance 1; raw ← take_bytes x size; pure (raw_value raw))
        else (do v ← read_int x false; pure (int_value v))

  abbrev pub obj_or_null : Option ℕ → Val
  obj_or_null none = null
  obj_or_null (some idx) = obj idx

  -- `readValue`; `read_object` is the recursive call.
  unfoldable pub read_value : Method (Option ℕ) → Slot → Method Val
  read_value read_object utf8string = do text ← read_raw_string x; pure (str text)
  read_value read_object object = do idx ← read_object; advance 1; pure (obj_or_null idx)
  read_value read_object (array n) = do raw ← take_bytes x n; pure (bytes raw)
  read_value read_object selector = read_atom
  read_value read_object atom = read_atom
  read_value read_object cstring = read_cstring
  read_value read_object class = do cls ← read_class x; pure (obj_or_null cls)
  read_value read_object int = do v ← read_int x false; pure (Val.i v)
  read_value read_object uint = do v ← read_int x true; pure (Val.u v)
  read_value read_object float = read_float 4 Val.f Val.f_int
  read_value read_object double = read_float 8 Val.d Val.d_int

  -- The loop of `readTypes`.
  unfoldable pub read_slots : Method (Option ℕ) → List Slot → Method (List Val)
  read_slots read_object [] = pure []
  read_slots read_object (slot ∷ slots) = do
    v ← read_value read_object slot
    vs ← read_slots read_object slots
    pure (v ∷ vs)

  unfoldable pub read_types : Method (Option ℕ) → ℕ → Method (List Val)
  read_types read_object idx = do slots ← descriptor x idx; read_slots read_object slots

  -- `this.pos < this.data.length && this.byteAt(this.pos) !== END`.
  unfoldable pub more_groups : Method Bool
  more_groups s = elim (byte_at x.blob s.position) [
    | err _ ↦ ok (false, s)
    | ok b ↦ ok (not (b == end), s)
  ]

  unfoldable pub read_group : Method (Option ℕ) → Option ℕ → Method (List (List Val))
  read_group read_object none = pure []
  read_group read_object (some idx) = do group ← read_types read_object idx; pure (group ∷ [])

  -- The loop of `readObject`.
  unfoldable pub read_groups : ℕ → Method (Option ℕ) → Method (List (List Val))
  read_groups zero read_object = throw stuck
  read_groups (suc rounds) read_object = do
    more ← more_groups
    if more
        then (do
          idx ← read_type x
          group ← read_group read_object idx
          groups ← read_groups rounds read_object
          pure (group ++ groups))
        else pure []

  -- `++this.depth > MAX_DEPTH` throws.
  unfoldable pub enter : Method (Unit {0})
  enter s =
      if ltb max_depth (s.depth + 1)
      then err malformed
      else ok (tt, record s { depth = s.depth + 1 })

  unfoldable pub leave : Method (Unit {0})
  leave s = ok (tt, record s { depth = s.depth - 1 })

  unfoldable pub write_object : ℕ → ObjectEntry → Method (Unit {0})
  write_object idx entry s = ok (tt, record s { objects = set s.objects idx entry })

  unfoldable pub fill_object : Method (Option ℕ) → ℕ → Option ℕ → Method (Unit {0})
  fill_object read_object idx none = pure tt
  fill_object read_object idx (some cls) = do
    groups ← read_groups (length x.blob + 1) read_object
    write_object idx (ObjectEntry.object cls groups)

  -- The START case of `readObject`, inside the depth that it counts.
  unfoldable pub read_body : Method (Option ℕ) → Method ℕ
  read_body read_object = do
    idx ← push_object placeholder
    advance 1
    cls ← read_class x
    fill_object read_object idx cls
    pure idx

  unfoldable pub read_new_object : Method (Option ℕ) → Method (Option ℕ)
  read_new_object read_object = do enter; idx ← read_body read_object; leave; pure (some idx)

  unfoldable pub read_object : ℕ → Method (Option ℕ)
  read_object zero = throw stuck
  read_object (suc rounds) = do
    b ← peek x
    if b == start
        then read_new_object (read_object rounds)
        else if b == empty
        then pure none
        else (do idx ← object_index b; pure (some idx))
