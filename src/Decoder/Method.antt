-- ===== src/Decoder/Method.antt =====
-- The state of `TypedStreamParser` in apps/imessage-sensor/src/decoder/typedstream.ts: a method
-- is a step from state to state that may throw, and these are its accesses to the two tables.
pub mod Runs
pub mod Access
use jehad_os.Prelude.{
  ℕ, zero, suc, ◌+◌, ◌-◌, ◌*◌, Bool, true, false, not, ◌&&◌, ◌||◌, Option, none, some, List, [],
  ◌∷◌, ◌++◌, map, ltb, leb, ◌==◌, if◌then◌else◌, length, get_elem?, set, drop, Result, ok, err,
}
use jehad_os.Prelude.Int.{ℤ, pos, negsuc}
use jehad_os.Decoder.Stream.{
  start, empty, end, reference_tag, decimal, max_depth, Slot, object, utf8string, cstring, selector,
  atom, class, int, uint, float, double, array, Val, str, obj, null, bytes, ObjectEntry,
  placeholder, SharedString, StreamError, malformed, stuck, TypedStreamParser, ParsedStream, Method,
}

infixl 5 ◌>>=◌ ◌>>◌
unfoldable pub ◌>>=◌ : {A B : Type 0} → Method A → (A → Method B) → Method B
◌>>=◌ m f s = elim (m s) [ ok (a, s') ↦ f a s' | err e ↦ err e ]

abbrev pub ◌>>◌ : {A B : Type 0} → Method A → Method B → Method B
m >> n = m >>= λ _. n

unfoldable pub pure : {A : Type 0} → A → Method A
pure a s = ok (a, s)

unfoldable pub throw : {A : Type 0} → StreamError → Method A
throw e s = err e

unfoldable pub lift : {A : Type 0} → Result StreamError A → Method A
lift r s = elim r [ ok a ↦ ok (a, s) | err e ↦ err e ]

-- `this.pos += n`.
unfoldable pub advance : ℕ → Method (Unit {0})
advance n s = ok (tt, record s { position = s.position + n })

unfoldable pub push_string : List ℕ → Method ℕ
push_string text s =
    ok (
      length s.strings,
      record s { strings = s.strings ++ record { text = text; desc = none } ∷ [] },
    )

unfoldable pub push_object : ObjectEntry → Method ℕ
push_object entry s = ok (length s.objects, record s { objects = s.objects ++ entry ∷ [] })

-- `entry.parent = parent`, if the entry at `idx` is a class.
abbrev pub with_parent : Option ℕ → ObjectEntry → ObjectEntry
with_parent parent (ObjectEntry.class name _ version) = ObjectEntry.class name parent version
with_parent parent (ObjectEntry.object cls groups) = ObjectEntry.object cls groups
with_parent parent (ObjectEntry.cstring idx) = ObjectEntry.cstring idx
with_parent parent placeholder = placeholder

unfoldable pub set_parent : ℕ → Option ℕ → List ObjectEntry → List ObjectEntry
set_parent idx parent [] = []
set_parent zero parent (e ∷ es) = with_parent parent e ∷ es
set_parent (suc idx) parent (e ∷ es) = e ∷ set_parent idx parent es

unfoldable pub adopt : Option ℕ → Option ℕ → Method (Unit {0})
adopt none parent s = ok (tt, s)
adopt (some idx) parent s = ok (tt, record s { objects = set_parent idx parent s.objects })

-- `byte - REFERENCE_TAG` as an index below `count`.
unfoldable pub table_index : ℕ → ℕ → Result StreamError ℕ
table_index byte count =
    if ltb byte reference_tag
    then err malformed
    else if ltb (byte - reference_tag) count
    then ok (byte - reference_tag)
    else err malformed

unfoldable pub string_index : ℕ → Method ℕ
string_index byte s = lift (table_index byte (length s.strings)) s

unfoldable pub object_index : ℕ → Method ℕ
object_index byte s = lift (table_index byte (length s.objects)) s

-- `this.strings[idx]!.text`; an index out of the table is an error of the model alone.
unfoldable pub text_of : ℕ → Method (List ℕ)
text_of idx s = elim (get_elem? s.strings idx) [ none ↦ err stuck | some e ↦ ok (e.text, s) ]

unfoldable pub cstring_text : Option ObjectEntry → Method Val
cstring_text (some (ObjectEntry.cstring idx)) = do text ← text_of idx; pure (str text)
cstring_text _ = throw malformed
