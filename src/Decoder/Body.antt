-- ===== src/Decoder/Body.antt =====
-- apps/imessage-sensor/src/decoder/index.ts: the text, the number of parts and the attachment
-- flag of a decoded blob. A result's `detail`, which only words the error, is not kept.
pub mod Text
pub mod Runs
use Prim.Native.Char.{code}
use Prim.Native.String.{String, [] as no_text, ◌∷◌ as character}
use jehad_os.Prelude.{
  ℕ, suc, ◌+◌, ◌*◌, ◌^◌, Bool, true, false, not, ◌&&◌, ◌||◌, Option, none, some, List, [], ◌∷◌, any,
  ltb, ◌==◌, if◌then◌else◌, length, get_elem?, Result, ok, err, ◌>>=◌, throw_if, and_then, map_some,
}
use jehad_os.Prelude.Int.{ℤ, pos, negsuc}
use jehad_os.Decoder.Stream.{
  Val, str, obj, i, u, ObjectEntry, object, class, StreamError, malformed, ParsedStream,
}
use jehad_os.Decoder.Tables.{Input}
use jehad_os.Decoder.Archive.{same_codes, parse}

-- The units of a text of the source.
unfoldable pub codes : String → List ℕ
codes no_text = []
codes (character c s) = code c ∷ codes s

-- `NAMES.has(name ?? "")`
unfoldable pub is_one_of : String → String → Option (List ℕ) → Bool
unfolding codes same_codes
is_one_of a b none = false
is_one_of a b (some name) = same_codes name (codes a) || same_codes name (codes b)

-- The object whose class `objectClassName` looks up.
unfoldable pub class_name : List ObjectEntry → Option ObjectEntry → Option ℕ
class_name objects (some (object cls groups)) =
    and_then (get_elem? objects cls)
      λ entry. elim entry [ class name parent version ↦ some name | _ ↦ none ]
class_name objects _ = none

unfoldable pub object_class_name : ParsedStream → ℕ → Option (List ℕ)
unfolding class_name
object_class_name stream idx =
    and_then (class_name stream.objects (get_elem? stream.objects idx)) (get_elem? stream.strings)

unfoldable pub groups_of : Option ObjectEntry → Option (List (List Val))
groups_of (some (object cls groups)) = some groups
groups_of _ = none

unfoldable pub single_text : List (List Val) → Option (List ℕ)
single_text ((str v ∷ []) ∷ []) = some v
single_text _ = none

unfoldable pub string_object_text : ParsedStream → ℕ → Option (List ℕ)
unfolding is_one_of object_class_name groups_of single_text
string_object_text stream idx =
    if is_one_of "NSString" "NSMutableString" (object_class_name stream idx)
    then and_then (groups_of (get_elem? stream.objects idx)) single_text
    else none

-- A second number is ambiguous.
unfoldable pub number_from : Option ℤ → List (List Val) → Option ℤ
number_from found [] = found
number_from none ((i v ∷ []) ∷ groups) = number_from (some v) groups
number_from none ((u v ∷ []) ∷ groups) = number_from (some v) groups
number_from (some w) ((i v ∷ []) ∷ groups) = none
number_from (some w) ((u v ∷ []) ∷ groups) = none
number_from found (group ∷ groups) = number_from found groups

unfoldable pub number_object_value : ParsedStream → ℕ → Option ℤ
unfolding is_one_of object_class_name groups_of number_from
number_object_value stream idx =
    if is_one_of "NSNumber" "NSDecimalNumber" (object_class_name stream idx)
    then and_then (groups_of (get_elem? stream.objects idx)) (number_from none)
    else none

pub record DictEntry : Type 0 where
  pub key : List ℕ
  pub value_idx : ℕ

-- The loop of `dictEntries`, over the groups behind the count.
unfoldable pub dict_pairs : ParsedStream → List (List Val) → Option (List DictEntry)
unfolding string_object_text
dict_pairs stream [] = some []
dict_pairs stream ((obj k ∷ []) ∷ ((obj v ∷ []) ∷ groups)) =
    let rest = dict_pairs stream groups in
    and_then (string_object_text stream k)
      λ key. map_some (λ entries. record { key = key; value_idx = v } ∷ entries) rest
dict_pairs stream _ = none

unfoldable pub counted_pairs : ParsedStream → List (List Val) → Option (List DictEntry)
unfolding dict_pairs
counted_pairs stream ((i (pos count) ∷ []) ∷ groups) =
    if length groups == 2 * count then dict_pairs stream groups else none
counted_pairs stream _ = none

unfoldable pub dict_entries : ParsedStream → ℕ → Option (List DictEntry)
unfolding is_one_of object_class_name groups_of counted_pairs
dict_entries stream idx =
    if is_one_of "NSDictionary" "NSMutableDictionary" (object_class_name stream idx)
    then and_then (groups_of (get_elem? stream.objects idx)) (counted_pairs stream)
    else none

unfoldable pub starts_with : List ℕ → List ℕ → Bool
starts_with blob [] = true
starts_with [] (c ∷ prefix_) = false
starts_with (b ∷ blob) (c ∷ prefix_) = b == c && starts_with blob prefix_

-- `classifyOtherArchive(blob) !== null`
unfoldable pub is_other_archive : List ℕ → Bool
unfolding starts_with codes
is_other_archive blob =
    starts_with blob (codes "bplist00")
    || (starts_with blob (codes "bplist15")
        || (starts_with blob (codes "<?xml") || starts_with blob (codes "<plist")))

abbrev pub max_of : Option ℕ → ℕ → ℕ
max_of none part = part
max_of (some m) part = if ltb m part then part else m

-- A part index is a safe integer that is not negative.
unfoldable pub use_part : Option ℕ → Option ℤ → Result StreamError (Option ℕ)
use_part m (some (pos part)) =
    if ltb part (2 ^ 53) then ok (some (max_of m part)) else err malformed
use_part m _ = err malformed

abbrev pub present : {A : Type 0} → Option A → Bool
present none = false
present (some a) = true

-- `key === NAME`
unfoldable pub keyed : String → DictEntry → Bool
unfolding codes same_codes
keyed name e = same_codes e.key (codes name)

unfoldable pub use_entry : ParsedStream → Option ℕ → DictEntry → Result StreamError (Option ℕ)
unfolding keyed use_part number_object_value string_object_text
use_entry stream m e =
    if keyed "__kIMMessagePartAttributeName" e
    then use_part m (number_object_value stream e.value_idx)
    else if keyed "__kIMFileTransferGUIDAttributeName" e
    then (if present (string_object_text stream e.value_idx) then ok m else err malformed)
    else if keyed "__kIMBaseWritingDirectionAttributeName" e
    then (if present (number_object_value stream e.value_idx) then ok m else err malformed)
    else ok m

unfoldable pub use_entries :
    ParsedStream → Option ℕ → List DictEntry → Result StreamError (Option ℕ)
unfolding use_entry
use_entries stream m [] = ok m
use_entries stream m (e ∷ entries) = use_entry stream m e >>= λ n. use_entries stream n entries

unfoldable pub use_dict : ParsedStream → Option ℕ → ℕ → Result StreamError (Option ℕ)
unfolding dict_entries use_entries
use_dict stream m idx = elim (dict_entries stream idx) [
  | none ↦ err malformed
  | some entries ↦ use_entries stream m entries
]

abbrev pub is_int : Val → Bool
is_int (i v) = true
is_int (u v) = true
is_int _ = false

unfoldable pub is_range : List Val → Bool
is_range (a ∷ (b ∷ [])) = is_int a && is_int b
is_range _ = false

-- The dictionary's object, where a group behind a range is one.
unfoldable pub dict_behind : Bool → List Val → Option ℕ
dict_behind true (obj idx ∷ []) = some idx
dict_behind behind group = none

-- One group of the runs, a dictionary or a range, and the groups behind it.
unfoldable pub run_group :
    ParsedStream
    → Option ℕ
    → List Val
    → Option ℕ
    → (Bool → Option ℕ → Result StreamError (Option ℕ))
    → Result StreamError (Option ℕ)
unfolding is_range use_dict
run_group stream m group (some idx) rest = use_dict stream m idx >>= λ n. rest false n
run_group stream m group none rest = throw_if (not (is_range group)) malformed >>= λ _. rest true m

-- The loop over the attribute runs; `behind` says whether the group before was a range.
unfoldable pub runs_from :
    ParsedStream → (behind : Bool) → Option ℕ → List (List Val) → Result StreamError (Option ℕ)
unfolding dict_behind run_group
runs_from stream behind m [] = ok m
runs_from stream behind m (group ∷ groups) =
    run_group stream m group (dict_behind behind group) λ b n. runs_from stream b n groups

pub data DecodeResult : Type 0 where
  decoded : (text : List ℕ) (parts : ℕ) (has_attachment_placeholder : Bool) → DecodeResult
  malformed_blob : DecodeResult
  unknown_archive : DecodeResult

abbrev pub has_placeholder : List ℕ → Bool
has_placeholder = any (λ c. c == 0xfffc)

abbrev pub part_count : Option ℕ → ℕ
part_count none = 1
part_count (some m) = m + 1

unfoldable pub interpret_groups :
    ParsedStream → Option (List (List Val)) → Result StreamError DecodeResult
unfolding string_object_text runs_from
interpret_groups stream (some ((obj idx ∷ []) ∷ groups)) = elim (string_object_text stream idx) [
  | none ↦ err malformed
  | some text ↦ runs_from stream false none groups >>= λ m.
      ok (decoded text (part_count m) (has_placeholder text))
]
interpret_groups stream _ = err malformed

unfoldable pub interpret : ParsedStream → Result StreamError DecodeResult
unfolding is_one_of object_class_name groups_of interpret_groups
interpret stream =
    if is_one_of "NSAttributedString" "NSMutableAttributedString"
      (object_class_name stream stream.root_idx)
    then interpret_groups stream (groups_of (get_elem? stream.objects stream.root_idx))
    else err malformed

-- `catch`: whatever was thrown, the blob is malformed.
unfoldable pub caught : Result StreamError DecodeResult → DecodeResult
caught (ok r) = r
caught (err e) = malformed_blob

unfoldable pub decode_attributed_body : Input → DecodeResult
unfolding is_other_archive caught parse interpret
decode_attributed_body x =
    if is_other_archive x.blob then unknown_archive else caught (parse x >>= λ r. interpret r.0)
