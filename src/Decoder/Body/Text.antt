-- ===== src/Decoder/Body/Text.antt =====
-- apps/imessage-sensor/src/decoder/index.ts: where the text of a decoded message comes from.
use jehad_os.Prelude.{
  ℕ, ◌^◌, ◌≤◌, ◌≡◌, refl, Bool, true, false, Option, none, some, List, [], ◌∷◌, get_elem?, sym,
  Result, ok, err, ◌>>=◌, >>=-eq-ok, arith, if◌then◌else◌,
}
use jehad_os.Decoder.Stream.{Val, obj, StreamError, malformed, ParsedStream, TypedStreamParser}
use jehad_os.Decoder.Tables.{Input}
use jehad_os.Decoder.Archive.{parse}
use jehad_os.Decoder.Archive.Safety.{Parsed, parse-Parsed}
use jehad_os.Decoder.Body.{
  DecodeResult, decoded, unknown_archive, decode_attributed_body, interpret, interpret_groups,
  caught, is_other_archive, string_object_text, groups_of, part_count, has_placeholder, runs_from,
}
use jehad_os.Decoder.Body.Runs.{IsPart, runs_from-IsPart}

-- The message that a stream holds: the text of the object in the root's first group.
pub record IsMessage (stream : ParsedStream) (text : List ℕ) (parts : ℕ) (placeholder : Bool)
    : Type 0 where
  pub content : ℕ
  pub runs : List (List Val)
  pub root : groups_of (get_elem? stream.objects stream.root_idx) ≡ some ((obj content ∷ []) ∷ runs)
  pub content_text : string_object_text stream content ≡ some text
  pub has_part : 1 ≤ parts
  pub safe_parts : parts ≤ 2 ^ 53
  pub flag : placeholder ≡ has_placeholder text

part_count-bounds : (m : Option ℕ) → IsPart m → (1 ≤ part_count m) × (part_count m ≤ 2 ^ 53)
part_count-bounds none k = omega arith
part_count-bounds (some m) k = omega (arith, k)

module _ {text : List ℕ} {parts : ℕ} {placeholder : Bool} where
  module _ (stream : ParsedStream) where
    content-IsMessage :
        (content : ℕ) (runs : List (List Val)) (found : Option (List ℕ))
        → groups_of (get_elem? stream.objects stream.root_idx) ≡ some ((obj content ∷ []) ∷ runs)
        → string_object_text stream content ≡ found
        → (elim found [
          | none ↦ err malformed
          | some body ↦ runs_from stream false none runs >>= λ m.
              ok (decoded body (part_count m) (has_placeholder body))
        ])
          ≡ ok (decoded text parts placeholder)
        → IsMessage stream text parts placeholder
    content-IsMessage content runs none root from h = cc
    content-IsMessage content runs (some body) root from h =
        let step =
          >>=-eq-ok (runs_from stream false none runs)
            (λ m. ok (decoded body (part_count m) (has_placeholder body))) h in
        let bounds =
          part_count-bounds step.0 (runs_from-IsPart stream false none runs step.0 tt step.1) in
        let count : part_count step.0 ≡ parts = cc in
        record {
          content = content;
          runs = runs;
          root = root;
          content_text = cc;
          has_part = rw (sym count) bounds.0;
          safe_parts = rw (sym count) bounds.1;
          flag = cc;
        }

    groups-IsMessage :
        (groups : Option (List (List Val)))
        → groups_of (get_elem? stream.objects stream.root_idx) ≡ groups
        → interpret_groups stream groups ≡ ok (decoded text parts placeholder)
        → IsMessage stream text parts placeholder
    unfolding interpret_groups
    groups-IsMessage (some ((obj content ∷ []) ∷ runs)) root h =
        content-IsMessage content runs (string_object_text stream content) root refl h
    groups-IsMessage _ root h = cc

    guarded-IsMessage :
        (b : Bool)
        → (if b
            then interpret_groups stream (groups_of (get_elem? stream.objects stream.root_idx))
            else err malformed)
          ≡ ok (decoded text parts placeholder)
        → IsMessage stream text parts placeholder
    guarded-IsMessage true h = groups-IsMessage _ refl h
    guarded-IsMessage false h = cc

    interpret-IsMessage :
        interpret stream ≡ ok (decoded text parts placeholder)
        → IsMessage stream text parts placeholder
    unfolding interpret
    interpret-IsMessage h = guarded-IsMessage _ h

  not_other :
      (b : Bool) (r : Result StreamError DecodeResult)
      → (if b then unknown_archive else caught r) ≡ decoded text parts placeholder
      → r ≡ ok (decoded text parts placeholder)
  unfolding caught
  not_other true r h = cc
  not_other false (ok a) h = cc
  not_other false (err e) h = cc

-- If a blob is decoded to a message, the parser accepted the blob to its last byte, the text is
-- the one text of the string object in the first group of the root object, there are between 1
-- and 2^53 parts, and the flag tells whether the text has the attachment character.
pub decode-IsMessage :
    (x : Input) (text : List ℕ) (parts : ℕ) (placeholder : Bool)
    → decode_attributed_body x ≡ decoded text parts placeholder
    → (stream : ParsedStream) × (t : TypedStreamParser) × Parsed x stream t
      × IsMessage stream text parts placeholder
unfolding decode_attributed_body
decode-IsMessage x text parts placeholder h =
    let step = >>=-eq-ok (parse x) (λ r. interpret r.0) (not_other (is_other_archive x.blob) _ h) in
    (
      step.0.0,
      step.0.1,
      parse-Parsed x step.0.0 step.0.1 step.1,
      interpret-IsMessage step.0.0 step.2,
    )
