-- ===== src/Tests/Decoding.antt =====
-- A small archive, read by the decoder of apps/imessage-sensor/src/decoder/typedstream.ts.
use jehad_os.Prelude.{
  ℕ, ◌*◌, ◌-◌, ◌^◌, ◌≤◌, false, ◌≡◌, ◌≢◌, refl, Option, none, some, List, [], ◌∷◌, Result, ok, err,
  arith, length,
}
use jehad_os.Prelude.Int.{ℤ, pos, negsuc, neg_part}
use jehad_os.Decoder.Stream.{
  StreamError, stuck, TypedStreamParser, ParsedStream, object, utf8string, int, uint, array, str,
  ObjectEntry, i, u,
}
use jehad_os.Decoder.Integers.{
  byte_at, bytes_at, round_4096, value64, skips, read_i16, read_i32, read_i64, read_int_from,
}
use jehad_os.Decoder.Descriptor.{
  scalar_type, skip_qualifiers, read_count, skip_name, repeat_slots, expect, char_array,
  close_array, array_body, parse_array, parse_scalar, parse_head, fits_bytes, parse_all,
  parse_descriptor, parse_one, parse_members,
}
use jehad_os.Decoder.Method.{
  ◌>>=◌, pure, throw, lift, advance, push_string, push_object, set_parent, adopt, table_index,
  string_index, object_index, text_of, cstring_text,
}
use jehad_os.Decoder.Tables.{
  Input, peek, next_byte, take_bytes, read_int, take_length, decoded, read_raw_string,
  read_shared_string, end_class, read_chain, read_class, keep_desc, descriptor, read_type,
}
use jehad_os.Decoder.Objects.{
  read_atom, lookup_object, read_cstring, read_float, read_value, read_slots, read_types,
  more_groups, read_group, read_groups, enter, leave, write_object, fill_object, read_body,
  read_new_object, read_object,
}
use jehad_os.Decoder.Archive.{
  same_codes, read_header, read_root, root_index, finish, parse_from, parse,
}
use jehad_os.Decoder.Integers.Widths.{read_int-words, value64_negative}
use jehad_os.Decoder.Ensures.{Ensures}
use jehad_os.Decoder.Descriptor.Bounds.{parse_descriptor-Ensures}
use jehad_os.Decoder.Archive.Safety.{Parsed, parse-ne-stuck, parse-Parsed}
use jehad_os.Decoder.Body.{
  codes, is_one_of, class_name, object_class_name, groups_of, single_text, string_object_text,
  number_from, number_object_value, dict_pairs, counted_pairs, dict_entries, starts_with,
  is_other_archive, use_part, keyed, use_entry, use_entries, use_dict, is_range, dict_behind,
  run_group, runs_from, interpret_groups, interpret, caught, decode_attributed_body, DecodeResult,
}
use jehad_os.Decoder.Body.Text.{IsMessage, decode-IsMessage}
use jehad_os.Decoder.Body.Runs.{runs_from-orphan}

decoder : Unit {0}
unfolding byte_at bytes_at round_4096 value64 skips read_i16 read_i32 read_i64 read_int_from
    scalar_type skip_qualifiers read_count skip_name repeat_slots expect char_array close_array
    array_body parse_array parse_scalar parse_head fits_bytes parse_all parse_descriptor parse_one
    parse_members ◌>>=◌ pure throw lift advance push_string push_object set_parent adopt table_index
    string_index object_index text_of cstring_text peek next_byte take_bytes read_int take_length
    decoded read_raw_string read_shared_string end_class read_chain read_class keep_desc descriptor
    read_type read_atom lookup_object read_cstring read_float read_value read_slots read_types
    more_groups read_group read_groups enter leave write_object fill_object read_body
    read_new_object read_object same_codes read_header read_root root_index finish parse_from parse
decoder = tt

-- An `NSObject` with the string "hello".
abbrev hello : Input
hello = record {
  blob =
      0x04 ∷ 0x0b ∷ 0x73 ∷ 0x74 ∷ 0x72 ∷ 0x65 ∷ 0x61 ∷ 0x6d ∷ 0x74 ∷ 0x79 ∷ 0x70 ∷ 0x65 ∷ 0x64
      ∷ 0x81 ∷ 0xe8 ∷ 0x03 ∷ 0x84 ∷ 0x01 ∷ 0x40 ∷ 0x84 ∷ 0x84 ∷ 0x84 ∷ 0x08 ∷ 0x4e ∷ 0x53 ∷ 0x4f
      ∷ 0x62 ∷ 0x6a ∷ 0x65 ∷ 0x63 ∷ 0x74 ∷ 0x00 ∷ 0x85 ∷ 0x84 ∷ 0x01 ∷ 0x2b ∷ 0x05 ∷ 0x68 ∷ 0x65
      ∷ 0x6c ∷ 0x6c ∷ 0x6f ∷ 0x86 ∷ [];
  decode = some;
}

abbrev parsed : Result StreamError (ParsedStream × TypedStreamParser) → Option (ℕ × ℕ)
parsed (ok (stream, t)) = some (stream.root_idx, length stream.objects)
parsed (err e) = none

hello_parses : parsed (parse hello) ≡ some (0, 2)
unfolding decoder
hello_parses = refl

-- `{_NSRange=QQ}` and `[4c]`.
range_slots :
    parse_descriptor (0x7b ∷ 0x52 ∷ 0x3d ∷ 0x51 ∷ 0x51 ∷ 0x7d ∷ []) 9 ≡ ok (uint ∷ uint ∷ [])
unfolding decoder
range_slots = refl

char_array_slot : parse_descriptor (0x5b ∷ 0x34 ∷ 0x63 ∷ 0x5d ∷ []) 9 ≡ ok (array 4 ∷ [])
unfolding decoder
char_array_slot = refl

int_array_overruns :
    (parse_descriptor (0x5b ∷ 0x34 ∷ 0x69 ∷ 0x5d ∷ []) 3) ≢ ok (int ∷ int ∷ int ∷ int ∷ [])
unfolding decoder
int_array_overruns e = cc

parse_descriptor-Ensures_example :
    Ensures (λ slots. length slots ≤ 4 * 9) (parse_descriptor (0x5b ∷ 0x34 ∷ 0x69 ∷ 0x5d ∷ []) 9)
parse_descriptor-Ensures_example = parse_descriptor-Ensures (0x5b ∷ 0x34 ∷ 0x69 ∷ 0x5d ∷ []) 9

parse-ne-stuck_example : parse hello ≢ err stuck
parse-ne-stuck_example = parse-ne-stuck hello

abbrev ns_object : List ℕ
ns_object = 0x4e ∷ 0x53 ∷ 0x4f ∷ 0x62 ∷ 0x6a ∷ 0x65 ∷ 0x63 ∷ 0x74 ∷ []

abbrev hello_objects : List ObjectEntry
hello_objects =
    ObjectEntry.object 1 ((str (0x68 ∷ 0x65 ∷ 0x6c ∷ 0x6c ∷ 0x6f ∷ []) ∷ []) ∷ [])
    ∷ ObjectEntry.class 1 none (pos 0)
    ∷ []

abbrev hello_stream : ParsedStream
hello_stream = record {
  root_idx = 0;
  strings = (0x40 ∷ []) ∷ ns_object ∷ (0x2b ∷ []) ∷ [];
  objects = hello_objects;
}

abbrev hello_end : TypedStreamParser
hello_end = record {
  position = 43;
  strings =
      record { text = 0x40 ∷ []; desc = some (object ∷ []) }
      ∷ record { text = ns_object; desc = none }
      ∷ record { text = 0x2b ∷ []; desc = some (utf8string ∷ []) }
      ∷ [];
  objects = hello_objects;
  depth = 0;
}

hello_result : parse hello ≡ ok (hello_stream, hello_end)
unfolding decoder
hello_result = refl

parse-Parsed_example : Parsed hello hello_stream hello_end
parse-Parsed_example = parse-Parsed hello hello_stream hello_end hello_result

read_int-words_example :
    (read_int_from false (0x81 ∷ 0xe8 ∷ 3 ∷ []) ≡ ok (pos 1000, 3))
    × (read_int_from false (0x82 ∷ 0xff ∷ 0xff ∷ 0xff ∷ 0xff ∷ []) ≡ ok (negsuc 0, 5))
    × (read_int_from false (0x87 ∷ 0xe8 ∷ 3 ∷ 0 ∷ 0 ∷ 0 ∷ 0 ∷ 0 ∷ 0 ∷ []) ≡ ok (pos 1000, 9))
read_int-words_example =
    read_int-words false 1000 (2 ^ 32 - 1) 1000 [] (omega arith) (omega arith) (omega arith)

value64_negative_example :
    (v : ℤ) × (value64 (2 ^ 32 - 1) (2 ^ 32 - 1) ≡ ok v) × (2 ^ 64 ≤ neg_part v)
value64_negative_example =
    value64_negative (2 ^ 32 - 1) (2 ^ 32 - 1) (omega arith) (omega arith) (omega arith)
      (omega arith)

body : Unit {0}
unfolding decoder codes is_one_of class_name object_class_name groups_of single_text
    string_object_text number_from number_object_value dict_pairs counted_pairs dict_entries
    starts_with is_other_archive use_part keyed use_entry use_entries use_dict is_range dict_behind
    run_group runs_from interpret_groups interpret caught decode_attributed_body
body = tt

-- An `NSAttributedString` with the text "hello" and one run without attributes.
abbrev message : Input
message = record {
  blob =
      0x04 ∷ 0x0b ∷ 0x73 ∷ 0x74 ∷ 0x72 ∷ 0x65 ∷ 0x61 ∷ 0x6d ∷ 0x74 ∷ 0x79 ∷ 0x70 ∷ 0x65 ∷ 0x64
      ∷ 0x81 ∷ 0xe8 ∷ 0x03 ∷ 0x84 ∷ 0x01 ∷ 0x40 ∷ 0x84 ∷ 0x84 ∷ 0x84 ∷ 0x12 ∷ 0x4e ∷ 0x53 ∷ 0x41
      ∷ 0x74 ∷ 0x74 ∷ 0x72 ∷ 0x69 ∷ 0x62 ∷ 0x75 ∷ 0x74 ∷ 0x65 ∷ 0x64 ∷ 0x53 ∷ 0x74 ∷ 0x72 ∷ 0x69
      ∷ 0x6e ∷ 0x67 ∷ 0x00 ∷ 0x84 ∷ 0x84 ∷ 0x08 ∷ 0x4e ∷ 0x53 ∷ 0x4f ∷ 0x62 ∷ 0x6a ∷ 0x65 ∷ 0x63
      ∷ 0x74 ∷ 0x00 ∷ 0x85 ∷ 0x92 ∷ 0x84 ∷ 0x84 ∷ 0x84 ∷ 0x08 ∷ 0x4e ∷ 0x53 ∷ 0x53 ∷ 0x74 ∷ 0x72
      ∷ 0x69 ∷ 0x6e ∷ 0x67 ∷ 0x01 ∷ 0x94 ∷ 0x84 ∷ 0x01 ∷ 0x2b ∷ 0x05 ∷ 0x68 ∷ 0x65 ∷ 0x6c ∷ 0x6c
      ∷ 0x6f ∷ 0x86 ∷ 0x84 ∷ 0x02 ∷ 0x69 ∷ 0x49 ∷ 0x01 ∷ 0x05 ∷ 0x86 ∷ [];
  decode = some;
}

abbrev hello_text : List ℕ
hello_text = 0x68 ∷ 0x65 ∷ 0x6c ∷ 0x6c ∷ 0x6f ∷ []

message_text : decode_attributed_body message ≡ DecodeResult.decoded hello_text 1 false
unfolding body
message_text = refl

decode-IsMessage_example :
    (stream : ParsedStream) × (t : TypedStreamParser) × Parsed message stream t
    × IsMessage stream hello_text 1 false
decode-IsMessage_example = decode-IsMessage message hello_text 1 false message_text

runs_from-orphan_example :
    runs_from hello_stream false none
      ((i (pos 0) ∷ u (pos 5) ∷ []) ∷ (i (pos 5) ∷ u (pos 2) ∷ []) ∷ [])
    ≡ runs_from hello_stream false none ((i (pos 0) ∷ u (pos 5) ∷ []) ∷ [])
unfolding body
runs_from-orphan_example =
    runs_from-orphan hello_stream false none ((i (pos 0) ∷ u (pos 5) ∷ []) ∷ [])
      (i (pos 5) ∷ u (pos 2) ∷ []) refl
