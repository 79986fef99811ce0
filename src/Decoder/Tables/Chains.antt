-- ===== src/Decoder/Tables/Chains.antt =====
-- The class chains and the type descriptors of apps/imessage-sensor/src/decoder/typedstream.ts:
-- their readers end, and keep the tables valid.
use jehad_os.Prelude.{
  ℕ, zero, suc, ◌+◌, ◌-◌, ◌*◌, ◌≤◌, ◌<◌, true, ◌≡◌, refl, Option, none, some, List, ◌||◌, ◌==◌,
  length, Result, ok, err, arith, length-set, set,
}
use jehad_os.Decoder.Stream.{
  ObjectEntry, SharedString, StreamError, malformed, stuck, TypedStreamParser, Slot, start, empty,
  end,
}
use jehad_os.Decoder.Ensures.{Ensures, returns, fails}
use jehad_os.Decoder.Method.Runs.{
  InTable, IsValid, Extends, Extends-refl, Extends-trans, Runs, Runs-bind, Runs-pure, Runs-if,
}
use jehad_os.Decoder.Method.Access.{
  push_string-Runs, push_object-Runs, adopt-Runs, string_index-Runs, object_index-Runs,
  get_elem?-in,
}
use jehad_os.Decoder.Descriptor.{parse_descriptor}
use jehad_os.Decoder.Descriptor.Bounds.{parse_descriptor-Ensures, at_least_one}
use jehad_os.Decoder.Tables.{
  Input, end_class, or_first, read_chain, read_class, keep_desc, descriptor, read_type,
}
use jehad_os.Decoder.Tables.Safety.{
  next_byte-Runs, read_int-Runs, read_raw_string-Runs, read_shared_string-Runs,
}

-- The rounds are more than the bytes that are left.
abbrev pub Enough : Input → ℕ → TypedStreamParser → Type 0
Enough x rounds s = length x.blob - s.position < rounds

module _ (x : Input) where
  end_class-Runs :
      (s : TypedStreamParser) (first prev final : Option ℕ)
      → IsValid s
      → InTable (length s.objects) first
      → InTable (length s.objects) final
      → Runs s (end_class x first prev final) (λ idx t. InTable (length t.objects) idx)
  unfolding end_class
  end_class-Runs s none prev final v hf h = Runs-pure final v h
  end_class-Runs s (some first) prev final v hf h =
      Runs-bind (adopt-Runs s v prev final h)
        λ _ t e _. Runs-pure (some first) e.valid (omega (arith, e.objects_grow))

  or_first-InTable :
      (n : ℕ) (first : Option ℕ) (idx : ℕ)
      → InTable n first
      → idx < n
      → InTable n (or_first x first idx)
  or_first-InTable n none idx h k = k
  or_first-InTable n (some first) idx h k = h

  grown :
      (s t : TypedStreamParser) (o : Option ℕ)
      → Extends s t
      → InTable (length s.objects) o
      → InTable (length t.objects) o
  grown s t none e h = tt
  grown s t (some idx) e h = omega (arith, e.objects_grow)

  read_chain-Runs :
      (rounds : ℕ) (s : TypedStreamParser) (first prev : Option ℕ)
      → IsValid s
      → Enough x rounds s
      → InTable (length s.objects) first
      → Runs s (read_chain x rounds first prev) (λ idx t. InTable (length t.objects) idx)
  unfolding read_chain
  read_chain-Runs zero s first prev v enough h = absurd (omega arith)
  read_chain-Runs (suc rounds) s first prev v enough h =
      Runs-bind (next_byte-Runs x s v) λ b t e moved.
        Runs-if (b == start)
          (λ _. Runs-bind (read_shared_string-Runs x t e.valid) λ name t1 e1 in_strings.
            Runs-bind (read_int-Runs x t1 true e1.valid) λ version t2 e2 _.
              Runs-bind
                (push_object-Runs t2 e2.valid (ObjectEntry.class name none version)
                  (omega (arith, in_strings, e2.strings_grow), tt))
                λ idx t3 e3 below.
                  Runs-bind (adopt-Runs t3 e3.valid prev (some idx) below) λ _ t4 e4 _.
                    let far =
                      Extends-trans (Extends-trans e (Extends-trans e1 (Extends-trans e2 e3))) e4 in
                    read_chain-Runs rounds t4 (or_first x first idx) (some idx) e4.valid
                      (omega (arith, moved, e1.forward, e2.forward, e3.forward, e4.forward, enough))
                      (or_first-InTable _ first idx (grown s t4 first far h)
                        (omega (arith, below, e4.objects_grow))))
          λ _.
            Runs-if (b == empty)
              (λ _. end_class-Runs t first prev none e.valid (grown s t first e h) tt)
              λ _. Runs-bind (object_index-Runs t e.valid b) λ idx u e' below.
                end_class-Runs u first prev (some idx) e'.valid
                  (grown s u first (Extends-trans e e') h) below

  pub read_class-Runs :
      (s : TypedStreamParser)
      → IsValid s
      → Runs s (read_class x) (λ idx t. InTable (length t.objects) idx)
  unfolding read_class
  read_class-Runs s v = read_chain-Runs (length x.blob + 1) s none none v (omega arith) tt

  keep_desc-Runs :
      (s : TypedStreamParser) (idx : ℕ) (entry : SharedString)
      → IsValid s
      → Runs s (keep_desc x idx entry) (λ _ _. Unit)
  unfolding keep_desc
  keep_desc-Runs s idx entry v = record { ensures = go entry.desc refl }
    where
      parsed :
          (r : Result StreamError (List Slot))
          → Ensures
              (λ slots.
                length slots ≤ length entry.text * at_least_one (length x.blob - s.position))
              r
          → Ensures {A = List Slot × TypedStreamParser}
              (λ r. Extends s r.1 × Unit {0})
              (elim r [
                | err e ↦ err e
                | ok slots ↦ ok (
                  slots,
                  record s { strings = set s.strings idx (record entry { desc = some slots }) },
                )
              ])
      parsed (err malformed) h = fails
      parsed (err stuck) h = elim h [ ]
      parsed (ok slots) h =
          let same = length-set s.strings idx (record entry { desc = some slots }) in
          returns (
            record {
              valid = record { entries = rw same v.entries; shallow = v.shallow };
              strings_grow = omega (arith, same);
              objects_grow = omega arith;
              forward = omega arith;
              depth_kept = refl;
            },
            tt,
          )

      go :
          (d : Option (List Slot))
          → entry.desc ≡ d
          → Ensures {A = List Slot × TypedStreamParser}
              (λ r. Extends s r.1 × Unit {0})
              (keep_desc x idx entry s)
      go (some slots) e = rw (e, keep_desc) (returns (Extends-refl s v, tt))
      go none e =
          rw (e, keep_desc)
            (parsed (parse_descriptor entry.text (length x.blob - s.position))
              (parse_descriptor-Ensures entry.text (length x.blob - s.position)))

  pub descriptor-Runs :
      (s : TypedStreamParser) (idx : ℕ)
      → IsValid s
      → idx < length s.strings
      → Runs s (descriptor x idx) (λ _ _. Unit)
  unfolding descriptor
  descriptor-Runs s idx v h =
      let (e, found) = get_elem?-in s.strings idx h in
      record { ensures = rw (found, descriptor) ((keep_desc-Runs s idx e v).ensures) }

  -- `read_type` moves on, and its index is in the table of strings.
  pub read_type-Runs :
      (s : TypedStreamParser)
      → IsValid s
      → Runs s (read_type x) (λ idx t. (s.position < t.position) × InTable (length t.strings) idx)
  unfolding read_type
  read_type-Runs s v = Runs-bind (next_byte-Runs x s v) λ b t e moved.
      Runs-if (b == start)
        (λ _. Runs-bind (read_raw_string-Runs x t e.valid) λ text t1 e1 _.
          Runs-bind (push_string-Runs t1 e1.valid text) λ idx t2 e2 below.
            Runs-bind (descriptor-Runs t2 idx e2.valid below) λ _ t3 e3 _.
              Runs-pure (some idx) e3.valid (
                omega (arith, moved, e1.forward, e2.forward, e3.forward),
                omega (arith, below, e3.strings_grow),
              ))
        λ _.
          Runs-if (b == end || b == empty) (λ _. Runs-pure none e.valid (omega (arith, moved), tt))
            λ _. Runs-bind (string_index-Runs t e.valid b) λ idx t1 e1 below.
              Runs-bind (descriptor-Runs t1 idx e1.valid below) λ _ t2 e2 _.
                Runs-pure (some idx) e2.valid (
                  omega (arith, moved, e1.forward, e2.forward),
                  omega (arith, below, e2.strings_grow),
                )
