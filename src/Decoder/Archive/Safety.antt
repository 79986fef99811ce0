-- ===== src/Decoder/Archive/Safety.antt =====
-- `TypedStreamParser.parse` of apps/imessage-sensor/src/decoder/typedstream.ts on any blob.
use jehad_os.Prelude.{
  ℕ, suc, ◌+◌, ◌<◌, false, ◌≡◌, refl, ap, Option, none, some, List, [], ◌∷◌, not, ◌==◌, map, ◌≢◌,
  All, length, ok, err, arith, Bool-cases, inl, inr,
}
use jehad_os.Decoder.Stream.{Val, obj, SharedString, stuck, TypedStreamParser, max_depth}
use jehad_os.Decoder.Ensures.{Ensures, returns, fails, Ensures-map}
use jehad_os.Decoder.Method.Runs.{
  InTable, ValidVal, ValidEntry, IsValid, Extends-refl, Runs, Runs-bind, Runs-pure, Runs-throw,
  Runs-if,
}
use jehad_os.Decoder.Tables.{Input}
use jehad_os.Decoder.Tables.Safety.{next_byte-Runs, read_int-Runs, read_raw_string-Runs}
use jehad_os.Decoder.Tables.Chains.{read_type-Runs}
use jehad_os.Decoder.Objects.{read_object}
use jehad_os.Decoder.Stream.{ParsedStream}
use jehad_os.Decoder.Ensures.{Ensures-ok, Ensures-ne-stuck}
use jehad_os.Decoder.Objects.Safety.{read_types-Runs}
use jehad_os.Decoder.Objects.Depth.{read_object-Runs}
use jehad_os.Decoder.Archive.{
  same_codes, streamtyped, is_1000, read_header, read_root, root_index, finish, parse_from, parse,
}

-- The root and every index that the objects hold point into their tables.
pub record IsClosed (stream : ParsedStream) : Type 0 where
  pub root : stream.root_idx < length stream.objects
  pub entries : All (ValidEntry (length stream.strings) (length stream.objects)) stream.objects

length-map {ℓ κ} :
    {A : Type ℓ} {B : Type κ} (f : A → B) (xs : List A) → length (map f xs) ≡ length xs
length-map f [] = refl
length-map f (x ∷ xs) = ap suc (length-map f xs)

module _ (x : Input) where
  read_header-Runs : (s : TypedStreamParser) → IsValid s → Runs s (read_header x) (λ _ _. Unit)
  unfolding read_header
  read_header-Runs s v = Runs-bind (next_byte-Runs x s v) λ b t e _.
      Runs-if (not (b == 4)) (λ _. Runs-throw)
        λ _. Runs-bind (read_raw_string-Runs x t e.valid) λ signature t1 e1 _.
          Runs-if (not (same_codes signature streamtyped)) (λ _. Runs-throw)
            λ _. Runs-bind (read_int-Runs x t1 false e1.valid) λ version t2 e2 _.
              Runs-if (is_1000 version) (λ _. Runs-pure tt e2.valid tt) (λ _. Runs-throw)

  read_root-Runs :
      (s : TypedStreamParser) (idx : Option ℕ)
      → IsValid s
      → InTable (length s.strings) idx
      → Runs s (read_root x idx) (λ vs t. All (ValidVal (length t.objects)) vs)
  unfolding read_root
  read_root-Runs s none v h = Runs-throw
  read_root-Runs s (some idx) v h =
      read_types-Runs x (read_object x (max_depth + 1)) s.depth
        (λ t w d. read_object-Runs x (max_depth + 1) t w (omega arith)) s idx v refl h

  root_index-Runs :
      (s : TypedStreamParser) (vs : List Val)
      → IsValid s
      → All (ValidVal (length s.objects)) vs
      → Runs s (root_index x vs) (λ idx t. idx < length t.objects)
  unfolding root_index
  root_index-Runs s [] v h = Runs-throw
  root_index-Runs s (obj idx ∷ vs) v h = Runs-pure idx v h.0
  root_index-Runs s (_ ∷ vs) v h = Runs-throw

  -- What a parse that succeeds has left.
  abbrev pub Parsed : ParsedStream → TypedStreamParser → Type 0
  Parsed stream t = IsClosed stream × (t.position ≡ length x.blob) × (t.depth ≡ 0)

  finish-Runs :
      (s : TypedStreamParser) (root : ℕ)
      → IsValid s
      → s.depth ≡ 0
      → root < length s.objects
      → Runs s (finish x root) Parsed
  unfolding finish
  finish-Runs s root v d h = elim (Bool-cases (s.position == length x.blob)) [
    | inr trailing ↦ record { ensures = rw (trailing, finish) fails }
    | inl done ↦ record {
      ensures =
          rw (done, finish)
            (returns (
              Extends-refl s v,
              (
                record {
                  root = h;
                  entries = rw (length-map (λ (e : SharedString). e.text) s.strings) v.entries;
                },
                ground arith,
                d,
              ),
            ));
    }
  ]

  parse_from-Runs : (s : TypedStreamParser) → IsValid s → s.depth ≡ 0 → Runs s (parse_from x) Parsed
  unfolding parse_from
  parse_from-Runs s v d = Runs-bind (read_header-Runs s v) λ _ t e _.
      Runs-bind (read_type-Runs x t e.valid) λ idx t1 e1 moved.
        Runs-bind (read_root-Runs t1 idx e1.valid moved.1) λ group t2 e2 hg.
          Runs-bind (root_index-Runs t2 group e2.valid hg) λ root t3 e3 below.
            finish-Runs t3 root e3.valid
              (omega (arith, d, e.depth_kept, e1.depth_kept, e2.depth_kept, e3.depth_kept)) below

  parse-Ensures : Ensures (λ r. Parsed r.0 r.1) (parse x)
  unfolding parse
  parse-Ensures =
      Ensures-map (parse_from-Runs _ (record { entries = tt; shallow = omega arith }) refl).ensures
        λ r h. h.1

  -- On every blob the parser ends, with a stream or an error of its own: the limit on nesting
  -- bounds the recursion and the bytes bound the loops.
  pub parse-ne-stuck : parse x ≢ err stuck
  parse-ne-stuck = Ensures-ne-stuck parse-Ensures

  -- If a blob is accepted, the parser has read exactly all of its bytes and is back at depth 0,
  -- the root is an object of the table, and every class, parent, name and object index in the
  -- table of objects is in range.
  pub parse-Parsed :
      (stream : ParsedStream) (t : TypedStreamParser) → parse x ≡ ok (stream, t) → Parsed stream t
  parse-Parsed stream t h = Ensures-ok (stream, t) parse-Ensures h
