-- ===== src/Decoder/Objects/Safety.antt =====
-- The reader of objects in apps/imessage-sensor/src/decoder/typedstream.ts ends, and keeps the
-- tables valid.
use jehad_os.Prelude.{
  ℕ, zero, suc, ◌+◌, ◌-◌, ◌<◌, Bool, true, false, ◌≡◌, refl, Option, none, some, List, [], ◌∷◌,
  ◌++◌, ◌==◌, All, All-append, length, Result, ok, err, arith, length-set,
}
use jehad_os.Prelude.Int.{ℤ}
use jehad_os.Decoder.Stream.{
  Val, str, null, ObjectEntry, StreamError, TypedStreamParser, Method, Slot, reference_tag, start,
  empty, decimal, object, utf8string, cstring, selector, atom, class, int, uint, float, double,
  array, bytes,
}
use jehad_os.Decoder.Ensures.{Ensures, returns}
use jehad_os.Decoder.Method.Runs.{
  InTable, ValidVal, ValidEntry, IsValid, Extends, Extends-refl, Runs, Runs-bind, Runs-pure,
  Runs-if,
}
use jehad_os.Decoder.Method.Access.{
  advance-Runs, push_object-Runs, text_of-Runs, cstring_text-Runs, set-entries, ValidGroups-mono,
}
use jehad_os.Decoder.Integers.{byte_at}
use jehad_os.Decoder.Tables.{Input}
use jehad_os.Decoder.Tables.Safety.{
  next_byte-Runs, peek-Runs, byte_at-Ensures, read_int-Runs, read_raw_string-Runs,
  read_shared_string-Runs, take_bytes-Runs,
}
use jehad_os.Decoder.Tables.Chains.{Enough, read_class-Runs, descriptor-Runs, read_type-Runs}
use jehad_os.Decoder.Method.Access.{entry-valid, ValidVal-mono, InTable-mono}
use jehad_os.Decoder.Objects.{
  read_atom, lookup_object, read_cstring, read_float, obj_or_null, read_value, read_slots,
  read_types, more_groups, read_group, read_groups, write_object, fill_object,
}

-- The value's index, if it has one, is in the object table.
abbrev pub Sound : Val → TypedStreamParser → Type 0
Sound val t = ValidVal (length t.objects) val

abbrev pub Index : Option ℕ → TypedStreamParser → Type 0
Index idx t = InTable (length t.objects) idx

obj_or_null-Sound :
    (x : Input) (n : ℕ) (idx : Option ℕ) → InTable n idx → ValidVal n (obj_or_null x idx)
obj_or_null-Sound x n none h = tt
obj_or_null-Sound x n (some idx) h = h

module _ (x : Input) where
  read_atom-Runs : (s : TypedStreamParser) → IsValid s → Runs s (read_atom x) Sound
  unfolding read_atom
  read_atom-Runs s v = Runs-bind (peek-Runs x s v) λ b t e _.
      Runs-if (b == empty)
        (λ _. Runs-bind (advance-Runs t e.valid 1) λ _ u e' _. Runs-pure null e'.valid tt)
        λ _. Runs-bind (read_shared_string-Runs x t e.valid) λ idx u e' below.
          Runs-bind (text_of-Runs u e'.valid idx below)
            λ text w e'' _. Runs-pure (str text) e''.valid tt

  lookup_object-Runs :
      (s : TypedStreamParser) (b : ℕ)
      → IsValid s
      → Runs s
          (lookup_object x b)
          (λ found t. (idx : ℕ) → found ≡ some (ObjectEntry.cstring idx) → idx < length t.strings)
  unfolding lookup_object
  lookup_object-Runs s b v = record {
    ensures = returns (
      Extends-refl s v,
      λ idx p.
          entry-valid (length s.strings) (length s.objects) s.objects (b - reference_tag)
            (ObjectEntry.cstring idx) v.entries (ground arith),
    );
  }

  read_cstring-Runs : (s : TypedStreamParser) → IsValid s → Runs s (read_cstring x) Sound
  unfolding read_cstring
  read_cstring-Runs s v = Runs-bind (next_byte-Runs x s v) λ b t e _.
      Runs-if (b == empty) (λ _. Runs-pure null e.valid tt)
        λ _.
          Runs-if (b == start)
            (λ _. Runs-bind (read_shared_string-Runs x t e.valid) λ idx t1 e1 below.
              Runs-bind (push_object-Runs t1 e1.valid (ObjectEntry.cstring idx) below) λ _ t2 e2 _.
                Runs-bind (text_of-Runs t2 e2.valid idx (omega (arith, below, e2.strings_grow)))
                  λ text t3 e3 _. Runs-pure (str text) e3.valid tt)
            λ _.
              Runs-bind (lookup_object-Runs t b e.valid)
                λ found t1 e1 h. cstring_text-Runs t1 e1.valid found h

  read_float-Runs :
      (s : TypedStreamParser) (size : ℕ) (raw_value : List ℕ → Val) (int_value : ℤ → Val)
      → IsValid s
      → ((n : ℕ) (raw : List ℕ) → ValidVal n (raw_value raw))
      → ((n : ℕ) (z : ℤ) → ValidVal n (int_value z))
      → Runs s (read_float x size raw_value int_value) Sound
  unfolding read_float
  read_float-Runs s size raw_value int_value v hr hi = Runs-bind (peek-Runs x s v) λ b t e _.
      Runs-if (b == decimal)
        (λ _. Runs-bind (advance-Runs t e.valid 1) λ _ t1 e1 _.
          Runs-bind (take_bytes-Runs x t1 size e1.valid)
            λ raw t2 e2 _. Runs-pure (raw_value raw) e2.valid (hr _ raw))
        λ _.
          Runs-bind (read_int-Runs x t false e.valid)
            λ z t1 e1 _. Runs-pure (int_value z) e1.valid (hi _ z)

  -- What is known of the recursive call: at the depth `depth` it ends and gives a valid index.
  abbrev pub Reads : ℕ → Method (Option ℕ) → Type 0
  Reads depth m = (s : TypedStreamParser) → IsValid s → s.depth ≡ depth → Runs s m Index

  module _ (m : Method (Option ℕ)) (depth : ℕ) (reads : Reads depth m) where
    read_value-Runs :
        (s : TypedStreamParser) (slot : Slot)
        → IsValid s
        → s.depth ≡ depth
        → Runs s (read_value x m slot) Sound
    unfolding read_value
    read_value-Runs s utf8string v d =
        Runs-bind (read_raw_string-Runs x s v) λ text t e _. Runs-pure (str text) e.valid tt
    read_value-Runs s object v d = Runs-bind (reads s v d) λ idx t e h.
        Runs-bind (advance-Runs t e.valid 1) λ _ u e' _.
          Runs-pure _ e'.valid (obj_or_null-Sound x _ idx (InTable-mono _ _ idx e'.objects_grow h))
    read_value-Runs s (array n) v d =
        Runs-bind (take_bytes-Runs x s n v) λ raw t e _. Runs-pure (bytes raw) e.valid tt
    read_value-Runs s selector v d = read_atom-Runs s v
    read_value-Runs s atom v d = read_atom-Runs s v
    read_value-Runs s cstring v d = read_cstring-Runs s v
    read_value-Runs s class v d =
        Runs-bind (read_class-Runs x s v)
          λ cls t e h. Runs-pure _ e.valid (obj_or_null-Sound x _ cls h)
    read_value-Runs s int v d =
        Runs-bind (read_int-Runs x s false v) λ z t e _. Runs-pure (Val.i z) e.valid tt
    read_value-Runs s uint v d =
        Runs-bind (read_int-Runs x s true v) λ z t e _. Runs-pure (Val.u z) e.valid tt
    read_value-Runs s float v d = read_float-Runs s 4 Val.f Val.f_int v (λ _ _. tt) (λ _ _. tt)
    read_value-Runs s double v d = read_float-Runs s 8 Val.d Val.d_int v (λ _ _. tt) (λ _ _. tt)

    read_slots-Runs :
        (s : TypedStreamParser) (slots : List Slot)
        → IsValid s
        → s.depth ≡ depth
        → Runs s (read_slots x m slots) (λ vs t. All (ValidVal (length t.objects)) vs)
    unfolding read_slots
    read_slots-Runs s [] v d = Runs-pure [] v tt
    read_slots-Runs s (slot ∷ slots) v d = Runs-bind (read_value-Runs s slot v d) λ val t e h.
        Runs-bind (read_slots-Runs t slots e.valid (omega (arith, e.depth_kept)))
          λ vs u e' hs. Runs-pure (val ∷ vs) e'.valid (ValidVal-mono _ _ val e'.objects_grow h, hs)

    pub read_types-Runs :
        (s : TypedStreamParser) (idx : ℕ)
        → IsValid s
        → s.depth ≡ depth
        → idx < length s.strings
        → Runs s (read_types x m idx) (λ vs t. All (ValidVal (length t.objects)) vs)
    unfolding read_types
    read_types-Runs s idx v d h =
        Runs-bind (descriptor-Runs x s idx v h)
          λ slots t e _. read_slots-Runs t slots e.valid (omega (arith, e.depth_kept))

    more_groups-Runs :
        (s : TypedStreamParser)
        → IsValid s
        → Runs s
            (more_groups x)
            (λ more t. (more ≡ true → s.position < length x.blob) × (t.position ≡ s.position))
    unfolding more_groups
    more_groups-Runs s v = record {
      ensures = go (byte_at x.blob s.position) refl (byte_at-Ensures x.blob s.position);
    }
      where
        go :
            (r : Result StreamError ℕ)
            → byte_at x.blob s.position ≡ r
            → Ensures (λ _. s.position < length x.blob) r
            → Ensures {A = Bool × TypedStreamParser}
                (λ r.
                  Extends s r.1
                  × ((r.0 ≡ true → s.position < length x.blob) × (r.1.position ≡ s.position)))
                (more_groups x s)
        go (ok b) e (returns h) = rw (e, more_groups) (returns (Extends-refl s v, ((λ _. h), refl)))
        go (err f) e h = rw (e, more_groups) (returns (Extends-refl s v, ((λ p. cc), refl)))

    read_group-Runs :
        (s : TypedStreamParser) (idx : Option ℕ)
        → IsValid s
        → s.depth ≡ depth
        → InTable (length s.strings) idx
        → Runs s (read_group x m idx) (λ gs t. All (All (ValidVal (length t.objects))) gs)
    unfolding read_group
    read_group-Runs s none v d h = Runs-pure [] v tt
    read_group-Runs s (some idx) v d h =
        Runs-bind (read_types-Runs s idx v d h) λ vs t e hs. Runs-pure (vs ∷ []) e.valid (hs, tt)

    read_groups-Runs :
        (rounds : ℕ) (s : TypedStreamParser)
        → IsValid s
        → s.depth ≡ depth
        → Enough x rounds s
        → Runs s (read_groups x rounds m) (λ gs t. All (All (ValidVal (length t.objects))) gs)
    unfolding read_groups
    read_groups-Runs zero s v d enough = absurd (omega arith)
    read_groups-Runs (suc rounds) s v d enough =
        Runs-bind (more_groups-Runs s v) λ more t0 e0 inside.
          Runs-if more
            (λ yes_. Runs-bind (read_type-Runs x t0 e0.valid) λ idx t e moved.
              Runs-bind
                (read_group-Runs t idx e.valid (omega (arith, e0.depth_kept, e.depth_kept)) moved.1)
                λ group t1 e1 hg.
                  Runs-bind
                    (read_groups-Runs rounds t1 e1.valid
                      (omega (arith, e0.depth_kept, e.depth_kept, e1.depth_kept))
                      (omega (arith, inside.0 yes_, inside.1, moved.0, e1.forward, enough)))
                    λ groups t2 e2 hgs. Runs-pure (group ++ groups) e2.valid (
                      All-append (All (ValidVal (length t2.objects))) group groups
                        (ValidGroups-mono _ _ group e2.objects_grow hg) hgs))
            λ _. Runs-pure [] e0.valid tt

    write_object-Runs :
        (s : TypedStreamParser) (idx : ℕ) (entry : ObjectEntry)
        → IsValid s
        → ValidEntry (length s.strings) (length s.objects) entry
        → Runs s (write_object x idx entry) (λ _ _. Unit)
    unfolding write_object
    write_object-Runs s idx entry v ve =
        let same = length-set s.objects idx entry in
        record {
          ensures = returns (
            record {
              valid = record {
                entries = rw same (
                    set-entries (length s.strings) (length s.objects) s.objects idx entry v.entries
                      ve);
                shallow = v.shallow;
              };
              strings_grow = omega arith;
              objects_grow = omega (arith, same);
              forward = omega arith;
              depth_kept = refl;
            },
            tt,
          );
        }

    pub fill_object-Runs :
        (s : TypedStreamParser) (idx : ℕ) (cls : Option ℕ)
        → IsValid s
        → s.depth ≡ depth
        → InTable (length s.objects) cls
        → Runs s (fill_object x m idx cls) (λ _ _. Unit)
    unfolding fill_object
    fill_object-Runs s idx none v d h = Runs-pure tt v tt
    fill_object-Runs s idx (some cls) v d h =
        Runs-bind (read_groups-Runs (length x.blob + 1) s v d (omega arith)) λ groups t e hg.
          write_object-Runs t idx (ObjectEntry.object cls groups) e.valid
            (omega (arith, h, e.objects_grow), hg)
