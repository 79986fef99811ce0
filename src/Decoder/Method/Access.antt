-- ===== src/Decoder/Method/Access.antt =====
-- The accesses to the tables keep the parser valid, and the indices that they give are in range.
use jehad_os.Prelude.{
  subst, ℕ, zero, suc, ◌+◌, ◌-◌, ◌≤◌, ◌<◌, ◌≡◌, refl, ap, Option, none, some, List, [], ◌∷◌, ◌++◌,
  All, All-append, All-map, length, length-append, set, get_elem?, ltb, arith, Bool-cases, inl, inr,
}
use jehad_os.Decoder.Stream.{
  Val, str, obj, null, ObjectEntry, placeholder, TypedStreamParser, reference_tag,
}
use jehad_os.Decoder.Ensures.{Ensures, returns, fails}
use jehad_os.Decoder.Method.{
  advance, push_string, push_object, adopt, set_parent, table_index, string_index, object_index,
  text_of, cstring_text,
}
use jehad_os.Decoder.Method.Runs.{
  InTable, ValidVal, ValidEntry, IsValid, Extends-refl, Runs, Runs-bind, Runs-pure, Runs-throw,
  Runs-lift,
}

pub ValidVal-mono : (m n : ℕ) (v : Val) → m ≤ n → ValidVal m v → ValidVal n v
ValidVal-mono m n null h v = tt
ValidVal-mono m n (obj idx) h v = omega arith
ValidVal-mono m n _ h v = tt

pub InTable-mono : (m n : ℕ) (o : Option ℕ) → m ≤ n → InTable m o → InTable n o
InTable-mono m n none h v = tt
InTable-mono m n (some idx) h v = omega arith

pub All-ValidVal-mono :
    (m n : ℕ) (vs : List Val) → m ≤ n → All (ValidVal m) vs → All (ValidVal n) vs
All-ValidVal-mono m n vs h = All-map (λ v. ValidVal-mono m n v h) vs

pub ValidGroups-mono :
    (m n : ℕ) (groups : List (List Val))
    → m ≤ n
    → All (All (ValidVal m)) groups
    → All (All (ValidVal n)) groups
ValidGroups-mono m n groups h = All-map (λ g. All-ValidVal-mono m n g h) groups

pub get_elem?-in {ℓ} :
    {A : Type ℓ} (xs : List A) (i : ℕ) → i < length xs → (a : A) × (get_elem? xs i ≡ some a)
get_elem?-in [] i h = absurd (omega arith)
get_elem?-in (x ∷ xs) zero h = (x, refl)
get_elem?-in (x ∷ xs) (suc i) h = get_elem?-in xs i (omega arith)

module _ (a b m n : ℕ) (strings : a ≤ b) (objects : m ≤ n) where
  ValidEntry-mono : (e : ObjectEntry) → ValidEntry a m e → ValidEntry b n e
  ValidEntry-mono placeholder v = tt
  ValidEntry-mono (ObjectEntry.object cls groups) v =
      (omega (arith, v.0), ValidGroups-mono m n groups objects v.1)
  ValidEntry-mono (ObjectEntry.class name parent version) v =
      (omega (arith, v.0), InTable-mono m n parent objects v.1)
  ValidEntry-mono (ObjectEntry.cstring idx) v = omega arith

  entries_mono : (es : List ObjectEntry) → All (ValidEntry a m) es → All (ValidEntry b n) es
  entries_mono es = All-map ValidEntry-mono es

module _ (s : TypedStreamParser) (v : IsValid s) where
  pub advance-Runs : (n : ℕ) → Runs s (advance n) (λ _ t. s.position + n ≤ t.position)
  unfolding advance
  advance-Runs n = record {
    ensures = returns (
      record {
        valid = record { entries = v.entries; shallow = v.shallow };
        strings_grow = omega arith;
        objects_grow = omega arith;
        forward = omega arith;
        depth_kept = refl;
      },
      omega arith,
    );
  }

  pub push_string-Runs :
      (text : List ℕ) → Runs s (push_string text) (λ idx t. idx < length t.strings)
  unfolding push_string
  push_string-Runs text =
      let grown = length-append s.strings (record { text = text; desc = none } ∷ []) in
      record {
        ensures = returns (
          record {
            valid = record {
              entries =
                  entries_mono (length s.strings) _ (length s.objects) (length s.objects)
                    (omega (arith, grown)) (omega arith) s.objects v.entries;
              shallow = v.shallow;
            };
            strings_grow = omega (arith, grown);
            objects_grow = omega arith;
            forward = omega arith;
            depth_kept = refl;
          },
          omega (arith, grown),
        );
      }

  pub push_object-Runs :
      (entry : ObjectEntry)
      → ValidEntry (length s.strings) (suc (length s.objects)) entry
      → Runs s (push_object entry) (λ idx t. idx < length t.objects)
  unfolding push_object
  push_object-Runs entry ve =
      let grown : length (s.objects ++ entry ∷ []) ≡ length s.objects + 1 =
        omega (arith, length-append s.objects (entry ∷ [])) in
      record {
        ensures = returns (
          record {
            valid = record {
              entries =
                  All-append (ValidEntry (length s.strings) (length (s.objects ++ entry ∷ [])))
                    s.objects (entry ∷ [])
                    (entries_mono (length s.strings) (length s.strings) (length s.objects) _
                      (omega arith) (omega (arith, grown)) s.objects v.entries)
                    (
                      ValidEntry-mono (length s.strings) (length s.strings) (suc (length s.objects))
                          _ (omega arith) (omega (arith, grown)) entry ve,
                      tt,
                    );
              shallow = v.shallow;
            };
            strings_grow = omega arith;
            objects_grow = omega (arith, grown);
            forward = omega arith;
            depth_kept = refl;
          },
          omega (arith, grown),
        );
      }

  set_parent-entries :
      (a n idx : ℕ) (parent : Option ℕ) (es : List ObjectEntry)
      → InTable n parent
      → All (ValidEntry a n) es
      → All (ValidEntry a n) (set_parent idx parent es)
  unfolding set_parent
  set_parent-entries a n idx parent [] p h = tt
  set_parent-entries a n zero parent (ObjectEntry.object cls groups ∷ es) p h = h
  set_parent-entries a n zero parent (ObjectEntry.class name old version ∷ es) p h =
      ((h.0.0, p), h.1)
  set_parent-entries a n zero parent (ObjectEntry.cstring i ∷ es) p h = h
  set_parent-entries a n zero parent (placeholder ∷ es) p h = h
  set_parent-entries a n (suc idx) parent (e ∷ es) p h =
      (h.0, set_parent-entries a n idx parent es p h.1)

  length-set_parent :
      (idx : ℕ) (parent : Option ℕ) (es : List ObjectEntry)
      → length (set_parent idx parent es) ≡ length es
  unfolding set_parent
  length-set_parent idx parent [] = refl
  length-set_parent zero parent (e ∷ es) = refl
  length-set_parent (suc idx) parent (e ∷ es) = ap suc (length-set_parent idx parent es)

  pub adopt-Runs :
      (prev parent : Option ℕ)
      → InTable (length s.objects) parent
      → Runs s (adopt prev parent) (λ _ t. t.position ≡ s.position)
  unfolding adopt
  adopt-Runs none parent p = record { ensures = returns (Extends-refl s v, refl) }
  adopt-Runs (some idx) parent p =
      let same = length-set_parent idx parent s.objects in
      record {
        ensures = returns (
          record {
            valid = record {
              entries =
                  entries_mono (length s.strings) (length s.strings) (length s.objects) _
                    (omega arith) (omega (arith, same)) (set_parent idx parent s.objects)
                    (set_parent-entries (length s.strings) (length s.objects) idx parent s.objects p
                      v.entries);
              shallow = v.shallow;
            };
            strings_grow = omega arith;
            objects_grow = omega (arith, same);
            forward = omega arith;
            depth_kept = refl;
          },
          refl,
        );
      }

  table_index-Ensures : (byte count : ℕ) → Ensures (λ idx. idx < count) (table_index byte count)
  unfolding table_index
  table_index-Ensures byte count = elim (Bool-cases (ltb byte reference_tag)) [
    | inl low ↦ rw low fails
    | inr high ↦ elim (Bool-cases (ltb (byte - reference_tag) count)) [
      | inl within ↦ rw (high, within) (returns (ground arith))
      | inr out ↦ rw (high, out) fails
    ]
  ]

  pub string_index-Runs : (byte : ℕ) → Runs s (string_index byte) (λ idx t. idx < length t.strings)
  unfolding string_index
  string_index-Runs byte = record {
    ensures = (Runs-lift _ v (table_index-Ensures byte (length s.strings)) λ idx h. h).ensures;
  }

  pub object_index-Runs : (byte : ℕ) → Runs s (object_index byte) (λ idx t. idx < length t.objects)
  unfolding object_index
  object_index-Runs byte = record {
    ensures = (Runs-lift _ v (table_index-Ensures byte (length s.objects)) λ idx h. h).ensures;
  }

  pub text_of-Runs : (idx : ℕ) → idx < length s.strings → Runs s (text_of idx) (λ _ _. Unit)
  unfolding text_of
  text_of-Runs idx h =
      let (e, found) = get_elem?-in s.strings idx h in
      record { ensures = rw (found, text_of) (returns (Extends-refl s v, tt)) }

  pub cstring_text-Runs :
      (found : Option ObjectEntry)
      → ((idx : ℕ) → found ≡ some (ObjectEntry.cstring idx) → idx < length s.strings)
      → Runs s (cstring_text found) (λ val t. ValidVal (length t.objects) val)
  unfolding cstring_text
  cstring_text-Runs (some (ObjectEntry.cstring idx)) h =
      Runs-bind (text_of-Runs idx (h idx refl)) λ text t e _. Runs-pure (str text) e.valid tt
  cstring_text-Runs (some (ObjectEntry.object cls groups)) h = Runs-throw
  cstring_text-Runs (some (ObjectEntry.class name parent version)) h = Runs-throw
  cstring_text-Runs (some placeholder) h = Runs-throw
  cstring_text-Runs none h = Runs-throw

-- What is read from a valid table is a valid entry.
pub entry-valid :
    (a n : ℕ) (es : List ObjectEntry) (i : ℕ) (e : ObjectEntry)
    → All (ValidEntry a n) es
    → get_elem? es i ≡ some e
    → ValidEntry a n e
entry-valid a n [] i e h p = cc
entry-valid a n (x ∷ es) zero e h p = let q : x ≡ e = cc in subst (ValidEntry a n) q h.0
entry-valid a n (x ∷ es) (suc i) e h p = entry-valid a n es i e h.1 p

pub set-entries :
    (a n : ℕ) (es : List ObjectEntry) (i : ℕ) (e : ObjectEntry)
    → All (ValidEntry a n) es
    → ValidEntry a n e
    → All (ValidEntry a n) (set es i e)
set-entries a n [] i e h k = tt
set-entries a n (x ∷ es) zero e h k = (k, h.1)
set-entries a n (x ∷ es) (suc i) e h k = (h.0, set-entries a n es i e h.1 k)
