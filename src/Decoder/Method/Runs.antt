-- ===== src/Decoder/Method/Runs.antt =====
-- What the methods of `TypedStreamParser` in apps/imessage-sensor/src/decoder/typedstream.ts keep:
-- the object and string tables hold no index out of range, they only grow, the position does not
-- go back and the nesting depth is the same afterwards.
use jehad_os.Prelude.{
  ℕ, ◌≤◌, ◌<◌, Bool, true, false, ◌≡◌, refl, Option, none, some, All, length, if◌then◌else◌, Result,
  ok, err, arith,
}
use jehad_os.Decoder.Stream.{
  Val, obj, null, ObjectEntry, placeholder, StreamError, malformed, stuck, TypedStreamParser,
  Method, max_depth,
}
use jehad_os.Decoder.Ensures.{Ensures, returns, fails, Ensures-map}
use jehad_os.Decoder.Method.{◌>>=◌, pure, throw, lift}

-- The index is below the number of entries.
abbrev pub InTable : ℕ → Option ℕ → Type 0
InTable n none = Unit
InTable n (some idx) = idx < n

abbrev pub ValidVal : ℕ → Val → Type 0
ValidVal objects (obj idx) = idx < objects
ValidVal objects null = Unit
ValidVal objects _ = Unit

abbrev pub ValidEntry : ℕ → ℕ → ObjectEntry → Type 0
ValidEntry strings objects (ObjectEntry.object cls groups) =
    (cls < objects) × All (All (ValidVal objects)) groups
ValidEntry strings objects (ObjectEntry.class name parent version) =
    (name < strings) × InTable objects parent
ValidEntry strings objects (ObjectEntry.cstring idx) = idx < strings
ValidEntry strings objects placeholder = Unit

pub record IsValid (s : TypedStreamParser) : Type 0 where
  pub entries : All (ValidEntry (length s.strings) (length s.objects)) s.objects
  pub shallow : s.depth ≤ max_depth

pub record Extends (s t : TypedStreamParser) : Type 0 where
  pub valid : IsValid t
  pub strings_grow : length s.strings ≤ length t.strings
  pub objects_grow : length s.objects ≤ length t.objects
  pub forward : s.position ≤ t.position
  pub depth_kept : t.depth ≡ s.depth

pub Extends-refl : (s : TypedStreamParser) → IsValid s → Extends s s
Extends-refl s v = record {
  valid = v;
  strings_grow = omega arith;
  objects_grow = omega arith;
  forward = omega arith;
  depth_kept = refl;
}

pub Extends-trans : {s t u : TypedStreamParser} → Extends s t → Extends t u → Extends s u
Extends-trans a b = record {
  valid = b.valid;
  strings_grow = omega (arith, a.strings_grow, b.strings_grow);
  objects_grow = omega (arith, a.objects_grow, b.objects_grow);
  forward = omega (arith, a.forward, b.forward);
  depth_kept = omega (arith, a.depth_kept, b.depth_kept);
}

-- From `s` the method does not run out of rounds, and what it returns, with the state that it
-- leaves, satisfies `Q`.
pub record Runs {A : Type 0} (s : TypedStreamParser) (m : Method A)
    (Q : A → TypedStreamParser → Type 0) : Type 0 where
  pub ensures : Ensures (λ r. Extends s r.1 × Q r.0 r.1) (m s)

module _ {A B : Type 0} where
  continue :
      {P : A → TypedStreamParser → Type 0} {Q : B → TypedStreamParser → Type 0}
      (s : TypedStreamParser) (r : Result StreamError (A × TypedStreamParser)) (f : A → Method B)
      → Ensures (λ r. Extends s r.1 × P r.0 r.1) r
      → ((a : A) (t : TypedStreamParser) → Extends s t → P a t → Runs t (f a) Q)
      → Ensures (λ r. Extends s r.1 × Q r.0 r.1) (elim r [ ok (a, s') ↦ f a s' | err e ↦ err e ])
  continue s (ok (a, t)) f (returns h) k =
      Ensures-map (k a t h.0 h.1).ensures λ r q. (Extends-trans h.0 q.0, q.1)
  continue s (err malformed) f h k = fails
  continue s (err stuck) f h k = elim h [ ]

  -- One step and then the rest, from the state that the step leaves.
  pub Runs-bind :
      {s : TypedStreamParser} {m : Method A} {f : A → Method B} {P : A → TypedStreamParser → Type 0}
      {Q : B → TypedStreamParser → Type 0}
      → Runs s m P
      → ((a : A) (t : TypedStreamParser) → Extends s t → P a t → Runs t (f a) Q)
      → Runs s (m >>= f) Q
  unfolding ◌>>=◌
  Runs-bind {s} {m} {f} h k = record { ensures = continue s (m s) f h.ensures k }

module _ {A : Type 0} {s : TypedStreamParser} {Q : A → TypedStreamParser → Type 0} where
  pub Runs-pure : (a : A) → IsValid s → Q a s → Runs s (pure a) Q
  unfolding pure
  Runs-pure a v q = record { ensures = returns (Extends-refl s v, q) }

  pub Runs-throw : Runs s (throw malformed) Q
  unfolding throw
  Runs-throw = record { ensures = fails }

  pub Runs-if :
      (b : Bool) {m n : Method A}
      → (b ≡ true → Runs s m Q)
      → (b ≡ false → Runs s n Q)
      → Runs s (if b then m else n) Q
  Runs-if true km kn = km refl
  Runs-if false km kn = kn refl

  pub Runs-map :
      {P : A → TypedStreamParser → Type 0} {m : Method A}
      → Runs s m P
      → ((a : A) (t : TypedStreamParser) → Extends s t → P a t → Q a t)
      → Runs s m Q
  Runs-map h f = record { ensures = Ensures-map h.ensures λ r q. (q.0, f r.0 r.1 q.0 q.1) }

  pub Runs-lift :
      {P : A → Type 0} (r : Result StreamError A)
      → IsValid s
      → Ensures P r
      → ((a : A) → P a → Q a s)
      → Runs s (lift r) Q
  unfolding lift
  Runs-lift (ok a) v (returns h) k = record { ensures = returns (Extends-refl s v, k a h) }
  Runs-lift (err malformed) v h k = record { ensures = fails }
  Runs-lift (err stuck) v h k = elim h [ ]
