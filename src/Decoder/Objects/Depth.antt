-- ===== src/Decoder/Objects/Depth.antt =====
-- The nesting of objects in apps/imessage-sensor/src/decoder/typedstream.ts: the depth counter
-- bounds the recursion of `readObject`.
use jehad_os.Prelude.{
  ℕ, zero, suc, ◌+◌, ◌-◌, ◌≤◌, ◌<◌, Option, none, some, ◌==◌, length, ltb, Result, ok, err, arith,
  Bool-cases, inl, inr, ltb-false→le,
}
use jehad_os.Decoder.Stream.{
  placeholder, StreamError, malformed, stuck, TypedStreamParser, Method, max_depth, start, empty,
}
use jehad_os.Decoder.Ensures.{Ensures, returns, fails}
use jehad_os.Decoder.Method.{◌>>=◌, pure}
use jehad_os.Decoder.Method.Runs.{IsValid, Extends, Runs, Runs-bind, Runs-pure, Runs-if}
use jehad_os.Decoder.Method.Access.{advance-Runs, push_object-Runs, object_index-Runs}
use jehad_os.Decoder.Tables.{Input}
use jehad_os.Decoder.Tables.Safety.{peek-Runs}
use jehad_os.Decoder.Tables.Chains.{read_class-Runs}
use jehad_os.Decoder.Objects.{enter, leave, read_new_object, read_object}
use jehad_os.Decoder.Objects.{read_body}
use jehad_os.Decoder.Objects.Safety.{Index, Reads, fill_object-Runs}

module _ (x : Input) where
  body-Runs :
      (m : Method (Option ℕ)) (s : TypedStreamParser)
      → IsValid s
      → Reads x s.depth m
      → Runs s (read_body x m) (λ idx t. idx < length t.objects)
  unfolding read_body
  body-Runs m s v reads = Runs-bind (push_object-Runs s v placeholder tt) λ idx t e below.
      Runs-bind (advance-Runs t e.valid 1) λ _ t1 e1 _.
        Runs-bind (read_class-Runs x t1 e1.valid) λ cls t2 e2 hc.
          Runs-bind
            (fill_object-Runs x m s.depth reads t2 idx cls e2.valid
              (omega (arith, e.depth_kept, e1.depth_kept, e2.depth_kept)) hc)
            λ _ t3 e3 _.
              Runs-pure idx e3.valid
                (omega (arith, below, e1.objects_grow, e2.objects_grow, e3.objects_grow))

  abbrev deeper : TypedStreamParser → TypedStreamParser
  deeper s = record s { depth = s.depth + 1 }

  -- `leave` after the body.
  closed-Ensures :
      (s : TypedStreamParser) (r : Result StreamError (ℕ × TypedStreamParser))
      → Ensures (λ r. Extends (deeper s) r.1 × (r.0 < length r.1.objects)) r
      → Ensures {A = Option ℕ × TypedStreamParser}
          (λ r. Extends s r.1 × Index r.0 r.1)
          (elim r [ ok (idx, t) ↦ ok (some idx, record t { depth = t.depth - 1 }) | err e ↦ err e ])
  closed-Ensures s (ok (idx, t)) (returns (e, below)) = returns (
    record {
      valid = record { entries = e.valid.entries; shallow = omega (arith, e.valid.shallow) };
      strings_grow = e.strings_grow;
      objects_grow = e.objects_grow;
      forward = e.forward;
      depth_kept = omega (arith, e.depth_kept);
    },
    below,
  )
  closed-Ensures s (err malformed) h = fails
  closed-Ensures s (err stuck) h = elim h [ ]

  read_new_object-Runs :
      (m : Method (Option ℕ)) (s : TypedStreamParser)
      → IsValid s
      → (s.depth + 1 ≤ max_depth → Reads x (s.depth + 1) m)
      → Runs s (read_new_object x m) Index
  unfolding read_new_object ◌>>=◌ enter leave pure
  read_new_object-Runs m s v reads = elim (Bool-cases (ltb max_depth (s.depth + 1))) [
    | inl deep ↦ record { ensures = rw (deep, read_new_object, ◌>>=◌, enter) fails }
    | inr room ↦
        let fits : s.depth + 1 ≤ max_depth = ltb-false→le _ _ room in
        record {
          ensures =
              rw (room, read_new_object, ◌>>=◌, enter)
                (closed-Ensures s (read_body x m (deeper s))
                  (body-Runs m (deeper s) (record { entries = v.entries; shallow = fits })
                    (reads fits)).ensures);
        }
  ]

  -- With a round for each level of nesting that is left, the reader of objects ends.
  pub read_object-Runs :
      (rounds : ℕ) (s : TypedStreamParser)
      → IsValid s
      → max_depth < rounds + s.depth
      → Runs s (read_object x rounds) Index
  unfolding read_object
  read_object-Runs zero s v h = absurd (omega (arith, v.shallow))
  read_object-Runs (suc rounds) s v h = Runs-bind (peek-Runs x s v) λ b t e _.
      Runs-if (b == start)
        (λ _.
          read_new_object-Runs (read_object x rounds) t e.valid
            λ _ u w d. read_object-Runs rounds u w (omega (arith, d, e.depth_kept)))
        λ _.
          Runs-if (b == empty) (λ _. Runs-pure none e.valid tt)
            λ _.
              Runs-bind (object_index-Runs t e.valid b)
                λ idx u e' below. Runs-pure (some idx) e'.valid below
