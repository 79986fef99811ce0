-- ===== src/Model/Releases.antt =====
-- packages/core/src/model/call-model.ts: the release and the finalization of a reservation that was
-- the last one.
use Prim.Native.String.{String}
use jehad_os.Prelude.{
  ◌≡◌, refl, ap, subst, Bool, true, false, not, ◌||◌, List, [], ◌∷◌, ◌++◌, any, eq_iff, Bool-cases,
  inl, inr, if◌then◌else◌,
}
use jehad_os.Model.{
  ModelCall, Actuals, finalized_row, finalize_reservation, has_id, release_reservation,
}

keep_row :
    (b : Bool) (c : ModelCall) (cs ds : List ModelCall)
    → b ≡ false
    → ds ≡ cs
    → (elim (not b) [ true ↦ c ∷ ds | false ↦ ds ]) ≡ c ∷ cs
keep_row true c cs ds h e = cc
keep_row false c cs ds h e = ap (λ xs. c ∷ xs) e

-- The release of a reservation with a new id gives back the rows before it.
pub release-append :
    (id : String) (row : ModelCall) (cs : List ModelCall)
    → row.id ≡ id
    → any (has_id id) cs ≡ false
    → release_reservation id (cs ++ row ∷ []) ≡ cs
unfolding release_reservation
release-append id row [] e h =
    ap (λ b. elim (not b) [ true ↦ row ∷ [] | false ↦ [] ]) ((eq_iff row.id id).1 e)
release-append id row (c ∷ cs) e h = elim (Bool-cases (has_id id c)) [
  | inl t ↦ (let f : any (has_id id) (c ∷ cs) ≡ true = rw t refl in cc)
  | inr f ↦
      keep_row (has_id id c) c cs (release_reservation id (cs ++ row ∷ [])) f
        (release-append id row cs e (subst (λ b. (b || any (has_id id) cs) ≡ false) f h))
]

keep_rows :
    (b : Bool) (actuals : Actuals) (c : ModelCall) (cs ds : List ModelCall)
    → b ≡ false
    → ds ≡ cs
    → (if b then finalized_row actuals c else c) ∷ ds ≡ c ∷ cs
keep_rows true actuals c cs ds h e = cc
keep_rows false actuals c cs ds h e = ap (λ xs. c ∷ xs) e

-- A reservation with a new id is finalized behind the rows before it.
pub finalize-append :
    (id : String) (actuals : Actuals) (row : ModelCall) (cs : List ModelCall)
    → row.id ≡ id
    → any (has_id id) cs ≡ false
    → finalize_reservation id actuals (cs ++ row ∷ []) ≡ cs ++ finalized_row actuals row ∷ []
unfolding finalize_reservation
finalize-append id actuals row [] e h =
    ap (λ b. (if b then finalized_row actuals row else row) ∷ []) ((eq_iff row.id id).1 e)
finalize-append id actuals row (c ∷ cs) e h = elim (Bool-cases (has_id id c)) [
  | inl t ↦ (let f : any (has_id id) (c ∷ cs) ≡ true = rw t refl in cc)
  | inr f ↦
      keep_rows (has_id id c) actuals c (cs ++ finalized_row actuals row ∷ [])
        (finalize_reservation id actuals (cs ++ row ∷ [])) f
        (finalize-append id actuals row cs e (subst (λ b. (b || any (has_id id) cs) ≡ false) f h))
]
