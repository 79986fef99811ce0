-- ===== src/Attention/Effects/Prior.antt =====
-- packages/core/src/attention/service.ts: the row that a locking read found, and that there is none.
use jehad_os.Prelude.{
  ℕ, ◌≡◌, refl, sym, ap, ◌∙◌, subst, Bool, true, false, Option, none, some, List, [], ◌∷◌, All,
  All-map, filter, ok, throw_if, str_eq, &&-eq-true, Bool-cases, inl, inr,
}
use jehad_os.Attention.{AttentionItemRow, id_taken, is_live, is_snoozed, first_of}
use jehad_os.Attention.Occurrences.{
  OpenAttentionInput, find_prior, bumped_row, wakes_from_snooze, with_id, taken,
}
use jehad_os.Attention.Table.{AreDistinct, str_eq-sym, first_of-All, filter-true, filter-false}
use jehad_os.Attention.Machine.{Edit, bumps, bumps_awake}
use jehad_os.Attention.Machine.Rows.{same_id}

-- Under the PRIMARY KEY, the first match is the only row with its id.
pub found-only :
    (p : AttentionItemRow → Bool) (rows : List AttentionItemRow) (found : AttentionItemRow)
    → AreDistinct same_id rows
    → first_of (filter p rows) ≡ some found
    → All (λ row. with_id found.id row ≡ true → row ≡ found) rows
found-only p [] found k h = tt
found-only p (x ∷ xs) found k h = elim (Bool-cases (p x)) [
  | inl t ↦
      (let same : some x ≡ some found = ap first_of (sym (filter-true p x xs t)) ∙ h in
        let e : x ≡ found = cc in
        (
          λ _. e,
          All-map
              (λ y d w.
                let f : str_eq y.id found.id ≡ false =
                  subst (λ z. str_eq y.id z.id ≡ false) e (str_eq-sym x.id y.id d) in
                cc)
              xs k.0,
        ))
  | inr f ↦
      (let later = ap first_of (sym (filter-false p x xs f)) ∙ h in
        let d = first_of-All (λ y. same_id x y ≡ false) p xs found k.0 later in
        (λ w. let q = d.0 in cc, found-only p xs found k.1 later))
]

pub bump-Edit :
    (wakes : Bool) (input : OpenAttentionInput) (now : ℕ) (row : AttentionItemRow)
    → is_live row.state ≡ true
    → (wakes ≡ true → is_snoozed row.state ≡ true)
    → Edit row (bumped_row wakes input now row)
bump-Edit true input now row l w = bumps_awake input now (w refl)
bump-Edit false input now row l w = bumps input now l

pub wakes-snoozed :
    (input : OpenAttentionInput) (row : AttentionItemRow)
    → wakes_from_snooze input row ≡ true
    → is_snoozed row.state ≡ true
unfolding wakes_from_snooze
wakes-snoozed input row h = (&&-eq-true (is_snoozed row.state) _ h).0

pub not_thrown : (b : Bool) → throw_if b id_taken ≡ ok tt → b ≡ false
not_thrown true h = cc
not_thrown false h = refl

pub free :
    (input : OpenAttentionInput) (rows : List AttentionItemRow)
    → taken input rows ≡ false
    → find_prior input rows ≡ none
free input rows h = go (find_prior input rows) h
  where
    go :
        (o : Option AttentionItemRow)
        → (elim o [ none ↦ false | some row ↦ true ]) ≡ false
        → o ≡ none
    go none h = refl
    go (some row) h = cc
