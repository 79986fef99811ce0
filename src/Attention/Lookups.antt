-- ===== src/Attention/Lookups.antt =====
-- packages/core/src/attention/service.ts: a row that is found, before and after its update.
use jehad_os.Prelude.{
  suc, length, ◌++◌, All, ◌≡◌, refl, sym, ap, ◌∙◌, Bool, true, false, ◌&&◌, Option, none, some,
  List, [], ◌∷◌, map, filter, Bool-cases, inl, inr, if◌then◌else◌,
}
use jehad_os.Attention.{AttentionItemRow, update_where, first_of, returning}
use jehad_os.Attention.Table.{filter-true, filter-false}

-- The first of the rows with a test, where it is one: the rest.
cons_of :
    (xs : List AttentionItemRow) (row : AttentionItemRow)
    → first_of xs ≡ some row
    → (rest : List AttentionItemRow) × (xs ≡ row ∷ rest)
cons_of [] row h = cc
cons_of (x ∷ xs) row h = let e : x ≡ row = cc in (xs, ap (λ y. y ∷ xs) e)

module _ (q g : AttentionItemRow → Bool) (change : AttentionItemRow → AttentionItemRow)
    (row : AttentionItemRow) where
  abbrev both : AttentionItemRow → Bool
  both x = q x && g x

  found-both :
      (xs : List AttentionItemRow)
      → first_of (filter q xs) ≡ some row
      → g row ≡ true
      → first_of (filter both xs) ≡ some row
  found-both [] h t = h
  found-both (x ∷ xs) h t = elim (Bool-cases (q x)) [
    | inl y ↦
        (let here : some x ≡ some row = ap first_of (sym (filter-true q x xs y)) ∙ h in
          let e : x ≡ row = cc in
          let b : both x ≡ true = rw (y, ap g e, t) refl in
          ap first_of (filter-true both x xs b) ∙ here)
    | inr n ↦
        (let b : both x ≡ false = rw n refl in
          ap first_of (filter-false both x xs b)
          ∙ found-both xs (ap first_of (sym (filter-false q x xs n)) ∙ h) t)
  ]

  -- An update of the found row returns it first.
  pub found-returning :
      (xs : List AttentionItemRow)
      → first_of (filter q xs) ≡ some row
      → g row ≡ true
      → (rest : List AttentionItemRow) × (returning both change xs ≡ change row ∷ rest)
  found-returning xs h t =
      let c = cons_of (filter both xs) row (found-both xs h t) in
      (map change c.0, ap (map change) c.1)

  changed :
      (b : Bool) (x : AttentionItemRow)
      → ((y : AttentionItemRow) → q (change y) ≡ q y)
      → q (if b then change x else x) ≡ q x
  changed true x k = k x
  changed false x k = refl

  -- After the update, the row that is found is the changed one.
  pub found-updated :
      (xs : List AttentionItemRow)
      → first_of (filter q xs) ≡ some row
      → g row ≡ true
      → ((y : AttentionItemRow) → q (change y) ≡ q y)
      → first_of (filter q (update_where both change xs)) ≡ some (change row)
  found-updated [] h t k = cc
  found-updated (x ∷ xs) h t k =
      let z = if both x then change x else x in
      let more = update_where both change xs in
      elim (Bool-cases (q x)) [
        | inl y ↦
            (let here : some x ≡ some row = ap first_of (sym (filter-true q x xs y)) ∙ h in
              let e : x ≡ row = cc in
              let b : both x ≡ true = rw (y, ap g e, t) refl in
              ap first_of (filter-true q z more (changed (both x) x k ∙ y))
              ∙ (ap (λ c. some (if c then change x else x)) b ∙ ap (λ w. some (change w)) e))
        | inr n ↦
            ap first_of (filter-false q z more (changed (both x) x k ∙ n))
            ∙ found-updated xs (ap first_of (sym (filter-false q x xs n)) ∙ h) t k
      ]

module _ (p : AttentionItemRow → Bool) (change : AttentionItemRow → AttentionItemRow) where
  settled :
      (x : AttentionItemRow) (b : Bool)
      → ((y : AttentionItemRow) → p (change y) ≡ false)
      → p x ≡ b
      → p (if b then change x else x) ≡ false
  settled x true k e = k x
  settled x false k e = e

  -- Where a change ends the test that it is made under, no row has the test afterwards.
  pub update_where-settles :
      (xs : List AttentionItemRow)
      → ((y : AttentionItemRow) → p (change y) ≡ false)
      → All (λ x. p x ≡ false) (update_where p change xs)
  update_where-settles [] k = tt
  update_where-settles (x ∷ xs) k = (settled x (p x) k refl, update_where-settles xs k)

  pub length-update_where :
      (xs : List AttentionItemRow) → length (update_where p change xs) ≡ length xs
  length-update_where [] = refl
  length-update_where (x ∷ xs) = ap suc (length-update_where xs)

-- Updates under two tests that agree on the rows.
pub update_where-same :
    (p g : AttentionItemRow → Bool) (change : AttentionItemRow → AttentionItemRow)
    (xs : List AttentionItemRow)
    → All (λ x. p x ≡ g x) xs
    → update_where p change xs ≡ update_where g change xs
update_where-same p g change [] h = refl
update_where-same p g change (x ∷ xs) h = rw (h.0, update_where-same p g change xs h.1) refl

-- Tables with one head, whose tails answer alike.
same_head :
    (q : AttentionItemRow → Bool) (x : AttentionItemRow) (ys zs : List AttentionItemRow) (b : Bool)
    → q x ≡ b
    → first_of (filter q ys) ≡ first_of (filter q zs)
    → first_of (filter q (x ∷ ys)) ≡ first_of (filter q (x ∷ zs))
same_head q x ys zs true y e =
    ap first_of (filter-true q x ys y) ∙ ap first_of (sym (filter-true q x zs y))
same_head q x ys zs false n e =
    ap first_of (filter-false q x ys n) ∙ (e ∙ ap first_of (sym (filter-false q x zs n)))

-- A search that the update does not concern.
pub found-elsewhere :
    (q p : AttentionItemRow → Bool) (change : AttentionItemRow → AttentionItemRow)
    (xs : List AttentionItemRow)
    → All (λ x. p x ≡ true → q x ≡ false) xs
    → ((y : AttentionItemRow) → q (change y) ≡ q y)
    → first_of (filter q (update_where p change xs)) ≡ first_of (filter q xs)
found-elsewhere q p change [] h k = refl
found-elsewhere q p change (x ∷ xs) h k =
    row_elsewhere (p x) h.0 refl (found-elsewhere q p change xs h.1 k)
  where
    more : List AttentionItemRow
    more = update_where p change xs

    row_elsewhere :
        (b : Bool)
        → (p x ≡ true → q x ≡ false)
        → p x ≡ b
        → first_of (filter q more) ≡ first_of (filter q xs)
        → first_of (filter q ((if b then change x else x) ∷ more)) ≡ first_of (filter q (x ∷ xs))
    row_elsewhere true e t rest =
        ap first_of (filter-false q (change x) more (k x ∙ e t))
        ∙ (rest ∙ ap first_of (sym (filter-false q x xs (e t))))
    row_elsewhere false e t rest = same_head q x more xs (q x) refl rest

-- A search in a table with one more row.
abbrev pub or_last : Bool → AttentionItemRow → Option AttentionItemRow → Option AttentionItemRow
or_last b x (some y) = some y
or_last true x none = some x
or_last false x none = none

pub found-appended :
    (q : AttentionItemRow → Bool) (xs : List AttentionItemRow) (x : AttentionItemRow)
    → first_of (filter q (xs ++ x ∷ [])) ≡ or_last (q x) x (first_of (filter q xs))
found-appended q [] x = elim (Bool-cases (q x)) [
  | inl y ↦ ap first_of (filter-true q x [] y) ∙ ap (λ b. or_last b x none) (sym y)
  | inr n ↦ ap first_of (filter-false q x [] n) ∙ ap (λ b. or_last b x none) (sym n)
]
found-appended q (y ∷ ys) x = elim (Bool-cases (q y)) [
  | inl t ↦
      ap first_of (filter-true q y (ys ++ x ∷ []) t)
      ∙ ap (λ o. or_last (q x) x (first_of o)) (sym (filter-true q y ys t))
  | inr n ↦
      ap first_of (filter-false q y (ys ++ x ∷ []) n)
      ∙ (found-appended q ys x
          ∙ ap (λ o. or_last (q x) x (first_of o)) (sym (filter-false q y ys n)))
]
