-- ===== src/Attention/Table.antt =====
-- packages/core/src/attention/service.ts: what a statement does to the rows of `attention_items`.
use Prim.Native.String.{String}
use jehad_os.Prelude.{
  ◌≡◌, refl, sym, ap, ◌∙◌, subst, Bool, true, false, ◌||◌, none, some, List, [], ◌∷◌, ◌++◌, map,
  filter, All, All-append, All-map, any, str_eq, eq_iff, if◌then◌else◌, Bool-cases, inl, inr,
}
use jehad_os.Attention.{AttentionItemRow, update_where, first_of, returning}

pub str_eq-sym : (a b : String) → str_eq a b ≡ false → str_eq b a ≡ false
str_eq-sym a b h = elim (Bool-cases (str_eq b a)) [
  | inl t ↦ (let e : str_eq a b ≡ true = (eq_iff a b).1 (sym ((eq_iff b a).0 t)) in cc)
  | inr f ↦ f
]

-- No two rows are related.
abbrev pub AreDistinct :
    (related : AttentionItemRow → AttentionItemRow → Bool) → List AttentionItemRow → Type 0
AreDistinct related [] = Unit
AreDistinct related (x ∷ xs) = All (λ y. related x y ≡ false) xs × AreDistinct related xs

-- A change of the row that the relation does not see.
abbrev pub IsUnseen :
    (related : AttentionItemRow → AttentionItemRow → Bool)
    → (AttentionItemRow → AttentionItemRow)
    → AttentionItemRow
    → Type 0
IsUnseen related change x =
    (y : AttentionItemRow)
    → (related (change x) y ≡ related x y) × (related y (change x) ≡ related y x)

pub All-of :
    (P : AttentionItemRow → Type 0) (xs : List AttentionItemRow)
    → ((x : AttentionItemRow) → P x)
    → All P xs
All-of P [] h = tt
All-of P (x ∷ xs) h = (h x, All-of P xs h)

module _ (p : AttentionItemRow → Bool) (change : AttentionItemRow → AttentionItemRow) where
  if_changed :
      (P : AttentionItemRow → Type 0) (b : Bool) (x : AttentionItemRow)
      → (b ≡ true → P (change x))
      → P x
      → P (if b then change x else x)
  if_changed P true x h k = h refl
  if_changed P false x h k = k

  pub update_where-All :
      (P : AttentionItemRow → Type 0) (xs : List AttentionItemRow)
      → All (λ x. p x ≡ true → P x → P (change x)) xs
      → All P xs
      → All P (update_where p change xs)
  update_where-All P [] h k = tt
  update_where-All P (x ∷ xs) h k =
      (if_changed P (p x) x (λ e. h.0 e k.0) k.0, update_where-All P xs h.1 k.1)

  module _ (related : AttentionItemRow → AttentionItemRow → Bool) where
    All-same :
        (x : AttentionItemRow) (ys : List AttentionItemRow)
        → IsUnseen related change x
        → All (λ y. related x y ≡ false) ys
        → All (λ y. related (change x) y ≡ false) ys
    All-same x [] u h = tt
    All-same x (y ∷ ys) u h = ((u y).0 ∙ h.0, All-same x ys u h.1)

    pub update_where-AreDistinct :
        (xs : List AttentionItemRow)
        → All (λ x. p x ≡ true → IsUnseen related change x) xs
        → AreDistinct related xs
        → AreDistinct related (update_where p change xs)
    update_where-AreDistinct [] u k = tt
    update_where-AreDistinct (x ∷ xs) u k =
        let z = if p x then change x else x in
        (
          update_where-All (λ y. related z y ≡ false) xs (All-map (λ y v t e. (v t z).1 ∙ e) xs u.1)
              (if_changed (λ w. All (λ y. related w y ≡ false) xs) (p x) x
                (λ t. All-same x xs (u.0 t) k.0) k.0),
          update_where-AreDistinct xs u.1 k.1,
        )

  pub update_where-none :
      (xs : List AttentionItemRow) → All (λ x. p x ≡ false) xs → update_where p change xs ≡ xs
  update_where-none [] h = refl
  update_where-none (x ∷ xs) h = rw (h.0, update_where-none xs h.1) refl

  -- An update that returned no row changed none.
  pub returning-none :
      (xs : List AttentionItemRow) → returning p change xs ≡ [] → update_where p change xs ≡ xs
  returning-none xs h = update_where-none xs (unmatched xs h)
    where
      cons_matched :
          (b : Bool) (x : AttentionItemRow) (ys : List AttentionItemRow)
          → map change (elim b [ true ↦ x ∷ ys | false ↦ ys ]) ≡ []
          → (b ≡ false) × (map change ys ≡ [])
      cons_matched true x ys h = cc
      cons_matched false x ys h = (refl, h)

      unmatched :
          (xs : List AttentionItemRow) → returning p change xs ≡ [] → All (λ x. p x ≡ false) xs
      unmatched [] h = tt
      unmatched (x ∷ xs) h = let k = cons_matched (p x) x (filter p xs) h in (k.0, unmatched xs k.1)

pub append-AreDistinct :
    (related : AttentionItemRow → AttentionItemRow → Bool) (xs : List AttentionItemRow)
    (x : AttentionItemRow)
    → All (λ y. related y x ≡ false) xs
    → AreDistinct related xs
    → AreDistinct related (xs ++ x ∷ [])
append-AreDistinct related [] x h k = (tt, tt)
append-AreDistinct related (y ∷ ys) x h k = (
  All-append (λ z. related y z ≡ false) ys (x ∷ []) k.0 (h.0, tt),
  append-AreDistinct related ys x h.1 k.1,
)

pub any-false :
    (p : AttentionItemRow → Bool) (xs : List AttentionItemRow)
    → any p xs ≡ false
    → All (λ x. p x ≡ false) xs
any-false p [] h = tt
any-false p (x ∷ xs) h = elim (Bool-cases (p x)) [
  | inl t ↦ (let e : any p (x ∷ xs) ≡ true = rw t refl in cc)
  | inr f ↦ (f, any-false p xs (subst (λ b. (b || any p xs) ≡ false) f h))
]

-- What holds of the rows after a match and of the match with them holds after the filter's test.
kept {ℓ} :
    (P : List AttentionItemRow → Type ℓ) (b : Bool) (x : AttentionItemRow)
    (ys : List AttentionItemRow)
    → P (x ∷ ys)
    → P ys
    → P (elim b [ true ↦ x ∷ ys | false ↦ ys ])
kept P true x ys h k = h
kept P false x ys h k = k

pub filter-All :
    (P : AttentionItemRow → Type 0) (p : AttentionItemRow → Bool) (xs : List AttentionItemRow)
    → All P xs
    → All P (filter p xs)
filter-All P p [] h = tt
filter-All P p (x ∷ xs) h =
    let rest = filter-All P p xs h.1 in kept (All P) (p x) x (filter p xs) (h.0, rest) rest

pub filter-AreDistinct :
    (related : AttentionItemRow → AttentionItemRow → Bool) (p : AttentionItemRow → Bool)
    (xs : List AttentionItemRow)
    → AreDistinct related xs
    → AreDistinct related (filter p xs)
filter-AreDistinct related p [] h = tt
filter-AreDistinct related p (x ∷ xs) h =
    let rest = filter-AreDistinct related p xs h.1 in
    kept (AreDistinct related) (p x) x (filter p xs)
      (filter-All (λ y. related x y ≡ false) p xs h.0, rest) rest

-- A search that found nothing has seen no match.
pub first_of-none :
    (p : AttentionItemRow → Bool) (xs : List AttentionItemRow)
    → first_of (filter p xs) ≡ none
    → All (λ x. p x ≡ false) xs
first_of-none p [] h = tt
first_of-none p (x ∷ xs) h =
    let k = unmatched (p x) x (filter p xs) h in (k.0, first_of-none p xs k.1)
  where
    unmatched :
        (b : Bool) (x : AttentionItemRow) (ys : List AttentionItemRow)
        → first_of (elim b [ true ↦ x ∷ ys | false ↦ ys ]) ≡ none
        → (b ≡ false) × (first_of ys ≡ none)
    unmatched true x ys h = cc
    unmatched false x ys h = (refl, h)

pub filter-true :
    (p : AttentionItemRow → Bool) (x : AttentionItemRow) (xs : List AttentionItemRow)
    → p x ≡ true
    → filter p (x ∷ xs) ≡ x ∷ filter p xs
filter-true p x xs h = ap (λ c. elim c [ true ↦ x ∷ filter p xs | false ↦ filter p xs ]) h

pub filter-false :
    (p : AttentionItemRow → Bool) (x : AttentionItemRow) (xs : List AttentionItemRow)
    → p x ≡ false
    → filter p (x ∷ xs) ≡ filter p xs
filter-false p x xs h = ap (λ c. elim c [ true ↦ x ∷ filter p xs | false ↦ filter p xs ]) h

-- What holds of every row holds of the first match, which is one.
pub first_of-All :
    (P : AttentionItemRow → Type 0) (p : AttentionItemRow → Bool) (xs : List AttentionItemRow)
    (found : AttentionItemRow)
    → All P xs
    → first_of (filter p xs) ≡ some found
    → P found × (p found ≡ true)
first_of-All P p [] found h e = cc
first_of-All P p (x ∷ xs) found h e = elim (Bool-cases (p x)) [
  | inl t ↦
      (let same : some x ≡ some found = ap first_of (sym (filter-true p x xs t)) ∙ e in
        let e2 : x ≡ found = cc in (subst P e2 h.0, subst (λ y. p y ≡ true) e2 t))
  | inr f ↦ first_of-All P p xs found h.1 (ap first_of (sym (filter-false p x xs f)) ∙ e)
]
