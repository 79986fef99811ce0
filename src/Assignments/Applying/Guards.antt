-- ===== src/Assignments/Applying/Guards.antt =====
-- packages/core/src/assignments/verdict.ts: what the guards on the rows and on the verdicts establish.
use Prim.Native.String.{String}
use jehad_os.Prelude.{
  ℕ, ◌≤◌, ◌≡◌, ◌≢◌, ◌⊎◌, inl, inr, refl, ap, ◌&&◌, &&-eq-true, ||-eq-true, eq_iff, ==_iff, ltb,
  ◌==◌, ltb→lt, arith, length, filter, map, All-map, Bool, true, false, not, Option, none, some,
  List, [], ◌∷◌, All, all, str_eq,
}
use jehad_os.Assignments.{VerifierVerdictValue, confirmed, refuted, uncertain, VerifierVerdict, has}
use jehad_os.Prelude.Unknown.{Unknown, array, object}
use jehad_os.Outcomes.Criteria.{Criterion}
use jehad_os.Assignments.Applying.{
  Assignment, is_bound, is_some_text, array_length, citation_count, criteria_ordinals, covers,
  is_grounded,
}

-- One of the verdicts is on the ordinal.
abbrev pub IsJudged : ℕ → List VerifierVerdict → Type 0
IsJudged n [] = ⊥
IsJudged n (v ∷ vs) = (v.ordinal ≡ n) ⊎ IsJudged n vs

-- At least one citation, and each with a number up to the count.
abbrev pub Cites : ℕ → List ℕ → Type 0
Cites count ids = (1 ≤ length ids) × All (λ id. id ≤ count) ids

abbrev pub IsGrounded : ℕ → VerifierVerdictValue → List ℕ → Type 0
IsGrounded count confirmed ids = Cites count ids
IsGrounded count refuted ids = Unit
IsGrounded count uncertain ids = Unit

pub is_bound_lem :
    (role outcome_id : String) (a : Assignment)
    → is_bound role outcome_id a ≡ true
    → (a.role ≡ role) × (a.status ≡ "succeeded") × (a.outcome_id ≡ some outcome_id)
unfolding is_bound
is_bound_lem role outcome_id a h =
    let x = &&-eq-true (str_eq a.role role) _ h in
    let y = &&-eq-true (str_eq a.status "succeeded") _ x.1 in
    (
      (eq_iff a.role role).0 x.0,
      (eq_iff a.status "succeeded").0 y.0,
      some_text outcome_id a.outcome_id y.1,
    )
  where
    some_text : (s : String) (o : Option String) → is_some_text s o ≡ true → o ≡ some s
    some_text s none h = cc
    some_text s (some t) h = ap some ((eq_iff t s).0 h)

pub citation_count_lem :
    (u : Unknown) (n : ℕ)
    → citation_count u ≡ some n
    → (field : String → Unknown) × (at : ℕ → Unknown) × (u ≡ object field)
      × (field "citations" ≡ array n at)
unfolding citation_count array_length
citation_count_lem (object field) n h =
    let x = array_length_lem (field "citations") n h in (field, x.0, refl, x.1)
  where
    array_length_lem :
        (u : Unknown) (n : ℕ) → array_length u ≡ some n → (at : ℕ → Unknown) × (u ≡ array n at)
    array_length_lem (array count at) n h = let e : count ≡ n = cc in (at, ap (λ k. array k at) e)
    array_length_lem _ n h = cc
citation_count_lem _ n h = cc

has-IsJudged :
    (vs : List VerifierVerdict) (n : ℕ) → has (map (λ v. v.ordinal) vs) n ≡ true → IsJudged n vs
has-IsJudged [] n h = cc
has-IsJudged (v ∷ vs) n h = elim (||-eq-true (v.ordinal == n) _ h) [
  | inl e ↦ inl ((==_iff v.ordinal n).0 e)
  | inr k ↦ inr (has-IsJudged vs n k)
]

-- What is tested of the ordinals of an outcome's criteria holds of each of its criteria.
criteria_ordinals-all :
    (outcome_id : String) (p : ℕ → Bool) (cs : List Criterion)
    → all p (criteria_ordinals outcome_id cs) ≡ true
    → All (λ c. (c.outcome_id ≢ outcome_id) ⊎ (p c.ordinal ≡ true)) cs
unfolding criteria_ordinals
criteria_ordinals-all outcome_id p [] h = tt
criteria_ordinals-all outcome_id p (c ∷ cs) h =
    let k =
      kept (str_eq c.outcome_id outcome_id) c.ordinal
        (filter (λ x. str_eq x.outcome_id outcome_id) cs) h in
    (of_outcome c.outcome_id k.0, criteria_ordinals-all outcome_id p cs k.1)
  where
    kept :
        (b : Bool) (n : ℕ) (rest : List Criterion)
        → all p (map (λ x. x.ordinal) (elim b [ true ↦ c ∷ rest | false ↦ rest ])) ≡ true
        → ((b ≡ false) ⊎ (p c.ordinal ≡ true)) × (all p (map (λ x. x.ordinal) rest) ≡ true)
    kept true n rest h = let x = &&-eq-true (p c.ordinal) _ h in (inr x.0, x.1)
    kept false n rest h = (inl refl, h)

    of_outcome :
        (id : String)
        → (str_eq id outcome_id ≡ false) ⊎ (p c.ordinal ≡ true)
        → (id ≢ outcome_id) ⊎ (p c.ordinal ≡ true)
    of_outcome id (inl f) = inl (λ e. (let t = (eq_iff id outcome_id).1 e in cc))
    of_outcome id (inr t) = inr t

pub covers_lem :
    (vs : List VerifierVerdict) (outcome_id : String) (cs : List Criterion)
    → covers vs (criteria_ordinals outcome_id cs) ≡ true
    → (length vs ≡ length (criteria_ordinals outcome_id cs))
      × All (λ c. (c.outcome_id ≢ outcome_id) ⊎ IsJudged c.ordinal vs) cs
unfolding covers
covers_lem vs outcome_id cs h =
    let ordinals = criteria_ordinals outcome_id cs in
    let x = &&-eq-true (length vs == length ordinals) _ h in
    (
      (==_iff (length vs) (length ordinals)).0 x.0,
      All-map (λ c k. judged c k) cs
          (criteria_ordinals-all outcome_id (has (map (λ v. v.ordinal) vs)) cs x.1),
    )
  where
    judged :
        (c : Criterion)
        → (c.outcome_id ≢ outcome_id) ⊎ (has (map (λ v. v.ordinal) vs) c.ordinal ≡ true)
        → (c.outcome_id ≢ outcome_id) ⊎ IsJudged c.ordinal vs
    judged c (inl n) = inl n
    judged c (inr t) = inr (has-IsJudged vs c.ordinal t)

within_count :
    (count : ℕ) (ids : List ℕ)
    → all (λ id. not (ltb count id)) ids ≡ true
    → All (λ id. id ≤ count) ids
within_count count [] h = tt
within_count count (id ∷ ids) h =
    let x = &&-eq-true (not (ltb count id)) _ h in (ground (arith, x.0), within_count count ids x.1)

is_grounded_lem :
    (count : ℕ) (v : VerifierVerdict)
    → is_grounded count v ≡ true
    → IsGrounded count v.verdict v.citation_ids
unfolding is_grounded
is_grounded_lem count v h = by_value v.verdict h
  where
    by_value :
        (x : VerifierVerdictValue)
        → (elim x [
          | confirmed ↦
              ltb 0 (length v.citation_ids) && all (λ id. not (ltb count id)) v.citation_ids
          | refuted ↦ true
          | uncertain ↦ true
        ])
          ≡ true
        → IsGrounded count x v.citation_ids
    by_value confirmed h =
        let y = &&-eq-true (ltb 0 (length v.citation_ids)) _ h in
        (ltb→lt 0 (length v.citation_ids) y.0, within_count count v.citation_ids y.1)
    by_value refuted h = tt
    by_value uncertain h = tt

pub all-IsGrounded :
    (count : ℕ) (vs : List VerifierVerdict)
    → all (is_grounded count) vs ≡ true
    → All (λ v. IsGrounded count v.verdict v.citation_ids) vs
all-IsGrounded count [] h = tt
all-IsGrounded count (v ∷ vs) h =
    let x = &&-eq-true (is_grounded count v) _ h in
    (is_grounded_lem count v x.0, all-IsGrounded count vs x.1)
