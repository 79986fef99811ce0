-- ===== src/Commitments/Resolution.antt =====
-- packages/core/src/commitments/transitions.ts: what a resolution names.
use Prim.Native.String.{String, ◌++◌ as ◌+++◌}
use jehad_os.Prelude.{
  ℕ, ◌+◌, ◌*◌, ◌/◌, ◌%◌, ◌≤◌, ◌≡◌, refl, subst, Bool, true, false, Option, none, some, List, [],
  ◌∷◌, map, filter, length, get_elem?, arith, str_eq, eq_iff, if◌then◌else◌, suc, zero,
}
use jehad_os.Prelude.Unknown.{is_empty}
use jehad_os.Commitments.{
  EligibleCommitment, CommitmentCandidate, CommitmentTargetResolution, sole, by_ref, unknown_ref,
  ambiguous, is_code, code_of, given, bare_target, ref_target, commitment_ref_code, to_candidate,
  matches, normalized, resolve_commitment_target,
}
use jehad_os.Commitments.Codes.{code_of-is_code, trim-code_of}

-- The commitment that a resolution lets the verb change.
unfoldable pub target_id : CommitmentTargetResolution → Option String
target_id (sole id description) = some id
target_id (by_ref id description ref) = some id
target_id _ = none

-- The resolution names the code, or asks which of several commitments with it is meant.
abbrev pub Names : String → CommitmentTargetResolution → Type 0
Names code (by_ref id description ref) = ref ≡ code
Names code (ambiguous candidates) = 2 ≤ length candidates
Names code _ = ⊥

IsOnly : String → List EligibleCommitment → Type 0
IsOnly id items = (item : EligibleCommitment) × (items ≡ item ∷ []) × (item.id ≡ id)

bare_target-IsOnly :
    (items : List EligibleCommitment) (candidates : List CommitmentCandidate) (id : String)
    → target_id (bare_target items candidates) ≡ some id
    → IsOnly id items
unfolding target_id bare_target IsOnly
bare_target-IsOnly [] candidates id h = cc
bare_target-IsOnly (item ∷ []) candidates id h = (item, refl, cc)
bare_target-IsOnly (item ∷ (other ∷ items)) candidates id h = cc

ref_target-IsOnly :
    (ref : String) (items : List EligibleCommitment) (candidates : List CommitmentCandidate)
    (id : String)
    → target_id (ref_target ref items candidates) ≡ some id
    → IsOnly id items
unfolding target_id ref_target IsOnly
ref_target-IsOnly ref [] candidates id h = cc
ref_target-IsOnly ref (item ∷ []) candidates id h = (item, refl, cc)
ref_target-IsOnly ref (item ∷ (other ∷ items)) candidates id h = cc

coded-IsOnly :
    (b : Bool) (ref : String) (items : List EligibleCommitment)
    (candidates : List CommitmentCandidate) (id : String)
    → target_id (if b then ref_target ref items candidates else unknown_ref ref) ≡ some id
    → IsOnly id items
unfolding target_id
coded-IsOnly true ref items candidates id h = ref_target-IsOnly ref items candidates id h
coded-IsOnly false ref items candidates id h = cc

ref_target-Names :
    (code : String) (items : List EligibleCommitment) (f : EligibleCommitment → CommitmentCandidate)
    → 1 ≤ length items
    → Names code (ref_target code items (map f items))
unfolding ref_target
ref_target-Names code [] f h = absurd (omega (arith, h))
ref_target-Names code (item ∷ []) f h = refl
ref_target-Names code (item ∷ (other ∷ items)) f h = omega arith

code_of-full : (value : ℕ) → is_empty (code_of value) ≡ false
unfolding code_of
code_of-full value = refl

first_kept :
    (b : Bool) (x : EligibleCommitment) (rest : List EligibleCommitment)
    → b ≡ true
    → 1 ≤ length (elim b [ true ↦ x ∷ rest | false ↦ rest ])
first_kept true x rest h = omega arith
first_kept false x rest h = cc

rest_kept :
    (b : Bool) (x : EligibleCommitment) (rest : List EligibleCommitment)
    → 1 ≤ length rest
    → 1 ≤ length (elim b [ true ↦ x ∷ rest | false ↦ rest ])
rest_kept true x rest h = omega arith
rest_kept false x rest h = h

filter-kept :
    (test : EligibleCommitment → Bool) (items : List EligibleCommitment) (k : ℕ)
    (item : EligibleCommitment)
    → get_elem? items k ≡ some item
    → test item ≡ true
    → 1 ≤ length (filter test items)
filter-kept test [] k item h t = cc
filter-kept test (x ∷ items) zero item h t =
    let e : item ≡ x = cc in
    first_kept (test x) x (filter test items) (subst (λ y. test y ≡ true) e t)
filter-kept test (x ∷ items) (suc k) item h t =
    rest_kept (test x) x (filter test items) (filter-kept test items k item h t)

module _ (sha256 : String → ℕ × ℕ) (to_upper_case : String → String) where
  -- The commitments that a bare verb or a reference may mean.
  unfoldable pub named : List EligibleCommitment → Option String → List EligibleCommitment
  named eligible ref =
      if given ref
      then matches sha256 to_upper_case (normalized sha256 to_upper_case ref) eligible
      else eligible

  chosen-IsOnly :
      (b c : Bool) (ref : String) (eligible coded : List EligibleCommitment)
      (first second : List CommitmentCandidate) (id : String)
      → target_id (
          if b
          then (if c then ref_target ref coded first else unknown_ref ref)
          else bare_target eligible second)
        ≡ some id
      → IsOnly id (if b then coded else eligible)
  chosen-IsOnly true c ref eligible coded first second id h = coded-IsOnly c ref coded first id h
  chosen-IsOnly false c ref eligible coded first second id h =
      bare_target-IsOnly eligible second id h

  -- A resolution lets the verb change a commitment only when it is the one eligible commitment,
  -- or the one eligible commitment with the code that was given.
  pub resolve-only :
      (eligible : List EligibleCommitment) (ref : Option String) (id : String)
      → target_id (resolve_commitment_target sha256 to_upper_case eligible ref) ≡ some id
      → (item : EligibleCommitment) × (named eligible ref ≡ item ∷ []) × (item.id ≡ id)
  unfolding resolve_commitment_target named IsOnly
  resolve-only eligible ref id h =
      chosen-IsOnly (given ref) (is_code (normalized sha256 to_upper_case ref))
        (normalized sha256 to_upper_case ref) eligible
        (matches sha256 to_upper_case (normalized sha256 to_upper_case ref) eligible) _ _ id h

  resolve-Names :
      (eligible : List EligibleCommitment) (code : String)
      → given (some code) ≡ true
      → normalized sha256 to_upper_case (some code) ≡ code
      → is_code code ≡ true
      → 1 ≤ length (matches sha256 to_upper_case code eligible)
      → Names code (resolve_commitment_target sha256 to_upper_case eligible (some code))
  unfolding resolve_commitment_target
  resolve-Names eligible code g n v m =
      rw (g, n, v)
        (ref_target-Names code (matches sha256 to_upper_case code eligible)
          (to_candidate sha256 to_upper_case) m)

  code_of-given : (value : ℕ) → given (some (code_of value)) ≡ true
  unfolding given
  code_of-given value = rw (trim-code_of value, code_of-full value) refl

  code_of-normalized :
      (value : ℕ)
      → to_upper_case (code_of value) ≡ code_of value
      → normalized sha256 to_upper_case (some (code_of value)) ≡ code_of value
  unfolding normalized
  code_of-normalized value kept = rw (trim-code_of value, kept) refl

  own_code-matches :
      (eligible : List EligibleCommitment) (k : ℕ) (item : EligibleCommitment)
      → get_elem? eligible k ≡ some item
      → 1
        ≤ length (
            matches sha256 to_upper_case
              (commitment_ref_code sha256 to_upper_case item.id)
              eligible)
  unfolding matches
  own_code-matches eligible k item h =
      let own = commitment_ref_code sha256 to_upper_case item.id in
      filter-kept (λ x. str_eq (commitment_ref_code sha256 to_upper_case x.id) own) eligible k item
        h ((eq_iff own own).1 refl)

  -- The code that is shown for an eligible commitment resolves to that code, or to the question
  -- which of several commitments with it is meant; it is never unknown. The runtime's
  -- `toUpperCase` leaves texts of the alphabet as they are.
  pub resolve-own_code :
      (eligible : List EligibleCommitment) (k : ℕ) (item : EligibleCommitment)
      (upper_kept : (s : String) → is_code s ≡ true → to_upper_case s ≡ s)
      → get_elem? eligible k ≡ some item
      → Names (commitment_ref_code sha256 to_upper_case item.id) (
          resolve_commitment_target sha256 to_upper_case eligible
            (some (commitment_ref_code sha256 to_upper_case item.id)))
  unfolding commitment_ref_code
  resolve-own_code eligible k item upper_kept h =
      let digest = sha256 ("commitment:" +++ item.id) in
      let value = (digest.0 * 128 + digest.1 / 2) % 32768 in
      let valid = code_of-is_code value in
      resolve-Names eligible (code_of value) (code_of-given value)
        (code_of-normalized value (upper_kept (code_of value) valid)) valid
        (own_code-matches eligible k item h)
