-- ===== src/Assignments/Applying.antt =====
-- packages/core/src/assignments/verdict.ts: a parsed verdict applied to an outcome's criteria.
-- What a call that throws after its first write leaves in the database is not kept.
pub mod Guards
pub mod Grounded
use Prim.Native.String.{String}
use jehad_os.Prelude.{
  ℕ, Bool, true, false, not, ◌&&◌, ◌||◌, Option, none, some, List, [], ◌∷◌, ◌++◌, map, all, any,
  filter, length, str_eq, ltb, ◌==◌, if◌then◌else◌, Result, ok, err, ◌>>=◌, ◌>>◌, throw_if,
}
use jehad_os.Prelude.Unknown.{Unknown, array, object}
use jehad_os.Assignments.{
  VerifierVerdictValue, confirmed, refuted, uncertain, VerifierVerdict, VerifierResult,
  VerdictError, assignment_error, criterion_error, has,
}
use jehad_os.Outcomes.Criteria.{
  CriterionStatus, verified, unverified, failed, Criterion, OutcomeDb, StatusOptions,
  set_criterion_status,
}

-- The columns of `assignments` that the code reads.
pub record Assignment : Type 0 where
  pub id : String
  pub role : String
  pub status : String
  pub outcome_id : Option String
  pub verifies_assignment_id : Option String
  pub result : Unknown

pub record AssignmentDb : Type 0 where
  pub assignments : List Assignment
  pub outcomes : OutcomeDb

pub data Overall : Type 0 where
  pass fail partial : Overall

unfoldable pub find_assignment : String → List Assignment → Option Assignment
find_assignment id [] = none
find_assignment id (a ∷ as_) =
    let rest = find_assignment id as_ in if str_eq a.id id then some a else rest

abbrev pub is_some_text : String → Option String → Bool
is_some_text s none = false
is_some_text s (some t) = str_eq t s

-- A succeeded assignment of a role on the outcome.
unfoldable pub is_bound : (role outcome_id : String) → Assignment → Bool
is_bound role outcome_id a =
    str_eq a.role role && (str_eq a.status "succeeded" && is_some_text outcome_id a.outcome_id)

-- `Array.isArray(result.citations)`, and its length.
unfoldable pub array_length : Unknown → Option ℕ
array_length (array count at) = some count
array_length _ = none

unfoldable pub citation_count : Unknown → Option ℕ
unfolding array_length
citation_count (object field) = array_length (field "citations")
citation_count _ = none

unfoldable pub criteria_ordinals : String → List Criterion → List ℕ
criteria_ordinals outcome_id cs =
    map (λ c. c.ordinal) (filter (λ c. str_eq c.outcome_id outcome_id) cs)

unfoldable pub covers : List VerifierVerdict → List ℕ → Bool
covers vs ordinals =
    (length vs == length ordinals) && all (λ o. has (map (λ v. v.ordinal) vs) o) ordinals

-- A confirmation cites the builder, and only citations that the builder has.
unfoldable pub is_grounded : ℕ → VerifierVerdict → Bool
is_grounded count v = elim v.verdict [
  | confirmed ↦ ltb 0 (length v.citation_ids) && all (λ id. not (ltb count id)) v.citation_ids
  | refuted ↦ true
  | uncertain ↦ true
]

abbrev pub status_for : VerifierVerdictValue → CriterionStatus
status_for confirmed = verified
status_for refuted = failed
status_for uncertain = unverified

-- Only a verified criterion names the verifier's assignment.
abbrev pub options_for : (assignment_id now actor : String) → VerifierVerdictValue → StatusOptions
options_for assignment_id now actor confirmed = record {
  now = now;
  actor = actor;
  evidence_ref = none;
  verified_by_assignment_id = some assignment_id;
}
options_for assignment_id now actor _ = record {
  now = now;
  actor = actor;
  evidence_ref = none;
  verified_by_assignment_id = none;
}

unfoldable pub any_refuted : List VerifierVerdict → Bool
any_refuted [] = false
any_refuted (v ∷ vs) =
    let rest = any_refuted vs in
    elim v.verdict [ confirmed ↦ rest | refuted ↦ true | uncertain ↦ rest ]

unfoldable pub all_confirmed : List VerifierVerdict → Bool
all_confirmed [] = true
all_confirmed (v ∷ vs) =
    let rest = all_confirmed vs in
    elim v.verdict [ confirmed ↦ rest | refuted ↦ false | uncertain ↦ false ]

unfoldable pub overall_of : List VerifierVerdict → Overall
unfolding any_refuted all_confirmed
overall_of vs = if any_refuted vs then fail else if all_confirmed vs then pass else partial

-- The verifier's row: bound to the outcome, and to an assignment that is not itself.
unfoldable pub verified_id :
    (assignment_id outcome_id : String) → Option Assignment → Result VerdictError String
unfolding is_bound
verified_id assignment_id outcome_id none = err assignment_error
verified_id assignment_id outcome_id (some a) =
    throw_if (not (is_bound "verifier" outcome_id a)) assignment_error >>= λ _.
    elim a.verifies_assignment_id [
      | none ↦ err assignment_error
      | some id ↦ throw_if (str_eq id assignment_id) assignment_error >>= λ _. ok id
    ]

-- The builder's row: succeeded research on the outcome, with citations.
unfoldable pub builder_citations : (outcome_id : String) → Option Assignment → Result VerdictError ℕ
unfolding is_bound citation_count
builder_citations outcome_id none = err assignment_error
builder_citations outcome_id (some a) =
    throw_if (not (is_bound "research" outcome_id a)) assignment_error >>= λ _.
    elim (citation_count a.result) [ none ↦ err assignment_error | some n ↦ ok n ]

module _ (idempotency_key_for : (source external_id : String) → String) (mint : ℕ → String)
    (assignment_id outcome_id now actor : String) where
  -- The loop over the verdicts.
  unfoldable pub write_verdicts : List VerifierVerdict → OutcomeDb → Result VerdictError OutcomeDb
  unfolding set_criterion_status
  write_verdicts [] db = ok db
  write_verdicts (v ∷ vs) db =
      elim (set_criterion_status idempotency_key_for mint outcome_id v.ordinal
        (status_for v.verdict) (options_for assignment_id now actor v.verdict) db) [
          | err e ↦ err criterion_error
          | ok next ↦ write_verdicts vs next
        ]

  -- The checks before any write.
  unfoldable pub check_verdict : VerifierResult → AssignmentDb → Result VerdictError (Unit {0})
  unfolding find_assignment verified_id builder_citations covers criteria_ordinals is_grounded
  check_verdict r db =
      verified_id assignment_id outcome_id (find_assignment assignment_id db.assignments) >>= λ id.
      builder_citations outcome_id (find_assignment id db.assignments) >>= λ count.
      throw_if (not (covers r.verdicts (criteria_ordinals outcome_id db.outcomes.criteria)))
        assignment_error
      >>= λ _. throw_if (not (all (is_grounded count) r.verdicts)) assignment_error

  unfoldable pub apply_verifier_verdict :
      VerifierResult → AssignmentDb → Result VerdictError ((ℕ × Overall) × AssignmentDb)
  unfolding check_verdict write_verdicts overall_of
  apply_verifier_verdict r db = check_verdict r db >>= λ _.
      write_verdicts r.verdicts db.outcomes >>= λ next. ok (
        (length r.verdicts, overall_of r.verdicts),
        record db {
          outcomes = record next { audits = next.audits ++ "assignment.verdict_applied" ∷ [] };
        },
      )
