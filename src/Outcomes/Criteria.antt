-- ===== src/Outcomes/Criteria.antt =====
-- packages/core/src/outcomes/service.ts: the status of an outcome's criteria, with the event and
-- the audit entry that record a change. The database is the tables that the code reads and
-- writes; ids and the clock's text are arguments. What a call that throws leaves is not kept.
use Prim.Native.String.{String, ◌++◌ as ◌+++◌}
use jehad_os.Prelude.{
  ℕ, suc, Bool, true, false, not, ◌&&◌, ◌||◌, Option, none, some, List, [], ◌∷◌, ◌++◌, map, str_eq,
  ◌==◌, if◌then◌else◌, Result, ok, err, ◌>>=◌, throw_if,
}
use jehad_os.Prelude.Unknown.{decimal}
use jehad_os.Events.{EventIngestInput, EventStore, accept_event}

pub data CriterionStatus : Type 0 where
  pending verified unverified failed waived_by_owner : CriterionStatus

abbrev pub status_name : CriterionStatus → String
status_name pending = "pending"
status_name verified = "verified"
status_name unverified = "unverified"
status_name failed = "failed"
status_name waived_by_owner = "waived_by_owner"

pub record Criterion : Type 0 where
  pub outcome_id : String
  pub ordinal : ℕ
  pub status : CriterionStatus
  pub evidence_ref : Option String
  pub verified_by_assignment_id : Option String
  pub verified_at : Option String
  pub updated_at : String

pub record Outcome : Type 0 where
  pub id : String
  pub ref : String
  pub status : String

-- `minted` counts the event ids that were drawn.
pub record OutcomeDb : Type 0 where
  pub outcomes : List Outcome
  pub criteria : List Criterion
  pub store : EventStore
  pub audits : List String
  pub minted : ℕ

pub record StatusOptions : Type 0 where
  pub now : String
  pub actor : String
  pub evidence_ref : Option String
  pub verified_by_assignment_id : Option String

pub data CriterionError : Type 0 where
  no_evidence not_updatable domain_missing : CriterionError

abbrev is_verified : CriterionStatus → Bool
is_verified verified = true
is_verified _ = false

abbrev is_none : Option String → Bool
is_none none = true
is_none (some s) = false

-- `COALESCE(new, old)`
abbrev coalesce : Option String → Option String → Option String
coalesce none old = old
coalesce (some s) old = some s

unfoldable pub is_terminal : String → Bool
is_terminal s = str_eq s "completed" || (str_eq s "failed" || str_eq s "cancelled")

-- The reference of the outcome that the criterion's update joins: one that is not terminal.
unfoldable pub open_ref : String → List Outcome → Option String
unfolding is_terminal
open_ref id [] = none
open_ref id (o ∷ os) =
    let rest = open_ref id os in
    if str_eq o.id id && not (is_terminal o.status) then some o.ref else rest

unfoldable pub is_criterion : String → ℕ → Criterion → Bool
is_criterion outcome_id ordinal c = str_eq c.outcome_id outcome_id && (c.ordinal == ordinal)

unfoldable pub has_criterion : String → ℕ → List Criterion → Bool
unfolding is_criterion
has_criterion outcome_id ordinal [] = false
has_criterion outcome_id ordinal (c ∷ cs) =
    is_criterion outcome_id ordinal c || has_criterion outcome_id ordinal cs

unfoldable pub write_status : CriterionStatus → StatusOptions → Criterion → Criterion
write_status s opts c = record c {
  status = s;
  evidence_ref = coalesce opts.evidence_ref c.evidence_ref;
  verified_by_assignment_id = coalesce opts.verified_by_assignment_id c.verified_by_assignment_id;
  verified_at = if is_verified s then some opts.now else c.verified_at;
  updated_at = opts.now;
}

unfoldable pub update_criteria :
    String → ℕ → CriterionStatus → StatusOptions → List Criterion → List Criterion
unfolding is_criterion write_status
update_criteria outcome_id ordinal s opts =
    map λ c. if is_criterion outcome_id ordinal c then write_status s opts c else c

-- The row that the UPDATE returns.
unfoldable pub updated_ref : String → ℕ → OutcomeDb → Option String
unfolding open_ref has_criterion
updated_ref outcome_id ordinal db =
    if has_criterion outcome_id ordinal db.criteria then open_ref outcome_id db.outcomes else none

module _ (idempotency_key_for : (source external_id : String) → String) (mint : ℕ → String) where
  abbrev pub criterion_event : String → ℕ → CriterionStatus → String → String → EventIngestInput
  criterion_event outcome_id ordinal s now ref = record {
    kind = "outcome.criteria_updated";
    source = "internal";
    external_id =
        "outcome-criteria:"
        +++ (outcome_id
            +++ (":" +++ (decimal ordinal +++ (":" +++ (status_name s +++ (":" +++ now))))));
    occurred_at = now;
    domain_id = "personal";
    sensitivity = "normal";
    payload =
        ("outcomeId", outcome_id)
        ∷ (("ref", ref) ∷ (("ordinal", decimal ordinal) ∷ (("status", status_name s) ∷ [])));
  }

  -- The event and the audit entry of an update that returned a row.
  unfoldable pub record_status :
      String
      → ℕ
      → CriterionStatus
      → StatusOptions
      → OutcomeDb
      → Option String
      → Result CriterionError OutcomeDb
  unfolding update_criteria accept_event
  record_status outcome_id ordinal s opts db none = err not_updatable
  record_status outcome_id ordinal s opts db (some ref) =
      elim (accept_event idempotency_key_for (mint db.minted) opts.now
        (criterion_event outcome_id ordinal s opts.now ref) db.store) [
          | err e ↦ err domain_missing
          | ok r ↦ ok (record db {
            criteria = update_criteria outcome_id ordinal s opts db.criteria;
            store = r.1;
            audits = db.audits ++ "outcome.criteria_status" ∷ [];
            minted = suc db.minted;
          })
        ]

  unfoldable pub set_criterion_status :
      String → ℕ → CriterionStatus → StatusOptions → OutcomeDb → Result CriterionError OutcomeDb
  unfolding updated_ref record_status
  set_criterion_status outcome_id ordinal s opts db =
      throw_if
        (is_verified s && (is_none opts.evidence_ref && is_none opts.verified_by_assignment_id))
        no_evidence
      >>= λ _. record_status outcome_id ordinal s opts db (updated_ref outcome_id ordinal db)
