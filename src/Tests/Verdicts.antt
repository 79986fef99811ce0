-- ===== src/Tests/Verdicts.antt =====
-- A verifier's envelope, parsed and applied.
use Prim.Native.String.{String}
use jehad_os.Prelude.{
  ℕ, ◌≡◌, ◌↔◌, refl, false, Option, none, some, [], ◌∷◌, All, str_eq, ok, if◌then◌else◌,
}
use jehad_os.Prelude.Unknown.{
  Unknown, undefined, null, number, finite, string, array, object, units, trim, trim_start,
  trim_end, keep_end, decimal,
}
use jehad_os.Assignments.{
  confirmed, VerifierVerdict, VerifierResult, bounded_text, positive_integer, verdict_value, each,
  citation_ids, verdict_from, parse_verdict, parse_verdicts, parse_verdict_array, in_unit,
  parse_confidence, parse_questions, parse_verifier_result,
}
use jehad_os.Assignments.Envelope.{AreAccepted, parse-AreAccepted}
use jehad_os.Events.{find_key, insert_event, has_domain, accept_event}
use jehad_os.Outcomes.Criteria.{
  CriterionStatus, Criterion, is_terminal, open_ref, is_criterion, has_criterion, write_status,
  update_criteria, updated_ref, record_status, set_criterion_status,
}
use jehad_os.Assignments.Applying.{
  Assignment, AssignmentDb, pass, find_assignment, is_bound, array_length, citation_count,
  criteria_ordinals, covers, is_grounded, any_refuted, all_confirmed, overall_of, verified_id,
  builder_citations, write_verdicts, check_verdict, apply_verifier_verdict,
}
use jehad_os.Assignments.Applying.Grounded.{IsChecked, apply-IsChecked, overall_of-pass_iff}

verdicts : Unit {0}
unfolding units trim trim_start trim_end keep_end decimal bounded_text positive_integer
    verdict_value each citation_ids verdict_from parse_verdict parse_verdicts parse_verdict_array
    in_unit parse_confidence parse_questions parse_verifier_result find_key insert_event has_domain
    accept_event is_terminal open_ref is_criterion has_criterion write_status update_criteria
    updated_ref record_status set_criterion_status find_assignment is_bound array_length
    citation_count criteria_ordinals covers is_grounded any_refuted all_confirmed overall_of
    verified_id builder_citations write_verdicts check_verdict apply_verifier_verdict
verdicts = tt

abbrev one : Unknown
one = number (finite false 1 0)

abbrev raw_verdict : Unknown
raw_verdict = object λ k.
    if str_eq k "ordinal"
    then one
    else if str_eq k "verdict"
    then string "confirmed"
    else if str_eq k "reasoning"
    then string " cited "
    else if str_eq k "citation_ids"
    then array 1 (λ n. one)
    else undefined

abbrev raw_result : Unknown
raw_result = object λ k.
    if str_eq k "summary"
    then string "all good"
    else if str_eq k "verdicts"
    then array 1 (λ n. raw_verdict)
    else undefined

abbrev cited : VerifierVerdict
cited = record { ordinal = 1; verdict = confirmed; reasoning = "cited"; citation_ids = 1 ∷ [] }

abbrev good : VerifierResult
good = record {
  summary = "all good";
  verdicts = cited ∷ [];
  confidence = none;
  open_questions = [];
}

raw_result_parsed : parse_verifier_result raw_result ≡ ok good
unfolding verdicts
raw_result_parsed = refl

parse-AreAccepted_example : AreAccepted (cited ∷ [])
parse-AreAccepted_example = parse-AreAccepted raw_result good raw_result_parsed

abbrev builder : Assignment
builder = record {
  id = "b";
  role = "research";
  status = "succeeded";
  outcome_id = some "o";
  verifies_assignment_id = none;
  result = object λ k. if str_eq k "citations" then array 2 (λ n. string "source") else undefined;
}

abbrev verifier : Assignment
verifier = record {
  id = "v";
  role = "verifier";
  status = "succeeded";
  outcome_id = some "o";
  verifies_assignment_id = some "b";
  result = null;
}

abbrev criterion : CriterionStatus → Option String → Option String → String → Criterion
criterion s by_ at now = record {
  outcome_id = "o";
  ordinal = 1;
  status = s;
  evidence_ref = none;
  verified_by_assignment_id = by_;
  verified_at = at;
  updated_at = now;
}

abbrev before : AssignmentDb
before = record {
  assignments = builder ∷ verifier ∷ [];
  outcomes = record {
    outcomes = record { id = "o"; ref = "ABC"; status = "verifying" } ∷ [];
    criteria = criterion CriterionStatus.pending none none "t0" ∷ [];
    store = record { domains = "personal" ∷ []; events = []; outbox = [] };
    audits = [];
    minted = 0;
  };
}

abbrev key_for : String → String → String
key_for source external_id = external_id

abbrev mint : ℕ → String
mint n = "event"

applied_once :
    (after : AssignmentDb) × (apply_verifier_verdict key_for mint "v" "o" "t1" "worker" good before
      ≡ ok ((1, pass), after))
unfolding verdicts
applied_once = (_, refl)

apply-IsChecked_example : IsChecked "v" "o" good before
apply-IsChecked_example =
    apply-IsChecked key_for mint "v" "o" "t1" "worker" good before applied_once.0 1 pass
      applied_once.1

overall_of-pass_iff_example :
    (overall_of (cited ∷ []) ≡ pass) ↔ All (λ v. v.verdict ≡ confirmed) (cited ∷ [])
overall_of-pass_iff_example = overall_of-pass_iff (cited ∷ [])
