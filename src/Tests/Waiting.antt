-- ===== src/Tests/Waiting.antt =====
-- Wait predicates, accepted events and commitment targets.
use Prim.Native.String.{String}
use jehad_os.Prelude.{
  ℕ, ◌≡◌, ◌↔◌, refl, true, false, none, some, [], ◌∷◌, str_eq, ok, if◌then◌else◌,
}
use jehad_os.Prelude.Unknown.{
  Unknown, undefined, number, finite, string, object, is_positive, is_not_negative, units, trim,
  trim_start, trim_end, keep_end,
}
use jehad_os.Outcomes.Predicates.{
  gmail, OutcomeWaitPredicate, arrival, can_go_on, can_end, domain_from, is_domain, lower_char,
  to_lower, all_upper, is_ref, is_outcome_status, optional, is_text, is_one, wait_source,
  wait_subject, number_where, scoped, narrowed, parse_arrival, parse_state_change,
  parse_absence_past, parse_threshold, parse_typed, parse_outcome_wait_predicate,
}
use jehad_os.Outcomes.Predicates.Canonical.{IsCanonical}
use jehad_os.Outcomes.Predicates.Stored.{json_number, stored, parse-stored, parse-IsCanonical_iff}
use jehad_os.Events.{
  EventIngestInput, EventEnvelope, EventStore, AcceptedEvent, envelope_of, find_key, insert_event,
  has_domain, accept_event,
}
use jehad_os.Events.Idempotence.{
  IsConsistent, same_store, accepted, accept_event-again, accept_event-IsConsistent,
}
use jehad_os.Commitments.{
  EligibleCommitment, is_in, is_code, code_char, code_of, given, bare_target, ref_target,
  commitment_ref_code, to_candidate, matches, normalized, resolve_commitment_target,
}
use jehad_os.Commitments.Eligibility.{
  collapse, normalize_label, matches_referent_labels, matches-blank,
}
use jehad_os.Commitments.Resolution.{target_id, Names, named, resolve-only, resolve-own_code}

predicates : Unit {0}
unfolding is_positive is_not_negative units can_go_on can_end domain_from is_domain lower_char
    to_lower all_upper is_ref is_outcome_status optional is_text is_one wait_source wait_subject
    number_where scoped narrowed parse_arrival parse_state_change parse_absence_past parse_threshold
    parse_typed parse_outcome_wait_predicate json_number stored
predicates = tt

abbrev raw_arrival : Unknown
raw_arrival = object λ k.
    if str_eq k "v"
    then number (finite false 1 0)
    else if str_eq k "type"
    then string "arrival"
    else if str_eq k "source"
    then string "gmail"
    else if str_eq k "fromDomain"
    then string "mail.example.com"
    else undefined

abbrev from_example : OutcomeWaitPredicate
from_example = arrival gmail (some "mail.example.com")

raw_arrival_parsed : parse_outcome_wait_predicate raw_arrival ≡ some from_example
unfolding predicates
raw_arrival_parsed = refl

parse-stored_example : parse_outcome_wait_predicate (stored from_example) ≡ some from_example
parse-stored_example = parse-stored raw_arrival from_example raw_arrival_parsed

parse-IsCanonical_iff_example :
    ((u : Unknown) × (parse_outcome_wait_predicate u ≡ some from_example))
    ↔ IsCanonical from_example
parse-IsCanonical_iff_example = parse-IsCanonical_iff from_example

store : Unit {0}
unfolding find_key insert_event has_domain accept_event
store = tt

abbrev key_for : String → String → String
key_for source external_id = external_id

abbrev created : EventIngestInput
created = record {
  kind = "outcome.created";
  source = "internal";
  external_id = "outcome-created:1";
  occurred_at = "2026-01-01T00:00:00.000Z";
  domain_id = "personal";
  sensitivity = "normal";
  payload = [];
}

abbrev empty_store : EventStore
empty_store = record { domains = "personal" ∷ []; events = []; outbox = [] }

abbrev created_envelope : EventEnvelope
created_envelope = envelope_of "outcome-created:1" "e1" "2026-01-01T00:00:01.000Z" created

abbrev created_store : EventStore
created_store = record {
  domains = "personal" ∷ [];
  events = created_envelope ∷ [];
  outbox = "e1" ∷ [];
}

abbrev first_time : AcceptedEvent
first_time = record { accepted = true; envelope = created_envelope }

created_accepted :
    accept_event key_for "e1" "2026-01-01T00:00:01.000Z" created empty_store
    ≡ ok (first_time, created_store)
unfolding store
created_accepted = refl

-- Another event, accepted in between.
abbrev unrelated : EventIngestInput
unrelated = record created { external_id = "outcome-created:2" }

abbrev other_result : AcceptedEvent
other_result = record {
  accepted = true;
  envelope = envelope_of "outcome-created:2" "e3" "2026-01-01T12:00:00.000Z" unrelated;
}

abbrev other_store : EventStore
unfolding store
other_store = (insert_event other_result.envelope none created_store).1

accept_event-again_example :
    accept_event key_for "e2" "2026-01-02T00:00:00.000Z" created other_store
    ≡ ok (record { accepted = false; envelope = created_envelope }, other_store)
unfolding store
accept_event-again_example =
    accept_event-again key_for "e1" "2026-01-01T00:00:01.000Z" "e2" "2026-01-02T00:00:00.000Z"
      created created empty_store created_store other_store first_time created_accepted
      (accepted same_store "e3" "2026-01-01T12:00:00.000Z" unrelated other_result refl) refl refl

accept_event-IsConsistent_example : IsConsistent created_store
accept_event-IsConsistent_example =
    accept_event-IsConsistent key_for "e1" "2026-01-01T00:00:01.000Z" created empty_store
      created_store first_time (tt, refl) created_accepted

targets : Unit {0}
unfolding trim trim_start trim_end keep_end is_in is_code code_char code_of given bare_target
    ref_target commitment_ref_code to_candidate matches normalized resolve_commitment_target
    target_id
targets = tt

abbrev digest : String → ℕ × ℕ
digest s = (17, 42)

abbrev as_it_is : String → String
as_it_is s = s

abbrev owed : EligibleCommitment
owed = record {
  id = "c1";
  direction = "i_owe";
  counterparty_text = "Sam";
  description = "send the draft";
  status = "open";
  domain_key = "personal";
}

owed_chosen : target_id (resolve_commitment_target digest as_it_is (owed ∷ []) none) ≡ some "c1"
unfolding targets
owed_chosen = refl

resolve-only_example :
    (item : EligibleCommitment) × (named digest as_it_is (owed ∷ []) none ≡ item ∷ [])
    × (item.id ≡ "c1")
resolve-only_example = resolve-only digest as_it_is (owed ∷ []) none "c1" owed_chosen

resolve-own_code_example : Names (commitment_ref_code digest as_it_is "c1") (
    resolve_commitment_target digest as_it_is
      (owed ∷ owed ∷ [])
      (some (commitment_ref_code digest as_it_is "c1")))
resolve-own_code_example =
    resolve-own_code digest as_it_is (owed ∷ owed ∷ []) 1 owed (λ s h. refl) refl

blank_description : normalize_label as_it_is " " ≡ ""
unfolding targets normalize_label collapse
blank_description = refl

matches-blank_example :
    matches_referent_labels as_it_is (record owed { description = " " }) ("rent" ∷ []) ≡ true
matches-blank_example =
    matches-blank as_it_is (record owed { description = " " }) ("rent" ∷ []) blank_description
