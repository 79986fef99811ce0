-- ===== src/Tests/Waits.antt =====
-- A wait that one event satisfies, and a second delivery of the event.
use Prim.Native.String.{String}
use jehad_os.Prelude.{
  ℕ, ◌≡◌, refl, true, false, none, some, List, [], ◌∷◌, str_eq, ok, if◌then◌else◌,
}
use jehad_os.Prelude.Unknown.{Unknown, undefined, string}
use jehad_os.Events.{find_key, insert_event, has_domain, accept_event}
use jehad_os.Outcomes.Predicates.{
  gmail, arrival, can_go_on, can_end, domain_from, is_domain, lower_char, to_lower, optional,
  is_text, is_one, wait_source, scoped, parse_arrival, parse_typed, parse_outcome_wait_predicate,
  agrees, predicate_matches_event, is_matchable, is_outcome_wait_event_type,
}
use jehad_os.Outcomes.Predicates.Stored.{stored}
use jehad_os.Outcomes.Waits.{
  Date, OutcomeWait, CreatedWait, SatisfiedWait, WaitDb, is_candidate, wakes, find_waiting,
  mark_one, mark_satisfied, emit, insert_wait, create_outcome_wait, claim, satisfy_row,
  satisfy_rows, audited, satisfy_waits_for_event,
}
use jehad_os.Outcomes.Waits.Stalled.{is_woken, create-never_matches}
use jehad_os.Outcomes.Waits.Once.{satisfy_rows-once}

waits : Unit {0}
unfolding find_key insert_event has_domain accept_event can_go_on can_end domain_from is_domain
    lower_char to_lower optional is_text is_one wait_source scoped parse_arrival parse_typed
    parse_outcome_wait_predicate agrees predicate_matches_event is_matchable
    is_outcome_wait_event_type stored is_candidate wakes find_waiting mark_one mark_satisfied emit
    insert_wait create_outcome_wait claim satisfy_row satisfy_rows audited satisfy_waits_for_event
waits = tt

abbrev key_for : String → String → String
key_for source external_id = external_id

abbrev mint : ℕ → String
mint n = "event"

abbrev today : Date
today = record { ms = 1000; iso = "1970-01-01T00:00:01.000Z" }

abbrev mail_wait : OutcomeWait
mail_wait = record {
  id = "w1";
  outcome_id = "o1";
  event_type = "gmail.message.received";
  predicate = stored (arrival gmail (some "example.com"));
  expires_at = some 2000;
  waiting = true;
  satisfied_at = none;
}

abbrev payload : String → Unknown
payload k = if str_eq k "fromDomain" then string "example.com" else undefined

abbrev waiting_db : WaitDb
waiting_db = record {
  outcome_ids = "o1" ∷ [];
  waits = mail_wait ∷ [];
  store = record { domains = "personal" ∷ []; events = []; outbox = [] };
  audits = [];
  minted = 0;
}

abbrev woken : List SatisfiedWait
woken = record { wait_id = "w1"; outcome_id = "o1" } ∷ []

mail_wakes :
    (after : WaitDb) × (satisfy_rows key_for mint "gmail.message.received" payload today
        (mail_wait ∷ [])
        waiting_db
      ≡ ok (woken, after))
unfolding waits
mail_wakes = (_, refl)

routed :
    (after : WaitDb) × (satisfy_waits_for_event key_for mint "gmail.message.received" payload today
        waiting_db
      ≡ ok (woken, after))
unfolding waits
routed = (_, refl)

satisfy_rows-once_example :
    satisfy_rows key_for mint "gmail.message.received" payload today (mail_wait ∷ []) mail_wakes.0
    ≡ ok ([], mail_wakes.0)
satisfy_rows-once_example =
    satisfy_rows-once key_for mint "gmail.message.received" payload today (mail_wait ∷ [])
      waiting_db mail_wakes.0 woken mail_wakes.1

create-never_matches_example :
    (created : CreatedWait) × (after : WaitDb) × (row : OutcomeWait) × (create_outcome_wait key_for
        mint "w2" "o1" "outcome.status_changed"
        (stored (arrival gmail (some "example.com")))
        today
        none
        waiting_db
      ≡ ok (created, after))
    × (after.waits ≡ mail_wait ∷ row ∷ [])
    × (row.event_type ≡ "outcome.status_changed")
    × (row.waiting ≡ true)
    × ((event_type : String) (event : String → Unknown) (at : ℕ)
        → is_woken row event_type event at ≡ false)
unfolding waits
create-never_matches_example =
    create-never_matches key_for mint "w2" "o1" (stored (arrival gmail (some "example.com"))) today
      none waiting_db gmail (some "example.com") refl refl refl
