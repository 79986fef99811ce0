-- ===== src/Events.antt =====
-- packages/core/src/events/store.ts: the accept path of the event store. A statement of the
-- database runs whole; a row of `events` is kept as its envelope, and a payload as its fields.
-- `idempotencyKeyFor` hashes by node:crypto and is a parameter, and so are the id that
-- `mintEventId` draws and the clock's text.
pub mod Idempotence
use Prim.Native.String.{String}
use jehad_os.Prelude.{
  Bool, true, false, not, Option, none, some, List, [], ◌∷◌, ◌++◌, str_eq, any, if◌then◌else◌,
  Result, ok, err, ◌>>=◌, throw_if,
}

pub record EventIngestInput : Type 0 where
  pub kind : String
  pub source : String
  pub external_id : String
  pub occurred_at : String
  pub domain_id : String
  pub sensitivity : String
  pub payload : List (String × String)

pub record EventEnvelope : Type 0 where
  pub id : String
  pub kind : String
  pub source : String
  pub occurred_at : String
  pub recorded_at : String
  pub domain_id : String
  pub idempotency_key : String
  pub sensitivity : String
  pub payload : List (String × String)

-- The tables `domains`, by their keys, `events`, and `outbox`, by the ids of its events.
pub record EventStore : Type 0 where
  pub domains : List String
  pub events : List EventEnvelope
  pub outbox : List String

pub record AcceptedEvent : Type 0 where
  pub accepted : Bool
  pub envelope : EventEnvelope

pub data DomainNotFoundError : Type 0 where
  domain_not_found : DomainNotFoundError

-- The row with an idempotency key.
unfoldable pub find_key : String → List EventEnvelope → Option EventEnvelope
find_key key [] = none
find_key key (e ∷ es) =
    let rest = find_key key es in if str_eq e.idempotency_key key then some e else rest

abbrev pub envelope_of : (key id now : String) → EventIngestInput → EventEnvelope
envelope_of key id now input = record {
  id = id;
  kind = input.kind;
  source = input.source;
  occurred_at = input.occurred_at;
  recorded_at = now;
  domain_id = input.domain_id;
  idempotency_key = key;
  sensitivity = input.sensitivity;
  payload = input.payload;
}

-- ACCEPT_SQL: the row and its pending outbox row, unless the key is there.
unfoldable pub insert_event :
    EventEnvelope → Option EventEnvelope → EventStore → AcceptedEvent × EventStore
insert_event e none s = (
  record { accepted = true; envelope = e },
  record s { events = s.events ++ e ∷ []; outbox = s.outbox ++ e.id ∷ [] },
)
insert_event e (some old) s = (record { accepted = false; envelope = old }, s)

unfoldable pub has_domain : String → List String → Bool
has_domain d domains = any (λ x. str_eq x d) domains

module _ (idempotency_key_for : (source external_id : String) → String) where
  unfoldable pub accept_event :
      (id now : String)
      → EventIngestInput
      → EventStore
      → Result DomainNotFoundError (AcceptedEvent × EventStore)
  unfolding find_key insert_event has_domain
  accept_event id now input s =
      throw_if (not (has_domain input.domain_id s.domains)) domain_not_found >>= λ _.
      let key = idempotency_key_for input.source input.external_id in
      ok (insert_event (envelope_of key id now input) (find_key key s.events) s)
