-- ===== src/Events/Idempotence.antt =====
-- packages/core/src/events/store.ts: one row for each key, one outbox row for each event.
use Prim.Native.String.{String}
use jehad_os.Prelude.{
  ◌≡◌, refl, ◌∙◌, ap, sym, subst, Bool, true, false, not, Option, none, some, List, [], ◌∷◌, ◌++◌,
  map, str_eq, eq_iff, if◌then◌else◌, ok, throw_if, >>=-eq-ok, All, All-append,
}
use jehad_os.Events.{
  EventIngestInput, EventEnvelope, EventStore, AcceptedEvent, domain_not_found, find_key,
  envelope_of, insert_event, has_domain, accept_event,
}

-- No two rows have one key.
abbrev HaveKeys : List EventEnvelope → Type 0
HaveKeys [] = Unit
HaveKeys (e ∷ es) = All (λ x. str_eq e.idempotency_key x.idempotency_key ≡ false) es × HaveKeys es

-- Keys are unique, and the outbox has the ids of the events in their order.
abbrev pub IsConsistent : EventStore → Type 0
IsConsistent s = HaveKeys s.events × (s.outbox ≡ map (λ e. e.id) s.events)

if_some-eq-none :
    (b : Bool) (e : EventEnvelope) {rest : Option EventEnvelope}
    → (if b then some e else rest) ≡ none
    → (b ≡ false) × (rest ≡ none)
if_some-eq-none true e h = cc
if_some-eq-none false e h = (refl, h)

find_key-append :
    (es : List EventEnvelope) (e : EventEnvelope)
    → find_key e.idempotency_key es ≡ none
    → find_key e.idempotency_key (es ++ e ∷ []) ≡ some e
unfolding find_key
find_key-append [] e h = rw ((eq_iff e.idempotency_key e.idempotency_key).1 refl) refl
find_key-append (x ∷ es) e h =
    let g = if_some-eq-none (str_eq x.idempotency_key e.idempotency_key) x h in
    rw (g.0, find_key-append es e g.1) refl

-- What is found is found with more rows behind.
find_key-kept :
    (key : String) (es more : List EventEnvelope) (old : EventEnvelope)
    → find_key key es ≡ some old
    → find_key key (es ++ more) ≡ some old
unfolding find_key
find_key-kept key [] more old h = cc
find_key-kept key (x ∷ es) more old h =
    if_some-kept (str_eq x.idempotency_key key) x (find_key-kept key es more old) h
  where
    if_some-kept :
        (b : Bool) (e : EventEnvelope) {rest longer : Option EventEnvelope}
        → (rest ≡ some old → longer ≡ some old)
        → (if b then some e else rest) ≡ some old
        → (if b then some e else longer) ≡ some old
    if_some-kept true e k h = h
    if_some-kept false e k h = k h

HaveKeys-append :
    (es : List EventEnvelope) (e : EventEnvelope)
    → HaveKeys es
    → find_key e.idempotency_key es ≡ none
    → HaveKeys (es ++ e ∷ [])
unfolding find_key
HaveKeys-append [] e k h = (tt, tt)
HaveKeys-append (x ∷ es) e k h =
    let g = if_some-eq-none (str_eq x.idempotency_key e.idempotency_key) x h in
    (
      All-append (λ y. str_eq x.idempotency_key y.idempotency_key ≡ false) es (e ∷ []) k.0
          (g.0, tt),
      HaveKeys-append es e k.1 g.1,
    )

map-append :
    (es : List EventEnvelope) (e : EventEnvelope)
    → map (λ x. x.id) (es ++ e ∷ []) ≡ map (λ x. x.id) es ++ e.id ∷ []
map-append [] e = refl
map-append (x ∷ es) e = ap (λ xs. x.id ∷ xs) (map-append es e)

module _ (e : EventEnvelope) (s : EventStore) where
  insert_event-found :
      (o : Option EventEnvelope)
      → find_key e.idempotency_key s.events ≡ o
      → find_key e.idempotency_key (insert_event e o s).1.events
        ≡ some (insert_event e o s).0.envelope
  unfolding insert_event
  insert_event-found none h = find_key-append s.events e h
  insert_event-found (some old) h = h

  insert_event-keeps :
      (o : Option EventEnvelope) (key : String) (old : EventEnvelope)
      → find_key key s.events ≡ some old
      → find_key key (insert_event e o s).1.events ≡ some old
  unfolding insert_event
  insert_event-keeps none key old h = find_key-kept key s.events (e ∷ []) old h
  insert_event-keeps (some x) key old h = h

  pub insert_event-domains : (o : Option EventEnvelope) → (insert_event e o s).1.domains ≡ s.domains
  unfolding insert_event
  insert_event-domains none = refl
  insert_event-domains (some old) = refl

  insert_event-IsConsistent :
      (o : Option EventEnvelope)
      → find_key e.idempotency_key s.events ≡ o
      → IsConsistent s
      → IsConsistent (insert_event e o s).1
  unfolding insert_event
  insert_event-IsConsistent none h c = (
    HaveKeys-append s.events e c.0 h,
    ap (λ xs. xs ++ e.id ∷ []) c.1 ∙ sym (map-append s.events e),
  )
  insert_event-IsConsistent (some old) h c = c

module _ (idempotency_key_for : String → String → String) where
  -- A store that acceptances lead to, in any number and with any results, between steps that leave
  -- the rows of events as they are.
  pub data Later (s : EventStore) : EventStore → Type 0 where
    same_store : Later s s
    accepted :
        {t u : EventStore}
        → Later s t
        → (id now : String) (input : EventIngestInput) (a : AcceptedEvent)
        → accept_event idempotency_key_for id now input t ≡ ok (a, u)
        → Later s u
    otherwise : {t u : EventStore} → Later s t → u.events ≡ t.events → Later s u

  accept_event-insert :
      (id now : String) (input : EventIngestInput) (s t : EventStore) (a : AcceptedEvent)
      → accept_event idempotency_key_for id now input s ≡ ok (a, t)
      → (e : EventEnvelope) × (e.idempotency_key
          ≡ idempotency_key_for input.source input.external_id)
        × (insert_event e (find_key e.idempotency_key s.events) s ≡ (a, t))
  unfolding accept_event
  accept_event-insert id now input s t a h =
      let key = idempotency_key_for input.source input.external_id in
      let e = envelope_of key id now input in
      let step =
        >>=-eq-ok (throw_if (not (has_domain input.domain_id s.domains)) domain_not_found)
          (λ _. ok (insert_event e (find_key key s.events) s)) h in
      (e, refl, cc)

  Later-found :
      (key : String) (old : EventEnvelope) {s t : EventStore}
      → Later s t
      → find_key key s.events ≡ some old
      → find_key key t.events ≡ some old
  Later-found key old same_store h = h
  Later-found key old (accepted {t} {u} before id now input a r) h =
      let x = accept_event-insert id now input t u a r in
      subst (λ y. find_key key y.1.events ≡ some old) x.2
        (insert_event-keeps x.0 t (find_key x.0.idempotency_key t.events) key old
          (Later-found key old before h))
  Later-found key old (otherwise before e) h =
      ap (λ es. find_key key es) e ∙ Later-found key old before h

  -- Once an event was accepted, every later delivery with its key to a domain that exists then is
  -- answered with the first envelope, marked as not accepted, and changes nothing, whatever was
  -- accepted in between, where the rows of events are changed by acceptances only.
  pub accept_event-again :
      (id now id2 now2 : String) (input again : EventIngestInput) (s t u : EventStore)
      (a : AcceptedEvent)
      → accept_event idempotency_key_for id now input s ≡ ok (a, t)
      → Later t u
      → idempotency_key_for again.source again.external_id
        ≡ idempotency_key_for input.source input.external_id
      → has_domain again.domain_id u.domains ≡ true
      → accept_event idempotency_key_for id2 now2 again u
        ≡ ok (record { accepted = false; envelope = a.envelope }, u)
  unfolding accept_event insert_event
  accept_event-again id now id2 now2 input again s t u a h later same d =
      let key = idempotency_key_for input.source input.external_id in
      let x = accept_event-insert id now input s t a h in
      let first : find_key x.0.idempotency_key t.events ≡ some a.envelope =
        subst (λ y. find_key x.0.idempotency_key y.1.events ≡ some y.0.envelope) x.2
          (insert_event-found x.0 s (find_key x.0.idempotency_key s.events) refl) in
      let found : find_key key u.events ≡ some a.envelope =
        Later-found key a.envelope later
          (subst (λ k. find_key k t.events ≡ some a.envelope) x.1 first) in
      rw (d, same, found) refl

  -- Accepting keeps the keys unique and the outbox in step with the events.
  pub accept_event-IsConsistent :
      (id now : String) (input : EventIngestInput) (s t : EventStore) (a : AcceptedEvent)
      → IsConsistent s
      → accept_event idempotency_key_for id now input s ≡ ok (a, t)
      → IsConsistent t
  unfolding accept_event
  accept_event-IsConsistent id now input s t a c h =
      let key = idempotency_key_for input.source input.external_id in
      let e = envelope_of key id now input in
      let o = find_key key s.events in
      let step =
        >>=-eq-ok (throw_if (not (has_domain input.domain_id s.domains)) domain_not_found)
          (λ _. ok (insert_event e o s)) h in
      let r : insert_event e o s ≡ (a, t) = cc in
      subst (λ x. IsConsistent x.1) r (insert_event-IsConsistent e s o refl c)
