-- ===== src/Outcomes/Waits/Stalled.antt =====
-- packages/core/src/outcomes/service.ts: a wait whose event type its predicate never matches.
use Prim.Native.String.{String, ◌++◌ as ◌+++◌}
use jehad_os.Prelude.{
  ℕ, suc, ◌≡◌, refl, sym, ap, ◌∙◌, subst, Bool, true, false, ◌&&◌, and_false, any, str_eq, eq_iff,
  Bool-cases, inl, inr, Option, none, some, [], ◌∷◌, ◌++◌, ◌>>=◌, Result, ok,
}
use jehad_os.Prelude.Unknown.{Unknown}
use jehad_os.Events.{
  EventIngestInput, insert_event, envelope_of, find_key, has_domain, accept_event,
}
use jehad_os.Outcomes.Predicates.{
  WaitSource, OutcomeWaitPredicate, gmail, calendar, arrival, parse_outcome_wait_predicate,
  predicate_matches_event, is_matchable, is_outcome_wait_event_type,
}
use jehad_os.Outcomes.Predicates.Stored.{stored, parse-stored}
use jehad_os.Outcomes.Waits.{
  Date, OutcomeWait, CreatedWait, is_candidate, wakes, WaitDb, WaitError, wait_event, emit,
  insert_wait, create_outcome_wait,
}

-- The event type and the payload wake the row, where the router selects it.
abbrev pub is_woken : OutcomeWait → String → (String → Unknown) → ℕ → Bool
is_woken row event_type payload now =
    is_candidate event_type now row && wakes event_type payload row

never_matches :
    (s : WaitSource) (d : Option String) (payload : String → Unknown)
    → predicate_matches_event (arrival s d) "outcome.status_changed" payload ≡ false
unfolding predicate_matches_event
never_matches gmail d payload = refl
never_matches calendar d payload = refl

wakes-quiet :
    (row : OutcomeWait) (p : OutcomeWaitPredicate) (event_type : String)
    (payload : String → Unknown)
    → parse_outcome_wait_predicate row.predicate ≡ some p
    → predicate_matches_event p event_type payload ≡ false
    → wakes event_type payload row ≡ false
unfolding wakes
wakes-quiet row p event_type payload h k =
    ap (λ o. elim o [ none ↦ false | some q ↦ predicate_matches_event q event_type payload ]) h ∙ k

-- A waiting row for status changes that stores an accepted arrival predicate is never woken.
never_woken :
    (row : OutcomeWait) (s : WaitSource) (d : Option String)
    → row.event_type ≡ "outcome.status_changed"
    → parse_outcome_wait_predicate row.predicate ≡ some (arrival s d)
    → (event_type : String) (payload : String → Unknown) (now : ℕ)
    → is_woken row event_type payload now ≡ false
unfolding is_candidate
never_woken row s d t p event_type payload now =
    elim (Bool-cases (str_eq row.event_type event_type)) [
      | inl y ↦
          (let same : "outcome.status_changed" ≡ event_type =
              sym t ∙ (eq_iff row.event_type event_type).0 y in
            let quiet : predicate_matches_event (arrival s d) event_type payload ≡ false =
              subst (λ e. predicate_matches_event (arrival s d) e payload ≡ false) same
                (never_matches s d payload) in
            ap (λ b. is_candidate event_type now row && b)
              (wakes-quiet row (arrival s d) event_type payload p quiet)
            ∙ and_false (is_candidate event_type now row))
      | inr n ↦ rw (n, and_false row.waiting) refl
    ]

module _ (idempotency_key_for : String → String → String) (mint : ℕ → String) where
  emit-ok :
      (input : EventIngestInput) (now : Date) (db : WaitDb)
      → has_domain input.domain_id db.store.domains ≡ true
      → (after : WaitDb) × (emit idempotency_key_for mint input now db ≡ ok after)
        × (after.waits ≡ db.waits)
  unfolding emit accept_event
  emit-ok input now db h =
      let key = idempotency_key_for input.source input.external_id in
      let e = envelope_of key (mint db.minted) now.iso input in
      let r = insert_event e (find_key key db.store.events) db.store in
      (record db { store = r.1; minted = suc db.minted }, rw (h, emit) refl, refl)

  -- A wait for status changes on an outcome that exists, with any arrival predicate that the
  -- validation accepts, is created where the events' domain is seeded: the call returns and appends
  -- a waiting row with that event type, and no event of any type, at any time, selects and matches
  -- that row.
  pub create-never_matches :
      (wait_id outcome_id : String) (raw : Unknown) (now : Date) (expires : Option ℕ) (db : WaitDb)
      (s : WaitSource) (d : Option String)
      → parse_outcome_wait_predicate raw ≡ some (arrival s d)
      → any (λ id. str_eq id outcome_id) db.outcome_ids ≡ true
      → has_domain "personal" db.store.domains ≡ true
      → (created : CreatedWait) × (after : WaitDb) × (row : OutcomeWait) × (create_outcome_wait
            idempotency_key_for mint wait_id outcome_id "outcome.status_changed" raw now expires db
          ≡ ok (created, after))
        × (after.waits ≡ db.waits ++ row ∷ [])
        × (row.event_type ≡ "outcome.status_changed")
        × (row.waiting ≡ true)
        × ((event_type : String) (payload : String → Unknown) (at : ℕ)
            → is_woken row event_type payload at ≡ false)
  unfolding create_outcome_wait is_outcome_wait_event_type insert_wait is_matchable
  create-never_matches wait_id outcome_id raw now expires db s d parsed exists_ domain =
      let started =
        wait_event "outcome.wait_started" ("outcome-wait:" +++ wait_id) wait_id outcome_id
          now.iso in
      let row : OutcomeWait = record {
        id = wait_id;
        outcome_id = outcome_id;
        event_type = "outcome.status_changed";
        predicate = stored (arrival s d);
        expires_at = expires;
        waiting = true;
        satisfied_at = none;
      } in
      let written : WaitDb = record db { waits = db.waits ++ row ∷ [] } in
      let emitted = emit-ok started now written domain in
      let created : CreatedWait = record { wait_id = wait_id; predicate = arrival s d } in
      let finish : WaitDb → Result WaitError (CreatedWait × WaitDb) =
        λ next. ok (created, record next { audits = next.audits ++ "outcome.wait_started" ∷ [] }) in
      (
        created,
        record emitted.0 { audits = emitted.0.audits ++ "outcome.wait_started" ∷ [] },
        row,
        rw (parsed, exists_) (ap (λ r. r >>= finish) emitted.1),
        emitted.2,
        refl,
        refl,
        never_woken row s d refl (parse-stored raw (arrival s d) parsed),
      )
