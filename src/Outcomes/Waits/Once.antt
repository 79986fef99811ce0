-- ===== src/Outcomes/Waits/Once.antt =====
-- packages/core/src/outcomes/service.ts: a wait is satisfied once.
use Prim.Native.String.{String, ◌++◌ as ◌+++◌}
use jehad_os.Prelude.{
  and_false, ℕ, suc, ◌≡◌, refl, ap, ◌∙◌, subst, Bool, true, false, Option, none, some, List, [],
  ◌∷◌, All, str_eq, Result, ok, err, ◌>>=◌, >>=-eq-ok, if◌then◌else◌,
}
use jehad_os.Prelude.Unknown.{Unknown}
use jehad_os.Events.{EventIngestInput, accept_event, AcceptedEvent, EventStore, DomainNotFoundError}
use jehad_os.Outcomes.Waits.{
  Date, OutcomeWait, SatisfiedWait, WaitDb, domain_missing, wait_event, wakes, is_waiting_id,
  find_waiting, mark_one, mark_satisfied, prepend, emit, claim, satisfy_row, satisfy_rows,
}

if_some-eq-none :
    (b : Bool) (first : String) {rest : Option String}
    → (if b then some first else rest) ≡ none
    → (b ≡ false) × (rest ≡ none)
if_some-eq-none true first h = cc
if_some-eq-none false first h = (refl, h)

abbrev marked : String → Bool → OutcomeWait → OutcomeWait
marked iso b w = if b then record w { waiting = false; satisfied_at = some iso } else w

-- A marked wait is not waiting, and marking never makes a wait waiting again.
marked-kept :
    (j iso : String) (w : OutcomeWait) (b : Bool)
    → is_waiting_id j w ≡ false
    → is_waiting_id j (marked iso b w) ≡ false
marked-kept j iso w true h = and_false (str_eq w.id j)
marked-kept j iso w false h = h

marked-own :
    (id iso : String) (w : OutcomeWait) (b : Bool)
    → is_waiting_id id w ≡ b
    → is_waiting_id id (marked iso b w) ≡ false
marked-own id iso w true h = and_false (str_eq w.id id)
marked-own id iso w false h = h

find_waiting-cons :
    (j : String) (w : OutcomeWait) (ws : List OutcomeWait)
    → is_waiting_id j w ≡ false
    → find_waiting j ws ≡ none
    → find_waiting j (w ∷ ws) ≡ none
unfolding find_waiting
find_waiting-cons j w ws h rest = rw (h, rest) refl

find_waiting-uncons :
    (j : String) (w : OutcomeWait) (ws : List OutcomeWait)
    → find_waiting j (w ∷ ws) ≡ none
    → (is_waiting_id j w ≡ false) × (find_waiting j ws ≡ none)
unfolding find_waiting
find_waiting-uncons j w ws h = if_some-eq-none (is_waiting_id j w) w.outcome_id h

no_wait : (j : String) → find_waiting j [] ≡ none
unfolding find_waiting
no_wait j = refl

emitted :
    (r : Result DomainNotFoundError (AcceptedEvent × EventStore)) (db after : WaitDb)
    → (elim r [
      | err e ↦ err domain_missing
      | ok a ↦ ok (record db { store = a.1; minted = suc db.minted })
    ])
      ≡ ok after
    → db.waits ≡ after.waits
emitted (err e) db after h = cc
emitted (ok a) db after h =
    let e : record db { store = a.1; minted = suc db.minted } ≡ after = cc in ap (λ d. d.waits) e

mark-settles :
    (id iso : String) (ws : List OutcomeWait) → find_waiting id (mark_satisfied id iso ws) ≡ none
unfolding mark_satisfied mark_one
mark-settles id iso [] = no_wait id
mark-settles id iso (w ∷ ws) =
    find_waiting-cons id (marked iso (is_waiting_id id w) w) (mark_satisfied id iso ws)
      (marked-own id iso w (is_waiting_id id w) refl) (mark-settles id iso ws)

mark-keeps :
    (j id iso : String) (ws : List OutcomeWait)
    → find_waiting j ws ≡ none
    → find_waiting j (mark_satisfied id iso ws) ≡ none
unfolding mark_satisfied mark_one
mark-keeps j id iso [] h = h
mark-keeps j id iso (w ∷ ws) h =
    let k = find_waiting-uncons j w ws h in
    find_waiting-cons j (marked iso (is_waiting_id id w) w) (mark_satisfied id iso ws)
      (marked-kept j iso w (is_waiting_id id w) k.0) (mark-keeps j id iso ws k.1)

module _ (idempotency_key_for : String → String → String) (mint : ℕ → String) where
  emit-waits :
      (input : EventIngestInput) (now : Date) (db after : WaitDb)
      → emit idempotency_key_for mint input now db ≡ ok after
      → db.waits ≡ after.waits
  unfolding emit
  emit-waits input now db after h =
      emitted (accept_event idempotency_key_for (mint db.minted) now.iso input db.store) db after h

  -- No wait with the id is waiting, in the database that a step leaves.
  abbrev Settles : String → WaitDb → WaitDb → Type 0
  Settles j db after = find_waiting j db.waits ≡ none → find_waiting j after.waits ≡ none

  claim-Settles :
      (row : OutcomeWait) (now : Date) (db after : WaitDb) (o : Option String)
      (w : Option SatisfiedWait)
      → find_waiting row.id db.waits ≡ o
      → claim idempotency_key_for mint row now db o ≡ ok (w, after)
      → (find_waiting row.id after.waits ≡ none) × ((j : String) → Settles j db after)
  unfolding claim
  claim-Settles row now db after none w f h =
      let e : db ≡ after = cc in
      (
        subst (λ x. find_waiting row.id x.waits ≡ none) e f,
        λ j k. subst (λ x. find_waiting j x.waits ≡ none) e k,
      )
  claim-Settles row now db after (some outcome_id) w f h =
      let next = record db { waits = mark_satisfied row.id now.iso db.waits } in
      let input =
        wait_event "outcome.wait_satisfied" ("outcome-wait-satisfied:" +++ row.id) row.id outcome_id
          now.iso in
      let a =
        >>=-eq-ok (emit idempotency_key_for mint input now next)
          (λ d. ok (some (record { wait_id = row.id; outcome_id = outcome_id }), d)) h in
      let e : a.0 ≡ after = cc in
      let waits = emit-waits input now next a.0 a.1 ∙ ap (λ d. d.waits) e in
      (
        subst (λ ws. find_waiting row.id ws ≡ none) waits (mark-settles row.id now.iso db.waits),
        λ j k.
            subst (λ ws. find_waiting j ws ≡ none) waits (mark-keeps j row.id now.iso db.waits k),
      )

  module _ (event_type : String) (payload : String → Unknown) (now : Date) where
    row-Settles :
        (b : Bool) (row : OutcomeWait) (db after : WaitDb) (w : Option SatisfiedWait)
        → (if b
            then claim idempotency_key_for mint row now db (find_waiting row.id db.waits)
            else ok (none, db))
          ≡ ok (w, after)
        → (b ≡ true → find_waiting row.id after.waits ≡ none) × ((j : String) → Settles j db after)
    row-Settles true row db after w h =
        let k = claim-Settles row now db after (find_waiting row.id db.waits) w refl h in
        (λ _. k.0, k.1)
    row-Settles false row db after w h =
        let e : db ≡ after = cc in (λ t. cc, λ j k. subst (λ x. find_waiting j x.waits ≡ none) e k)

    -- Of the rows that the event wakes, none is waiting any more.
    abbrev pub AreSettled : List OutcomeWait → WaitDb → Type 0
    AreSettled rows db =
        All (λ row. wakes event_type payload row ≡ true → find_waiting row.id db.waits ≡ none) rows

    rows-settle :
        (rows : List OutcomeWait) (db after : WaitDb) (ws : List SatisfiedWait)
        → satisfy_rows idempotency_key_for mint event_type payload now rows db ≡ ok (ws, after)
        → AreSettled rows after × ((j : String) → Settles j db after)
    unfolding satisfy_rows satisfy_row
    rows-settle [] db after ws h =
        let e : db ≡ after = cc in (tt, λ j k. subst (λ x. find_waiting j x.waits ≡ none) e k)
    rows-settle (row ∷ rows) db after ws h =
        let more = satisfy_rows idempotency_key_for mint event_type payload now rows in
        let a =
          >>=-eq-ok (satisfy_row idempotency_key_for mint event_type payload now row db)
            (λ first. more first.1 >>= λ rest. ok (prepend first.0 rest.0, rest.1)) h in
        let b = >>=-eq-ok (more a.0.1) (λ rest. ok (prepend a.0.0 rest.0, rest.1)) a.2 in
        let e : b.0.1 ≡ after = cc in
        let first = row-Settles (wakes event_type payload row) row db a.0.1 a.0.0 a.1 in
        let later = rows-settle rows a.0.1 b.0.1 b.0.0 b.1 in
        subst (λ x. AreSettled (row ∷ rows) x × ((j : String) → Settles j db x)) e
          ((λ t. later.1 row.id (first.0 t), later.0), λ j k. later.1 j (first.1 j k))

    row-idle :
        (b : Bool) (row : OutcomeWait) (db : WaitDb)
        → (b ≡ true → find_waiting row.id db.waits ≡ none)
        → (if b
            then claim idempotency_key_for mint row now db (find_waiting row.id db.waits)
            else ok (none, db))
          ≡ ok (none, db)
    unfolding claim
    row-idle true row db h = rw (h refl) refl
    row-idle false row db h = refl

    settled-idle :
        (rows : List OutcomeWait) (db : WaitDb)
        → AreSettled rows db
        → satisfy_rows idempotency_key_for mint event_type payload now rows db ≡ ok ([], db)
    unfolding satisfy_rows satisfy_row
    settled-idle [] db h = refl
    settled-idle (row ∷ rows) db h =
        rw (row-idle (wakes event_type payload row) row db h.0, settled-idle rows db h.1) refl

    -- Rows that were read are satisfied once: when an event's rows were worked through, a second
    -- delivery of the event that works through the same rows, as one that read them before the
    -- first was done, satisfies none of them and changes nothing.
    pub satisfy_rows-once :
        (rows : List OutcomeWait) (db after : WaitDb) (ws : List SatisfiedWait)
        → satisfy_rows idempotency_key_for mint event_type payload now rows db ≡ ok (ws, after)
        → satisfy_rows idempotency_key_for mint event_type payload now rows after ≡ ok ([], after)
    satisfy_rows-once rows db after ws h =
        settled-idle rows after (rows-settle rows db after ws h).0
