-- ===== src/Outcomes/Waits.antt =====
-- packages/core/src/outcomes/service.ts: durable waits, their creation and their satisfaction by
-- an event. A statement of the database runs whole; an audit entry is kept as its action, an
-- event's payload as the ids in it, and what a call that throws leaves behind is not kept.
pub mod Once
pub mod Stalled
use Prim.Native.String.{String, ◌++◌ as ◌+++◌}
use jehad_os.Prelude.{
  ℕ, suc, ◌+◌, Bool, true, false, not, ◌&&◌, ◌||◌, Option, none, some, List, [], ◌∷◌, ◌++◌, map,
  filter, any, str_eq, ltb, if◌then◌else◌, Result, ok, err, ◌>>=◌, throw_if,
}
use jehad_os.Prelude.Unknown.{Unknown}
use jehad_os.Events.{EventIngestInput, EventStore, accept_event}
use jehad_os.Outcomes.Predicates.{
  OutcomeWaitPredicate, parse_outcome_wait_predicate, predicate_matches_event, is_matchable,
  is_outcome_wait_event_type,
}
use jehad_os.Outcomes.Predicates.Stored.{stored}

-- A Date: its milliseconds, and the text of `toISOString`.
pub record Date : Type 0 where
  pub ms : ℕ
  pub iso : String

pub record OutcomeWait : Type 0 where
  pub id : String
  pub outcome_id : String
  pub event_type : String
  pub predicate : Unknown
  pub expires_at : Option ℕ
  pub waiting : Bool
  pub satisfied_at : Option String

pub record SatisfiedWait : Type 0 where
  pub wait_id : String
  pub outcome_id : String

pub record CreatedWait : Type 0 where
  pub wait_id : String
  pub predicate : OutcomeWaitPredicate

-- `outcome_ids` has the keys of the table `outcomes`. `minted` counts the event ids that were drawn.
pub record WaitDb : Type 0 where
  pub outcome_ids : List String
  pub waits : List OutcomeWait
  pub store : EventStore
  pub audits : List String
  pub minted : ℕ

-- `outcome_missing` is the violated FOREIGN KEY of a wait.
pub data WaitError : Type 0 where
  unsupported_event predicate_rejected no_matcher outcome_missing domain_missing : WaitError

abbrev pub wait_event : (kind external_id wait_id outcome_id iso : String) → EventIngestInput
wait_event kind external_id wait_id outcome_id iso = record {
  kind = kind;
  source = "internal";
  external_id = external_id;
  occurred_at = iso;
  domain_id = "personal";
  sensitivity = "normal";
  payload = ("outcomeId", outcome_id) ∷ (("waitId", wait_id) ∷ []);
}

-- `w.expires_at IS NULL OR w.expires_at > now`
abbrev unexpired : ℕ → Option ℕ → Bool
unexpired now none = true
unexpired now (some at) = ltb now at

unfoldable pub is_candidate : String → ℕ → OutcomeWait → Bool
is_candidate event_type now w =
    w.waiting && (str_eq w.event_type event_type && unexpired now w.expires_at)

unfoldable pub wakes : String → (String → Unknown) → OutcomeWait → Bool
unfolding parse_outcome_wait_predicate predicate_matches_event
wakes event_type payload w = elim (parse_outcome_wait_predicate w.predicate) [
  | none ↦ false
  | some p ↦ predicate_matches_event p event_type payload
]

abbrev pub is_waiting_id : String → OutcomeWait → Bool
is_waiting_id id w = str_eq w.id id && w.waiting

-- The row that the compare-and-set returns: a wait with the id that is still waiting.
unfoldable pub find_waiting : String → List OutcomeWait → Option String
find_waiting id [] = none
find_waiting id (w ∷ ws) =
    let rest = find_waiting id ws in if is_waiting_id id w then some w.outcome_id else rest

unfoldable pub mark_one : String → String → OutcomeWait → OutcomeWait
mark_one id iso w =
    if is_waiting_id id w then record w { waiting = false; satisfied_at = some iso } else w

unfoldable pub mark_satisfied : String → String → List OutcomeWait → List OutcomeWait
unfolding mark_one
mark_satisfied id iso [] = []
mark_satisfied id iso (w ∷ ws) = mark_one id iso w ∷ mark_satisfied id iso ws

abbrev prepend : Option SatisfiedWait → List SatisfiedWait → List SatisfiedWait
prepend none ws = ws
prepend (some w) ws = w ∷ ws

module _ (idempotency_key_for : (source external_id : String) → String) (mint : ℕ → String) where
  -- An event of the outcome service, accepted.
  unfoldable pub emit : EventIngestInput → Date → WaitDb → Result WaitError WaitDb
  unfolding accept_event
  emit input now db =
      elim (accept_event idempotency_key_for (mint db.minted) now.iso input db.store) [
        | err e ↦ err domain_missing
        | ok r ↦ ok (record db { store = r.1; minted = suc db.minted })
      ]

  unfoldable pub insert_wait :
      (wait_id outcome_id event_type : String)
      → Date
      → Option ℕ
      → WaitDb
      → Option OutcomeWaitPredicate
      → Result WaitError (CreatedWait × WaitDb)
  unfolding is_matchable stored emit
  insert_wait wait_id outcome_id event_type now expires db none = err predicate_rejected
  insert_wait wait_id outcome_id event_type now expires db (some p) =
      throw_if (not (is_matchable p)) no_matcher >>= λ _.
      throw_if (not (any (λ id. str_eq id outcome_id) db.outcome_ids)) outcome_missing >>= λ _.
      emit
        (wait_event "outcome.wait_started" ("outcome-wait:" +++ wait_id) wait_id outcome_id now.iso)
        now
        (record db {
          waits =
              db.waits
              ++ record {
                id = wait_id;
                outcome_id = outcome_id;
                event_type = event_type;
                predicate = stored p;
                expires_at = expires;
                waiting = true;
                satisfied_at = none;
              }
                ∷ [];
        })
      >>= λ next. ok (
        record { wait_id = wait_id; predicate = p },
        record next { audits = next.audits ++ "outcome.wait_started" ∷ [] },
      )

  unfoldable pub create_outcome_wait :
      (wait_id outcome_id event_type : String)
      → Unknown
      → Date
      → Option ℕ
      → WaitDb
      → Result WaitError (CreatedWait × WaitDb)
  unfolding is_outcome_wait_event_type parse_outcome_wait_predicate insert_wait
  create_outcome_wait wait_id outcome_id event_type raw now expires db =
      throw_if (not (is_outcome_wait_event_type event_type)) unsupported_event >>= λ _.
      insert_wait wait_id outcome_id event_type now expires db (parse_outcome_wait_predicate raw)

  -- A claimed row: the wait is marked and its event is emitted.
  unfoldable pub claim :
      OutcomeWait → Date → WaitDb → Option String → Result WaitError (Option SatisfiedWait × WaitDb)
  unfolding mark_satisfied emit
  claim row now db none = ok (none, db)
  claim row now db (some outcome_id) =
      emit
        (wait_event "outcome.wait_satisfied" ("outcome-wait-satisfied:" +++ row.id) row.id
          outcome_id now.iso)
        now (record db { waits = mark_satisfied row.id now.iso db.waits })
      >>= λ next. ok (some (record { wait_id = row.id; outcome_id = outcome_id }), next)

  unfoldable pub satisfy_row :
      String
      → (String → Unknown)
      → Date
      → OutcomeWait
      → WaitDb
      → Result WaitError (Option SatisfiedWait × WaitDb)
  unfolding wakes find_waiting claim
  satisfy_row event_type payload now row db =
      if wakes event_type payload row
      then claim row now db (find_waiting row.id db.waits)
      else ok (none, db)

  -- The loop over the rows that were read.
  unfoldable pub satisfy_rows :
      String
      → (String → Unknown)
      → Date
      → List OutcomeWait
      → WaitDb
      → Result WaitError (List SatisfiedWait × WaitDb)
  unfolding satisfy_row
  satisfy_rows event_type payload now [] db = ok ([], db)
  satisfy_rows event_type payload now (row ∷ rows) db =
      satisfy_row event_type payload now row db >>= λ first.
      satisfy_rows event_type payload now rows first.1 >>= λ rest.
      ok (prepend first.0 rest.0, rest.1)

  unfoldable pub audited : List SatisfiedWait → WaitDb → WaitDb
  audited [] db = db
  audited (w ∷ ws) db = record db { audits = db.audits ++ "outcome.waits_satisfied" ∷ [] }

  unfoldable pub satisfy_waits_for_event :
      String → (String → Unknown) → Date → WaitDb → Result WaitError (List SatisfiedWait × WaitDb)
  unfolding is_outcome_wait_event_type is_candidate satisfy_rows audited
  satisfy_waits_for_event event_type payload now db =
      if is_outcome_wait_event_type event_type
      then (satisfy_rows event_type payload now (filter (is_candidate event_type now.ms) db.waits)
            db
          >>= λ r. ok (r.0, audited r.0 r.1))
      else ok ([], db)
