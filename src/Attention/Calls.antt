-- ===== src/Attention/Calls.antt =====
-- packages/core/src/attention/service.ts: the operations as calls, in any order, and what holds of
-- the table after them.
use Prim.Native.String.{String}
use jehad_os.Prelude.{
  ℕ, suc, Bool, true, ◌&&◌, ◌≡◌, refl, subst, Option, none, some, List, [], ◌∷◌, Result, ok, err,
  ◌>>=◌, >>=-eq-ok,
}
use jehad_os.Prelude.Unknown.{Number}
use jehad_os.Outcomes.Waits.{Date}
use jehad_os.Attention.{
  AttentionSourceType, AttentionResolvedBy, AttentionError, still_running, AttentionItemRow,
  AttentionDb,
}
use jehad_os.Attention.Occurrences.{OpenAttentionInput, with_id}
use jehad_os.Attention.Writes.{open_or_bump_or_reopen}
use jehad_os.Attention.Owner.{mark_seen, snooze_attention, resolve_attention, dismiss_attention}
use jehad_os.Attention.Closing.{resolve_attention_by_source}
use jehad_os.Attention.Reopening.{reopen_attention_by_owner}
use jehad_os.Attention.Sweep.{Registry, SweepResult, liveness_sweep}
use jehad_os.Attention.Delivery.{
  attempted_row, stamped_row, is_before, mark_delivery_attempted, stamp_attention_delivered,
}
use jehad_os.Attention.Table.{All-of}
use jehad_os.Attention.Machine.{Edit, attempts, delivers, updates, one}
use jehad_os.Attention.Machine.Rows.{IsSound, Statements-IsSound}
use jehad_os.Attention.Effects.{
  Ran, mark_seen-Ran, snooze_attention-Ran, resolve_attention-Ran, dismiss_attention-Ran,
}
use jehad_os.Attention.Effects.Sweeps.{by_source-Ran, liveness_sweep-Ran}
use jehad_os.Attention.Effects.Undoes.{reopen_by_owner-Ran}
use jehad_os.Attention.Effects.Upserts.{open-Ran}

pub data Call : Type 0 where
  open_call : OpenAttentionInput → Call
  see_call : (principal_id id : String) → Call
  snooze_call : (principal_id id : String) → Number → Call
  resolve_call : (principal_id id : String) → AttentionResolvedBy → Option String → Call
  dismiss_call : (principal_id id : String) → Call
  reopen_call : (principal_id id : String) → Call
  source_call :
      (principal_id : String)
      → AttentionSourceType
      → (source_object_id : String) → Option String
      → AttentionResolvedBy
      → String
      → Call
  sweep_call : (rounds limit : ℕ) → Call
  attempt_call : (id : String) → Call
  delivered_call : (id : String) → Call

-- The database that a call leaves.
abbrev left_by :
    {A : Type 0} → Result AttentionError (A × AttentionDb) → Result AttentionError AttentionDb
left_by r = r >>= λ x. ok x.1

abbrev swept_db :
    Result AttentionError (Option (SweepResult × AttentionDb)) → Result AttentionError AttentionDb
swept_db r = r >>= λ o. elim o [ none ↦ err still_running | some x ↦ ok x.1 ]

left_by-ok :
    {A : Type 0} (r : Result AttentionError (A × AttentionDb)) (after : AttentionDb)
    → left_by r ≡ ok after
    → (a : A) × (r ≡ ok (a, after))
left_by-ok r after h =
    let s = >>=-eq-ok r (λ x. ok x.1) h in
    let e : s.0.1 ≡ after = cc in (s.0.0, subst (λ d. r ≡ ok (s.0.0, d)) e s.1)

mark_delivery_attempted-Ran :
    (id : String) (now : ℕ) (db : AttentionDb) → Ran db (mark_delivery_attempted id now db)
unfolding mark_delivery_attempted
mark_delivery_attempted-Ran id now db = one (
    updates (with_id id) (attempted_row now) (
      All-of (λ row. with_id id row ≡ true → Edit row (attempted_row now row)) db.items
        (λ row t. attempts now)))

stamp_attention_delivered-Ran :
    (id : String) (now : ℕ) (db : AttentionDb) → Ran db (stamp_attention_delivered id now db).1
unfolding stamp_attention_delivered
stamp_attention_delivered-Ran id now db =
    let p : AttentionItemRow → Bool =
      λ row. with_id id row && is_before now row.last_delivered_at in
    one (
      updates p (stamped_row now) (
        All-of (λ row. p row ≡ true → Edit row (stamped_row now row)) db.items
          (λ row t. delivers now)))

module _ (idempotency_key_for : (source external_id : String) → String) (mint : ℕ → String)
    (local_hour : ℕ → ℕ) (minutes_ms : Number → ℕ) (resolvers : Registry)
    (interfere : ℕ → AttentionDb → AttentionDb) where
  unfoldable pub step : Date → Call → AttentionDb → Result AttentionError AttentionDb
  unfolding mark_seen snooze_attention resolve_attention dismiss_attention
      resolve_attention_by_source reopen_attention_by_owner liveness_sweep open_or_bump_or_reopen
      mark_delivery_attempted stamp_attention_delivered
  step now (open_call input) db =
      left_by (open_or_bump_or_reopen idempotency_key_for mint local_hour interfere input now db)
  step now (see_call principal_id id) db = ok (mark_seen principal_id id now.ms db).1
  step now (snooze_call principal_id id minutes) db =
      left_by (snooze_attention minutes_ms principal_id id minutes now.ms db)
  step now (resolve_call principal_id id by reason) db =
      left_by (resolve_attention idempotency_key_for mint principal_id id by reason now db)
  step now (dismiss_call principal_id id) db =
      left_by (dismiss_attention idempotency_key_for mint principal_id id now db)
  step now (reopen_call principal_id id) db =
      left_by
        (reopen_attention_by_owner idempotency_key_for mint (interfere 0) principal_id id now db)
  step now (source_call principal_id source_type source_object_id fingerprint by reason) db =
      left_by (
        resolve_attention_by_source idempotency_key_for mint principal_id source_type
          source_object_id fingerprint by reason now db)
  step now (sweep_call rounds limit) db =
      swept_db (liveness_sweep idempotency_key_for mint resolvers interfere rounds limit now db)
  step now (attempt_call id) db = ok (mark_delivery_attempted id now.ms db)
  step now (delivered_call id) db = ok (stamp_attention_delivered id now.ms db).1

  module _ (others : (n : ℕ) (d : AttentionDb) → Ran d (interfere n d)) where
    swept-Ran :
        (rounds limit : ℕ) (now : Date) (db after : AttentionDb)
        (r : Result AttentionError (Option (SweepResult × AttentionDb)))
        → liveness_sweep idempotency_key_for mint resolvers interfere rounds limit now db ≡ r
        → swept_db r ≡ ok after
        → Ran db after
    swept-Ran rounds limit now db after (err e) k h = cc
    swept-Ran rounds limit now db after (ok none) k h = cc
    swept-Ran rounds limit now db after (ok (some x)) k h =
        let e : x.1 ≡ after = cc in
        subst (λ d. Ran db d) e
          (liveness_sweep-Ran idempotency_key_for mint resolvers interfere others rounds limit now
            db x.1 x.0 k)

    -- Every call runs statements, others' between them included.
    pub step-Ran :
        (now : Date) (c : Call) (db after : AttentionDb)
        → IsSound db.items
        → step now c db ≡ ok after
        → Ran db after
    unfolding step
    step-Ran now (open_call input) db after k h =
        let r =
          left_by-ok
            (open_or_bump_or_reopen idempotency_key_for mint local_hour interfere input now db)
            after h in
        open-Ran idempotency_key_for mint local_hour input interfere others now db after r.0 k r.1
    step-Ran now (see_call principal_id id) db after k h =
        let e : (mark_seen principal_id id now.ms db).1 ≡ after = cc in
        subst (λ d. Ran db d) e (mark_seen-Ran principal_id id now.ms db)
    step-Ran now (snooze_call principal_id id minutes) db after k h =
        let r =
          left_by-ok (snooze_attention minutes_ms principal_id id minutes now.ms db) after h in
        snooze_attention-Ran principal_id id minutes_ms minutes now.ms db after r.0 r.1
    step-Ran now (resolve_call principal_id id by reason) db after k h =
        let r =
          left_by-ok (resolve_attention idempotency_key_for mint principal_id id by reason now db)
            after h in
        resolve_attention-Ran principal_id id idempotency_key_for mint by reason now db after r.0
          r.1
    step-Ran now (dismiss_call principal_id id) db after k h =
        let r =
          left_by-ok (dismiss_attention idempotency_key_for mint principal_id id now db) after h in
        dismiss_attention-Ran principal_id id idempotency_key_for mint now db after r.0 r.1
    step-Ran now (reopen_call principal_id id) db after k h =
        let r =
          left_by-ok
            (reopen_attention_by_owner idempotency_key_for mint (interfere 0) principal_id id now
              db)
            after h in
        reopen_by_owner-Ran idempotency_key_for mint (interfere 0) (others 0) principal_id id now db
          after r.0 r.1
    step-Ran now (source_call principal_id source_type source_object_id fingerprint by reason) db
          after k h =
        let r =
          left_by-ok
            (resolve_attention_by_source idempotency_key_for mint principal_id source_type
              source_object_id fingerprint by reason now db)
            after h in
        by_source-Ran idempotency_key_for mint principal_id source_type source_object_id fingerprint
          by reason now db after r.0 r.1
    step-Ran now (sweep_call rounds limit) db after k h =
        swept-Ran rounds limit now db after
          (liveness_sweep idempotency_key_for mint resolvers interfere rounds limit now db) refl h
    step-Ran now (attempt_call id) db after k h =
        let e : mark_delivery_attempted id now.ms db ≡ after = cc in
        subst (λ d. Ran db d) e (mark_delivery_attempted-Ran id now.ms db)
    step-Ran now (delivered_call id) db after k h =
        let e : (stamp_attention_delivered id now.ms db).1 ≡ after = cc in
        subst (λ d. Ran db d) e (stamp_attention_delivered-Ran id now.ms db)

module _ (idempotency_key_for : (source external_id : String) → String) (mint : ℕ → String)
    (local_hour : ℕ → ℕ) (minutes_ms : Number → ℕ) (resolvers : Registry)
    (interfere : (call moment : ℕ) → AttentionDb → AttentionDb)
    (pause : ℕ → AttentionDb → AttentionDb) where
  -- The calls from a number on. Before each and after the last one, others have a pause for their
  -- statements, and `interfere` is what they did at the moments of a call.
  unfoldable pub run :
      (call : ℕ) → List (Date × Call) → AttentionDb → Result AttentionError AttentionDb
  unfolding step
  run call [] db = ok (pause call db)
  run call (c ∷ calls) db =
      step idempotency_key_for mint local_hour minutes_ms resolvers (interfere call) c.0 c.1
        (pause call db)
      >>= run (suc call) calls

  -- If the table is sound, it is sound after any calls that return, whatever statements of these
  -- operations other transactions run before, after and between the calls, and at the moments of a
  -- call: rows are well formed, and there is at most one for each id and one for each principal,
  -- source, object and fingerprint. The moments are those between the statements that read or write
  -- the items, where no lock holds the row that was read: before the inserts and the second read of
  -- openOrBumpOrReopen, before the update of reopenAttentionByOwner, and before each statement of
  -- livenessSweep but the first.
  pub run-IsSound :
      (calls : List (Date × Call)) (call : ℕ) (db after : AttentionDb)
      → ((n moment : ℕ) (d : AttentionDb) → Ran d (interfere n moment d))
      → ((n : ℕ) (d : AttentionDb) → Ran d (pause n d))
      → IsSound db.items
      → run call calls db ≡ ok after
      → IsSound after.items
  unfolding run
  run-IsSound [] call db after others waits k h =
      let e : pause call db ≡ after = cc in
      subst (λ d. IsSound d.items) e
        (Statements-IsSound db.items (pause call db).items (waits call db) k)
  run-IsSound (c ∷ calls) call db after others waits k h =
      let here = pause call db in
      let sound = Statements-IsSound db.items here.items (waits call db) k in
      let s =
        >>=-eq-ok
          (step idempotency_key_for mint local_hour minutes_ms resolvers (interfere call) c.0 c.1
            here)
          (run (suc call) calls) h in
      run-IsSound calls (suc call) s.0 after others waits
        (Statements-IsSound here.items s.0.items
          (step-Ran idempotency_key_for mint local_hour minutes_ms resolvers (interfere call)
            (others call) c.0 c.1 here s.0 sound s.1)
          sound)
        s.2
