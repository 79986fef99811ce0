-- ===== src/Attention/Sweep.antt =====
-- packages/core/src/attention/service.ts and resolvers.ts: the liveness sweep, and the registry of
-- resolvers that it asks. A resolver reads tables of its own. The source's `for (;;)` runs here for
-- as many rounds as it is given. The sweep is no transaction: `interfere` is what others did before
-- each of its statements but the first, which are the read of the rows (moment 0), the close for
-- each row, and each chunk of deletes.
pub mod Collect
pub mod Wakes
use Prim.Native.String.{String}
use jehad_os.Prelude.{
  ◌++◌, ℕ, zero, suc, ◌+◌, ◌*◌, Bool, true, false, not, ◌&&◌, Option, none, some, List, [], ◌∷◌,
  filter, take, length, str_eq, ltb, leb, if◌then◌else◌, Result, ok, err, ◌>>=◌, and_then,
}
use jehad_os.Outcomes.Waits.{Date}
use jehad_os.Attention.{
  AttentionSourceType, watch, outcome, system, open_, liveness, AttentionItemRow, AttentionError,
  AttentionDb, source_text, is_live, is_snoozed, update_where, returning,
}
use jehad_os.Attention.Listing.{order_by, raised_before, is_due}
use jehad_os.Attention.Closing.{audit_some, resolve_attention_by_source}

pub data AttentionLiveness : Type 0 where
  live gone unknown : AttentionLiveness

abbrev pub AttentionResolver : Type 0
AttentionResolver = AttentionItemRow → ℕ → AttentionLiveness

-- RESOLVERS: the pair that was set last stands first.
abbrev pub Registry : Type 0
Registry = List (AttentionSourceType × AttentionResolver)

abbrev pub register_attention_resolver :
    AttentionSourceType → AttentionResolver → Registry → Registry
register_attention_resolver source_type resolver resolvers = (source_type, resolver) ∷ resolvers

unfoldable pub find_resolver : AttentionSourceType → Registry → Option AttentionResolver
find_resolver source_type [] = none
find_resolver source_type (r ∷ rs) =
    let rest = find_resolver source_type rs in
    if str_eq (source_text r.0) (source_text source_type) then some r.1 else rest

-- ALWAYS_LIVE for `system`, FALLBACK for a source that nobody registered.
abbrev pub default_liveness : AttentionSourceType → AttentionLiveness
default_liveness system = live
default_liveness _ = unknown

unfoldable pub resolve_liveness : Registry → AttentionItemRow → ℕ → AttentionLiveness
unfolding find_resolver
resolve_liveness resolvers item now = elim (find_resolver item.source_type resolvers) [
  | none ↦ default_liveness item.source_type
  | some resolver ↦ resolver item now
]

abbrev pub is_gone : AttentionLiveness → Bool
is_gone gone = true
is_gone _ = false

abbrev pub is_expired_snooze : ℕ → AttentionItemRow → Bool
is_expired_snooze now row = is_snoozed row.state && is_due now row.snoozed_until

abbrev pub woken_row : ℕ → AttentionItemRow → AttentionItemRow
woken_row now row = record row { state = open_; snoozed_until = none; updated_at = now }

-- ATTENTION_TERMINAL_RETENTION_DAYS, in milliseconds.
abbrev pub retention : ℕ
retention = 30 * 86400000

abbrev pub is_before_cutoff : ℕ → Option ℕ → Bool
is_before_cutoff now none = false
is_before_cutoff now (some at) = ltb (at + retention) now

abbrev pub is_collectable : ℕ → AttentionItemRow → Bool
is_collectable now row = not (is_live row.state) && is_before_cutoff now row.resolved_at

-- DELETE of at most so many rows: how many were deleted, and the rows that stay.
unfoldable pub delete_chunk :
    (AttentionItemRow → Bool) → (limit : ℕ) → List AttentionItemRow → ℕ × List AttentionItemRow
delete_chunk p zero rows = (0, rows)
delete_chunk p (suc limit) [] = (0, [])
delete_chunk p (suc limit) (row ∷ rows) = elim (p row) [
  | true ↦ (let more = delete_chunk p limit rows in (suc more.0, more.1))
  | false ↦ (let more = delete_chunk p (suc limit) rows in (more.0, row ∷ more.1))
]

abbrev pub chunk_size : ℕ
chunk_size = 500

-- The loop of the collection, from a moment on; `none` when the rounds are used up.
unfoldable pub collect :
    (ℕ → AttentionDb → AttentionDb)
    → (AttentionItemRow → Bool)
    → (rounds moment : ℕ) → AttentionDb
    → Option (ℕ × AttentionDb)
unfolding delete_chunk
collect interfere p zero moment db = none
collect interfere p (suc rounds) moment db =
    let here = interfere moment db in
    let chunk = delete_chunk p chunk_size here.items in
    let left : AttentionDb = record here { items = chunk.1 } in
    elim (ltb chunk.0 chunk_size) [
      | true ↦ some (chunk.0, left)
      | false ↦
          and_then (collect interfere p rounds (suc moment) left) (λ r. some (chunk.0 + r.0, r.1))
    ]

-- The rows that the sweep checks: open and seen, oldest first.
abbrev pub is_checked : AttentionItemRow → Bool
is_checked row = is_live row.state && not (is_snoozed row.state)

unfoldable pub wake_expired : ℕ → AttentionDb → AttentionDb
wake_expired now db =
    audit_some "attention.woken" (returning (is_expired_snooze now) (woken_row now) db.items)
      (record db { items = update_where (is_expired_snooze now) (woken_row now) db.items })

unfoldable pub collected : ℕ × AttentionDb → AttentionDb
collected (zero, db) = db
collected (suc n, db) = record db { audits = db.audits ++ "attention.gc" ∷ [] }

pub record SweepResult : Type 0 where
  pub checked : ℕ
  pub resolved_count : ℕ
  pub woken : ℕ

module _ (idempotency_key_for : (source external_id : String) → String) (mint : ℕ → String)
    (resolvers : Registry) (interfere : ℕ → AttentionDb → AttentionDb) where
  -- The verdict on one row, and the close of its source that `gone` asks for.
  unfoldable pub sweep_row :
      AttentionItemRow → Date → AttentionDb → Result AttentionError (ℕ × AttentionDb)
  unfolding resolve_attention_by_source resolve_liveness
  sweep_row item now db =
      if is_gone (resolve_liveness resolvers item now.ms)
      then resolve_attention_by_source idempotency_key_for mint item.principal_id item.source_type
          item.source_object_id none liveness "liveness_gone" now db
      else ok (0, db)

  unfoldable pub sweep_rows :
      (moment : ℕ)
      → List AttentionItemRow
      → Date
      → AttentionDb
      → Result AttentionError (ℕ × AttentionDb)
  unfolding sweep_row
  sweep_rows moment [] now db = ok (0, db)
  sweep_rows moment (item ∷ items) now db = sweep_row item now (interfere moment db) >>= λ first.
      sweep_rows (suc moment) items now first.1 >>= λ rest. ok (first.0 + rest.0, rest.1)

  unfoldable pub liveness_sweep :
      (rounds limit : ℕ)
      → Date
      → AttentionDb
      → Result AttentionError (Option (SweepResult × AttentionDb))
  unfolding sweep_rows wake_expired collect collected order_by
  liveness_sweep rounds limit now db =
      let awake = wake_expired now.ms db in
      let here = interfere 0 awake in
      let stale = take limit (order_by raised_before (filter is_checked here.items)) in
      sweep_rows 1 stale now here >>= λ swept. ok (
        and_then (collect interfere (is_collectable now.ms) rounds (1 + length stale) swept.1) (λ r.
          some (
            record {
              checked = length stale;
              resolved_count = swept.0;
              woken = length (filter (is_expired_snooze now.ms) db.items);
            },
            collected r,
          )))
