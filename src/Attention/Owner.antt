-- ===== src/Attention/Owner.antt =====
-- packages/core/src/attention/service.ts: the owner's actions on an item, the close by source, and
-- the owner's list. What `minutes * 60_000` comes to in a Date is a parameter.
use Prim.Native.String.{String}
use jehad_os.Prelude.{
  ℕ, ◌+◌, ◌*◌, Bool, true, false, not, ◌&&◌, Option, none, some, List, [], ◌∷◌, ltb, Result, ok,
  ◌>>=◌, throw_if,
}
use jehad_os.Prelude.Unknown.{Number, is_positive}
use jehad_os.Outcomes.Waits.{Date}
use jehad_os.Attention.{
  open_, seen, snoozed, resolved, dismissed, AttentionResolvedBy, owner, AttentionItemRow,
  AttentionError, bad_minutes, AttentionDb, is_live, is_open, update_where, returning, is_row,
  get_item_row, audit, emit_resolved_event,
}

abbrev pub is_live_row : (principal_id id : String) → AttentionItemRow → Bool
is_live_row principal_id id row = is_row principal_id id row && is_live row.state

abbrev pub resolved_row :
    AttentionResolvedBy → Option String → ℕ → AttentionItemRow → AttentionItemRow
resolved_row by reason now row = record row {
  state = resolved;
  resolved_at = some now;
  resolved_by = some by;
  resolution_reason = reason;
  updated_at = now;
}

abbrev pub dismissed_row : ℕ → AttentionItemRow → AttentionItemRow
dismissed_row now row = record row {
  state = dismissed;
  resolved_at = some now;
  resolved_by = some owner;
  resolution_reason = some "dismissed";
  updated_at = now;
}

abbrev pub undone_row : ℕ → AttentionItemRow → AttentionItemRow
undone_row now row = record row {
  state = open_;
  resolved_at = none;
  resolved_by = none;
  resolution_reason = none;
  updated_at = now;
}

abbrev pub seen_row : ℕ → AttentionItemRow → AttentionItemRow
seen_row now row = record row { state = seen; seen_at = some now; updated_at = now }

abbrev pub snoozed_row : (until now : ℕ) → AttentionItemRow → AttentionItemRow
snoozed_row until now row = record row {
  state = snoozed;
  snoozed_until = some until;
  snooze_count = row.snooze_count + 1;
  updated_at = now;
}

abbrev pub is_owner : Option AttentionResolvedBy → Bool
is_owner (some owner) = true
is_owner _ = false

-- REOPEN_WINDOW_MS
abbrev pub reopen_window : ℕ
reopen_window = 24 * 3600000

abbrev pub is_window_over : ℕ → Option ℕ → Bool
is_window_over now none = true
is_window_over now (some at) = ltb (at + reopen_window) now

abbrev pub is_owner_closed : (principal_id id : String) → AttentionItemRow → Bool
is_owner_closed principal_id id row =
    is_row principal_id id row && (not (is_live row.state) && is_owner row.resolved_by)

-- `state = 'open'` with the key.
abbrev pub is_open_row : (principal_id id : String) → AttentionItemRow → Bool
is_open_row principal_id id row = is_row principal_id id row && is_open row.state

-- What an update answers: its first row, with the audit entry, or the row as it stands.
abbrev pub answer :
    String
    → Option AttentionItemRow
    → (flipped : List AttentionItemRow) → (db updated : AttentionDb)
    → Option AttentionItemRow × AttentionDb
answer action current [] db updated = (current, db)
answer action current (item ∷ rest) db updated = (some item, audit action updated)

-- The same with an event for the row, emitted before the audit entry.
abbrev pub announce :
    String
    → Option AttentionItemRow
    → (flipped : List AttentionItemRow) → AttentionDb
    → (AttentionItemRow → Result AttentionError AttentionDb)
    → Result AttentionError (Option AttentionItemRow × AttentionDb)
announce action current [] db emits = ok (current, db)
announce action current (item ∷ rest) db emits =
    emits item >>= λ next. ok (some item, audit action next)

abbrev pub updated_where :
    (AttentionItemRow → Bool) → (AttentionItemRow → AttentionItemRow) → AttentionDb → AttentionDb
updated_where p change db = record db { items = update_where p change db.items }

unfoldable pub mark_seen :
    (principal_id id : String) → ℕ → AttentionDb → Option AttentionItemRow × AttentionDb
unfolding get_item_row
mark_seen principal_id id now db =
    let p = is_open_row principal_id id in
    answer "attention.seen" (get_item_row principal_id id db.items)
      (returning p (seen_row now) db.items) db (updated_where p (seen_row now) db)

module _ (minutes_ms : Number → ℕ) where
  unfoldable pub snooze_attention :
      (principal_id id : String)
      → Number
      → ℕ
      → AttentionDb
      → Result AttentionError (Option AttentionItemRow × AttentionDb)
  unfolding get_item_row is_positive
  snooze_attention principal_id id minutes now db =
      throw_if (not (is_positive minutes)) bad_minutes >>= λ _.
      let p = is_live_row principal_id id in
      let change = snoozed_row (now + minutes_ms minutes) now in
      ok (
        answer "attention.snoozed" (get_item_row principal_id id db.items)
          (returning p change db.items) db (updated_where p change db))

module _ (idempotency_key_for : (source external_id : String) → String) (mint : ℕ → String) where
  unfoldable pub resolve_attention :
      (principal_id id : String)
      → AttentionResolvedBy
      → Option String
      → Date
      → AttentionDb
      → Result AttentionError (Option AttentionItemRow × AttentionDb)
  unfolding get_item_row emit_resolved_event
  resolve_attention principal_id id by reason now db =
      let p = is_live_row principal_id id in
      let change = resolved_row by reason now.ms in
      announce "attention.resolved" (get_item_row principal_id id db.items)
        (returning p change db.items) db
        (λ item.
          emit_resolved_event idempotency_key_for mint item now by reason
            (updated_where p change db))

  unfoldable pub dismiss_attention :
      (principal_id id : String)
      → Date
      → AttentionDb
      → Result AttentionError (Option AttentionItemRow × AttentionDb)
  unfolding get_item_row emit_resolved_event
  dismiss_attention principal_id id now db =
      let p = is_live_row principal_id id in
      let change = dismissed_row now.ms in
      announce "attention.dismissed" (get_item_row principal_id id db.items)
        (returning p change db.items) db
        (λ item.
          emit_resolved_event idempotency_key_for mint item now owner (some "dismissed")
            (updated_where p change db))
