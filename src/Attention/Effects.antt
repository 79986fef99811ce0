-- ===== src/Attention/Effects.antt =====
-- packages/core/src/attention/service.ts: the statements that each operation runs on the table.
pub mod Emits
pub mod Prior
pub mod Upserts
pub mod Undoes
pub mod Sweeps
use Prim.Native.String.{String}
use jehad_os.Prelude.{
  ◌+◌, ℕ, suc, ◌≡◌, refl, sym, ap, ◌∙◌, subst, Bool, true, false, not, ◌&&◌, Option, none, some,
  List, [], ◌∷◌, All, Result, ok, err, ◌>>=◌, >>=-eq-ok, throw_if, if◌then◌else◌, &&-eq-true,
  Bool-cases, inl, inr,
}
use jehad_os.Prelude.Unknown.{Number, is_positive}
use jehad_os.Events.{EventIngestInput, EventStore, AcceptedEvent, DomainNotFoundError, accept_event}
use jehad_os.Outcomes.Waits.{Date}
use jehad_os.Attention.{
  AttentionItemRow, AttentionSourceType, AttentionResolvedBy, AttentionError, domain_missing, owner,
  is_open, bad_minutes, AttentionDb, is_live, update_where, returning, audit, emit_event,
  emit_resolved_event, get_item_row, is_row,
}
use jehad_os.Attention.Owner.{
  is_live_row, is_open_row, is_owner_closed, is_owner, resolved_row, dismissed_row, undone_row,
  seen_row, snoozed_row, answer, announce, updated_where, mark_seen, snooze_attention,
  resolve_attention, dismiss_attention,
}
use jehad_os.Attention.Closing.{is_of_source, audit_some, emit_all, resolve_attention_by_source}
use jehad_os.Attention.Reopening.{check_reopen, undo_close, reopen_attention_by_owner}
use jehad_os.Attention.Table.{All-of}
use jehad_os.Attention.Machine.{
  Edit, sees, snoozes, resolves, dismisses, undoes, Admits, Statement, updates, Statements, no_more,
  and_also, concat, one,
}

accepted :
    (r : Result DomainNotFoundError (AcceptedEvent × EventStore)) (db after : AttentionDb)
    → (elim r [
      | err e ↦ err domain_missing
      | ok a ↦ ok (record db { store = a.1; minted = suc db.minted })
    ])
      ≡ ok after
    → db.items ≡ after.items
accepted (err e) db after h = cc
accepted (ok a) db after h =
    let e : record db { store = a.1; minted = suc db.minted } ≡ after = cc in ap (λ d. d.items) e

-- What an operation that returns did to the table.
abbrev pub Ran : AttentionDb → AttentionDb → Type 0
Ran db after = Statements db.items after.items

pub ran_update :
    (p : AttentionItemRow → Bool) (change : AttentionItemRow → AttentionItemRow)
    (rows after : List AttentionItemRow)
    → Admits p change rows
    → update_where p change rows ≡ after
    → Statements rows after
ran_update p change rows after a e = subst (λ xs. Statements rows xs) e (one (updates p change a))

-- An update whose first returned row is announced: nothing was returned, or it was emitted.
announced :
    (p : AttentionItemRow → Bool) (change : AttentionItemRow → AttentionItemRow)
    (db after : AttentionDb) (o r : Option AttentionItemRow) (action : String)
    (emits : AttentionItemRow → Result AttentionError AttentionDb) (flipped : List AttentionItemRow)
    → Admits p change db.items
    → ((row : AttentionItemRow) (next : AttentionDb)
        → emits row ≡ ok next
        → update_where p change db.items ≡ next.items)
    → announce action o flipped db emits ≡ ok (r, after)
    → Ran db after
announced p change db after o r action emits [] a k h =
    let e : db ≡ after = cc in subst (λ d. Ran db d) e no_more
announced p change db after o r action emits (item ∷ rest) a k h =
    let s = >>=-eq-ok (emits item) (λ next. ok (some item, audit action next)) h in
    let e : audit action s.0 ≡ after = cc in
    ran_update p change db.items after.items a (k item s.0 s.1 ∙ ap (λ d. d.items) e)

-- An update that is answered by its first row.
answered :
    (p : AttentionItemRow → Bool) (change : AttentionItemRow → AttentionItemRow) (db : AttentionDb)
    (o : Option AttentionItemRow) (action : String) (flipped : List AttentionItemRow)
    → Admits p change db.items
    → Ran db (answer action o flipped db (updated_where p change db)).1
answered p change db o action [] a = no_more
answered p change db o action (item ∷ rest) a = one (updates p change a)

module _ (idempotency_key_for : String → String → String) (mint : ℕ → String) where
  pub emit_event-items :
      (input : EventIngestInput) (now : Date) (db after : AttentionDb)
      → emit_event idempotency_key_for mint input now db ≡ ok after
      → db.items ≡ after.items
  unfolding emit_event
  emit_event-items input now db after h =
      accepted (accept_event idempotency_key_for (mint db.minted) now.iso input db.store) db after h

  pub emit_resolved-items :
      (item : AttentionItemRow) (now : Date) (by : AttentionResolvedBy) (reason : Option String)
      (db after : AttentionDb)
      → emit_resolved_event idempotency_key_for mint item now by reason db ≡ ok after
      → db.items ≡ after.items
  unfolding emit_resolved_event
  emit_resolved-items item now by reason db after h = emit_event-items _ now db after h

module _ (principal_id id : String) where
  is_live_row-Admits :
      (change : AttentionItemRow → AttentionItemRow) (rows : List AttentionItemRow)
      → ((row : AttentionItemRow) → is_live row.state ≡ true → Edit row (change row))
      → Admits (is_live_row principal_id id) change rows
  is_live_row-Admits change rows f =
      All-of (λ row. is_live_row principal_id id row ≡ true → Edit row (change row)) rows
        (λ row t. f row (&&-eq-true (is_row principal_id id row) (is_live row.state) t).1)

  pub mark_seen-Ran : (now : ℕ) (db : AttentionDb) → Ran db (mark_seen principal_id id now db).1
  unfolding mark_seen
  mark_seen-Ran now db =
      let p = is_open_row principal_id id in
      answered p (seen_row now) db (get_item_row principal_id id db.items) "attention.seen"
        (returning p (seen_row now) db.items)
        (All-of (λ row. p row ≡ true → Edit row (seen_row now row)) db.items
          (λ row t. sees now (&&-eq-true (is_row principal_id id row) (is_open row.state) t).1))

  pub snooze_attention-Ran :
      (minutes_ms : Number → ℕ) (minutes : Number) (now : ℕ) (db after : AttentionDb)
      (r : Option AttentionItemRow)
      → snooze_attention minutes_ms principal_id id minutes now db ≡ ok (r, after)
      → Ran db after
  unfolding snooze_attention
  snooze_attention-Ran minutes_ms minutes now db after r h =
      let p = is_live_row principal_id id in
      let until = now + minutes_ms minutes in
      let current = get_item_row principal_id id db.items in
      let flipped = returning p (snoozed_row until now) db.items in
      let a =
        answer "attention.snoozed" current flipped db
          (updated_where p (snoozed_row until now) db) in
      let s = >>=-eq-ok (throw_if (not (is_positive minutes)) bad_minutes) (λ _. ok a) h in
      let e : a ≡ (r, after) = cc in
      subst (λ x. Ran db x.1) e
        (answered p (snoozed_row until now) db current "attention.snoozed" flipped
          (is_live_row-Admits (snoozed_row until now) db.items (λ row t. snoozes until now t)))

  module _ (idempotency_key_for : String → String → String) (mint : ℕ → String) where
    pub resolve_attention-Ran :
        (by : AttentionResolvedBy) (reason : Option String) (now : Date) (db after : AttentionDb)
        (r : Option AttentionItemRow)
        → resolve_attention idempotency_key_for mint principal_id id by reason now db
          ≡ ok (r, after)
        → Ran db after
    unfolding resolve_attention
    resolve_attention-Ran by reason now db after r h =
        let p = is_live_row principal_id id in
        let change = resolved_row by reason now.ms in
        announced p change db after (get_item_row principal_id id db.items) r "attention.resolved"
          (λ item.
            emit_resolved_event idempotency_key_for mint item now by reason
              (updated_where p change db))
          (returning p change db.items)
          (is_live_row-Admits change db.items (λ row t. resolves by reason now.ms t))
          (λ row next k.
            emit_resolved-items idempotency_key_for mint row now by reason
              (updated_where p change db) next k)
          h

    pub dismiss_attention-Ran :
        (now : Date) (db after : AttentionDb) (r : Option AttentionItemRow)
        → dismiss_attention idempotency_key_for mint principal_id id now db ≡ ok (r, after)
        → Ran db after
    unfolding dismiss_attention
    dismiss_attention-Ran now db after r h =
        let p = is_live_row principal_id id in
        let change = dismissed_row now.ms in
        announced p change db after (get_item_row principal_id id db.items) r "attention.dismissed"
          (λ item.
            emit_resolved_event idempotency_key_for mint item now owner (some "dismissed")
              (updated_where p change db))
          (returning p change db.items)
          (is_live_row-Admits change db.items (λ row t. dismisses now.ms t))
          (λ row next k.
            emit_resolved-items idempotency_key_for mint row now owner (some "dismissed")
              (updated_where p change db) next k)
          h
