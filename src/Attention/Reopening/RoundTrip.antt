-- ===== src/Attention/Reopening/RoundTrip.antt =====
-- packages/core/src/attention/service.ts: the owner's undo after the owner's close.
use Prim.Native.String.{String}
use jehad_os.Prelude.{
  ℕ, ◌+◌, ◌≤◌, ◌≡◌, refl, sym, ap, ◌∙◌, Bool, true, not, ◌&&◌, Option, none, some, filter, Result,
  ok, ◌>>=◌, inr,
}
use jehad_os.Outcomes.Waits.{Date}
use jehad_os.Attention.{
  AttentionItemRow, owner, open_, AttentionError, AttentionDb, is_live, is_row, update_where,
  returning, get_item_row, audit, first_of,
}
use jehad_os.Attention.Owner.{
  is_live_row, is_owner_closed, is_owner, dismissed_row, undone_row, reopen_window, updated_where,
  announce, dismiss_attention,
}
use jehad_os.Attention.Reopening.{undo_close, reopen_found, reopen_attention_by_owner}
use jehad_os.Attention.Lookups.{found-returning, found-updated}
use jehad_os.Attention.Effects.{emit_event-items, emit_resolved-items}
use jehad_os.Attention.Effects.Emits.{IsSeeded, emit_event-ok, emit_resolved-ok}
use jehad_os.Attention.Reopening.Undo.{CanUndo-check_reopen}

module _ (idempotency_key_for : String → String → String) (mint : ℕ → String)
    (principal_id id : String) where
  -- A database in which the item is found.
  abbrev Shows : AttentionItemRow → AttentionDb → Type 0
  Shows row db = IsSeeded db × (get_item_row principal_id id db.items ≡ some row)

  -- An announced update of an item that is found answers with the changed item, which is found.
  announce-Shows :
      (g : AttentionItemRow → Bool) (change : AttentionItemRow → AttentionItemRow) (action : String)
      (current : Option AttentionItemRow) (row : AttentionItemRow) (db : AttentionDb)
      (emits : AttentionItemRow → Result AttentionError AttentionDb)
      → get_item_row principal_id id db.items ≡ some row
      → g row ≡ true
      → ((y : AttentionItemRow) → is_row principal_id id (change y) ≡ is_row principal_id id y)
      → ((y : AttentionItemRow)
          → (next : AttentionDb) × (emits y ≡ ok next)
            × IsSeeded next
            × (update_where (λ x. is_row principal_id id x && g x) change db.items ≡ next.items))
      → (after : AttentionDb) × (announce action current
            (returning (λ x. is_row principal_id id x && g x) change db.items)
            db
            emits
          ≡ ok (some (change row), after))
        × Shows (change row) after
  unfolding get_item_row
  announce-Shows g change action current row db emits f t same e =
      let q = is_row principal_id id in
      let r = found-returning q g change row db.items f t in
      let n = e (change row) in
      (
        audit action n.0,
        ap (λ xs. announce action current xs db emits) r.1
            ∙ ap (λ x. x >>= λ next. ok (some (change row), audit action next)) n.1,
        (
          n.2,
          ap (λ xs. first_of (filter q xs)) (sym n.3)
              ∙ found-updated q g change row db.items f t same,
        ),
      )

  dismiss-Shows :
      (now : Date) (row : AttentionItemRow) (db : AttentionDb)
      → Shows row db
      → is_live row.state ≡ true
      → (mid : AttentionDb) × (dismiss_attention idempotency_key_for mint principal_id id now db
          ≡ ok (some (dismissed_row now.ms row), mid))
        × Shows (dismissed_row now.ms row) mid
  unfolding dismiss_attention
  dismiss-Shows now row db k l =
      let change = dismissed_row now.ms in
      let next = updated_where (is_live_row principal_id id) change db in
      announce-Shows (λ x. is_live x.state) change "attention.dismissed" _ row db _ k.1 l
        (λ y. refl)
        (λ y.
          let e =
            emit_resolved-ok idempotency_key_for mint y now owner (some "dismissed") next k.0 in
          (
            e.0,
            e.1,
            e.2,
            emit_resolved-items idempotency_key_for mint y now owner (some "dismissed") next e.0
                e.1,
          ))

  undo_close-Shows :
      (later : Date) (prior row : AttentionItemRow) (db : AttentionDb)
      → Shows row db
      → (not (is_live row.state) && is_owner row.resolved_by) ≡ true
      → (after : AttentionDb) × (undo_close idempotency_key_for mint principal_id id prior later db
          ≡ ok (some (undone_row later.ms row), after))
        × Shows (undone_row later.ms row) after
  unfolding undo_close
  undo_close-Shows later prior row db k t =
      let change = undone_row later.ms in
      let next = updated_where (is_owner_closed principal_id id) change db in
      announce-Shows (λ x. not (is_live x.state) && is_owner x.resolved_by) change
        "attention.reopened_by_owner" _ row db _ k.1 t (λ y. refl)
        (λ y.
          let e = emit_event-ok idempotency_key_for mint _ _ _ later next k.0 in
          (e.0, e.1, e.2, emit_event-items idempotency_key_for mint _ later next e.0 e.1))

  -- If a live item is found and the events' domain is seeded, dismissing it and undoing that at most
  -- 24 hours later both return, and what is answered and then found is the item as it was, but open
  -- and updated at the time of the undo.
  pub reopen-dismiss :
      (now later : Date) (row : AttentionItemRow) (db : AttentionDb)
      → IsSeeded db
      → get_item_row principal_id id db.items ≡ some row
      → is_live row.state ≡ true
      → later.ms ≤ now.ms + reopen_window
      → let back = record row {
        state = open_;
        updated_at = later.ms;
        resolved_at = none;
        resolved_by = none;
        resolution_reason = none;
      } in
        (mid after : AttentionDb) × (dismiss_attention idempotency_key_for mint principal_id id now
            db
          ≡ ok (some (dismissed_row now.ms row), mid))
        × (reopen_attention_by_owner idempotency_key_for mint (λ d. d) principal_id id later mid
            ≡ ok (some back, after))
        × (get_item_row principal_id id after.items ≡ some back)
  unfolding reopen_attention_by_owner reopen_found
  reopen-dismiss now later row db k f l w =
      let closed = dismissed_row now.ms row in
      let d = dismiss-Shows now row db (k, f) l in
      let u = undo_close-Shows later closed closed d.0 d.2 refl in
      let c = CanUndo-check_reopen later.ms closed (inr refl, refl, now.ms, refl, w) in
      (
        d.0,
        u.0,
        d.1,
        ap (λ o. reopen_found idempotency_key_for mint (λ d. d) principal_id id later d.0 o) d.2.1
            ∙ (ap
                  (λ r.
                    r >>= λ _. undo_close idempotency_key_for mint principal_id id closed later d.0)
                  c
                ∙ u.1),
        u.2.1,
      )
