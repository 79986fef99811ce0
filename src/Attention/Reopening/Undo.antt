-- ===== src/Attention/Reopening/Undo.antt =====
-- packages/core/src/attention/service.ts: what the owner's undo refuses, and what it restores.
use Prim.Native.String.{String}
use jehad_os.Prelude.{
  ℕ, ◌+◌, ◌≤◌, ◌≡◌, ◌↔◌, >>=-eq-ok, refl, sym, ap, ◌∙◌, Bool, true, false, not, Option, none, some,
  List, [], ◌∷◌, ◌⊎◌, inl, inr, Result, ok, ◌>>=◌, throw_if, arith,
}
use jehad_os.Outcomes.Waits.{Date}
use jehad_os.Attention.{
  AttentionState, resolved, dismissed, AttentionResolvedBy, owner, AttentionItemRow, AttentionError,
  not_closed, not_owner_closed, window_expired, AttentionDb, is_live, get_item_row, audit,
}
use jehad_os.Attention.Owner.{
  is_owner_closed, is_owner, undone_row, is_window_over, reopen_window, updated_where, announce,
}
use jehad_os.Attention.Reopening.{check_reopen, undo_close, reopen_found, reopen_attention_by_owner}
use jehad_os.Attention.Effects.Emits.{IsSeeded, emit_event-ok}

pub within_window : (at now : ℕ) → now ≤ at + reopen_window → is_window_over now (some at) ≡ false
within_window at now h = ground arith

-- The item is resolved or dismissed, by the owner, at most 24 hours ago.
abbrev pub CanUndo : ℕ → AttentionItemRow → Type 0
CanUndo now prior =
    ((prior.state ≡ resolved) ⊎ (prior.state ≡ dismissed))
    × (prior.resolved_by ≡ some owner)
    × (at : ℕ) × (prior.resolved_at ≡ some at)
    × (now ≤ at + 86400000)

closed-cases : (s : AttentionState) → is_live s ≡ false → (s ≡ resolved) ⊎ (s ≡ dismissed)
closed-cases resolved h = inl refl
closed-cases dismissed h = inr refl
closed-cases _ h = cc

closed-not_live : (s : AttentionState) → (s ≡ resolved) ⊎ (s ≡ dismissed) → is_live s ≡ false
closed-not_live s (inl e) = rw e refl
closed-not_live s (inr e) = rw e refl

by_owner : (by : Option AttentionResolvedBy) → is_owner by ≡ true → by ≡ some owner
by_owner (some owner) h = refl
by_owner _ h = cc

window_open :
    (now : ℕ) (closed : Option ℕ)
    → is_window_over now closed ≡ false
    → (at : ℕ) × (closed ≡ some at) × (now ≤ at + 86400000)
window_open now none h = cc
window_open now (some at) h = (at, refl, ground arith)

not_thrown : (b : Bool) (e : AttentionError) → throw_if b e ≡ ok tt → b ≡ false
not_thrown true e h = cc
not_thrown false e h = refl

pub check_reopen-CanUndo :
    (now : ℕ) (prior : AttentionItemRow) → check_reopen now prior ≡ ok tt → CanUndo now prior
unfolding check_reopen
check_reopen-CanUndo now prior h =
    let over = throw_if (is_window_over now prior.resolved_at) window_expired in
    let s =
      >>=-eq-ok (throw_if (is_live prior.state) not_closed)
        (λ _. throw_if (not (is_owner prior.resolved_by)) not_owner_closed >>= λ _. over) h in
    let t =
      >>=-eq-ok (throw_if (not (is_owner prior.resolved_by)) not_owner_closed) (λ _. over) s.2 in
    let closed =
      window_open now prior.resolved_at
        (not_thrown (is_window_over now prior.resolved_at) window_expired t.2) in
    (
      closed-cases prior.state (not_thrown (is_live prior.state) not_closed s.1),
      by_owner prior.resolved_by
          (not_false (is_owner prior.resolved_by) (not_thrown _ not_owner_closed t.1)),
      closed.0,
      closed.1,
      closed.2,
    )
  where
    not_false : (b : Bool) → not b ≡ false → b ≡ true
    not_false true h = refl
    not_false false h = cc

pub CanUndo-check_reopen :
    (now : ℕ) (prior : AttentionItemRow) → CanUndo now prior → check_reopen now prior ≡ ok tt
unfolding check_reopen
CanUndo-check_reopen now prior c =
    rw (closed-not_live prior.state c.0, c.1, c.3, within_window c.2 now c.4) refl

module _ (idempotency_key_for : String → String → String) (mint : ℕ → String)
    (principal_id id : String) where
  -- In a seeded database, an announced update returns.
  announce-ok :
      (action : String) (current : Option AttentionItemRow) (flipped : List AttentionItemRow)
      (db : AttentionDb) (emits : AttentionItemRow → Result AttentionError AttentionDb)
      → ((row : AttentionItemRow) → (next : AttentionDb) × (emits row ≡ ok next))
      → (x : Option AttentionItemRow × AttentionDb) × (announce action current flipped db emits
          ≡ ok x)
  announce-ok action current [] db emits k = ((current, db), refl)
  announce-ok action current (row ∷ rest) db emits k = (
    (some row, audit action (k row).0),
    ap (λ r. r >>= λ next. ok (some row, audit action next)) (k row).1,
  )

  undo_close-ok :
      (prior : AttentionItemRow) (now : Date) (db : AttentionDb)
      → IsSeeded db
      → (x : Option AttentionItemRow × AttentionDb) × (undo_close idempotency_key_for mint
            principal_id id prior now db
          ≡ ok x)
  unfolding undo_close
  undo_close-ok prior now db k = announce-ok "attention.reopened_by_owner" _ _ db _ (λ row.
      let e =
        emit_event-ok idempotency_key_for mint _ _ _ now
          (updated_where (is_owner_closed principal_id id) (undone_row now.ms) db) k in
      (e.0, e.1))

  -- If an item is found, and the event's domain is seeded in the database that others leave before
  -- the update, the undo returns exactly when the item is resolved or dismissed, by the owner, at
  -- most 24 hours before.
  pub reopen-ok_iff :
      (interfere : AttentionDb → AttentionDb) (now : Date) (db : AttentionDb)
      (prior : AttentionItemRow)
      → IsSeeded (interfere db)
      → get_item_row principal_id id db.items ≡ some prior
      → ((x : Option AttentionItemRow × AttentionDb) × (reopen_attention_by_owner
              idempotency_key_for mint interfere principal_id id now db
            ≡ ok x))
        ↔ CanUndo now.ms prior
  unfolding reopen_attention_by_owner reopen_found
  reopen-ok_iff interfere now db prior k f =
      let close = undo_close idempotency_key_for mint principal_id id prior now (interfere db) in
      let found =
        ap (λ o. reopen_found idempotency_key_for mint interfere principal_id id now db o) f in
      (
        λ r.
            let s = >>=-eq-ok (check_reopen now.ms prior) (λ _. close) (sym found ∙ r.1) in
            check_reopen-CanUndo now.ms prior s.1,
        λ c.
            let x = undo_close-ok prior now (interfere db) k in
            (x.0, found ∙ (ap (λ r. r >>= λ _. close) (CanUndo-check_reopen now.ms prior c) ∙ x.1)),
      )
