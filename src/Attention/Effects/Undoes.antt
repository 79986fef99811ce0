-- ===== src/Attention/Effects/Undoes.antt =====
-- packages/core/src/attention/service.ts: the statements of the owner's undo.
use Prim.Native.String.{String, ◌++◌ as ◌+++◌}
use jehad_os.Prelude.{
  ℕ, ◌≡◌, refl, subst, Bool, true, false, not, Option, none, some, [], ◌∷◌, ok, >>=-eq-ok,
  &&-eq-true,
}
use jehad_os.Outcomes.Waits.{Date}
use jehad_os.Attention.{
  AttentionItemRow, AttentionDb, is_live, is_row, returning, attention_event, source_text,
  get_item_row, emit_event,
}
use jehad_os.Attention.Owner.{is_owner_closed, is_owner, undone_row, updated_where}
use jehad_os.Attention.Reopening.{
  check_reopen, state_text, undo_close, reopen_attention_by_owner, reopen_found, reopen_found,
}
use jehad_os.Attention.Table.{All-of}
use jehad_os.Attention.Machine.{Edit, undoes, no_more, concat}
use jehad_os.Attention.Effects.{Ran, emit_event-items, announced}

not-true : (b : Bool) → not b ≡ true → b ≡ false
not-true true h = cc
not-true false h = refl

module _ (idempotency_key_for : String → String → String) (mint : ℕ → String) where
  module _ (interfere : AttentionDb → AttentionDb)
      (others : (d : AttentionDb) → Ran d (interfere d)) (principal_id id : String) where
    undo_close-Ran :
        (prior : AttentionItemRow) (now : Date) (db after : AttentionDb)
        (r : Option AttentionItemRow)
        → undo_close idempotency_key_for mint principal_id id prior now db ≡ ok (r, after)
        → Ran db after
    unfolding undo_close
    undo_close-Ran prior now db after r h =
        let p = is_owner_closed principal_id id in
        let change = undone_row now.ms in
        announced p change db after (get_item_row principal_id id db.items) r
          "attention.reopened_by_owner"
          (λ item.
            emit_event idempotency_key_for mint
              (attention_event "attention.item.reopened"
                ("attention-reopened:" +++ (item.id +++ (":" +++ now.iso)))
                (("itemId", item.id)
                  ∷ (("principalId", item.principal_id)
                      ∷ (("sourceType", source_text item.source_type)
                          ∷ (("sourceObjectId", item.source_object_id)
                              ∷ (("priorState", state_text prior.state) ∷ [])))))
                now)
              now (updated_where p change db))
          (returning p change db.items)
          (All-of (λ row. p row ≡ true → Edit row (change row)) db.items
            (λ row t. undoes now.ms (
              not-true (is_live row.state)
                (&&-eq-true (not (is_live row.state)) (is_owner row.resolved_by)
                  (&&-eq-true (is_row principal_id id row) _ t).1).0)))
          (λ row next k.
            emit_event-items idempotency_key_for mint _ now (updated_where p change db) next k)
          h

    reopen_found-Ran :
        (found : Option AttentionItemRow) (now : Date) (db after : AttentionDb)
        (r : Option AttentionItemRow)
        → reopen_found idempotency_key_for mint interfere principal_id id now db found
          ≡ ok (r, after)
        → Ran db after
    unfolding reopen_found
    reopen_found-Ran none now db after r h =
        let e : db ≡ after = cc in subst (λ d. Ran db d) e no_more
    reopen_found-Ran (some prior) now db after r h =
        let s =
          >>=-eq-ok (check_reopen now.ms prior)
            (λ _. undo_close idempotency_key_for mint principal_id id prior now (interfere db)) h in
        concat (others db) (undo_close-Ran prior now (interfere db) after r s.2)

    pub reopen_by_owner-Ran :
        (now : Date) (db after : AttentionDb) (r : Option AttentionItemRow)
        → reopen_attention_by_owner idempotency_key_for mint interfere principal_id id now db
          ≡ ok (r, after)
        → Ran db after
    unfolding reopen_attention_by_owner
    reopen_by_owner-Ran now db after r h =
        reopen_found-Ran (get_item_row principal_id id db.items) now db after r h
