-- ===== src/Attention/Reopening.antt =====
-- packages/core/src/attention/service.ts: reopenAttentionByOwner, the undo of a close. Between its
-- read and its update, `interfere` is what other transactions did.
pub mod Undo
pub mod RoundTrip
use Prim.Native.String.{String, ◌++◌ as ◌+++◌}
use jehad_os.Prelude.{
  ℕ, Bool, true, false, not, Option, none, some, List, [], ◌∷◌, if◌then◌else◌, Result, ok, err,
  ◌>>=◌, throw_if,
}
use jehad_os.Outcomes.Waits.{Date}
use jehad_os.Attention.{
  AttentionState, open_, seen, snoozed, resolved, dismissed, AttentionItemRow, AttentionError,
  not_closed, not_owner_closed, window_expired, AttentionDb, source_text, is_live, update_where,
  returning, get_item_row, audit, attention_event, emit_event,
}
use jehad_os.Attention.Owner.{
  undone_row, is_owner, is_window_over, is_owner_closed, announce, updated_where,
}

abbrev pub state_text : AttentionState → String
state_text open_ = "open"
state_text seen = "seen"
state_text snoozed = "snoozed"
state_text resolved = "resolved"
state_text dismissed = "dismissed"

-- The guards on the row that was read.
unfoldable pub check_reopen : ℕ → AttentionItemRow → Result AttentionError (Unit {0})
check_reopen now prior = throw_if (is_live prior.state) not_closed >>= λ _.
    throw_if (not (is_owner prior.resolved_by)) not_owner_closed >>= λ _.
    throw_if (is_window_over now prior.resolved_at) window_expired

module _ (idempotency_key_for : (source external_id : String) → String) (mint : ℕ → String) where
  unfoldable pub undo_close :
      (principal_id id : String)
      → AttentionItemRow
      → Date
      → AttentionDb
      → Result AttentionError (Option AttentionItemRow × AttentionDb)
  unfolding get_item_row emit_event
  undo_close principal_id id prior now db =
      let p = is_owner_closed principal_id id in
      let change = undone_row now.ms in
      announce "attention.reopened_by_owner" (get_item_row principal_id id db.items)
        (returning p change db.items) db
        (λ item.
          emit_event idempotency_key_for mint
            (attention_event "attention.item.reopened"
              ("attention-reopened:" +++ (item.id +++ (":" +++ now.iso)))
              (("itemId", item.id)
                ∷ (("principalId", item.principal_id)
                    ∷ (("sourceType", source_text item.source_type)
                        ∷ (("sourceObjectId", item.source_object_id)
                            ∷ (("priorState", state_text prior.state) ∷ [])))))
              now)
            now (updated_where p change db))

  -- The row that was read, or that there is none.
  unfoldable pub reopen_found :
      (AttentionDb → AttentionDb)
      → (principal_id id : String) → Date
      → AttentionDb
      → Option AttentionItemRow
      → Result AttentionError (Option AttentionItemRow × AttentionDb)
  unfolding check_reopen undo_close
  reopen_found interfere principal_id id now db none = ok (none, db)
  reopen_found interfere principal_id id now db (some prior) =
      check_reopen now.ms prior >>= λ _. undo_close principal_id id prior now (interfere db)

  unfoldable pub reopen_attention_by_owner :
      (AttentionDb → AttentionDb)
      → (principal_id id : String) → Date
      → AttentionDb
      → Result AttentionError (Option AttentionItemRow × AttentionDb)
  unfolding get_item_row reopen_found
  reopen_attention_by_owner interfere principal_id id now db =
      reopen_found interfere principal_id id now db (get_item_row principal_id id db.items)
