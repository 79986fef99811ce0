-- ===== src/Attention/Writes.antt =====
-- packages/core/src/attention/service.ts: openOrBumpOrReopen, the one writer of new occurrences.
-- Between two statements other transactions may commit: `interfere n` is what they did to the
-- table before statement n, and a row that FOR UPDATE returned stays as it was read.
pub mod Refines
pub mod Asked
pub mod Upsert
pub mod Woken
use Prim.Native.String.{String, ◌++◌ as ◌+++◌}
use jehad_os.Prelude.{
  ℕ, suc, ◌+◌, ◌-◌, zero, Bool, true, false, not, ◌&&◌, ◌||◌, Option, none, some, List, [], ◌∷◌,
  ◌++◌, filter, str_eq, ltb, if◌then◌else◌, Result, ok, err, ◌>>=◌, throw_if, any,
}
use jehad_os.Outcomes.Waits.{Date}
use jehad_os.Attention.{
  AttentionLevel, inbox, digest, interrupt, open_, AttentionSafetyClass, unsafe_none,
  AttentionSourceType, AttentionItemKind, AttentionEvidenceRef, AttentionActionRef,
  AttentionItemRow, AttentionError, identity_taken, id_taken, principal_missing, AttentionDb,
  source_text, kind_text, level_text, is_live, is_snoozed, update_where, first_of, audit,
  attention_event, emit_event,
}
use jehad_os.Attention.Salience.{
  DeferReason, SalienceDecision, DecideDeliveryInput, is_same_change, decide_delivery,
}
use jehad_os.Attention.Occurrences.{
  OpenAttentionInput, OpenAttentionResult, opened, bumped, reopened, level_risen, find_prior,
  new_row, reopened_row, bumped_row, wakes_from_snooze, bump_input, with_id, taken,
}

-- The principal of the input has a row.
abbrev pub is_known : OpenAttentionInput → AttentionDb → Bool
is_known input db = any (λ id. str_eq id input.principal_id) db.principals

module _ (idempotency_key_for : (source external_id : String) → String) (mint : ℕ → String)
    (local_hour : ℕ → ℕ) where
  unfoldable pub bump_or_reopen :
      OpenAttentionInput → AttentionItemRow → ℕ → AttentionDb → OpenAttentionResult × AttentionDb
  unfolding reopened_row bumped_row wakes_from_snooze bump_input decide_delivery
  bump_or_reopen input prior now db =
      let wakes = wakes_from_snooze input prior in
      let decision = decide_delivery local_hour (bump_input wakes input now prior) in
      let deliver = decision.deliver || level_risen input.level prior.level in
      if is_live prior.state
      then (
        record {
          action = bumped;
          item = bumped_row wakes input now prior;
          deliver_now = deliver;
          defer_reason = if deliver then none else decision.defer_reason;
        },
        audit "attention.bumped" (record db {
          items = update_where (with_id prior.id) (bumped_row wakes input now) db.items;
        }),
      )
      else (
        record {
          action = reopened;
          item = reopened_row input now prior;
          deliver_now = true;
          defer_reason = none;
        },
        audit "attention.reopened" (record db {
          items = update_where (with_id prior.id) (reopened_row input now) db.items;
        }),
      )

  unfoldable pub accept_opened_event :
      AttentionItemRow → Date → AttentionDb → Result AttentionError AttentionDb
  unfolding emit_event
  accept_opened_event item now db =
      emit_event idempotency_key_for mint
        (attention_event "attention.item.opened" ("attention-opened:" +++ item.id)
          (("itemId", item.id)
            ∷ (("principalId", item.principal_id)
                ∷ (("sourceType", source_text item.source_type)
                    ∷ (("sourceObjectId", item.source_object_id)
                        ∷ (("fingerprint", item.fingerprint)
                            ∷ (("kind", kind_text item.kind)
                                ∷ (("level", level_text item.level) ∷ [])))))))
          now)
        now db

  -- The INSERT, under the keys of the table: the row is appended with the id that was drawn.
  abbrev pub insert_row : String → OpenAttentionInput → ℕ → AttentionDb → AttentionDb
  insert_row id input now db = record db { items = db.items ++ new_row id input now ∷ [] }

  unfoldable pub insert_opened :
      String
      → OpenAttentionInput
      → Date
      → AttentionDb
      → Result AttentionError (OpenAttentionResult × AttentionDb)
  unfolding new_row accept_opened_event
  insert_opened id input now db = throw_if (any (with_id id) db.items) id_taken >>= λ _.
      throw_if (not (is_known input db)) principal_missing >>= λ _.
      let item = new_row id input now.ms in
      accept_opened_event item now (insert_row id input now.ms db) >>= λ next. ok (
        record { action = opened; item = item; deliver_now = true; defer_reason = none },
        audit "attention.opened" next,
      )

  -- The INSERT was answered with no row: the key is read again, or inserted for a second time.
  unfoldable pub after_race :
      (ℕ → AttentionDb → AttentionDb)
      → String
      → OpenAttentionInput
      → Date
      → AttentionDb
      → Option AttentionItemRow
      → Result AttentionError (OpenAttentionResult × AttentionDb)
  unfolding bump_or_reopen find_prior insert_opened
  after_race interfere id input now db (some row) = ok (bump_or_reopen input row now.ms db)
  after_race interfere id input now db none =
      let later = interfere 3 db in
      if taken input later.items then err identity_taken else insert_opened id input now later

  unfoldable pub insert_or_race :
      (ℕ → AttentionDb → AttentionDb)
      → OpenAttentionInput
      → Date
      → AttentionDb
      → Result AttentionError (OpenAttentionResult × AttentionDb)
  unfolding find_prior insert_opened after_race
  insert_or_race interfere input now db =
      let id = mint db.minted in
      let drawn = record db { minted = suc db.minted } in
      if taken input drawn.items
      then (let later = interfere 2 drawn in
          after_race interfere id input now later (find_prior input later.items))
      else insert_opened id input now drawn

  -- The locked row, or that there is none.
  unfoldable pub open_found :
      (ℕ → AttentionDb → AttentionDb)
      → OpenAttentionInput
      → Date
      → AttentionDb
      → Option AttentionItemRow
      → Result AttentionError (OpenAttentionResult × AttentionDb)
  unfolding bump_or_reopen insert_or_race
  open_found interfere input now db none = insert_or_race interfere input now (interfere 1 db)
  open_found interfere input now db (some prior) = ok (bump_or_reopen input prior now.ms db)

  unfoldable pub open_or_bump_or_reopen :
      (ℕ → AttentionDb → AttentionDb)
      → OpenAttentionInput
      → Date
      → AttentionDb
      → Result AttentionError (OpenAttentionResult × AttentionDb)
  unfolding find_prior open_found
  open_or_bump_or_reopen interfere input now db =
      open_found interfere input now db (find_prior input db.items)
