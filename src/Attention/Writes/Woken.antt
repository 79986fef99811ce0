-- ===== src/Attention/Writes/Woken.antt =====
-- packages/core/src/attention/service.ts: a changed occurrence of a snoozed item.
use Prim.Native.String.{String}
use jehad_os.Prelude.{ℕ, ◌≡◌, refl, true, false, some}
use jehad_os.Attention.{AttentionItemRow, open_, AttentionDb, is_snoozed}
use jehad_os.Attention.Salience.{
  DecideDeliveryInput, bypasses_all_gates, is_interrupt, is_quiet_hours, deferred, quiet_hours,
  decide_delivery,
}
use jehad_os.Attention.Occurrences.{
  OpenAttentionInput, bumped_row, fingerprint_changed, effective_level, level_risen,
  wakes_from_snooze, bump_input,
}
use jehad_os.Attention.Machine.Rows.{live_snoozed}
use jehad_os.Attention.Writes.{bump_or_reopen}

module _ (idempotency_key_for : String → String → String) (mint : ℕ → String)
    (local_hour : ℕ → ℕ) where
  quiet_decision :
      (input : DecideDeliveryInput)
      → is_snoozed input.state ≡ false
      → bypasses_all_gates input.safety_class ≡ false
      → is_interrupt input.level ≡ false
      → is_quiet_hours local_hour input.now ≡ true
      → decide_delivery local_hour input ≡ deferred quiet_hours
  unfolding decide_delivery
  quiet_decision input s c l q = rw (s, c, l, q) refl

  -- A changed occurrence of a snoozed item that has no safety class, in quiet hours, at a level
  -- that is not interrupt and not above the item's, opens the item but does not deliver it now.
  pub bump-woken_quiet :
      (input : OpenAttentionInput) (prior : AttentionItemRow) (now : ℕ) (db : AttentionDb)
      → is_snoozed prior.state ≡ true
      → fingerprint_changed input.change_fingerprint prior.change_fingerprint ≡ true
      → bypasses_all_gates prior.safety_class ≡ false
      → is_interrupt (effective_level input.level prior.level) ≡ false
      → level_risen input.level prior.level ≡ false
      → is_quiet_hours local_hour now ≡ true
      → let r = (bump_or_reopen idempotency_key_for mint local_hour input prior now db).0 in
        (r.item.state ≡ open_) × ((r.deliver_now ≡ false) × (r.defer_reason ≡ some quiet_hours))
  unfolding bump_or_reopen wakes_from_snooze bump_input bumped_row
  bump-woken_quiet input prior now db s f c l r q =
      let awake : DecideDeliveryInput = bump_input true input now prior in
      rw (live_snoozed prior.state s, s, f, r, quiet_decision awake refl c l q) (refl, (refl, refl))
