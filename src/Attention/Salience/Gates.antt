-- ===== src/Attention/Salience/Gates.antt =====
-- packages/core/src/attention/salience.ts: what the ladder lets through.
use jehad_os.Prelude.{
  and_false, ℕ, ◌+◌, ◌*◌, ◌≤◌, ◌<◌, ◌≡◌, refl, Bool, true, false, not, ◌||◌, Option, none, some,
  ltb, leb, if◌then◌else◌, arith,
}
use jehad_os.Attention.{is_snoozed}
use jehad_os.Attention.Salience.{
  DecideDeliveryInput, is_after, is_recent, is_same_change, is_quiet_hours, quiet_start_hour,
  quiet_end_hour, bypasses_all_gates, is_interrupt, deferred, delivered, unchanged, decide_delivery,
}

-- The end of a snooze, and of the cooldown after a delivery.
abbrev pub time_of : Option ℕ → ℕ
time_of none = 0
time_of (some t) = t

abbrev pub cooled : ℕ → Option ℕ → ℕ
cooled minutes none = 0
cooled minutes (some last) = last + minutes * 60000

over : (now : ℕ) (o : Option ℕ) → time_of o ≤ now → is_after now o ≡ false
over now none h = refl
over now (some t) h = ground arith

cold : (now minutes : ℕ) (o : Option ℕ) → cooled minutes o ≤ now → is_recent now minutes o ≡ false
cold now minutes none h = refl
cold now minutes (some t) h = ground arith

module _ (local_hour : ℕ → ℕ) where
  awake :
      (now : ℕ)
      → quiet_end_hour ≤ local_hour now
      → local_hour now < quiet_start_hour
      → is_quiet_hours local_hour now ≡ false
  awake now h k = hours (local_hour now) h k
    where
      hours : (x : ℕ) → 7 ≤ x → x < 22 → (leb 22 x || ltb x 7) ≡ false
      hours x h k = ground arith

  -- News is deferred for a time only: at every instant in the day's open hours that is past the
  -- snooze and the cooldown, the ladder delivers an item whose change is not the stored one.
  pub decide-delivers :
      (input : DecideDeliveryInput)
      → is_same_change input.new_change_fingerprint input.stored_change_fingerprint ≡ false
      → time_of input.snoozed_until ≤ input.now
      → cooled input.cooldown_minutes input.last_delivered_at ≤ input.now
      → quiet_end_hour ≤ local_hour input.now
      → local_hour input.now < quiet_start_hour
      → decide_delivery local_hour input ≡ delivered
  unfolding decide_delivery
  decide-delivers input changed s c day night =
      let free = not (bypasses_all_gates input.safety_class) in
      rw
        (
          over input.now input.snoozed_until s,
          and_false (is_snoozed input.state),
          cold input.now input.cooldown_minutes input.last_delivered_at c,
          awake input.now day night,
          and_false (not (is_interrupt input.level)),
          and_false free,
          changed,
        )
        refl

  -- An item of a safety class is delivered exactly when its change is not the stored one, whatever
  -- the hour, its snooze, its last delivery and its level.
  pub decide-safety :
      (input : DecideDeliveryInput)
      → bypasses_all_gates input.safety_class ≡ true
      → (decide_delivery local_hour input).deliver
        ≡ not (is_same_change input.new_change_fingerprint input.stored_change_fingerprint)
  unfolding decide_delivery
  decide-safety input h =
      let same = is_same_change input.new_change_fingerprint input.stored_change_fingerprint in
      rw h (last same)
    where
      last : (b : Bool) → (if b then deferred unchanged else delivered).deliver ≡ not b
      last true = refl
      last false = refl
