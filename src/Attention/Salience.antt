-- ===== src/Attention/Salience.antt =====
-- packages/core/src/attention/salience.ts: the ladder that decides whether an item is delivered
-- now. The hour in the owner's time zone comes from Intl and is a parameter.
pub mod Gates
use Prim.Native.String.{String}
use jehad_os.Prelude.{
  ℕ, ◌+◌, ◌*◌, Bool, true, false, not, ◌&&◌, ◌||◌, Option, none, some, str_eq, ltb, leb,
  if◌then◌else◌,
}
use jehad_os.Attention.{
  AttentionLevel, interrupt, AttentionSafetyClass, unsafe_none, AttentionState, is_snoozed,
}

pub data DeferReason : Type 0 where
  is_snooze quiet_hours cooldown unchanged : DeferReason

pub record SalienceDecision : Type 0 where
  pub deliver : Bool
  pub defer_reason : Option DeferReason

pub record DecideDeliveryInput : Type 0 where
  pub level : AttentionLevel
  pub safety_class : AttentionSafetyClass
  pub state : AttentionState
  pub snoozed_until : Option ℕ
  pub last_delivered_at : Option ℕ
  pub new_change_fingerprint : Option String
  pub stored_change_fingerprint : Option String
  pub cooldown_minutes : ℕ
  pub now : ℕ

abbrev pub quiet_start_hour : ℕ
quiet_start_hour = 22

abbrev pub quiet_end_hour : ℕ
quiet_end_hour = 7

abbrev pub is_interrupt : AttentionLevel → Bool
is_interrupt interrupt = true
is_interrupt _ = false

abbrev pub bypasses_all_gates : AttentionSafetyClass → Bool
bypasses_all_gates unsafe_none = false
bypasses_all_gates _ = true

-- `snoozedUntil !== null && snoozedUntil > now`
abbrev pub is_after : ℕ → Option ℕ → Bool
is_after now none = false
is_after now (some until) = ltb now until

abbrev pub is_recent : ℕ → ℕ → Option ℕ → Bool
is_recent now minutes none = false
is_recent now minutes (some last) = ltb now (last + minutes * 60000)

abbrev pub is_same_change : (new stored : Option String) → Bool
is_same_change (some new) (some stored) = str_eq new stored
is_same_change _ _ = false

abbrev pub deferred : DeferReason → SalienceDecision
deferred reason = record { deliver = false; defer_reason = some reason }

abbrev pub delivered : SalienceDecision
delivered = record { deliver = true; defer_reason = none }

module _ (local_hour : ℕ → ℕ) where
  abbrev pub is_quiet_hours : ℕ → Bool
  is_quiet_hours now =
      let hour = local_hour now in leb quiet_start_hour hour || ltb hour quiet_end_hour

  unfoldable pub decide_delivery : DecideDeliveryInput → SalienceDecision
  decide_delivery input =
      let bypasses = bypasses_all_gates input.safety_class in
      if not bypasses && (is_snoozed input.state && is_after input.now input.snoozed_until)
      then deferred is_snooze
      else if not bypasses && (not (is_interrupt input.level) && is_quiet_hours input.now)
      then deferred quiet_hours
      else if not bypasses && is_recent input.now input.cooldown_minutes input.last_delivered_at
      then deferred cooldown
      else if is_same_change input.new_change_fingerprint input.stored_change_fingerprint
      then deferred unchanged
      else delivered
