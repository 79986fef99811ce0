-- ===== src/Attention/Occurrences.antt =====
-- packages/core/src/attention/service.ts: what openOrBumpOrReopen compares and writes, before any
-- statement: levels, identities, and the rows of an insert, a bump and a reopening.
use Prim.Native.String.{String}
use jehad_os.Prelude.{
  ℕ, suc, ◌+◌, ◌-◌, zero, Bool, true, false, not, ◌&&◌, Option, none, some, List, filter, str_eq,
  ltb, if◌then◌else◌,
}
use jehad_os.Attention.{
  AttentionLevel, inbox, digest, interrupt, open_, AttentionSafetyClass, unsafe_none,
  AttentionSourceType, AttentionItemKind, AttentionEvidenceRef, AttentionActionRef,
  AttentionItemRow, source_text, is_snoozed, first_of,
}
use jehad_os.Attention.Salience.{DeferReason, DecideDeliveryInput}

pub record OpenAttentionInput : Type 0 where
  pub principal_id : String
  pub source_type : AttentionSourceType
  pub source_object_id : String
  pub fingerprint : String
  pub kind : AttentionItemKind
  pub level : AttentionLevel
  pub safety_class : Option AttentionSafetyClass
  pub title : String
  pub summary : String
  pub why_it_matters : Option String
  pub evidence_refs : List AttentionEvidenceRef
  pub actions : List AttentionActionRef
  pub change_fingerprint : Option String

pub data OpenAttentionResultAction : Type 0 where
  opened bumped reopened : OpenAttentionResultAction

pub record OpenAttentionResult : Type 0 where
  pub action : OpenAttentionResultAction
  pub item : AttentionItemRow
  pub deliver_now : Bool
  pub defer_reason : Option DeferReason

abbrev pub default_cooldown_minutes : ℕ
default_cooldown_minutes = 60

abbrev pub level_rank : AttentionLevel → ℕ
level_rank digest = 1
level_rank inbox = 2
level_rank interrupt = 3

-- LEVEL_BY_RANK, at its indices 0, 1 and 2.
abbrev pub level_by_rank : ℕ → AttentionLevel
level_by_rank zero = digest
level_by_rank (suc zero) = inbox
level_by_rank (suc (suc n)) = interrupt

abbrev max : ℕ → ℕ → ℕ
max a b = if ltb a b then b else a

abbrev pub effective_level : (new stored : AttentionLevel) → AttentionLevel
effective_level new stored = level_by_rank (max (level_rank new) (level_rank stored) - 1)

abbrev pub level_risen : (new stored : AttentionLevel) → Bool
level_risen new stored = ltb (level_rank stored) (level_rank new)

-- The WHERE of the locking reads, and the UNIQUE key of the table.
abbrev pub has_identity :
    (principal_id : String)
    → AttentionSourceType
    → (source_object_id fingerprint : String) → AttentionItemRow
    → Bool
has_identity principal_id source_type source_object_id fingerprint row =
    str_eq row.principal_id principal_id
    && (str_eq (source_text row.source_type) (source_text source_type)
        && (str_eq row.source_object_id source_object_id && str_eq row.fingerprint fingerprint))

abbrev pub is_input_row : OpenAttentionInput → AttentionItemRow → Bool
is_input_row input =
    has_identity input.principal_id input.source_type input.source_object_id input.fingerprint

unfoldable pub find_prior : OpenAttentionInput → List AttentionItemRow → Option AttentionItemRow
find_prior input rows = first_of (filter (is_input_row input) rows)

abbrev or_none : Option AttentionSafetyClass → AttentionSafetyClass
or_none none = unsafe_none
or_none (some class_) = class_

unfoldable pub new_row : String → OpenAttentionInput → ℕ → AttentionItemRow
new_row id input now = record {
  id = id;
  principal_id = input.principal_id;
  source_type = input.source_type;
  source_object_id = input.source_object_id;
  fingerprint = input.fingerprint;
  kind = input.kind;
  state = open_;
  level = input.level;
  safety_class = or_none input.safety_class;
  title = input.title;
  summary = input.summary;
  why_it_matters = input.why_it_matters;
  evidence_refs = input.evidence_refs;
  actions = input.actions;
  occurrences = 1;
  change_fingerprint = input.change_fingerprint;
  first_raised_at = now;
  updated_at = now;
  seen_at = none;
  snoozed_until = none;
  snooze_count = 0;
  resolved_at = none;
  resolved_by = none;
  resolution_reason = none;
  last_delivered_at = none;
  delivery_attempts = 0;
  last_delivery_attempt_at = none;
}

-- What the bump and the reopening both refresh.
abbrev pub refreshed : OpenAttentionInput → ℕ → AttentionItemRow → AttentionItemRow
refreshed input now row = record row {
  occurrences = row.occurrences + 1;
  level = effective_level input.level row.level;
  title = input.title;
  summary = input.summary;
  why_it_matters = input.why_it_matters;
  change_fingerprint = input.change_fingerprint;
  evidence_refs = input.evidence_refs;
  actions = input.actions;
  updated_at = now;
}

unfoldable pub reopened_row : OpenAttentionInput → ℕ → AttentionItemRow → AttentionItemRow
reopened_row input now row = record (refreshed input now row) {
  state = open_;
  snoozed_until = none;
  resolved_at = none;
  resolved_by = none;
  resolution_reason = none;
}

unfoldable pub bumped_row : Bool → OpenAttentionInput → ℕ → AttentionItemRow → AttentionItemRow
bumped_row true input now row = record (refreshed input now row) {
  state = open_;
  snoozed_until = none;
}
bumped_row false input now row = refreshed input now row

abbrev pub fingerprint_changed : (new stored : Option String) → Bool
fingerprint_changed (some new) (some stored) = not (str_eq new stored)
fingerprint_changed _ _ = false

unfoldable pub wakes_from_snooze : OpenAttentionInput → AttentionItemRow → Bool
wakes_from_snooze input row =
    is_snoozed row.state && fingerprint_changed input.change_fingerprint row.change_fingerprint

-- The input of the ladder for a bump.
unfoldable pub bump_input : Bool → OpenAttentionInput → ℕ → AttentionItemRow → DecideDeliveryInput
bump_input wakes input now row = record {
  level = effective_level input.level row.level;
  safety_class = row.safety_class;
  state = if wakes then open_ else row.state;
  snoozed_until = if wakes then none else row.snoozed_until;
  last_delivered_at = row.last_delivered_at;
  new_change_fingerprint = input.change_fingerprint;
  stored_change_fingerprint = row.change_fingerprint;
  cooldown_minutes = default_cooldown_minutes;
  now = now;
}

abbrev pub with_id : String → AttentionItemRow → Bool
with_id id row = str_eq row.id id

abbrev pub taken : OpenAttentionInput → List AttentionItemRow → Bool
taken input rows = elim (find_prior input rows) [ none ↦ false | some row ↦ true ]
