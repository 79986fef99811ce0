-- ===== src/Attention.antt =====
-- packages/core/src/attention/types.ts and the table `attention_items` of service.ts: the items
-- that wait on the owner. A row is kept with its columns, a timestamp as its milliseconds, an
-- audit entry as its action, and a null field of an event's payload is left out. A statement of
-- the database runs whole; what a call that throws leaves behind is not kept.
pub mod Salience
pub mod Occurrences
pub mod Writes
pub mod Listing
pub mod Owner
pub mod Closing
pub mod Reopening
pub mod Sweep
pub mod Delivery
pub mod Table
pub mod Lookups
pub mod Machine
pub mod Effects
pub mod Calls
use Prim.Native.String.{String, ◌++◌ as ◌+++◌}
use jehad_os.Prelude.{
  ℕ, suc, Bool, true, false, ◌&&◌, Option, none, some, List, [], ◌∷◌, ◌++◌, map, filter, str_eq,
  if◌then◌else◌, Result, ok, err,
}
use jehad_os.Prelude.Unknown.{Number}
use jehad_os.Events.{EventIngestInput, EventStore, accept_event}
use jehad_os.Outcomes.Waits.{Date}

pub data AttentionLevel : Type 0 where
  inbox digest interrupt : AttentionLevel

pub data AttentionState : Type 0 where
  open_ seen snoozed resolved dismissed : AttentionState

pub data AttentionSafetyClass : Type 0 where
  unsafe_none security water safety : AttentionSafetyClass

pub data AttentionSourceType : Type 0 where
  watch outcome system : AttentionSourceType

pub data AttentionItemKind : Type 0 where
  outcome_ready outcome_blocked outcome_failed : AttentionItemKind
  watch_match missed_evidence scan_gap : AttentionItemKind

pub data AttentionResolvedBy : Type 0 where
  owner producer liveness by_system : AttentionResolvedBy

pub data EvidenceType : Type 0 where
  of_outcome of_gmail_message of_event of_artifact of_notification : EvidenceType

pub record AttentionEvidenceRef : Type 0 where
  pub kind : EvidenceType
  pub id : String

pub data AttentionActionKey : Type 0 where
  to_resolve to_dismiss to_snooze to_see to_rate to_open_outcome : AttentionActionKey

pub data ActionArg : Type 0 where
  text_arg : String → ActionArg
  number_arg : Number → ActionArg

pub record AttentionActionRef : Type 0 where
  pub key : AttentionActionKey
  pub args : List (String × ActionArg)

pub record AttentionItemRow : Type 0 where
  pub id : String
  pub principal_id : String
  pub source_type : AttentionSourceType
  pub source_object_id : String
  pub fingerprint : String
  pub kind : AttentionItemKind
  pub state : AttentionState
  pub level : AttentionLevel
  pub safety_class : AttentionSafetyClass
  pub title : String
  pub summary : String
  pub why_it_matters : Option String
  pub evidence_refs : List AttentionEvidenceRef
  pub actions : List AttentionActionRef
  pub occurrences : ℕ
  pub change_fingerprint : Option String
  pub first_raised_at : ℕ
  pub updated_at : ℕ
  pub seen_at : Option ℕ
  pub snoozed_until : Option ℕ
  pub snooze_count : ℕ
  pub resolved_at : Option ℕ
  pub resolved_by : Option AttentionResolvedBy
  pub resolution_reason : Option String
  pub last_delivered_at : Option ℕ
  pub delivery_attempts : ℕ
  pub last_delivery_attempt_at : Option ℕ

-- What every error of the subsystem stands for: a domain that is missing, the three guards of
-- `reopenAttentionByOwner`, the guard of `snoozeAttention`, and the violated UNIQUE constraint,
-- PRIMARY KEY and FOREIGN KEY of `principal_id`. `still_running` is no error of the source: it stands
-- for a sweep whose rounds are used up.
pub data AttentionError : Type 0 where
  domain_missing not_closed not_owner_closed window_expired : AttentionError
  bad_minutes identity_taken id_taken principal_missing still_running : AttentionError

-- `principals` has the keys of the table `principals`. `minted` counts the ids that were drawn.
pub record AttentionDb : Type 0 where
  pub principals : List String
  pub items : List AttentionItemRow
  pub store : EventStore
  pub audits : List String
  pub minted : ℕ

-- The column texts of `source_type`, `kind`, `level` and `resolved_by`.
abbrev pub source_text : AttentionSourceType → String
source_text watch = "watch"
source_text outcome = "outcome"
source_text system = "system"

abbrev pub kind_text : AttentionItemKind → String
kind_text outcome_ready = "outcome.ready"
kind_text outcome_blocked = "outcome.blocked"
kind_text outcome_failed = "outcome.failed"
kind_text watch_match = "watch.match"
kind_text missed_evidence = "system.missed_evidence"
kind_text scan_gap = "system.scan_gap"

abbrev pub level_text : AttentionLevel → String
level_text inbox = "inbox"
level_text digest = "digest"
level_text interrupt = "interrupt"

abbrev pub closer_text : AttentionResolvedBy → String
closer_text owner = "owner"
closer_text producer = "producer"
closer_text liveness = "liveness"
closer_text by_system = "system"

-- LIVE_STATES, and its complement.
abbrev pub is_live : AttentionState → Bool
is_live open_ = true
is_live seen = true
is_live snoozed = true
is_live resolved = false
is_live dismissed = false

abbrev pub is_snoozed : AttentionState → Bool
is_snoozed snoozed = true
is_snoozed _ = false

abbrev pub is_open : AttentionState → Bool
is_open open_ = true
is_open _ = false

-- `UPDATE ... WHERE p`, and the rows that its RETURNING answers.
abbrev pub update_where :
    (AttentionItemRow → Bool)
    → (AttentionItemRow → AttentionItemRow)
    → List AttentionItemRow
    → List AttentionItemRow
update_where p change [] = []
update_where p change (row ∷ rows) =
    (if p row then change row else row) ∷ update_where p change rows

abbrev pub returning :
    (AttentionItemRow → Bool)
    → (AttentionItemRow → AttentionItemRow)
    → List AttentionItemRow
    → List AttentionItemRow
returning p change rows = map change (filter p rows)

abbrev pub first_of : List AttentionItemRow → Option AttentionItemRow
first_of [] = none
first_of (row ∷ rows) = some row

-- `id = $1 AND principal_id = $2`
abbrev pub is_row : (principal_id id : String) → AttentionItemRow → Bool
is_row principal_id id row = str_eq row.id id && str_eq row.principal_id principal_id

unfoldable pub get_item_row :
    (principal_id id : String) → List AttentionItemRow → Option AttentionItemRow
get_item_row principal_id id rows = first_of (filter (is_row principal_id id) rows)

abbrev pub audit : String → AttentionDb → AttentionDb
audit action db = record db { audits = db.audits ++ action ∷ [] }

abbrev pub attention_event :
    (kind external_id : String) → List (String × String) → Date → EventIngestInput
attention_event kind external_id payload now = record {
  kind = kind;
  source = "internal";
  external_id = external_id;
  occurred_at = now.iso;
  domain_id = "personal";
  sensitivity = "normal";
  payload = payload;
}

abbrev pub reason_field : Option String → List (String × String)
reason_field none = []
reason_field (some reason) = ("reason", reason) ∷ []

module _ (idempotency_key_for : (source external_id : String) → String) (mint : ℕ → String) where
  unfoldable pub emit_event :
      EventIngestInput → Date → AttentionDb → Result AttentionError AttentionDb
  unfolding accept_event
  emit_event input now db =
      elim (accept_event idempotency_key_for (mint db.minted) now.iso input db.store) [
        | err e ↦ err domain_missing
        | ok r ↦ ok (record db { store = r.1; minted = suc db.minted })
      ]

  unfoldable pub emit_resolved_event :
      AttentionItemRow
      → Date
      → AttentionResolvedBy
      → Option String
      → AttentionDb
      → Result AttentionError AttentionDb
  unfolding emit_event
  emit_resolved_event item now by reason db =
      emit_event
        (attention_event "attention.item.resolved"
          ("attention-resolved:" +++ (item.id +++ (":" +++ now.iso)))
          (("itemId", item.id)
            ∷ (("principalId", item.principal_id)
                ∷ (("sourceType", source_text item.source_type)
                    ∷ (("sourceObjectId", item.source_object_id)
                        ∷ (("resolvedBy", closer_text by) ∷ reason_field reason)))))
          now)
        now db
