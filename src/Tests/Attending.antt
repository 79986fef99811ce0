-- ===== src/Tests/Attending.antt =====
-- An item that is opened, snoozed, woken, dismissed and brought back.
use Prim.Native.String.{String}
use jehad_os.Prelude.{
  ◌*◌, ◌+◌, ℕ, ◌≡◌, ◌≢◌, ap, ◌↔◌, refl, true, false, not, none, some, List, [], ◌∷◌, filter, length,
  ok, arith, Option,
}
use jehad_os.Prelude.Unknown.{Number, finite, is_positive}
use jehad_os.Events.{find_key, insert_event, has_domain, accept_event}
use jehad_os.Outcomes.Waits.{Date}
use jehad_os.Attention.{
  AttentionItemRow, outcome, outcome_ready, inbox, unsafe_none, water, open_, snoozed, AttentionDb,
  get_item_row, emit_event, emit_resolved_event,
}
use jehad_os.Attention.Salience.{
  DecideDeliveryInput, decide_delivery, delivered, is_same_change, quiet_hours,
}
use jehad_os.Attention.Salience.Gates.{decide-delivers, decide-safety}
use jehad_os.Attention.Occurrences.{
  OpenAttentionInput, OpenAttentionResult, find_prior, new_row, reopened_row, bumped_row,
  wakes_from_snooze, bump_input, with_id,
}
use jehad_os.Attention.Writes.{
  bump_or_reopen, accept_opened_event, insert_opened, after_race, insert_or_race, open_found,
  open_or_bump_or_reopen,
}
use jehad_os.Attention.Writes.Refines.{item_of}
use jehad_os.Attention.Writes.Asked.{IsAsked}
use jehad_os.Attention.Writes.Upsert.{open-Upserts}
use jehad_os.Attention.Writes.Woken.{bump-woken_quiet}
use jehad_os.Attention.Owner.{
  mark_seen, snooze_attention, resolve_attention, dismiss_attention, dismissed_row,
}
use jehad_os.Attention.Closing.{emit_all, resolve_attention_by_source}
use jehad_os.Attention.Reopening.{check_reopen, undo_close, reopen_found, reopen_attention_by_owner}
use jehad_os.Attention.Reopening.Undo.{CanUndo, reopen-ok_iff}
use jehad_os.Attention.Reopening.RoundTrip.{reopen-dismiss}
use jehad_os.Attention.Listing.{order_by, is_listed_before, is_listed, list_open_attention}
use jehad_os.Attention.Sweep.{
  find_resolver, resolve_liveness, delete_chunk, collect, is_collectable, sweep_row, sweep_rows,
  wake_expired, collected, liveness_sweep, SweepResult,
}
use jehad_os.Attention.Sweep.Collect.{collect-deletes}
use jehad_os.Attention.Sweep.Wakes.{AreAwake, sweep-AreAwake}
use jehad_os.Attention.Delivery.{attempted_row, mark_delivery_attempted, stamp_attention_delivered}
use jehad_os.Attention.Table.{All-of}
use jehad_os.Attention.Effects.{Ran}
use jehad_os.Attention.Machine.{Edit, attempts, updates, one, no_more}
use jehad_os.Attention.Machine.Rows.{IsSound}
use jehad_os.Attention.Calls.{Call, open_call, snooze_call, run, step, run-IsSound}

attending : Unit {0}
unfolding find_key insert_event has_domain accept_event get_item_row emit_event emit_resolved_event
    decide_delivery find_prior new_row reopened_row bumped_row wakes_from_snooze bump_input
    bump_or_reopen accept_opened_event insert_opened after_race insert_or_race open_found
    open_or_bump_or_reopen mark_seen snooze_attention resolve_attention dismiss_attention emit_all
    resolve_attention_by_source check_reopen undo_close reopen_found reopen_attention_by_owner
    order_by is_listed_before is_listed list_open_attention find_resolver resolve_liveness
    delete_chunk collect sweep_row sweep_rows wake_expired collected liveness_sweep run step
    is_positive mark_delivery_attempted stamp_attention_delivered
attending = tt

abbrev key_for : String → String → String
key_for source external_id = external_id

abbrev mint : ℕ → String
mint n = "id"

abbrev at_noon : ℕ → ℕ
at_noon ms = 12

abbrev at_night : ℕ → ℕ
at_night ms = 23

abbrev day : Date
day = record { ms = 1000; iso = "t1" }

abbrev later : Date
later = record { ms = 2000; iso = "t2" }

abbrev report : OpenAttentionInput
report = record {
  principal_id = "p";
  source_type = outcome;
  source_object_id = "o";
  fingerprint = "outcome:o:ready";
  kind = outcome_ready;
  level = inbox;
  safety_class = none;
  title = "Title";
  summary = "Summary";
  why_it_matters = none;
  evidence_refs = [];
  actions = [];
  change_fingerprint = some "second";
}

abbrev other_report : OpenAttentionInput
other_report = record report { fingerprint = "outcome:o:blocked" }

abbrev item : AttentionItemRow
item = record {
  id = "i";
  principal_id = "p";
  source_type = outcome;
  source_object_id = "o";
  fingerprint = "outcome:o:ready";
  kind = outcome_ready;
  state = snoozed;
  level = inbox;
  safety_class = unsafe_none;
  title = "Title";
  summary = "Summary";
  why_it_matters = none;
  evidence_refs = [];
  actions = [];
  occurrences = 1;
  change_fingerprint = some "first";
  first_raised_at = 0;
  updated_at = 500;
  seen_at = none;
  snoozed_until = some 1500;
  snooze_count = 1;
  resolved_at = none;
  resolved_by = none;
  resolution_reason = none;
  last_delivered_at = none;
  delivery_attempts = 0;
  last_delivery_attempt_at = none;
}

abbrev table : AttentionDb
table = record {
  principals = "p" ∷ [];
  items = item ∷ [];
  store = record { domains = "personal" ∷ []; events = []; outbox = [] };
  audits = [];
  minted = 0;
}

table-IsSound : IsSound table.items
table-IsSound = (((tt, (tt, omega arith)), tt), ((tt, tt), (tt, tt)))

abbrev twice : List (Date × Call)
twice = (day, open_call report) ∷ ((later, snooze_call "p" "i" (finite false 5 0)) ∷ [])

abbrev minutes_ms : Number → ℕ
minutes_ms m = 300000

-- Before each call, the delivery of the item is stamped.
abbrev stamps : ℕ → AttentionDb → AttentionDb
stamps n db = mark_delivery_attempted "i" 900 db

stamps-Ran : (n : ℕ) (db : AttentionDb) → Ran db (stamps n db)
unfolding mark_delivery_attempted
stamps-Ran n db = one (
    updates (with_id "i") (attempted_row 900) (
      All-of (λ row. with_id "i" row ≡ true → Edit row (attempted_row 900 row)) db.items
        (λ row t. attempts 900)))

ran_twice :
    (after : AttentionDb) × (run key_for mint at_noon minutes_ms []
        (λ n m d. d)
        stamps
        0
        twice
        table
      ≡ ok after)
unfolding attending
ran_twice = (_, refl)

run-IsSound_example : IsSound ran_twice.0.items
run-IsSound_example =
    run-IsSound key_for mint at_noon minutes_ms [] (λ n m d. d) stamps twice 0 table ran_twice.0
      (λ n m d. no_more) stamps-Ran table-IsSound ran_twice.1

abbrev Written : Type 0
Written =
    (r : OpenAttentionResult) × (after : AttentionDb) × (open_or_bump_or_reopen key_for mint at_noon
        (λ n d. d) report day table
      ≡ ok (r, after))
    × IsAsked "id" report 1000 (item_of table.items report) r.item
    × (item_of after.items report ≡ some r.item)
    × (item_of after.items other_report ≡ item_of table.items other_report)

other_identity : ◌≢◌ {A = String} "outcome:o:blocked" "outcome:o:ready"
other_identity e = cc

open-Upserts_example : Written
unfolding attending
open-Upserts_example =
    open-Upserts key_for mint at_noon report day table other_report refl table-IsSound refl refl
      (λ e. other_identity (ap (λ x. x.3) e))

bump-woken_quiet_example :
    let r = (bump_or_reopen key_for mint at_night report item 1000 table).0 in
    (r.item.state ≡ open_) × ((r.deliver_now ≡ false) × (r.defer_reason ≡ some quiet_hours))
unfolding attending
bump-woken_quiet_example =
    bump-woken_quiet key_for mint at_night report item 1000 table refl refl refl refl refl refl

abbrev back : AttentionItemRow
back = record item { state = open_; updated_at = 2000 }

reopen-dismiss_example :
    (mid after : AttentionDb) × (dismiss_attention key_for mint "p" "i" day table
      ≡ ok (some (dismissed_row 1000 item), mid))
    × (reopen_attention_by_owner key_for mint (λ d. d) "p" "i" later mid ≡ ok (some back, after))
    × (get_item_row "p" "i" after.items ≡ some back)
unfolding attending
reopen-dismiss_example =
    reopen-dismiss key_for mint "p" "i" day later item table refl refl refl (omega arith)

abbrev closed_table : AttentionDb
closed_table = record table { items = dismissed_row 1000 item ∷ [] }

reopen-ok_iff_example :
    ((x : Option AttentionItemRow × AttentionDb) × (reopen_attention_by_owner key_for mint
          (λ d. d)
          "p"
          "i"
          later
          closed_table
        ≡ ok x))
    ↔ CanUndo 2000 (dismissed_row 1000 item)
unfolding attending
reopen-ok_iff_example =
    reopen-ok_iff key_for mint "p" "i" (λ d. d) later closed_table (dismissed_row 1000 item) refl
      refl

sweep-AreAwake_example :
    (r : SweepResult) × (after : AttentionDb) × (liveness_sweep key_for mint []
        (λ n d. d)
        2
        500
        later
        table
      ≡ ok (some (r, after)))
    × AreAwake 2000 after.items
unfolding attending
sweep-AreAwake_example = sweep-AreAwake key_for mint [] 2 500 later table refl (omega arith)

abbrev far : ℕ
far = 10 * 86400000 + (30 * 86400000)

abbrev emptied : AttentionDb
emptied = record closed_table {
  items = filter (λ row. not (is_collectable far row)) closed_table.items;
}

collect-deletes_example :
    collect (λ n d. d) (is_collectable far) 2 0 closed_table
    ≡ some (length (filter (is_collectable far) closed_table.items), emptied)
collect-deletes_example = collect-deletes (is_collectable far) 2 0 closed_table (omega arith)

abbrev asked : DecideDeliveryInput
asked = record {
  level = inbox;
  safety_class = unsafe_none;
  state = snoozed;
  snoozed_until = some 1500;
  last_delivered_at = some 100;
  new_change_fingerprint = some "second";
  stored_change_fingerprint = some "first";
  cooldown_minutes = 60;
  now = 5000000;
}

decide-delivers_example : decide_delivery at_noon asked ≡ delivered
unfolding attending
decide-delivers_example =
    decide-delivers at_noon asked refl (omega arith) (omega arith) (omega arith) (omega arith)

abbrev leak : DecideDeliveryInput
leak = record asked { safety_class = water; now = 1000 }

decide-safety_example :
    (decide_delivery at_night leak).deliver ≡ not (is_same_change (some "second") (some "first"))
unfolding attending
decide-safety_example = decide-safety at_night leak refl

-- A live snooze of an item without a safety class holds it back.
held : (decide_delivery at_noon (record asked { now = 1000 })).deliver ≡ false
unfolding attending
held = refl

-- A snooze that has passed is on the owner's list, one that has not is not.
listed : length (list_open_attention "p" 2000 false none table.items) ≡ 1
unfolding attending
listed = refl

hidden : list_open_attention "p" 1000 false none table.items ≡ []
unfolding attending
hidden = refl
