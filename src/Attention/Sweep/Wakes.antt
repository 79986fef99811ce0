-- ===== src/Attention/Sweep/Wakes.antt =====
-- packages/core/src/attention/service.ts: the liveness sweep ends, and every snooze whose time has
-- passed is over after it.
use Prim.Native.String.{String}
use jehad_os.Prelude.{
  ℕ, suc, ◌≡◌, refl, sym, ap, ◌∙◌, subst, Bool, true, false, not, none, some, List, [], ◌∷◌, All,
  filter, take, length, ok, ◌>>=◌, and_then, if◌then◌else◌, ◌<◌, ◌+◌,
}
use jehad_os.Outcomes.Waits.{Date}
use jehad_os.Attention.{AttentionItemRow, liveness, AttentionDb, update_where, returning}
use jehad_os.Attention.Owner.{resolved_row, updated_where}
use jehad_os.Attention.Closing.{is_of_source, audit_some, resolve_attention_by_source}
use jehad_os.Attention.Listing.{order_by, raised_before}
use jehad_os.Attention.Sweep.{
  Registry, is_gone, resolve_liveness, sweep_row, sweep_rows, wake_expired, collected,
  liveness_sweep, SweepResult, collect, is_collectable, is_checked, is_expired_snooze, woken_row,
}
use jehad_os.Attention.Sweep.Collect.{collect-deletes}
use jehad_os.Attention.Table.{All-of, update_where-All, filter-All}
use jehad_os.Attention.Lookups.{update_where-settles, length-update_where}
use jehad_os.Attention.Effects.Emits.{IsSeeded, emit_all-ok}
use jehad_os.Attention.Effects.Sweeps.{by_source-items, wake_expired-items, collected-items}

abbrev alone : ℕ → AttentionDb → AttentionDb
alone n d = d

-- No snooze of the table has passed.
abbrev pub AreAwake : ℕ → List AttentionItemRow → Type 0
AreAwake now rows = All (λ row. is_expired_snooze now row ≡ false) rows

audit_some-IsSeeded :
    (action : String) (rows : List AttentionItemRow) (db : AttentionDb)
    → IsSeeded db
    → IsSeeded (audit_some action rows db)
audit_some-IsSeeded action [] db k = k
audit_some-IsSeeded action (row ∷ rows) db k = k

wake_expired-IsSeeded : (now : ℕ) (db : AttentionDb) → IsSeeded db → IsSeeded (wake_expired now db)
unfolding wake_expired
wake_expired-IsSeeded now db k =
    audit_some-IsSeeded "attention.woken"
      (returning (is_expired_snooze now) (woken_row now) db.items)
      (record db { items = update_where (is_expired_snooze now) (woken_row now) db.items }) k

module _ (idempotency_key_for : String → String → String) (mint : ℕ → String) (resolvers : Registry)
    (now : Date) (count : ℕ) where
  -- What the loop keeps: the domain, the number of rows, and that no snooze has passed.
  abbrev IsReady : AttentionDb → Type 0
  IsReady db = IsSeeded db × ((length db.items ≡ count) × AreAwake now.ms db.items)

  verdict-IsReady :
      (b : Bool) (item : AttentionItemRow) (db : AttentionDb)
      → IsReady db
      → (n : ℕ) × (after : AttentionDb) × ((if b
            then resolve_attention_by_source idempotency_key_for mint item.principal_id
                item.source_type item.source_object_id none liveness "liveness_gone" now db
            else ok (0, db))
          ≡ ok (n, after))
        × IsReady after
  unfolding resolve_attention_by_source
  verdict-IsReady false item db k = (0, db, refl, k)
  verdict-IsReady true item db k =
      let p = is_of_source item.principal_id item.source_type item.source_object_id none in
      let change = resolved_row liveness (some "liveness_gone") now.ms in
      let flipped = returning p change db.items in
      let next = updated_where p change db in
      let e = emit_all-ok idempotency_key_for mint flipped now liveness "liveness_gone" next k.0 in
      let after = audit_some "attention.resolved_by_source" flipped e.0 in
      let returned =
        ap
          (λ r. r >>= λ next.
            ok (length flipped, audit_some "attention.resolved_by_source" flipped next))
          e.1 in
      let rows =
        by_source-items idempotency_key_for mint item.principal_id item.source_type
          item.source_object_id none liveness "liveness_gone" now db after (length flipped)
          returned in
      (
        length flipped,
        after,
        returned,
        (
          audit_some-IsSeeded "attention.resolved_by_source" flipped e.0 e.2,
          subst (λ xs. (length xs ≡ count) × AreAwake now.ms xs) rows
              (
                length-update_where p change db.items ∙ k.1.0,
                update_where-All p change (λ row. is_expired_snooze now.ms row ≡ false) db.items
                    (All-of
                      (λ x.
                        p x ≡ true
                        → is_expired_snooze now.ms x ≡ false
                        → is_expired_snooze now.ms (change x) ≡ false)
                      db.items (λ x t s. refl))
                    k.1.1,
              ),
        ),
      )

  rows-IsReady :
      (moment : ℕ) (rows : List AttentionItemRow) (db : AttentionDb)
      → IsReady db
      → (n : ℕ) × (after : AttentionDb) × (sweep_rows idempotency_key_for mint resolvers alone
            moment rows now db
          ≡ ok (n, after))
        × IsReady after
  unfolding sweep_rows sweep_row
  rows-IsReady moment [] db k = (0, db, refl, k)
  rows-IsReady moment (item ∷ items) db k =
      let first = verdict-IsReady (is_gone (resolve_liveness resolvers item now.ms)) item db k in
      let rest = rows-IsReady (suc moment) items first.1 first.3 in
      let more = sweep_rows idempotency_key_for mint resolvers alone (suc moment) items now in
      (
        first.0 + rest.0,
        rest.1,
        ap (λ r. r >>= λ first. more first.1 >>= λ rest. ok (first.0 + rest.0, rest.1)) first.2
            ∙ ap (λ r. r >>= λ rest. ok (first.0 + rest.0, rest.1)) rest.2,
        rest.3,
      )

module _ (idempotency_key_for : String → String → String) (mint : ℕ → String)
    (resolvers : Registry) where
  -- With nobody else writing meanwhile, if the events' domain is seeded and the loop of deletes may
  -- take one round more than there are rows, the sweep returns a result, and no item is left snoozed
  -- past its time.
  pub sweep-AreAwake :
      (rounds limit : ℕ) (now : Date) (db : AttentionDb)
      → IsSeeded db
      → length db.items < rounds
      → (r : SweepResult) × (after : AttentionDb) × (liveness_sweep idempotency_key_for mint
            resolvers
            (λ n d. d)
            rounds
            limit
            now
            db
          ≡ ok (some (r, after)))
        × AreAwake now.ms after.items
  unfolding liveness_sweep
  sweep-AreAwake rounds limit now db k h =
      let awake = wake_expired now.ms db in
      let items = wake_expired-items now.ms db in
      let stale = take limit (order_by raised_before (filter is_checked awake.items)) in
      let ready =
        subst (λ xs. (length xs ≡ length db.items) × AreAwake now.ms xs) items
          (
            length-update_where (is_expired_snooze now.ms) (woken_row now.ms) db.items,
            update_where-settles (is_expired_snooze now.ms) (woken_row now.ms) db.items (λ y. refl),
          ) in
      let s =
        rows-IsReady idempotency_key_for mint resolvers now (length db.items) 1 stale awake
          (wake_expired-IsSeeded now.ms db k, ready) in
      let result : ℕ → SweepResult = λ n. record {
        checked = length stale;
        resolved_count = n;
        woken = length (filter (is_expired_snooze now.ms) db.items);
      } in
      let p = is_collectable now.ms in
      let moment = 1 + length stale in
      let c = collect-deletes p rounds moment s.1 (subst (λ n. n < rounds) (sym s.3.1.0) h) in
      let kept : AttentionDb = record s.1 { items = filter (λ row. not (p row)) s.1.items } in
      let r : ℕ × AttentionDb = (length (filter p s.1.items), kept) in
      (
        result s.0,
        collected r,
        ap
              (λ x. x >>= λ swept. ok (
                and_then (collect alone p rounds moment swept.1)
                  (λ r. some (result swept.0, collected r))))
              s.2
            ∙ ap (λ o. ok (and_then o (λ r. some (result s.0, collected r)))) c,
        subst (λ xs. AreAwake now.ms xs) (sym (collected-items r))
            (filter-All (λ row. is_expired_snooze now.ms row ≡ false) (λ row. not (p row)) s.1.items
              s.3.1.1),
      )
