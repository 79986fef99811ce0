-- ===== src/Attention/Effects/Sweeps.antt =====
-- packages/core/src/attention/service.ts: the statements of the close by source, of the owner's
-- undo and of the liveness sweep.
use Prim.Native.String.{String}
use jehad_os.Prelude.{
  ℕ, zero, suc, length, ltb, ◌+◌, ◌≡◌, refl, sym, ap, ◌∙◌, subst, Bool, true, false, Option, none,
  some, List, [], ◌∷◌, filter, take, ok, ◌>>=◌, >>=-eq-ok, if◌then◌else◌, &&-eq-true, and_then,
  and_then-eq-some,
}
use jehad_os.Outcomes.Waits.{Date}
use jehad_os.Attention.{
  AttentionItemRow, AttentionSourceType, AttentionResolvedBy, liveness, AttentionDb, is_live,
  is_snoozed, update_where, returning, emit_resolved_event,
}
use jehad_os.Attention.Owner.{resolved_row, updated_where}
use jehad_os.Attention.Closing.{is_of_source, audit_some, emit_all, resolve_attention_by_source}
use jehad_os.Attention.Listing.{order_by, raised_before, is_due}
use jehad_os.Attention.Sweep.{
  Registry, is_gone, resolve_liveness, sweep_row, sweep_rows, wake_expired, collected, delete_chunk,
  chunk_size, liveness_sweep, SweepResult, collect, is_collectable, is_checked, is_expired_snooze,
  woken_row,
}
use jehad_os.Attention.Table.{All-of}
use jehad_os.Attention.Machine.{
  Edit, resolves, wakes_up, collects, Statements, no_more, concat, one,
}
use jehad_os.Attention.Effects.{Ran, ran_update, emit_resolved-items}

pub audit_some-items :
    (action : String) (rows : List AttentionItemRow) (db : AttentionDb)
    → db.items ≡ (audit_some action rows db).items
audit_some-items action [] db = refl
audit_some-items action (row ∷ rows) db = refl

pub collected-items : (r : ℕ × AttentionDb) → (collected r).items ≡ r.1.items
unfolding collected
collected-items (zero, db) = refl
collected-items (suc n, db) = refl

pub wake_expired-items :
    (now : ℕ) (db : AttentionDb)
    → update_where (is_expired_snooze now) (woken_row now) db.items ≡ (wake_expired now db).items
unfolding wake_expired
wake_expired-items now db =
    audit_some-items "attention.woken" (returning (is_expired_snooze now) (woken_row now) db.items)
      (record db { items = update_where (is_expired_snooze now) (woken_row now) db.items })

pub wake_expired-Ran : (now : ℕ) (db : AttentionDb) → Ran db (wake_expired now db)
wake_expired-Ran now db =
    ran_update (is_expired_snooze now) (woken_row now) db.items (wake_expired now db).items
      (All-of (λ row. is_expired_snooze now row ≡ true → Edit row (woken_row now row)) db.items
        (λ row t.
          wakes_up now (&&-eq-true (is_snoozed row.state) (is_due now row.snoozed_until) t).0))
      (wake_expired-items now db)

module _ (idempotency_key_for : String → String → String) (mint : ℕ → String) where
  emit_all-items :
      (rows : List AttentionItemRow) (now : Date) (by : AttentionResolvedBy) (reason : String)
      (db after : AttentionDb)
      → emit_all idempotency_key_for mint rows now by reason db ≡ ok after
      → db.items ≡ after.items
  unfolding emit_all
  emit_all-items [] now by reason db after h = let e : db ≡ after = cc in ap (λ d. d.items) e
  emit_all-items (item ∷ items) now by reason db after h =
      let s =
        >>=-eq-ok (emit_resolved_event idempotency_key_for mint item now by (some reason) db)
          (λ next. emit_all idempotency_key_for mint items now by reason next) h in
      emit_resolved-items idempotency_key_for mint item now by (some reason) db s.0 s.1
      ∙ emit_all-items items now by reason s.0 after s.2

  pub by_source-items :
      (principal_id : String) (source_type : AttentionSourceType) (source_object_id : String)
      (fingerprint : Option String) (by : AttentionResolvedBy) (reason : String) (now : Date)
      (db after : AttentionDb) (n : ℕ)
      → resolve_attention_by_source idempotency_key_for mint principal_id source_type
          source_object_id fingerprint by reason now db
        ≡ ok (n, after)
      → update_where
          (is_of_source principal_id source_type source_object_id fingerprint)
          (resolved_row by (some reason) now.ms)
          db.items
        ≡ after.items
  unfolding resolve_attention_by_source
  by_source-items principal_id source_type source_object_id fingerprint by reason now db after n h =
      let p = is_of_source principal_id source_type source_object_id fingerprint in
      let change = resolved_row by (some reason) now.ms in
      let flipped = returning p change db.items in
      let s =
        >>=-eq-ok
          (emit_all idempotency_key_for mint flipped now by reason (updated_where p change db))
          (λ next. ok (length flipped, audit_some "attention.resolved_by_source" flipped next)) h in
      let e : audit_some "attention.resolved_by_source" flipped s.0 ≡ after = cc in
      emit_all-items flipped now by reason (updated_where p change db) s.0 s.1
      ∙ (audit_some-items "attention.resolved_by_source" flipped s.0 ∙ ap (λ d. d.items) e)

  pub by_source-Ran :
      (principal_id : String) (source_type : AttentionSourceType) (source_object_id : String)
      (fingerprint : Option String) (by : AttentionResolvedBy) (reason : String) (now : Date)
      (db after : AttentionDb) (n : ℕ)
      → resolve_attention_by_source idempotency_key_for mint principal_id source_type
          source_object_id fingerprint by reason now db
        ≡ ok (n, after)
      → Ran db after
  by_source-Ran principal_id source_type source_object_id fingerprint by reason now db after n h =
      let p = is_of_source principal_id source_type source_object_id fingerprint in
      let change = resolved_row by (some reason) now.ms in
      ran_update p change db.items after.items
        (All-of (λ row. p row ≡ true → Edit row (change row)) db.items
          (λ row t. resolves by (some reason) now.ms (&&-eq-true _ (is_live row.state) t).1))
        (by_source-items principal_id source_type source_object_id fingerprint by reason now db
          after n h)

  module _ (resolvers : Registry) (interfere : ℕ → AttentionDb → AttentionDb)
      (others : (n : ℕ) (d : AttentionDb) → Ran d (interfere n d)) where
    one_verdict :
        (b : Bool) (item : AttentionItemRow) (now : Date) (db after : AttentionDb) (n : ℕ)
        → (if b
            then resolve_attention_by_source idempotency_key_for mint item.principal_id
                item.source_type item.source_object_id none liveness "liveness_gone" now db
            else ok (0, db))
          ≡ ok (n, after)
        → Ran db after
    one_verdict true item now db after n h =
        by_source-Ran item.principal_id item.source_type item.source_object_id none liveness
          "liveness_gone" now db after n h
    one_verdict false item now db after n h =
        let e : db ≡ after = cc in subst (λ d. Ran db d) e no_more

    sweep_row-Ran :
        (item : AttentionItemRow) (now : Date) (db after : AttentionDb) (n : ℕ)
        → sweep_row idempotency_key_for mint resolvers interfere item now db ≡ ok (n, after)
        → Ran db after
    unfolding sweep_row
    sweep_row-Ran item now db after n h =
        one_verdict (is_gone (resolve_liveness resolvers item now.ms)) item now db after n h

    pub sweep_rows-Ran :
        (moment : ℕ) (rows : List AttentionItemRow) (now : Date) (db after : AttentionDb) (n : ℕ)
        → sweep_rows idempotency_key_for mint resolvers interfere moment rows now db ≡ ok (n, after)
        → Ran db after
    unfolding sweep_rows
    sweep_rows-Ran moment [] now db after n h =
        let e : db ≡ after = cc in subst (λ d. Ran db d) e no_more
    sweep_rows-Ran moment (item ∷ items) now db after n h =
        let here = interfere moment db in
        let more = sweep_rows idempotency_key_for mint resolvers interfere (suc moment) items now in
        let s =
          >>=-eq-ok (sweep_row idempotency_key_for mint resolvers interfere item now here)
            (λ first. more first.1 >>= λ rest. ok (first.0 + rest.0, rest.1)) h in
        let t = >>=-eq-ok (more s.0.1) (λ rest. ok (s.0.0 + rest.0, rest.1)) s.2 in
        let e : t.0.1 ≡ after = cc in
        concat (others moment db) (
          concat (sweep_row-Ran item now here s.0.1 s.0.0 s.1) (
            subst (λ d. Ran s.0.1 d) e
              (sweep_rows-Ran (suc moment) items now s.0.1 t.0.1 t.0.0 t.1)))

    -- One round of deletes that ends the loop, or that others' statements follow.
    round-Ran :
        (now limit : ℕ) (here : AttentionDb) (b : Bool) (more : Option (ℕ × AttentionDb))
        (r : ℕ × AttentionDb)
        → let c = delete_chunk (is_collectable now) limit here.items in
          ((q : ℕ × AttentionDb) → more ≡ some q → Ran (record here { items = c.1 }) q.1)
          → (elim b [
            | true ↦ some (c.0, record here { items = c.1 })
            | false ↦ and_then more (λ q. some (c.0 + q.0, q.1))
          ])
            ≡ some r
          → Ran here r.1
    round-Ran now limit here true more r k h =
        let c = delete_chunk (is_collectable now) limit here.items in
        let left : AttentionDb = record here { items = c.1 } in
        let e : left ≡ r.1 = cc in subst (λ d. Ran here d) e (one (collects now limit))
    round-Ran now limit here false more r k h =
        let c = delete_chunk (is_collectable now) limit here.items in
        let s = and_then-eq-some more (λ q. some (c.0 + q.0, q.1)) h in
        let e : s.0.1 ≡ r.1 = cc in
        subst (λ d. Ran here d) e (concat (one (collects now limit)) (k s.0 s.1))

    collect-Ran :
        (now rounds moment : ℕ) (db : AttentionDb) (r : ℕ × AttentionDb)
        → collect interfere (is_collectable now) rounds moment db ≡ some r
        → Ran db r.1
    unfolding collect
    collect-Ran now zero moment db r h = cc
    collect-Ran now (suc rounds) moment db r h =
        let here = interfere moment db in
        let c = delete_chunk (is_collectable now) chunk_size here.items in
        let left : AttentionDb = record here { items = c.1 } in
        concat (others moment db) (
          round-Ran now chunk_size here (ltb c.0 chunk_size)
            (collect interfere (is_collectable now) rounds (suc moment) left) r
            (λ q e. collect-Ran now rounds (suc moment) left q e) h)

    pub liveness_sweep-Ran :
        (rounds limit : ℕ) (now : Date) (db after : AttentionDb) (r : SweepResult)
        → liveness_sweep idempotency_key_for mint resolvers interfere rounds limit now db
          ≡ ok (some (r, after))
        → Ran db after
    unfolding liveness_sweep
    liveness_sweep-Ran rounds limit now db after r h =
        let awake = wake_expired now.ms db in
        let here = interfere 0 awake in
        let stale = take limit (order_by raised_before (filter is_checked here.items)) in
        let done : ℕ × AttentionDb → ℕ × AttentionDb → Option (SweepResult × AttentionDb) =
          λ swept r. some (
            record {
              checked = length stale;
              resolved_count = swept.0;
              woken = length (filter (is_expired_snooze now.ms) db.items);
            },
            collected r,
          ) in
        let collect_ = collect interfere (is_collectable now.ms) rounds (1 + length stale) in
        let s =
          >>=-eq-ok (sweep_rows idempotency_key_for mint resolvers interfere 1 stale now here)
            (λ swept. ok (and_then (collect_ swept.1) (done swept))) h in
        let k : and_then (collect_ s.0.1) (done s.0) ≡ some (r, after) = cc in
        let c = and_then-eq-some (collect_ s.0.1) (done s.0) k in
        let e : collected c.0 ≡ after = cc in
        let last = sym (collected-items c.0) ∙ ap (λ d. d.items) e in
        concat (wake_expired-Ran now.ms db) (
          concat (others 0 awake) (
            concat (sweep_rows-Ran 1 stale now here s.0.1 s.0.0 s.1) (
              subst (λ xs. Statements s.0.1.items xs) last
                (collect-Ran now.ms rounds (1 + length stale) s.0.1 c.0 c.1))))
