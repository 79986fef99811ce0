-- ===== src/Attention/Effects/Upserts.antt =====
-- packages/core/src/attention/service.ts: the statements of openOrBumpOrReopen, between which other
-- transactions may run statements of theirs.
use Prim.Native.String.{String}
use jehad_os.Prelude.{
  ℕ, suc, ◌≡◌, refl, sym, ap, ◌∙◌, subst, Bool, true, false, not, Option, none, some, List, All-map,
  any, Result, ok, err, ◌>>=◌, >>=-eq-ok, throw_if, if◌then◌else◌,
}
use jehad_os.Outcomes.Waits.{Date}
use jehad_os.Attention.{
  AttentionItemRow, AttentionError, identity_taken, id_taken, principal_missing, AttentionDb,
  is_live, audit,
}
use jehad_os.Attention.Occurrences.{
  OpenAttentionInput, OpenAttentionResult, opened, is_input_row, find_prior, new_row, bumped_row,
  reopened_row, wakes_from_snooze, with_id, taken,
}
use jehad_os.Attention.Writes.{
  is_known, bump_or_reopen, accept_opened_event, insert_row, insert_opened, after_race,
  insert_or_race, open_or_bump_or_reopen, open_found,
}
use jehad_os.Attention.Table.{AreDistinct}
use jehad_os.Attention.Machine.{Edit, reopens, Admits, updates, inserts, Statements, concat, one}
use jehad_os.Attention.Machine.Rows.{same_id, IsSound, Statements-IsSound}
use jehad_os.Attention.Effects.{Ran, emit_event-items}
use jehad_os.Attention.Effects.Prior.{found-only, bump-Edit, wakes-snoozed, free, not_thrown}

module _ (idempotency_key_for : String → String → String) (mint : ℕ → String) (local_hour : ℕ → ℕ)
    (input : OpenAttentionInput) where
  either :
      (db : AttentionDb) (b : Bool) (x y : OpenAttentionResult × AttentionDb)
      → (b ≡ true → Ran db x.1)
      → (b ≡ false → Ran db y.1)
      → Ran db (if b then x else y).1
  either db true x y h k = h refl
  either db false x y h k = k refl

  found-Admits :
      (prior : AttentionItemRow) (rows : List AttentionItemRow)
      (change : AttentionItemRow → AttentionItemRow)
      → AreDistinct same_id rows
      → find_prior input rows ≡ some prior
      → Edit prior (change prior)
      → Admits (with_id prior.id) change rows
  unfolding find_prior
  found-Admits prior rows change d f e =
      All-map (λ row same t. subst (λ x. Edit x (change x)) (sym (same t)) e) rows
        (found-only (is_input_row input) rows prior d f)

  pub bump_or_reopen-Ran :
      (prior : AttentionItemRow) (now : ℕ) (db : AttentionDb)
      → AreDistinct same_id db.items
      → find_prior input db.items ≡ some prior
      → Ran db (bump_or_reopen idempotency_key_for mint local_hour input prior now db).1
  unfolding bump_or_reopen
  bump_or_reopen-Ran prior now db d f =
      let w = wakes_from_snooze input prior in
      either db (is_live prior.state) _ _
        (λ l. one (
          updates (with_id prior.id) (bumped_row w input now) (
            found-Admits prior db.items (bumped_row w input now) d f
              (bump-Edit w input now prior l (wakes-snoozed input prior)))))
        (λ c. one (
          updates (with_id prior.id) (reopened_row input now)
            (found-Admits prior db.items (reopened_row input now) d f (reopens input now c))))

  insert_opened-Ran :
      (id : String) (now : Date) (db after : AttentionDb) (r : OpenAttentionResult)
      → find_prior input db.items ≡ none
      → insert_opened idempotency_key_for mint local_hour id input now db ≡ ok (r, after)
      → Ran db after
  unfolding insert_opened accept_opened_event
  insert_opened-Ran id now db after r f h =
      let item = new_row id input now.ms in
      let row = insert_row idempotency_key_for mint local_hour id input now.ms db in
      let announce_ = accept_opened_event idempotency_key_for mint local_hour item now row in
      let result : OpenAttentionResult = record {
        action = opened;
        item = item;
        deliver_now = true;
        defer_reason = none;
      } in
      let last : AttentionDb → Result AttentionError (OpenAttentionResult × AttentionDb) =
        λ next. ok (result, audit "attention.opened" next) in
      let s =
        >>=-eq-ok (throw_if (any (with_id id) db.items) id_taken)
          (λ _. throw_if (not (is_known input db)) principal_missing >>= λ _. announce_ >>= last)
          h in
      let p =
        >>=-eq-ok (throw_if (not (is_known input db)) principal_missing) (λ _. announce_ >>= last)
          s.2 in
      let t = >>=-eq-ok announce_ last p.2 in
      let e : audit "attention.opened" t.0 ≡ after = cc in
      let fresh : any (with_id id) db.items ≡ false = not_thrown (any (with_id id) db.items) s.1 in
      subst (λ xs. Statements db.items xs)
        (emit_event-items idempotency_key_for mint _ now row t.0 t.1 ∙ ap (λ d. d.items) e)
        (one (inserts id input now.ms fresh f))

  module _ (interfere : ℕ → AttentionDb → AttentionDb)
      (others : (n : ℕ) (d : AttentionDb) → Ran d (interfere n d)) where
    retried :
        (b : Bool) (id : String) (now : Date) (db after : AttentionDb) (r : OpenAttentionResult)
        → taken input db.items ≡ b
        → (if b
            then err identity_taken
            else insert_opened idempotency_key_for mint local_hour id input now db)
          ≡ ok (r, after)
        → Ran db after
    retried true id now db after r t h = cc
    retried false id now db after r t h =
        insert_opened-Ran id now db after r (free input db.items t) h

    after_race-Ran :
        (found : Option AttentionItemRow) (id : String) (now : Date) (db after : AttentionDb)
        (r : OpenAttentionResult)
        → AreDistinct same_id db.items
        → find_prior input db.items ≡ found
        → after_race idempotency_key_for mint local_hour interfere id input now db found
          ≡ ok (r, after)
        → Ran db after
    unfolding after_race
    after_race-Ran (some row) id now db after r d f h =
        let done = bump_or_reopen idempotency_key_for mint local_hour input row now.ms db in
        let e : done ≡ (r, after) = cc in
        subst (λ x. Ran db x.1) e (bump_or_reopen-Ran row now.ms db d f)
    after_race-Ran none id now db after r d f h =
        concat (others 3 db)
          (retried (taken input (interfere 3 db).items) id now (interfere 3 db) after r refl h)

    raced :
        (b : Bool) (id : String) (now : Date) (db after : AttentionDb) (r : OpenAttentionResult)
        → IsSound db.items
        → taken input db.items ≡ b
        → (if b
            then after_race idempotency_key_for mint local_hour interfere id input now
                (interfere 2 db)
                (find_prior input (interfere 2 db).items)
            else insert_opened idempotency_key_for mint local_hour id input now db)
          ≡ ok (r, after)
        → Ran db after
    raced true id now db after r k t h =
        let later = interfere 2 db in
        let sound = Statements-IsSound db.items later.items (others 2 db) k in
        concat (others 2 db)
          (after_race-Ran (find_prior input later.items) id now later after r sound.1.0 refl h)
    raced false id now db after r k t h =
        insert_opened-Ran id now db after r (free input db.items t) h

    open_found-Ran :
        (found : Option AttentionItemRow) (now : Date) (db after : AttentionDb)
        (r : OpenAttentionResult)
        → IsSound db.items
        → find_prior input db.items ≡ found
        → open_found idempotency_key_for mint local_hour interfere input now db found
          ≡ ok (r, after)
        → Ran db after
    unfolding open_found insert_or_race
    open_found-Ran (some prior) now db after r k f h =
        let done = bump_or_reopen idempotency_key_for mint local_hour input prior now.ms db in
        let e : done ≡ (r, after) = cc in
        subst (λ x. Ran db x.1) e (bump_or_reopen-Ran prior now.ms db k.1.0 f)
    open_found-Ran none now db after r k f h =
        let first = interfere 1 db in
        let drawn = record first { minted = suc first.minted } in
        concat (others 1 db) (
          raced (taken input first.items) (mint first.minted) now drawn after r
            (Statements-IsSound db.items first.items (others 1 db) k) refl h)

    pub open-Ran :
        (now : Date) (db after : AttentionDb) (r : OpenAttentionResult)
        → IsSound db.items
        → open_or_bump_or_reopen idempotency_key_for mint local_hour interfere input now db
          ≡ ok (r, after)
        → Ran db after
    unfolding open_or_bump_or_reopen
    open-Ran now db after r k h = open_found-Ran (find_prior input db.items) now db after r k refl h
