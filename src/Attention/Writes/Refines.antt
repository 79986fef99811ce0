-- ===== src/Attention/Writes/Refines.antt =====
-- packages/core/src/attention/service.ts: openOrBumpOrReopen writes one entry of the map from
-- identities to items that the table stands for.
use Prim.Native.String.{String}
use jehad_os.Prelude.{
  and_false, ℕ, ◌≡◌, refl, sym, ap, ◌∙◌, subst, Bool, true, false, not, ◌&&◌, Option, none, some,
  List, [], ◌∷◌, All, All-map, filter, any, Result, ok, ◌>>=◌, throw_if, eq_iff, Bool-cases, inl,
  inr, if◌then◌else◌,
}
use jehad_os.Outcomes.Waits.{Date}
use jehad_os.Attention.{
  AttentionItemRow, AttentionError, id_taken, principal_missing, AttentionDb, is_live, source_text,
  update_where, first_of, audit,
}
use jehad_os.Attention.Occurrences.{
  OpenAttentionInput, OpenAttentionResult, opened, is_input_row, find_prior, new_row, bumped_row,
  reopened_row, wakes_from_snooze, with_id, taken,
}
use jehad_os.Attention.Writes.{
  is_known, bump_or_reopen, accept_opened_event, insert_row, insert_opened,
}
use jehad_os.Attention.Table.{AreDistinct, first_of-All}
use jehad_os.Attention.Lookups.{
  found-updated, update_where-same, found-elsewhere, found-appended, or_last,
}
use jehad_os.Attention.Machine.Rows.{same_id}
use jehad_os.Attention.Effects.{emit_event-items}
use jehad_os.Attention.Effects.Emits.{IsSeeded, emit_event-ok}
use jehad_os.Attention.Effects.Prior.{found-only}

-- The row that the call writes, in the terms of its statements.
abbrev pub written : String → OpenAttentionInput → ℕ → Option AttentionItemRow → AttentionItemRow
written id input now none = new_row id input now
written id input now (some prior) =
    if is_live prior.state
    then bumped_row (wakes_from_snooze input prior) input now prior
    else reopened_row input now prior

-- The map: the item that a table has for the identity of an input.
abbrev pub item_of : List AttentionItemRow → OpenAttentionInput → Option AttentionItemRow
item_of rows input = find_prior input rows

bumped-identity :
    (b : Bool) (other input : OpenAttentionInput) (now : ℕ) (row : AttentionItemRow)
    → is_input_row other (bumped_row b input now row) ≡ is_input_row other row
unfolding bumped_row
bumped-identity true other input now row = refl
bumped-identity false other input now row = refl

reopened-identity :
    (other input : OpenAttentionInput) (now : ℕ) (row : AttentionItemRow)
    → is_input_row other (reopened_row input now row) ≡ is_input_row other row
unfolding reopened_row
reopened-identity other input now row = refl

module _ (q g : AttentionItemRow → Bool) (prior : AttentionItemRow) where
  agree : (x : AttentionItemRow) → (g x ≡ true → x ≡ prior) → q prior ≡ true → g x ≡ (q x && g x)
  agree x e t = elim (Bool-cases (g x)) [
    | inl y ↦
        (let here : q x ≡ true = subst (λ z. q z ≡ true) (sym (e y)) t in
          y ∙ sym (ap (λ b. b && g x) here ∙ y))
    | inr n ↦ n ∙ sym (ap (λ b. q x && b) n ∙ and_false (q x))
  ]

pub trivial : (xs : List AttentionItemRow) → All (λ x. Unit {0}) xs
trivial [] = tt
trivial (x ∷ xs) = (tt, trivial xs)

-- The update of the one row that was found, under the two searches.
module _ (input : OpenAttentionInput) (prior : AttentionItemRow)
    (change : AttentionItemRow → AttentionItemRow) (rows : List AttentionItemRow)
    (d : AreDistinct same_id rows) (f : find_prior input rows ≡ some prior)
    (keeps : (q : OpenAttentionInput) (y : AttentionItemRow)
      → is_input_row q (change y) ≡ is_input_row q y) where
  updated-found :
      find_prior input (update_where (with_id prior.id) change rows) ≡ some (change prior)
  unfolding find_prior
  updated-found =
      let q = is_input_row input in
      let g = with_id prior.id in
      let found = first_of-All (λ x. Unit) q rows prior (trivial rows) f in
      ap (λ xs. first_of (filter q xs))
        (update_where-same g (λ x. q x && g x) change rows
          (All-map (λ x e. agree q g prior x e found.1) rows (found-only q rows prior d f)))
      ∙ found-updated q g change prior rows f ((eq_iff prior.id prior.id).1 refl) (keeps input)

  updated-elsewhere :
      (other : OpenAttentionInput)
      → is_input_row other prior ≡ false
      → find_prior other (update_where (with_id prior.id) change rows) ≡ find_prior other rows
  unfolding find_prior
  updated-elsewhere other n =
      let q = is_input_row other in
      found-elsewhere q (with_id prior.id) change rows
        (All-map (λ x e t. subst (λ y. q y ≡ false) (sym (e t)) n) rows
          (found-only (is_input_row input) rows prior d f))
        (keeps other)

own_identity :
    (input : OpenAttentionInput) (id : String) (now : ℕ)
    → is_input_row input (new_row id input now) ≡ true
unfolding new_row
own_identity input id now =
    rw
      (
        (eq_iff input.principal_id input.principal_id).1 refl,
        (eq_iff (source_text input.source_type) (source_text input.source_type)).1 refl,
        (eq_iff input.source_object_id input.source_object_id).1 refl,
        (eq_iff input.fingerprint input.fingerprint).1 refl,
      )
      refl

not_last :
    (b : Bool) (x : AttentionItemRow) (o : Option AttentionItemRow) → b ≡ false → or_last b x o ≡ o
not_last b x (some y) h = refl
not_last true x none h = cc
not_last false x none h = refl

-- The map after a write is the map before it with the one entry set.
abbrev pub Writes :
    OpenAttentionInput → AttentionItemRow → (before after : List AttentionItemRow) → Type 0
Writes input item before after =
    (item_of after input ≡ some item)
    × ((other : OpenAttentionInput)
        → is_input_row other item ≡ false
        → item_of after other ≡ item_of before other)

module _ (idempotency_key_for : String → String → String) (mint : ℕ → String) (local_hour : ℕ → ℕ)
    (input : OpenAttentionInput) where
  bump_branch :
      (b : Bool) (x y : OpenAttentionResult × AttentionDb) (u v : AttentionItemRow)
      (before : List AttentionItemRow)
      → (x.0.item ≡ u) × Writes input u before x.1.items
      → (y.0.item ≡ v) × Writes input v before y.1.items
      → let r = if b then x else y in
        let w = if b then u else v in (r.0.item ≡ w) × Writes input w before r.1.items
  bump_branch true x y u v before h k = h
  bump_branch false x y u v before h k = k

  pub bump-Writes :
      (prior : AttentionItemRow) (now : ℕ) (id : String) (db : AttentionDb)
      → AreDistinct same_id db.items
      → find_prior input db.items ≡ some prior
      → let r = bump_or_reopen idempotency_key_for mint local_hour input prior now db in
        let w = written id input now (some prior) in
        (r.0.item ≡ w) × Writes input w db.items r.1.items
  unfolding bump_or_reopen
  bump-Writes prior now id db d f =
      let wakes = wakes_from_snooze input prior in
      let bump = bumped_row wakes input now in
      let reopen = reopened_row input now in
      bump_branch (is_live prior.state) _ _ (bump prior) (reopen prior) db.items
        (
          refl,
          (
            updated-found input prior bump db.items d f
                (λ q y. bumped-identity wakes q input now y),
            λ other n.
                updated-elsewhere input prior bump db.items d f
                  (λ q y. bumped-identity wakes q input now y) other
                  (sym (bumped-identity wakes other input now prior) ∙ n),
          ),
        )
        (
          refl,
          (
            updated-found input prior reopen db.items d f (λ q y. reopened-identity q input now y),
            λ other n.
                updated-elsewhere input prior reopen db.items d f
                  (λ q y. reopened-identity q input now y) other
                  (sym (reopened-identity other input now prior) ∙ n),
          ),
        )

  pub free-taken :
      (rows : List AttentionItemRow) → find_prior input rows ≡ none → taken input rows ≡ false
  free-taken rows h = ap (λ o. elim o [ none ↦ false | some row ↦ true ]) h

  pub insert-Writes :
      (id : String) (now : Date) (db : AttentionDb)
      → IsSeeded db
      → any (with_id id) db.items ≡ false
      → is_known input db ≡ true
      → find_prior input db.items ≡ none
      → (r : OpenAttentionResult) × (after : AttentionDb) × (insert_opened idempotency_key_for mint
            local_hour id input now db
          ≡ ok (r, after))
        × (r.item ≡ new_row id input now.ms)
        × Writes input (new_row id input now.ms) db.items after.items
  unfolding insert_opened accept_opened_event find_prior
  insert-Writes id now db k i p f =
      let item = new_row id input now.ms in
      let row = insert_row idempotency_key_for mint local_hour id input now.ms db in
      let e = emit_event-ok idempotency_key_for mint _ _ _ now row k in
      let result : OpenAttentionResult = record {
        action = opened;
        item = item;
        deliver_now = true;
        defer_reason = none;
      } in
      let last : AttentionDb → Result AttentionError (OpenAttentionResult × AttentionDb) =
        λ next. ok (result, audit "attention.opened" next) in
      let announce_ = accept_opened_event idempotency_key_for mint local_hour item now row in
      let items = emit_event-items idempotency_key_for mint _ now row e.0 e.1 in
      (
        result,
        audit "attention.opened" e.0,
        ap
              (λ b. throw_if b id_taken >>= λ _.
                throw_if (not (is_known input db)) principal_missing >>= λ _. announce_ >>= last)
              i
            ∙ (ap (λ b. throw_if (not b) principal_missing >>= λ _. announce_ >>= last) p
                ∙ ap (λ r. r >>= last) e.1),
        refl,
        (
          ap (λ xs. first_of (filter (is_input_row input) xs)) (sym items)
              ∙ (found-appended (is_input_row input) db.items item
                  ∙ (ap (λ o. or_last (is_input_row input item) item o) f
                      ∙ ap (λ b. or_last b item none) (own_identity input id now.ms))),
          λ other n.
              ap (λ xs. first_of (filter (is_input_row other) xs)) (sym items)
              ∙ (found-appended (is_input_row other) db.items item
                  ∙ not_last (is_input_row other item) item _ n),
        ),
      )
