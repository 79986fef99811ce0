-- ===== src/Attention/Writes/Upsert.antt =====
-- packages/core/src/attention/service.ts: openOrBumpOrReopen as a write to a map, with nobody else
-- writing meanwhile.
use Prim.Native.String.{String}
use jehad_os.Prelude.{
  ℕ, suc, ◌≡◌, ◌≢◌, refl, sym, ap, ◌∙◌, subst, true, false, Option, none, some, any, ok,
  if◌then◌else◌,
}
use jehad_os.Outcomes.Waits.{Date}
use jehad_os.Attention.{AttentionItemRow, AttentionDb}
use jehad_os.Attention.Occurrences.{
  OpenAttentionInput, OpenAttentionResult, is_input_row, find_prior, with_id,
}
use jehad_os.Attention.Writes.{
  is_known, bump_or_reopen, insert_opened, insert_or_race, open_found, open_or_bump_or_reopen,
  after_race,
}
use jehad_os.Attention.Writes.Refines.{
  written, item_of, trivial, Writes, bump-Writes, insert-Writes, free-taken,
}
use jehad_os.Attention.Writes.Asked.{identity, IsAsked, written-IsAsked, one_identity}
use jehad_os.Attention.Table.{first_of-All}
use jehad_os.Attention.Machine.Rows.{IsSound}
use jehad_os.Attention.Effects.Emits.{IsSeeded}

module _ (idempotency_key_for : String → String → String) (mint : ℕ → String) (local_hour : ℕ → ℕ)
    (input : OpenAttentionInput) where
  abbrev alone : ℕ → AttentionDb → AttentionDb
  alone n d = d

  -- The call returns, with the item that the specification gives, and writes it.
  abbrev Upserts : Date → AttentionDb → Option AttentionItemRow → Type 0
  Upserts now db found =
      let item = written (mint db.minted) input now.ms found in
      (r : OpenAttentionResult) × (after : AttentionDb) × (open_found idempotency_key_for mint
          local_hour alone input now db found
        ≡ ok (r, after))
      × (r.item ≡ item)
      × Writes input item db.items after.items

  open_found-Upserts :
      (now : Date) (db : AttentionDb) (found : Option AttentionItemRow)
      → IsSeeded db
      → IsSound db.items
      → any (with_id (mint db.minted)) db.items ≡ false
      → is_known input db ≡ true
      → find_prior input db.items ≡ found
      → Upserts now db found
  unfolding open_found insert_or_race
  open_found-Upserts now db (some prior) k s i p f =
      let r = bump_or_reopen idempotency_key_for mint local_hour input prior now.ms db in
      let w =
        bump-Writes idempotency_key_for mint local_hour input prior now.ms (mint db.minted) db s.1.0
          f in
      (r.0, r.1, refl, w.0, w.1)
  open_found-Upserts now db none k s i p f =
      let id = mint db.minted in
      let drawn = record db { minted = suc db.minted } in
      let w = insert-Writes idempotency_key_for mint local_hour input id now drawn k i p f in
      (
        w.0,
        w.1,
        ap
              (λ b.
                if b
                then after_race idempotency_key_for mint local_hour alone id input now drawn
                    (find_prior input drawn.items)
                else insert_opened idempotency_key_for mint local_hour id input now drawn)
              (free-taken idempotency_key_for mint local_hour input drawn.items f)
            ∙ w.2,
        w.3,
        w.4,
      )

  -- If the events' domain is seeded, the table is sound, the id that is drawn is new and the
  -- principal exists, the call returns. Its item is what is asked for, from the item that the table
  -- had for the identity: a first item, or that item counted once more, at the louder level, with
  -- the input's words, open again where it was closed or news woke it, and else as it was. The table
  -- now has the call's item for the identity, and what it had for every other identity.
  pub open-Upserts :
      (now : Date) (db : AttentionDb) (other : OpenAttentionInput)
      → IsSeeded db
      → IsSound db.items
      → any (with_id (mint db.minted)) db.items ≡ false
      → is_known input db ≡ true
      → identity other ≢ identity input
      → (r : OpenAttentionResult) × (after : AttentionDb) × (open_or_bump_or_reopen
            idempotency_key_for mint local_hour
            (λ n d. d)
            input
            now
            db
          ≡ ok (r, after))
        × IsAsked (mint db.minted) input now.ms (item_of db.items input) r.item
        × (item_of after.items input ≡ some r.item)
        × (item_of after.items other ≡ item_of db.items other)
  unfolding open_or_bump_or_reopen find_prior
  open-Upserts now db other k s i p n =
      let found = find_prior input db.items in
      let item = written (mint db.minted) input now.ms found in
      let u = open_found-Upserts now db found k s i p refl in
      let named =
        (first_of-All (λ x. Unit) (is_input_row input) u.1.items item (trivial u.1.items)
          u.4.0).1 in
      (
        u.0,
        u.1,
        u.2,
        subst (IsAsked (mint db.minted) input now.ms found) (sym u.3)
            (written-IsAsked (mint db.minted) input now.ms found),
        u.4.0 ∙ ap some (sym u.3),
        u.4.1 other (one_identity input other item named n),
      )
