-- ===== src/Attention/Machine/Rows.antt =====
-- packages/core/src/attention/service.ts: what the statements keep of the rows.
use jehad_os.Prelude.{
  ℕ, ◌≡◌, refl, subst, Bool, true, false, Option, none, some, List, [], ◌∷◌, All, All-append,
  All-map, str_eq, ◌≤◌, arith,
}
use jehad_os.Attention.{
  AttentionState, open_, seen, snoozed, resolved, dismissed, AttentionItemRow, AttentionResolvedBy,
  is_live, is_open, is_snoozed,
}
use jehad_os.Attention.Occurrences.{
  new_row, reopened_row, bumped_row, find_prior, with_id, has_identity, is_input_row,
}
use jehad_os.Attention.Machine.{
  Edit, sees, snoozes, resolves, dismisses, undoes, wakes_up, bumps, bumps_awake, attempts,
  delivers, reopens, Transition, stays, acknowledged, put_off, closed, came_back, woke, Statement,
  updates, inserts, collects, Statements, no_more, and_also,
}
use jehad_os.Attention.Sweep.{is_collectable}
use jehad_os.Attention.Sweep.Collect.{delete_chunk-All, delete_chunk-AreDistinct}
use jehad_os.Attention.Table.{
  AreDistinct, update_where-All, update_where-AreDistinct, append-AreDistinct, any-false,
  first_of-none, IsUnseen,
}

seen_from : (s : AttentionState) → is_open s ≡ true → Transition s seen
seen_from open_ h = acknowledged
seen_from seen h = cc
seen_from snoozed h = cc
seen_from resolved h = cc
seen_from dismissed h = cc

woken_from : (s : AttentionState) → is_snoozed s ≡ true → Transition s open_
woken_from snoozed h = woke
woken_from open_ h = cc
woken_from seen h = cc
woken_from resolved h = cc
woken_from dismissed h = cc

-- Every edit of a row follows the state machine.
pub Edit-Transition : (x y : AttentionItemRow) → Edit x y → Transition x.state y.state
unfolding bumped_row reopened_row
Edit-Transition x _ (sees now h) = seen_from x.state h
Edit-Transition x _ (snoozes until now h) = put_off h
Edit-Transition x _ (resolves by reason now h) = closed h refl
Edit-Transition x _ (dismisses now h) = closed h refl
Edit-Transition x _ (undoes now h) = came_back h
Edit-Transition x _ (wakes_up now h) = woken_from x.state h
Edit-Transition x _ (bumps input now h) = stays x.state
Edit-Transition x _ (bumps_awake input now h) = woken_from x.state h
Edit-Transition x _ (attempts now) = stays x.state
Edit-Transition x _ (delivers now) = stays x.state
Edit-Transition x _ (reopens input now h) = came_back h

-- A live item has no closing time and no closer, a closed one has both.
abbrev pub ClosingFits : Bool → Option ℕ → Option AttentionResolvedBy → Type 0
ClosingFits true none none = Unit
ClosingFits false (some at) (some by) = Unit
ClosingFits _ _ _ = ⊥

-- A snoozed item has the time at which the snooze ends.
abbrev pub SnoozeFits : Bool → Option ℕ → Type 0
SnoozeFits true none = ⊥
SnoozeFits _ _ = Unit

abbrev pub IsWellFormed : AttentionItemRow → Type 0
IsWellFormed row =
    ClosingFits (is_live row.state) row.resolved_at row.resolved_by
    × (SnoozeFits (is_snoozed row.state) row.snoozed_until × (1 ≤ row.occurrences))

live_open : (s : AttentionState) → is_open s ≡ true → is_live s ≡ true
live_open open_ h = refl
live_open seen h = cc
live_open snoozed h = cc
live_open resolved h = cc
live_open dismissed h = cc

pub live_snoozed : (s : AttentionState) → is_snoozed s ≡ true → is_live s ≡ true
live_snoozed snoozed h = refl
live_snoozed open_ h = cc
live_snoozed seen h = cc
live_snoozed resolved h = cc
live_snoozed dismissed h = cc

fits_from :
    (b : Bool) (at : Option ℕ) (by : Option AttentionResolvedBy)
    → b ≡ true
    → ClosingFits b at by
    → ClosingFits true at by
fits_from b at by h k = subst (λ c. ClosingFits c at by) h k

pub Edit-IsWellFormed : (x y : AttentionItemRow) → Edit x y → IsWellFormed x → IsWellFormed y
unfolding bumped_row reopened_row
Edit-IsWellFormed x _ (sees now h) k =
    (fits_from (is_live x.state) x.resolved_at x.resolved_by (live_open x.state h) k.0, (tt, k.1.1))
Edit-IsWellFormed x _ (snoozes until now h) k =
    (fits_from (is_live x.state) x.resolved_at x.resolved_by h k.0, (tt, k.1.1))
Edit-IsWellFormed x _ (resolves by reason now h) k = (tt, (tt, k.1.1))
Edit-IsWellFormed x _ (dismisses now h) k = (tt, (tt, k.1.1))
Edit-IsWellFormed x _ (undoes now h) k = (tt, (tt, k.1.1))
Edit-IsWellFormed x _ (wakes_up now h) k = (
  fits_from (is_live x.state) x.resolved_at x.resolved_by (live_snoozed x.state h) k.0,
  (tt, k.1.1),
)
Edit-IsWellFormed x _ (bumps input now h) k = (k.0, (k.1.0, omega arith))
Edit-IsWellFormed x _ (bumps_awake input now h) k = (
  fits_from (is_live x.state) x.resolved_at x.resolved_by (live_snoozed x.state h) k.0,
  (tt, omega arith),
)
Edit-IsWellFormed x _ (attempts now) k = k
Edit-IsWellFormed x _ (delivers now) k = k
Edit-IsWellFormed x _ (reopens input now h) k = (tt, (tt, omega arith))

-- What names a row: its id, and the key of the UNIQUE constraint.
abbrev SameKey : AttentionItemRow → AttentionItemRow → Type 0
SameKey x y =
    (y.id ≡ x.id)
    × ((y.principal_id ≡ x.principal_id)
        × ((y.source_type ≡ x.source_type)
            × ((y.source_object_id ≡ x.source_object_id) × (y.fingerprint ≡ x.fingerprint))))

Edit-SameKey : (x y : AttentionItemRow) → Edit x y → SameKey x y
unfolding bumped_row reopened_row
Edit-SameKey x _ (sees now h) = (refl, (refl, (refl, (refl, refl))))
Edit-SameKey x _ (snoozes until now h) = (refl, (refl, (refl, (refl, refl))))
Edit-SameKey x _ (resolves by reason now h) = (refl, (refl, (refl, (refl, refl))))
Edit-SameKey x _ (dismisses now h) = (refl, (refl, (refl, (refl, refl))))
Edit-SameKey x _ (undoes now h) = (refl, (refl, (refl, (refl, refl))))
Edit-SameKey x _ (wakes_up now h) = (refl, (refl, (refl, (refl, refl))))
Edit-SameKey x _ (bumps input now h) = (refl, (refl, (refl, (refl, refl))))
Edit-SameKey x _ (bumps_awake input now h) = (refl, (refl, (refl, (refl, refl))))
Edit-SameKey x _ (attempts now) = (refl, (refl, (refl, (refl, refl))))
Edit-SameKey x _ (delivers now) = (refl, (refl, (refl, (refl, refl))))
Edit-SameKey x _ (reopens input now h) = (refl, (refl, (refl, (refl, refl))))

abbrev pub same_id : AttentionItemRow → AttentionItemRow → Bool
same_id x y = str_eq x.id y.id

abbrev pub same_identity : AttentionItemRow → AttentionItemRow → Bool
same_identity x y = has_identity y.principal_id y.source_type y.source_object_id y.fingerprint x

Edit-IsUnseen :
    (change : AttentionItemRow → AttentionItemRow) (x : AttentionItemRow)
    → Edit x (change x)
    → IsUnseen same_id change x × IsUnseen same_identity change x
Edit-IsUnseen change x a =
    let k = Edit-SameKey x (change x) a in
    (λ y. rw k.0 (refl, refl), λ y. rw (k.1.0, k.1.1.0, k.1.1.1.0, k.1.1.1.1) (refl, refl))

-- The table: rows that are well formed, one for each id and one for each identity.
abbrev pub IsSound : List AttentionItemRow → Type 0
IsSound rows = All IsWellFormed rows × (AreDistinct same_id rows × AreDistinct same_identity rows)

pub Statement-IsSound :
    (rows after : List AttentionItemRow) → Statement rows after → IsSound rows → IsSound after
unfolding new_row find_prior
Statement-IsSound rows _ (updates p change a) k = (
  update_where-All p change IsWellFormed rows
      (All-map (λ x e t w. Edit-IsWellFormed x (change x) (e t) w) rows a) k.0,
  (
    update_where-AreDistinct p change same_id rows
        (All-map (λ x e t. (Edit-IsUnseen change x (e t)).0) rows a) k.1.0,
    update_where-AreDistinct p change same_identity rows
        (All-map (λ x e t. (Edit-IsUnseen change x (e t)).1) rows a) k.1.1,
  ),
)
Statement-IsSound rows _ (inserts id input now i f) k =
    let row = new_row id input now in
    (
      All-append IsWellFormed rows (row ∷ []) k.0 ((tt, (tt, omega arith)), tt),
      (
        append-AreDistinct same_id rows row (any-false (with_id id) rows i) k.1.0,
        append-AreDistinct same_identity rows row (first_of-none (is_input_row input) rows f) k.1.1,
      ),
    )
Statement-IsSound rows _ (collects now limit) k =
    let p = is_collectable now in
    (
      delete_chunk-All p IsWellFormed limit rows k.0,
      (
        delete_chunk-AreDistinct p same_id limit rows k.1.0,
        delete_chunk-AreDistinct p same_identity limit rows k.1.1,
      ),
    )

pub Statements-IsSound :
    (rows after : List AttentionItemRow) → Statements rows after → IsSound rows → IsSound after
Statements-IsSound rows _ no_more k = k
Statements-IsSound rows _ (and_also {mid} first s) k =
    Statement-IsSound mid _ s (Statements-IsSound rows mid first k)
