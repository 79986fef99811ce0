-- ===== src/Attention/Machine.antt =====
-- packages/core/src/attention/service.ts and delivery.ts: the edits that the statements make to one row, the
-- states that they lead to, and the table as a sequence of statements.
pub mod Rows
use Prim.Native.String.{String}
use jehad_os.Prelude.{
  ℕ, ◌≡◌, refl, Bool, true, false, not, Option, none, some, List, [], ◌∷◌, ◌++◌, filter, any, All,
}
use jehad_os.Attention.{
  AttentionState, open_, seen, snoozed, resolved, dismissed, AttentionItemRow, AttentionResolvedBy,
  is_live, is_open, is_snoozed, update_where,
}
use jehad_os.Attention.Occurrences.{
  OpenAttentionInput, new_row, reopened_row, bumped_row, find_prior, with_id,
}
use jehad_os.Attention.Owner.{resolved_row, dismissed_row, undone_row, seen_row, snoozed_row}
use jehad_os.Attention.Sweep.{woken_row, is_collectable, delete_chunk}
use jehad_os.Attention.Delivery.{attempted_row, stamped_row}

-- One row before and after a statement that edits it, under the statement's guard.
pub data Edit (row : AttentionItemRow) : AttentionItemRow → Type 0 where
  sees : (now : ℕ) → is_open row.state ≡ true → Edit row (seen_row now row)
  snoozes : (until now : ℕ) → is_live row.state ≡ true → Edit row (snoozed_row until now row)
  resolves :
      (by : AttentionResolvedBy) (reason : Option String) (now : ℕ)
      → is_live row.state ≡ true
      → Edit row (resolved_row by reason now row)
  dismisses : (now : ℕ) → is_live row.state ≡ true → Edit row (dismissed_row now row)
  undoes : (now : ℕ) → is_live row.state ≡ false → Edit row (undone_row now row)
  wakes_up : (now : ℕ) → is_snoozed row.state ≡ true → Edit row (woken_row now row)
  bumps :
      (input : OpenAttentionInput) (now : ℕ)
      → is_live row.state ≡ true
      → Edit row (bumped_row false input now row)
  bumps_awake :
      (input : OpenAttentionInput) (now : ℕ)
      → is_snoozed row.state ≡ true
      → Edit row (bumped_row true input now row)
  attempts : (now : ℕ) → Edit row (attempted_row now row)
  delivers : (now : ℕ) → Edit row (stamped_row now row)
  reopens :
      (input : OpenAttentionInput) (now : ℕ)
      → is_live row.state ≡ false
      → Edit row (reopened_row input now row)

-- The state machine of an item.
pub data Transition : AttentionState → AttentionState → Type 0 where
  stays : (s : AttentionState) → Transition s s
  acknowledged : Transition open_ seen
  put_off : {s : AttentionState} → is_live s ≡ true → Transition s snoozed
  closed : {s t : AttentionState} → is_live s ≡ true → is_live t ≡ false → Transition s t
  came_back : {s : AttentionState} → is_live s ≡ false → Transition s open_
  woke : Transition snoozed open_

-- On each of the rows, the guard of a statement admits the edit that it makes.
abbrev pub Admits :
    (AttentionItemRow → Bool)
    → (AttentionItemRow → AttentionItemRow)
    → List AttentionItemRow
    → Type 0
Admits p change rows = All (λ row. p row ≡ true → Edit row (change row)) rows

pub data Statement (rows : List AttentionItemRow) : List AttentionItemRow → Type 0 where
  updates :
      (p : AttentionItemRow → Bool) (change : AttentionItemRow → AttentionItemRow)
      → Admits p change rows
      → Statement rows (update_where p change rows)
  inserts :
      (id : String) (input : OpenAttentionInput) (now : ℕ)
      → any (with_id id) rows ≡ false
      → find_prior input rows ≡ none
      → Statement rows (rows ++ new_row id input now ∷ [])
  collects : (now limit : ℕ) → Statement rows (delete_chunk (is_collectable now) limit rows).1

pub data Statements (rows : List AttentionItemRow) : List AttentionItemRow → Type 0 where
  no_more : Statements rows rows
  and_also :
      {mid last : List AttentionItemRow}
      → Statements rows mid
      → Statement mid last
      → Statements rows last

pub concat :
    {rows mid last : List AttentionItemRow}
    → Statements rows mid
    → Statements mid last
    → Statements rows last
concat first no_more = first
concat first (and_also rest s) = and_also (concat first rest) s

pub one : {rows last : List AttentionItemRow} → Statement rows last → Statements rows last
one s = and_also no_more s
