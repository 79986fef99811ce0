-- ===== src/Attention/Listing.antt =====
-- packages/core/src/attention/service.ts: the owner's list. Rows that ORDER BY holds for equal keep
-- the table's order, which SQL leaves open.
use Prim.Native.String.{String}
use jehad_os.Prelude.{
  ℕ, Bool, true, false, not, ◌&&◌, ◌||◌, Option, none, some, List, [], ◌∷◌, filter, take, str_eq,
  ltb, leb, if◌then◌else◌,
}
use jehad_os.Attention.{AttentionItemRow, AttentionActionRef, is_live, is_snoozed}
use jehad_os.Attention.Salience.{bypasses_all_gates}
use jehad_os.Attention.Occurrences.{level_rank}

-- ORDER BY: `before a b` says that a stands strictly before b.
abbrev pub insert_by :
    (before : AttentionItemRow → AttentionItemRow → Bool)
    → AttentionItemRow
    → List AttentionItemRow
    → List AttentionItemRow
insert_by before x [] = x ∷ []
insert_by before x (y ∷ ys) =
    let rest = insert_by before x ys in if before y x then y ∷ rest else x ∷ (y ∷ ys)

unfoldable pub order_by :
    (before : AttentionItemRow → AttentionItemRow → Bool)
    → List AttentionItemRow
    → List AttentionItemRow
order_by before [] = []
order_by before (x ∷ xs) = insert_by before x (order_by before xs)

abbrev pub has_actions : List AttentionActionRef → Bool
has_actions [] = false
has_actions (a ∷ as_) = true

-- DESC on a Boolean: the first differs from the second and is true.
abbrev rises : Bool → Bool → Bool → Bool
rises true false rest = true
rises false true rest = false
rises _ _ rest = rest

abbrev pub raised_before : AttentionItemRow → AttentionItemRow → Bool
raised_before a b = ltb a.first_raised_at b.first_raised_at

unfoldable pub is_listed_before : AttentionItemRow → AttentionItemRow → Bool
is_listed_before a b =
    rises (bypasses_all_gates a.safety_class) (bypasses_all_gates b.safety_class) (
      if ltb (level_rank b.level) (level_rank a.level)
      then true
      else if ltb (level_rank a.level) (level_rank b.level)
      then false
      else rises (has_actions a.actions) (has_actions b.actions) (raised_before a b))

-- `snoozed_until <= now`, which null does not meet.
abbrev pub is_due : ℕ → Option ℕ → Bool
is_due now none = false
is_due now (some until) = leb until now

abbrev pub needs_you : ℕ → AttentionItemRow → Bool
needs_you now row =
    (is_live row.state && not (is_snoozed row.state))
    || (is_snoozed row.state && is_due now row.snoozed_until)

abbrev limited : Option ℕ → List AttentionItemRow → List AttentionItemRow
limited none rows = rows
limited (some n) rows = take n rows

unfoldable pub is_listed : (principal_id : String) → ℕ → Bool → AttentionItemRow → Bool
is_listed principal_id now include_snoozed row =
    str_eq row.principal_id principal_id
    && (needs_you now row || (include_snoozed && is_snoozed row.state))

unfoldable pub list_open_attention :
    (principal_id : String) → ℕ → Bool → Option ℕ → List AttentionItemRow → List AttentionItemRow
unfolding is_listed_before is_listed order_by
list_open_attention principal_id now include_snoozed limit rows =
    limited limit
      (order_by is_listed_before (filter (is_listed principal_id now include_snoozed) rows))
