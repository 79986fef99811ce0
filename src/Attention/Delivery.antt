-- ===== src/Attention/Delivery.antt =====
-- packages/core/src/attention/delivery.ts: the two statements that stamp an item's deliveries.
use Prim.Native.String.{String}
use jehad_os.Prelude.{ℕ, ◌+◌, Bool, true, false, ◌&&◌, Option, none, some, List, [], ◌∷◌, ltb}
use jehad_os.Attention.{AttentionItemRow, AttentionDb, returning}
use jehad_os.Attention.Occurrences.{with_id}
use jehad_os.Attention.Owner.{updated_where}

abbrev pub attempted_row : ℕ → AttentionItemRow → AttentionItemRow
attempted_row now row = record row {
  delivery_attempts = row.delivery_attempts + 1;
  last_delivery_attempt_at = some now;
}

abbrev pub stamped_row : ℕ → AttentionItemRow → AttentionItemRow
stamped_row now row = record row { last_delivered_at = some now }

-- `last_delivered_at IS NULL OR last_delivered_at < now`
abbrev pub is_before : ℕ → Option ℕ → Bool
is_before now none = true
is_before now (some at) = ltb at now

unfoldable pub mark_delivery_attempted : String → ℕ → AttentionDb → AttentionDb
mark_delivery_attempted id now db = updated_where (with_id id) (attempted_row now) db

abbrev is_some_row : List AttentionItemRow → Bool
is_some_row [] = false
is_some_row (row ∷ rows) = true

unfoldable pub stamp_attention_delivered : String → ℕ → AttentionDb → Bool × AttentionDb
stamp_attention_delivered id now db =
    let p : AttentionItemRow → Bool =
      λ row. with_id id row && is_before now row.last_delivered_at in
    (is_some_row (returning p (stamped_row now) db.items), updated_where p (stamped_row now) db)
