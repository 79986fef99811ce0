-- ===== src/Attention/Closing.antt =====
-- packages/core/src/attention/service.ts: resolveAttentionBySource, the close by a producer or by
-- the liveness sweep.
use Prim.Native.String.{String}
use jehad_os.Prelude.{
  ℕ, Bool, true, ◌&&◌, Option, none, some, List, [], ◌∷◌, str_eq, length, Result, ok, ◌>>=◌,
}
use jehad_os.Outcomes.Waits.{Date}
use jehad_os.Attention.{
  AttentionSourceType, AttentionResolvedBy, AttentionItemRow, AttentionError, AttentionDb,
  source_text, is_live, update_where, returning, audit, emit_resolved_event,
}
use jehad_os.Attention.Owner.{resolved_row}

-- `$7 IS NULL OR fingerprint = $7`
abbrev pub has_fingerprint : Option String → AttentionItemRow → Bool
has_fingerprint none row = true
has_fingerprint (some fingerprint) row = str_eq row.fingerprint fingerprint

abbrev pub is_of_source :
    (principal_id : String)
    → AttentionSourceType
    → (source_object_id : String) → Option String
    → AttentionItemRow
    → Bool
is_of_source principal_id source_type source_object_id fingerprint row =
    (str_eq row.principal_id principal_id
      && (str_eq (source_text row.source_type) (source_text source_type)
          && (str_eq row.source_object_id source_object_id && has_fingerprint fingerprint row)))
    && is_live row.state

abbrev pub audit_some : String → List AttentionItemRow → AttentionDb → AttentionDb
audit_some action [] db = db
audit_some action (row ∷ rows) db = audit action db

module _ (idempotency_key_for : (source external_id : String) → String) (mint : ℕ → String) where
  -- The loop over the rows that were closed.
  unfoldable pub emit_all :
      List AttentionItemRow
      → Date
      → AttentionResolvedBy
      → String
      → AttentionDb
      → Result AttentionError AttentionDb
  unfolding emit_resolved_event
  emit_all [] now by reason db = ok db
  emit_all (item ∷ items) now by reason db =
      emit_resolved_event idempotency_key_for mint item now by (some reason) db >>= λ next.
      emit_all items now by reason next

  unfoldable pub resolve_attention_by_source :
      (principal_id : String)
      → AttentionSourceType
      → (source_object_id : String) → Option String
      → AttentionResolvedBy
      → String
      → Date
      → AttentionDb
      → Result AttentionError (ℕ × AttentionDb)
  unfolding emit_all
  resolve_attention_by_source principal_id source_type source_object_id fingerprint by reason now
        db =
      let p = is_of_source principal_id source_type source_object_id fingerprint in
      let close = resolved_row by (some reason) now.ms in
      let flipped = returning p close db.items in
      emit_all flipped now by reason (record db { items = update_where p close db.items })
      >>= λ next. ok (length flipped, audit_some "attention.resolved_by_source" flipped next)
