-- ===== src/Attention/Effects/Emits.antt =====
-- packages/core/src/attention/service.ts: the events of the subsystem are accepted where the domain
-- that they name is known.
use Prim.Native.String.{String}
use jehad_os.Prelude.{
  ℕ, suc, ◌≡◌, refl, sym, ap, ◌∙◌, subst, true, not, Option, some, List, [], ◌∷◌, Result, ok, err,
  ◌>>=◌, throw_if,
}
use jehad_os.Events.{
  EventStore, domain_not_found, DomainNotFoundError, AcceptedEvent, has_domain, find_key,
  insert_event, envelope_of, accept_event,
}
use jehad_os.Events.Idempotence.{insert_event-domains}
use jehad_os.Outcomes.Waits.{Date}
use jehad_os.Attention.{
  AttentionItemRow, AttentionResolvedBy, AttentionDb, attention_event, emit_event,
  emit_resolved_event, domain_missing, AttentionError,
}
use jehad_os.Attention.Closing.{emit_all}

-- The domain `personal` has been seeded.
abbrev pub IsSeeded : AttentionDb → Type 0
IsSeeded db = has_domain "personal" db.store.domains ≡ true

abbrev answered_by :
    AttentionDb
    → Result DomainNotFoundError (AcceptedEvent × EventStore)
    → Result AttentionError AttentionDb
answered_by db (err x) = err domain_missing
answered_by db (ok r) = ok (record db { store = r.1; minted = suc db.minted })

module _ (idempotency_key_for : String → String → String) (mint : ℕ → String) where
  pub emit_event-ok :
      (kind external_id : String) (payload : List (String × String)) (now : Date) (db : AttentionDb)
      → IsSeeded db
      → (next : AttentionDb) × (emit_event idempotency_key_for mint
            (attention_event kind external_id payload now)
            now
            db
          ≡ ok next)
        × IsSeeded next
  unfolding emit_event accept_event
  emit_event-ok kind external_id payload now db k =
      let input = attention_event kind external_id payload now in
      let key = idempotency_key_for "internal" external_id in
      let e = envelope_of key (mint db.minted) now.iso input in
      let r = insert_event e (find_key key db.store.events) db.store in
      (
        record db { store = r.1; minted = suc db.minted },
        ap (λ (a : Result DomainNotFoundError (AcceptedEvent × EventStore)). answered_by db a)
            (ap (λ b. throw_if (not b) domain_not_found >>= λ _. ok r) k),
        subst (λ ds. has_domain "personal" ds ≡ true)
            (sym (insert_event-domains e db.store (find_key key db.store.events))) k,
      )

  pub emit_resolved-ok :
      (item : AttentionItemRow) (now : Date) (by : AttentionResolvedBy) (reason : Option String)
      (db : AttentionDb)
      → IsSeeded db
      → (next : AttentionDb) × (emit_resolved_event idempotency_key_for mint item now by reason db
          ≡ ok next)
        × IsSeeded next
  unfolding emit_resolved_event
  emit_resolved-ok item now by reason db k = emit_event-ok _ _ _ now db k

  pub emit_all-ok :
      (items : List AttentionItemRow) (now : Date) (by : AttentionResolvedBy) (reason : String)
      (db : AttentionDb)
      → IsSeeded db
      → (next : AttentionDb) × (emit_all idempotency_key_for mint items now by reason db ≡ ok next)
        × IsSeeded next
  unfolding emit_all
  emit_all-ok [] now by reason db k = (db, refl, k)
  emit_all-ok (item ∷ items) now by reason db k =
      let first = emit_resolved-ok item now by (some reason) db k in
      let rest = emit_all-ok items now by reason first.0 first.2 in
      (
        rest.0,
        ap (λ r. r >>= emit_all idempotency_key_for mint items now by reason) first.1 ∙ rest.1,
        rest.2,
      )
