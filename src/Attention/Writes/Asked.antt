-- ===== src/Attention/Writes/Asked.antt =====
-- packages/core/src/attention/service.ts: what an occurrence is to make of the item with its identity,
-- said of the columns.
use Prim.Native.String.{String}
use jehad_os.Prelude.{
  ℕ, ◌+◌, ◌≡◌, ◌≢◌, ◌⊎◌, inl, inr, refl, sym, ap, ◌∙◌, subst, Bool, true, false, not, ◌&&◌, Option,
  none, some, str_eq, eq_iff, if◌then◌else◌, Bool-cases, &&-eq-true,
}
use jehad_os.Attention.{
  AttentionLevel, inbox, digest, interrupt, AttentionState, open_, seen, snoozed, resolved,
  dismissed, unsafe_none, AttentionResolvedBy, AttentionItemRow, source_text, is_live, is_snoozed,
}
use jehad_os.Attention.Occurrences.{
  OpenAttentionInput, effective_level, fingerprint_changed, refreshed, is_input_row, new_row,
  bumped_row, reopened_row, wakes_from_snooze,
}
use jehad_os.Attention.Writes.Refines.{written}

-- The item of a first occurrence.
abbrev pub first_item : String → OpenAttentionInput → ℕ → AttentionItemRow
first_item id input now = record {
  id = id;
  principal_id = input.principal_id;
  source_type = input.source_type;
  source_object_id = input.source_object_id;
  fingerprint = input.fingerprint;
  kind = input.kind;
  state = open_;
  level = input.level;
  safety_class = elim input.safety_class [ none ↦ unsafe_none | some class_ ↦ class_ ];
  title = input.title;
  summary = input.summary;
  why_it_matters = input.why_it_matters;
  evidence_refs = input.evidence_refs;
  actions = input.actions;
  occurrences = 1;
  change_fingerprint = input.change_fingerprint;
  first_raised_at = now;
  updated_at = now;
  seen_at = none;
  snoozed_until = none;
  snooze_count = 0;
  resolved_at = none;
  resolved_by = none;
  resolution_reason = none;
  last_delivered_at = none;
  delivery_attempts = 0;
  last_delivery_attempt_at = none;
}

-- An interrupt outranks the inbox, which outranks a digest.
abbrev pub louder : (one_level other_level : AttentionLevel) → AttentionLevel
louder interrupt b = interrupt
louder inbox interrupt = interrupt
louder inbox inbox = inbox
louder inbox digest = inbox
louder digest b = b

-- Both fingerprints of the change are given, and they differ.
abbrev pub IsNews : Option String → Option String → Type 0
IsNews (some new) (some stored) = new ≢ stored
IsNews _ _ = ⊥

-- The columns of the state are kept.
abbrev pub IsKept : (prior item : AttentionItemRow) → Type 0
IsKept prior item =
    (item.state ≡ prior.state)
    × (item.snoozed_until ≡ prior.snoozed_until)
    × (item.resolved_at ≡ prior.resolved_at)
    × (item.resolved_by ≡ prior.resolved_by)
    × (item.resolution_reason ≡ prior.resolution_reason)

-- The item is open, and nothing of a snooze is left.
abbrev pub IsOpened : AttentionItemRow → Type 0
IsOpened item = (item.state ≡ open_) × (item.snoozed_until ≡ none)

-- The state after an occurrence, by the state before it: a closed item is open and not closed any
-- more, a snoozed one is woken by news only, the others keep their state.
abbrev pub IsStateAfter :
    AttentionState → OpenAttentionInput → (prior item : AttentionItemRow) → Type 0
IsStateAfter open_ input prior item = IsKept prior item
IsStateAfter seen input prior item = IsKept prior item
IsStateAfter snoozed input prior item =
    (IsNews input.change_fingerprint prior.change_fingerprint × IsOpened item)
    ⊎ (¬ IsNews input.change_fingerprint prior.change_fingerprint × IsKept prior item)
IsStateAfter _ input prior item =
    IsOpened item
    × (item.resolved_at ≡ none)
    × (item.resolved_by ≡ none)
    × (item.resolution_reason ≡ none)

-- The other columns after a further occurrence: counted, not quieter, with the input's words, and with the
-- columns that name it, its kind, its safety class, its first time and its deliveries kept.
pub record IsRefreshed (input : OpenAttentionInput) (now : ℕ) (prior item : AttentionItemRow)
    : Type 0 where
  pub counted : item.occurrences ≡ prior.occurrences + 1
  pub raised : item.level ≡ louder input.level prior.level
  pub title : item.title ≡ input.title
  pub summary : item.summary ≡ input.summary
  pub why_it_matters : item.why_it_matters ≡ input.why_it_matters
  pub evidence_refs : item.evidence_refs ≡ input.evidence_refs
  pub actions : item.actions ≡ input.actions
  pub change_fingerprint : item.change_fingerprint ≡ input.change_fingerprint
  pub updated_at : item.updated_at ≡ now
  pub id : item.id ≡ prior.id
  pub principal_id : item.principal_id ≡ prior.principal_id
  pub source_type : item.source_type ≡ prior.source_type
  pub source_object_id : item.source_object_id ≡ prior.source_object_id
  pub fingerprint : item.fingerprint ≡ prior.fingerprint
  pub kind : item.kind ≡ prior.kind
  pub safety_class : item.safety_class ≡ prior.safety_class
  pub first_raised_at : item.first_raised_at ≡ prior.first_raised_at
  pub seen_at : item.seen_at ≡ prior.seen_at
  pub snooze_count : item.snooze_count ≡ prior.snooze_count
  pub last_delivered_at : item.last_delivered_at ≡ prior.last_delivered_at
  pub delivery_attempts : item.delivery_attempts ≡ prior.delivery_attempts
  pub last_delivery_attempt_at : item.last_delivery_attempt_at ≡ prior.last_delivery_attempt_at

abbrev pub IsAsked :
    String → OpenAttentionInput → ℕ → Option AttentionItemRow → AttentionItemRow → Type 0
IsAsked id input now none item = item ≡ first_item id input now
IsAsked id input now (some prior) item =
    IsRefreshed input now prior item × IsStateAfter prior.state input prior item

effective_level-louder : (a b : AttentionLevel) → effective_level a b ≡ louder a b
effective_level-louder interrupt interrupt = refl
effective_level-louder interrupt inbox = refl
effective_level-louder interrupt digest = refl
effective_level-louder inbox interrupt = refl
effective_level-louder inbox inbox = refl
effective_level-louder inbox digest = refl
effective_level-louder digest interrupt = refl
effective_level-louder digest inbox = refl
effective_level-louder digest digest = refl

IsNews-cases :
    (new stored : Option String)
    → ((fingerprint_changed new stored ≡ true) × IsNews new stored)
      ⊎ ((fingerprint_changed new stored ≡ false) × ¬ IsNews new stored)
IsNews-cases none stored = inr (refl, λ n. n)
IsNews-cases (some a) none = inr (refl, λ n. n)
IsNews-cases (some a) (some b) = elim (Bool-cases (str_eq a b)) [
  | inl t ↦ inr (ap not t, λ n. n ((eq_iff a b).0 t))
  | inr f ↦ inl (ap not f, λ e. (let t = (eq_iff a b).1 e in cc))
]

module _ (id : String) (input : OpenAttentionInput) (now : ℕ) where
  IsRefreshed-any :
      (prior : AttentionItemRow) (state : AttentionState) (until closed : Option ℕ)
      (by : Option AttentionResolvedBy) (reason : Option String)
      → IsRefreshed input now prior (record (refreshed input now prior) {
        state = state;
        snoozed_until = until;
        resolved_at = closed;
        resolved_by = by;
        resolution_reason = reason;
      })
  IsRefreshed-any prior state until closed by reason = record {
    counted = refl;
    raised = effective_level-louder input.level prior.level;
    title = refl;
    summary = refl;
    why_it_matters = refl;
    evidence_refs = refl;
    actions = refl;
    change_fingerprint = refl;
    updated_at = refl;
    id = refl;
    principal_id = refl;
    source_type = refl;
    source_object_id = refl;
    fingerprint = refl;
    kind = refl;
    safety_class = refl;
    first_raised_at = refl;
    seen_at = refl;
    snooze_count = refl;
    last_delivered_at = refl;
    delivery_attempts = refl;
    last_delivery_attempt_at = refl;
  }

  abbrev again : (is_live_ wakes : Bool) → AttentionItemRow → AttentionItemRow
  again is_live_ wakes prior =
      if is_live_ then bumped_row wakes input now prior else reopened_row input now prior

  again-IsRefreshed :
      (is_live_ wakes : Bool) (prior : AttentionItemRow)
      → IsRefreshed input now prior (again is_live_ wakes prior)
  unfolding bumped_row reopened_row
  again-IsRefreshed true true prior =
      IsRefreshed-any prior open_ none prior.resolved_at prior.resolved_by prior.resolution_reason
  again-IsRefreshed true false prior =
      IsRefreshed-any prior prior.state prior.snoozed_until prior.resolved_at prior.resolved_by
        prior.resolution_reason
  again-IsRefreshed false wakes prior = IsRefreshed-any prior open_ none none none none

  again-IsStateAfter :
      (s : AttentionState) (prior : AttentionItemRow)
      → IsStateAfter s input prior (
          again
            (is_live s)
            (is_snoozed s && fingerprint_changed input.change_fingerprint prior.change_fingerprint)
            prior)
  unfolding bumped_row reopened_row
  again-IsStateAfter open_ prior = (refl, refl, refl, refl, refl)
  again-IsStateAfter seen prior = (refl, refl, refl, refl, refl)
  again-IsStateAfter resolved prior = ((refl, refl), refl, refl, refl)
  again-IsStateAfter dismissed prior = ((refl, refl), refl, refl, refl)
  again-IsStateAfter snoozed prior =
      let P : Bool → Type 0 =
        λ b. IsStateAfter snoozed input prior (bumped_row b input now prior) in
      elim (IsNews-cases input.change_fingerprint prior.change_fingerprint) [
        | inl y ↦ subst P (sym y.0) (inl (y.1, (refl, refl)))
        | inr n ↦ subst P (sym n.0) (inr (n.1, (refl, refl, refl, refl, refl)))
      ]

  -- What the call writes is what is asked for.
  pub written-IsAsked :
      (found : Option AttentionItemRow) → IsAsked id input now found (written id input now found)
  unfolding new_row wakes_from_snooze
  written-IsAsked none = refl
  written-IsAsked (some prior) = (
    again-IsRefreshed (is_live prior.state) (wakes_from_snooze input prior) prior,
    again-IsStateAfter prior.state prior,
  )

-- What the UNIQUE constraint compares.
abbrev pub identity : OpenAttentionInput → String × String × String × String
identity input =
    (input.principal_id, source_text input.source_type, input.source_object_id, input.fingerprint)

row_identity :
    (input : OpenAttentionInput) (row : AttentionItemRow)
    → is_input_row input row ≡ true
    → identity input
      ≡ (row.principal_id, source_text row.source_type, row.source_object_id, row.fingerprint)
row_identity input row h =
    let a = &&-eq-true (str_eq row.principal_id input.principal_id) _ h in
    let b =
      &&-eq-true (str_eq (source_text row.source_type) (source_text input.source_type)) _ a.1 in
    let c = &&-eq-true (str_eq row.source_object_id input.source_object_id) _ b.1 in
    let p = (eq_iff row.principal_id input.principal_id).0 a.0 in
    let q = (eq_iff (source_text row.source_type) (source_text input.source_type)).0 b.0 in
    let r = (eq_iff row.source_object_id input.source_object_id).0 c.0 in
    let t = (eq_iff row.fingerprint input.fingerprint).0 c.1 in
    sym (
      ap (λ x. (x, source_text row.source_type, row.source_object_id, row.fingerprint)) p
      ∙ (ap (λ x. (input.principal_id, x, row.source_object_id, row.fingerprint)) q
          ∙ (ap (λ x. (input.principal_id, source_text input.source_type, x, row.fingerprint)) r
              ∙ ap
                  (λ x.
                    (input.principal_id, source_text input.source_type, input.source_object_id, x))
                  t)))

-- A row has one identity.
pub one_identity :
    (input other : OpenAttentionInput) (row : AttentionItemRow)
    → is_input_row input row ≡ true
    → identity other ≢ identity input
    → is_input_row other row ≡ false
one_identity input other row h n = elim (Bool-cases (is_input_row other row)) [
  | inl t ↦ absurd (n (row_identity other row t ∙ sym (row_identity input row h)))
  | inr f ↦ f
]
