-- ===== src/Egress/Decision.antt =====
-- The decision of packages/core/src/egress/policy.ts, branch by branch.
use jehad_os.Prelude.{
  ◌↔◌, Bool, true, false, none, some, String, eq_iff, ◌≡◌, ◌≢◌, ◌↔◌, ◌⊎◌, ok, arith, Option-cases,
  inl, inr, >>=-eq-ok,
}
use jehad_os.Egress.{
  EgressCheckContext, EgressPolicyRule, ModelEgressPolicyRegistry, allow, includes,
  validate_context, match, model_denial, is_remote, check_rule, decide, check, is_sensitivity,
}

-- What a rule must grant a request.
pub record Grants (rule : EgressPolicyRule) (ctx : EgressCheckContext) : Type 0 where
  pub provider_listed : includes rule.allowed_providers ctx.provider ≡ true
  pub model_fits : model_denial rule.allowed_models ctx.model ≡ none
  pub stays_local : (is_remote ctx.storage_mode ≡ false) ⊎ (rule.allow_remote ≡ true)

check_rule-Grants :
    (rule : EgressPolicyRule) (ctx : EgressCheckContext) (id : String) (redact : Bool)
    → check_rule rule ctx ≡ allow id redact
    → Grants rule ctx × (rule.id ≡ id) × (rule.require_redaction ≡ redact)
unfolding check_rule
check_rule-Grants rule ctx id redact h = ground arith

Grants-check_rule :
    (rule : EgressPolicyRule) (ctx : EgressCheckContext)
    → Grants rule ctx
    → check_rule rule ctx ≡ allow rule.id rule.require_redaction
unfolding check_rule
Grants-check_rule rule ctx h = ground arith

-- A well-formed context: the texts are not empty and the sensitivity is one of the three.
pub record IsContext (ctx : EgressCheckContext) : Type 0 where
  pub domain_given : ctx.domain_id ≢ ""
  pub provider_given : ctx.provider ≢ ""
  pub sensitivity_known : is_sensitivity ctx.sensitivity ≡ true

IsContext-validate_context :
    (ctx : EgressCheckContext) → IsContext ctx → validate_context ctx ≡ ok tt
unfolding validate_context
IsContext-validate_context ctx h = ground (arith, eq_iff ctx.domain_id "", eq_iff ctx.provider "")

validate_context-IsContext :
    (ctx : EgressCheckContext) → validate_context ctx ≡ ok tt → IsContext ctx
unfolding validate_context
validate_context-IsContext ctx h = ground (arith, eq_iff ctx.domain_id "", eq_iff ctx.provider "")

-- What it takes for a request to be allowed: the rule that `match` finds grants it.
pub record Allowed (registry : ModelEgressPolicyRegistry) (ctx : EgressCheckContext) (id : String)
    (redact : Bool) : Type 0 where
  pub well_formed : IsContext ctx
  pub not_secret : ctx.sensitivity ≢ "secret"
  pub rule : EgressPolicyRule
  pub matched : match registry ctx.domain_id ctx.sensitivity ≡ some rule
  pub grants : Grants rule ctx
  pub named : rule.id ≡ id
  pub redaction : rule.require_redaction ≡ redact

module _ (registry : ModelEgressPolicyRegistry) (ctx : EgressCheckContext) (id : String)
    (redact : Bool) where
  decide-rule :
      decide registry ctx ≡ allow id redact
      → (ctx.sensitivity ≢ "secret")
        × (rule : EgressPolicyRule) × (match registry ctx.domain_id ctx.sensitivity ≡ some rule)
        × (check_rule rule ctx ≡ allow id redact)
  unfolding decide
  decide-rule h = elim (Option-cases (match registry ctx.domain_id ctx.sensitivity)) [
    | inl absent ↦ ground (arith, eq_iff ctx.sensitivity "secret")
    | inr (rule, matched) ↦ (
      ground (arith, eq_iff ctx.sensitivity "secret"),
      rule,
      matched,
      ground (arith, eq_iff ctx.sensitivity "secret"),
    )
  ]

  pub check-Allowed : check registry ctx ≡ ok (allow id redact) → Allowed registry ctx id redact
  unfolding check
  check-Allowed h =
      let (_, valid, decided) =
        >>=-eq-ok (validate_context ctx) (λ _. ok (decide registry ctx)) h in
      let (not_secret, rule, matched, checked) = decide-rule (cc) in
      let (grants, named, redaction) = check_rule-Grants rule ctx id redact checked in
      record {
        well_formed = validate_context-IsContext ctx (cc);
        not_secret = not_secret;
        rule = rule;
        matched = matched;
        grants = grants;
        named = named;
        redaction = redaction;
      }

  pub Allowed-check : Allowed registry ctx id redact → check registry ctx ≡ ok (allow id redact)
  unfolding check decide
  Allowed-check h = rw (IsContext-validate_context ctx h.well_formed) (
      ground (
        arith,
        eq_iff ctx.sensitivity "secret",
        h.matched,
        Grants-check_rule h.rule ctx h.grants,
        h.named,
        h.redaction,
      ))

-- A request is allowed exactly when its context is well formed, it is not secret, and the rule
-- that `match` finds for it lists its provider, accepts its model and, unless the data are
-- local, allows remote content; the decision carries that rule's id and redaction flag.
pub check-allow_iff :
    (registry : ModelEgressPolicyRegistry) (ctx : EgressCheckContext) (id : String) (redact : Bool)
    → (check registry ctx ≡ ok (allow id redact)) ↔ Allowed registry ctx id redact
check-allow_iff registry ctx id redact =
    (check-Allowed registry ctx id redact, Allowed-check registry ctx id redact)
