-- ===== src/Tests/Gating.antt =====
-- Requests to the egress gate of packages/core/src/egress/policy.ts.
use jehad_os.Prelude.{
  ℕ, true, false, ◌≡◌, ◌↔◌, ◌⊎◌, refl, Option, none, some, [], ◌∷◌, String, ok, All,
}
use jehad_os.Egress.{
  local, EgressCheckContext, EgressPolicyRule, ModelEgressPolicyRegistry, allow, EgressError,
  denial_error, unknown_domain, remote_content_forbidden, new_registry, includes, validate_context,
  validate_rules, applies, score, match_from, match, check_rule, model_denial, decide, check,
  assert_allowed, require_storage_mode, ModelRequest, assert_egress, refused, answered, gated,
}
use jehad_os.Egress.Matching.{IsMostSpecific, match-IsMostSpecific, Misses, match-none_iff}
use jehad_os.Egress.Decision.{Allowed, check-allow_iff}
use jehad_os.Egress.Gate.{Cleared, gated-Cleared}

egress : Unit {0}
unfolding includes validate_context validate_rules applies score match_from match check_rule
    model_denial decide check assert_allowed require_storage_mode assert_egress gated new_registry
egress = tt

abbrev any_normal : EgressPolicyRule
any_normal = record {
  id = "any-normal";
  domain_id = "*";
  sensitivity = "normal";
  allowed_providers = "openrouter" ∷ [];
  allowed_models = none;
  allow_remote = false;
  require_redaction = false;
}

abbrev personal : EgressPolicyRule
personal = record {
  id = "personal";
  domain_id = "personal";
  sensitivity = "*";
  allowed_providers = "openrouter" ∷ "local" ∷ [];
  allowed_models = some ("m1" ∷ []);
  allow_remote = false;
  require_redaction = true;
}

abbrev registry : ModelEgressPolicyRegistry
registry = record { rules = any_normal ∷ personal ∷ [] }

registry_is_valid : new_registry (any_normal ∷ personal ∷ []) ≡ ok registry
unfolding egress
registry_is_valid = refl

abbrev ask : String → String → EgressCheckContext
ask domain sensitivity = record {
  domain_id = domain;
  sensitivity = sensitivity;
  provider = "openrouter";
  model = some "m1";
  storage_mode = some local;
}

ask_personal : check registry (ask "personal" "normal") ≡ ok (allow "personal" true)
unfolding egress
ask_personal = refl

personal_matches : match registry "personal" "normal" ≡ some personal
unfolding egress
personal_matches = refl

match-IsMostSpecific_example : IsMostSpecific "personal" "normal" 0 registry.rules personal
match-IsMostSpecific_example =
    match-IsMostSpecific registry "personal" "normal" personal personal_matches

match-none_iff_example :
    (match registry "work" "sensitive" ≡ none) ↔ All (Misses "work" "sensitive") registry.rules
match-none_iff_example = match-none_iff registry "work" "sensitive"

check-allow_iff_example :
    (check registry (ask "personal" "normal") ≡ ok (allow "personal" true))
    ↔ Allowed registry (ask "personal" "normal") "personal" true
check-allow_iff_example = check-allow_iff registry (ask "personal" "normal") "personal" true

abbrev domains : String → Option String
domains _ = some "local"

abbrev request : ModelRequest ℕ
request = record {
  domain_id = "personal";
  sensitivity = "normal";
  provider = "openrouter";
  model = "m1";
  body = 7;
}

gated-Cleared_example :
    ((e : EgressError) × (gated
          (λ (r : ModelRequest ℕ). r.body)
          "openrouter"
          registry
          domains
          request
        ≡ (refused e, [])))
    ⊎ ((gated (λ (r : ModelRequest ℕ). r.body) "openrouter" registry domains request
          ≡ (answered 7, request ∷ []))
        × Cleared "openrouter" registry domains request)
gated-Cleared_example =
    gated-Cleared (λ (r : ModelRequest ℕ). r.body) "openrouter" registry domains request

request_passes :
    gated (λ (r : ModelRequest ℕ). r.body) "openrouter" registry domains request
    ≡ (answered 7, request ∷ [])
unfolding egress
request_passes = refl

unknown_domain_refused :
    gated (λ (r : ModelRequest ℕ). r.body) "openrouter" registry (λ _. none) request
    ≡ (refused (denial_error unknown_domain none), [])
unfolding egress
unknown_domain_refused = refl

remote_refused :
    gated (λ (r : ModelRequest ℕ). r.body) "openrouter" registry (λ _. some "federated") request
    ≡ (refused (denial_error remote_content_forbidden (some "personal")), [])
unfolding egress
remote_refused = refl
