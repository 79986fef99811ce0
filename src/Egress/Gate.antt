-- ===== src/Egress/Gate.antt =====
-- `egressGatedModelProvider` of packages/core/src/egress/policy.ts: what has been checked when a
-- request reaches the provider.
use jehad_os.Prelude.{
  Bool, not, Option, [], ◌∷◌, String, str_eq, eq_iff, ◌≡◌, refl, ◌⊎◌, Result, ok, err, arith, inl,
  inr, none, some, ap, Bool, true, false, if◌then◌else◌, ◌∙◌, >>=-eq-ok, throw_if, ◌>>=◌,
}
use jehad_os.Egress.{
  StorageMode, local, remote, federated, opaque, parse_mode, mode_of_row, EgressCheckContext,
  ModelEgressPolicyRegistry, EgressDecision, allow, deny, EgressError, policy_error, check,
  assert_allowed, raise_denial, require_storage_mode, ModelRequest, context, assert_egress, refused,
  answered, gated,
}
use jehad_os.Egress.Decision.{Allowed, check-Allowed}

module _ (registry : ModelEgressPolicyRegistry) where
  -- `assertAllowed` returns only decisions that allow.
  assert_allowed-Allowed :
      (ctx : EgressCheckContext) (decision : EgressDecision)
      → assert_allowed registry ctx ≡ ok decision
      → (id : String) × (redact : Bool) × Allowed registry ctx id redact
  unfolding assert_allowed
  assert_allowed-Allowed ctx decision h =
      let (d, checked, raised) = >>=-eq-ok (check registry ctx) raise_denial h in
      go d checked raised
    where
      go :
          (d : EgressDecision)
          → check registry ctx ≡ ok d
          → raise_denial d ≡ ok decision
          → (id : String) × (redact : Bool) × Allowed registry ctx id redact
      go (allow id redact) checked raised =
          (id, redact, check-Allowed registry ctx id redact checked)
      go (deny reason id) checked raised = cc

-- The text of a mode in the column `storage_mode`.
abbrev pub mode_text : StorageMode → String
mode_text local = "local"
mode_text remote = "remote"
mode_text federated = "federated"
mode_text opaque = "opaque"

named :
    (b : Bool) (text name : String) (m mode : StorageMode) (rest : Option StorageMode)
    → (b ≡ true → text ≡ name)
    → name ≡ mode_text m
    → (rest ≡ some mode → text ≡ mode_text mode)
    → (if b then some m else rest) ≡ some mode
    → text ≡ mode_text mode
named true text name m mode rest t e more h =
    let same : m ≡ mode = cc in t refl ∙ (e ∙ ap mode_text same)
named false text name m mode rest t e more h = more h

parse_mode-eq-some :
    (text : String) (mode : StorageMode) → parse_mode text ≡ some mode → text ≡ mode_text mode
unfolding parse_mode
parse_mode-eq-some text mode =
    let is_ : (name : String) → str_eq text name ≡ true → text ≡ name =
      λ name. (eq_iff text name).0 in
    named (str_eq text "local") text "local" local mode _ (is_ "local") refl (
      named (str_eq text "remote") text "remote" remote mode _ (is_ "remote") refl (
        named (str_eq text "federated") text "federated" federated mode _ (is_ "federated") refl (
          named (str_eq text "opaque") text "opaque" opaque mode none (is_ "opaque") refl
            (λ h. cc))))

mode_of_row-eq-ok :
    (row : Option String) (mode : StorageMode)
    → mode_of_row row ≡ ok mode
    → row ≡ some (mode_text mode)
unfolding mode_of_row
mode_of_row-eq-ok none mode h = cc
mode_of_row-eq-ok (some text) mode h =
    ap some (parse_mode-eq-some text mode (parsed (parse_mode text) h))
  where
    parsed :
        (o : Option StorageMode)
        → (elim o [ none ↦ err policy_error | some m ↦ ok m ]) ≡ ok mode
        → o ≡ some mode
    parsed none h = cc
    parsed (some m) h = cc

require_storage_mode-eq-ok :
    (domains : String → Option String) (domain : String) (mode : StorageMode)
    → require_storage_mode domains domain ≡ ok mode
    → domains domain ≡ some (mode_text mode)
unfolding require_storage_mode
require_storage_mode-eq-ok domains domain mode h = mode_of_row-eq-ok (domains domain) mode h

-- What the gate has established of a request that it lets through.
pub record Cleared {ℓ} {Body : Type ℓ} (provider_id : String) (registry : ModelEgressPolicyRegistry)
    (domains : String → Option String) (request : ModelRequest Body) : Type 0 where
  pub provider_named : request.provider ≡ provider_id
  pub mode : StorageMode
  pub domain_registered : domains request.domain_id ≡ some (mode_text mode)
  pub rule_id : String
  pub redaction : Bool
  pub allowed : Allowed registry (context request mode) rule_id redaction

module _ {ℓ κ} {Body : Type ℓ} {Answer : Type κ} (dispatch : ModelRequest Body → Answer)
    (provider_id : String) (registry : ModelEgressPolicyRegistry) (domains : String → Option String)
    (request : ModelRequest Body) where
  assert_egress-Cleared :
      (decision : EgressDecision)
      → assert_egress provider_id registry domains request ≡ ok decision
      → Cleared provider_id registry domains request
  unfolding assert_egress
  assert_egress-Cleared decision h =
      let (_, pinned, rest) =
        >>=-eq-ok (throw_if (not (str_eq request.provider provider_id)) policy_error)
          (λ _. require_storage_mode domains request.domain_id >>= λ mode.
            assert_allowed registry (context request mode))
          h in
      let (mode, registered, asserted) =
        >>=-eq-ok (require_storage_mode domains request.domain_id)
          (λ mode. assert_allowed registry (context request mode)) rest in
      let (id, redact, allowed) =
        assert_allowed-Allowed registry (context request mode) decision asserted in
      record {
        provider_named = ground (arith, eq_iff request.provider provider_id);
        mode = mode;
        domain_registered = require_storage_mode-eq-ok domains request.domain_id mode registered;
        rule_id = id;
        redaction = redact;
        allowed = allowed;
      }

  -- The gate either refuses and the provider sees nothing, or it lets exactly the given request
  -- through, once, and then the request names this provider, its domain is registered with a
  -- storage mode, and the policy allows it in that mode.
  pub gated-Cleared :
      ((e : EgressError) × (gated dispatch provider_id registry domains request ≡ (refused e, [])))
      ⊎ ((gated dispatch provider_id registry domains request
            ≡ (answered (dispatch request), request ∷ []))
          × Cleared provider_id registry domains request)
  unfolding gated
  gated-Cleared = go (assert_egress provider_id registry domains request) refl
    where
      go :
          (r : Result EgressError EgressDecision)
          → assert_egress provider_id registry domains request ≡ r
          → ((e : EgressError) × (gated dispatch provider_id registry domains request
                ≡ (refused e, [])))
            ⊎ ((gated dispatch provider_id registry domains request
                  ≡ (answered (dispatch request), request ∷ []))
                × Cleared provider_id registry domains request)
      go (err e) h = inl (e, rw (h, gated))
      go (ok d) h = inr (rw (h, gated), assert_egress-Cleared d h)
