-- ===== src/Egress.antt =====
-- packages/core/src/egress/policy.ts: the egress policy registry, its pure decision, and the
-- gate before a model provider. Texts that the code compares are `String`s; the `typeof` tests
-- on fields that are typed here cannot fail and are left out, and a denial's `message`, which
-- is rendered from its reason and the context, is not kept.
pub mod Matching
pub mod Decision
pub mod Gate
use jehad_os.Prelude.{
  ℕ, ◌+◌, Bool, true, false, not, ◌&&◌, ◌||◌, Option, none, some, List, [], ◌∷◌, String, str_eq,
  leb, any, if◌then◌else◌, Result, ok, err, ◌>>=◌, ◌>>◌, throw_if,
}

pub data StorageMode : Type 0 where
  local remote federated opaque : StorageMode

pub record EgressCheckContext : Type 0 where
  pub domain_id : String
  pub sensitivity : String
  pub provider : String
  pub model : Option String
  pub storage_mode : Option StorageMode

pub record EgressPolicyRule : Type 0 where
  pub id : String
  pub domain_id : String
  pub sensitivity : String
  pub allowed_providers : List String
  pub allowed_models : Option (List String)
  pub allow_remote : Bool
  pub require_redaction : Bool

pub data EgressDenialReason : Type 0 where
  secret_never_in_model_context no_matching_rule provider_not_allowed : EgressDenialReason
  model_not_allowed model_required_by_policy remote_content_forbidden : EgressDenialReason
  unknown_domain : EgressDenialReason

pub data EgressDecision : Type 0 where
  allow : (rule_id : String) (require_redaction : Bool) → EgressDecision
  deny : (reason : EgressDenialReason) (rule_id : Option String) → EgressDecision

-- What the module throws: `EgressPolicyError` and `EgressDenialError`.
pub data EgressError : Type 0 where
  policy_error : EgressError
  denial_error : EgressDenialReason → Option String → EgressError

-- `xs.includes(x)`
unfoldable pub includes : List String → String → Bool
includes [] x = false
includes (y ∷ ys) x = str_eq y x || includes ys x

abbrev pub is_sensitivity : String → Bool
is_sensitivity s = str_eq s "normal" || (str_eq s "sensitive" || str_eq s "secret")

unfoldable pub validate_context : EgressCheckContext → Result EgressError (Unit {0})
validate_context ctx = do
  throw_if (str_eq ctx.domain_id "") policy_error
  throw_if (str_eq ctx.provider "") policy_error
  throw_if (not (is_sensitivity ctx.sensitivity)) policy_error

has_empty : List String → Bool
has_empty = any (λ p. str_eq p "")

has_empty? : Option (List String) → Bool
unfolding has_empty
has_empty? none = false
has_empty? (some models) = has_empty models

-- The loop of `validateRules`; `seen` is the set of the ids before.
unfoldable pub validate_rules : List String → List EgressPolicyRule → Result EgressError (Unit {0})
unfolding has_empty has_empty? includes
validate_rules seen [] = ok tt
validate_rules seen (rule ∷ rules) =
    let rest = validate_rules (rule.id ∷ seen) rules in
    do
      throw_if (str_eq rule.id "" || includes seen rule.id) policy_error
      throw_if (str_eq rule.domain_id "") policy_error
      throw_if (not (is_sensitivity rule.sensitivity || str_eq rule.sensitivity "*")) policy_error
      throw_if (has_empty rule.allowed_providers) policy_error
      throw_if (has_empty? rule.allowed_models) policy_error
      rest

pub record ModelEgressPolicyRegistry : Type 0 where
  pub rules : List EgressPolicyRule

-- The constructor.
unfoldable pub new_registry : List EgressPolicyRule → Result EgressError ModelEgressPolicyRegistry
unfolding validate_rules
new_registry rules = do validate_rules [] rules; ok (record { rules = rules })

unfoldable pub applies : EgressPolicyRule → String → String → Bool
applies rule domain sens =
    (str_eq rule.domain_id domain || str_eq rule.domain_id "*")
    && (str_eq rule.sensitivity sens || str_eq rule.sensitivity "*")

unfoldable pub score : EgressPolicyRule → String → String → ℕ
score rule domain sens =
    (if str_eq rule.domain_id domain then 2 else 0)
    + (if str_eq rule.sensitivity sens then 1 else 0)

-- The loop of `match`. `floor` is `bestScore + 1`, so that it starts at 0 for -1, and
-- `score > bestScore` is `floor ≤ score`.
unfoldable pub match_from :
    Option EgressPolicyRule → ℕ → List EgressPolicyRule → String → String → Option EgressPolicyRule
unfolding applies score
match_from best floor [] domain sens = best
match_from best floor (rule ∷ rules) domain sens =
    let skip = match_from best floor rules domain sens in
    let take = match_from (some rule) (score rule domain sens + 1) rules domain sens in
    if not (applies rule domain sens)
    then skip
    else if leb floor (score rule domain sens)
    then take
    else skip

unfoldable pub match : ModelEgressPolicyRegistry → String → String → Option EgressPolicyRule
unfolding match_from
match registry domain sens = match_from none 0 registry.rules domain sens

-- The test on `rule.allowedModels`: a reason to deny, if there is one.
unfoldable pub model_denial : Option (List String) → Option String → Option EgressDenialReason
unfolding includes
model_denial none model = none
model_denial (some models) none = some model_required_by_policy
model_denial (some models) (some model) =
    if includes models model then none else some model_not_allowed

-- `ctx.storageMode !== undefined && ctx.storageMode !== "local"`
abbrev pub is_remote : Option StorageMode → Bool
is_remote none = false
is_remote (some local) = false
is_remote (some remote) = true
is_remote (some federated) = true
is_remote (some opaque) = true

-- `check`, once a rule is found.
unfoldable pub check_rule : EgressPolicyRule → EgressCheckContext → EgressDecision
unfolding includes model_denial
check_rule rule ctx =
    if not (includes rule.allowed_providers ctx.provider)
    then deny provider_not_allowed (some rule.id)
    else elim (model_denial rule.allowed_models ctx.model) [
      | some reason ↦ deny reason (some rule.id)
      | none ↦
          if is_remote ctx.storage_mode && not rule.allow_remote
          then deny remote_content_forbidden (some rule.id)
          else allow rule.id rule.require_redaction
    ]

unfoldable pub decide : ModelEgressPolicyRegistry → EgressCheckContext → EgressDecision
decide registry ctx =
    if str_eq ctx.sensitivity "secret"
    then deny secret_never_in_model_context none
    else elim (match registry ctx.domain_id ctx.sensitivity) [
      | none ↦ deny no_matching_rule none
      | some rule ↦ check_rule rule ctx
    ]

unfoldable pub check :
    ModelEgressPolicyRegistry → EgressCheckContext → Result EgressError EgressDecision
check registry ctx = do validate_context ctx; ok (decide registry ctx)

raise_denial : EgressDecision → Result EgressError EgressDecision
raise_denial (allow id redact) = ok (allow id redact)
raise_denial (deny reason id) = err (denial_error reason id)

unfoldable pub assert_allowed :
    ModelEgressPolicyRegistry → EgressCheckContext → Result EgressError EgressDecision
unfolding raise_denial
assert_allowed registry ctx = do decision ← check registry ctx; raise_denial decision

-- `requireStorageMode`: the raw `storage_mode` of the domain's row, which the table may lack or
-- hold anything in.
unfoldable pub parse_mode : String → Option StorageMode
parse_mode mode =
    if str_eq mode "local"
    then some local
    else if str_eq mode "remote"
    then some remote
    else if str_eq mode "federated"
    then some federated
    else if str_eq mode "opaque"
    then some opaque
    else none

unfoldable pub mode_of_row : Option String → Result EgressError StorageMode
unfolding parse_mode
mode_of_row none = err (denial_error unknown_domain none)
mode_of_row (some text) = elim (parse_mode text) [ none ↦ err policy_error | some mode ↦ ok mode ]

unfoldable pub require_storage_mode :
    (String → Option String) → String → Result EgressError StorageMode
unfolding mode_of_row
require_storage_mode domains domain = mode_of_row (domains domain)

-- The part of a model request that the gate reads; `body` is the rest of it.
pub record ModelRequest {ℓ} (Body : Type ℓ) : Type ℓ where
  pub domain_id : String
  pub sensitivity : String
  pub provider : String
  pub model : String
  pub body : Body

abbrev pub context {ℓ} : {Body : Type ℓ} → ModelRequest Body → StorageMode → EgressCheckContext
context request mode = record {
  domain_id = request.domain_id;
  sensitivity = request.sensitivity;
  provider = request.provider;
  model = some request.model;
  storage_mode = some mode;
}

-- `assertEgress` of `egressGatedModelProvider`.
unfoldable pub assert_egress {ℓ} :
    {Body : Type ℓ}
    → String
    → ModelEgressPolicyRegistry
    → (String → Option String)
    → ModelRequest Body
    → Result EgressError EgressDecision
assert_egress provider_id registry domains request = do
  throw_if (not (str_eq request.provider provider_id)) policy_error
  mode ← require_storage_mode domains request.domain_id
  assert_allowed registry (context request mode)

-- A dispatch surface of the gated provider, `complete` or `chat`: the answer, and the requests
-- that reached the provider that is wrapped. `dispatch` is that provider's own surface.
pub data GateOutcome {ℓ} (Answer : Type ℓ) : Type ℓ where
  refused : EgressError → GateOutcome Answer
  answered : Answer → GateOutcome Answer

unfoldable pub gated {ℓ κ} :
    {Body : Type ℓ} {Answer : Type κ}
    → (ModelRequest Body → Answer)
    → String
    → ModelEgressPolicyRegistry
    → (String → Option String)
    → ModelRequest Body
    → GateOutcome Answer × List (ModelRequest Body)
gated dispatch provider_id registry domains request =
    elim (assert_egress provider_id registry domains request) [
      | err e ↦ (refused e, [])
      | ok _ ↦ (answered (dispatch request), request ∷ [])
    ]
