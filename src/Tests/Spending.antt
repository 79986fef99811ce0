-- ===== src/Tests/Spending.antt =====
-- A call that is admitted, one that races it, and one that the gate refuses.
use Prim.Native.String.{String}
use jehad_os.Prelude.{
  map, ◌+◌, leb, ℕ, ◌≡◌, ◌≤◌, refl, true, false, Option, none, some, [], ◌∷◌, ok, arith,
  if◌then◌else◌,
}
use jehad_os.Prelude.Unknown.{Number, finite, is_positive}
use jehad_os.Egress.{
  EgressPolicyRule, ModelEgressPolicyRegistry, ModelRequest, includes, validate_context, match_from,
  match, applies, score, model_denial, check_rule, decide, check, assert_allowed,
  require_storage_mode, assert_egress, gated,
}
use jehad_os.Model.{
  ModelBudget, CallDb, ReservationInput, Reservation, denied, admitted, error, monthly_spend,
  finalize_reservation, release_reservation, admit_spend, reserve_budget,
}
use jehad_os.Model.Ledger.{pending}
use jehad_os.Model.Race.{Reach, month_begins, later, admits, Reach-bounds, reserve-denied}
use jehad_os.Model.Dispatch.{
  Usage, CallRun, try_attempt, dispatch_loop, non_negative_int, recorded_cost, conclude,
  after_admission, run_model_call,
}
use jehad_os.Model.Calls.{IsUntouched, run-undispatched, run-bound}

spending : Unit {0}
unfolding is_positive includes validate_context match_from match applies score model_denial
    check_rule decide check assert_allowed require_storage_mode assert_egress gated monthly_spend
    finalize_reservation release_reservation admit_spend reserve_budget try_attempt dispatch_loop
    non_negative_int recorded_cost conclude after_admission run_model_call
spending = tt

abbrev mint : ℕ → String
mint n = "call"

abbrev month_start : ℕ → ℕ
month_start now = 1000

abbrev budget : ModelBudget
budget = record { soft = 40; hard = 90 }

abbrev input : ReservationInput
input = record { run_id = "run"; provider = "openai"; model = "m"; prompt_version = none }

abbrev ledger : CallDb
ledger = record { calls = []; audits = []; minted = 0 }

winner :
    (r : Reservation) × (after : CallDb) × (reserve_budget month_start mint input budget 2000 ledger
      ≡ ok (admitted r, after))
unfolding spending
winner = (_, _, refl)

raced : Reach month_start mint budget 1000 7 winner.1
raced = later (month_begins ledger tt) (admits input 2000 winner.0 refl (omega arith) winner.2)

Reach-bounds_example :
    (pending 1000 winner.1.calls ≤ 1) × (monthly_spend 1000 winner.1.calls ≤ 90 + 7)
Reach-bounds_example = Reach-bounds month_start mint budget 1000 7 winner.1 raced

reserve-denied_example :
    reserve_budget month_start mint input budget 3000 winner.1 ≡ ok (denied 90, winner.1)
unfolding winner
reserve-denied_example =
    reserve-denied month_start mint budget 1000 7 winner.1 input 3000 raced refl refl

abbrev rule : EgressPolicyRule
rule = record {
  id = "rule";
  domain_id = "personal";
  sensitivity = "normal";
  allowed_providers = "openai" ∷ [];
  allowed_models = none;
  allow_remote = true;
  require_redaction = false;
}

abbrev registry : ModelEgressPolicyRegistry
registry = record { rules = rule ∷ [] }

abbrev request : ModelRequest String
request = record {
  domain_id = "personal";
  sensitivity = "normal";
  provider = "openai";
  model = "m";
  body = "Hello";
}

-- The first attempt fails, the second is answered.
abbrev provider : ℕ → ModelRequest String → Option Usage
provider attempt r =
    if leb attempt 1
    then none
    else some (record {
      input_tokens = some (finite false 12 0);
      output_tokens = none;
      cost_usd = some (finite false 3 0);
    })

abbrev domains : ℕ → Option (String → Option String)
domains attempt = some (λ domain. some "local")

-- The query for the domain fails on each attempt.
abbrev failing_domains : ℕ → Option (String → Option String)
failing_domains attempt = none

abbrev unknown_domains : ℕ → Option (String → Option String)
unknown_domains attempt = some (λ domain. none)

abbrev to_micro : Number → ℕ
to_micro n = 3

abbrev answered_call : CallRun
answered_call =
    run_model_call to_micro month_start mint provider "openai" registry domains request input true
      budget 2000 5 ledger

abbrev refused_call : CallRun
refused_call =
    run_model_call to_micro month_start mint provider "openai" registry unknown_domains request
      input true budget 2000 5 ledger

abbrev failed_call : CallRun
failed_call =
    run_model_call to_micro month_start mint provider "openai" registry failing_domains request
      input true budget 2000 5 ledger

-- The call that failed on its queries has left a row.
left_behind : map (λ c. c.result_status) failed_call.db.calls ≡ error ∷ []
unfolding spending
left_behind = refl

unrefused : refused_call.db.calls ≡ []
unfolding spending
unrefused = refl

retried : answered_call.dispatches ≡ 2
unfolding spending
retried = refl

spent : monthly_spend 1000 answered_call.db.calls ≡ 3
unfolding spending
spent = refl

run-bound_example : answered_call.dispatches ≤ 3
run-bound_example =
    run-bound to_micro month_start mint provider "openai" registry domains request input true budget
      2000 5 ledger

run-undispatched_example : IsUntouched failed_call ledger
unfolding spending
run-undispatched_example =
    run-undispatched to_micro month_start mint provider "openai" registry failing_domains request
      input true budget 2000 5 ledger refl
