-- ===== src/Model/Dispatch.antt =====
-- packages/core/src/model/call-model.ts: one model call, from its admission to its ledger row. The
-- provider's answers and the domains' rows are given for each attempt, and the latency by the clock;
-- the query for a domain's row may fail, the other queries do not.
-- What a call that throws leaves in the ledger is kept. `to_micro` rounds a cost.
use Prim.Native.String.{String}
use jehad_os.Prelude.{
  ℕ, zero, suc, ◌+◌, ◌^◌, Bool, true, false, Option, none, some, [], ◌∷◌, ◌++◌, str_eq, leb, ltb,
  if◌then◌else◌, Result, ok, err,
}
use jehad_os.Prelude.Unknown.{Number, finite, is_positive}
use jehad_os.Egress.{
  ModelEgressPolicyRegistry, EgressError, policy_error, denial_error, ModelRequest, GateOutcome,
  refused, answered, gated,
}
use jehad_os.Model.{
  ModelBudget, ModelCallResultStatus, ok_, ok_budget_warning, error, CallDb, ReservationInput,
  Reservation, BudgetAdmission, denied, admitted, CallError, missing_run, budget_exceeded,
  egress_denied, egress_policy, provider_failed, lookup_failed, chat_unsupported,
  finalize_reservation, release_reservation, reserve_budget,
}

-- `result.usage`, a field that is missing being none.
pub record Usage : Type 0 where
  pub input_tokens : Option Number
  pub output_tokens : Option Number
  pub cost_usd : Option Number

pub record ModelCallOutcome : Type 0 where
  pub result_status : ModelCallResultStatus
  pub latency_ms : ℕ
  pub cost : ℕ
  pub month_spend_before : ℕ

pub data Ending : Type 0 where
  threw : CallError → Ending
  returned : ModelCallOutcome → Ending

-- How a call ends, the database that it leaves, and how often the provider was invoked.
pub record CallRun : Type 0 where
  pub ending : Ending
  pub db : CallDb
  pub dispatches : ℕ

pub data Dispatched : Type 0 where
  gate_refused : EgressError → Dispatched
  attempt_threw : CallError → Dispatched
  answered_on : (attempt : ℕ) → Usage → Dispatched

-- `Math.round` of a positive number.
abbrev round : Number → ℕ
round (finite false whole fraction) = if ltb fraction (2 ^ 1073) then whole else whole + 1
round _ = 0

unfoldable pub non_negative_int : Option Number → ℕ
unfolding is_positive
non_negative_int none = 0
non_negative_int (some n) = if is_positive n then round n else 0

abbrev pub max_attempts_left : Bool → ℕ
max_attempts_left retry_on_transient = if retry_on_transient then 2 else 0

-- The gate's answer on one attempt, or none where its query for the domain, which follows the check
-- of the provider's name, fails.
unfoldable pub try_attempt {ℓ} :
    {Body : Type ℓ}
    → (ModelRequest Body → Option Usage)
    → String
    → ModelEgressPolicyRegistry
    → Option (String → Option String)
    → ModelRequest Body
    → Option (GateOutcome (Option Usage))
unfolding gated
try_attempt provider provider_id registry (some domains) request =
    some (gated provider provider_id registry domains request).0
try_attempt provider provider_id registry none request =
    if str_eq request.provider provider_id then none else some (refused policy_error)

-- One attempt: its end, or what follows its error.
abbrev pub attempt_end :
    (attempt : ℕ)
    → Option (GateOutcome (Option Usage))
    → (CallError → Dispatched × ℕ)
    → Dispatched × ℕ
attempt_end attempt none later = later lookup_failed
attempt_end attempt (some (refused e)) later = (gate_refused e, 0)
attempt_end attempt (some (answered (some usage))) later = (answered_on attempt usage, 1)
attempt_end attempt (some (answered none)) later =
    let rest = later provider_failed in (rest.0, suc rest.1)

module _ {ℓ} {Body : Type ℓ} (provider : ℕ → ModelRequest Body → Option Usage)
    (provider_id : String) (registry : ModelEgressPolicyRegistry)
    (domains : ℕ → Option (String → Option String)) (request : ModelRequest Body) where
  -- The loop over the attempts; `left` is how many may follow this one. Only the last one's error
  -- is thrown.
  unfoldable pub dispatch_loop : (left attempt : ℕ) → Dispatched × ℕ
  unfolding try_attempt
  dispatch_loop zero attempt =
      attempt_end attempt
        (try_attempt (provider attempt) provider_id registry (domains attempt) request)
        (λ e. (attempt_threw e, 0))
  dispatch_loop (suc left) attempt =
      let rest = dispatch_loop left (suc attempt) in
      attempt_end attempt
        (try_attempt (provider attempt) provider_id registry (domains attempt) request) (λ e. rest)

abbrev audited_if : Bool → String → CallDb → CallDb
audited_if true action db = record db { audits = db.audits ++ action ∷ [] }
audited_if false action db = db

module _ (to_micro : Number → ℕ) where
  unfoldable pub recorded_cost : Option Number → ℕ
  unfolding is_positive
  recorded_cost none = 0
  recorded_cost (some n) = if is_positive n then to_micro n else 0

  -- What follows the loop: the reservation is released or finalized.
  unfoldable pub conclude : Reservation → ModelBudget → ℕ → CallDb → Dispatched → Ending × CallDb
  unfolding finalize_reservation release_reservation recorded_cost non_negative_int
  conclude r budget latency db (gate_refused (denial_error reason rule)) = (
    threw egress_denied,
    audited_if true "model.egress.denied" (record db { calls = release_reservation r.id db.calls }),
  )
  conclude r budget latency db (gate_refused policy_error) =
      (threw egress_policy, record db { calls = release_reservation r.id db.calls })
  conclude r budget latency db (attempt_threw e) = (
    threw e,
    record db {
      calls =
          finalize_reservation r.id
            (record {
              in_tokens = 0;
              out_tokens = 0;
              cost = 0;
              latency_ms = latency;
              result_status = error;
            })
            db.calls;
    },
  )
  conclude r budget latency db (answered_on attempt usage) =
      let over_soft = leb budget.soft r.month_spend_before in
      let status = if over_soft then ok_budget_warning else ok_ in
      let cost = recorded_cost usage.cost_usd in
      let retried = audited_if (ltb 1 attempt) "model.provider.retried" db in
      (
        returned (record {
          result_status = status;
          latency_ms = latency;
          cost = cost;
          month_spend_before = r.month_spend_before;
        }),
        audited_if over_soft "model.budget.warning" (record retried {
          calls =
              finalize_reservation r.id
                (record {
                  in_tokens = non_negative_int usage.input_tokens;
                  out_tokens = non_negative_int usage.output_tokens;
                  cost = cost;
                  latency_ms = latency;
                  result_status = status;
                })
                retried.calls;
        }),
      )

  module _ (month_start : ℕ → ℕ) (mint : ℕ → String) where
    unfoldable pub after_admission :
        ModelBudget
        → ℕ
        → Dispatched × ℕ
        → CallDb
        → Result CallError (BudgetAdmission × CallDb)
        → CallRun
    unfolding conclude
    after_admission budget latency loop db (err e) = record {
      ending = threw e;
      db = db;
      dispatches = 0;
    }
    after_admission budget latency loop db (ok (denied spent, after)) = record {
      ending = threw budget_exceeded;
      db = audited_if true "model.budget.denied" after;
      dispatches = 0;
    }
    after_admission budget latency loop db (ok (admitted r, after)) =
        let last = conclude r budget latency after loop.0 in
        record { ending = last.0; db = last.1; dispatches = loop.1 }

    unfoldable pub run_model_call {ℓ} :
        {Body : Type ℓ}
        → (ℕ → ModelRequest Body → Option Usage)
        → String
        → ModelEgressPolicyRegistry
        → (ℕ → Option (String → Option String))
        → ModelRequest Body
        → ReservationInput
        → Bool
        → ModelBudget
        → (now latency : ℕ) → CallDb
        → CallRun
    unfolding dispatch_loop after_admission reserve_budget
    run_model_call provider provider_id registry domains request input retry budget now latency db =
        if str_eq input.run_id ""
        then record { ending = threw missing_run; db = db; dispatches = 0 }
        else after_admission budget latency
            (dispatch_loop provider provider_id registry domains request (max_attempts_left retry)
              1)
            db (reserve_budget month_start mint input budget now db)

    -- The chat surface, which a provider may lack.
    unfoldable pub call_model_chat {ℓ} :
        {Body : Type ℓ}
        → Option (ℕ → ModelRequest Body → Option Usage)
        → String
        → ModelEgressPolicyRegistry
        → (ℕ → Option (String → Option String))
        → ModelRequest Body
        → ReservationInput
        → Bool
        → ModelBudget
        → (now latency : ℕ) → CallDb
        → CallRun
    unfolding run_model_call
    call_model_chat none provider_id registry domains request input retry budget now latency db =
        record { ending = threw chat_unsupported; db = db; dispatches = 0 }
    call_model_chat (some chat) provider_id registry domains request input retry budget now latency
          db =
        run_model_call chat provider_id registry domains request input retry budget now latency db
