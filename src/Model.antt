-- ===== src/Model.antt =====
-- packages/core/src/model/budget.ts and call-model.ts: the ledger of model calls and the reservation
-- of the month's headroom. An amount is a whole number of micro-dollars, to which the code rounds a
-- reservation; what a float adds to that is not modelled. The transaction under the advisory lock
-- is one step, the columns that attribute a call to a principal, a surface, an outcome or an
-- assignment are left out, an audit entry is its action, and `date_trunc('month', now)` is a parameter.
pub mod Ledger
pub mod Race
pub mod Dispatch
pub mod Attempts
pub mod Releases
pub mod Calls
use Prim.Native.String.{String}
use jehad_os.Prelude.{
  ℕ, zero, suc, ◌+◌, ◌-◌, Bool, true, false, not, ◌&&◌, Option, none, some, List, [], ◌∷◌, ◌++◌,
  filter, any, str_eq, leb, ltb, if◌then◌else◌, Result, ok, err, ◌>>=◌, throw_if,
}

pub record ModelBudget : Type 0 where
  pub soft : ℕ
  pub hard : ℕ

pub data ModelCallResultStatus : Type 0 where
  reserved ok_ ok_budget_warning error : ModelCallResultStatus

-- A row of `model_calls`.
pub record ModelCall : Type 0 where
  pub id : String
  pub run_id : String
  pub provider : String
  pub model : String
  pub prompt_version : Option String
  pub in_tokens : ℕ
  pub out_tokens : ℕ
  pub cost : ℕ
  pub latency_ms : ℕ
  pub result_status : ModelCallResultStatus
  pub created_at : ℕ

pub record CallDb : Type 0 where
  pub calls : List ModelCall
  pub audits : List String
  pub minted : ℕ

pub record ReservationInput : Type 0 where
  pub run_id : String
  pub provider : String
  pub model : String
  pub prompt_version : Option String

pub record Reservation : Type 0 where
  pub id : String
  pub month_spend_before : ℕ

pub data BudgetAdmission : Type 0 where
  denied : (spent : ℕ) → BudgetAdmission
  admitted : Reservation → BudgetAdmission

abbrev pub is_reserved : ModelCallResultStatus → Bool
is_reserved reserved = true
is_reserved _ = false

-- `created_at >= date_trunc('month', now)`, from the month's start.
abbrev pub in_month : ℕ → ModelCall → Bool
in_month start call = leb start call.created_at

-- `COALESCE(SUM(cost_usd), 0)` of a month.
unfoldable pub monthly_spend : ℕ → List ModelCall → ℕ
monthly_spend start [] = 0
monthly_spend start (call ∷ calls) =
    (if in_month start call then call.cost else 0) + monthly_spend start calls

abbrev pub reservation_row : String → ReservationInput → ℕ → ℕ → ModelCall
reservation_row id input amount now = record {
  id = id;
  run_id = input.run_id;
  provider = input.provider;
  model = input.model;
  prompt_version = input.prompt_version;
  in_tokens = 0;
  out_tokens = 0;
  cost = amount;
  latency_ms = 0;
  result_status = reserved;
  created_at = now;
}

abbrev pub has_id : String → ModelCall → Bool
has_id id call = str_eq call.id id

-- The fields of `finalizeReservation`.
pub record Actuals : Type 0 where
  pub in_tokens : ℕ
  pub out_tokens : ℕ
  pub cost : ℕ
  pub latency_ms : ℕ
  pub result_status : ModelCallResultStatus

abbrev pub finalized_row : Actuals → ModelCall → ModelCall
finalized_row actuals call = record call {
  in_tokens = actuals.in_tokens;
  out_tokens = actuals.out_tokens;
  cost = actuals.cost;
  latency_ms = actuals.latency_ms;
  result_status = actuals.result_status;
}

unfoldable pub finalize_reservation : String → Actuals → List ModelCall → List ModelCall
finalize_reservation id actuals [] = []
finalize_reservation id actuals (call ∷ calls) =
    (if has_id id call then finalized_row actuals call else call)
    ∷ finalize_reservation id actuals calls

unfoldable pub release_reservation : String → List ModelCall → List ModelCall
release_reservation id calls = filter (λ call. not (has_id id call)) calls

-- What a call throws: `MissingRunError`, `ModelBudgetExceededError`, the two errors of the egress
-- gate, the provider's, that of the gate's query for a domain, `NativeChatUnsupportedError`, and the
-- violated PRIMARY KEY.
pub data CallError : Type 0 where
  missing_run budget_exceeded egress_denied egress_policy : CallError
  provider_failed lookup_failed chat_unsupported id_taken : CallError

module _ (month_start : ℕ → ℕ) (mint : ℕ → String) where
  -- The transaction once the month's spend is read: it rolls back at the cap, or reserves all that
  -- is left below it.
  unfoldable pub admit_spend :
      Bool
      → ℕ
      → ReservationInput
      → ModelBudget
      → ℕ
      → CallDb
      → Result CallError (BudgetAdmission × CallDb)
  admit_spend true spent input budget now db = ok (denied spent, db)
  admit_spend false spent input budget now db =
      let id = mint db.minted in
      throw_if (any (has_id id) db.calls) id_taken >>= λ _. ok (
        admitted (record { id = id; month_spend_before = spent }),
        record db {
          calls = db.calls ++ reservation_row id input (budget.hard - spent) now ∷ [];
          minted = suc db.minted;
        },
      )

  unfoldable pub reserve_budget :
      ReservationInput → ModelBudget → ℕ → CallDb → Result CallError (BudgetAdmission × CallDb)
  unfolding monthly_spend admit_spend
  reserve_budget input budget now db =
      let spent = monthly_spend (month_start now) db.calls in
      admit_spend (leb budget.hard spent) spent input budget now db
