-- ===== src/Model/Calls.antt =====
-- packages/core/src/model/call-model.ts: what a call dispatches, and what it leaves in the ledger.
use Prim.Native.String.{String}
use jehad_os.Prelude.{
  ℕ, suc, ◌-◌, ◌≤◌, ◌≡◌, refl, sym, ap, ◌∙◌, subst, Bool, true, false, Option, ◌⊎◌, [], ◌∷◌, ◌++◌,
  any, str_eq, leb, inl, inr, if◌then◌else◌, Result, ok, err, >>=-eq-ok, throw_if, arith,
}
use jehad_os.Prelude.Unknown.{Number}
use jehad_os.Egress.{
  ModelEgressPolicyRegistry, EgressError, policy_error, denial_error, ModelRequest,
}
use jehad_os.Model.{
  ModelBudget, ModelCall, CallDb, ReservationInput, Reservation, BudgetAdmission, denied, admitted,
  CallError, id_taken, lookup_failed, error, Actuals, finalized_row, finalize_reservation,
  monthly_spend, has_id, reservation_row, release_reservation, admit_spend, reserve_budget,
}
use jehad_os.Model.Dispatch.{
  Usage, CallRun, threw, Dispatched, gate_refused, attempt_threw, dispatch_loop, conclude,
  after_admission, run_model_call, max_attempts_left,
}
use jehad_os.Model.Attempts.{IsUndispatched, loop-bound, loop-IsUndispatched}
use jehad_os.Model.Releases.{release-append, finalize-append}

abbrev failed : ℕ → Actuals
failed latency = record {
  in_tokens = 0;
  out_tokens = 0;
  cost = 0;
  latency_ms = latency;
  result_status = error;
}

-- The ledger is as it was, or the call has thrown the error of the gate's query and has left one
-- row behind, without a cost and with the status `error`.
abbrev pub IsUntouched : CallRun → CallDb → Type 0
IsUntouched r db =
    (r.db.calls ≡ db.calls)
    ⊎ ((row : ModelCall) × (r.ending ≡ threw lookup_failed)
        × (r.db.calls ≡ db.calls ++ row ∷ [])
        × (row.cost ≡ 0)
        × (row.result_status ≡ error))

not_thrown : (b : Bool) → throw_if b id_taken ≡ ok tt → b ≡ false
not_thrown true h = cc
not_thrown false h = refl

either_run : (b : Bool) (x y : CallRun) (P : CallRun → Type 0) → P x → P y → P (if b then x else y)
either_run true x y P h k = h
either_run false x y P h k = k

attempts : (retry : Bool) → suc (max_attempts_left retry) ≡ (if retry then 3 else 1)
attempts true = refl
attempts false = refl

module _ (to_micro : Number → ℕ) (month_start : ℕ → ℕ) (mint : ℕ → String) where
  conclude-refused :
      (r : Reservation) (budget : ModelBudget) (latency : ℕ) (db : CallDb) (e : EgressError)
      → (conclude to_micro r budget latency db (gate_refused e)).1.calls
        ≡ release_reservation r.id db.calls
  unfolding conclude
  conclude-refused r budget latency db policy_error = refl
  conclude-refused r budget latency db (denial_error reason rule) = refl

  conclude-failed :
      (r : Reservation) (budget : ModelBudget) (latency : ℕ) (db : CallDb) (e : CallError)
      → ((conclude to_micro r budget latency db (attempt_threw e)).0 ≡ threw e)
        × ((conclude to_micro r budget latency db (attempt_threw e)).1.calls
            ≡ finalize_reservation r.id (failed latency) db.calls)
  unfolding conclude
  conclude-failed r budget latency db e = (refl, refl)

  -- An admission adds one row with a new id.
  admitted-row :
      (b : Bool) (spent : ℕ) (input : ReservationInput) (budget : ModelBudget) (now : ℕ)
      (db after : CallDb) (r : Reservation)
      → admit_spend month_start mint b spent input budget now db ≡ ok (admitted r, after)
      → (row : ModelCall) × (row.id ≡ r.id)
        × (after.calls ≡ db.calls ++ row ∷ [])
        × (any (has_id r.id) db.calls ≡ false)
  unfolding admit_spend
  admitted-row true spent input budget now db after r h = cc
  admitted-row false spent input budget now db after r h =
      let id = mint db.minted in
      let row = reservation_row id input (budget.hard - spent) now in
      let next : CallDb = record db { calls = db.calls ++ row ∷ []; minted = suc db.minted } in
      let reservation : Reservation = record { id = id; month_spend_before = spent } in
      let a : BudgetAdmission = admitted reservation in
      let s = >>=-eq-ok (throw_if (any (has_id id) db.calls) id_taken) (λ _. ok (a, next)) h in
      let q : next ≡ after = cc in
      let w : reservation ≡ r = cc in
      (
        row,
        ap (λ x. x.id) w,
        sym (ap (λ x. x.calls) q),
        subst (λ x. any (has_id x.id) db.calls ≡ false) w
            (not_thrown (any (has_id id) db.calls) s.1),
      )

  admitted-release :
      (b : Bool) (spent : ℕ) (input : ReservationInput) (budget : ModelBudget) (now : ℕ)
      (db after : CallDb) (r : Reservation)
      → admit_spend month_start mint b spent input budget now db ≡ ok (admitted r, after)
      → release_reservation r.id after.calls ≡ db.calls
  admitted-release b spent input budget now db after r h =
      let k = admitted-row b spent input budget now db after r h in
      ap (release_reservation r.id) k.2 ∙ release-append r.id k.0 db.calls k.1 k.3

  denied-calls :
      (b : Bool) (spent n : ℕ) (input : ReservationInput) (budget : ModelBudget) (now : ℕ)
      (db after : CallDb)
      → admit_spend month_start mint b spent input budget now db ≡ ok (denied n, after)
      → after.calls ≡ db.calls
  unfolding admit_spend
  denied-calls true spent n input budget now db after h =
      let e : db ≡ after = cc in ap (λ d. d.calls) (sym e)
  denied-calls false spent n input budget now db after h =
      let s = >>=-eq-ok (throw_if (any (has_id (mint db.minted)) db.calls) id_taken) _ h in cc

  -- What an admitted call leaves that was not dispatched.
  concluded :
      (budget : ModelBudget) (latency : ℕ) (loop : Dispatched × ℕ) (db after : CallDb)
      (input : ReservationInput) (now : ℕ) (b : Bool) (spent : ℕ) (r : Reservation)
      → admit_spend month_start mint b spent input budget now db ≡ ok (admitted r, after)
      → IsUndispatched loop.0
      → IsUntouched
          (after_admission to_micro month_start mint budget latency loop db
            (ok (admitted r, after)))
          db
  unfolding after_admission
  concluded budget latency loop db after input now b spent r h (inl d) = inl (
      ap (λ x. (conclude to_micro r budget latency after x).1.calls) d.1
      ∙ (conclude-refused r budget latency after d.0
          ∙ admitted-release b spent input budget now db after r h))
  concluded budget latency loop db after input now b spent r h (inr d) =
      let k = admitted-row b spent input budget now db after r h in
      let c = conclude-failed r budget latency after lookup_failed in
      inr (
        finalized_row (failed latency) k.0,
        ap (λ x. (conclude to_micro r budget latency after x).0) d ∙ c.0,
        ap (λ x. (conclude to_micro r budget latency after x).1.calls) d
            ∙ (c.1
                ∙ (ap (finalize_reservation r.id (failed latency)) k.2
                    ∙ finalize-append r.id (failed latency) k.0 db.calls k.1 k.3)),
        refl,
        refl,
      )

  admission-undispatched :
      (budget : ModelBudget) (latency : ℕ) (loop : Dispatched × ℕ) (db : CallDb)
      (input : ReservationInput) (now : ℕ) (b : Bool) (spent : ℕ)
      (a : Result CallError (BudgetAdmission × CallDb))
      → admit_spend month_start mint b spent input budget now db ≡ a
      → (loop.1 ≡ 0 → IsUndispatched loop.0)
      → (after_admission to_micro month_start mint budget latency loop db a).dispatches ≡ 0
      → IsUntouched (after_admission to_micro month_start mint budget latency loop db a) db
  unfolding after_admission
  admission-undispatched budget latency loop db input now b spent (err e) h k z = inl refl
  admission-undispatched budget latency loop db input now b spent (ok (denied n, after)) h k z =
      inl (denied-calls b spent n input budget now db after h)
  admission-undispatched budget latency loop db input now b spent (ok (admitted r, after)) h k z =
      concluded budget latency loop db after input now b spent r h (k z)

  admission-bound :
      (budget : ModelBudget) (latency n : ℕ) (loop : Dispatched × ℕ) (db : CallDb)
      (a : Result CallError (BudgetAdmission × CallDb))
      → loop.1 ≤ n
      → (after_admission to_micro month_start mint budget latency loop db a).dispatches ≤ n
  unfolding after_admission
  admission-bound budget latency n loop db (err e) h = omega arith
  admission-bound budget latency n loop db (ok (denied m, after)) h = omega arith
  admission-bound budget latency n loop db (ok (admitted r, after)) h = h

  module _ {ℓ} {Body : Type ℓ} (provider : ℕ → ModelRequest Body → Option Usage)
      (provider_id : String) (registry : ModelEgressPolicyRegistry)
      (domains : ℕ → Option (String → Option String)) (request : ModelRequest Body)
      (input : ReservationInput) (retry : Bool) (budget : ModelBudget) (now latency : ℕ)
      (db : CallDb) where
    abbrev call : CallRun
    call =
        run_model_call to_micro month_start mint provider provider_id registry domains request input
          retry budget now latency db

    -- A call that invokes the provider not at all leaves the rows of the ledger as they were, or it
    -- throws the error of the gate's query for the domain, and has left one row, without a cost and
    -- with the status `error`.
    pub run-undispatched : call.dispatches ≡ 0 → IsUntouched call db
    unfolding run_model_call reserve_budget
    run-undispatched =
        let start = month_start now in
        let spent = monthly_spend start db.calls in
        let b = leb budget.hard spent in
        let left = max_attempts_left retry in
        let loop = dispatch_loop provider provider_id registry domains request left 1 in
        either_run (str_eq input.run_id "") _ _ (λ r. r.dispatches ≡ 0 → IsUntouched r db)
          (λ z. inl refl)
          (admission-undispatched budget latency loop db input now b spent
            (admit_spend month_start mint b spent input budget now db) refl
            (loop-IsUndispatched provider provider_id registry domains request left 1))

    -- A call invokes the provider at most three times, and once where it does not ask for retries.
    pub run-bound : call.dispatches ≤ (if retry then 3 else 1)
    unfolding run_model_call reserve_budget
    run-bound =
        let spent = monthly_spend (month_start now) db.calls in
        let a = admit_spend month_start mint (leb budget.hard spent) spent input budget now db in
        let left = max_attempts_left retry in
        let loop = dispatch_loop provider provider_id registry domains request left 1 in
        let most =
          either_run (str_eq input.run_id "") _ _ (λ r. r.dispatches ≤ suc left) (omega arith)
            (admission-bound budget latency (suc left) loop db a
              (loop-bound provider provider_id registry domains request left 1)) in
        subst (λ n. call.dispatches ≤ n) (attempts retry) most
