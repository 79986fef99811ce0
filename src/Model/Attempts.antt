-- ===== src/Model/Attempts.antt =====
-- packages/core/src/model/call-model.ts: how often the loop of a call invokes the provider.
use Prim.Native.String.{String}
use jehad_os.Prelude.{ℕ, zero, suc, ◌≤◌, ◌≡◌, refl, Option, none, some, ◌⊎◌, inl, inr, arith}
use jehad_os.Egress.{
  ModelEgressPolicyRegistry, EgressError, ModelRequest, GateOutcome, refused, answered,
}
use jehad_os.Model.{CallError, provider_failed, lookup_failed}
use jehad_os.Model.Dispatch.{
  Usage, Dispatched, gate_refused, attempt_threw, try_attempt, attempt_end, dispatch_loop,
}

-- A loop that the gate ended, or its failing query on the last attempt.
abbrev pub IsUndispatched : Dispatched → Type 0
IsUndispatched d = ((e : EgressError) × (d ≡ gate_refused e)) ⊎ (d ≡ attempt_threw lookup_failed)

module _ {ℓ} {Body : Type ℓ} (provider : ℕ → ModelRequest Body → Option Usage)
    (provider_id : String) (registry : ModelEgressPolicyRegistry)
    (domains : ℕ → Option (String → Option String)) (request : ModelRequest Body) where
  end-bound :
      (attempt n : ℕ) (g : Option (GateOutcome (Option Usage))) (later : CallError → Dispatched × ℕ)
      → ((e : CallError) → (later e).1 ≤ n)
      → (attempt_end attempt g later).1 ≤ suc n
  end-bound attempt n none later h = omega (arith, h lookup_failed)
  end-bound attempt n (some (refused e)) later h = omega arith
  end-bound attempt n (some (answered (some u))) later h = omega arith
  end-bound attempt n (some (answered none)) later h = omega (arith, h provider_failed)

  pub loop-bound :
      (left attempt : ℕ)
      → (dispatch_loop provider provider_id registry domains request left attempt).1 ≤ suc left
  unfolding dispatch_loop
  loop-bound zero attempt =
      end-bound attempt 0
        (try_attempt (provider attempt) provider_id registry (domains attempt) request)
        (λ e. (attempt_threw e, 0)) (λ e. omega arith)
  loop-bound (suc left) attempt =
      end-bound attempt (suc left)
        (try_attempt (provider attempt) provider_id registry (domains attempt) request)
        (λ e. dispatch_loop provider provider_id registry domains request left (suc attempt))
        (λ e. loop-bound left (suc attempt))

  end-IsUndispatched :
      (attempt : ℕ) (g : Option (GateOutcome (Option Usage))) (later : CallError → Dispatched × ℕ)
      → ((later lookup_failed).1 ≡ 0 → IsUndispatched (later lookup_failed).0)
      → (attempt_end attempt g later).1 ≡ 0
      → IsUndispatched (attempt_end attempt g later).0
  end-IsUndispatched attempt none later k h = k h
  end-IsUndispatched attempt (some (refused e)) later k h = inl (e, refl)
  end-IsUndispatched attempt (some (answered (some u))) later k h = absurd (omega (arith, h))
  end-IsUndispatched attempt (some (answered none)) later k h = absurd (omega (arith, h))

  pub loop-IsUndispatched :
      (left attempt : ℕ)
      → (dispatch_loop provider provider_id registry domains request left attempt).1 ≡ 0
      → IsUndispatched (dispatch_loop provider provider_id registry domains request left attempt).0
  unfolding dispatch_loop
  loop-IsUndispatched zero attempt h =
      end-IsUndispatched attempt
        (try_attempt (provider attempt) provider_id registry (domains attempt) request)
        (λ e. (attempt_threw e, 0)) (λ z. inr refl) h
  loop-IsUndispatched (suc left) attempt h =
      end-IsUndispatched attempt
        (try_attempt (provider attempt) provider_id registry (domains attempt) request)
        (λ e. dispatch_loop provider provider_id registry domains request left (suc attempt))
        (loop-IsUndispatched left (suc attempt)) h
