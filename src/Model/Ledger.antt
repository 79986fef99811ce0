-- ===== src/Model/Ledger.antt =====
-- packages/core/src/model/budget.ts: a month's spend as what is committed and what is held.
use Prim.Native.String.{String}
use jehad_os.Prelude.{
  ℕ, suc, ◌+◌, ◌≤◌, ◌≡◌, refl, ap, Bool, true, false, not, List, [], ◌∷◌, ◌++◌, All, if◌then◌else◌,
  arith,
}
use jehad_os.Model.{
  ModelCall, Actuals, is_reserved, in_month, monthly_spend, has_id, finalized_row,
  finalize_reservation, release_reservation,
}

-- Of the calls of the month from `start`: the cost of those that are final, the amount that
-- reservations hold, and how many reservations there are.
abbrev final_cost : (month reserved_ : Bool) (cost : ℕ) → ℕ
final_cost true false cost = cost
final_cost _ _ cost = 0

abbrev held_amount : (month reserved_ : Bool) (cost : ℕ) → ℕ
held_amount true true cost = cost
held_amount _ _ cost = 0

abbrev one_pending : (month reserved_ : Bool) (cost : ℕ) → ℕ
one_pending true true cost = 1
one_pending _ _ cost = 0

abbrev pub committed : ℕ → List ModelCall → ℕ
committed start [] = 0
committed start (c ∷ cs) =
    final_cost (in_month start c) (is_reserved c.result_status) c.cost + committed start cs

abbrev pub held : ℕ → List ModelCall → ℕ
held start [] = 0
held start (c ∷ cs) =
    held_amount (in_month start c) (is_reserved c.result_status) c.cost + held start cs

abbrev pub pending : ℕ → List ModelCall → ℕ
pending start [] = 0
pending start (c ∷ cs) =
    one_pending (in_month start c) (is_reserved c.result_status) c.cost + pending start cs

split_cost :
    (m r : Bool) (cost : ℕ) → (if m then cost else 0) ≡ final_cost m r cost + held_amount m r cost
split_cost true true cost = omega arith
split_cost true false cost = omega arith
split_cost false true cost = refl
split_cost false false cost = refl

pub spend-split :
    (start : ℕ) (cs : List ModelCall) → monthly_spend start cs ≡ committed start cs + held start cs
unfolding monthly_spend
spend-split start [] = refl
spend-split start (c ∷ cs) = omega (
  arith,
  split_cost (in_month start c) (is_reserved c.result_status) c.cost,
  spend-split start cs,
)

-- Without a reservation nothing is held.
pending_pair :
    (m r : Bool) (cost p h : ℕ)
    → (p ≡ 0 → h ≡ 0)
    → one_pending m r cost + p ≡ 0
    → held_amount m r cost + h ≡ 0
pending_pair true true cost p h k e = absurd (omega arith)
pending_pair true false cost p h k e = let z = k (omega arith) in omega arith
pending_pair false true cost p h k e = let z = k (omega arith) in omega arith
pending_pair false false cost p h k e = let z = k (omega arith) in omega arith

pub held-none : (start : ℕ) (cs : List ModelCall) → pending start cs ≡ 0 → held start cs ≡ 0
held-none start [] h = refl
held-none start (c ∷ cs) h =
    pending_pair (in_month start c) (is_reserved c.result_status) c.cost (pending start cs)
      (held start cs) (held-none start cs) h

pub committed-append :
    (start : ℕ) (cs ds : List ModelCall)
    → committed start (cs ++ ds) ≡ committed start cs + committed start ds
committed-append start [] ds = omega arith
committed-append start (c ∷ cs) ds = omega (arith, committed-append start cs ds)

pub held-append :
    (start : ℕ) (cs ds : List ModelCall) → held start (cs ++ ds) ≡ held start cs + held start ds
held-append start [] ds = omega arith
held-append start (c ∷ cs) ds = omega (arith, held-append start cs ds)

pub pending-append :
    (start : ℕ) (cs ds : List ModelCall)
    → pending start (cs ++ ds) ≡ pending start cs + pending start ds
pending-append start [] ds = omega arith
pending-append start (c ∷ cs) ds = omega (arith, pending-append start cs ds)

-- The rows with an id are reservations.
abbrev pub IsOpen : String → List ModelCall → Type 0
IsOpen id cs = All (λ c. has_id id c ≡ true → is_reserved c.result_status ≡ true) cs

-- Some pending reservations were closed, each at a cost of at most `cost`: what is committed, held
-- and pending before, and after.
pub record Closed (cost c h p c2 h2 p2 : ℕ) : Type 0 where
  pub count : ℕ
  pub fewer : p2 + count ≡ p
  pub costs : count ≤ 1 → c2 ≤ c + cost
  pub same : count ≡ 0 → (c2 ≡ c) × (h2 ≡ h)

module _ {cost c h p c2 h2 p2 : ℕ} (k : Closed cost c h p c2 h2 p2) where
  other-Closed : (x y z : ℕ) → Closed cost (x + c) (y + h) (z + p) (x + c2) (y + h2) (z + p2)
  other-Closed x y z = record {
    count = k.count;
    fewer = omega (arith, k.fewer);
    costs = λ l. omega (arith, k.costs l);
    same = λ e. (ap (λ n. x + n) (k.same e).0, ap (λ n. y + n) (k.same e).1);
  }

  finalized-Closed :
      (m : Bool) (a new : ℕ)
      → new ≤ cost
      → Closed cost
          (final_cost m true a + c)
          (held_amount m true a + h)
          (one_pending m true a + p)
          (final_cost m false new + c2)
          (held_amount m false new + h2)
          (one_pending m false new + p2)
  finalized-Closed true a new l = record {
    count = suc k.count;
    fewer = omega (arith, k.fewer);
    costs = λ q. let e = (k.same (omega arith)).0 in omega arith;
    same = λ e. absurd (omega arith);
  }
  finalized-Closed false a new l = other-Closed 0 0 0

  released-Closed :
      (m : Bool) (a : ℕ)
      → Closed cost
          (final_cost m true a + c)
          (held_amount m true a + h)
          (one_pending m true a + p)
          c2
          h2
          p2
  released-Closed true a = record {
    count = suc k.count;
    fewer = omega (arith, k.fewer);
    costs = λ q. let e = (k.same (omega arith)).0 in omega arith;
    same = λ e. absurd (omega arith);
  }
  released-Closed false a = record {
    count = k.count;
    fewer = omega (arith, k.fewer);
    costs = λ l. omega (arith, k.costs l);
    same = λ e. let q = k.same e in (omega (arith, q.0), omega (arith, q.1));
  }

abbrev pub Closes : (cost start : ℕ) → (cs ds : List ModelCall) → Type 0
Closes cost start cs ds =
    Closed cost (committed start cs) (held start cs) (pending start cs) (committed start ds)
      (held start ds) (pending start ds)

nothing-Closed : (cost : ℕ) → Closed cost 0 0 0 0 0 0
nothing-Closed cost = record {
  count = 0;
  fewer = refl;
  costs = λ l. omega arith;
  same = λ e. (refl, refl);
}

module _ (cost start : ℕ) (id : String) where
  finalize_one :
      (actuals : Actuals) (call : ModelCall) (cs ds : List ModelCall) (hit r : Bool)
      → (hit ≡ true → r ≡ true)
      → is_reserved call.result_status ≡ r
      → is_reserved actuals.result_status ≡ false
      → actuals.cost ≤ cost
      → Closes cost start cs ds
      → Closes cost start (call ∷ cs) ((if hit then finalized_row actuals call else call) ∷ ds)
  finalize_one actuals call cs ds true true o e f l k =
      rw (e, f) (finalized-Closed k (in_month start call) call.cost actuals.cost l)
  finalize_one actuals call cs ds true false o e f l k = let t = o refl in cc
  finalize_one actuals call cs ds false r o e f l k = other-Closed k _ _ _

  pub finalize-Closes :
      (actuals : Actuals) (cs : List ModelCall)
      → IsOpen id cs
      → is_reserved actuals.result_status ≡ false
      → actuals.cost ≤ cost
      → Closes cost start cs (finalize_reservation id actuals cs)
  unfolding finalize_reservation
  finalize-Closes actuals [] o f l = nothing-Closed cost
  finalize-Closes actuals (call ∷ cs) o f l =
      finalize_one actuals call cs (finalize_reservation id actuals cs) (has_id id call)
        (is_reserved call.result_status) o.0 refl f l (finalize-Closes actuals cs o.1 f l)

  release_one :
      (call : ModelCall) (cs ds : List ModelCall) (hit r : Bool)
      → (hit ≡ true → r ≡ true)
      → is_reserved call.result_status ≡ r
      → Closes cost start cs ds
      → Closes cost start (call ∷ cs) (elim (not hit) [ true ↦ call ∷ ds | false ↦ ds ])
  release_one call cs ds true true o e k = rw e (released-Closed k (in_month start call) call.cost)
  release_one call cs ds true false o e k = let t = o refl in cc
  release_one call cs ds false r o e k = other-Closed k _ _ _

  pub release-Closes :
      (cs : List ModelCall) → IsOpen id cs → Closes cost start cs (release_reservation id cs)
  unfolding release_reservation
  release-Closes [] o = nothing-Closed cost
  release-Closes (call ∷ cs) o =
      release_one call cs (release_reservation id cs) (has_id id call)
        (is_reserved call.result_status) o.0 refl (release-Closes cs o.1)
