-- ===== src/Model/Race.antt =====
-- packages/core/src/model/call-model.ts: calls that run at the same time, over one month of the
-- ledger. A call's part in it is its admission and, later, its one finalize or release.
use Prim.Native.String.{String}
use jehad_os.Prelude.{
  ℕ, zero, suc, ◌+◌, ◌-◌, ◌≤◌, ◌<◌, ◌≡◌, refl, sym, ap, ◌∙◌, subst, Bool, true, false, ◌⊎◌, inl,
  inr, List, [], ◌∷◌, ◌++◌, All, any, leb, le→leb, leb-false→lt, ok, >>=-eq-ok, throw_if, arith,
}
use jehad_os.Model.{
  ModelBudget, ModelCall, CallDb, ReservationInput, Reservation, BudgetAdmission, denied, admitted,
  Actuals, id_taken, is_reserved, in_month, monthly_spend, has_id, reservation_row,
  finalize_reservation, release_reservation, reserve_budget, admit_spend,
}
use jehad_os.Model.Ledger.{
  committed, held, pending, spend-split, held-none, committed-append, held-append, pending-append,
  IsOpen, Closed, finalize-Closes, release-Closes,
}

module _ (month_start : ℕ → ℕ) (mint : ℕ → String) (budget : ModelBudget) (start cost : ℕ) where
  -- In the month from `start`, where no call costs more than `cost`.
  pub data Step (db : CallDb) : CallDb → Type 0 where
    admits :
        (input : ReservationInput) (now : ℕ) (r : Reservation) {after : CallDb}
        → month_start now ≡ start
        → start ≤ now
        → reserve_budget month_start mint input budget now db ≡ ok (admitted r, after)
        → Step db after
    finishes :
        (id : String) (actuals : Actuals)
        → IsOpen id db.calls
        → is_reserved actuals.result_status ≡ false
        → actuals.cost ≤ cost
        → Step db (record db { calls = finalize_reservation id actuals db.calls })
    gives_up :
        (id : String)
        → IsOpen id db.calls
        → Step db (record db { calls = release_reservation id db.calls })

  pub data Reach : CallDb → Type 0 where
    month_begins : (db : CallDb) → All (λ c. in_month start c ≡ false) db.calls → Reach db
    later : {db after : CallDb} → Reach db → Step db after → Reach after

  -- Nobody is in flight and the spend is bounded, or one call is and holds all that is left.
  abbrev Inv : CallDb → Type 0
  Inv db =
      ((pending start db.calls ≡ 0) × (committed start db.calls ≤ budget.hard + cost))
      ⊎ ((pending start db.calls ≡ 1)
          × (committed start db.calls + held start db.calls ≡ budget.hard))

  empty-Inv :
      (cs : List ModelCall)
      → All (λ c. in_month start c ≡ false) cs
      → (pending start cs ≡ 0) × (committed start cs ≡ 0)
  empty-Inv [] h = (refl, refl)
  empty-Inv (c ∷ cs) h = let k = empty-Inv cs h.1 in rw h.0 (omega (arith, k.0), omega (arith, k.1))

  Closed-Inv :
      {c h p c2 h2 p2 : ℕ}
      → Closed cost c h p c2 h2 p2
      → ((p ≡ 0) × (c ≤ budget.hard + cost)) ⊎ ((p ≡ 1) × (c + h ≡ budget.hard))
      → ((p2 ≡ 0) × (c2 ≤ budget.hard + cost)) ⊎ ((p2 ≡ 1) × (c2 + h2 ≡ budget.hard))
  Closed-Inv k (inl i) =
      let e = k.fewer in
      let z : k.count ≡ 0 = omega (arith, i.0) in
      let s = k.same z in inl (omega (arith, i.0), omega (arith, i.1, s.0))
  Closed-Inv {c} {h} {p} {c2} {h2} {p2} k (inr b) = by_count k.count refl
    where
      by_count :
          (n : ℕ)
          → k.count ≡ n
          → ((p2 ≡ 0) × (c2 ≤ budget.hard + cost)) ⊎ ((p2 ≡ 1) × (c2 + h2 ≡ budget.hard))
      by_count zero e =
          let s = k.same e in inr (omega (arith, k.fewer, b.0, e), omega (arith, b.1, s.0, s.1))
      by_count (suc n) e =
          let l : k.count ≤ 1 = omega (arith, k.fewer, b.0) in
          inl (omega (arith, k.fewer, b.0, e), omega (arith, k.costs l, b.1))

  row-sums :
      (id : String) (input : ReservationInput) (amount now : ℕ)
      → start ≤ now
      → let cs = reservation_row id input amount now ∷ [] in
        (committed start cs ≡ 0) × ((held start cs ≡ amount) × (pending start cs ≡ 1))
  row-sums id input amount now n = rw (le→leb start now n) (omega arith, (omega arith, omega arith))

  appended-Inv :
      (id : String) (input : ReservationInput) (now : ℕ) (cs : List ModelCall)
      → start ≤ now
      → committed start cs + held start cs < budget.hard
      → ((pending start cs ≡ 0) × (committed start cs ≤ budget.hard + cost))
        ⊎ ((pending start cs ≡ 1) × (committed start cs + held start cs ≡ budget.hard))
      → let ds =
          cs
          ++ reservation_row id input (budget.hard - (committed start cs + held start cs)) now
            ∷ [] in
        (pending start ds ≡ 1) × (committed start ds + held start ds ≡ budget.hard)
  appended-Inv id input now cs n l (inr b) = absurd (omega (arith, b.1))
  appended-Inv id input now cs n l (inl i) =
      let amount = budget.hard - (committed start cs + held start cs) in
      let row = reservation_row id input amount now ∷ [] in
      let s = row-sums id input amount now n in
      let z = held-none start cs i.0 in
      (
        omega (arith, pending-append start cs row, i.0, s.1.1),
        omega (arith, committed-append start cs row, held-append start cs row, s.0, s.1.0, z),
      )

  by_room :
      (b : Bool) (input : ReservationInput) (now : ℕ) (r : Reservation) (db after : CallDb)
      (spent : ℕ)
      → leb budget.hard spent ≡ b
      → spent ≡ committed start db.calls + held start db.calls
      → start ≤ now
      → admit_spend month_start mint b spent input budget now db ≡ ok (admitted r, after)
      → Inv db
      → Inv after
  unfolding admit_spend
  by_room true input now r db after spent t e n h i = cc
  by_room false input now r db after spent t e n h i =
      let id = mint db.minted in
      let next : CallDb = record db {
        calls = db.calls ++ reservation_row id input (budget.hard - spent) now ∷ [];
        minted = suc db.minted;
      } in
      let a : BudgetAdmission = admitted (record { id = id; month_spend_before = spent }) in
      let s = >>=-eq-ok (throw_if (any (has_id id) db.calls) id_taken) (λ _. ok (a, next)) h in
      let q : next ≡ after = cc in
      let l : committed start db.calls + held start db.calls < budget.hard =
        subst (λ x. x < budget.hard) e (leb-false→lt budget.hard spent t) in
      subst (λ d. Inv d) q
        (inr (
          subst
            (λ x.
              let ds = db.calls ++ reservation_row id input (budget.hard - x) now ∷ [] in
              (pending start ds ≡ 1) × (committed start ds + held start ds ≡ budget.hard))
            (sym e) (appended-Inv id input now db.calls n l i)))

  admitted-Inv :
      (input : ReservationInput) (now : ℕ) (r : Reservation) (db after : CallDb)
      → month_start now ≡ start
      → start ≤ now
      → reserve_budget month_start mint input budget now db ≡ ok (admitted r, after)
      → Inv db
      → Inv after
  unfolding reserve_budget
  admitted-Inv input now r db after m n h i =
      let spent = monthly_spend (month_start now) db.calls in
      by_room (leb budget.hard spent) input now r db after spent refl
        (ap (λ s. monthly_spend s db.calls) m ∙ spend-split start db.calls) n h i

  Step-Inv : (db after : CallDb) → Step db after → Inv db → Inv after
  Step-Inv db after (admits input now r m n h) i = admitted-Inv input now r db after m n h i
  Step-Inv db _ (finishes id actuals o f l) i =
      Closed-Inv (finalize-Closes cost start id actuals db.calls o f l) i
  Step-Inv db _ (gives_up id o) i = Closed-Inv (release-Closes cost start id db.calls o) i

  Reach-Inv : (db : CallDb) → Reach db → Inv db
  Reach-Inv db (month_begins _ e) = let k = empty-Inv db.calls e in inl (k.0, omega (arith, k.1))
  Reach-Inv after (later {db} r s) = Step-Inv db after s (Reach-Inv db r)

  -- In a month that began without calls of its own, and where no call costs more than a bound, at
  -- every moment at most one call is in flight, and the month's spend is at most the hard cap and
  -- that bound.
  pub Reach-bounds :
      (db : CallDb)
      → Reach db
      → (pending start db.calls ≤ 1) × (monthly_spend start db.calls ≤ budget.hard + cost)
  Reach-bounds db r = bounds (Reach-Inv db r)
    where
      total : monthly_spend start db.calls ≡ committed start db.calls + held start db.calls
      total = spend-split start db.calls

      none_held : pending start db.calls ≡ 0 → held start db.calls ≡ 0
      none_held e = held-none start db.calls e

      bounds :
          ((pending start db.calls ≡ 0) × (committed start db.calls ≤ budget.hard + cost))
            ⊎ ((pending start db.calls ≡ 1)
                × (committed start db.calls + held start db.calls ≡ budget.hard))
          → (pending start db.calls ≤ 1) × (monthly_spend start db.calls ≤ budget.hard + cost)
      bounds (inl i) = (omega (arith, i.0), omega (arith, i.1, total, none_held i.0))
      bounds (inr b) = (omega (arith, b.0), omega (arith, b.1, total))

  -- While a call of the month is in flight, every other admission in the month is denied, at a spend
  -- of the whole cap, and leaves the ledger as it is.
  pub reserve-denied :
      (db : CallDb) (input : ReservationInput) (now : ℕ)
      → Reach db
      → pending start db.calls ≡ 1
      → month_start now ≡ start
      → reserve_budget month_start mint input budget now db ≡ ok (denied budget.hard, db)
  unfolding reserve_budget admit_spend
  reserve-denied db input now r p m =
      let full : monthly_spend (month_start now) db.calls ≡ budget.hard =
        ap (λ s. monthly_spend s db.calls) m
        ∙ (spend-split start db.calls ∙ busy (Reach-Inv db r)) in
      let room : leb budget.hard budget.hard ≡ true =
        le→leb budget.hard budget.hard (omega arith) in
      rw (full, room) refl
    where
      busy :
          ((pending start db.calls ≡ 0) × (committed start db.calls ≤ budget.hard + cost))
            ⊎ ((pending start db.calls ≡ 1)
                × (committed start db.calls + held start db.calls ≡ budget.hard))
          → committed start db.calls + held start db.calls ≡ budget.hard
      busy (inl i) = absurd (omega (arith, i.0, p))
      busy (inr b) = b.1
