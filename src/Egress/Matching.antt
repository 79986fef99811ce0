-- ===== src/Egress/Matching.antt =====
-- `match` of packages/core/src/egress/policy.ts against an independent description of the most
-- specific rule.
use jehad_os.Prelude.{
  subst, ℕ, ◌+◌, ◌≤◌, ◌<◌, true, false, Option, none, some, List, [], ◌∷◌, ◌++◌, String, ◌≡◌, refl,
  ap, ◌⊎◌, inl, inr, ◌↔◌, ◌≢◌, leb, All, arith, Bool-cases,
}
use jehad_os.Egress.{EgressPolicyRule, ModelEgressPolicyRegistry, applies, score, match_from, match}

-- If the rule applies, its score is less than `n`.
abbrev pub Below : String → String → ℕ → EgressPolicyRule → Type 0
Below domain sens n rule = applies rule domain sens ≡ true → score rule domain sens < n

-- `rule` is the first of the rules of the highest score among those that apply.
pub record IsMostSpecific (domain sens : String) (floor : ℕ) (rules : List EgressPolicyRule)
    (rule : EgressPolicyRule) : Type 0 where
  pub before : List EgressPolicyRule
  pub after : List EgressPolicyRule
  pub split : rules ≡ before ++ rule ∷ after
  pub fits : applies rule domain sens ≡ true
  pub at_least : floor ≤ score rule domain sens
  pub earlier_lower : All (Below domain sens (score rule domain sens)) before
  pub later_no_higher : All (Below domain sens (score rule domain sens + 1)) after

module _ (domain sens : String) where
  extend :
      (floor n : ℕ) (x : EgressPolicyRule) (rules : List EgressPolicyRule) (rule : EgressPolicyRule)
      → floor ≤ n
      → Below domain sens n x
      → IsMostSpecific domain sens n rules rule
      → IsMostSpecific domain sens floor (x ∷ rules) rule
  extend floor n x rules rule h below best = record {
    before = x ∷ best.before;
    after = best.after;
    split = ap (λ l. x ∷ l) best.split;
    fits = best.fits;
    at_least = omega (arith, best.at_least);
    earlier_lower = ((λ a. omega (arith, below a, best.at_least)), best.earlier_lower);
    later_no_higher = best.later_no_higher;
  }

  first :
      (floor : ℕ) (x : EgressPolicyRule) (rules : List EgressPolicyRule)
      → applies x domain sens ≡ true
      → floor ≤ score x domain sens
      → All (Below domain sens (score x domain sens + 1)) rules
      → IsMostSpecific domain sens floor (x ∷ rules) x
  first floor x rules fits ge rest = record {
    before = [];
    after = rules;
    split = refl;
    fits = fits;
    at_least = ge;
    earlier_lower = tt;
    later_no_higher = rest;
  }

  match_from_cases :
      (best : Option EgressPolicyRule) (floor : ℕ) (rules : List EgressPolicyRule)
      (rule : EgressPolicyRule)
      → match_from best floor rules domain sens ≡ some rule
      → ((best ≡ some rule) × All (Below domain sens floor) rules)
        ⊎ IsMostSpecific domain sens floor rules rule
  unfolding match_from
  match_from_cases best floor [] rule e = inl (e, tt)
  match_from_cases best floor (x ∷ rules) rule e = elim (Bool-cases (applies x domain sens)) [
    | inl fits ↦ elim (Bool-cases (leb floor (score x domain sens))) [
      | inl ge ↦
          elim (match_from_cases (some x) (score x domain sens + 1) rules rule (ground arith)) [
            | inl (same, rest) ↦
                let p : x ≡ rule = cc in
                inr (
                  subst (IsMostSpecific domain sens floor (x ∷ rules)) p
                    (first floor x rules fits (ground arith) rest))
            | inr found ↦ inr (
                extend floor (score x domain sens + 1) x rules rule (ground arith)
                  (λ a. omega arith) found)
          ]
      | inr lt ↦ elim (match_from_cases best floor rules rule (ground arith)) [
        | inl (same, rest) ↦ inl (same, ((λ a. ground arith), rest))
        | inr found ↦ inr (extend floor floor x rules rule (omega arith) (λ a. ground arith) found)
      ]
    ]
    | inr misses ↦ elim (match_from_cases best floor rules rule (ground arith)) [
      | inl (same, rest) ↦ inl (same, ((λ a. cc), rest))
      | inr found ↦ inr (extend floor floor x rules rule (omega arith) (λ a. cc) found)
    ]
  ]

  -- No rule matches exactly when none applies.
  match_from-some :
      (x : EgressPolicyRule) (floor : ℕ) (rules : List EgressPolicyRule)
      → match_from (some x) floor rules domain sens ≢ none
  unfolding match_from
  match_from-some x floor [] e = cc
  match_from-some x floor (y ∷ rules) e =
      ground
        (arith, match_from-some x floor rules, match_from-some y (score y domain sens + 1) rules)

  abbrev pub Misses : EgressPolicyRule → Type 0
  Misses rule = applies rule domain sens ≡ false

  match_from-none :
      (rules : List EgressPolicyRule)
      → match_from none 0 rules domain sens ≡ none
      → All Misses rules
  unfolding match_from
  match_from-none [] e = tt
  match_from-none (x ∷ rules) e =
      ground (arith, match_from-some x (score x domain sens + 1) rules, match_from-none rules)

  match_from-Misses :
      (rules : List EgressPolicyRule)
      → All Misses rules
      → match_from none 0 rules domain sens ≡ none
  unfolding match_from
  match_from-Misses [] h = refl
  match_from-Misses (x ∷ rules) h = ground (arith, match_from-Misses rules h.1)

-- The rule that `match` finds applies to the request, no rule that applies has a higher score,
-- and every rule that applies and stands before it has a lower one.
pub match-IsMostSpecific :
    (registry : ModelEgressPolicyRegistry) (domain sens : String) (rule : EgressPolicyRule)
    → match registry domain sens ≡ some rule
    → IsMostSpecific domain sens 0 registry.rules rule
unfolding match
match-IsMostSpecific registry domain sens rule e =
    elim (match_from_cases domain sens none 0 registry.rules rule e) [
      | inl (absent, _) ↦ cc
      | inr found ↦ found
    ]

-- `match` finds no rule exactly when no rule of the registry applies.
pub match-none_iff :
    (registry : ModelEgressPolicyRegistry) (domain sens : String)
    → (match registry domain sens ≡ none) ↔ All (Misses domain sens) registry.rules
unfolding match
match-none_iff registry domain sens =
    (match_from-none domain sens registry.rules, match_from-Misses domain sens registry.rules)
