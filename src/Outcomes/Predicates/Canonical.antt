-- ===== src/Outcomes/Predicates/Canonical.antt =====
-- packages/core/src/outcomes/predicates.ts: the predicates that the validation returns.
use Prim.Native.String.{String}
use jehad_os.Prelude.{
  ◌≡◌, refl, ap, Bool, true, false, Option, none, some, and_then, map_some, if_some-cases,
  if_none-eq-some, subst, and_then-eq-some, map_some-eq-some,
}
use jehad_os.Prelude.Unknown.{
  Number, Unknown, undefined, number, string, object, is_positive, is_not_negative,
}
use jehad_os.Outcomes.Predicates.{
  WaitSource, gmail, calendar, OutcomeWaitPredicate, arrival, state_change, absence_past, threshold,
  at_start, is_domain, to_lower, is_ref, is_outcome_status, optional, is_text, is_one, wait_source,
  wait_subject, number_where, scoped, narrowed, parse_arrival, parse_state_change,
  parse_absence_past, parse_threshold, parse_typed, parse_outcome_wait_predicate,
}
use jehad_os.Outcomes.Predicates.Domains.{to_lower-domain_from}

abbrev pub Passes : (String → Bool) → Option String → Type 0
Passes test none = Unit
Passes test (some s) = test s ≡ true

-- The predicates that the vocabulary admits.
abbrev pub IsCanonical : OutcomeWaitPredicate → Type 0
IsCanonical (arrival gmail none) = ⊥
IsCanonical (arrival s d) = Passes is_domain d
IsCanonical (state_change none none) = ⊥
IsCanonical (state_change o s) = Passes is_ref o × Passes is_outcome_status s
IsCanonical (absence_past s n) = is_positive n ≡ true
IsCanonical (threshold n) = is_not_negative n ≡ true

optional-Passes :
    (test : String → Bool) (u : Unknown) (o : Option String)
    → optional test u ≡ some o
    → Passes test o
unfolding optional
optional-Passes test (string s) o h =
    let t = if_none-eq-some (test s) h in let e : some s ≡ o = cc in subst (Passes test) e t.0
optional-Passes test undefined o h = let e : none ≡ o = cc in subst (Passes test) e tt
optional-Passes test _ o h = cc

pub map-to_lower : (o : Option String) → Passes is_domain o → map_some to_lower o ≡ o
unfolding is_domain
map-to_lower none h = refl
map-to_lower (some s) h = ap some (to_lower-domain_from false at_start s h)

scoped-IsCanonical :
    (s : WaitSource) (d : Option String) {p : OutcomeWaitPredicate}
    → Passes is_domain d
    → scoped s d ≡ some p
    → IsCanonical p
unfolding scoped
scoped-IsCanonical gmail none k h = cc
scoped-IsCanonical gmail (some d) {p} k h =
    let e : arrival gmail (some d) ≡ p = cc in subst IsCanonical e k
scoped-IsCanonical calendar d {p} k h = let e : arrival calendar d ≡ p = cc in subst IsCanonical e k

narrowed-IsCanonical :
    (o s : Option String) {p : OutcomeWaitPredicate}
    → Passes is_ref o
    → Passes is_outcome_status s
    → narrowed o s ≡ some p
    → IsCanonical p
unfolding narrowed
narrowed-IsCanonical none none ko ks h = cc
narrowed-IsCanonical none (some s) {p} ko ks h =
    let e : state_change none (some s) ≡ p = cc in subst IsCanonical e (ko, ks)
narrowed-IsCanonical (some o) s {p} ko ks h =
    let e : state_change (some o) s ≡ p = cc in subst IsCanonical e (ko, ks)

number_where-passes :
    (test : Number → Bool) (u : Unknown) (n : Number) → number_where test u ≡ some n → test n ≡ true
unfolding number_where
number_where-passes test (number m) n h =
    let t = if_none-eq-some (test m) h in let e : m ≡ n = cc in subst (λ x. test x ≡ true) e t.0
number_where-passes test _ n h = cc

module _ (r : String → Unknown) {p : OutcomeWaitPredicate} where
  parse_arrival-IsCanonical : parse_arrival r ≡ some p → IsCanonical p
  unfolding parse_arrival
  parse_arrival-IsCanonical h =
      let a =
        and_then-eq-some (wait_source (r "source"))
          (λ s. and_then (optional is_domain (r "fromDomain")) λ d. scoped s (map_some to_lower d))
          h in
      let b =
        and_then-eq-some (optional is_domain (r "fromDomain"))
          (λ d. scoped a.0 (map_some to_lower d)) a.2 in
      let k = optional-Passes is_domain (r "fromDomain") b.0 b.1 in
      scoped-IsCanonical a.0 b.0 k (subst (λ x. scoped a.0 x ≡ some p) (map-to_lower b.0 k) b.2)

  parse_state_change-IsCanonical : parse_state_change r ≡ some p → IsCanonical p
  unfolding parse_state_change
  parse_state_change-IsCanonical h =
      let entity = if_none-eq-some (is_text "outcome" (r "entity")) h in
      let a =
        and_then-eq-some (optional is_ref (r "outcomeRef"))
          (λ o. and_then (optional is_outcome_status (r "toStatus")) λ s. narrowed o s) entity.1 in
      let b =
        and_then-eq-some (optional is_outcome_status (r "toStatus")) (λ s. narrowed a.0 s) a.2 in
      narrowed-IsCanonical a.0 b.0 (optional-Passes is_ref (r "outcomeRef") a.0 a.1)
        (optional-Passes is_outcome_status (r "toStatus") b.0 b.1) b.2

  parse_absence_past-IsCanonical : parse_absence_past r ≡ some p → IsCanonical p
  unfolding parse_absence_past
  parse_absence_past-IsCanonical h =
      let a =
        and_then-eq-some (wait_subject (r "subject"))
          (λ s. map_some (absence_past s) (number_where is_positive (r "olderThanHours"))) h in
      let b =
        map_some-eq-some (absence_past a.0) (number_where is_positive (r "olderThanHours")) a.2 in
      subst IsCanonical b.2 (number_where-passes is_positive (r "olderThanHours") b.0 b.1)

  parse_threshold-IsCanonical : parse_threshold r ≡ some p → IsCanonical p
  unfolding parse_threshold
  parse_threshold-IsCanonical h =
      let metric = if_none-eq-some (is_text "outcome_spend_usd" (r "metric")) h in
      let b = map_some-eq-some threshold (number_where is_not_negative (r "gt")) metric.1 in
      subst IsCanonical b.2 (number_where-passes is_not_negative (r "gt") b.0 b.1)

  parse_typed-IsCanonical : (kind : Unknown) → parse_typed kind r ≡ some p → IsCanonical p
  unfolding parse_typed
  parse_typed-IsCanonical kind h =
      if_some-cases (is_text "arrival" kind) h parse_arrival-IsCanonical λ h1.
        if_some-cases (is_text "state_change" kind) h1 parse_state_change-IsCanonical λ h2.
          if_some-cases (is_text "absence_past" kind) h2 parse_absence_past-IsCanonical
            λ h3. parse_threshold-IsCanonical (if_none-eq-some (is_text "threshold" kind) h3).1

pub parse-IsCanonical :
    (u : Unknown) {p : OutcomeWaitPredicate}
    → parse_outcome_wait_predicate u ≡ some p
    → IsCanonical p
unfolding parse_outcome_wait_predicate
parse-IsCanonical (object r) h =
    parse_typed-IsCanonical r (r "type") (if_none-eq-some (is_one (r "v")) h).1
parse-IsCanonical _ h = cc
