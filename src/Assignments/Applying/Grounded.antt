-- ===== src/Assignments/Applying/Grounded.antt =====
-- packages/core/src/assignments/verdict.ts: what an applied verdict was checked for.
use Prim.Native.String.{String}
use jehad_os.Prelude.{
  ℕ, ◌≡◌, ◌≢◌, ◌⊎◌, refl, subst, ◌↔◌, eq_iff, length, Bool, true, false, not, Option, none, some,
  List, [], ◌∷◌, All, all, str_eq, ok, err, ◌>>=◌, throw_if, >>=-eq-ok, if◌then◌else◌,
}
use jehad_os.Assignments.{
  VerifierVerdictValue, confirmed, refuted, uncertain, VerifierVerdict, VerifierResult,
  assignment_error,
}
use jehad_os.Prelude.Unknown.{Unknown, array, object}
use jehad_os.Assignments.Applying.{
  Assignment, AssignmentDb, Overall, pass, fail, partial, find_assignment, is_bound, citation_count,
  criteria_ordinals, covers, is_grounded, overall_of, verified_id, builder_citations, check_verdict,
  apply_verifier_verdict, any_refuted, all_confirmed,
}
use jehad_os.Assignments.Applying.Guards.{
  IsJudged, IsGrounded, is_bound_lem, citation_count_lem, covers_lem, all-IsGrounded,
}

-- A succeeded verifier on the outcome, bound to another, succeeded research assignment on it;
-- the verdicts cover the criteria, and every confirmation cites what the builder has.
pub record IsChecked (assignment_id outcome_id : String) (r : VerifierResult) (db : AssignmentDb)
    : Type 0 where
  pub verifier : Assignment
  pub builder : Assignment
  pub builder_id : String
  pub count : ℕ
  pub field : String → Unknown
  pub citation : ℕ → Unknown
  pub verifier_found : find_assignment assignment_id db.assignments ≡ some verifier
  pub verifier_role : verifier.role ≡ "verifier"
  pub verifier_succeeded : verifier.status ≡ "succeeded"
  pub verifier_outcome : verifier.outcome_id ≡ some outcome_id
  pub verifies : verifier.verifies_assignment_id ≡ some builder_id
  pub other : builder_id ≢ assignment_id
  pub builder_found : find_assignment builder_id db.assignments ≡ some builder
  pub builder_role : builder.role ≡ "research"
  pub builder_succeeded : builder.status ≡ "succeeded"
  pub builder_outcome : builder.outcome_id ≡ some outcome_id
  pub result : builder.result ≡ object field
  pub citations : field "citations" ≡ array count citation
  pub as_many : length r.verdicts ≡ length (criteria_ordinals outcome_id db.outcomes.criteria)
  pub covered :
      All (λ c. (c.outcome_id ≢ outcome_id) ⊎ IsJudged c.ordinal r.verdicts) db.outcomes.criteria
  pub grounded : All (λ v. IsGrounded count v.verdict v.citation_ids) r.verdicts

not_thrown : (b : Bool) {u : Unit {0}} → throw_if (not b) assignment_error ≡ ok u → b ≡ true
not_thrown true h = refl
not_thrown false h = cc

passed : (b : Bool) {u : Unit {0}} → throw_if b assignment_error ≡ ok u → b ≡ false
passed false h = refl
passed true h = cc

module _ (assignment_id outcome_id : String) where
  verifies_other :
      (target : Option String) (id : String)
      → (elim target [
        | none ↦ err assignment_error
        | some t ↦ throw_if (str_eq t assignment_id) assignment_error >>= λ _. ok t
      ])
        ≡ ok id
      → (target ≡ some id) × (str_eq id assignment_id ≡ false)
  verifies_other none id h = cc
  verifies_other (some t) id h =
      let a = >>=-eq-ok (throw_if (str_eq t assignment_id) assignment_error) (λ _. ok t) h in
      let e : t ≡ id = cc in
      (cc, subst (λ x. str_eq x assignment_id ≡ false) e (passed (str_eq t assignment_id) a.1))

  verified_id-checked :
      (found : Option Assignment) (id : String)
      → verified_id assignment_id outcome_id found ≡ ok id
      → (a : Assignment) × (found ≡ some a)
        × (is_bound "verifier" outcome_id a ≡ true)
        × (a.verifies_assignment_id ≡ some id)
        × (str_eq id assignment_id ≡ false)
  unfolding verified_id
  verified_id-checked none id h = cc
  verified_id-checked (some a) id h =
      let s =
        >>=-eq-ok (throw_if (not (is_bound "verifier" outcome_id a)) assignment_error)
          (λ _. elim a.verifies_assignment_id [
            | none ↦ err assignment_error
            | some t ↦ throw_if (str_eq t assignment_id) assignment_error >>= λ _. ok t
          ])
          h in
      let t = verifies_other a.verifies_assignment_id id s.2 in
      (a, refl, not_thrown (is_bound "verifier" outcome_id a) s.1, t.0, t.1)

  counted :
      (count : Option ℕ) (n : ℕ)
      → (elim count [ none ↦ err assignment_error | some m ↦ ok m ]) ≡ ok n
      → count ≡ some n
  counted none n h = cc
  counted (some m) n h = cc

  builder_citations-checked :
      (found : Option Assignment) (n : ℕ)
      → builder_citations outcome_id found ≡ ok n
      → (a : Assignment) × (found ≡ some a)
        × (is_bound "research" outcome_id a ≡ true)
        × (citation_count a.result ≡ some n)
  unfolding builder_citations
  builder_citations-checked none n h = cc
  builder_citations-checked (some a) n h =
      let s =
        >>=-eq-ok (throw_if (not (is_bound "research" outcome_id a)) assignment_error)
          (λ _. elim (citation_count a.result) [ none ↦ err assignment_error | some m ↦ ok m ]) h in
      (
        a,
        refl,
        not_thrown (is_bound "research" outcome_id a) s.1,
        counted (citation_count a.result) n s.2,
      )

module _ (idempotency_key_for : (source external_id : String) → String) (mint : ℕ → String)
    (assignment_id outcome_id now actor : String) where
  check_verdict-IsChecked :
      (r : VerifierResult) (db : AssignmentDb) {u : Unit {0}}
      → check_verdict idempotency_key_for mint assignment_id outcome_id now actor r db ≡ ok u
      → IsChecked assignment_id outcome_id r db
  unfolding check_verdict
  check_verdict-IsChecked r db h =
      let cover = covers r.verdicts (criteria_ordinals outcome_id db.outcomes.criteria) in
      let a =
        >>=-eq-ok
          (verified_id assignment_id outcome_id (find_assignment assignment_id db.assignments))
          (λ id. builder_citations outcome_id (find_assignment id db.assignments) >>= λ count.
            throw_if (not cover) assignment_error >>= λ _.
            throw_if (not (all (is_grounded count) r.verdicts)) assignment_error)
          h in
      let b =
        >>=-eq-ok (builder_citations outcome_id (find_assignment a.0 db.assignments))
          (λ count. throw_if (not cover) assignment_error >>= λ _.
            throw_if (not (all (is_grounded count) r.verdicts)) assignment_error)
          a.2 in
      let c =
        >>=-eq-ok (throw_if (not cover) assignment_error)
          (λ _. throw_if (not (all (is_grounded b.0) r.verdicts)) assignment_error) b.2 in
      let v =
        verified_id-checked assignment_id outcome_id (find_assignment assignment_id db.assignments)
          a.0 a.1 in
      let w =
        builder_citations-checked assignment_id outcome_id (find_assignment a.0 db.assignments) b.0
          b.1 in
      let verifier = is_bound_lem "verifier" outcome_id v.0 v.2 in
      let builder = is_bound_lem "research" outcome_id w.0 w.2 in
      let cited = citation_count_lem w.0.result b.0 w.3 in
      let covered = covers_lem r.verdicts outcome_id db.outcomes.criteria (not_thrown cover c.1) in
      record {
        verifier = v.0;
        builder = w.0;
        builder_id = a.0;
        count = b.0;
        field = cited.0;
        citation = cited.1;
        verifier_found = v.1;
        verifier_role = verifier.0;
        verifier_succeeded = verifier.1;
        verifier_outcome = verifier.2;
        verifies = v.3;
        other = λ e. (let t = (eq_iff a.0 assignment_id).1 e in cc);
        builder_found = w.1;
        builder_role = builder.0;
        builder_succeeded = builder.1;
        builder_outcome = builder.2;
        result = cited.2;
        citations = cited.3;
        as_many = covered.0;
        covered = covered.1;
        grounded =
            all-IsGrounded b.0 r.verdicts (not_thrown (all (is_grounded b.0) r.verdicts) c.2);
      }

  -- A verdict that is applied was checked before: the assignment has the role "verifier", the
  -- status "succeeded" and the outcome; it verifies another assignment, which has the role
  -- "research", the status "succeeded" and the outcome, and a result with an array of citations;
  -- there are as many verdicts as the outcome has criteria, with one on the ordinal of each; and
  -- every confirmation cites at least once, and no number above the count of the citations.
  pub apply-IsChecked :
      (r : VerifierResult) (db after : AssignmentDb) (applied : ℕ) (overall : Overall)
      → apply_verifier_verdict idempotency_key_for mint assignment_id outcome_id now actor r db
        ≡ ok ((applied, overall), after)
      → IsChecked assignment_id outcome_id r db
  unfolding apply_verifier_verdict
  apply-IsChecked r db after applied overall h =
      let checked =
        check_verdict idempotency_key_for mint assignment_id outcome_id now actor r db in
      check_verdict-IsChecked r db (>>=-eq-ok checked _ h).1

confirmed_first :
    (x : VerifierVerdictValue) (rest : Bool)
    → (elim x [ confirmed ↦ rest | refuted ↦ false | uncertain ↦ false ]) ≡ true
    → (x ≡ confirmed) × (rest ≡ true)
confirmed_first confirmed rest h = (refl, h)
confirmed_first refuted rest h = cc
confirmed_first uncertain rest h = cc

all_confirmed-All :
    (vs : List VerifierVerdict) → all_confirmed vs ≡ true → All (λ v. v.verdict ≡ confirmed) vs
unfolding all_confirmed
all_confirmed-All [] h = tt
all_confirmed-All (v ∷ vs) h =
    let k = confirmed_first v.verdict (all_confirmed vs) h in (k.0, all_confirmed-All vs k.1)

All-all_confirmed :
    (vs : List VerifierVerdict)
    → All (λ v. v.verdict ≡ confirmed) vs
    → (all_confirmed vs ≡ true) × (any_refuted vs ≡ false)
unfolding all_confirmed any_refuted
All-all_confirmed [] h = (refl, refl)
All-all_confirmed (v ∷ vs) h = let k = All-all_confirmed vs h.1 in (rw h.0 k.0, rw h.0 k.1)

pass_cases : (r c : Bool) → (if r then fail else if c then pass else partial) ≡ pass → c ≡ true
pass_cases true c h = cc
pass_cases false true h = refl
pass_cases false false h = cc

-- A verdict passes over all exactly when every criterion is confirmed.
pub overall_of-pass_iff :
    (vs : List VerifierVerdict) → (overall_of vs ≡ pass) ↔ All (λ v. v.verdict ≡ confirmed) vs
unfolding overall_of
overall_of-pass_iff vs = (
  λ h. all_confirmed-All vs (pass_cases (any_refuted vs) (all_confirmed vs) h),
  λ h. let k = All-all_confirmed vs h in rw (k.0, k.1) refl,
)
