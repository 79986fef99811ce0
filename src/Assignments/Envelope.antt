-- ===== src/Assignments/Envelope.antt =====
-- packages/core/src/assignments/verdict.ts: what an accepted envelope holds.
use jehad_os.Prelude.{
  ℕ, zero, suc, ap, false, String, ◌≤◌, ◌≡◌, refl, subst, Bool, true, ◌||◌, List, [], ◌∷◌, All,
  length, ltb, ◌==◌, arith, ok, ◌>>=◌, throw_if, >>=-eq-ok, ltb-false→le,
}
use jehad_os.Prelude.Unknown.{finite, Unknown, number, array, object, elements_from}
use jehad_os.Assignments.{
  VerifierVerdict, VerifierResult, assignment_error, max_verdicts, has, positive_integer,
  verdict_value, bounded_text, citation_ids, verdict_from, parse_verdict, parse_verdicts,
  parse_verdict_array, parse_verifier_result, summary_max_chars, parse_confidence, parse_questions,
}

-- Every ordinal is new: it is not among the ordinals before it.
abbrev pub AreNew : List ℕ → List VerifierVerdict → Type 0
AreNew seen [] = Unit
AreNew seen (v ∷ vs) = (has seen v.ordinal ≡ false) × AreNew (v.ordinal ∷ seen) vs

throw_if-eq-ok : (b : Bool) {u : Unit {0}} → throw_if b assignment_error ≡ ok u → b ≡ false
throw_if-eq-ok false h = refl
throw_if-eq-ok true h = cc

positive_integer-positive : (u : Unknown) (n : ℕ) → positive_integer u ≡ ok n → 1 ≤ n
unfolding positive_integer
positive_integer-positive (number (finite false whole zero)) n h =
    let a = >>=-eq-ok (throw_if (ltb whole 1) assignment_error) (λ _. ok whole) h in
    let e : whole ≡ n = cc in
    subst (λ m. 1 ≤ m) e (ltb-false→le whole 1 (throw_if-eq-ok (ltb whole 1) a.1))
positive_integer-positive _ n h = cc

verdict_from-ordinal :
    (n : ℕ) (field : String → Unknown) (v : VerifierVerdict)
    → verdict_from n field ≡ ok v
    → n ≡ v.ordinal
unfolding verdict_from
verdict_from-ordinal n field v h =
    let a =
      >>=-eq-ok (verdict_value (field "verdict"))
        (λ x. bounded_text summary_max_chars (field "reasoning") >>= λ r.
          citation_ids (field "citation_ids") >>= λ ids.
          ok (record { ordinal = n; verdict = x; reasoning = r; citation_ids = ids }))
        h in
    let b =
      >>=-eq-ok (bounded_text summary_max_chars (field "reasoning"))
        (λ r. citation_ids (field "citation_ids") >>= λ ids.
          ok (record { ordinal = n; verdict = a.0; reasoning = r; citation_ids = ids }))
        a.2 in
    let c =
      >>=-eq-ok (citation_ids (field "citation_ids"))
        (λ ids. ok (record { ordinal = n; verdict = a.0; reasoning = b.0; citation_ids = ids }))
        b.2 in
    let e : record { ordinal = n; verdict = a.0; reasoning = b.0; citation_ids = c.0 } ≡ v = cc in
    ap (λ x. x.ordinal) e

parse_verdict-ordinal :
    (seen : List ℕ) (u : Unknown) (v : VerifierVerdict)
    → parse_verdict seen u ≡ ok v
    → (has seen v.ordinal ≡ false) × (1 ≤ v.ordinal)
unfolding parse_verdict
parse_verdict-ordinal seen (object field) v h =
    let a =
      >>=-eq-ok (positive_integer (field "ordinal"))
        (λ n. throw_if (has seen n) assignment_error >>= λ _. verdict_from n field) h in
    let b =
      >>=-eq-ok (throw_if (has seen a.0) assignment_error) (λ _. verdict_from a.0 field) a.2 in
    let e = verdict_from-ordinal a.0 field v b.2 in
    (
      subst (λ n. has seen n ≡ false) e (throw_if-eq-ok (has seen a.0) b.1),
      subst (λ n. 1 ≤ n) e (positive_integer-positive (field "ordinal") a.0 a.1),
    )
parse_verdict-ordinal seen _ v h = cc

-- Ordinals that are new each and at least 1, as many as there were elements.
abbrev AreVerdicts : List ℕ → List Unknown → List VerifierVerdict → Type 0
AreVerdicts seen us vs = AreNew seen vs × All (λ v. 1 ≤ v.ordinal) vs × (length vs ≡ length us)

parse_verdicts-AreVerdicts :
    (seen : List ℕ) (us : List Unknown) (vs : List VerifierVerdict)
    → parse_verdicts seen us ≡ ok vs
    → AreVerdicts seen us vs
unfolding parse_verdicts
parse_verdicts-AreVerdicts seen [] vs h =
    let e : [] ≡ vs = cc in subst (AreVerdicts seen []) e (tt, tt, refl)
parse_verdicts-AreVerdicts seen (u ∷ us) vs h =
    let a =
      >>=-eq-ok (parse_verdict seen u)
        (λ v. parse_verdicts (v.ordinal ∷ seen) us >>= λ rest. ok (v ∷ rest)) h in
    let b = >>=-eq-ok (parse_verdicts (a.0.ordinal ∷ seen) us) (λ rest. ok (a.0 ∷ rest)) a.2 in
    let first = parse_verdict-ordinal seen u a.0 a.1 in
    let more = parse_verdicts-AreVerdicts (a.0.ordinal ∷ seen) us b.0 b.1 in
    let e : a.0 ∷ b.0 ≡ vs = cc in
    subst (AreVerdicts seen (u ∷ us)) e ((first.0, more.0), (first.1, more.1), ap suc more.2)

length-elements_from :
    (count start : ℕ) (at : ℕ → Unknown) → length (elements_from count start at) ≡ count
length-elements_from zero start at = refl
length-elements_from (suc count) start at = ap suc (length-elements_from count (suc start) at)

-- The verdicts of an accepted envelope: 1 to 10 of them, with ordinals of at least 1 that are
-- all different.
abbrev pub AreAccepted : List VerifierVerdict → Type 0
AreAccepted vs =
    AreNew [] vs × All (λ v. 1 ≤ v.ordinal) vs × (1 ≤ length vs) × (length vs ≤ max_verdicts)

parse_verdict_array-AreAccepted :
    (u : Unknown) (vs : List VerifierVerdict) → parse_verdict_array u ≡ ok vs → AreAccepted vs
unfolding parse_verdict_array
parse_verdict_array-AreAccepted (array count at) vs h =
    let a =
      >>=-eq-ok (throw_if ((count == 0) || ltb max_verdicts count) assignment_error)
        (λ _. parse_verdicts [] (elements_from count 0 at)) h in
    let kept = throw_if-eq-ok ((count == 0) || ltb max_verdicts count) a.1 in
    let k = parse_verdicts-AreVerdicts [] (elements_from count 0 at) vs a.2 in
    let size = length-elements_from count 0 at in
    (k.0, k.1, ground (arith, kept, k.2, size), ground (arith, kept, k.2, size))
parse_verdict_array-AreAccepted _ vs h = cc

-- An envelope that is accepted has 1 to 10 verdicts, and their ordinals are at least 1 and all
-- different.
pub parse-AreAccepted :
    (u : Unknown) (r : VerifierResult) → parse_verifier_result u ≡ ok r → AreAccepted r.verdicts
unfolding parse_verifier_result
parse-AreAccepted (object field) r h =
    let a =
      >>=-eq-ok (bounded_text summary_max_chars (field "summary"))
        (λ s. parse_verdict_array (field "verdicts") >>= λ vs.
          parse_confidence (field "confidence") >>= λ c.
          parse_questions (field "open_questions") >>= λ qs.
          ok (record { summary = s; verdicts = vs; confidence = c; open_questions = qs }))
        h in
    let b =
      >>=-eq-ok (parse_verdict_array (field "verdicts"))
        (λ vs. parse_confidence (field "confidence") >>= λ c.
          parse_questions (field "open_questions") >>= λ qs.
          ok (record { summary = a.0; verdicts = vs; confidence = c; open_questions = qs }))
        a.2 in
    let c =
      >>=-eq-ok (parse_confidence (field "confidence"))
        (λ c. parse_questions (field "open_questions") >>= λ qs.
          ok (record { summary = a.0; verdicts = b.0; confidence = c; open_questions = qs }))
        b.2 in
    let d =
      >>=-eq-ok (parse_questions (field "open_questions"))
        (λ qs. ok (record { summary = a.0; verdicts = b.0; confidence = c.0; open_questions = qs }))
        c.2 in
    let e : record { summary = a.0; verdicts = b.0; confidence = c.0; open_questions = d.0 } ≡ r =
      cc in
    subst AreAccepted (ap (λ x. x.verdicts) e)
      (parse_verdict_array-AreAccepted (field "verdicts") b.0 b.1)
parse-AreAccepted _ r h = cc
