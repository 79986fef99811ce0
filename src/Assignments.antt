-- ===== src/Assignments.antt =====
-- packages/core/src/assignments/verdict.ts: the verifier's result envelope and its validation.
-- An error's message is not kept.
pub mod Envelope
pub mod Applying
use Prim.Native.String.{String}
use jehad_os.Prelude.{
  ℕ, zero, suc, Bool, true, false, not, ◌&&◌, ◌||◌, Option, none, some, List, [], ◌∷◌, str_eq, ltb,
  leb, any, ◌==◌, if◌then◌else◌, Result, ok, err, ◌>>=◌, ◌>>◌, throw_if,
}
use jehad_os.Prelude.Unknown.{
  Number, finite, Unknown, undefined, null, number, string, array, object, elements_from, trim,
  units, is_empty,
}

abbrev pub summary_max_chars : ℕ
summary_max_chars = 500

abbrev pub max_open_questions : ℕ
max_open_questions = 5

abbrev pub open_question_max_chars : ℕ
open_question_max_chars = 200

abbrev pub max_verdicts : ℕ
max_verdicts = 10

pub data VerifierVerdictValue : Type 0 where
  confirmed refuted uncertain : VerifierVerdictValue

pub record VerifierVerdict : Type 0 where
  pub ordinal : ℕ
  pub verdict : VerifierVerdictValue
  pub reasoning : String
  pub citation_ids : List ℕ

pub record VerifierResult : Type 0 where
  pub summary : String
  pub verdicts : List VerifierVerdict
  pub confidence : Option Number
  pub open_questions : List String

-- What is thrown: `AssignmentError`, a `TypeError` or `Error` of the outcome service, or the
-- event store's `DomainNotFoundError`.
pub data VerdictError : Type 0 where
  assignment_error criterion_error domain_error : VerdictError

-- A text of at most so many characters that is not blank, trimmed.
unfoldable pub bounded_text : ℕ → Unknown → Result VerdictError String
unfolding trim units
bounded_text most (string s) =
    throw_if (is_empty (trim s) || ltb most (units s)) assignment_error >>= λ _. ok (trim s)
bounded_text most _ = err assignment_error

unfoldable pub positive_integer : Unknown → Result VerdictError ℕ
positive_integer (number (finite false whole zero)) =
    throw_if (ltb whole 1) assignment_error >>= λ _. ok whole
positive_integer _ = err assignment_error

unfoldable pub verdict_value : Unknown → Result VerdictError VerifierVerdictValue
verdict_value (string s) =
    if str_eq s "confirmed"
    then ok confirmed
    else if str_eq s "refuted"
    then ok refuted
    else if str_eq s "uncertain"
    then ok uncertain
    else err assignment_error
verdict_value _ = err assignment_error

unfoldable pub each :
    {A : Type 0} → (Unknown → Result VerdictError A) → List Unknown → Result VerdictError (List A)
each parse [] = ok []
each parse (u ∷ us) = parse u >>= λ a. each parse us >>= λ rest. ok (a ∷ rest)

unfoldable pub citation_ids : Unknown → Result VerdictError (List ℕ)
unfolding each positive_integer
citation_ids undefined = ok []
citation_ids null = ok []
citation_ids (array count at) = each positive_integer (elements_from count 0 at)
citation_ids _ = err assignment_error

-- `seenOrdinals.has(ordinal)`
abbrev pub has : List ℕ → ℕ → Bool
has seen n = any (λ m. m == n) seen

-- The rest of a verdict whose ordinal was accepted.
unfoldable pub verdict_from : ℕ → (String → Unknown) → Result VerdictError VerifierVerdict
unfolding verdict_value bounded_text citation_ids
verdict_from n field = verdict_value (field "verdict") >>= λ v.
    bounded_text summary_max_chars (field "reasoning") >>= λ r.
    citation_ids (field "citation_ids") >>= λ ids.
    ok (record { ordinal = n; verdict = v; reasoning = r; citation_ids = ids })

unfoldable pub parse_verdict : List ℕ → Unknown → Result VerdictError VerifierVerdict
unfolding positive_integer verdict_from
parse_verdict seen (object field) = positive_integer (field "ordinal") >>= λ n.
    throw_if (has seen n) assignment_error >>= λ _. verdict_from n field
parse_verdict seen _ = err assignment_error

unfoldable pub parse_verdicts : List ℕ → List Unknown → Result VerdictError (List VerifierVerdict)
unfolding parse_verdict
parse_verdicts seen [] = ok []
parse_verdicts seen (u ∷ us) =
    parse_verdict seen u >>= λ v. parse_verdicts (v.ordinal ∷ seen) us >>= λ rest. ok (v ∷ rest)

unfoldable pub parse_verdict_array : Unknown → Result VerdictError (List VerifierVerdict)
unfolding parse_verdicts
parse_verdict_array (array count at) =
    throw_if ((count == 0) || ltb max_verdicts count) assignment_error >>= λ _.
    parse_verdicts [] (elements_from count 0 at)
parse_verdict_array _ = err assignment_error

-- A number of at least 0 and at most 1.
unfoldable pub in_unit : Number → Bool
in_unit (finite false whole fraction) = (whole == 0) || ((whole == 1) && (fraction == 0))
in_unit (finite true whole fraction) = (whole == 0) && (fraction == 0)
in_unit _ = false

unfoldable pub parse_confidence : Unknown → Result VerdictError (Option Number)
unfolding in_unit
parse_confidence undefined = ok none
parse_confidence null = ok none
parse_confidence (number n) = throw_if (not (in_unit n)) assignment_error >>= λ _. ok (some n)
parse_confidence _ = err assignment_error

unfoldable pub parse_questions : Unknown → Result VerdictError (List String)
unfolding each bounded_text
parse_questions undefined = ok []
parse_questions null = ok []
parse_questions (array count at) = throw_if (ltb max_open_questions count) assignment_error >>= λ _.
    each (bounded_text open_question_max_chars) (elements_from count 0 at)
parse_questions _ = err assignment_error

unfoldable pub parse_verifier_result : Unknown → Result VerdictError VerifierResult
unfolding bounded_text parse_verdict_array parse_confidence parse_questions
parse_verifier_result (object field) = bounded_text summary_max_chars (field "summary") >>= λ s.
    parse_verdict_array (field "verdicts") >>= λ vs. parse_confidence (field "confidence") >>= λ c.
    parse_questions (field "open_questions") >>= λ qs.
    ok (record { summary = s; verdicts = vs; confidence = c; open_questions = qs })
parse_verifier_result _ = err assignment_error
