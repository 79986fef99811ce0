-- ===== src/Outcomes/Predicates/Stored.antt =====
-- packages/core/src/outcomes/predicates.ts: a predicate that was validated is read back from
-- its stored form.
use Prim.Native.String.{String}
use jehad_os.Prelude.{
  zero, suc, ◌↔◌, ◌≡◌, refl, ap, Bool, true, false, Option, none, some, str_eq, if◌then◌else◌,
}
use jehad_os.Prelude.Unknown.{
  Number, nan, infinite, finite, Unknown, undefined, number, string, object, is_positive,
  is_not_negative,
}
use jehad_os.Outcomes.Predicates.{
  WaitSource, gmail, calendar, WaitSubject, commitment, reminder, outcome, OutcomeWaitPredicate,
  arrival, state_change, absence_past, threshold, at_start, is_domain, is_outcome_status, optional,
  is_text, is_one, wait_source, wait_subject, number_where, scoped, narrowed, parse_arrival,
  parse_state_change, parse_absence_past, parse_threshold, parse_typed,
  parse_outcome_wait_predicate,
}
use jehad_os.Outcomes.Predicates.Domains.{to_lower-domain_from}
use jehad_os.Outcomes.Predicates.Canonical.{Passes, IsCanonical, map-to_lower, parse-IsCanonical}

abbrev pub text? : Option String → Unknown
text? none = undefined
text? (some s) = string s

abbrev pub source_name : WaitSource → String
source_name gmail = "gmail"
source_name calendar = "calendar"

abbrev pub subject_name : WaitSubject → String
subject_name commitment = "commitment"
subject_name reminder = "reminder"
subject_name outcome = "outcome"

-- An object with the version, the type and two more fields.
abbrev versioned : String → String → Unknown → String → Unknown → Unknown
versioned kind a u b w = object λ k.
    if str_eq k "v"
    then number (finite false 1 0)
    else if str_eq k "type"
    then string kind
    else if str_eq k a
    then u
    else if str_eq k b
    then w
    else undefined

-- A number as JSON.stringify writes it: -0 as 0.
unfoldable pub json_number : Number → Number
json_number (finite true zero zero) = finite false 0 0
json_number n = n

-- What is read back of `JSON.stringify(predicate)`.
unfoldable pub stored : OutcomeWaitPredicate → Unknown
unfolding json_number
stored (arrival s d) = versioned "arrival" "source" (string (source_name s)) "fromDomain" (text? d)
stored (state_change o s) = object λ k.
    if str_eq k "v"
    then number (finite false 1 0)
    else if str_eq k "type"
    then string "state_change"
    else if str_eq k "entity"
    then string "outcome"
    else if str_eq k "outcomeRef"
    then text? o
    else if str_eq k "toStatus"
    then text? s
    else undefined
stored (absence_past s n) =
    versioned "absence_past" "subject" (string (subject_name s)) "olderThanHours"
      (number (json_number n))
stored (threshold n) =
    versioned "threshold" "metric" (string "outcome_spend_usd") "gt" (number (json_number n))

-- A value that is validated to a predicate whose threshold may be -0.
unfoldable as_read : OutcomeWaitPredicate → Unknown
unfolding stored
as_read (threshold n) = versioned "threshold" "metric" (string "outcome_spend_usd") "gt" (number n)
as_read p = stored p

-- The same predicate, with a threshold of 0 for one of -0.
abbrev pub unsigned : OutcomeWaitPredicate → OutcomeWaitPredicate
unsigned (threshold (finite true zero zero)) = threshold (finite false 0 0)
unsigned p = p

json_number-positive : (n : Number) → is_positive n ≡ true → json_number n ≡ n
unfolding json_number is_positive
json_number-positive nan h = cc
json_number-positive (infinite s) h = cc
json_number-positive (finite true w f) h = cc
json_number-positive (finite false w f) h = refl

json_number-accepted :
    (n : Number)
    → is_not_negative n ≡ true
    → (is_not_negative (json_number n) ≡ true)
      × (threshold (json_number n) ≡ unsigned (threshold n))
unfolding json_number is_not_negative
json_number-accepted nan h = cc
json_number-accepted (infinite s) h = cc
json_number-accepted (finite true zero zero) h = (refl, refl)
json_number-accepted (finite true zero (suc f)) h = (h, refl)
json_number-accepted (finite true (suc w) f) h = (h, refl)
json_number-accepted (finite false w f) h = (refl, refl)

Passes-optional :
    (test : String → Bool) (o : Option String) → Passes test o → optional test (text? o) ≡ some o
unfolding optional
Passes-optional test none h = refl
Passes-optional test (some s) h = rw h refl

stored_lem :
    (p : OutcomeWaitPredicate)
    → IsCanonical p
    → parse_outcome_wait_predicate (stored p) ≡ some (unsigned p)
unfolding parse_outcome_wait_predicate is_one parse_typed is_text parse_arrival parse_state_change
    parse_absence_past parse_threshold stored wait_source wait_subject number_where scoped narrowed
    is_domain
stored_lem (arrival gmail none) h = absurd h
stored_lem (arrival gmail (some d)) h = rw (h, to_lower-domain_from false at_start d h) refl
stored_lem (arrival calendar d) h = rw (Passes-optional is_domain d h, map-to_lower d h) refl
stored_lem (state_change none none) h = absurd h
stored_lem (state_change (some o) s) h = rw (h.0, Passes-optional is_outcome_status s h.1) refl
stored_lem (state_change none (some s)) h = rw h.1 refl
stored_lem (absence_past commitment n) h = rw (json_number-positive n h, h) refl
stored_lem (absence_past reminder n) h = rw (json_number-positive n h, h) refl
stored_lem (absence_past outcome n) h = rw (json_number-positive n h, h) refl
stored_lem (threshold n) h = let k = json_number-accepted n h in rw k.0 (ap some k.1)

as_read_lem :
    (p : OutcomeWaitPredicate) → IsCanonical p → parse_outcome_wait_predicate (as_read p) ≡ some p
unfolding parse_outcome_wait_predicate is_one parse_typed is_text parse_threshold number_where
    as_read
as_read_lem (arrival s d) h = stored_lem (arrival s d) h
as_read_lem (state_change o s) h = stored_lem (state_change o s) h
as_read_lem (absence_past s n) h = stored_lem (absence_past s n) h
as_read_lem (threshold n) h = rw h refl

-- Whatever value the validation accepts, the predicate that it returns is read back by the same
-- validation after it was stored: unchanged, but for a threshold of -0, which is read back as 0.
pub parse-stored :
    (u : Unknown) (p : OutcomeWaitPredicate)
    → parse_outcome_wait_predicate u ≡ some p
    → parse_outcome_wait_predicate (stored p) ≡ some (unsigned p)
parse-stored u p h = stored_lem p (parse-IsCanonical u h)

-- The predicates that the validation can return are the canonical ones: a gmail arrival has a
-- sender domain, a state change narrows its outcome or its status, every text has passed its
-- test, and the numbers are finite and in range.
pub parse-IsCanonical_iff :
    (p : OutcomeWaitPredicate)
    → ((u : Unknown) × (parse_outcome_wait_predicate u ≡ some p)) ↔ IsCanonical p
parse-IsCanonical_iff p = (λ x. parse-IsCanonical x.0 x.1, λ k. (as_read p, as_read_lem p k))
