-- ===== src/Outcomes/Predicates.antt =====
-- packages/core/src/outcomes/predicates.ts: the typed wait predicates, their validation and the
-- matcher of the resume router.
pub mod Domains
pub mod Canonical
pub mod Stored
use Prim.Native.Char.{Char, code}
use Prim.Native.String.{String, [], ◌∷◌, char_at}
use jehad_os.Prelude.{
  ◌-◌, Bool, true, false, ◌&&◌, ◌||◌, Option, none, some, str_eq, leb, ◌==◌, and_then, map_some,
  if◌then◌else◌,
}
use jehad_os.Prelude.Unknown.{
  Number, nan, infinite, finite, Unknown, undefined, null, boolean, number, string, array, object,
  is_positive, is_not_negative, within, is_char, is_alnum, units, is_empty,
}

pub data WaitSource : Type 0 where
  gmail calendar : WaitSource

pub data WaitSubject : Type 0 where
  commitment reminder outcome : WaitSubject

-- A field that the source leaves out is `none`.
pub data OutcomeWaitPredicate : Type 0 where
  arrival : (source : WaitSource) (from_domain : Option String) → OutcomeWaitPredicate
  state_change : (outcome_ref to_status : Option String) → OutcomeWaitPredicate
  absence_past : (subject : WaitSubject) (older_than_hours : Number) → OutcomeWaitPredicate
  threshold : (gt : Number) → OutcomeWaitPredicate

-- DOMAIN_RE, as the automaton of its labels: where the last character stands in its label.
pub data Position : Type 0 where
  at_start after_alnum after_dash : Position

unfoldable pub can_go_on : Position → Bool
can_go_on at_start = false
can_go_on _ = true

unfoldable pub can_end : Position → Bool
can_end after_alnum = true
can_end _ = false

unfoldable pub domain_from : (dotted : Bool) → Position → String → Bool
unfolding can_go_on can_end
domain_from dotted p [] = dotted && can_end p
domain_from dotted p (c ∷ s) =
    (is_alnum c && domain_from dotted after_alnum s)
    || ((is_char 45 c && (can_go_on p && domain_from dotted after_dash s))
        || (is_char 46 c && (can_end p && domain_from true at_start s)))

unfoldable pub is_domain : String → Bool
unfolding domain_from
is_domain s = domain_from false at_start s

unfoldable pub lower_char : Char → Char
lower_char c = if within 65 90 c then char_at "abcdefghijklmnopqrstuvwxyz" (code c - 65) else c

-- `toLowerCase` on the ASCII texts that DOMAIN_RE accepts.
unfoldable pub to_lower : String → String
unfolding lower_char
to_lower [] = []
to_lower (c ∷ s) = lower_char c ∷ to_lower s

-- `/^[A-Z0-9]{2,8}$/`
unfoldable pub all_upper : String → Bool
all_upper [] = true
all_upper (c ∷ s) = (within 65 90 c || within 48 57 c) && all_upper s

unfoldable pub is_ref : String → Bool
unfolding all_upper units
is_ref s = all_upper s && (leb 2 (units s) && leb (units s) 8)

-- `OUTCOME_STATUSES.has(s)`
unfoldable pub is_outcome_status : String → Bool
is_outcome_status s =
    str_eq s "proposed"
    || (str_eq s "accepted"
        || (str_eq s "queued"
            || (str_eq s "running"
                || (str_eq s "waiting_external"
                    || (str_eq s "waiting_user"
                        || (str_eq s "blocked"
                            || (str_eq s "verifying"
                                || (str_eq s "completed"
                                    || (str_eq s "failed" || str_eq s "cancelled")))))))))

unfoldable pub is_outcome_wait_event_type : String → Bool
is_outcome_wait_event_type s =
    str_eq s "gmail.message.received"
    || (str_eq s "calendar.event.created"
        || (str_eq s "calendar.event.updated" || str_eq s "outcome.status_changed"))

-- A field that may be left out, and is refused unless it is a text that passes the test.
unfoldable pub optional : (String → Bool) → Unknown → Option (Option String)
optional test undefined = some none
optional test (string s) = if test s then some (some s) else none
optional test _ = none

-- `value === s`
unfoldable pub is_text : String → Unknown → Bool
is_text s (string t) = str_eq t s
is_text s _ = false

-- `value === 1`
unfoldable pub is_one : Unknown → Bool
is_one (number (finite false whole fraction)) = (whole == 1) && (fraction == 0)
is_one _ = false

unfoldable pub wait_source : Unknown → Option WaitSource
unfolding is_text
wait_source u =
    if is_text "gmail" u then some gmail else if is_text "calendar" u then some calendar else none

unfoldable pub wait_subject : Unknown → Option WaitSubject
unfolding is_text
wait_subject u =
    if is_text "commitment" u
    then some commitment
    else if is_text "reminder" u
    then some reminder
    else if is_text "outcome" u
    then some outcome
    else none

unfoldable pub number_where : (Number → Bool) → Unknown → Option Number
number_where test (number n) = if test n then some n else none
number_where test _ = none

-- A gmail arrival needs a sender scope.
unfoldable pub scoped : WaitSource → Option String → Option OutcomeWaitPredicate
scoped gmail none = none
scoped s d = some (arrival s d)

-- A state change needs an outcome or a status.
unfoldable pub narrowed : Option String → Option String → Option OutcomeWaitPredicate
narrowed none none = none
narrowed r s = some (state_change r s)

unfoldable pub parse_arrival : (String → Unknown) → Option OutcomeWaitPredicate
unfolding wait_source optional is_domain to_lower scoped
parse_arrival r =
    and_then (wait_source (r "source"))
      λ s. and_then (optional is_domain (r "fromDomain")) λ d. scoped s (map_some to_lower d)

unfoldable pub parse_state_change : (String → Unknown) → Option OutcomeWaitPredicate
unfolding is_text optional is_ref is_outcome_status narrowed
parse_state_change r =
    if is_text "outcome" (r "entity")
    then (and_then (optional is_ref (r "outcomeRef"))
        λ o. and_then (optional is_outcome_status (r "toStatus")) λ s. narrowed o s)
    else none

unfoldable pub parse_absence_past : (String → Unknown) → Option OutcomeWaitPredicate
unfolding wait_subject number_where
parse_absence_past r =
    and_then (wait_subject (r "subject"))
      λ s. map_some (absence_past s) (number_where is_positive (r "olderThanHours"))

unfoldable pub parse_threshold : (String → Unknown) → Option OutcomeWaitPredicate
unfolding is_text number_where
parse_threshold r =
    if is_text "outcome_spend_usd" (r "metric")
    then map_some threshold (number_where is_not_negative (r "gt"))
    else none

-- The switch on `r.type`.
unfoldable pub parse_typed : Unknown → (String → Unknown) → Option OutcomeWaitPredicate
unfolding is_text parse_arrival parse_state_change parse_absence_past parse_threshold
parse_typed kind r =
    if is_text "arrival" kind
    then parse_arrival r
    else if is_text "state_change" kind
    then parse_state_change r
    else if is_text "absence_past" kind
    then parse_absence_past r
    else if is_text "threshold" kind
    then parse_threshold r
    else none

unfoldable pub parse_outcome_wait_predicate : Unknown → Option OutcomeWaitPredicate
unfolding is_one parse_typed
parse_outcome_wait_predicate (object r) = if is_one (r "v") then parse_typed (r "type") r else none
parse_outcome_wait_predicate _ = none

-- `value !== undefined && field !== value` is false.
unfoldable pub agrees : Option String → Unknown → Bool
unfolding is_text
agrees none u = true
agrees (some s) u = is_text s u

abbrev pub is_calendar_event : String → Bool
is_calendar_event e = str_eq e "calendar.event.created" || str_eq e "calendar.event.updated"

unfoldable pub predicate_matches_event : OutcomeWaitPredicate → String → (String → Unknown) → Bool
unfolding agrees
predicate_matches_event (arrival gmail d) e payload =
    str_eq e "gmail.message.received" && agrees d (payload "fromDomain")
predicate_matches_event (arrival calendar d) e payload = is_calendar_event e
predicate_matches_event (state_change o s) e payload =
    str_eq e "outcome.status_changed" && (agrees s (payload "toStatus") && agrees o (payload "ref"))
predicate_matches_event (absence_past s n) e payload = false
predicate_matches_event (threshold n) e payload = false

-- `MATCHABLE_PREDICATE_TYPES.includes(predicate.type)`
unfoldable pub is_matchable : OutcomeWaitPredicate → Bool
is_matchable (arrival s d) = true
is_matchable (state_change o s) = true
is_matchable _ = false
