-- ===== src/Commitments/Eligibility.antt =====
-- packages/core/src/commitments/transitions.ts: the verbs' statuses, and which commitments relate
-- to a thread's labels. `toLowerCase` stands on the runtime's Unicode tables and is a parameter.
use Prim.Native.Char.{code}
use Prim.Native.String.{String, [] as no_text, ◌∷◌ as character, ◌++◌, char_at}
use jehad_os.Prelude.{
  ◌≡◌, refl, Bool, true, false, not, ◌&&◌, ◌||◌, List, [], ◌∷◌, map, filter, any, ◌==◌,
  if◌then◌else◌,
}
use jehad_os.Prelude.Unknown.{trim, is_empty, is_space}
use jehad_os.Commitments.{CommitmentVerb, done, renegotiated, missed, EligibleCommitment}

abbrev verb_to_status : CommitmentVerb → String
verb_to_status done = "met"
verb_to_status renegotiated = "renegotiated"
verb_to_status missed = "missed"

-- `replace(/\s+/g, " ")`; `within` says whether the last character was a space.
unfoldable pub collapse : (within : Bool) → String → String
collapse within no_text = no_text
collapse within (character c s) =
    let after_space = collapse true s in
    let after_char = collapse false s in
    if is_space c
    then (if within then after_space else character (char_at " " 0) after_space)
    else character c after_char

unfoldable pub begins_with : String → String → Bool
begins_with s no_text = true
begins_with no_text (character d t) = false
begins_with (character c s) (character d t) = (code c == code d) && begins_with s t

-- `s.includes(t)`
unfoldable pub text_includes : String → String → Bool
unfolding begins_with
text_includes no_text t = is_empty t
text_includes (character c s) t = begins_with (character c s) t || text_includes s t

module _ (to_lower_case : String → String) where
  unfoldable pub normalize_label : String → String
  unfolding trim collapse
  normalize_label text = collapse false (to_lower_case (trim text))

  unfoldable pub relates : (haystack description counterparty label : String) → Bool
  unfolding text_includes
  relates haystack description counterparty label =
      text_includes haystack label
      || (text_includes label description
          || (not (is_empty counterparty) && text_includes label counterparty))

  -- The labels that are left: with none, every commitment relates.
  unfoldable pub relates_any : (haystack description counterparty : String) → List String → Bool
  unfolding relates
  relates_any haystack description counterparty [] = true
  relates_any haystack description counterparty (label ∷ labels) =
      any (relates haystack description counterparty) (label ∷ labels)

  unfoldable pub matches_referent_labels : EligibleCommitment → List String → Bool
  unfolding normalize_label relates_any
  matches_referent_labels item labels =
      relates_any (normalize_label (item.counterparty_text ++ " " ++ item.description))
        (normalize_label item.description) (normalize_label item.counterparty_text)
        (filter (λ l. not (is_empty l)) (map normalize_label labels))

text_includes-empty : (s : String) → text_includes s no_text ≡ true
unfolding text_includes begins_with
text_includes-empty no_text = refl
text_includes-empty (character c s) = refl

or_true : (b : Bool) → (b || true) ≡ true
or_true true = refl
or_true false = refl

blank_relates :
    (to_lower_case : String → String) (haystack counterparty : String) (labels : List String)
    → relates_any to_lower_case haystack no_text counterparty labels ≡ true
unfolding relates_any relates
blank_relates to_lower_case haystack counterparty [] = refl
blank_relates to_lower_case haystack counterparty (label ∷ labels) =
    rw (text_includes-empty label, or_true (text_includes haystack label)) refl

-- A commitment whose description is blank relates to every list of labels.
pub matches-blank :
    (to_lower_case : String → String) (item : EligibleCommitment) (labels : List String)
    → normalize_label to_lower_case item.description ≡ no_text
    → matches_referent_labels to_lower_case item labels ≡ true
unfolding matches_referent_labels
matches-blank to_lower_case item labels h = rw h (
    blank_relates to_lower_case _ _
      (filter (λ l. not (is_empty l)) (map (normalize_label to_lower_case) labels)))
