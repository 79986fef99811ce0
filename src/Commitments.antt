-- ===== src/Commitments.antt =====
-- packages/core/src/commitments/transitions.ts: the reference codes, the resolution of a verb's
-- target, and the reply. The digest of node:crypto and the Unicode tables of `toUpperCase` are
-- parameters.
pub mod Codes
pub mod Resolution
pub mod Eligibility
use Prim.Native.Char.{Char, code}
use Prim.Native.String.{String, [] as no_text, ◌∷◌ as character, ◌++◌, char_at}
use jehad_os.Prelude.{
  ℕ, zero, suc, ◌+◌, ◌-◌, ◌*◌, ◌/◌, ◌%◌, Bool, true, false, not, ◌&&◌, ◌||◌, Option, none, some,
  List, [], ◌∷◌, ◌++◌ as append, map, filter, take, length, str_eq, ltb, ◌==◌, if◌then◌else◌,
}
use jehad_os.Prelude.Unknown.{trim, is_empty, decimal}

pub data CommitmentVerb : Type 0 where
  done renegotiated missed : CommitmentVerb

pub record EligibleCommitment : Type 0 where
  pub id : String
  pub direction : String
  pub counterparty_text : String
  pub description : String
  pub status : String
  pub domain_key : String

pub record CommitmentCandidate : Type 0 where
  pub id : String
  pub description : String
  pub direction : String
  pub counterparty_text : String
  pub ref : String

pub data CommitmentTargetResolution : Type 0 where
  sole : (id description : String) → CommitmentTargetResolution
  by_ref : (id description ref : String) → CommitmentTargetResolution
  no_target : CommitmentTargetResolution
  unknown_ref : (ref : String) → CommitmentTargetResolution
  ambiguous : (candidates : List CommitmentCandidate) → CommitmentTargetResolution

abbrev pub alphabet : String
alphabet = "0123456789ABCDEFGHJKMNPQRSTVWXYZ"

unfoldable pub is_in : Char → String → Bool
is_in c no_text = false
is_in c (character d s) = (code d == code c) || is_in c s

-- CODE_RE: three characters of the alphabet.
unfoldable pub is_code : String → Bool
unfolding is_in
is_code (character a (character b (character c no_text))) =
    is_in a alphabet && (is_in b alphabet && is_in c alphabet)
is_code _ = false

-- Each code character takes five bits of a value.
unfoldable pub code_char : ℕ → Char
code_char n = char_at alphabet (n % 32)

unfoldable pub code_of : ℕ → String
unfolding code_char
code_of value =
    character (code_char (value / 1024))
      (character (code_char (value / 32)) (character (code_char value) no_text))

-- `String(ref).trim().length > 0`
unfoldable pub given : Option String → Bool
unfolding trim
given none = false
given (some ref) = not (is_empty (trim ref))

unfoldable pub bare_target :
    List EligibleCommitment → List CommitmentCandidate → CommitmentTargetResolution
bare_target [] candidates = no_target
bare_target (item ∷ []) candidates = sole item.id item.description
bare_target (item ∷ (other ∷ items)) candidates = ambiguous candidates

unfoldable pub ref_target :
    String → List EligibleCommitment → List CommitmentCandidate → CommitmentTargetResolution
ref_target ref [] candidates = unknown_ref ref
ref_target ref (item ∷ []) candidates = by_ref item.id item.description ref
ref_target ref (item ∷ (other ∷ items)) candidates = ambiguous candidates

-- `sha256 text` is the first two bytes of the digest.
module _ (sha256 : String → ℕ × ℕ) (to_upper_case : String → String) where
  unfoldable pub commitment_ref_code : String → String
  unfolding code_of
  commitment_ref_code id =
      let digest = sha256 ("commitment:" ++ id) in code_of ((digest.0 * 128 + digest.1 / 2) % 32768)

  unfoldable pub to_candidate : EligibleCommitment → CommitmentCandidate
  unfolding commitment_ref_code
  to_candidate item = record {
    id = item.id;
    description = item.description;
    direction = item.direction;
    counterparty_text = item.counterparty_text;
    ref = commitment_ref_code item.id;
  }

  -- The eligible commitments with a code.
  unfoldable pub matches : String → List EligibleCommitment → List EligibleCommitment
  unfolding commitment_ref_code
  matches ref eligible = filter (λ item. str_eq (commitment_ref_code item.id) ref) eligible

  unfoldable pub normalized : Option String → String
  unfolding trim
  normalized none = ""
  normalized (some ref) = to_upper_case (trim ref)

  unfoldable pub resolve_commitment_target :
      List EligibleCommitment → Option String → CommitmentTargetResolution
  unfolding given normalized is_code ref_target bare_target matches to_candidate
  resolve_commitment_target eligible ref =
      if given ref
      then (if is_code (normalized ref)
          then ref_target (normalized ref) (matches (normalized ref) eligible)
              (map to_candidate (matches (normalized ref) eligible))
          else unknown_ref (normalized ref))
      else bare_target eligible (map to_candidate eligible)

abbrev pub clarify_candidate_limit : ℕ
clarify_candidate_limit = 5

abbrev pub verb_name : CommitmentVerb → String
verb_name done = "done"
verb_name renegotiated = "renegotiated"
verb_name missed = "missed"

unfoldable pub candidate_line : CommitmentCandidate → String
candidate_line c =
    "- [" ++ c.ref ++ "] " ++ c.description ++ " (" ++ c.direction ++ " " ++ c.counterparty_text
    ++ ")"

-- `lines.join("\n")` behind a first line.
unfoldable pub join_lines : String → List String → String
join_lines first [] = first
join_lines first (line ∷ lines) = first ++ "\n" ++ join_lines line lines

unfoldable pub candidate_lines : List CommitmentCandidate → List String
unfolding candidate_line decimal
candidate_lines [] = []
candidate_lines candidates =
    let shown = map candidate_line (take clarify_candidate_limit candidates) in
    if ltb clarify_candidate_limit (length candidates)
    then append shown
        (("- …and " ++ decimal (length candidates - clarify_candidate_limit) ++ " more") ∷ [])
    else shown

unfoldable pub render_commitment_verb_reply : CommitmentTargetResolution → CommitmentVerb → String
unfolding join_lines candidate_lines
render_commitment_verb_reply no_target verb = "Nothing open matches that."
render_commitment_verb_reply (unknown_ref ref) verb =
    "Unknown ref — nothing changed. Reply with a ref from the list I sent."
render_commitment_verb_reply (ambiguous candidates) verb =
    join_lines "Which one? Reply with its ref:" (candidate_lines candidates)
render_commitment_verb_reply (sole id description) verb =
    "Marked: " ++ description ++ " — " ++ verb_name verb ++ "."
render_commitment_verb_reply (by_ref id description ref) verb =
    "Marked: " ++ description ++ " — " ++ verb_name verb ++ "."
