-- ===== src/Decoder/Body/Runs.antt =====
-- apps/imessage-sensor/src/decoder/index.ts: the attribute runs of a message.
use jehad_os.Prelude.{
  ℕ, ◌^◌, ◌<◌, ◌≡◌, refl, subst, Bool, true, false, Option, none, some, List, [], ◌∷◌, ◌++◌, Result,
  ok, err, ◌>>=◌, throw_if, >>=-eq-ok, >>=-ext, not, arith, ltb, ltb→lt, if◌then◌else◌,
}
use jehad_os.Prelude.Int.{ℤ, pos, negsuc}
use jehad_os.Decoder.Stream.{Val, obj, StreamError, malformed, ParsedStream}
use jehad_os.Decoder.Body.{
  is_range, runs_from, use_dict, use_entries, use_entry, use_part, max_of, present, keyed,
  string_object_text, number_object_value, run_group, dict_behind, dict_entries, DictEntry,
}

-- The highest part so far is a safe integer.
abbrev pub IsPart : Option ℕ → Type 0
IsPart none = Unit
IsPart (some m) = m < 2 ^ 53

abbrev Keeps : Option ℕ → Result StreamError (Option ℕ) → Type 0
Keeps m r = (n : Option ℕ) → IsPart m → r ≡ ok n → IsPart n

max_of-IsPart : (m : Option ℕ) (part : ℕ) → IsPart m → part < 2 ^ 53 → IsPart (some (max_of m part))
max_of-IsPart none part h lt = lt
max_of-IsPart (some m) part h lt = ground arith

ok-Keeps : (m : Option ℕ) → Keeps m (ok m)
ok-Keeps m n k h = let e : m ≡ n = cc in subst IsPart e k

part-Keeps :
    (m : Option ℕ) (part : ℕ) (b : Bool)
    → (b ≡ true → part < 2 ^ 53)
    → Keeps m (if b then ok (some (max_of m part)) else err malformed)
part-Keeps m part true lt n k h =
    let e : some (max_of m part) ≡ n = cc in subst IsPart e (max_of-IsPart m part k (lt refl))
part-Keeps m part false lt n k h = cc

use_part-Keeps : (m : Option ℕ) (v : Option ℤ) → Keeps m (use_part m v)
unfolding use_part
use_part-Keeps m none n k h = cc
use_part-Keeps m (some (negsuc v)) n k h = cc
use_part-Keeps m (some (pos part)) n k h =
    part-Keeps m part (ltb part (2 ^ 53)) (ltb→lt part (2 ^ 53)) n k h

if-Keeps :
    (m : Option ℕ) (b : Bool) {r s : Result StreamError (Option ℕ)}
    → Keeps m r
    → Keeps m s
    → Keeps m (if b then r else s)
if-Keeps m true kr ks = kr
if-Keeps m false kr ks = ks

>>=-Keeps :
    (m : Option ℕ) (r : Result StreamError (Option ℕ))
    (next : Option ℕ → Result StreamError (Option ℕ))
    → Keeps m r
    → ((n : Option ℕ) → Keeps n (next n))
    → Keeps m (r >>= next)
>>=-Keeps m (err e) next kr kf n k h = cc
>>=-Keeps m (ok a) next kr kf n k h = kf a n (kr a k refl) h

err-Keeps : (m : Option ℕ) → Keeps m (err malformed)
err-Keeps m n k h = cc

module _ (stream : ParsedStream) where
  use_entry-Keeps : (m : Option ℕ) (e : DictEntry) → Keeps m (use_entry stream m e)
  unfolding use_entry
  use_entry-Keeps m e =
      let text = present (string_object_text stream e.value_idx) in
      let value = number_object_value stream e.value_idx in
      if-Keeps m (keyed "__kIMMessagePartAttributeName" e) (use_part-Keeps m value) (
        if-Keeps m (keyed "__kIMFileTransferGUIDAttributeName" e)
          (if-Keeps m text (ok-Keeps m) (err-Keeps m))
          (if-Keeps m (keyed "__kIMBaseWritingDirectionAttributeName" e)
            (if-Keeps m (present value) (ok-Keeps m) (err-Keeps m)) (ok-Keeps m)))

  use_entries-Keeps :
      (m : Option ℕ) (entries : List DictEntry) → Keeps m (use_entries stream m entries)
  unfolding use_entries
  use_entries-Keeps m [] = ok-Keeps m
  use_entries-Keeps m (e ∷ entries) =
      >>=-Keeps m (use_entry stream m e) _ (use_entry-Keeps m e) λ n. use_entries-Keeps n entries

  listed-Keeps :
      (m : Option ℕ) (listed : Option (List DictEntry))
      → Keeps m (elim listed [ none ↦ err malformed | some entries ↦ use_entries stream m entries ])
  listed-Keeps m none = err-Keeps m
  listed-Keeps m (some entries) = use_entries-Keeps m entries

  run_group-Keeps :
      (m : Option ℕ) (group : List Val) (idx : Option ℕ)
      (rest : Bool → Option ℕ → Result StreamError (Option ℕ))
      → ((b : Bool) (n : Option ℕ) → Keeps n (rest b n))
      → Keeps m (run_group stream m group idx rest)
  unfolding run_group use_dict
  run_group-Keeps m group (some idx) rest k n p h =
      >>=-Keeps m (use_dict stream m idx) (rest false) (listed-Keeps m (dict_entries stream idx))
        (k false) n p h
  run_group-Keeps m group none rest k n p h =
      k true m n p (>>=-eq-ok (throw_if (not (is_range group)) malformed) (λ _. rest true m) h).2

  -- The highest part of accepted runs is a safe integer.
  pub runs_from-IsPart :
      (behind : Bool) (m : Option ℕ) (groups : List (List Val))
      → Keeps m (runs_from stream behind m groups)
  unfolding runs_from
  runs_from-IsPart behind m [] = ok-Keeps m
  runs_from-IsPart behind m (group ∷ groups) =
      run_group-Keeps m group (dict_behind behind group) _ λ b n. runs_from-IsPart b n groups

  run_group-ext :
      (m : Option ℕ) (group : List Val) (idx : Option ℕ)
      {rest more : Bool → Option ℕ → Result StreamError (Option ℕ)}
      → ((b : Bool) (n : Option ℕ) → rest b n ≡ more b n)
      → run_group stream m group idx rest ≡ run_group stream m group idx more
  unfolding run_group
  run_group-ext m group (some idx) e = >>=-ext (use_dict stream m idx) (e false)
  run_group-ext m group none e = >>=-ext (throw_if (not (is_range group)) malformed) λ _. e true m

  dict_behind-range :
      (behind : Bool) (range : List Val) → is_range range ≡ true → dict_behind behind range ≡ none
  unfolding dict_behind is_range
  dict_behind-range false range h = refl
  dict_behind-range true [] h = refl
  dict_behind-range true (obj idx ∷ []) h = cc
  dict_behind-range true _ h = refl

  range_alone :
      (m : Option ℕ) (range : List Val) (idx : Option ℕ)
      → is_range range ≡ true
      → idx ≡ none
      → run_group stream m range idx (λ b n. ok n) ≡ ok m
  unfolding run_group
  range_alone m range idx h e = rw (e, h) refl

  -- An int pair at the end of the runs, without a dictionary, contributes nothing: the runs before
  -- it are accepted or refused as before, with the same highest part.
  pub runs_from-orphan :
      (behind : Bool) (m : Option ℕ) (groups : List (List Val)) (range : List Val)
      → is_range range ≡ true
      → runs_from stream behind m (groups ++ range ∷ []) ≡ runs_from stream behind m groups
  unfolding runs_from
  runs_from-orphan behind m [] range h =
      range_alone m range (dict_behind behind range) h (dict_behind-range behind range h)
  runs_from-orphan behind m (group ∷ groups) range h =
      run_group-ext m group (dict_behind behind group) λ b n. runs_from-orphan b n groups range h
