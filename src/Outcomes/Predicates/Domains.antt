-- ===== src/Outcomes/Predicates/Domains.antt =====
-- packages/core/src/outcomes/predicates.ts: DOMAIN_RE accepts small letters only.
use Prim.Native.Char.{Char}
use Prim.Native.String.{String, [], ◌∷◌}
use jehad_os.Prelude.{
  ◌≡◌, refl, Bool, true, ◌&&◌, ◌||◌, arith, Bool-cases, inl, inr, &&-eq-true, ||-eq-true,
}
use jehad_os.Prelude.Unknown.{within, is_alnum, is_char}
use jehad_os.Outcomes.Predicates.{
  Position, at_start, after_alnum, after_dash, can_go_on, can_end, domain_from, lower_char,
  to_lower,
}

lower_char-eq :
    (c : Char) → (is_alnum c || (is_char 45 c || is_char 46 c)) ≡ true → lower_char c ≡ c
unfolding lower_char
lower_char-eq c h = elim (Bool-cases (within 65 90 c)) [
  | inl capital ↦ absurd (ground (arith, capital, h))
  | inr small ↦ rw small refl
]

-- An accepted domain goes on with a character of its alphabet and an accepted rest.
domain_from-cons :
    (dotted : Bool) (p : Position) (c : Char) (s : String)
    → domain_from dotted p (c ∷ s) ≡ true
    → ((is_alnum c || (is_char 45 c || is_char 46 c)) ≡ true)
      × (more : Bool) × (q : Position) × (domain_from more q s ≡ true)
unfolding domain_from
domain_from-cons dotted p c s h = elim (||-eq-true (is_alnum c && _) _ h) [
  | inl a ↦ let x = &&-eq-true (is_alnum c) _ a in (ground (arith, x.0), dotted, after_alnum, x.1)
  | inr o ↦ elim (||-eq-true (is_char 45 c && _) _ o) [
    | inl d ↦
        let x = &&-eq-true (is_char 45 c) _ d in
        (ground (arith, x.0), dotted, after_dash, (&&-eq-true (can_go_on p) _ x.1).1)
    | inr d ↦
        let x = &&-eq-true (is_char 46 c) _ d in
        (ground (arith, x.0), true, at_start, (&&-eq-true (can_end p) _ x.1).1)
  ]
]

-- An accepted domain has no capital: the conversion after the test changes nothing.
pub to_lower-domain_from :
    (dotted : Bool) (p : Position) (s : String) → domain_from dotted p s ≡ true → to_lower s ≡ s
unfolding to_lower
to_lower-domain_from dotted p [] h = refl
to_lower-domain_from dotted p (c ∷ s) h =
    let step = domain_from-cons dotted p c s h in
    let rest : to_lower s ≡ s = to_lower-domain_from step.1 step.2 s step.3 in
    rw (lower_char-eq c step.0, rest) refl
