-- ===== src/Decoder/Ensures.antt =====
-- Postconditions of the parser's steps: what holds of a result, where an error of the source is
-- allowed and running out of rounds is not.
use jehad_os.Prelude.{
  Bool, true, false, refl, if◌then◌else◌, ◌≡◌, ◌≢◌, subst, Result, ok, err, ◌>>=◌,
}
use jehad_os.Decoder.Stream.{StreamError, malformed, stuck}

pub data Ensures {A : Type 0} (Q : A → Type 0) : Result StreamError A → Type 0 where
  returns : {a : A} → Q a → Ensures Q (ok a)
  fails : Ensures Q (err malformed)

module _ {A : Type 0} {P Q : A → Type 0} where
  pub Ensures-map : {m : Result StreamError A} → Ensures P m → ((a : A) → P a → Q a) → Ensures Q m
  Ensures-map (returns {a = a} h) f = returns (f a h)
  Ensures-map fails f = fails

module _ {A : Type 0} {Q : A → Type 0} where
  pub Ensures-ok : {m : Result StreamError A} (a : A) → Ensures Q m → m ≡ ok a → Q a
  Ensures-ok a (returns {a = b} h) e = let p : b ≡ a = cc in subst Q p h
  Ensures-ok a fails e = cc

  pub Ensures-if :
      (b : Bool) {m n : Result StreamError A}
      → (b ≡ true → Ensures Q m)
      → (b ≡ false → Ensures Q n)
      → Ensures Q (if b then m else n)
  Ensures-if true km kn = km refl
  Ensures-if false km kn = kn refl

  pub Ensures-ne-stuck : {m : Result StreamError A} → Ensures Q m → m ≢ err stuck
  Ensures-ne-stuck (returns h) e = cc
  Ensures-ne-stuck fails e = cc

module _ {A B : Type 0} {P : A → Type 0} {Q : B → Type 0} where
  pub Ensures-bind :
      {m : Result StreamError A} (f : A → Result StreamError B)
      → Ensures P m
      → ((a : A) → P a → Ensures Q (f a))
      → Ensures Q (m >>= f)
  Ensures-bind f (returns {a = a} h) k = k a h
  Ensures-bind f fails k = fails
