-- ===== src/Base/Effects.antt =====
-- The errors of the program, and what a call that changes a state comes back with: a result, an
-- error or a run-time panic, beside the state as the call left it.
use Prim.Native.String.{String}
use mathlib.Core.Path.{◌≡◌, refl, ap}
use mathlib.Core.Logic.{◌≢◌, ◌⊎◌, inl, inr}
use mathlib.Core.Option.{Option, none, some}
use native.Mathlib.Omega.{arith}

-- `wrap` is errors.Wrap; `other` is any error that is made where it is returned or that comes
-- from a library.
pub data Error : Type 0 where
  metric_malformed not_supported metric_not_found metric_bad_type : Error
  other : String → Error
  wrap : String → Error → Error

pub data Outcome {ℓ} (A : Type ℓ) : Type ℓ where
  ok : A → Outcome A
  err : Error → Outcome A
  panic : Outcome A

abbrev pub and_then : {A B : Type 0} → Error ⊎ A → (A → Error ⊎ B) → Error ⊎ B
and_then (inl e) k = inl e
and_then (inr a) k = k a

pub and_then-eq-inr :
    {A B : Type 0} (k : A → Error ⊎ B) (r : Error ⊎ A) {b : B}
    → and_then r k ≡ inr b
    → (a : A) × (r ≡ inr a) × (k a ≡ inr b)
and_then-eq-inr k (inl e) h = absurd (cc h)
and_then-eq-inr k (inr a) h = (a, refl, h)

abbrev pub or_default : {A : Type 0} → Option A → A → A
or_default none d = d
or_default (some a) d = a

abbrev pub Action : Type 0 → Type 0 → Type 0
Action S A = S → Outcome A × S

module _ {S A : Type 0} where
  abbrev pub pure : A → Action S A
  pure a s = (ok a, s)

  abbrev pub fail : Error → Action S A
  fail e s = (err e, s)

  abbrev pub lifted : Error ⊎ A → Action S A
  lifted (inl e) = fail e
  lifted (inr a) = pure a

infixl 5 ◌>>=◌ ◌>>◌
abbrev pub ◌>>=◌ : {S A B : Type 0} → Action S A → (A → Action S B) → Action S B
◌>>=◌ m f s =
    let (r, s') = m s in elim r [ ok a ↦ f a s' | err e ↦ (err e, s') | panic ↦ (panic, s') ]

abbrev pub ◌>>◌ : {S B : Type 0} → Action S (Unit {0}) → Action S B → Action S B
m >> k = m >>= λ _. k

-- A sequence that returns: its first call returned, and its second one made the result.
pub >>-eq-ok :
    {S B : Type 0} (m : Action S (Unit {0})) (k : Action S B) (s : S) {b : B}
    → ((m >> k) s).0 ≡ ok b
    → ((m s).0 ≡ ok tt) × ((m >> k) s ≡ k (m s).1)
>>-eq-ok m k s e = ground arith

pub >>-of_ok :
    {S B : Type 0} (m : Action S (Unit {0})) (k : Action S B) (s : S)
    → (m s).0 ≡ ok tt
    → (m >> k) s ≡ k (m s).1
>>-of_ok m k s e = ground arith

pub pair-of_ok : {S : Type 0} (r : Outcome (Unit {0}) × S) → r.0 ≡ ok tt → r ≡ (ok tt, r.1)
pair-of_ok r e = ground arith

-- A call that gives an error or none, with errors.Wrap on its error.
abbrev pub checked : {S : Type 0} → String → (S → Option Error × S) → Action S (Unit {0})
checked message call s =
    let (r, s') = call s in elim r [ none ↦ (ok tt, s') | some e ↦ (err (wrap message e), s') ]

pub checked-eq-ok :
    {S : Type 0} (message : String) (call : S → Option Error × S) (s : S)
    → (checked message call s).0 ≡ ok tt
    → ((call s).0 ≡ none) × ((checked message call s).1 ≡ (call s).1)
checked-eq-ok message call s e = ground arith

pub checked-ne-panic :
    {S : Type 0} (message : String) (call : S → Option Error × S) (s : S)
    → (checked message call s).0 ≢ panic
checked-ne-panic message call s e = ground arith

pub >>-ne-panic :
    {S B : Type 0} (m : Action S (Unit {0})) (k : Action S B)
    → ((s : S) → (m s).0 ≢ panic)
    → ((s : S) → (k s).0 ≢ panic)
    → (s : S) → ((m >> k) s).0 ≢ panic
>>-ne-panic m k h g s e = ground (arith, h s, g (m s).1)

-- A sequence that returns passed through a result of its first call.
module _ {S A B : Type 0} (k : A → Action S B) {b : B} where
  bound-eq-ok :
      (c : Outcome A × S) (s : S)
      → (((λ _. c) >>= k) s).0 ≡ ok b
      → (a : A) × (c.0 ≡ ok a) × ((k a c.1).0 ≡ ok b)
  bound-eq-ok (ok a, s') s e = (a, refl, e)
  bound-eq-ok (err x, s') s e = absurd (cc e)
  bound-eq-ok (panic, s') s e = absurd (cc e)

  pub >>=-eq-ok :
      (m : Action S A) (s : S)
      → ((m >>= k) s).0 ≡ ok b
      → (a : A) × ((m s).0 ≡ ok a) × ((k a (m s).1).0 ≡ ok b)
  >>=-eq-ok m s e = bound-eq-ok (m s) s e

pub ok_inj : {A : Type 0} {a b : A} → ◌≡◌ {A = Outcome A} (ok a) (ok b) → a ≡ b
ok_inj p = cc p

pub inr_inj : {A : Type 0} {a b : A} → ◌≡◌ {A = Error ⊎ A} (inr a) (inr b) → a ≡ b
inr_inj p = cc p

pub inl-ne-inr : {A : Type 0} {e : Error} {a : A} → ◌≢◌ {A = Error ⊎ A} (inl e) (inr a)
inl-ne-inr p = cc p

pub lifted-eq-ok :
    {A S : Type 0} (r : Error ⊎ A) (s : S) {a : A} → (lifted r s).0 ≡ ok a → r ≡ inr a
lifted-eq-ok (inl e) s h = absurd (cc h)
lifted-eq-ok (inr x) s h = ap inr (ok_inj h)
