-- ===== src/Base/Fallible.antt =====
-- A Go function's `(value, error)` result where the value counts only if the error is nil, with `do`.
use mathlib.Core.Path.{◌≡◌, refl, ap}
use mathlib.Core.Option.{Option, none, some}
use native.Mathlib.Omega.{arith}

pub data Result {ℓ κ} (E : Type ℓ) (A : Type κ) : Type (ℓ ⊔ κ) where
  ok : A → Result E A
  err : E → Result E A

infixl 5 ◌>>=◌ ◌>>◌
abbrev pub ◌>>=◌ {ℓ κ ι} :
    {E : Type ℓ} {A : Type κ} {B : Type ι} → Result E A → (A → Result E B) → Result E B
err x >>= next = err x
ok v >>= next = next v

abbrev pub ◌>>◌ {ℓ κ} : {E : Type ℓ} {A : Type κ} → Result E (Unit {0}) → Result E A → Result E A
first >> then_ = first >>= λ u. then_

-- A call whose error the environment decides: the value, unless the call failed.
abbrev pub unless {ℓ κ} : {E : Type ℓ} {A : Type κ} → Option E → A → Result E A
unless none a = ok a
unless (some e) a = err e

-- Inversion of a successful chain.
module _ {ℓ κ ι} {E : Type ℓ} {A : Type κ} {B : Type ι} where
  pub >>=-eq-ok :
      (first : Result E A) (next : A → Result E B) {end_ : B}
      → (first >>= next) ≡ ok end_
      → (mid : A) × (first ≡ ok mid) × (next mid ≡ ok end_)
  >>=-eq-ok (err x) next e = cc
  >>=-eq-ok (ok mid) next e = (mid, refl, e)

pub unless-eq-ok {ℓ κ} :
    {E : Type ℓ} {A : Type κ} (fault : Option E) {a b : A}
    → unless fault a ≡ ok b
    → (fault ≡ none) × (a ≡ b)
unless-eq-ok none h = (refl, ground arith)
unless-eq-ok (some e) h = cc

-- The other way: a chain goes on from a result that is known.
pub >>=_ok {ℓ κ ι} :
    {E : Type ℓ} {A : Type κ} {B : Type ι} {m : Result E A} (f : A → Result E B) {a : A}
    → m ≡ ok a
    → (m >>= f) ≡ f a
>>=_ok f h = ap (λ m. m >>= f) h

pub unless_ok {ℓ κ} :
    {E : Type ℓ} {A : Type κ} {fault : Option E} (a : A) → fault ≡ none → unless fault a ≡ ok a
unless_ok a h = ap (λ fault. unless fault a) h
