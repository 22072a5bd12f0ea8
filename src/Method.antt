-- ===== src/Method.antt =====
-- Methods that change an object and may raise. What was written before a raise stays written, so
-- the state comes back beside the exception too.
use scooling_lab.Base.{Option, none, some, Bool, true, false}
use scooling_lab.Errors.{Exception, Result, ok, err}

abbrev pub Method {ℓ} : Type ℓ → Type ℓ → Type ℓ
Method S A = S → Result A × S

module _ {ℓ} {S A : Type ℓ} where
  abbrev pub pure : A → Method S A
  pure a s = (ok a, s)

  abbrev pub raise : Exception → Method S A
  raise e s = (err e, s)

  abbrev pub lift : Result A → Method S A
  lift r s = (r, s)

  abbrev pub gets : (S → A) → Method S A
  gets f s = (ok (f s), s)

  abbrev pub or_raise : Option A → Exception → Method S A
  or_raise none e s = (err e, s)
  or_raise (some a) e s = (ok a, s)

module _ {ℓ} {S A B : Type ℓ} where
  infixl 10 ◌>>=◌ ◌>>◌
  abbrev pub ◌>>=◌ : Method S A → (A → Method S B) → Method S B
  ◌>>=◌ m f s = let (r, s') = m s in elim r [ ok a ↦ f a s' | err e ↦ (err e, s') ]

  abbrev pub ◌>>◌ : Method S A → Method S B → Method S B
  m >> k = m >>= λ _. k

module _ {S : Type 0} where
  abbrev pub modify : (S → S) → Method S (Unit {0})
  modify f s = (ok tt, f s)

  abbrev pub raise_when : Bool → Exception → Method S (Unit {0})
  raise_when true e s = (err e, s)
  raise_when false e s = (ok tt, s)
