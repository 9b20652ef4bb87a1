-- ===== src/Outcome/Action.antt =====
-- A method call: state and exceptions. The state comes back after a raise too, since what was
-- written before it stays written.
use sbd_drones_economics.Base.{◌≡◌, refl, Bool, Option, if◌then◌else◌}
use sbd_drones_economics.Outcome
use sbd_drones_economics.Outcome.{Exception, Result, ok, err}

abbrev pub Action : Type 0 → Type 0 → Type 0
Action S A = S → Result A × S

module _ {S A : Type 0} where
  abbrev pub pure : A → Action S A
  pure a s = (ok a, s)

  abbrev pub raise : Exception → Action S A
  raise e s = (err e, s)

  abbrev pub lift : Result A → Action S A
  lift r s = (r, s)

  abbrev pub gets : (S → A) → Action S A
  gets f s = (ok (f s), s)

  abbrev pub or_raise : Option A → Exception → Action S A
  or_raise o e s = (Outcome.or_raise o e, s)

module _ {S : Type 0} where
  abbrev pub modify : (S → S) → Action S Unit
  modify f s = (ok tt, f s)

  abbrev pub raise_if : Bool → Exception → Action S Unit
  raise_if c e s = (Outcome.raise_if c e, s)

  abbrev pub done : Action S Unit
  done s = (ok tt, s)

infixl 5 ◌>>=◌ ◌>>◌
abbrev pub ◌>>=◌ : {S A B : Type 0} → Action S A → (A → Action S B) → Action S B
◌>>=◌ m f s = let (r, s') = m s in elim r [ ok a ↦ f a s' | err e ↦ (err e, s') ]

abbrev pub ◌>>◌ : {S A B : Type 0} → Action S A → Action S B → Action S B
m >> k = m >>= λ _. k

-- `if c: m`
abbrev pub when : {S : Type 0} → Bool → Action S Unit → Action S Unit
when c m = if c then m else done

-- What a successful chain was made of.
pub >>=-eq-ok :
    {S A B : Type 0} (m : Action S A) (f : A → Action S B) (s : S) {b : B} {t : S}
    → (m >>= f) s ≡ (ok b, t)
    → (a : A) × (s' : S) × (m s ≡ (ok a, s')) × (f a s' ≡ (ok b, t))
>>=-eq-ok {S = S} {A = A} {B = B} m f s {b = b} {t = t} h = go (m s) refl h
  where
    go :
        (r : Result A × S)
        → m s ≡ r
        → (elim r.0 [ ok a ↦ f a r.1 | err e ↦ (err e, r.1) ]) ≡ (ok b, t)
        → (a : A) × (s' : S) × (m s ≡ (ok a, s')) × (f a s' ≡ (ok b, t))
    go (ok a, s') e h = (a, s', e, h)
    go (err x, s') e h = cc
