-- ===== src/Base/Effects.antt =====
-- Rust's `Result`, and fallible operations that also read and change the outside world.
use mathlib.Core.Path.{◌≡◌, refl}
use mathlib.Core.Logic.{◌⊎◌, inl, inr}
use mathlib.Core.Bool.{Bool}
use mathlib.Core.Option.{Option, none, some}

pub data Result {ℓ} (E A : Type ℓ) : Type ℓ where
  ok : A → Result E A
  err : E → Result E A

module _ {ℓ} {E A : Type ℓ} where
  abbrev pub ok_or : Option A → E → Result E A
  ok_or none e = err e
  ok_or (some a) e = ok a

  -- `result.ok()`
  abbrev pub to_option : Result E A → Option A
  to_option (ok a) = some a
  to_option (err e) = none

  pub Result-cases : (r : Result E A) → ((a : A) × (r ≡ ok a)) ⊎ ((e : E) × (r ≡ err e))
  Result-cases (ok a) = inl (a, refl)
  Result-cases (err e) = inr (e, refl)

abbrev pub map_err {ℓ} : {E F A : Type ℓ} → (E → F) → Result E A → Result F A
map_err f (ok a) = ok a
map_err f (err e) = err (f e)

module _ {ℓ} {E A B : Type ℓ} where
  abbrev pub map_ok : (A → B) → Result E A → Result E B
  map_ok f (ok a) = ok (f a)
  map_ok f (err e) = err e

  -- `?`
  abbrev pub and_then : Result E A → (A → Result E B) → Result E B
  and_then (ok a) f = f a
  and_then (err e) f = err e

-- A fallible operation over the world `W`: what was changed before an error stays changed.
abbrev pub Eff {ℓ} : Type ℓ → Type ℓ → Type ℓ → Type ℓ
Eff W E A = W → Result E A × W

module _ {ℓ} {W E A : Type ℓ} where
  abbrev pub pure : A → Eff W E A
  pure a w = (ok a, w)

  abbrev pub raise : E → Eff W E A
  raise e w = (err e, w)

  abbrev pub lift : Result E A → Eff W E A
  lift r w = (r, w)

module _ {ℓ} {W E A B : Type ℓ} where
  abbrev pub resume : Result E A × W → (A → Eff W E B) → Result E B × W
  resume (ok a, w) f = f a w
  resume (err e, w) f = (err e, w)

  infixl 5 ◌>>=◌ ◌>>◌
  abbrev pub ◌>>=◌ : Eff W E A → (A → Eff W E B) → Eff W E B
  ◌>>=◌ m f w = resume (m w) f

  abbrev pub ◌>>◌ : Eff W E A → Eff W E B → Eff W E B
  m >> n = m >>= λ _. n

module _ {ℓ} {W E F A : Type ℓ} where
  -- `.map_err(f)` on an operation, and an operation whose result is kept as a value.
  abbrev pub mapping : (E → F) → Eff W E A → Eff W F A
  mapping f m w = (map_err f (m w).0, (m w).1)

  abbrev pub attempt : Eff W E A → Eff W F (Result E A)
  attempt m w = (ok (m w).0, (m w).1)

-- `std::sync::Mutex`; a panic while the lock is held poisons it.
pub record Mutex (C : Type 0) : Type 0 where
  pub value : C
  pub poisoned : Bool

-- An operation on the world beside a value that it does not touch.
abbrev pub beside {ℓ} : {S W E A : Type ℓ} → Eff W E A → Eff (S × W) E A
beside m (s, w) = ((m w).0, (s, (m w).1))

-- Inversions of successful chains.
pub and_then-eq-ok {ℓ} :
    {E A B : Type ℓ} (r : Result E A) (f : A → Result E B) {b : B}
    → and_then r f ≡ ok b
    → (a : A) × (r ≡ ok a) × (f a ≡ ok b)
and_then-eq-ok (ok a) f h = (a, refl, h)
and_then-eq-ok (err e) f h = cc

pub map_err-eq-ok {ℓ} :
    {E F A : Type ℓ} (f : E → F) (r : Result E A) {a : A} → map_err f r ≡ ok a → r ≡ ok a
map_err-eq-ok f (ok a) h = cc
map_err-eq-ok f (err e) h = cc

pub ok_or-eq-ok {ℓ} : {E A : Type ℓ} (o : Option A) (e : E) {a : A} → ok_or o e ≡ ok a → o ≡ some a
ok_or-eq-ok none e h = cc
ok_or-eq-ok (some a) e h = cc

pub ok-inj : {E A : Type 0} {a b : A} → ◌≡◌ {A = Result E A} (ok a) (ok b) → a ≡ b
ok-inj h = cc

pub err-inj : {E A : Type 0} {a b : E} → ◌≡◌ {A = Result E A} (err a) (err b) → a ≡ b
err-inj h = cc

pub resume-eq-ok :
    {W E A B : Type 0} (r : Result E A × W) (f : A → Eff W E B) {b : B}
    → (resume r f).0 ≡ ok b
    → (a : A) × (r.0 ≡ ok a) × ((f a r.1).0 ≡ ok b)
resume-eq-ok (ok a, w) f h = (a, refl, h)
resume-eq-ok (err e, w) f h = cc
