-- ===== src/Base/Chains.antt =====
-- What holds of every value and of every error that a chain of operations gives.
use mathlib.Core.Path.{◌≡◌, refl, ap, subst}
use mathlib.Core.Bool.{Bool, true, false}
use fabricd.Base.Tests.{if◌then◌else◌}
use fabricd.Base.Effects.{
  Result, ok, err, Eff, map_err, mapping, pure, resume, ◌>>=◌, ok-inj, err-inj, resume-eq-ok,
}

pub bind-eq-ok :
    {W E A B : Type 0} (m : Eff W E A) (f : A → Eff W E B) (w : W) {b : B}
    → ((m >>= f) w).0 ≡ ok b
    → (a : A) × ((m w).0 ≡ ok a) × ((f a (m w).1).0 ≡ ok b)
bind-eq-ok m f w h = resume-eq-ok (m w) f h

-- Every value that an operation gives satisfies `P`.
abbrev pub ReturnsIn : {W E A : Type 0} → (A → Type 0) → Eff W E A → Type 0
ReturnsIn {W} {E} {A} P m = (w : W) (a : A) → (m w).0 ≡ ok a → P a

pub then-ReturnsIn :
    {W E A B : Type 0} (P : B → Type 0) (m : Eff W E A) (f : A → Eff W E B)
    → ((a : A) → ReturnsIn P (f a))
    → ReturnsIn P (m >>= f)
then-ReturnsIn P m f hf w b h = let (a, given, rest) = bind-eq-ok m f w h in hf a (m w).1 b rest

pub bind-ReturnsIn :
    {W E A B : Type 0} (Q : A → Type 0) (P : B → Type 0) (m : Eff W E A) (f : A → Eff W E B)
    → ReturnsIn Q m
    → ((a : A) → Q a → ReturnsIn P (f a))
    → ReturnsIn P (m >>= f)
bind-ReturnsIn Q P m f hm hf w b h =
    let (a, given, rest) = bind-eq-ok m f w h in hf a (hm w a given) (m w).1 b rest

-- A branch on a test.
pub if-ReturnsIn :
    {W E A : Type 0} (P : A → Type 0) (b : Bool) (m n : Eff W E A)
    → ReturnsIn P m
    → ReturnsIn P n
    → ReturnsIn P (if b then m else n)
if-ReturnsIn P true m n hm hn = hm
if-ReturnsIn P false m n hm hn = hn

-- Every error of an operation satisfies `P`.
abbrev pub FailsIn : {W E A : Type 0} → (E → Type 0) → Eff W E A → Type 0
FailsIn {W} {E} P m = (w : W) (e : E) → (m w).0 ≡ err e → P e

abbrev pub ErrsIn : {E A : Type 0} → (E → Type 0) → Result E A → Type 0
ErrsIn {E} P r = (e : E) → r ≡ err e → P e

resume-FailsIn :
    {W E A B : Type 0} (P : E → Type 0) (r : Result E A × W) (f : A → Eff W E B)
    → ((e : E) → r.0 ≡ err e → P e)
    → ((a : A) → FailsIn P (f a))
    → (e : E) → (resume r f).0 ≡ err e
    → P e
resume-FailsIn P (ok a, w) f hr hf e h = hf a w e h
resume-FailsIn P (err x, w) f hr hf e h = hr e (ap err (err-inj h))

pub bind-FailsIn :
    {W E A B : Type 0} (P : E → Type 0) (m : Eff W E A) (f : A → Eff W E B)
    → FailsIn P m
    → ((a : A) → FailsIn P (f a))
    → FailsIn P (m >>= f)
bind-FailsIn P m f hm hf w e h = resume-FailsIn P (m w) f (hm w) hf e h

pub map_err-ErrsIn :
    {E F A : Type 0} (P : F → Type 0) (g : E → F) (r : Result E A)
    → ((x : E) → P (g x))
    → ErrsIn P (map_err g r)
map_err-ErrsIn P g (ok a) hg e h = cc
map_err-ErrsIn P g (err x) hg e h = subst P (err-inj h) (hg x)

pub mapping-FailsIn :
    {W E F A : Type 0} (P : F → Type 0) (g : E → F) (m : Eff W E A)
    → ((x : E) → P (g x))
    → FailsIn P (mapping g m)
mapping-FailsIn P g m hg w e h = map_err-ErrsIn P g (m w).0 hg e h

pub map_err-within :
    {E F A : Type 0} (Q : E → Type 0) (P : F → Type 0) (g : E → F) (r : Result E A)
    → ErrsIn Q r
    → ((x : E) → Q x → P (g x))
    → ErrsIn P (map_err g r)
map_err-within Q P g (ok a) hr hg e h = cc
map_err-within Q P g (err x) hr hg e h = subst P (err-inj h) (hg x (hr x refl))

resume-pure_of_ok :
    {W E A B : Type 0} (r : Result E A × W) (g : A → B) {a : A}
    → r.0 ≡ ok a
    → (resume r (λ x. pure (g x))).0 ≡ ok (g a)
resume-pure_of_ok (ok x, w) g h = ap (λ y. ok (g y)) (ok-inj h)
resume-pure_of_ok (err e, w) g h = cc

-- A chain that ends by mapping the value of its first step.
pub then_pure_of_ok :
    {W E A B : Type 0} (m : Eff W E A) (g : A → B) (w : W) {a : A}
    → (m w).0 ≡ ok a
    → ((m >>= λ x. pure (g x)) w).0 ≡ ok (g a)
then_pure_of_ok m g w h = resume-pure_of_ok (m w) g h

pub if-FailsIn :
    {W E A : Type 0} (P : E → Type 0) (b : Bool) (m n : Eff W E A)
    → FailsIn P m
    → FailsIn P n
    → FailsIn P (if b then m else n)
if-FailsIn P true m n hm hn = hm
if-FailsIn P false m n hm hn = hn
