-- ===== src/Base/Families.antt =====
-- Families over ℕ of things that may be there, and what changes one of them.
use Prim.Native.Nat.{ℕ}
use mathlib.Core.Option.{Option, none, some}
use mathlib.Core.Path.{◌≡◌}
use native.Mathlib.Omega.{arith}
use fabricd.Base.Tests.{nat_eq, if◌then◌else◌}

module _ {A : Type 0} where
  -- The family with `a` at `i`.
  abbrev pub put_at : (ℕ → Option A) → ℕ → A → ℕ → Option A
  put_at f i a j = if nat_eq i j then some a else f j

  abbrev pub OnSome : (A → Type 0) → Option A → Type 0
  OnSome P none = Unit
  OnSome P (some a) = P a

  -- All that are there.
  abbrev pub Each : (A → Type 0) → (ℕ → Option A) → Type 0
  Each P f = (i : ℕ) → OnSome P (f i)

  pub put_at-Each :
      (P : A → Type 0) (f : ℕ → Option A) (i : ℕ) (a : A) → P a → Each P f → Each P (put_at f i a)
  put_at-Each P f i a holds each j = ground (arith, each j)

  pub put_at-same : (f : ℕ → Option A) (i : ℕ) (a : A) → put_at f i a i ≡ some a
  put_at-same f i a = ground arith
