-- ===== src/Base/Family.antt =====
-- A family of values with a number each: one of them replaced, and a sum over the first of them.
use Prim.Native.Nat.{ℕ, zero, suc, ◌+◌, ◌<◌, ◌≤◌}
use mathlib.Core.Path.{◌≡◌}
use mathlib.Core.Logic.{inl, inr}
use mathlib.Core.Bool.{true, false}
use native.Mathlib.Omega.{arith}
use metrify.Base.Tests.{nat_eq, Bool-cases, if◌then◌else◌}

same : (i n : ℕ) → nat_eq i n ≡ true → i ≡ n
same i n e = ground arith

below : (i n : ℕ) → i < suc n → nat_eq i n ≡ false → i < n
below i n lt e = ground arith

module _ {ℓ} {A : Type ℓ} where
  abbrev pub replace : (ℕ → A) → ℕ → A → ℕ → A
  replace f i a j = if nat_eq i j then a else f j

  pub sum_of : (A → ℕ) → ℕ → (ℕ → A) → ℕ
  sum_of h zero f = 0
  sum_of h (suc n) f = h (f n) + sum_of h n f

  sum_of-replace_above :
      (h : A → ℕ) (n : ℕ) (f : ℕ → A) (i : ℕ) (a : A)
      → n < suc i
      → sum_of h n (replace f i a) ≡ sum_of h n f
  unfolding sum_of
  sum_of-replace_above h zero f i a above = omega arith
  sum_of-replace_above h (suc n) f i a above = ground (arith, sum_of-replace_above h n f i a)

  pub sum_of-replace :
      (h : A → ℕ) (n : ℕ) (f : ℕ → A) (i : ℕ) (a : A)
      → i < n
      → sum_of h n (replace f i a) + h (f i) ≡ sum_of h n f + h a
  unfolding sum_of
  sum_of-replace h zero f i a lt = absurd (omega arith)
  sum_of-replace h (suc n) f i a lt =
      ground (arith, sum_of-replace h n f i a, sum_of-replace_above h n f i a)

  pub sum_of-zero : (h : A → ℕ) (n : ℕ) (a : A) → h a ≡ 0 → sum_of h n (λ i. a) ≡ 0
  unfolding sum_of
  sum_of-zero h zero a none_there = omega arith
  sum_of-zero h (suc n) a none_there = omega (arith, none_there, sum_of-zero h n a none_there)

  pub sum_of-le : (h : A → ℕ) (n : ℕ) (f : ℕ → A) (i : ℕ) → i < n → h (f i) ≤ sum_of h n f
  unfolding sum_of
  sum_of-le h zero f i lt = absurd (omega arith)
  sum_of-le h (suc n) f i lt = elim (Bool-cases (nat_eq i n)) [
    | inl e ↦ rw (same i n e) (omega arith)
    | inr e ↦ omega (arith, sum_of-le h n f i (below i n lt e))
  ]
