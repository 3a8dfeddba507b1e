-- ===== src/Base/Sums.antt =====
-- Counts and sums over the addresses of a heap, the measures of the loops.
use Prim.Native.Nat.{ℕ, zero, suc, ◌+◌, ◌≤◌, ◌<◌}
use mathlib.Core.Path.{◌≡◌}
use mathlib.Core.Bool.{Bool, true, false}
use native.Mathlib.Omega.{arith}
use peso.Base.Tests.{if◌then◌else◌}

-- The number of addresses below `n` that pass the test.
unfoldable pub count_below : (ℕ → Bool) → ℕ → ℕ
count_below p zero = 0
count_below p (suc n) = (if p n then 1 else 0) + count_below p n

-- The sum of `f` over the addresses below `n`.
unfoldable pub sum_below : (ℕ → ℕ) → ℕ → ℕ
sum_below f zero = 0
sum_below f (suc n) = f n + sum_below f n

module _ (p q : ℕ → Bool) (sub : (x : ℕ) → q x ≡ true → p x ≡ true) where
  pub count_below_mono : (n : ℕ) → count_below q n ≤ count_below p n
  unfolding count_below
  count_below_mono zero = omega arith
  count_below_mono (suc n) = ground (arith, sub n, count_below_mono n)

  pub count_below_drop :
      (n x : ℕ) → x < n → p x ≡ true → q x ≡ false → count_below q n < count_below p n
  unfolding count_below
  count_below_drop zero x l e f = absurd (omega arith)
  count_below_drop (suc n) x l e f = ground (arith, sub n, count_below_mono n, count_below_drop n x)

module _ (f g : ℕ → ℕ) (le : (x : ℕ) → g x ≤ f x) where
  pub sum_below_mono : (n : ℕ) → sum_below g n ≤ sum_below f n
  unfolding sum_below
  sum_below_mono zero = omega arith
  sum_below_mono (suc n) = ground (arith, le n, sum_below_mono n)

  pub sum_below_drop : (n x : ℕ) → x < n → g x < f x → sum_below g n < sum_below f n
  unfolding sum_below
  sum_below_drop zero x l e = absurd (omega arith)
  sum_below_drop (suc n) x l e = ground (arith, le n, sum_below_mono n, sum_below_drop n x)
