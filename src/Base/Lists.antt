-- ===== src/Base/Lists.antt =====
-- Lists of native numbers: membership as a test, counting, lengths, and stores with one cell
-- replaced.
use Prim.Native.Nat.{ℕ, zero, suc, ◌<◌}
use mathlib.Core.Path.{◌≡◌, refl, ap}
use mathlib.Core.Logic.{◌⊎◌, inl, inr}
use mathlib.Core.Bool.{Bool, true, false, ◌&&◌, ◌||◌}
use mathlib.Core.List.{List, [], ◌∷◌, ◌++◌}
use Prim.Native.Char.{code}
use Prim.Native.String.{String}
use native.Mathlib.Omega.{arith}
use peso.Base.Tests.{◌==◌, if◌then◌else◌}

module _ {ℓ} {A : Type ℓ} where
  abbrev pub length : List A → ℕ
  length [] = 0
  length (x ∷ xs) = suc (length xs)

  -- The store `f` after a write of `v` at address `a`.
  abbrev pub update : (ℕ → A) → ℕ → A → ℕ → A
  update f a v b = if b == a then v else f b

abbrev pub has : ℕ → List ℕ → Bool
has a [] = false
has a (x ∷ xs) = (a == x) || has a xs

infix 40 ◌∈◌
abbrev pub ◌∈◌ : ℕ → List ℕ → Type 0
a ∈ xs = has a xs ≡ true

abbrev pub count : ℕ → List ℕ → ℕ
count a [] = 0
count a (x ∷ xs) = if a == x then suc (count a xs) else count a xs

-- Every element occurs once.
abbrev pub Distinct : List ℕ → Type 0
Distinct [] = Unit
Distinct (x ∷ xs) = (has x xs ≡ false) × Distinct xs

-- `strcmp ( a, b ) == 0`
unfoldable pub str_eq : List ℕ → List ℕ → Bool
str_eq [] [] = true
str_eq [] (y ∷ ys) = false
str_eq (x ∷ xs) [] = false
str_eq (x ∷ xs) (y ∷ ys) = x == y && str_eq xs ys

-- `strncmp ( p, s, strlen ( p ) ) == 0`
unfoldable pub starts_with : List ℕ → List ℕ → Bool
starts_with [] s = true
starts_with (c ∷ p) [] = false
starts_with (c ∷ p) (d ∷ s) = c == d && starts_with p s

abbrev pub drop {ℓ} : {A : Type ℓ} → ℕ → List A → List A
drop zero xs = xs
drop (suc n) [] = []
drop (suc n) (x ∷ xs) = drop n xs

pub length-pos : (a : ℕ) (xs : List ℕ) → a ∈ xs → 0 < length xs
length-pos a [] m = cc
length-pos a (x ∷ xs) m = omega arith

pub nil-or-has : (xs : List ℕ) → (xs ≡ []) ⊎ ((a : ℕ) × (a ∈ xs))
nil-or-has [] = inl refl
nil-or-has (x ∷ xs) = inr (x, ground arith)

pub has-count : (a : ℕ) (xs : List ℕ) → 0 < count a xs → a ∈ xs
has-count a [] h = absurd (omega arith)
has-count a (x ∷ xs) h = ground (arith, has-count a xs)

pub count-has : (a : ℕ) (xs : List ℕ) → a ∈ xs → 0 < count a xs
count-has a [] h = cc
count-has a (x ∷ xs) h = ground (arith, count-has a xs)

-- The bytes of an ASCII text.
abbrev pub codes : String → List ℕ
codes String.[] = []
codes (String.◌∷◌ c s) = code c ∷ codes s

pub str_eq-eq : (xs ys : List ℕ) → str_eq xs ys ≡ true → xs ≡ ys
unfolding str_eq
str_eq-eq [] [] e = refl
str_eq-eq [] (y ∷ ys) e = cc
str_eq-eq (x ∷ xs) [] e = cc
str_eq-eq (x ∷ xs) (y ∷ ys) e = ground (arith, str_eq-eq xs ys)

pub ++-assoc {ℓ} : {A : Type ℓ} (xs ys zs : List A) → (xs ++ ys) ++ zs ≡ xs ++ (ys ++ zs)
++-assoc [] ys zs = refl
++-assoc (x ∷ xs) ys zs = ap (λ l. x ∷ l) (++-assoc xs ys zs)

pub ++-nil {ℓ} : {A : Type ℓ} (xs : List A) → xs ++ [] ≡ xs
++-nil [] = refl
++-nil (x ∷ xs) = ap (λ l. x ∷ l) (++-nil xs)
