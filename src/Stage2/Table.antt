-- ===== src/Stage2/Table.antt =====
-- src/stage2.c: sums and predicates over the services, and what the loops that take services out of
-- the table do to them.
use peso.Base.{
  ℕ, zero, suc, ◌+◌, ◌≤◌, ◌≡◌, refl, false, List, [], ◌∷◌, ◌++◌, some, arith, Bool-cases,
  Option-cases, inl, inr, length,
}
use peso.Stage2.{Service}
use peso.Stage2.Reap.{split_last, swap_remove}
use peso.Stage2.Scan.{find_id, is_gone, sweep, deactivate}

-- The sum of `f` over the services.
unfoldable pub total : (Service → ℕ) → List Service → ℕ
total f [] = 0
total f (v ∷ vs) = f v + total f vs

-- The predicate holds of every service.
unfoldable pub All : (Service → Type 0) → List Service → Type 0
All P [] = Unit
All P (v ∷ vs) = P v × All P vs

pub length-total : (vs : List Service) → length vs ≡ total (λ v. 1) vs
unfolding total
length-total [] = refl
length-total (v ∷ vs) = omega (arith, length-total vs)

module _ (f : Service → ℕ) where
  pub total-++ : (us vs : List Service) → total f (us ++ vs) ≡ total f us + total f vs
  unfolding total
  total-++ [] vs = omega arith
  total-++ (u ∷ us) vs = omega (arith, total-++ us vs)

  pub total-split_last :
      (v : Service) (vs : List Service)
      → f (split_last v vs).1 + total f (split_last v vs).0 ≡ f v + total f vs
  unfolding split_last total
  total-split_last v [] = refl
  total-split_last v (w ∷ vs) = omega (arith, total-split_last w vs)

  pub total-find_id :
      (dev ino : ℕ) (vs us : List Service) (v : Service) (ws : List Service)
      → find_id dev ino vs ≡ some (us, v, ws)
      → total f us + (f v + total f ws) ≡ total f vs
  unfolding find_id total
  total-find_id dev ino [] us v ws e = cc
  total-find_id dev ino (u ∷ vs) us v ws e = elim (Option-cases (find_id dev ino vs)) [
    | inl g ↦ ground (arith, e, g)
    | inr ((a, b, c), g) ↦ ground (arith, e, g, total-find_id dev ino vs a b c g)
  ]

  pub total-deactivate :
      ((v : Service) → f (record v { flagactive = false }) ≡ f v)
      → (vs : List Service) → total f (deactivate vs) ≡ total f vs
  unfolding deactivate total
  total-deactivate e [] = refl
  total-deactivate e (v ∷ vs) = omega (arith, e v, total-deactivate e vs)

  -- The last loop of `scan` adds nothing.
  pub total-sweep-le : (n : ℕ) (vs : List Service) → total f (sweep n vs) ≤ total f vs
  unfolding sweep total
  total-sweep-le zero [] = omega arith
  total-sweep-le (suc n) [] = omega arith
  total-sweep-le zero (v ∷ vs) = omega arith
  total-sweep-le (suc n) (v ∷ []) = ground arith
  total-sweep-le (suc n) (v ∷ w ∷ vs) = elim (Bool-cases (is_gone v)) [
    | inl y ↦ ground (arith, y, total-split_last w vs, total-sweep-le n (split_last w vs).0)
    | inr y ↦ ground (arith, y, total-sweep-le n (w ∷ vs))
  ]

module _ (P : Service → Type 0) where
  pub All-++ : (us vs : List Service) → All P us → All P vs → All P (us ++ vs)
  unfolding All
  All-++ [] vs a b = b
  All-++ (u ∷ us) vs (p, a) b = (p, All-++ us vs a b)

  pub All-split_last :
      (v : Service) (vs : List Service)
      → P v
      → All P vs
      → P (split_last v vs).1 × All P (split_last v vs).0
  unfolding split_last All
  All-split_last v [] p a = (p, a)
  All-split_last v (w ∷ vs) p (q, a) = let (l, o) = All-split_last w vs q a in (l, (p, o))

  pub All-swap_remove : (us vs : List Service) → All P us → All P vs → All P (swap_remove us vs)
  unfolding swap_remove All
  All-swap_remove us [] a b = a
  All-swap_remove us (v ∷ vs) a (p, b) = All-++ us _ a (All-split_last v vs p b)

  pub All-find_id :
      (dev ino : ℕ) (vs us : List Service) (v : Service) (ws : List Service)
      → All P vs
      → find_id dev ino vs ≡ some (us, v, ws)
      → All P us × P v × All P ws
  unfolding find_id All
  All-find_id dev ino [] us v ws a e = cc
  All-find_id dev ino (u ∷ vs) us v ws (p, a) e = elim (Option-cases (find_id dev ino vs)) [
    | inl g ↦ ground (arith, e, g, p, a)
    | inr ((x, b, c), g) ↦ ground (arith, e, g, p, a, All-find_id dev ino vs x b c a g)
  ]

  pub All-sweep : (n : ℕ) (vs : List Service) → All P vs → All P (sweep n vs)
  unfolding sweep All
  All-sweep zero [] a = tt
  All-sweep (suc n) [] a = tt
  All-sweep zero (v ∷ vs) a = a
  All-sweep (suc n) (v ∷ []) (p, a) = ground (arith, p)
  All-sweep (suc n) (v ∷ w ∷ vs) (p, (q, a)) = elim (Bool-cases (is_gone v)) [
    | inl y ↦ let (l, o) = All-split_last w vs q a in rw y (l, All-sweep n (split_last w vs).0 o)
    | inr y ↦ rw y (p, All-sweep n (w ∷ vs) (q, a))
  ]

pub All-map :
    (P Q : Service → Type 0)
    → ((v : Service) → P v → Q v)
    → (vs : List Service) → All P vs
    → All Q vs
unfolding All
All-map P Q h [] a = tt
All-map P Q h (v ∷ vs) (p, a) = (h v p, All-map P Q h vs a)

pub All-deactivate :
    (P Q : Service → Type 0)
    → ((v : Service) → P v → Q (record v { flagactive = false }))
    → (vs : List Service) → All P vs
    → All Q (deactivate vs)
unfolding All deactivate
All-deactivate P Q h [] a = tt
All-deactivate P Q h (v ∷ vs) (p, a) = (h v p, All-deactivate P Q h vs a)
