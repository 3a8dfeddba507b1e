-- ===== src/Stage2/Reap/Sums.antt =====
-- src/stage2.c, `reap`: sums over the table.
use peso.Base.{
  ℕ, ◌+◌, ◌≤◌, ◌≡◌, ◌⊎◌, refl, Bool, List, [], ◌∷◌, some, ◌==◌, ◌&&◌, ◌||◌, not, if◌then◌else◌,
  arith, Bool-cases, Option-cases, inl, inr, ◌∙◌, ap,
}
use peso.Stage2.{Service, Scanner, Pipe, open_pipe, closed, reopened}
use peso.Stage2.Table.{total, total-++, total-split_last}
use peso.Stage2.Reap.{find_pid, split_last, swap_remove, close_pipe, drop_ended, reap_one}
use peso.Stage2.Reap.Holds.{dying, reap_one-active, reap_one-inactive, reap_one-none}
use peso.Stage2.Scan.Slots.{named}

-- The sum does not see what `reap` changes in a service.
pub record Blind (f : Service → ℕ) : Type 0 where
  pub pid : (v : Service) (t : ℕ) → f (record v { pid = 0; restartafter = t }) ≡ f v
  pub log_pid : (v : Service) (t : ℕ) → f (record v { log_pid = 0; log_restartafter = t }) ≡ f v
  pub pipe : (v : Service) (p : Pipe) → f (record v { pipe = p }) ≡ f v

pub one-Blind : Blind (λ v. 1)
one-Blind = record { pid = λ v t. refl; log_pid = λ v t. refl; pipe = λ v p. refl }

pub named-Blind : (dev ino : ℕ) → Blind (named dev ino)
unfolding named
named-Blind dev ino = record { pid = λ v t. refl; log_pid = λ v t. refl; pipe = λ v p. refl }

pub dying_cases :
    (v : Service) (scan : Bool) → (dying v scan ≡ (close_pipe v.pipe v scan).0) ⊎ (dying v scan ≡ v)
unfolding dying
dying_cases v scan =
    let choose =
      λ (b : Bool). let o : Service = (if b then close_pipe v.pipe v scan else (v, scan)).0 in o in
    elim (Bool-cases v.flaglog) [ inl y ↦ inl (ap choose y) | inr y ↦ inr (ap choose y) ]

module _ (f : Service → ℕ) (b : Blind f) where
  pub total-find_pid :
      (nextscan r : ℕ) (vs us : List Service) (v : Service) (ws : List Service)
      → find_pid nextscan r vs ≡ some (us, v, ws)
      → total f us + (f v + total f ws) ≡ total f vs
  unfolding find_pid total
  total-find_pid nextscan r [] us v ws e = cc
  total-find_pid nextscan r (u ∷ vs) us v ws e = elim (Bool-cases (u.pid == r)) [
    | inl y ↦ ground (arith, e, y, b.pid u nextscan)
    | inr y ↦ elim (Bool-cases (u.log_pid == r)) [
      | inl z ↦ ground (arith, e, y, z, b.log_pid u nextscan)
      | inr z ↦ elim (Option-cases (find_pid nextscan r vs)) [
        | inl g ↦ ground (arith, e, y, z, g)
        | inr ((x, w, c), g) ↦ ground (arith, e, y, z, g, total-find_pid nextscan r vs x w c g)
      ]
    ]
  ]

  pub close_pipe-total : (p : Pipe) (v : Service) (scan : Bool) → f (close_pipe p v scan).0 ≡ f v
  unfolding close_pipe
  close_pipe-total (open_pipe x y) v scan = b.pipe v closed
  close_pipe-total closed v scan = refl
  close_pipe-total reopened v scan = refl

  pub dying-total : (v : Service) (scan : Bool) → f (dying v scan) ≡ f v
  dying-total v scan = elim (dying_cases v scan) [
    | inl y ↦ ap f y ∙ close_pipe-total v.pipe v scan
    | inr y ↦ ap f y
  ]

  pub swap_remove-total-le :
      (us vs : List Service) → total f (swap_remove us vs) ≤ total f us + total f vs
  unfolding swap_remove total
  swap_remove-total-le us [] = omega arith
  swap_remove-total-le us (v ∷ vs) =
      omega
        (arith, total-split_last f v vs, total-++ f us ((split_last v vs).1 ∷ (split_last v vs).0))

  pub drop_ended-total-le :
      (us : List Service) (v : Service) (ws : List Service)
      → total f (drop_ended us v ws) ≤ total f us + (f v + total f ws)
  unfolding drop_ended total
  drop_ended-total-le us v ws =
      elim (Bool-cases (v.pid == 0 && (not v.flaglog || v.log_pid == 0))) [
        | inl y ↦ rw y (omega (arith, swap_remove-total-le us ws))
        | inr y ↦ rw y (omega (arith, total-++ f us (v ∷ ws)))
      ]

  pub reap_one-total-le :
      (nextscan r : ℕ) (s : Scanner) → total f (reap_one nextscan r s).services ≤ total f s.services
  unfolding total
  reap_one-total-le nextscan r s = elim (Option-cases (find_pid nextscan r s.services)) [
    | inl e ↦ omega (arith, ap (λ t. total f t.services) (reap_one-none nextscan r s e))
    | inr ((us, v, ws), e) ↦
        let sum = total-find_pid nextscan r s.services us v ws e in
        elim (Bool-cases v.flagactive) [
          | inl y ↦ omega (
            arith,
            sum,
            ap (total f) (reap_one-active nextscan r s us v ws e y),
            total-++ f us (v ∷ ws),
          )
          | inr y ↦ omega (
            arith,
            sum,
            ap (total f) (reap_one-inactive nextscan r s us v ws e y),
            drop_ended-total-le us (dying v s.flags.wantscan) ws,
            dying-total v s.flags.wantscan,
          )
        ]
  ]

-- The services around the one that was found, and a predicate that carries over to it.
