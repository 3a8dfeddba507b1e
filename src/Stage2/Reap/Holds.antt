-- ===== src/Stage2/Reap/Holds.antt =====
-- src/stage2.c, `reap`: how often a process stands in the table, when one process ended.
use peso.Base.{
  ℕ, ◌+◌, ◌-◌, ◌≡◌, ◌≢◌, refl, Bool, true, false, List, [], ◌∷◌, ◌++◌, none, some, Option-cases,
  ◌==◌, if◌then◌else◌, arith, Bool-cases, inl, inr, ◌∙◌, ap, sym,
}
use peso.Stage2.{Scanner, Service, Pipe, open_pipe, closed, reopened}
use peso.Stage2.Reap.{find_pid, split_last, swap_remove, close_pipe, drop_ended, reap_one}

-- A service without a logger has no process for it.
unfoldable pub Logged : List Service → Type 0
Logged [] = Unit
Logged (v ∷ vs) = ((v.flaglog ≡ false) → v.log_pid ≡ 0) × Logged vs

-- How often a process is in the table.
unfoldable pub holds : ℕ → List Service → ℕ
holds x [] = 0
holds x (v ∷ vs) = (if v.pid == x then 1 else 0) + ((if v.log_pid == x then 1 else 0) + holds x vs)

pub holds-++ : (x : ℕ) (us vs : List Service) → holds x (us ++ vs) ≡ holds x us + holds x vs
unfolding holds
holds-++ x [] vs = omega arith
holds-++ x (u ∷ us) vs = omega (arith, holds-++ x us vs)

holds-split_last :
    (x : ℕ) (v : Service) (vs : List Service)
    → holds x ((split_last v vs).1 ∷ (split_last v vs).0) ≡ holds x (v ∷ vs)
unfolding split_last holds
holds-split_last x v [] = refl
holds-split_last x v (w ∷ vs) = omega (arith, holds-split_last x w vs)

holds_nil : (x : ℕ) → holds x [] ≡ 0
unfolding holds
holds_nil x = refl

holds-swap_remove :
    (x : ℕ) (us vs : List Service) → holds x (swap_remove us vs) ≡ holds x us + holds x vs
unfolding swap_remove
holds-swap_remove x us [] = omega (arith, holds_nil x)
holds-swap_remove x us (v ∷ vs) =
    holds-++ x us ((split_last v vs).1 ∷ (split_last v vs).0)
    ∙ ap (λ n. holds x us + n) (holds-split_last x v vs)

holds-find_pid :
    (x nextscan r : ℕ) (vs us : List Service) (v : Service) (ws : List Service)
    → x ≢ 0
    → find_pid nextscan r vs ≡ some (us, v, ws)
    → holds x us + holds x (v ∷ ws) + (if x == r then 1 else 0) ≡ holds x vs
unfolding find_pid holds
holds-find_pid x nextscan r [] us v ws n e = cc
holds-find_pid x nextscan r (u ∷ vs) us v ws n e = elim (Bool-cases (u.pid == r)) [
  | inl y ↦ ground (arith, e, y, n)
  | inr y ↦ elim (Bool-cases (u.log_pid == r)) [
    | inl z ↦ ground (arith, e, y, z, n)
    | inr z ↦ elim (Option-cases (find_pid nextscan r vs)) [
      | inl g ↦ ground (arith, e, y, z, g)
      | inr ((a, b, c), g) ↦ ground (arith, e, y, z, g, holds-find_pid x nextscan r vs a b c n g)
    ]
  ]
]

pub holds-missing :
    (nextscan r : ℕ) (vs : List Service) → find_pid nextscan r vs ≡ none → holds r vs ≡ 0
unfolding find_pid holds
holds-missing nextscan r [] e = refl
holds-missing nextscan r (u ∷ vs) e = elim (Option-cases (find_pid nextscan r vs)) [
  | inl g ↦ ground (arith, e, g, holds-missing nextscan r vs g)
  | inr ((a, b, c), g) ↦ ground (arith, e, g)
]

pub Logged-find_pid :
    (nextscan r : ℕ) (vs us : List Service) (v : Service) (ws : List Service)
    → Logged vs
    → find_pid nextscan r vs ≡ some (us, v, ws)
    → v.flaglog ≡ false
    → v.log_pid ≡ 0
unfolding find_pid Logged
Logged-find_pid nextscan r [] us v ws l e = cc
Logged-find_pid nextscan r (u ∷ vs) us v ws (l, ls) e =
    elim (Option-cases (find_pid nextscan r vs)) [
      | inl g ↦ ground (arith, e, g, l)
      | inr ((a, b, c), g) ↦ ground (arith, e, g, l, Logged-find_pid nextscan r vs a b c ls g)
    ]

-- The pipe is closed without a change of the processes.
close_pipe-same :
    (p : Pipe) (v : Service) (scan : Bool)
    → ((close_pipe p v scan).0.pid ≡ v.pid)
      × ((close_pipe p v scan).0.log_pid ≡ v.log_pid)
      × ((close_pipe p v scan).0.flaglog ≡ v.flaglog)
unfolding close_pipe
close_pipe-same (open_pipe a b) v scan = (refl, refl, refl)
close_pipe-same closed v scan = (refl, refl, refl)
close_pipe-same reopened v scan = (refl, refl, refl)

holds-same :
    (x : ℕ) (v w : Service) (ws : List Service)
    → w.pid ≡ v.pid
    → w.log_pid ≡ v.log_pid
    → holds x (w ∷ ws) ≡ holds x (v ∷ ws)
unfolding holds
holds-same x v w ws p q = rw (p, q)

-- What `reap_one` does with the table, by the flags of the service that was found.
pub reap_one-active :
    (nextscan r : ℕ) (s : Scanner) (us : List Service) (v : Service) (ws : List Service)
    → find_pid nextscan r s.services ≡ some (us, v, ws)
    → v.flagactive ≡ true
    → (reap_one nextscan r s).services ≡ us ++ v ∷ ws
unfolding reap_one
reap_one-active nextscan r s us v ws e y = ground (arith, e, y)

pub reap_one-none :
    (nextscan r : ℕ) (s : Scanner)
    → find_pid nextscan r s.services ≡ none
    → reap_one nextscan r s ≡ s
unfolding reap_one
reap_one-none nextscan r s e = ground (arith, e)

-- The service behind the closing of the pipe.
unfoldable pub dying : Service → Bool → Service
unfolding close_pipe
dying v scan = (if v.flaglog then close_pipe v.pipe v scan else (v, scan)).0

pub reap_one-inactive :
    (nextscan r : ℕ) (s : Scanner) (us : List Service) (v : Service) (ws : List Service)
    → find_pid nextscan r s.services ≡ some (us, v, ws)
    → v.flagactive ≡ false
    → (reap_one nextscan r s).services ≡ drop_ended us (dying v s.flags.wantscan) ws
unfolding reap_one dying
reap_one-inactive nextscan r s us v ws e y = rw (e, y, reap_one) refl

pub dying-same :
    (v : Service) (scan : Bool)
    → ((dying v scan).pid ≡ v.pid)
      × ((dying v scan).log_pid ≡ v.log_pid)
      × ((dying v scan).flaglog ≡ v.flaglog)
unfolding dying
dying-same v scan = elim (Bool-cases v.flaglog) [
  | inl y ↦ ground (arith, y, close_pipe-same v.pipe v scan)
  | inr y ↦ ground (arith, y)
]

holds-drop_ended :
    (x : ℕ) (us : List Service) (v : Service) (ws : List Service)
    → x ≢ 0
    → ((v.flaglog ≡ false) → v.log_pid ≡ 0)
    → holds x (drop_ended us v ws) ≡ holds x us + holds x (v ∷ ws)
unfolding drop_ended holds
holds-drop_ended x us v ws n l =
    ground (arith, n, l, holds-swap_remove x us ws, holds-++ x us (v ∷ ws))

-- One process that ended.
pub reap_one-holds :
    (x nextscan r : ℕ) (s : Scanner)
    → x ≢ 0
    → Logged s.services
    → holds x (reap_one nextscan r s).services ≡ holds x s.services - (if x == r then 1 else 0)
unfolding reap_one
reap_one-holds x nextscan r s n l = elim (Option-cases (find_pid nextscan r s.services)) [
  | inl e ↦ ground (arith, e, holds-missing nextscan r s.services e)
  | inr ((us, v, ws), e) ↦
      let sum = holds-find_pid x nextscan r s.services us v ws n e in
      let logged = Logged-find_pid nextscan r s.services us v ws l e in
      let w = dying v s.flags.wantscan in
      let (p, q, g) = dying-same v s.flags.wantscan in
      elim (Bool-cases v.flagactive) [
        | inl y ↦
            let o : holds x (reap_one nextscan r s).services ≡ holds x us + holds x (v ∷ ws) =
              ap (holds x) (reap_one-active nextscan r s us v ws e y) ∙ holds-++ x us (v ∷ ws) in
            omega (arith, o, sum)
        | inr y ↦
            let o : holds x (reap_one nextscan r s).services ≡ holds x us + holds x (w ∷ ws) =
              ap (holds x) (reap_one-inactive nextscan r s us v ws e y)
              ∙ holds-drop_ended x us w ws n (λ z. q ∙ logged (sym g ∙ z)) in
            omega (arith, o, sum, holds-same x v w ws p q)
      ]
]
