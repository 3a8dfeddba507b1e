-- ===== src/Stage2/Reap/Ended.antt =====
-- src/stage2.c, `reap`: the table after all the processes that ended.
use peso.Base.{
  subst, ℕ, zero, suc, ◌+◌, ◌-◌, ◌≡◌, ◌≢◌, refl, true, false, not, ◌&&◌, ◌||◌, List, [], ◌∷◌, ◌++◌,
  some, Option-cases, ◌==◌, if◌then◌else◌, arith, Bool-cases, inl, inr, ◌∙◌, sym,
}
use peso.Stage2.{Scanner, sec, Service}
use peso.Stage2.Reap.{
  Wait, wait_failed, ended, find_pid, split_last, swap_remove, drop_ended, reap_one, reap_all, reap,
}
use peso.Stage2.Reap.Holds.{
  Logged, holds, dying, dying-same, Logged-find_pid, reap_one-active, reap_one-inactive,
  reap_one-none, reap_one-holds,
}

Logged-++ : (us vs : List Service) → Logged us → Logged vs → Logged (us ++ vs)
unfolding Logged
Logged-++ [] vs a b = b
Logged-++ (u ∷ us) vs (l, a) b = (l, Logged-++ us vs a b)

Logged-split_last :
    (v : Service) (vs : List Service)
    → Logged (v ∷ vs)
    → Logged ((split_last v vs).1 ∷ (split_last v vs).0)
unfolding Logged split_last
Logged-split_last v [] l = l
Logged-split_last v (w ∷ vs) (l, ls) =
    let (last, others) = Logged-split_last w vs ls in (last, (l, others))

Logged-swap_remove : (us vs : List Service) → Logged us → Logged vs → Logged (swap_remove us vs)
unfolding swap_remove
Logged-swap_remove us [] a b = a
Logged-swap_remove us (v ∷ vs) a b = Logged-++ us _ a (Logged-split_last v vs b)

Logged-found :
    (nextscan r : ℕ) (vs us : List Service) (v : Service) (ws : List Service)
    → Logged vs
    → find_pid nextscan r vs ≡ some (us, v, ws)
    → Logged us × Logged ws
unfolding find_pid Logged
Logged-found nextscan r [] us v ws l e = cc
Logged-found nextscan r (u ∷ vs) us v ws (l, ls) e = elim (Option-cases (find_pid nextscan r vs)) [
  | inl g ↦ ground (arith, e, g, l, ls)
  | inr ((a, b, c), g) ↦ ground (arith, e, g, l, ls, Logged-found nextscan r vs a b c ls g)
]

Logged-cons :
    (v : Service) (ws : List Service)
    → ((v.flaglog ≡ false) → v.log_pid ≡ 0)
    → Logged ws
    → Logged (v ∷ ws)
unfolding Logged
Logged-cons v ws l b = (l, b)

Logged-drop_ended :
    (us : List Service) (v : Service) (ws : List Service)
    → Logged us
    → ((v.flaglog ≡ false) → v.log_pid ≡ 0)
    → Logged ws
    → Logged (drop_ended us v ws)
unfolding drop_ended
Logged-drop_ended us v ws a l b =
    elim (Bool-cases (v.pid == 0 && (not v.flaglog || v.log_pid == 0))) [
      | inl y ↦ rw y (Logged-swap_remove us ws a b)
      | inr y ↦ rw y (Logged-++ us (v ∷ ws) a (Logged-cons v ws l b))
    ]

reap_one-Logged :
    (nextscan r : ℕ) (s : Scanner) → Logged s.services → Logged (reap_one nextscan r s).services
reap_one-Logged nextscan r s l = elim (Option-cases (find_pid nextscan r s.services)) [
  | inl e ↦ subst (λ u. Logged u.services) (sym (reap_one-none nextscan r s e)) l
  | inr ((us, v, ws), e) ↦
      let (a, b) = Logged-found nextscan r s.services us v ws l e in
      let logged = Logged-find_pid nextscan r s.services us v ws l e in
      let (p, q, g) = dying-same v s.flags.wantscan in
      elim (Bool-cases v.flagactive) [
        | inl y ↦
            subst Logged (sym (reap_one-active nextscan r s us v ws e y))
              (Logged-++ us (v ∷ ws) a (Logged-cons v ws logged b))
        | inr y ↦
            subst Logged (sym (reap_one-inactive nextscan r s us v ws e y))
              (Logged-drop_ended us (dying v s.flags.wantscan) ws a (λ z. q ∙ logged (sym g ∙ z)) b)
      ]
]

-- `wait_nohang` has no other error than ECHILD.
unfoldable pub Orderly : List Wait → Type 0
Orderly [] = Unit
Orderly (w ∷ ws) = (w ≢ wait_failed) × Orderly ws

-- How often the process is among those that ended.
unfoldable pub ends : ℕ → List Wait → ℕ
ends x [] = 0
ends x (wait_failed ∷ ws) = 0
ends x (ended zero ∷ ws) = 0
ends x (ended (suc r) ∷ ws) = (if x == suc r then 1 else 0) + ends x ws

reap_all-holds :
    (x nextscan : ℕ) (ws : List Wait) (s : Scanner)
    → x ≢ 0
    → Logged s.services
    → Orderly ws
    → (t : Scanner) × (reap_all nextscan ws s ≡ some t)
      × (holds x t.services ≡ holds x s.services - ends x ws)
unfolding reap_all Orderly ends
reap_all-holds x nextscan [] s n l o = (s, refl, omega arith)
reap_all-holds x nextscan (wait_failed ∷ ws) s n l (o, os) = absurd (o refl)
reap_all-holds x nextscan (ended zero ∷ ws) s n l o = (s, refl, omega arith)
reap_all-holds x nextscan (ended (suc r) ∷ ws) s n l (o, os) =
    let u = reap_one nextscan (suc r) s in
    let (t, e, h) = reap_all-holds x nextscan ws u n (reap_one-Logged nextscan (suc r) s l) os in
    (t, e, omega (arith, h, reap_one-holds x nextscan (suc r) s n l))

-- From a table where no service without a logger has a process for it, when a reaping is wanted
-- and `wait_nohang` has no other error than ECHILD: `reap` returns, and each process stands in
-- the table once less for each time that it ended, as far as it was there, and otherwise as
-- often as before, whatever is closed, restarted or dropped.
pub reap-holds :
    (x now : ℕ) (ws : List Wait) (s : Scanner)
    → x ≢ 0
    → Logged s.services
    → Orderly ws
    → s.flags.wantreap ≡ true
    → (t : Scanner) × (reap now ws s ≡ some t)
      × (holds x t.services ≡ holds x s.services - ends x ws)
unfolding reap
reap-holds x now ws s n l o w =
    let (t, e, h) =
      reap_all-holds x (now + sec) ws (record s { flags = record s.flags { wantreap = false } }) n l
        o in
    (t, ground (arith, w, e), h)
