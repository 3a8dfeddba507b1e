-- ===== src/Stage2/Reap/Sleeps.antt =====
-- src/stage2.c, `reap`: what it keeps of the restart times.
use peso.Base.{
  ℕ, zero, suc, ◌+◌, ◌≡◌, refl, Bool, true, false, List, [], ◌∷◌, some, ltb, if◌then◌else◌, arith,
  Bool-cases, Option-cases, some-inj, inl, inr, ◌∙◌, ap, sym, subst,
}
use peso.Stage2.{Service, Scanner, sec, Pipe, open_pipe, closed, reopened}
use peso.Stage2.Table.{All, All-++, All-map}
use peso.Stage2.Scan.Waits.{Waits, Awake, Waits-le}
use peso.Stage2.Reap.{Wait, wait_failed, ended, find_pid, close_pipe, reap_one, reap_all, reap}
use peso.Stage2.Reap.Holds.{dying, reap_one-active, reap_one-inactive, reap_one-none}
use peso.Stage2.Reap.Keeps.{All-drop_ended, All-find_pid}
use peso.Stage2.Reap.Sums.{dying_cases}

lowered : ℕ → Scanner → ℕ
lowered nextscan s = if ltb nextscan s.deadline then nextscan else s.deadline

reap_one-deadline :
    (nextscan r : ℕ) (s : Scanner) (us : List Service) (v : Service) (ws : List Service)
    → find_pid nextscan r s.services ≡ some (us, v, ws)
    → (v.flagactive ≡ true → (reap_one nextscan r s).deadline ≡ lowered nextscan s)
      × (v.flagactive ≡ false → (reap_one nextscan r s).deadline ≡ s.deadline)
unfolding reap_one lowered
reap_one-deadline nextscan r s us v ws e = (λ y. ground (arith, e, y), λ y. ground (arith, e, y))

inactive-Waits : (deadline : ℕ) (v : Service) → v.flagactive ≡ false → Waits deadline v
unfolding Waits
inactive-Waits deadline v i a = cc

close_pipe-flagactive :
    (p : Pipe) (v : Service) (scan : Bool) → (close_pipe p v scan).0.flagactive ≡ v.flagactive
unfolding close_pipe
close_pipe-flagactive (open_pipe x y) v scan = refl
close_pipe-flagactive closed v scan = refl
close_pipe-flagactive reopened v scan = refl

dying-flagactive : (v : Service) (scan : Bool) → (dying v scan).flagactive ≡ v.flagactive
dying-flagactive v scan = elim (dying_cases v scan) [
  | inl y ↦ ap (λ w. w.flagactive) y ∙ close_pipe-flagactive v.pipe v scan
  | inr y ↦ ap (λ w. w.flagactive) y
]

reap_one-Awake : (nextscan r : ℕ) (s : Scanner) → Awake s → Awake (reap_one nextscan r s)
unfolding All Waits lowered
reap_one-Awake nextscan r s a = elim (Option-cases (find_pid nextscan r s.services)) [
  | inl e ↦ subst Awake (sym (reap_one-none nextscan r s e)) a
  | inr ((us, v, ws), e) ↦
      let P = Waits s.deadline in
      let Q = Waits (lowered nextscan s) in
      let narrow = Waits-le s.deadline (lowered nextscan s) (ground arith) in
      let (l, q, o) =
        All-find_pid P Q nextscan r
          (λ u w h. (λ z. ground arith, λ g z. ground (arith, (w h).1 g z)))
          (λ u w h. (λ z. ground (arith, (w h).0 z), λ g z. ground arith)) s.services us v ws a e in
      elim (Bool-cases v.flagactive) [
        | inl y ↦
            subst (λ d. All (Waits d) (reap_one nextscan r s).services)
              (sym ((reap_one-deadline nextscan r s us v ws e).0 y))
              (subst (All Q) (sym (reap_one-active nextscan r s us v ws e y))
                (All-++ Q us (v ∷ ws) (All-map P Q narrow us l) (q, All-map P Q narrow ws o)))
        | inr y ↦
            let w = dying v s.flags.wantscan in
            subst (λ d. All (Waits d) (reap_one nextscan r s).services)
              (sym ((reap_one-deadline nextscan r s us v ws e).1 y))
              (subst (All P) (sym (reap_one-inactive nextscan r s us v ws e y)) (
                All-drop_ended P us w ws l
                  (inactive-Waits s.deadline w (dying-flagactive v s.flags.wantscan ∙ y)) o))
      ]
]

reap_all-Awake :
    (nextscan : ℕ) (ws : List Wait) (s t : Scanner)
    → Awake s
    → reap_all nextscan ws s ≡ some t
    → Awake t
unfolding reap_all
reap_all-Awake nextscan [] s t b e = subst Awake (some-inj e) b
reap_all-Awake nextscan (wait_failed ∷ ws) s t b e = cc
reap_all-Awake nextscan (ended zero ∷ ws) s t b e = subst Awake (some-inj e) b
reap_all-Awake nextscan (ended (suc r) ∷ ws) s t b e =
    reap_all-Awake nextscan ws (reap_one nextscan (suc r) s) t (reap_one-Awake nextscan (suc r) s b)
      e

pub reap-Awake :
    (now : ℕ) (ws : List Wait) (s t : Scanner) → Awake s → reap now ws s ≡ some t → Awake t
unfolding reap
reap-Awake now ws s t b e = elim (Bool-cases s.flags.wantreap) [
  | inl y ↦
      let u : Scanner = record s { flags = record s.flags { wantreap = false } } in
      reap_all-Awake (now + sec) ws u t b (ground (arith, y, e))
  | inr y ↦ ground (arith, y, e, b)
]
