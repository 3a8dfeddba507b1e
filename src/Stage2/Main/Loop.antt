-- ===== src/Stage2/Main/Loop.antt =====
-- src/stage2.c, `main`: what the reaping, the scanning and a change of the flags keep, the loop keeps.
use peso.Base.{
  ℕ, ◌≡◌, Bool, true, false, List, [], ◌∷◌, Option, none, some, arith, Bool-cases, Option-cases,
  some-inj, if_both, inl, inr, ltb, not, ◌&&◌, ◌||◌, ◌==◌, ◌⊎◌, subst,
}
use peso.Stage2.{Flags, Scanner}
use peso.Stage2.Control.{Sig, Read, handle_signals, handle_diverted_signals, handle_control}
use peso.Stage2.Reap.{Wait, reap}
use peso.Stage2.Scan.{Dir, scan}
use peso.Stage2.Main.{
  Poll, poll_failed, timeout, except, ready, Round, Run, kill_step, work, on_signals, on_control,
  on_poll, round, loop, Result, exits, crashes, looping, finishes, finish_phase, loop_and_finish,
  Start, init_fails, first_run, run_settings, main,
}
use peso.Stage2.Options.{Settings, Switch, settings, take_switches}

-- The predicate holds of the globals when the program is in the loop, and when it executes
-- FINISH_PROG.
unfoldable pub Ends : (Run → Type 0) → Result → Type 0
Ends P (exits code) = Unit
Ends P crashes = Unit
Ends P (looping x) = P x
Ends P (finishes f x) = P x

-- The predicate holds of the directory in every round.
unfoldable pub Dirs : (Dir → Type 0) → List Round → Type 0
Dirs Q [] = Unit
Dirs Q (r ∷ rs) = Q r.dir × Dirs Q rs

-- A predicate on the globals that `reap`, `scan` of such a directory and the handlers keep.
pub record Kept (Q : Dir → Type 0) (P : Scanner → Type 0) : Type 0 where
  pub reaps : (now : ℕ) (ws : List Wait) (s t : Scanner) → P s → reap now ws s ≡ some t → P t
  pub scans : (now : ℕ) (d : Dir) (s : Scanner) → Q d → P s → P (scan now d s)
  pub sets : (s : Scanner) (fs : Flags) → P s → P (record s { flags = fs })

module _ (Q : Dir → Type 0) (P : Scanner → Type 0) (k : Kept Q P) where
  kill_step-kept : (x : Run) → P x.scanner → P (kill_step x).scanner
  unfolding kill_step
  kill_step-kept x p = k.sets x.scanner (kill_step x).scanner.flags p

  work-kept : (r : Round) (x y : Run) → Q r.dir → P x.scanner → work r x ≡ some y → P y.scanner
  unfolding work
  work-kept r x y o p e = elim (Option-cases (reap r.now r.waits x.scanner)) [
    | inl g ↦ ground (arith, e, g)
    | inr (s, g) ↦
        let u : Run = record x { scanner = scan r.now r.dir s } in
        let same : kill_step u ≡ y = ground (arith, e, g) in
        subst (λ (o : Run). P o.scanner) same
          (kill_step-kept u (k.scans r.now r.dir s o (k.reaps r.now r.waits x.scanner s p g)))
  ]

  on_signals-kept :
      (d : Bool) (is : Option (List Sig)) (x y : Run)
      → P x.scanner
      → on_signals d is x ≡ some y
      → P y.scanner
  unfolding on_signals
  on_signals-kept d none x y p e = subst (λ (o : Run). P o.scanner) (some-inj e) p
  on_signals-kept false (some is) x y p e =
      elim (Option-cases (handle_signals is x.scanner.flags)) [
        | inl g ↦ ground (arith, e, g)
        | inr (fs, g) ↦
            let u : Run = record x { scanner = record x.scanner { flags = fs } } in
            let same : u ≡ y = ground (arith, e, g) in
            subst (λ (o : Run). P o.scanner) same (k.sets x.scanner fs p)
      ]
  on_signals-kept true (some is) x y p e =
      elim (Option-cases (handle_diverted_signals is x.scanner.flags)) [
        | inl g ↦ ground (arith, e, g)
        | inr ((fs, spawned), g) ↦
            let same : record x.scanner { flags = fs } ≡ y.scanner = ground (arith, e, g) in
            subst P same (k.sets x.scanner fs p)
      ]

  on_control-kept :
      (rs : Option (List Read)) (x y : Run) → P x.scanner → on_control rs x ≡ some y → P y.scanner
  unfolding on_control
  on_control-kept none x y p e = subst (λ (o : Run). P o.scanner) (some-inj e) p
  on_control-kept (some rs) x y p e = elim (Option-cases (handle_control rs x.scanner.flags)) [
    | inl g ↦ ground (arith, e, g)
    | inr ((fs, left), g) ↦
        let same : record x.scanner { flags = fs } ≡ y.scanner = ground (arith, e, g) in
        subst P same (k.sets x.scanner fs p)
  ]

  on_poll-kept :
      (d : Bool) (o : Poll) (x y : Run) → P x.scanner → on_poll d o x ≡ some y → P y.scanner
  unfolding on_poll
  on_poll-kept d poll_failed x y p e = cc
  on_poll-kept d timeout x y p e =
      subst (λ (o : Run). P o.scanner) (some-inj e) (k.sets x.scanner _ p)
  on_poll-kept d except x y p e = cc
  on_poll-kept d (ready is rs) x y p e = elim (Option-cases (on_signals d is x)) [
    | inl g ↦ ground (arith, e, g)
    | inr (z, g) ↦ on_control-kept rs z y (on_signals-kept d is x z p g) (ground (arith, e, g))
  ]

  round-kept :
      (d : Bool) (r : Round) (x y : Run)
      → Q r.dir
      → P x.scanner
      → round d r x ≡ some y
      → P y.scanner
  unfolding round
  round-kept d r x y o p e = elim (Option-cases (work r x)) [
    | inl g ↦ ground (arith, e, g)
    | inr (z, g) ↦ on_poll-kept d r.poll z y (work-kept r x z o p g) (ground (arith, e, g))
  ]

  loop-kept :
      (d : Bool) (rs : List Round) (x y : Run)
      → Dirs Q rs
      → P x.scanner
      → loop d rs x ≡ some y
      → P y.scanner
  unfolding loop Dirs
  loop-kept d [] x y o p e = subst (λ (o : Run). P o.scanner) (some-inj e) p
  loop-kept d (r ∷ rs) x y (o, os) p e = elim (Bool-cases x.scanner.flags.cont) [
    | inl c ↦ elim (Option-cases (round d r x)) [
      | inl g ↦ ground (arith, e, c, g)
      | inr (z, g) ↦ loop-kept d rs z y os (round-kept d r x z o p g) (ground (arith, e, c, g))
    ]
    | inr c ↦ let same : x ≡ y = ground (arith, e, c) in subst (λ (o : Run). P o.scanner) same p
  ]

  finish_phase-kept :
      (now : ℕ) (ws : List Wait) (x : Run)
      → P x.scanner
      → Ends (λ y. P y.scanner) (finish_phase now ws x)
  unfolding finish_phase Ends
  finish_phase-kept now ws x p = elim (Option-cases (reap now ws (kill_step x).scanner)) [
    | inl g ↦ rw (g, finish_phase) tt
    | inr (s, g) ↦
        rw (g, finish_phase) (k.reaps now ws (kill_step x).scanner s (kill_step-kept x p) g)
  ]

  loop_and_finish-kept :
      (d : Bool) (rs : List Round) (now : ℕ) (ws : List Wait) (x : Run)
      → Dirs Q rs
      → P x.scanner
      → Ends (λ y. P y.scanner) (loop_and_finish d rs now ws x)
  unfolding loop_and_finish Ends
  loop_and_finish-kept d rs now ws x o p = elim (Option-cases (loop d rs x)) [
    | inl g ↦ rw (g, loop_and_finish) tt
    | inr (y, g) ↦
        let q = loop-kept d rs x y o p g in
        rw (g, loop_and_finish)
          (if_both (Ends (λ z. P z.scanner)) y.scanner.flags.cont (looping y)
            (finish_phase now ws y) (λ c. q) (λ c. finish_phase-kept now ws y q))
  ]

  run_settings-kept :
      (infinite : ℕ) (a : Start) (rs : List Round) (now : ℕ) (ws : List Wait) (c : ℕ ⊎ Settings)
      → Dirs Q rs
      → ((o : Settings) → P (first_run infinite o).scanner)
      → Ends (λ x. P x.scanner) (run_settings infinite a rs now ws c)
  unfolding run_settings Ends
  run_settings-kept infinite a rs now ws (inl code) ds p = tt
  run_settings-kept infinite a rs now ws (inr o) ds p =
      let x = first_run infinite o in
      if_both (Ends (λ y. P y.scanner)) (init_fails a) (exits 111)
        (loop_and_finish o.divertsignals rs now ws x) (λ y. tt)
        (λ y. loop_and_finish-kept o.divertsignals rs now ws x ds (p o))

  pub main-kept :
      (uint0_scan : List ℕ → Option ℕ) (is_open : ℕ → Bool) (infinite : ℕ) (a : Start)
      (ps : List Switch) (rs : List Round) (now : ℕ) (ws : List Wait)
      → Dirs Q rs
      → ((o : Settings) → P (first_run infinite o).scanner)
      → Ends (λ x. P x.scanner) (main uint0_scan is_open infinite a ps rs now ws)
  unfolding main Ends
  main-kept scan is_open infinite a ps rs now ws ds p =
      let o = take_switches scan is_open a.mypid ps settings in
      if_both (Ends (λ y. P y.scanner))
        (not (ltb 1 a.mypid) && (not (a.myuid == 0) || not (a.myeuid == 0))) (exits 100)
        (run_settings infinite a rs now ws o) (λ y. tt)
        (λ y. run_settings-kept infinite a rs now ws o ds p)
