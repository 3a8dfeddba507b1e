-- ===== src/Stage2/Main/Exec.antt =====
-- src/stage2.c, `panicnosp` and the end of `main`: the program that takes its place.
use peso.Base.{
  ℕ, ◌≡◌, ◌⊎◌, refl, Bool, not, ◌&&◌, ◌||◌, List, Option, Option-cases, if◌then◌else◌, if_both, inl,
  inr, ltb, ◌==◌,
}
use peso.Stage2.{Finish}
use peso.Stage2.Reap.{Wait, reap}
use peso.Stage2.Options.{Settings, settings, Switch, take_switches, Settled, take_switches-Settled}
use peso.Stage2.Main.{
  Round, Run, Start, Result, exits, crashes, looping, finishes, kill_step, finish_phase, loop,
  loop_and_finish, init_fails, first_run, run_settings, main,
}

-- FINISH_PROG with its argument, or CRASH_PROG, has taken the place of the program; or the program has
-- ended, or goes on.
pub data Final : Type 0 where
  runs_finish : Finish → Final
  runs_crash goes_on : Final
  ended : ℕ → Final

-- With whether CRASH_PROG can be executed.
unfoldable pub panicnosp : Bool → Final
panicnosp crash_runs = if crash_runs then runs_crash else ended 111

-- With whether FINISH_PROG can be executed too.
unfoldable pub final : Bool → Bool → Result → Final
unfolding panicnosp
final finish_runs crash_runs (exits code) = ended code
final finish_runs crash_runs crashes = panicnosp crash_runs
final finish_runs crash_runs (looping x) = goes_on
final finish_runs crash_runs (finishes f x) =
    if finish_runs then runs_finish f else panicnosp crash_runs

-- The code of a program that has ended is one of these.
unfoldable pub Coded : Final → Type 0
Coded (ended code) = (code ≡ 100) ⊎ (code ≡ 111)
Coded f = Unit

module _ (finish_runs crash_runs : Bool) where
  panicnosp-Coded : Coded (panicnosp crash_runs)
  unfolding panicnosp Coded
  panicnosp-Coded = if_both Coded crash_runs runs_crash (ended 111) (λ y. tt) (λ y. inr refl)

  finish_phase-Coded :
      (now : ℕ) (ws : List Wait) (x : Run)
      → Coded (final finish_runs crash_runs (finish_phase now ws x))
  unfolding finish_phase final Coded
  finish_phase-Coded now ws x = elim (Option-cases (reap now ws (kill_step x).scanner)) [
    | inl g ↦ rw (g, finish_phase) panicnosp-Coded
    | inr (s, g) ↦
        rw (g, finish_phase)
          (if_both Coded finish_runs (runs_finish s.flags.finish_arg) (panicnosp crash_runs)
            (λ y. tt) (λ y. panicnosp-Coded))
  ]

  loop_and_finish-Coded :
      (d : Bool) (rs : List Round) (now : ℕ) (ws : List Wait) (x : Run)
      → Coded (final finish_runs crash_runs (loop_and_finish d rs now ws x))
  unfolding loop_and_finish final Coded
  loop_and_finish-Coded d rs now ws x = elim (Option-cases (loop d rs x)) [
    | inl g ↦ rw (g, loop_and_finish) panicnosp-Coded
    | inr (y, g) ↦
        rw (g, loop_and_finish)
          (if_both (λ r. Coded (final finish_runs crash_runs r)) y.scanner.flags.cont (looping y)
            (finish_phase now ws y) (λ c. tt) (λ c. finish_phase-Coded now ws y))
  ]

  run_settings-Coded :
      (is_open : ℕ → Bool) (least infinite : ℕ) (a : Start) (rs : List Round) (now : ℕ)
      (ws : List Wait) (c : ℕ ⊎ Settings)
      → Settled is_open least c
      → Coded (final finish_runs crash_runs (run_settings infinite a rs now ws c))
  unfolding run_settings final Coded Settled
  run_settings-Coded is_open least infinite a rs now ws (inl code) e = inl e
  run_settings-Coded is_open least infinite a rs now ws (inr o) e =
      if_both (λ r. Coded (final finish_runs crash_runs r)) (init_fails a) (exits 111)
        (loop_and_finish o.divertsignals rs now ws (first_run infinite o)) (λ y. inr refl)
        (λ y. loop_and_finish-Coded o.divertsignals rs now ws (first_run infinite o))

  pub main-Coded :
      (uint0_scan : List ℕ → Option ℕ) (is_open : ℕ → Bool) (infinite : ℕ) (a : Start)
      (ps : List Switch) (rs : List Round) (now : ℕ) (ws : List Wait)
      → Coded (final finish_runs crash_runs (main uint0_scan is_open infinite a ps rs now ws))
  unfolding main final Coded
  main-Coded scan is_open infinite a ps rs now ws =
      let o = take_switches scan is_open a.mypid ps settings in
      if_both (λ r. Coded (final finish_runs crash_runs r))
        (not (ltb 1 a.mypid) && (not (a.myuid == 0) || not (a.myeuid == 0))) (exits 100)
        (run_settings infinite a rs now ws o) (λ y. inl refl)
        (λ y.
          run_settings-Coded is_open 2 infinite a rs now ws o
            (take_switches-Settled scan is_open a.mypid ps))
