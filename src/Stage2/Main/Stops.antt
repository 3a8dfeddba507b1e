-- ===== src/Stage2/Main/Stops.antt =====
-- src/stage2.c, `main`: the commands behind which the loop ends, and the finish phase.
use peso.Base.{
  ℕ, zero, suc, ◌+◌, ◌≡◌, refl, Bool, true, false, List, [], ◌∷◌, ◌++◌, map, none, some, arith,
  Bool-cases, inl, inr, ap, ◌∙◌,
}
use peso.Stage2.{Flags, Scanner, sec}
use peso.Stage2.Control.{
  Read, byte, term, hup, quit, intr, usr1, last_command, commands, GoOn, handle_control-commands,
}
use peso.Stage2.Kills.{killthem}
use peso.Stage2.Reap.{Wait, wait_failed, ended, reap_one, reap_all, reap}
use peso.Stage2.Reap.Ended.{Orderly}
use peso.Stage2.Main.{
  ready, Round, Run, kill_step, work, on_signals, on_control, on_poll, round, loop, finishes,
  finish_phase, loop_and_finish,
}

last_command-cont : (c : ℕ) (s t : Flags) → last_command c s ≡ some t → t.cont ≡ false
unfolding last_command hup term quit intr usr1
last_command-cont c s t e = ground (arith, e)

reap_one-finish_arg :
    (nextscan r : ℕ) (s : Scanner) → (reap_one nextscan r s).flags.finish_arg ≡ s.flags.finish_arg
unfolding reap_one
reap_one-finish_arg nextscan r s = ground arith

reap_all-returns :
    (nextscan : ℕ) (ws : List Wait) (s : Scanner)
    → Orderly ws
    → (t : Scanner) × (reap_all nextscan ws s ≡ some t) × (t.flags.finish_arg ≡ s.flags.finish_arg)
unfolding reap_all Orderly
reap_all-returns nextscan [] s o = (s, refl, refl)
reap_all-returns nextscan (wait_failed ∷ ws) s (o, os) = absurd (o refl)
reap_all-returns nextscan (ended zero ∷ ws) s o = (s, refl, refl)
reap_all-returns nextscan (ended (suc r) ∷ ws) s (o, os) =
    let (t, e, f) = reap_all-returns nextscan ws (reap_one nextscan (suc r) s) os in
    (t, e, f ∙ reap_one-finish_arg nextscan (suc r) s)

reap-returns :
    (now : ℕ) (ws : List Wait) (s : Scanner)
    → Orderly ws
    → (t : Scanner) × (reap now ws s ≡ some t) × (t.flags.finish_arg ≡ s.flags.finish_arg)
unfolding reap
reap-returns now ws s o = elim (Bool-cases s.flags.wantreap) [
  | inl y ↦
      let u : Scanner = record s { flags = record s.flags { wantreap = false } } in
      let (t, e, f) = reap_all-returns (now + sec) ws u o in (t, ground (arith, y, e), f)
  | inr y ↦ (s, ground (arith, y), refl)
]

killthem-finish_arg :
    (x : Run) → (kill_step x).scanner.flags.finish_arg ≡ x.scanner.flags.finish_arg
unfolding kill_step killthem
killthem-finish_arg x = ground arith

-- The finish phase executes FINISH_PROG.
finish_phase-finishes :
    (now : ℕ) (ws : List Wait) (x : Run)
    → Orderly ws
    → (z : Run) × (finish_phase now ws x ≡ finishes x.scanner.flags.finish_arg z)
      × (z.kills ≡ x.kills ++ (killthem x.scanner.services x.scanner.flags).0)
unfolding finish_phase kill_step
finish_phase-finishes now ws x o =
    let y = kill_step x in
    let (t, e, f) = reap-returns now ws y.scanner o in
    (
      record y { scanner = t },
      rw (e, finish_phase)
          (ap (λ a. finishes a (record y { scanner = t })) (f ∙ killthem-finish_arg x)),
      refl,
    )

round-commands :
    (d : Bool) (r : Round) (cs : List ℕ) (c : ℕ) (left : List Read) (x y : Run) (fs : Flags)
    → work r x ≡ some y
    → r.poll ≡ ready none (some (map byte cs ++ byte c ∷ left))
    → GoOn cs y.scanner.flags
    → last_command c (commands cs y.scanner.flags) ≡ some fs
    → round d r x ≡ some (record y { scanner = record y.scanner { flags = fs } })
unfolding round on_poll on_signals on_control
round-commands d r cs c left x y fs w p g l =
    rw (w, round)
      (rw (p, on_poll)
        (rw (handle_control-commands cs c left y.scanner.flags fs g l, on_control) refl))

stopped-loop :
    (d : Bool) (rs : List Round) (x : Run) → x.scanner.flags.cont ≡ false → loop d rs x ≡ some x
unfolding loop
stopped-loop d [] x off = refl
stopped-loop d (r ∷ rs) x off = ground (arith, off)

-- Where a round reads commands that go on and then one that is a last one, and `wait_nohang`
-- has no other error than ECHILD: the loop ends with this round, `killthem` sends the signals
-- of that command to the services, and the finish program is executed with the `finish_arg`
-- that it left.
pub loop_and_finish-stops :
    (d : Bool) (r : Round) (rs : List Round) (cs : List ℕ) (c : ℕ) (left : List Read) (now : ℕ)
    (ws : List Wait) (x y : Run) (fs : Flags)
    → x.scanner.flags.cont ≡ true
    → work r x ≡ some y
    → r.poll ≡ ready none (some (map byte cs ++ byte c ∷ left))
    → GoOn cs y.scanner.flags
    → last_command c (commands cs y.scanner.flags) ≡ some fs
    → Orderly ws
    → (z : Run) × (loop_and_finish d (r ∷ rs) now ws x ≡ finishes fs.finish_arg z)
      × (z.kills ≡ y.kills ++ (killthem y.scanner.services fs).0)
unfolding loop_and_finish loop
loop_and_finish-stops d r rs cs c left now ws x y fs n w p g l o =
    let u : Run = record y { scanner = record y.scanner { flags = fs } } in
    let (z, e, k) = finish_phase-finishes now ws u o in
    let once = round-commands d r cs c left x y fs w p g l in
    let off = last_command-cont c (commands cs y.scanner.flags) fs l in
    (z, ground (arith, n, once, off, e, stopped-loop d rs u off), k)
