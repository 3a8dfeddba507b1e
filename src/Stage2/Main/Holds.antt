-- ===== src/Stage2/Main/Holds.antt =====
-- src/stage2.c, `main`: the processes that stand in the table through a round of the loop.
use peso.Base.{ℕ, ◌-◌, ◌≤◌, ◌≡◌, ◌≢◌, refl, List, [], ◌∷◌, some, arith, Bool-cases, inl, inr, ap}
use peso.Stage2.{Service, Scanner}
use peso.Stage2.Table.{All}
use peso.Stage2.Scan.{scan}
use peso.Stage2.Scan.Slots.{IsLogged, IsTable}
use peso.Stage2.Scan.Holds.{scan-holds}
use peso.Stage2.Reap.{Wait, reap}
use peso.Stage2.Reap.Holds.{Logged, holds}
use peso.Stage2.Reap.Ended.{ends, Orderly, reap-holds}
use peso.Stage2.Reap.Keeps.{reap-IsTable}
use peso.Stage2.Main.{Round, Run, kill_step, work}

all-Logged : (vs : List Service) → All IsLogged vs → Logged vs
unfolding All Logged
all-Logged [] a = tt
all-Logged (v ∷ vs) (l, a) = (l, all-Logged vs a)

reap-loses :
    (x now : ℕ) (ws : List Wait) (s : Scanner)
    → x ≢ 0
    → IsTable s
    → Orderly ws
    → (t : Scanner) × (reap now ws s ≡ some t)
      × (holds x s.services - ends x ws ≤ holds x t.services)
unfolding reap
reap-loses x now ws s n b o = elim (Bool-cases s.flags.wantreap) [
  | inl y ↦
      let (t, e, h) = reap-holds x now ws s n (all-Logged s.services b.logged) o y in
      (t, e, omega (arith, h))
  | inr y ↦ (s, ground (arith, y), omega arith)
]

kill_step-services : (x : Run) → (kill_step x).scanner.services ≡ x.scanner.services
unfolding kill_step
kill_step-services x = refl

-- From a table with its invariant, and where `wait_nohang` has no other error than ECHILD:
-- `reap`, `scan` and `killthem` return, and no process is forgotten. It stands in the table as
-- often as before, or more often, less the times that it ended, whatever the scan starts,
-- reopens or drops.
pub work-holds :
    (x : ℕ) (r : Round) (a : Run)
    → x ≢ 0
    → IsTable a.scanner
    → Orderly r.waits
    → (b : Run) × (work r a ≡ some b)
      × (holds x a.scanner.services - ends x r.waits ≤ holds x b.scanner.services)
unfolding work
work-holds x r a n b o =
    let (t, e, h) = reap-loses x r.now r.waits a.scanner n b o in
    let u : Run = record a { scanner = scan r.now r.dir t } in
    (
      kill_step u,
      rw (e, work) refl,
      omega (
        arith,
        h,
        ap (holds x) (kill_step-services u),
        scan-holds x r.now r.dir t n (reap-IsTable r.now r.waits a.scanner t b e),
      ),
    )
