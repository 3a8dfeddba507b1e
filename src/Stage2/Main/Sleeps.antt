-- ===== src/Stage2/Main/Sleeps.antt =====
-- src/stage2.c, `main`: the restart times and the deadline through a whole run.
use peso.Base.{ℕ, ◌≡◌, Bool, List, Option, subst, sym, Bool-cases, inl, inr}
use peso.Stage2.{Scanner}
use peso.Stage2.Table.{All}
use peso.Stage2.Scan.{Entry, Dir, dir, scan}
use peso.Stage2.Scan.Waits.{AllForks, Awake, scan-Awake, scan_unwanted}
use peso.Stage2.Reap.{Wait}
use peso.Stage2.Main.{Round, Start, first_run, main}
use peso.Stage2.Main.Loop.{Dirs, Ends, Kept, main-kept}
use peso.Stage2.Reap.Sleeps.{reap-Awake}
use peso.Stage2.Options.{Settings, Switch}

-- The directory can be opened, and `fork` succeeds.
pub record Calm (d : Dir) : Type 0 where
  pub entries : List Entry
  pub readdir_failed : Bool
  pub same : d ≡ dir entries readdir_failed
  pub forks : AllForks entries

scan-Calm : (now : ℕ) (d : Dir) (s : Scanner) → Calm d → Awake s → Awake (scan now d s)
scan-Calm now d s c a = elim (Bool-cases s.flags.wantscan) [
  | inl y ↦
      subst (λ d. Awake (scan now d s)) (sym c.same)
        (scan-Awake now c.entries c.readdir_failed s y c.forks)
  | inr y ↦ subst Awake (sym (scan_unwanted now d s y)) a
]

Awake-Kept : Kept Calm Awake
Awake-Kept = record {
  reaps = λ now ws s t a e. reap-Awake now ws s t a e;
  scans = λ now d s c a. scan-Calm now d s c a;
  sets = λ s fs a. a;
}

first_run-Awake : (infinite : ℕ) (o : Settings) → Awake (first_run infinite o).scanner
unfolding first_run All
first_run-Awake infinite o = tt

-- Where the directory can be opened in every round and `fork` succeeds: whenever `main` waits,
-- and at its end, each active service that lacks a process, or whose logger does, has a restart
-- time that is not before the deadline of the wait, so it is not slept over.
pub main-Awake :
    (uint0_scan : List ℕ → Option ℕ) (is_open : ℕ → Bool) (infinite : ℕ) (a : Start)
    (ps : List Switch) (rs : List Round) (now : ℕ) (ws : List Wait)
    → Dirs Calm rs
    → Ends (λ x. Awake x.scanner) (main uint0_scan is_open infinite a ps rs now ws)
main-Awake scan is_open infinite a ps rs now ws c =
    main-kept Calm Awake Awake-Kept scan is_open infinite a ps rs now ws c
      (first_run-Awake infinite)
