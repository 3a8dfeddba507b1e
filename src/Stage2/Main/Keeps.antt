-- ===== src/Stage2/Main/Keeps.antt =====
-- src/stage2.c, `main`: the table of services through a whole run, and the settings.
use peso.Base.{ℕ, refl, Bool, List, [], ◌∷◌, Option, arith}
use peso.Stage2.Table.{total, All}
use peso.Stage2.Reap.{Wait}
use peso.Stage2.Main.{Round, Start, first_run, main}
use peso.Stage2.Main.Loop.{Dirs, Ends, Kept, main-kept}
use peso.Stage2.Reap.Keeps.{reap-IsTable}
use peso.Stage2.Scan.Keeps.{scan-IsTable}
use peso.Stage2.Scan.Slots.{IsTable, aside-IsTable}
use peso.Stage2.Options.{Settings, Switch}

IsTable-Kept : Kept (λ d. Unit) IsTable
IsTable-Kept = record {
  reaps = λ now ws s t b e. reap-IsTable now ws s t b e;
  scans = λ now d s o b. scan-IsTable now d s b;
  sets = λ s fs b. aside-IsTable s (record s { flags = fs }) refl refl b;
}

first_run-IsTable : (infinite : ℕ) (o : Settings) → IsTable (first_run infinite o).scanner
unfolding first_run total All
first_run-IsTable infinite o = record {
  room = omega arith;
  single = λ i j. omega arith;
  logged = tt;
}

everywhere : (rs : List Round) → Dirs (λ d. Unit) rs
unfolding Dirs
everywhere [] = tt
everywhere (r ∷ rs) = (tt, everywhere rs)

-- Whatever the options, the directory, the signals, the commands and the processes that end
-- are: while `main` is in its loop, and when it executes the finish program, the table has no
-- more than `max` services, no directory is in it twice, and a service without a logger has no
-- process for one.
pub main-IsTable :
    (uint0_scan : List ℕ → Option ℕ) (is_open : ℕ → Bool) (infinite : ℕ) (a : Start)
    (ps : List Switch) (rs : List Round) (now : ℕ) (ws : List Wait)
    → Ends (λ x. IsTable x.scanner) (main uint0_scan is_open infinite a ps rs now ws)
main-IsTable scan is_open infinite a ps rs now ws =
    main-kept (λ d. Unit) IsTable IsTable-Kept scan is_open infinite a ps rs now ws (everywhere rs)
      (first_run-IsTable infinite)
