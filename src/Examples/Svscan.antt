-- ===== src/Examples/Svscan.antt =====
-- The theorems on the scanner and the main loop of src/stage2.c at concrete inputs.
use peso.Base.{
  ◌≤◌, ℕ, ◌-◌, ◌≡◌, refl, true, false, List, [], ◌∷◌, ◌++◌, map, Option, none, some, arith, codes,
}
use peso.Stage2
use peso.Stage2.{Service, Scanner, Flags, Spawn, moved, open_pipe, reboot}
use peso.Stage2.Control.{byte}
use peso.Stage2.Kills.{Kill, killthem}
use peso.Stage2.Reap.{Wait, ended, reap_one}
use peso.Stage2.Reap.Lookup.{at, on, reap_service}
use peso.Stage2.Reap.Refines.{reap_one-at}
use peso.Stage2.Scan.{Entry, directory, log_directory, missing, dir, check, log_name}
use peso.Stage2.Scan.Waits.{Awake}
use peso.Stage2.Scan.Starts.{check-pipes}
use peso.Stage2.Main.{work, Round, Run, ready, Start, main, loop_and_finish, finishes}
use peso.Stage2.Main.Loop.{Ends}
use peso.Stage2.Main.Keeps.{main-IsTable}
use peso.Stage2.Main.Sleeps.{main-Awake}
use peso.Stage2.Main.Holds.{work-holds}
use peso.Stage2.Reap.Holds.{holds}
use peso.Stage2.Reap.Ended.{ends}
use peso.Stage2.Main.Stops.{loop_and_finish-stops}
use peso.Stage2.Scan.Slots.{IsTable}
use peso.Stage2.Options.{
  Settled, Switch, opt_c, opt_s, opt_t, settings, take_switches, take_switches-Settled,
}

abbrev web : Service
web = record {
  dev = 1;
  ino = 40;
  pid = 0;
  log_pid = 21;
  restartafter = 0;
  log_restartafter = 0;
  pipe = open_pipe 5 6;
  flagactive = false;
  flaglog = true;
}

abbrev quiet : Flags
quiet = record {
  wantreap = false;
  wantscan = false;
  wantkill = 0;
  cont = true;
  finish_arg = reboot;
}

abbrev table : Scanner
table = record {
  services = web ∷ [];
  flags = quiet;
  deadline = 100;
  defaulttimeout = 5000000000;
  max = 10;
  spawned = [];
}

abbrev web_dir : Entry
web_dir = record {
  name = codes "web";
  stat = directory 1 40;
  log_stat = log_directory;
  pipe_made = some (7, 8);
  fork_log = some 31;
  fork = some 30;
}

abbrev ftp_dir : Entry
ftp_dir = record web_dir { name = codes "ftp"; stat = directory 1 41 }

check-pipes_example :
    (v : Service) × ((check 8 ftp_dir table).services ≡ table.services ++ v ∷ [])
    × (v.pid ≡ 30)
    × (v.log_pid ≡ 31)
    × (v.flagactive ≡ true)
    × ((check 8 ftp_dir table).spawned
        ≡ record { name = ftp_dir.name; islog = false; stdio = moved 1 8 }
          ∷ record { name = log_name ftp_dir.name; islog = true; stdio = moved 0 7 }
          ∷ table.spawned)
unfolding Stage2.Scan.find_id Stage2.Scan.is_hidden
check-pipes_example =
    check-pipes 8 1 41 7 8 30 31 ftp_dir table refl refl refl (omega arith) refl refl refl refl

-- `uint0_scan` on one digit.
abbrev one_digit : List ℕ → Option ℕ
one_digit [] = none
one_digit (c ∷ []) = some (c - b'0')
one_digit (c ∷ d ∷ cs) = none

abbrev first_process : Start
first_process = record {
  mypid = 1;
  myuid = 0;
  myeuid = 0;
  chdir_fails = false;
  lock_fails = false;
  selfpipe_fails = false;
  sigpipe_fails = false;
  trap_fails = false;
}

abbrev rounds : List Round
rounds =
    record {
      now = 10;
      waits = [];
      dir = dir (web_dir ∷ ftp_dir ∷ []) false;
      poll = ready none (some (byte b'z' ∷ byte b's' ∷ []));
    }
    ∷ record {
      now = 20;
      waits = ended 30 ∷ [];
      dir = dir [] false;
      poll = ready none (some (byte b't' ∷ []));
    }
    ∷ []

abbrev switches : List Switch
switches = opt_t (codes "5") ∷ opt_s ∷ opt_c (codes "1") ∷ []

main-IsTable_example :
    Ends
      (λ x. IsTable x.scanner)
      (main one_digit (λ fd. true) 1000 first_process switches rounds 30 [])
main-IsTable_example = main-IsTable one_digit (λ fd. true) 1000 first_process switches rounds 30 []

main-Awake_example :
    Ends
      (λ x. Awake x.scanner)
      (main one_digit (λ fd. true) 1000 first_process switches rounds 30 [])
unfolding Stage2.Main.Loop.Dirs Stage2.Scan.Waits.AllForks
main-Awake_example =
    main-Awake one_digit (λ fd. true) 1000 first_process switches rounds 30 []
      (
        record {
          entries = web_dir ∷ ftp_dir ∷ [];
          readdir_failed = false;
          same = refl;
          forks = (
            record { pid = 29; log_pid = 30; forked = refl; log_forked = refl },
            (record { pid = 29; log_pid = 30; forked = refl; log_forked = refl }, tt),
          );
        },
        (record { entries = []; readdir_failed = false; same = refl; forks = tt }, tt),
      )

take_switches-Settled_example :
    Settled (λ fd. true) 2 (take_switches one_digit (λ fd. true) 1 switches settings)
take_switches-Settled_example = take_switches-Settled one_digit (λ fd. true) 1 switches

abbrev running : Run
running = record { scanner = table; kills = []; diverted = [] }

abbrev last_round : Round
last_round = record {
  now = 20;
  waits = [];
  dir = dir [] false;
  poll = ready none (some (map byte (b'p' ∷ []) ++ byte b't' ∷ byte b'r' ∷ []));
}

abbrev stopping : Flags
stopping = record quiet { wantkill = 3; cont = false; finish_arg = Stage2.poweroff }

loop_and_finish-stops_example :
    (z : Run) × (loop_and_finish true (last_round ∷ rounds) 30 [] running
      ≡ finishes Stage2.poweroff z)
    × (z.kills ≡ running.kills ++ (killthem table.services stopping).0)
unfolding Stage2.Main.work Stage2.Main.kill_step Stage2.Reap.reap Stage2.Scan.scan
    Stage2.Kills.killthem Stage2.Control.GoOn Stage2.Control.commands Stage2.Control.last_command
    Stage2.Control.command Stage2.Reap.Ended.Orderly
loop_and_finish-stops_example =
    loop_and_finish-stops true last_round rounds (b'p' ∷ []) b't' (byte b'r' ∷ []) 30 [] running
      running stopping refl refl refl (refl, tt) refl tt

reap_one-at_example :
    at 1 40 (reap_one 9 21 table).services
    ≡ on (reap_service 9 table.flags.wantscan 21) (at 1 40 table.services)
unfolding Stage2.Table.total Stage2.Table.All Stage2.Scan.Slots.named Stage2.Reap.Holds.holds
reap_one-at_example =
    reap_one-at 9 21 1 40 table
      (record { room = omega arith; single = λ i j. ground arith; logged = ((λ e. cc), tt) })
      (ground arith)

table-IsTable : IsTable table
unfolding Stage2.Table.total Stage2.Table.All Stage2.Scan.Slots.named
table-IsTable = record {
  room = omega arith;
  single = λ i j. ground arith;
  logged = ((λ e. cc), tt);
}

abbrev busy : Run
busy = record running {
  scanner = record table { flags = record quiet { wantreap = true; wantscan = true } };
}

abbrev busy_round : Round
busy_round = record last_round { waits = ended 99 ∷ []; dir = dir (web_dir ∷ ftp_dir ∷ []) false }

work-holds_example :
    (b : Run) × (work busy_round busy ≡ some b)
    × (holds 21 busy.scanner.services - ends 21 busy_round.waits ≤ holds 21 b.scanner.services)
unfolding Stage2.Reap.Ended.Orderly
work-holds_example =
    work-holds 21 busy_round busy (ground arith)
      (record {
        room = table-IsTable.room;
        single = table-IsTable.single;
        logged = table-IsTable.logged;
      })
      ((λ e. cc), tt)
