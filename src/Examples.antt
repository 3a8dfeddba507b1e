-- ===== src/Examples.antt =====
-- The theorems on src/reboot.c, src/stage2.c, src/stage3.c and src/runlevel.c at concrete inputs.
pub mod Boot
pub mod Svscan
use peso.Base.{
  codes, ◌-◌, ◌≡◌, ◌≢◌, refl, ◌↔◌, true, false, not, ◌||◌, List, [], ◌∷◌, map, some, arith, ◌*◌,
  ◌+◌,
}
use peso.Os.{
  stage3a, stage3b, sigterm, Call, reboot, drop_privileges, ok, failed, gone, returned, Kernel,
  Trace, trace,
}
use peso.Reboot.{do_reboot, sys_reboot}
use peso.Reboot.Facts.{is_synced, do_reboot-synced, sys_reboot-do_reboot}
use peso.Stage3
use peso.Stage3.{Flags, no_flags, client, goal, down_how, sys_down, main, stage3}
use peso.Stage3.Facts.{word_of, client-flags, goal-down_how, sys_down-init, main-given}
use peso.Stage3.Stages.{stages, stage3-stages}
use peso.Stage3.Kill.{Returns}
use peso.Runlevel
use peso.Stage2
use peso.Stage2.Control.{
  sigchld, sigterm, handle_diverted_signals, diverted, handle_diverted_signals-diverted, Sig,
  sigquit, Read, byte, quit, hup, handle_control, handle_signals, command,
  handle_control-handle_signals,
}
use peso.Stage2.Control.Letters.{after, handle_control-up_to_last}
use peso.Stage2.{Scanner}
use peso.Stage2.Reap.{reap, ended}
use peso.Stage2.Reap.Holds.{Logged, holds}
use peso.Stage2.Reap.Ended.{ends, Orderly, reap-holds}
use peso.Stage2.Kills.{
  kill_term, kill_hup, killthem, pids, inactive, killthem-kills, killthem-killthem,
}

-- A kernel that refuses to reboot, and grants all else.
abbrev stubborn : Kernel
stubborn t (reboot c) = failed 1
stubborn t c = ok 0

stubborn-Returns : (t : Trace) (c : Call) → stubborn t c ≢ gone
stubborn-Returns t c = ground arith

do_reboot-synced_example : is_synced (trace (do_reboot stubborn b'p' [])) ≡ true
unfolding is_synced
do_reboot-synced_example = do_reboot-synced stubborn b'p' [] refl

sys_reboot-do_reboot_example : sys_reboot stubborn b'k' [] ≡ do_reboot stubborn b'k' []
sys_reboot-do_reboot_example =
    sys_reboot-do_reboot stubborn b'k' [] (ground arith) (ground arith) (ground arith)

abbrev power_off : Flags
power_off = record no_flags { flag_client = true; flag_poweroff = true }

abbrev restart : Flags
restart = record no_flags { flag_client = true; flag_reboot = true }

client-flags_example : client stubborn power_off [] ≡ client stubborn restart []
client-flags_example = client-flags stubborn power_off restart [] refl refl

goal-down_how_example :
    (goal no_flags ≡ word_of (down_how no_flags))
    ↔ ((no_flags.flag_halt || no_flags.flag_poweroff) ≡ not no_flags.flag_reboot)
goal-down_how_example = goal-down_how no_flags

sys_down-init_example : sys_down 3 stubborn 1 restart [] ≢ returned 0 []
sys_down-init_example = sys_down-init 3 stubborn restart [] [] 0

main-given_example :
    main 3 stubborn 7 0 0 (b'f' ∷ b'P' ∷ []) []
    ≡ client stubborn
        (record no_flags { flag_client = true; flag_direct = true; flag_poweroff = true })
        (drop_privileges ∷ [])
unfolding Stage3.Facts.given
main-given_example = main-given 3 stubborn 7 0 0 (b'f' ∷ b'P' ∷ []) [] (ground arith)

abbrev boot : Runlevel.Utmp
boot = record { ut_type = 2; ut_pid = 0 }

abbrev entries : List Runlevel.Utmp
entries = boot ∷ record { ut_type = 1; ut_pid = 78 * 256 + 50 } ∷ boot ∷ []

main-first_example : Runlevel.main entries ≡ (0, Runlevel.levels 78 50)
unfolding Runlevel.NoLevel
main-first_example =
    Runlevel.main-first (boot ∷ []) (boot ∷ []) 78 50 (ground arith, tt) (omega arith) (omega arith)

main-unknown_example : Runlevel.main (boot ∷ []) ≡ (1, Runlevel.unknown)
unfolding Runlevel.NoLevel
main-unknown_example = Runlevel.main-unknown (boot ∷ []) (ground arith, tt)

abbrev idle : Stage2.Flags
idle = record {
  wantreap = true;
  wantscan = true;
  wantkill = 0;
  cont = true;
  finish_arg = Stage2.reboot;
}

abbrev logged : Stage2.Service
logged = record {
  dev = 1;
  ino = 40;
  pid = 20;
  log_pid = 21;
  restartafter = 0;
  log_restartafter = 0;
  pipe = Stage2.open_pipe 5 6;
  flagactive = true;
  flaglog = true;
}

abbrev services : List Stage2.Service
services =
    logged
    ∷ record logged { pid = 30; log_pid = 0; flagactive = false; flaglog = false }
    ∷ logged
    ∷ []

handle_control-up_to_last_example :
    handle_control (byte b's' ∷ byte b'z' ∷ byte b'q' ∷ byte b'r' ∷ []) idle
    ≡ some (after (codes "szq") idle, byte b'r' ∷ [])
unfolding Stage2.Control.Letters.up_to_last Stage2.Control.Letters.outcome
    Stage2.Control.Letters.last_letters
handle_control-up_to_last_example =
    handle_control-up_to_last (byte b's' ∷ byte b'z' ∷ byte b'q' ∷ byte b'r' ∷ []) idle

handle_control-handle_signals_example :
    (t : Stage2.Flags) × (handle_signals (sigquit ∷ []) idle ≡ some t)
    × (handle_control (byte b'q' ∷ byte b'r' ∷ []) idle ≡ some (t, byte b'r' ∷ []))
unfolding Stage2.Control.letter
handle_control-handle_signals_example =
    handle_control-handle_signals sigquit b'q' (byte b'r' ∷ []) idle refl

killthem-kills_example :
    (killthem services (quit idle)
      ≡ (map kill_term (pids services), record idle { cont = false; wantkill = 0 }))
    × (killthem services (hup idle)
        ≡ (map kill_hup (pids services), record idle { cont = false; wantkill = 0 }))
    × (killthem services (command b'N' idle)
        ≡ (map kill_term (pids (inactive services)), record idle { wantkill = 0 }))
killthem-kills_example = killthem-kills services idle

handle_diverted_signals-diverted_example :
    (sigterm ∷ [] ≡ diverted (sigchld ∷ sigterm ∷ []))
    × ((record idle { wantreap = true }).wantkill ≡ idle.wantkill)
    × ((record idle { wantreap = true }).finish_arg ≡ idle.finish_arg)
unfolding handle_diverted_signals
handle_diverted_signals-diverted_example =
    handle_diverted_signals-diverted (sigchld ∷ sigterm ∷ []) idle (record idle { wantreap = true })
      (sigterm ∷ []) refl

abbrev scanner : Scanner
scanner = record {
  services = services;
  flags = idle;
  deadline = 100;
  defaulttimeout = 5000000000;
  max = 10;
  spawned = [];
}

reap-holds_example :
    (t : Scanner) × (reap 8 (ended 30 ∷ ended 77 ∷ []) scanner ≡ some t)
    × (holds 20 t.services ≡ holds 20 scanner.services - ends 20 (ended 30 ∷ ended 77 ∷ []))
unfolding Logged Orderly
reap-holds_example =
    reap-holds 20 8 (ended 30 ∷ ended 77 ∷ []) scanner (ground arith)
      (λ e. ground (arith, e), ((λ e. refl), ((λ e. ground (arith, e)), tt)))
      (ground arith, (ground arith, tt)) refl

stage3-stages_example :
    (u : Trace) × (stage3 3 stubborn 1 restart [] ≡ sys_down 3 stubborn 1 restart u)
    × (stages u ≡ stage3b ∷ stage3a ∷ stages [])
unfolding Returns
stage3-stages_example = stage3-stages 3 stubborn 1 restart [] stubborn-Returns
