-- ===== src/Stage2/Main.antt =====
-- src/stage2.c, `main`: the options, the init phase, the loop and the finish phase. What the other
-- programs, the signals and the clock do in a round of the loop is an argument.
pub mod Loop
pub mod Keeps
pub mod Sleeps
pub mod Holds
pub mod Exec
pub mod Stops
use peso.Base.{
  ℕ, zero, suc, ◌+◌, ◌*◌, Bool, true, false, not, ◌&&◌, ◌||◌, List, [], ◌∷◌, ◌++◌, Option, none,
  some, ◌==◌, ltb, leb, if◌then◌else◌, ◌⊎◌, inl, inr,
}
use peso.Stage2.Options.{Settings, settings, Switch, take_switches}
use peso.Stage2.{Finish, Flags, Service, Spawn, Scanner, reboot}
use peso.Stage2.Control.{Sig, Read, handle_signals, handle_diverted_signals, handle_control}
use peso.Stage2.Kills.{Kill, killthem}
use peso.Stage2.Reap.{Wait, reap}
use peso.Stage2.Scan.{Dir, scan}

-- What `iopause_g` finds: an error, no event until the deadline, an exception on one of the
-- descriptors, or what can be read from the two that can be read.
pub data Poll : Type 0 where
  poll_failed timeout except : Poll
  ready : Option (List Sig) → Option (List Read) → Poll

-- What one round of the loop meets: the time behind the last `iopause_g`, the processes that ended, the
-- directory, and what `iopause_g` finds.
pub record Round : Type 0 where
  pub now : ℕ
  pub waits : List Wait
  pub dir : Dir
  pub poll : Poll

-- The globals, with the calls of `kill` and the programs that were spawned for a signal, in their order.
pub record Run : Type 0 where
  pub scanner : Scanner
  pub kills : List Kill
  pub diverted : List Sig

-- `killthem` on the globals
unfoldable pub kill_step : Run → Run
unfolding killthem
kill_step x =
    let (ks, fs) = killthem x.scanner.services x.scanner.flags in
    record x { scanner = record x.scanner { flags = fs }; kills = x.kills ++ ks }

-- reap (), scan () and killthem (); `none` is `panic`.
unfoldable pub work : Round → Run → Option Run
unfolding reap scan kill_step
work r x = elim (reap r.now r.waits x.scanner) [
  | none ↦ none
  | some s ↦ some (kill_step (record x { scanner = scan r.now r.dir s }))
]

-- divertsignals ? handle_diverted_signals () : handle_signals ()
unfoldable pub on_signals : Bool → Option (List Sig) → Run → Option Run
unfolding handle_signals handle_diverted_signals
on_signals divertsignals none x = some x
on_signals false (some is) x = elim (handle_signals is x.scanner.flags) [
  | none ↦ none
  | some fs ↦ some (record x { scanner = record x.scanner { flags = fs } })
]
on_signals true (some is) x = elim (handle_diverted_signals is x.scanner.flags) [
  | none ↦ none
  | some (fs, spawned) ↦
      some
        (record x { scanner = record x.scanner { flags = fs }; diverted = x.diverted ++ spawned })
]

unfoldable pub on_control : Option (List Read) → Run → Option Run
unfolding handle_control
on_control none x = some x
on_control (some rs) x = elim (handle_control rs x.scanner.flags) [
  | none ↦ none
  | some (fs, left) ↦ some (record x { scanner = record x.scanner { flags = fs } })
]

-- The loop's body behind `iopause_g`.
unfoldable pub on_poll : Bool → Poll → Run → Option Run
unfolding on_signals on_control
on_poll divertsignals poll_failed x = none
on_poll divertsignals timeout x =
    some (record x {
      scanner = record x.scanner { flags = record x.scanner.flags { wantscan = true } };
    })
on_poll divertsignals except x = none
on_poll divertsignals (ready is rs) x = elim (on_signals divertsignals is x) [
  | none ↦ none
  | some y ↦ on_control rs y
]

unfoldable pub round : Bool → Round → Run → Option Run
unfolding work on_poll
round divertsignals r x = elim (work r x) [ none ↦ none | some y ↦ on_poll divertsignals r.poll y ]

-- while ( cont ), as far as the rounds are known
unfoldable pub loop : Bool → List Round → Run → Option Run
unfolding round
loop divertsignals [] x = some x
loop divertsignals (r ∷ rs) x =
    let rest : Option Run = elim (round divertsignals r x) [
      | none ↦ none
      | some y ↦ loop divertsignals rs y
    ] in
    if x.scanner.flags.cont then rest else some x

-- How `main` ends: it returns or dies with a code, it executes CRASH_PROG or FINISH_PROG, or it is in
-- the loop still.
pub data Result : Type 0 where
  exits : ℕ → Result
  crashes : Result
  looping : Run → Result
  finishes : Finish → Run → Result

-- The finish phase. `panic` of `reap` executes CRASH_PROG.
unfoldable pub finish_phase : ℕ → List Wait → Run → Result
unfolding kill_step reap
finish_phase now ws x =
    let y = kill_step x in
    elim (reap now ws y.scanner) [
      | none ↦ crashes
      | some s ↦ finishes s.flags.finish_arg (record y { scanner = s })
    ]

-- The rounds of the loop, and the processes that ended when the finish phase reaps.
unfoldable pub loop_and_finish : Bool → List Round → ℕ → List Wait → Run → Result
unfolding loop finish_phase
loop_and_finish divertsignals rs now ws x = elim (loop divertsignals rs x) [
  | none ↦ crashes
  | some y ↦ if y.scanner.flags.cont then looping y else finish_phase now ws y
]

-- What the calls of the init phase answer: `getpid`, `getuid` and `geteuid`, whether there is a
-- directory and `chdir` fails for it, and whether the others fail.
pub record Start : Type 0 where
  pub mypid : ℕ
  pub myuid : ℕ
  pub myeuid : ℕ
  pub chdir_fails : Bool
  pub lock_fails : Bool
  pub selfpipe_fails : Bool
  pub sigpipe_fails : Bool
  pub trap_fails : Bool

unfoldable pub init_fails : Start → Bool
init_fails a =
    a.chdir_fails || (a.lock_fails || (a.selfpipe_fails || (a.sigpipe_fails || a.trap_fails)))

-- if ( t ) tain_from_millisecs ( & defaulttimeout, t ) ; else defaulttimeout = tain_infinite_relative ;
unfoldable pub timeout_of : ℕ → ℕ → ℕ
timeout_of infinite t = if t == 0 then infinite else t * 1000000

-- The globals before the loop.
unfoldable pub first_run : ℕ → Settings → Run
unfolding timeout_of
first_run infinite o = record {
  scanner = record {
    services = [];
    flags = record {
      wantreap = true;
      wantscan = true;
      wantkill = 0;
      cont = true;
      finish_arg = reboot;
    };
    deadline = 0;
    defaulttimeout = timeout_of infinite o.t;
    max = o.max;
    spawned = [];
  };
  kills = [];
  diverted = [];
}

-- `main` behind the options: their exit code, or the settings.
unfoldable pub run_settings : ℕ → Start → List Round → ℕ → List Wait → ℕ ⊎ Settings → Result
unfolding init_fails first_run loop_and_finish
run_settings infinite a rs now ws (inl code) = exits code
run_settings infinite a rs now ws (inr o) =
    if init_fails a
    then exits 111
    else loop_and_finish o.divertsignals rs now ws (first_run infinite o)

-- With `tain_infinite_relative`, the rounds of the loop, and the last reaping.
unfoldable pub main :
    (List ℕ → Option ℕ) → (ℕ → Bool) → ℕ → Start → List Switch → List Round → ℕ → List Wait → Result
unfolding take_switches settings run_settings
main uint0_scan is_open infinite a ps rs now ws =
    if not (ltb 1 a.mypid) && (not (a.myuid == 0) || not (a.myeuid == 0))
    then exits 100
    else run_settings infinite a rs now ws (take_switches uint0_scan is_open a.mypid ps settings)
