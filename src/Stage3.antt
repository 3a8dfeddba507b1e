-- ===== src/Stage3.antt =====
-- src/stage3.c as Linux builds it: the last init stage and its client. The flags of `f` are the
-- fields of a record. `getpid`, `getuid`, `geteuid` and the options that `getopt` returns are
-- arguments, and so is the fuel of the two loops that may run for ever.
pub mod Facts
pub mod Kill
pub mod Stages
use peso.Base.{
  ℕ, zero, suc, ◌*◌, Bool, true, false, not, ◌&&◌, ◌||◌, List, [], ◌∷◌, ◌==◌, ltb, if◌then◌else◌,
}
use peso.Os.{
  Signal, sigterm, sighup, sigcont, sigkill, sigusr1, sigusr2, init, everyone, stage3a, stage3b,
  Word, halt, poweroff, reboot_word, Call, drop_privileges, sync, vfork, pause, setup_env, umask,
  set_rlimits, setsid, setpgid, setup_sigs, reap_some, reap_all, kill, probe_init, wait_for, sleep,
  chdir_root, chvt, close, run_conf, announce, leave_stage2, killed_all, perror, exit, Answer,
  returned, stopped, ok, failed, gone, Kernel, M, running, stop, ◌>>=◌, ◌>>◌, return, call,
}
use peso.Reboot.{do_reboot}

pub record Flags : Type 0 where
  pub flag_client : Bool
  pub flag_direct : Bool
  pub flag_reboot : Bool
  pub flag_halt : Bool
  pub flag_poweroff : Bool

abbrev pub no_flags : Flags
no_flags = record {
  flag_client = false;
  flag_direct = false;
  flag_reboot = false;
  flag_halt = false;
  flag_poweroff = false;
}

-- errno
abbrev pub esrch : ℕ
esrch = 3

abbrev pub enosys : ℕ
enosys = 38

-- The call returned -1 with ESRCH: there is no process to signal.
unfoldable pub none_left : Answer → Bool
none_left (failed e) = e == esrch
none_left a = false

unfoldable pub is_zero : Answer → Bool
is_zero (ok n) = n == 0
is_zero a = false

-- msleep ( 0, u ), when 0 < u
unfoldable pub pause_for : Kernel → ℕ → M Answer
pause_for k u = if ltb 0 u then call k (sleep u) else return (ok 0)

-- `kill_all` from SIGHUP on
unfoldable pub kill_more : Kernel → ℕ → Answer → M Answer
unfolding pause_for
kill_more k u b = if none_left b then call k reap_all else (do
  call k (kill everyone sigcont)
  pause_for k u
  call k reap_some
  call k (kill everyone sigkill)
  call k reap_all)

-- `kill_all` from SIGTERM on
unfoldable pub kill_rest : Kernel → ℕ → Answer → M Answer
unfolding pause_for none_left kill_more
kill_rest k u a =
    if none_left a
    then call k reap_all
    else (do pause_for k u; call k reap_some; b ← call k (kill everyone sighup); kill_more k u b)

-- with the microseconds to wait between the signals
unfoldable pub kill_all : Kernel → ℕ → M Answer
unfolding kill_rest
kill_all k u = do call k reap_some; a ← call k (kill everyone sigterm); kill_rest k u a

-- `how` and `i` of `client`: the test for the second branch is that of the first.
unfoldable pub client_how : Flags → ℕ × Signal
client_how f =
    if f.flag_halt
    then (b'h', sigusr1)
    else if f.flag_halt
    then (b'p', sigusr2)
    else (b'r', sigterm)

unfoldable pub give_up : Kernel → M ℕ
give_up k = do call k perror; return 111

-- return 0, or 111 with a message
unfoldable pub conclude : Kernel → Answer → M ℕ
unfolding is_zero give_up
conclude k r = if is_zero r then return 0 else give_up k

unfoldable pub client_send : Kernel → Flags → M ℕ
unfolding client_how conclude
client_send k f =
    let (how, i) = client_how f in
    if f.flag_direct
    then (do call k sync; r ← do_reboot k how; conclude k r)
    else (do call k sync; r ← call k (kill init i); conclude k r)

unfoldable pub client : Kernel → Flags → M ℕ
unfolding is_zero give_up client_send
client k f = do alive ← call k probe_init; (if is_zero alive then client_send k f else give_up k)

-- `while ( 0 > ( p = vfork () ) && ENOSYS != errno )`, on fuel
unfoldable pub vfork_loop : ℕ → Kernel → M Answer
vfork_loop zero k t = running t
vfork_loop (suc n) k t = elim (call k vfork t) [
  | returned (failed e) u ↦ elim (e == enosys) [
    | true ↦ return (failed e) u
    | false ↦ (call k (sleep 5000000) >> vfork_loop n k) u
  ]
  | returned (ok p) u ↦ return (ok p) u
  | returned gone u ↦ stop u
  | stopped u ↦ stop u
  | running u ↦ running u
]

-- In the child `vfork` is answered by 0.
unfoldable pub vfork_reboot : ℕ → Kernel → ℕ → M Answer
unfolding vfork_loop
vfork_reboot n k how t = elim (vfork_loop n k t) [
  | returned (ok zero) u ↦
      (do
        do_reboot k (if how == 0 then b'p' else how)
        do_reboot k b'p'
        do_reboot k b'h'
        call k (exit 127)
        stop)
        u
  | returned (ok (suc p)) u ↦ call k (wait_for (suc p)) u
  | returned a u ↦ return a u
  | stopped u ↦ stop u
  | running u ↦ running u
]

-- `while ( 1 )`, on fuel
unfoldable pub wait_forever : ℕ → Kernel → M ℕ
wait_forever zero k t = running t
wait_forever (suc n) k t = (call k pause >> call k (sleep 3000000) >> wait_forever n k) t

unfoldable pub down_how : Flags → ℕ
down_how f = if f.flag_reboot then b'r' else if f.flag_halt then b'h' else b'p'

unfoldable pub sys_down : ℕ → Kernel → ℕ → Flags → M ℕ
unfolding down_how vfork_reboot wait_forever
sys_down n k pid f =
    if ltb 1 pid
    then (do do_reboot k (down_how f); do_reboot k b'p'; do_reboot k b'h'; return 0)
    else if pid == 1
    then (do do_reboot k b'C'; vfork_reboot n k (down_how f); call k reap_all; wait_forever n k)
    else return 0

-- the word `s` that the last message has
unfoldable pub goal : Flags → Word
goal f =
    if f.flag_halt
    then halt
    else if f.flag_poweroff
    then poweroff
    else if f.flag_reboot
    then reboot_word
    else reboot_word

unfoldable pub enter_stage3 : Kernel → M Answer
enter_stage3 k = do
  call k setup_env
  call k umask
  call k set_rlimits
  call k sync
  call k setsid
  call k setpgid
  call k chdir_root
  call k setup_sigs
  call k reap_some
  call k sync
  call k (chvt 1)
  call k leave_stage2

unfoldable pub run_stages : Kernel → M Answer
unfolding kill_all
run_stages k = do
  call k (run_conf stage3a)
  call k reap_some
  kill_all k (400 * 1000)
  call k chdir_root
  call k sync
  call k (chvt 1)
  call k killed_all
  call k (run_conf stage3b)
  call k reap_some
  kill_all k (100 * 1000)
  call k chdir_root

unfoldable pub last_words : Kernel → Flags → M Answer
unfolding goal
last_words k f = do
  call k (chvt 1)
  call k (announce (goal f))
  call k sync
  call k (close 0)
  call k (close 1)
  call k (close 2)

unfoldable pub stage3 : ℕ → Kernel → ℕ → Flags → M ℕ
unfolding enter_stage3 run_stages last_words sys_down
stage3 n k pid f = do enter_stage3 k; run_stages k; last_words k f; sys_down n k pid f

-- the `switch` of `main`
unfoldable pub take_flag : ℕ → ℕ → Flags → Flags
take_flag pid i f =
    if i == b'C'
    then if ltb 1 pid then record f { flag_client = true } else f
    else if i == b'f' || i == b'F'
    then if ltb 1 pid then record f { flag_client = true; flag_direct = true } else f
    else if i == b'h' || i == b'H'
    then record f { flag_halt = true }
    else if i == b'p' || i == b'P'
    then record f { flag_poweroff = true }
    else if i == b'r' || i == b'R'
    then record f { flag_reboot = true }
    else f

unfoldable pub take_flags : ℕ → List ℕ → Flags → Flags
unfolding take_flag
take_flags pid [] f = f
take_flags pid (i ∷ is) f = take_flags pid is (take_flag pid i f)

unfoldable pub main : ℕ → Kernel → (pid uid euid : ℕ) → List ℕ → M ℕ
unfolding take_flags client stage3
main n k pid uid euid opts = do
  call k drop_privileges
  (if not (uid == 0) || not (euid == 0)
      then return 100
      else (let f = take_flags pid opts no_flags in
          if ltb 1 pid && f.flag_client then client k f else stage3 n k pid f))
