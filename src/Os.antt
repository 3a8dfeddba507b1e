-- ===== src/Os.antt =====
-- The calls of the operating system that src/reboot.c and src/stage3.c make. What the kernel answers
-- is an argument, which may depend on all the calls made before; a program is a function from the
-- calls made so far, latest first, to its outcome and the calls made then.
use peso.Base.{ℕ, List, ◌∷◌}

-- reboot ( 2 ), <sys/reboot.h> of Linux
pub data Cmd : Type 0 where
  rb_disable_cad rb_enable_cad rb_sw_suspend rb_kexec rb_power_off rb_halt_system rb_autoboot : Cmd

pub data Signal : Type 0 where
  sigterm sighup sigcont sigkill sigusr1 sigusr2 : Signal

-- The processes that `kill` signals: process 1, or all.
pub data Target : Type 0 where
  init everyone : Target

pub data Stage : Type 0 where
  stage3a stage3b : Stage

pub data Word : Type 0 where
  halt poweroff reboot_word : Word

-- `wait_for p` is `reap ( 0, p )`, `reap_all` is `reap ( 0, 0 )`, `reap_some` is `reap ( 1, 0 )`.
pub data Call : Type 0 where
  drop_privileges sync vfork pause setup_env umask set_rlimits setsid setpgid setup_sigs reap_some
        reap_all :
      Call
  reboot : Cmd → Call
  kill : Target → Signal → Call
  -- kill ( 1, 0 )
  probe_init : Call
  wait_for sleep chvt close : ℕ → Call
  run_conf : Stage → Call
  announce : Word → Call
  chdir_root leave_stage2 killed_all perror : Call
  exit : ℕ → Call

-- What a call returns: a number from 0 on, or -1 with `errno`. `gone` means that it does not return.
pub data Answer : Type 0 where
  ok failed : ℕ → Answer
  gone : Answer

abbrev pub Trace : Type 0
Trace = List Call

abbrev pub Kernel : Type 0
Kernel = Trace → Call → Answer

-- `stopped`: the machine is down, or the process ended or waits for ever. `running`: a loop took all
-- its fuel.
pub data Outcome (A : Type 0) : Type 0 where
  returned : A → Trace → Outcome A
  stopped running : Trace → Outcome A

abbrev pub M : Type 0 → Type 0
M A = Trace → Outcome A

infixl 5 ◌>>=◌ ◌>>◌
abbrev pub ◌>>=◌ : {A B : Type 0} → M A → (A → M B) → M B
◌>>=◌ m f t = elim (m t) [ returned a u ↦ f a u | stopped u ↦ stopped u | running u ↦ running u ]

abbrev pub ◌>>◌ : {A B : Type 0} → M A → M B → M B
◌>>◌ m f t = elim (m t) [ returned a u ↦ f u | stopped u ↦ stopped u | running u ↦ running u ]

abbrev pub return : {A : Type 0} → A → M A
return a t = returned a t

abbrev pub stop : {A : Type 0} → M A
stop t = stopped t

-- The call, and whether it returned a number from 0 on.
abbrev pub call : Kernel → Call → M Answer
call k c t = elim (k t c) [
  | ok n ↦ returned (ok n) (c ∷ t)
  | failed e ↦ returned (failed e) (c ∷ t)
  | gone ↦ stopped (c ∷ t)
]

-- The calls of an outcome.
unfoldable pub trace : {A : Type 0} → Outcome A → Trace
trace (returned a t) = t
trace (stopped t) = t
trace (running t) = t
