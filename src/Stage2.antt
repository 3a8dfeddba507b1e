-- ===== src/Stage2.antt =====
-- src/stage2.c: the service scanner's flags and its table of services.
pub mod Control
pub mod Kills
pub mod Reap
pub mod Scan
pub mod Table
pub mod Options
pub mod Main
use peso.Base.{ℕ, Bool, List}

-- the values of `finish_arg`
pub data Finish : Type 0 where
  reboot poweroff halt other : Finish

-- The globals that the handlers set.
pub record Flags : Type 0 where
  pub wantreap : Bool
  pub wantscan : Bool
  pub wantkill : ℕ
  pub cont : Bool
  pub finish_arg : Finish

-- p [ 0 ] and p [ 1 ]: the two ends of the pipe to the logger, or p [ 0 ] is -1 or -2.
pub data Pipe : Type 0 where
  open_pipe : (out into : ℕ) → Pipe
  closed reopened : Pipe

-- struct svinfo_s. A pid of 0 is no process. Times are in nanoseconds.
pub record Service : Type 0 where
  pub dev : ℕ
  pub ino : ℕ
  -- pid [ 0 ], of the service, and pid [ 1 ], of its logger
  pub pid : ℕ
  pub log_pid : ℕ
  pub restartafter : ℕ
  pub log_restartafter : ℕ
  pub pipe : Pipe
  pub flagactive : Bool
  pub flaglog : Bool

-- What a new process does with its standard input or output: `moved to from` is `fd_move`.
pub data Stdio : Type 0 where
  inherited : Stdio
  moved : (to from : ℕ) → Stdio
  move_fails : Stdio

-- A process that `trystart` made, with the directory that its supervisor is given.
pub record Spawn : Type 0 where
  pub name : List ℕ
  pub islog : Bool
  pub stdio : Stdio

-- The globals that `reap`, `scan` and the main loop share, and the processes made, latest first. The
-- `n` services in use are the list.
pub record Scanner : Type 0 where
  pub services : List Service
  pub flags : Flags
  pub deadline : ℕ
  pub defaulttimeout : ℕ
  pub max : ℕ
  pub spawned : List Spawn

-- `tain_addsec_g` adds seconds to the time of the last `iopause_g`.
abbrev pub sec : ℕ
sec = 1000000000
