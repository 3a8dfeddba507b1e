-- ===== src/Stage1.antt =====
-- src/stage1.c: the calls that it makes and what it sees of the system. What is seen may depend on all
-- the calls made before; a function of the program takes those, latest first, and adds its own. Text
-- that is printed is left out. The functions of icommon.c are arguments.
pub mod Mounts
pub mod Points
pub mod Seed
pub mod Console
pub mod Main
pub mod Careful
pub mod Order
pub mod Choice
pub mod Returns
use peso.Base.{ℕ, ◌+◌, ◌*◌, Bool, List, [], ◌∷◌, Option, codes}
use peso.Os.{Answer}

abbrev pub FileName : Type 0
FileName = List ℕ

-- The octal number with these digits, a mode of a file.
abbrev pub octal : ℕ → ℕ → ℕ → ℕ → ℕ
octal a b c d = 512 * a + (64 * b + (8 * c + d))

pub data Flag : Type 0 where
  ms_nodev ms_nosuid ms_noexec ms_bind ms_rec : Flag

pub data Kind : Type 0 where
  is_dir is_other : Kind

-- What `lstat` finds.
pub record Stat : Type 0 where
  pub kind : Kind
  pub dev : ℕ
  pub ino : ℕ

-- The bits of `c_cflag`: the value of CBAUD | CBAUDEX | CSIZE | CSTOPB | PARENB | PARODD | CRTSCTS in
-- it, three bits of their own, and all others.
pub record Cflag : Type 0 where
  pub line : ℕ
  pub cread : Bool
  pub hupcl : Bool
  pub clocal : Bool
  pub others : ℕ

pub data Iflag : Type 0 where
  icrnl ixon ixoff iutf8 : Iflag

pub data Oflag : Type 0 where
  onlcr opost : Oflag

pub data Lflag : Type 0 where
  echo echoctl echoe echok echoke icanon iexten isig : Lflag

-- The values of `c_cc` are the default of the system, no character, or a number.
pub data Cc : Type 0 where
  cintr cquit cerase ckill ceof cstart cstop csusp creprint cdiscard cwerase clnext : Cc
  posix_vdisable : Cc
  value : ℕ → Cc

pub data Index : Type 0 where
  vintr vquit verase vkill veof vtime vmin vswtc vstart vstop vsusp veol vreprint vdiscard : Index
  vwerase vlnext veol2 : Index

-- struct termios
pub record Termios : Type 0 where
  pub c_cc : Index → Cc
  pub c_line : ℕ
  pub c_cflag : Cflag
  pub c_iflag : List Iflag
  pub c_oflag : List Oflag
  pub c_lflag : List Lflag

-- The calls that change something.
pub data Call : Type 0 where
  mkdir chmod : FileName → (mode : ℕ) → Call
  mknod : FileName → (mode major minor : ℕ) → Call
  symlink : (target link : FileName) → Call
  mount : (src dest : FileName) → Option FileName → List Flag → Option FileName → Call
  -- open ( path, O_WRONLY | O_CREAT | O_CLOEXEC ... ), with O_TRUNC or with O_APPEND
  open_trunc open_append : FileName → (mode : ℕ) → Call
  -- open ( path, O_RDWR | O_NONBLOCK | O_NOCTTY )
  open_tty : FileName → Call
  fchown : (fd uid gid : ℕ) → Call
  fchmod : (fd mode : ℕ) → Call
  close_fd : ℕ → Call
  dup2 : (o n : ℕ) → Call
  tcsetattr : ℕ → Termios → Call
  tcflush : ℕ → Call
  seteuid setegid umask set_rlimits setup_env sethostname setdomainname setsid setpgid setup_sigs :
      Call
  chdir chroot run_conf : FileName → Call
  chvt : ℕ → Call
  -- reap ( 1, 0 )
  reap_some : Call
  -- with Env, or with the environment of the process
  execve execvpe execvp : FileName → List FileName → Call

abbrev pub Trace : Type 0
Trace = List Call

-- What the program sees behind the calls. Of a call, `failed` is -1, and an `exec` that answers `ok` or
-- `gone` does not return.
pub record World : Type 0 where
  pub lstat : Trace → FileName → Option Stat
  pub is_d : Trace → FileName → Bool
  pub is_c : Trace → FileName → Bool
  pub is_f : Trace → FileName → Bool
  pub is_fnrx : Trace → FileName → Bool
  -- access ( path, F_OK ) == 0, and with R_OK | X_OK
  pub exists : Trace → FileName → Bool
  pub readable : Trace → FileName → Bool
  pub isatty : Trace → ℕ → Bool
  pub tcgetattr : Trace → ℕ → Option Termios
  pub getenv : FileName → Option FileName
  pub answer : Trace → Call → Answer

-- How it is built: CONSOLE and VT_MASTER, STAGE1, STAGE2X, UTMP_GID, TTY_GID (no text without it), whether
-- DOMAIN is set, and whether the C library has `execvpe`.
pub record Build : Type 0 where
  pub console : FileName
  pub vt_master : FileName
  pub stage1 : FileName
  pub stage2x : FileName
  pub utmp_gid : Option ℕ
  pub tty_gid : FileName
  pub has_domain : Bool
  pub has_execvpe : Bool
