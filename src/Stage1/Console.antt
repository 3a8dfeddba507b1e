-- ===== src/Stage1/Console.antt =====
-- src/stage1.c, `dupfd2`, `reset_term`, `redirio`, `consio` and `setup_io`.
use peso.Base.{
  ℕ, zero, suc, Bool, true, false, not, ◌&&◌, List, [], ◌∷◌, Option, none, some, ◌==◌, ltb,
  if◌then◌else◌, codes,
}
use peso.Os.{Answer, ok, failed, gone}
use peso.Stage1.{
  FileName, Cflag, icrnl, ixon, ixoff, iutf8, onlcr, opost, echo, echoctl, echoe, echok, echoke,
  icanon, iexten, isig, Cc, cintr, cquit, cerase, ckill, ceof, cstart, cstop, csusp, creprint,
  cdiscard, cwerase, clnext, posix_vdisable, value, Index, vintr, vquit, verase, vkill, veof, vtime,
  vmin, vswtc, vstart, vstop, vsusp, veol, vreprint, vdiscard, vwerase, vlnext, veol2, Termios,
  open_tty, close_fd, dup2, tcsetattr, tcflush, Trace, World, Build,
}
use peso.Stage1.Seed.{seed_dev}

-- EINTR
abbrev pub eintr : ℕ
eintr = 4

-- do { i = dup2 ( o, n ) ; } while ( 0 > i && EINTR == errno ) ; on fuel. The number is `none` for -1, and
-- the whole is `none` when the fuel is gone.
unfoldable pub dup_loop : ℕ → World → ℕ → ℕ → Trace → Option (Option ℕ × Trace)
dup_loop zero w o n t = none
dup_loop (suc fuel) w o n t =
    let again = dup_loop fuel w o n (dup2 o n ∷ t) in
    elim (w.answer t (dup2 o n)) [
      | ok i ↦ some (some i, dup2 o n ∷ t)
      | failed e ↦ if e == eintr then again else some (none, dup2 o n ∷ t)
      | gone ↦ some (none, dup2 o n ∷ t)
    ]

-- For numbers from 0 on.
unfoldable pub dupfd2 : ℕ → World → ℕ → ℕ → Trace → Option (Option ℕ × Trace)
unfolding dup_loop
dupfd2 fuel w o n t = if o == n then some (some n, t) else dup_loop fuel w o n t

-- the control characters that are set
unfoldable pub control_chars : (Index → Cc) → Index → Cc
control_chars c vintr = cintr
control_chars c vquit = cquit
control_chars c verase = cerase
control_chars c vkill = ckill
control_chars c veof = ceof
control_chars c vtime = value 0
control_chars c vmin = value 1
control_chars c vswtc = posix_vdisable
control_chars c vstart = cstart
control_chars c vstop = cstop
control_chars c vsusp = csusp
control_chars c veol = posix_vdisable
control_chars c vreprint = creprint
control_chars c vdiscard = cdiscard
control_chars c vwerase = cwerase
control_chars c vlnext = clnext
control_chars c veol2 = posix_vdisable

-- &= CBAUD | CBAUDEX | CSIZE | CSTOPB | PARENB | PARODD | CRTSCTS, and |= CREAD | HUPCL | CLOCAL
unfoldable pub mask : Cflag → Cflag
mask c = record c { cread = false; hupcl = false; clocal = false; others = 0 }

unfoldable pub raise : Cflag → Cflag
raise c = record c { cread = true; hupcl = true; clocal = true }

unfoldable pub sane : Termios → Termios
unfolding control_chars mask raise
sane tio = record {
  c_cc = control_chars tio.c_cc;
  c_line = 0;
  c_cflag = raise (mask (raise (mask tio.c_cflag)));
  c_iflag = icrnl ∷ ixon ∷ ixoff ∷ iutf8 ∷ [];
  c_oflag = onlcr ∷ opost ∷ [];
  c_lflag = echo ∷ echoctl ∷ echoe ∷ echok ∷ echoke ∷ icanon ∷ iexten ∷ isig ∷ [];
}

unfoldable pub reset_term : World → ℕ → Trace → Trace
unfolding sane
reset_term w fd t =
    if not (w.isatty t fd)
    then t
    else elim (w.tcgetattr t fd) [ none ↦ t | some tio ↦ tcflush fd ∷ tcsetattr fd (sane tio) ∷ t ]

-- Whether none of the three failed; `none` when the fuel is gone.
unfoldable pub dup_all : ℕ → World → ℕ → List ℕ → Bool → Trace → Option (Bool × Trace)
unfolding dupfd2
dup_all fuel w fd [] good t = some (good, t)
dup_all fuel w fd (n ∷ ns) good t = elim (dupfd2 fuel w fd n t) [
  | none ↦ none
  | some (none, u) ↦ dup_all fuel w fd ns false u
  | some (some i, u) ↦ dup_all fuel w fd ns good u
]

-- Behind the three calls of `dupfd2`.
unfoldable pub end_redirio : World → ℕ → Trace → Trace
unfolding reset_term
end_redirio w fd t =
    let u = if w.isatty t fd then reset_term w fd t else t in
    if ltb 2 fd then close_fd fd ∷ u else u

-- With what `open` returned.
unfoldable pub redirio_fd : ℕ → World → Answer → Trace → Option (Bool × Trace)
unfolding dup_all end_redirio
redirio_fd fuel w (ok fd) t = elim (dup_all fuel w fd (0 ∷ 1 ∷ 2 ∷ []) true t) [
  | none ↦ none
  | some (good, u) ↦ some (good, end_redirio w fd u)
]
redirio_fd fuel w (failed e) t = some (false, t)
redirio_fd fuel w gone t = some (false, t)

-- Whether it returns 0.
unfoldable pub redirio : ℕ → World → FileName → Trace → Option (Bool × Trace)
unfolding redirio_fd
redirio fuel w [] t = some (false, t)
redirio fuel w (c ∷ cs) t =
    redirio_fd fuel w (w.answer t (open_tty (c ∷ cs))) (open_tty (c ∷ cs) ∷ t)

-- s && * s && is_c ( s )
unfoldable pub is_console : World → Trace → Option FileName → Bool
is_console w t none = false
is_console w t (some []) = false
is_console w t (some (c ∷ cs)) = w.is_c t (c ∷ cs)

-- the first of the four that is a character device, or what `s` is then
unfoldable pub find_console : World → Build → Trace → Option FileName
unfolding is_console
find_console w b t =
    let upper = w.getenv (codes "CONSOLE") in
    let lower = w.getenv (codes "console") in
    if is_console w t upper
    then upper
    else if is_console w t lower
    then lower
    else if w.is_c t b.console
    then some b.console
    else if w.is_c t b.vt_master
    then some b.vt_master
    else lower

unfoldable pub redirect_to : ℕ → World → Option FileName → Trace → Option Trace
unfolding redirio
redirect_to fuel w none t = some t
redirect_to fuel w (some s) t = elim (redirio fuel w s t) [ none ↦ none | some (good, u) ↦ some u ]

unfoldable pub consio : ℕ → World → Build → Trace → Option Trace
unfolding seed_dev find_console is_console redirect_to
consio fuel w b t =
    let u = seed_dev w b t in
    let s = find_console w b u in if is_console w u s then redirect_to fuel w s u else some u

unfoldable pub setup_io : ℕ → World → Build → Trace → Option Trace
unfolding reset_term consio
setup_io fuel w b t =
    if w.isatty t 0 && (w.isatty t 1 && w.isatty t 2)
    then some (reset_term w 0 t)
    else consio fuel w b t
