-- ===== src/Stage2/Control.antt =====
-- src/stage2.c, `term`, `hup`, `quit`, `intr`, `usr1`, `handle_signals` and `handle_control`.
pub mod Letters
use peso.Base.{
  Option-cases, inl, inr, ℕ, ◌≡◌, refl, true, false, List, [], ◌∷◌, ◌++◌, map, Option, none, some,
  ◌==◌, ◌||◌, if◌then◌else◌, arith,
}
use peso.Stage2.{reboot, poweroff, halt, other, Flags}

-- What `selfpipe_read` returns: -1, or a signal; 0 ends the list.
pub data Sig : Type 0 where
  read_failed sigchld sigalrm sigabrt sigterm sighup sigquit sigint sigusr1 sigusr2 : Sig

-- What `fd_read` returns: an error, or one byte; no byte ends the list.
pub data Read : Type 0 where
  broken : Read
  byte : ℕ → Read

unfoldable pub term : Flags → Flags
term s = record s { cont = false; wantkill = 3 }

unfoldable pub hup : Flags → Flags
hup s = record s { cont = false; wantkill = 1 }

unfoldable pub quit : Flags → Flags
quit s = record s { cont = false; wantkill = 7 }

unfoldable pub intr : Flags → Flags
unfolding term
intr s = term (record s { finish_arg = reboot })

unfoldable pub usr1 : Flags → Flags
unfolding term
usr1 s = term (record s { finish_arg = poweroff })

-- `none` is `panic`, which runs another program. A signal without a case is skipped.
unfoldable pub handle_signals : List Sig → Flags → Option Flags
unfolding hup quit intr
handle_signals [] s = some s
handle_signals (read_failed ∷ is) s = none
handle_signals (sigchld ∷ is) s = handle_signals is (record s { wantreap = true })
handle_signals (sigalrm ∷ is) s = handle_signals is (record s { wantscan = true })
handle_signals (sigabrt ∷ is) s = handle_signals is (record s { cont = false })
handle_signals (sigterm ∷ is) s = handle_signals is (term s)
handle_signals (sighup ∷ is) s = handle_signals is (hup s)
handle_signals (sigquit ∷ is) s = handle_signals is (quit s)
handle_signals (sigint ∷ is) s = handle_signals is (intr s)
handle_signals (sigusr1 ∷ is) s = handle_signals is s
handle_signals (sigusr2 ∷ is) s = handle_signals is s

-- With the signals whose program is spawned, in their order: all without a case of their own.
unfoldable pub handle_diverted_signals : List Sig → Flags → Option (Flags × List Sig)
handle_diverted_signals [] s = some (s, [])
handle_diverted_signals (read_failed ∷ is) s = none
handle_diverted_signals (sigchld ∷ is) s = handle_diverted_signals is (record s { wantreap = true })
handle_diverted_signals (sigalrm ∷ is) s = handle_diverted_signals is (record s { wantscan = true })
handle_diverted_signals (sigabrt ∷ is) s = handle_diverted_signals is (record s { cont = false })
handle_diverted_signals (i ∷ is) s = elim (handle_diverted_signals is s) [
  | none ↦ none
  | some (t, spawned) ↦ some (t, i ∷ spawned)
]

-- The signals that have no case in `handle_diverted_signals`.
unfoldable pub diverted : List Sig → List Sig
diverted [] = []
diverted (sigterm ∷ is) = sigterm ∷ diverted is
diverted (sighup ∷ is) = sighup ∷ diverted is
diverted (sigquit ∷ is) = sigquit ∷ diverted is
diverted (sigint ∷ is) = sigint ∷ diverted is
diverted (sigusr1 ∷ is) = sigusr1 ∷ diverted is
diverted (sigusr2 ∷ is) = sigusr2 ∷ diverted is
diverted (i ∷ is) = diverted is

-- A run of `handle_diverted_signals` that does not panic spawns a program for each signal other
-- than SIGCHLD, SIGALRM and SIGABRT, in their order, and leaves `wantkill` and `finish_arg`
-- alone.
pub handle_diverted_signals-diverted :
    (is : List Sig) (s t : Flags) (spawned : List Sig)
    → handle_diverted_signals is s ≡ some (t, spawned)
    → (spawned ≡ diverted is) × (t.wantkill ≡ s.wantkill) × (t.finish_arg ≡ s.finish_arg)
unfolding handle_diverted_signals diverted
handle_diverted_signals-diverted [] s t spawned e = ground (arith, e)
handle_diverted_signals-diverted (read_failed ∷ is) s t spawned e = cc
handle_diverted_signals-diverted (sigchld ∷ is) s t spawned e =
    handle_diverted_signals-diverted is (record s { wantreap = true }) t spawned e
handle_diverted_signals-diverted (sigalrm ∷ is) s t spawned e =
    handle_diverted_signals-diverted is (record s { wantscan = true }) t spawned e
handle_diverted_signals-diverted (sigabrt ∷ is) s t spawned e =
    handle_diverted_signals-diverted is (record s { cont = false }) t spawned e
handle_diverted_signals-diverted (i ∷ is) s t spawned e =
    elim (Option-cases (handle_diverted_signals is s)) [
      | inl n ↦ ground (arith, e, n)
      | inr ((u, l), n) ↦ ground (arith, e, n, handle_diverted_signals-diverted is s u l n)
    ]

-- The commands behind which `handle_control` returns at once, with what they do.
unfoldable pub last_command : ℕ → Flags → Option Flags
unfolding hup quit intr usr1
last_command c s =
    if c == b'h'
    then some (hup s)
    else if c == b't'
    then some (term s)
    else if c == b'b'
    then some (record s { cont = false })
    else if c == b'6' || c == b'i'
    then some (intr s)
    else if c == b'q'
    then some (quit s)
    else if c == b'0'
    then some (term (record s { finish_arg = halt }))
    else if c == b'7'
    then some (usr1 s)
    else if c == b'8'
    then some (term (record s { finish_arg = other }))
    else none

-- The other commands. One that is unknown is only warned about.
unfoldable pub command : ℕ → Flags → Flags
command c s =
    if c == b'p'
    then record s { finish_arg = poweroff }
    else if c == b'r'
    then record s { finish_arg = reboot }
    else if c == b'a'
    then record s { wantscan = true }
    else if c == b's'
    then record s { finish_arg = halt }
    else if c == b'z'
    then record s { wantreap = true }
    else if c == b'n'
    then record s { wantkill = 2 }
    else if c == b'N'
    then record s { wantkill = 6 }
    else s

-- The flags, and what was not read yet; `none` is `panic`.
unfoldable pub handle_control : List Read → Flags → Option (Flags × List Read)
unfolding last_command command
handle_control [] s = some (s, [])
handle_control (broken ∷ rs) s = none
handle_control (byte c ∷ rs) s =
    let rest = handle_control rs (command c s) in
    elim (last_command c s) [ some t ↦ some (t, rs) | none ↦ rest ]

-- What a list of commands that all go on does.
unfoldable pub commands : List ℕ → Flags → Flags
unfolding command
commands [] s = s
commands (c ∷ cs) s = commands cs (command c s)

unfoldable pub GoOn : List ℕ → Flags → Type 0
unfolding last_command
GoOn [] s = Unit
GoOn (c ∷ cs) s = (last_command c s ≡ none) × GoOn cs (command c s)

-- The bytes are read up to the first command that is a last one, and no further: behind
-- commands that go on, it acts on the flags that they set.
pub handle_control-commands :
    (cs : List ℕ) (c : ℕ) (rs : List Read) (s t : Flags)
    → GoOn cs s
    → last_command c (commands cs s) ≡ some t
    → handle_control (map byte cs ++ byte c ∷ rs) s ≡ some (t, rs)
unfolding handle_control GoOn commands
handle_control-commands [] c rs s t g l = ground (arith, l)
handle_control-commands (d ∷ cs) c rs s t (g, gs) l =
    ground (arith, g, handle_control-commands cs c rs (command d s) t gs l)

-- The command of a signal that stops the scanner.
unfoldable pub letter : Sig → Option ℕ
letter sigabrt = some b'b'
letter sigterm = some b't'
letter sighup = some b'h'
letter sigquit = some b'q'
letter sigint = some b'i'
letter i = none

-- SIGABRT, SIGTERM, SIGHUP, SIGQUIT and SIGINT set the same flags as the commands `b`, `t`,
-- `h`, `q` and `i`, behind which no more commands are read.
pub handle_control-handle_signals :
    (i : Sig) (c : ℕ) (rs : List Read) (s : Flags)
    → letter i ≡ some c
    → (t : Flags) × (handle_signals (i ∷ []) s ≡ some t)
      × (handle_control (byte c ∷ rs) s ≡ some (t, rs))
unfolding letter handle_signals handle_control last_command
handle_control-handle_signals sigabrt c rs s e = (_, refl, ground (arith, e))
handle_control-handle_signals sigterm c rs s e = (_, refl, ground (arith, e))
handle_control-handle_signals sighup c rs s e = (_, refl, ground (arith, e))
handle_control-handle_signals sigquit c rs s e = (_, refl, ground (arith, e))
handle_control-handle_signals sigint c rs s e = (_, refl, ground (arith, e))
handle_control-handle_signals i c rs s e = ground (arith, e)

-- A run of `handle_control` that does not panic never sets `cont` again once it is cleared.
pub handle_control-cont :
    (rs : List Read) (s : Flags)
    → s.cont ≡ false
    → (t : Flags) (left : List Read) → handle_control rs s ≡ some (t, left)
    → t.cont ≡ false
unfolding handle_control command last_command term hup quit intr usr1
handle_control-cont [] s h t left e = ground (arith, h, e)
handle_control-cont (broken ∷ rs) s h t left e = ground (arith, h, e)
handle_control-cont (byte c ∷ rs) s h t left e =
    ground (arith, h, e, handle_control-cont rs (command c s) (ground (arith, h)) t left)
