-- ===== src/Reboot/Facts.antt =====
-- src/reboot.c: the calls that `do_reboot` and `sys_reboot` make.
use peso.Base.{ℕ, ◌≡◌, ◌≢◌, Bool, true, false, not, [], ◌∷◌, ◌&&◌, ◌||◌, arith}
use peso.Os.{Cmd, rb_disable_cad, rb_enable_cad, sync, reboot, Kernel, Trace, trace}
use peso.Reboot.{do_reboot, sys_reboot}

-- The command ends or suspends the running system; the other two set what a key combination does.
unfoldable pub takes_down : Cmd → Bool
takes_down rb_disable_cad = false
takes_down rb_enable_cad = false
takes_down c = true

-- Before the latest run of reboot calls stands a `sync`.
unfoldable pub after_sync : Trace → Bool
after_sync (sync ∷ t) = true
after_sync (reboot c ∷ t) = after_sync t
after_sync t = false

-- Each command that takes the system down comes behind a `sync`, with only such commands between.
unfoldable pub is_synced : Trace → Bool
unfolding takes_down after_sync
is_synced [] = true
is_synced (reboot c ∷ t) = (not (takes_down c) || after_sync t) && is_synced t
is_synced (c ∷ t) = is_synced t

-- From calls where each command that takes the system down comes behind a `sync`, with only
-- reboot calls between, `do_reboot` goes to such calls, whatever the letter is and the kernel
-- answers.
pub do_reboot-synced :
    (k : Kernel) (how : ℕ) (t : Trace)
    → is_synced t ≡ true
    → is_synced (trace (do_reboot k how t)) ≡ true
unfolding do_reboot is_synced trace
do_reboot-synced k how t h = ground arith

-- Where the letter is none of `o`, `p` and `P`, `do_reboot` and `sys_reboot` make the same
-- calls and return the same.
pub sys_reboot-do_reboot :
    (k : Kernel) (how : ℕ) (t : Trace)
    → how ≢ b'o'
    → how ≢ b'p'
    → how ≢ b'P'
    → sys_reboot k how t ≡ do_reboot k how t
unfolding do_reboot sys_reboot
sys_reboot-do_reboot k how t o p q = ground arith
