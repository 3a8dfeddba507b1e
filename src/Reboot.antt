-- ===== src/Reboot.antt =====
-- src/reboot.c as Linux builds it: `do_reboot` and `sys_reboot`. A letter is its byte.
pub mod Facts
use peso.Base.{ℕ, List, [], ◌∷◌, ◌==◌, ◌||◌, if◌then◌else◌}
use peso.Os.{
  Cmd, rb_disable_cad, rb_enable_cad, rb_sw_suspend, rb_kexec, rb_power_off, rb_halt_system,
  rb_autoboot, Call, sync, reboot, Answer, Kernel, M, ◌>>=◌, ◌>>◌, call,
}

-- The commands that the `switch` of `do_reboot` gives to reboot ( 2 ).
unfoldable pub do_reboot : Kernel → ℕ → M Answer
do_reboot k how =
    if how == b'c'
    then call k (reboot rb_disable_cad)
    else if how == b'C'
    then call k (reboot rb_enable_cad)
    else if how == b's' || how == b'S'
    then (do call k sync; call k (reboot rb_sw_suspend))
    else if how == b'k' || how == b'K'
    then (do call k sync; call k (reboot rb_kexec))
    else if how == b'p' || how == b'P'
    then (do call k sync; call k (reboot rb_power_off); call k (reboot rb_halt_system))
    else if how == b'h' || how == b'H'
    then (do call k sync; call k (reboot rb_halt_system))
    else (do call k sync; call k (reboot rb_autoboot))

-- The case of `o`, `p` and `P` falls through to that of `h`.
unfoldable pub sys_reboot : Kernel → ℕ → M Answer
sys_reboot k how =
    if how == b'c'
    then call k (reboot rb_disable_cad)
    else if how == b'C'
    then call k (reboot rb_enable_cad)
    else if how == b'k' || how == b'K'
    then (do call k sync; call k (reboot rb_kexec))
    else if how == b'o' || (how == b'p' || how == b'P')
    then (do call k sync; call k (reboot rb_power_off); call k sync; call k (reboot rb_halt_system))
    else if how == b'h' || how == b'H'
    then (do call k sync; call k (reboot rb_halt_system))
    else if how == b's' || how == b'S'
    then (do call k sync; call k (reboot rb_sw_suspend))
    else (do call k sync; call k (reboot rb_autoboot))
