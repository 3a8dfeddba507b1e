-- ===== src/Stage3/Facts.antt =====
-- src/stage3.c: what the client asks for, what `kill_all` signals and how the system goes down.
use peso.Base.{
  ℕ, zero, suc, ◌≡◌, ◌≢◌, refl, ◌↔◌, not, ◌&&◌, ◌||◌, has, ltb, List, [], ◌∷◌, ◌==◌, if◌then◌else◌,
  arith,
}
use peso.Os.{
  Signal, everyone, Word, halt, poweroff, reboot_word, Cmd, rb_power_off, rb_halt_system,
  rb_autoboot, Call, drop_privileges, pause, reap_all, kill, reboot, sleep, returned, stopped,
  running, gone, Kernel, M, Outcome, Trace, ◌>>◌, call,
}
use peso.Reboot.{do_reboot}
use peso.Stage3.{
  Flags, no_flags, client, goal, down_how, sys_down, wait_forever, vfork_reboot, take_flag,
  take_flags, main, stage3,
}

-- Two sets of flags with the same FLAG_HALT and FLAG_DIRECT are the same to the client:
-- FLAG_POWEROFF and FLAG_REBOOT change nothing.
pub client-flags :
    (k : Kernel) (f g : Flags) (t : Trace)
    → f.flag_halt ≡ g.flag_halt
    → f.flag_direct ≡ g.flag_direct
    → client k f t ≡ client k g t
unfolding client
client-flags k f g t h d = ground (arith, h, d)

-- The word of the last message for the letter that `sys_down` goes by.
unfoldable pub word_of : ℕ → Word
word_of how = if how == b'h' then halt else if how == b'p' then poweroff else reboot_word

-- The last message of stage 3 says what `sys_down` asks for just when FLAG_REBOOT is given, or
-- one of FLAG_HALT and FLAG_POWEROFF, but not both sides: without a flag it says reboot and
-- powers off.
pub goal-down_how :
    (f : Flags)
    → (goal f ≡ word_of (down_how f)) ↔ ((f.flag_halt || f.flag_poweroff) ≡ not f.flag_reboot)
unfolding goal down_how word_of
goal-down_how f = (λ e. ground (arith, e), λ e. ground (arith, e))

-- The program returns from no calls.
unfoldable Never : {A : Type 0} → M A → Type 0
Never {A = A} m = (t u : Trace) (r : A) → m t ≢ returned r u

after-Never :
    {A B : Type 0} (m : M A) (f : M B) (t : Trace) (o : Outcome A)
    → m t ≡ o
    → Never f
    → (u : Trace) (r : B) → (m >> f) t ≢ returned r u
unfolding Never
after-Never m f t (returned a v) p h u r e = h v u r (ground (arith, e, p))
after-Never m f t (stopped v) p h u r e = ground (arith, e, p)
after-Never m f t (running v) p h u r e = ground (arith, e, p)

>>-Never : {A B : Type 0} (m : M A) (f : M B) → Never f → Never (m >> f)
unfolding Never
>>-Never m f h t = after-Never m f t (m t) refl h

wait_forever-Never : (n : ℕ) (k : Kernel) → Never (wait_forever n k)
unfolding wait_forever Never
wait_forever-Never zero k t u r e = ground (arith, e)
wait_forever-Never (suc n) k t u r e =
    >>-Never (call k pause >> call k (sleep 3000000)) (wait_forever n k) (wait_forever-Never n k) t
      u r e

-- As process 1 `sys_down` never returns, whatever the kernel answers and however much fuel
-- there is.
pub sys_down-init :
    (n : ℕ) (k : Kernel) (f : Flags) (t u : Trace) (r : ℕ) → sys_down n k 1 f t ≢ returned r u
unfolding sys_down Never
sys_down-init n k f t u r e =
    let waits = wait_forever-Never n k in
    let reaps = >>-Never (call k reap_all) (wait_forever n k) waits in
    let forks =
      >>-Never (vfork_reboot n k (down_how f)) (call k reap_all >> wait_forever n k) reaps in
    >>-Never (do_reboot k b'C')
      (vfork_reboot n k (down_how f) >> (call k reap_all >> wait_forever n k)) forks t u r e

-- What the options ask for: each flag by the letters among them, and to be a client only from process 2
-- on.
unfoldable pub given : ℕ → List ℕ → Flags
given pid opts = record {
  flag_client = ltb 1 pid && (has b'C' opts || (has b'f' opts || has b'F' opts));
  flag_direct = ltb 1 pid && (has b'f' opts || has b'F' opts);
  flag_reboot = has b'r' opts || has b'R' opts;
  flag_halt = has b'h' opts || has b'H' opts;
  flag_poweroff = has b'p' opts || has b'P' opts;
}

take_flags-client :
    (pid : ℕ) (is : List ℕ) (f : Flags)
    → (take_flags pid is f).flag_client
      ≡ (f.flag_client || ltb 1 pid && (has b'C' is || (has b'f' is || has b'F' is)))
unfolding take_flags take_flag
take_flags-client pid [] f = ground arith
take_flags-client pid (i ∷ is) f = ground (arith, take_flags-client pid is (take_flag pid i f))

take_flags-direct :
    (pid : ℕ) (is : List ℕ) (f : Flags)
    → (take_flags pid is f).flag_direct
      ≡ (f.flag_direct || ltb 1 pid && (has b'f' is || has b'F' is))
unfolding take_flags take_flag
take_flags-direct pid [] f = ground arith
take_flags-direct pid (i ∷ is) f = ground (arith, take_flags-direct pid is (take_flag pid i f))

take_flags-reboot :
    (pid : ℕ) (is : List ℕ) (f : Flags)
    → (take_flags pid is f).flag_reboot ≡ (f.flag_reboot || (has b'r' is || has b'R' is))
unfolding take_flags take_flag
take_flags-reboot pid [] f = ground arith
take_flags-reboot pid (i ∷ is) f = ground (arith, take_flags-reboot pid is (take_flag pid i f))

take_flags-halt :
    (pid : ℕ) (is : List ℕ) (f : Flags)
    → (take_flags pid is f).flag_halt ≡ (f.flag_halt || (has b'h' is || has b'H' is))
unfolding take_flags take_flag
take_flags-halt pid [] f = ground arith
take_flags-halt pid (i ∷ is) f = ground (arith, take_flags-halt pid is (take_flag pid i f))

take_flags-poweroff :
    (pid : ℕ) (is : List ℕ) (f : Flags)
    → (take_flags pid is f).flag_poweroff ≡ (f.flag_poweroff || (has b'p' is || has b'P' is))
unfolding take_flags take_flag
take_flags-poweroff pid [] f = ground arith
take_flags-poweroff pid (i ∷ is) f = ground (arith, take_flags-poweroff pid is (take_flag pid i f))

take_flags-given : (pid : ℕ) (is : List ℕ) → take_flags pid is no_flags ≡ given pid is
unfolding given
take_flags-given pid is = cc (
  take_flags-client pid is no_flags,
  take_flags-direct pid is no_flags,
  take_flags-reboot pid is no_flags,
  take_flags-halt pid is no_flags,
  take_flags-poweroff pid is no_flags,
)

main-take_flags :
    (n : ℕ) (k : Kernel) (pid uid euid : ℕ) (opts : List ℕ) (t : Trace)
    → k t drop_privileges ≢ gone
    → main n k pid uid euid opts t ≡ (
        if not (uid == 0) || not (euid == 0)
        then returned 100 (drop_privileges ∷ t)
        else if ltb 1 pid && (take_flags pid opts no_flags).flag_client
        then client k (take_flags pid opts no_flags) (drop_privileges ∷ t)
        else stage3 n k pid (take_flags pid opts no_flags) (drop_privileges ∷ t))
unfolding main
main-take_flags n k pid uid euid opts t h = ground (arith, h)

-- When the first calls of the kernel return: for another than the super user `main` returns
-- 100. For the super user the flags are what the letters among the options ask for, in any
-- order and number, `C`, `f` and `F` only from process 2 on, and `main` is the client with
-- these flags just when one of those three was given from process 2 on, and else stage 3.
pub main-given :
    (n : ℕ) (k : Kernel) (pid uid euid : ℕ) (opts : List ℕ) (t : Trace)
    → k t drop_privileges ≢ gone
    → main n k pid uid euid opts t ≡ (
        if not (uid == 0) || not (euid == 0)
        then returned 100 (drop_privileges ∷ t)
        else if ltb 1 pid && (given pid opts).flag_client
        then client k (given pid opts) (drop_privileges ∷ t)
        else stage3 n k pid (given pid opts) (drop_privileges ∷ t))
main-given n k pid uid euid opts t h =
    rw⁻¹ (take_flags-given pid opts) (main-take_flags n k pid uid euid opts t h)

-- The commands given to reboot ( 2 ), and the signals sent to all, latest first.
unfoldable pub requests : Trace → List Cmd
requests [] = []
requests (reboot c ∷ t) = c ∷ requests t
requests (c ∷ t) = requests t

unfoldable pub signals : Trace → List Signal
signals [] = []
signals (kill everyone s ∷ t) = s ∷ signals t
signals (c ∷ t) = signals t

-- The command that a letter asks for at last.
unfoldable pub asked : ℕ → List Cmd
asked how =
    if how == b'p'
    then rb_halt_system ∷ rb_power_off ∷ []
    else if how == b'h'
    then rb_halt_system ∷ []
    else rb_autoboot ∷ []

-- What a call does on a kernel that returns from each call.
call-returns :
    (k : Kernel) (t : Trace) (c : Call) → k t c ≢ gone → call k c t ≡ returned (k t c) (c ∷ t)
call-returns k t c h = ground (arith, h)
