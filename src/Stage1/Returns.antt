-- ===== src/Stage1/Returns.antt =====
-- src/stage1.c: the end of the loop of `dupfd2`, and of the program.
use peso.Base.{
  ℕ, zero, suc, ◌≤◌, ◌<◌, ◌≡◌, ◌≢◌, ◌⊎◌, refl, Bool, true, false, not, ◌&&◌, ◌||◌, List, [], ◌∷◌,
  ◌++◌, Option, none, some, Bool-cases, ◌==◌, ltb, if_both, inl, inr, arith, ap, ◌∙◌,
}
use peso.Os.{Answer, ok, failed, gone}
use peso.Stage1.{FileName, dup2, seteuid, setegid, chvt, reap_some, open_tty, Trace, World, Build}
use peso.Stage1.Seed.{seed_dev, seed_misc}
use peso.Stage1.Console.{
  eintr, dup_loop, dupfd2, reset_term, dup_all, end_redirio, redirio_fd, redirio, is_console,
  find_console, redirect_to, consio, setup_io,
}
use peso.Stage1.Main.{
  GetOpt, Process, Result, exits, take_opts, exec_all, from_line, default_stage2, prepare,
  run_stage1, boot, main,
}

-- The calls behind `j` more tries.
unfoldable pub tries : ℕ → ℕ → ℕ → Trace → Trace
tries zero o n t = t
tries (suc j) o n t = tries j o n (dup2 o n ∷ t)

-- The call is not interrupted for ever: one of the next tries, of those that the fuel allows, is not.
unfoldable pub Settles : ℕ → World → Type 0
unfolding tries
Settles fuel w =
    (o n : ℕ) (t : Trace)
    → (j : ℕ) × (j < fuel) × (w.answer (tries j o n t) (dup2 o n) ≢ failed eintr)

-- The number is that of a call that was not interrupted.
unfoldable pub number : Answer → Option ℕ
number (ok i) = some i
number (failed e) = none
number gone = none

interrupted : (a : Answer) → (a ≡ failed eintr) ⊎ (a ≢ failed eintr)
interrupted (ok i) = inr (λ e. cc)
interrupted gone = inr (λ e. cc)
interrupted (failed e) = elim (Bool-cases (e == eintr)) [
  | inl y ↦ inl (ap failed (ground (arith, y)))
  | inr y ↦ inr (λ z. ground (arith, y, z))
]

module _ (w : World) (o n : ℕ) where
  dup_loop-again :
      (fuel : ℕ) (t : Trace)
      → w.answer t (dup2 o n) ≡ failed eintr
      → dup_loop (suc fuel) w o n t ≡ dup_loop fuel w o n (dup2 o n ∷ t)
  unfolding dup_loop
  dup_loop-again fuel t e = rw (e, dup_loop) refl

  dup_loop-ends :
      (fuel : ℕ) (t : Trace) (a : Answer)
      → w.answer t (dup2 o n) ≡ a
      → a ≢ failed eintr
      → dup_loop (suc fuel) w o n t ≡ some (number a, dup2 o n ∷ t)
  unfolding dup_loop number
  dup_loop-ends fuel t (ok i) e d = rw (e, dup_loop) refl
  dup_loop-ends fuel t gone e d = rw (e, dup_loop) refl
  dup_loop-ends fuel t (failed x) e d = elim (Bool-cases (x == eintr)) [
    | inl y ↦ absurd (d (ap failed (ground (arith, y))))
    | inr y ↦ rw (e, dup_loop) (rw y refl)
  ]

  -- The last of the tries is the first one that is not interrupted.
  record Tried (j fuel : ℕ) (t : Trace) : Type 0 where
    k : ℕ
    bound : k ≤ j
    uninterrupted : w.answer (tries k o n t) (dup2 o n) ≢ failed eintr
    result :
        dup_loop fuel w o n t
        ≡ some (number (w.answer (tries k o n t) (dup2 o n)), tries (suc k) o n t)

  dup_loop-Tried :
      (j fuel : ℕ) (t : Trace)
      → j < fuel
      → w.answer (tries j o n t) (dup2 o n) ≢ failed eintr
      → Tried j fuel t
  unfolding tries
  dup_loop-Tried j zero t l d = absurd (omega arith)
  dup_loop-Tried zero (suc fuel) t l d = record {
    k = 0;
    bound = omega arith;
    uninterrupted = d;
    result = dup_loop-ends fuel t (w.answer t (dup2 o n)) refl d;
  }
  dup_loop-Tried (suc j) (suc fuel) t l d =
      let more = dup_loop-Tried j fuel (dup2 o n ∷ t) (omega arith) d in
      elim (interrupted (w.answer t (dup2 o n))) [
        | inl e ↦ record {
          k = suc more.k;
          bound = omega (arith, more.bound);
          uninterrupted = more.uninterrupted;
          result = dup_loop-again fuel t e ∙ more.result;
        }
        | inr e ↦ record {
          k = 0;
          bound = omega arith;
          uninterrupted = e;
          result = dup_loop-ends fuel t (w.answer t (dup2 o n)) refl e;
        }
      ]

dupfd2-tries :
    (fuel : ℕ) (w : World) (o n : ℕ) (t : Trace)
    → o ≢ n
    → Settles fuel w
    → (k : ℕ) × (k < fuel)
      × (w.answer (tries k o n t) (dup2 o n) ≢ failed eintr)
      × (dupfd2 fuel w o n t
          ≡ some (number (w.answer (tries k o n t) (dup2 o n)), tries (suc k) o n t))
unfolding dupfd2 Settles
dupfd2-tries fuel w o n t x s =
    let (j, l, d) = s o n t in
    let r = dup_loop-Tried w o n j fuel t l d in
    let y : (o == n) ≡ false = ground (arith, x) in
    (r.k, omega (arith, r.bound), r.uninterrupted, rw (y, dupfd2) r.result)

-- There is a result.
abbrev IsSome : {A : Type 0} → Option A → Type 0
IsSome {A} r = (a : A) × (r ≡ some a)

module _ (fuel : ℕ) (w : World) (s : Settles fuel w) where
  dupfd2-IsSome : (o n : ℕ) (t : Trace) → IsSome (dupfd2 fuel w o n t)
  unfolding dupfd2
  dupfd2-IsSome o n t = elim (Bool-cases (o == n)) [
    | inl y ↦ ((some n, t), rw (y, dupfd2) refl)
    | inr y ↦
        let (k, l, d, e) = dupfd2-tries fuel w o n t (λ z. ground (arith, y, z)) s in
        ((number (w.answer (tries k o n t) (dup2 o n)), tries (suc k) o n t), e)
  ]

  dup_all-IsSome :
      (fd : ℕ) (ns : List ℕ) (good : Bool) (t : Trace) → IsSome (dup_all fuel w fd ns good t)
  unfolding dup_all
  dup_all-IsSome fd [] good t = ((good, t), refl)
  dup_all-IsSome fd (n ∷ ns) good t =
      let (x, e) = dupfd2-IsSome fd n t in
      next x.0 x.1 e (dup_all-IsSome fd ns false x.1) (dup_all-IsSome fd ns good x.1)
    where
      next :
          (i : Option ℕ) (u : Trace)
          → dupfd2 fuel w fd n t ≡ some (i, u)
          → IsSome (dup_all fuel w fd ns false u)
          → IsSome (dup_all fuel w fd ns good u)
          → IsSome (dup_all fuel w fd (n ∷ ns) good t)
      next none u e a b = (a.0, rw (e, dup_all) a.1)
      next (some i) u e a b = (b.0, rw (e, dup_all) b.1)

  redirio_fd-IsSome : (a : Answer) (t : Trace) → IsSome (redirio_fd fuel w a t)
  unfolding redirio_fd
  redirio_fd-IsSome (failed e) t = (_, refl)
  redirio_fd-IsSome gone t = (_, refl)
  redirio_fd-IsSome (ok fd) t =
      let ((good, u), e) = dup_all-IsSome fd (0 ∷ 1 ∷ 2 ∷ []) true t in
      ((good, end_redirio w fd u), rw (e, redirio_fd) refl)

  redirio-IsSome : (path : FileName) (t : Trace) → IsSome (redirio fuel w path t)
  unfolding redirio
  redirio-IsSome [] t = (_, refl)
  redirio-IsSome (c ∷ cs) t =
      redirio_fd-IsSome (w.answer t (open_tty (c ∷ cs))) (open_tty (c ∷ cs) ∷ t)

  redirect_to-IsSome : (path : Option FileName) (t : Trace) → IsSome (redirect_to fuel w path t)
  unfolding redirect_to
  redirect_to-IsSome none t = (_, refl)
  redirect_to-IsSome (some x) t =
      let ((good, u), e) = redirio-IsSome x t in (u, rw (e, redirect_to) refl)

  consio-IsSome : (b : Build) (t : Trace) → IsSome (consio fuel w b t)
  unfolding consio
  consio-IsSome b t =
      let u = seed_dev w b t in
      let c = find_console w b u in
      if_both IsSome (is_console w u c) (redirect_to fuel w c u) (some u)
        (λ y. redirect_to-IsSome c u) (λ y. (u, refl))

  setup_io-IsSome : (b : Build) (t : Trace) → IsSome (setup_io fuel w b t)
  unfolding setup_io
  setup_io-IsSome b t =
      if_both IsSome (w.isatty t 0 && (w.isatty t 1 && w.isatty t 2)) (some (reset_term w 0 t))
        (consio fuel w b t) (λ y. (_, refl)) (λ y. consio-IsSome b t)

  boot-IsSome : (b : Build) (t : Trace) → IsSome (boot fuel w b t)
  unfolding boot
  boot-IsSome b t =
      let (u, e) = setup_io-IsSome b (prepare b t) in
      let (v, g) = consio-IsSome b (run_stage1 w b u) in
      (seed_misc w b (reap_some ∷ chvt 1 ∷ v), rw (e, boot) (rw (g, boot) refl))

-- Where no `dup2` is interrupted as often as there is fuel, `main` comes to an end: it returns,
-- or a program takes its place.
pub main-returns :
    (fuel : ℕ) (w : World) (b : Build) (p : Process) (os : List GetOpt) (t : Trace)
    → Settles fuel w
    → (r : Result) × (main fuel w b p os t ≡ some r)
unfolding main
main-returns fuel w b p os t s =
    let start = setegid ∷ seteuid ∷ t in
    let x = take_opts w p.pid os (none, start) in
    let (v, e) = boot-IsSome fuel w s b x.1 in
    let last = exec_all w (from_line w b p x.0 v ++ default_stage2 b p) v in
    if_both IsSome (not (p.uid == 0) || (not (p.euid == 0) || ltb 1 p.pid)) (some (exits 100 start))
      _ (λ y. (_, refl)) (λ y. (last, rw (e, main) refl))
