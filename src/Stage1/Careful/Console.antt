-- ===== src/Stage1/Careful/Console.antt =====
-- src/stage1.c: the same where the console is set up.
use peso.Base.{
  ℕ, zero, suc, Bool, true, false, ◌&&◌, List, [], ◌∷◌, Option, none, some, Bool-cases,
  Option-cases, ◌==◌, ltb, if◌then◌else◌, if_both, inl, inr,
}
use peso.Os.{Answer, ok, failed, gone}
use peso.Stage1.{FileName, close_fd, dup2, open_tty, Trace, World, Build}
use peso.Stage1.Seed.{seed_dev}
use peso.Stage1.Console.{
  eintr, dup_loop, dupfd2, reset_term, dup_all, end_redirio, redirio_fd, redirio, is_console,
  find_console, redirect_to, consio, setup_io,
}
use peso.Stage1.Careful.{Careful, seed_dev-Careful}

module _ (w : World) where
  -- The predicate on a result that may be out of fuel.
  abbrev pub CarefulAfter : {A : Type 0} → Option (A × Trace) → Type 0
  CarefulAfter none = Unit
  CarefulAfter (some (a, t)) = Careful w t

  abbrev pub CarefulThen : Option Trace → Type 0
  CarefulThen none = Unit
  CarefulThen (some t) = Careful w t

  pub dup_loop-Careful :
      (fuel o n : ℕ) (t : Trace) → Careful w t → CarefulAfter (dup_loop fuel w o n t)
  unfolding dup_loop Careful
  dup_loop-Careful zero o n t c = tt
  dup_loop-Careful (suc fuel) o n t c =
      next (w.answer t (dup2 o n)) (dup_loop-Careful fuel o n (dup2 o n ∷ t) (tt, c))
    where
      next :
          (a : Answer)
          → CarefulAfter (dup_loop fuel w o n (dup2 o n ∷ t))
          → CarefulAfter (elim a [
            | ok i ↦ some (some i, dup2 o n ∷ t)
            | failed e ↦
                if e == eintr then dup_loop fuel w o n (dup2 o n ∷ t) else some (none, dup2 o n ∷ t)
            | gone ↦ some (none, dup2 o n ∷ t)
          ])
      next (ok i) r = (tt, c)
      next (failed e) r =
          if_both CarefulAfter (e == eintr) (dup_loop fuel w o n (dup2 o n ∷ t))
            (some (none, dup2 o n ∷ t)) (λ y. r) (λ y. (tt, c))
      next gone r = (tt, c)

  pub dupfd2-Careful : (fuel o n : ℕ) (t : Trace) → Careful w t → CarefulAfter (dupfd2 fuel w o n t)
  unfolding dupfd2
  dupfd2-Careful fuel o n t c =
      if_both CarefulAfter (o == n) (some (some n, t)) (dup_loop fuel w o n t) (λ y. c)
        (λ y. dup_loop-Careful fuel o n t c)

  pub dup_all-Careful :
      (fuel fd : ℕ) (ns : List ℕ) (good : Bool) (t : Trace)
      → Careful w t
      → CarefulAfter (dup_all fuel w fd ns good t)
  unfolding dup_all
  dup_all-Careful fuel fd [] good t c = c
  dup_all-Careful fuel fd (n ∷ ns) good t c =
      next (dupfd2 fuel w fd n t) (dupfd2-Careful fuel fd n t c)
        (λ g u d. dup_all-Careful fuel fd ns g u d)
    where
      next :
          (r : Option (Option ℕ × Trace))
          → CarefulAfter r
          → ((g : Bool) (u : Trace) → Careful w u → CarefulAfter (dup_all fuel w fd ns g u))
          → CarefulAfter (elim r [
            | none ↦ none
            | some (none, u) ↦ dup_all fuel w fd ns false u
            | some (some i, u) ↦ dup_all fuel w fd ns good u
          ])
      next none d f = tt
      next (some (none, u)) d f = f false u d
      next (some (some i, u)) d f = f good u d

  pub reset_term-Careful : (fd : ℕ) (t : Trace) → Careful w t → Careful w (reset_term w fd t)
  unfolding reset_term Careful
  reset_term-Careful fd t c = elim (Bool-cases (w.isatty t fd)) [
    | inl y ↦ elim (Option-cases (w.tcgetattr t fd)) [
      | inl g ↦ rw (y, reset_term) (rw g c)
      | inr (tio, g) ↦ rw (y, reset_term) (rw g (tt, (tt, c)))
    ]
    | inr y ↦ rw (y, reset_term) c
  ]

  pub end_redirio-Careful : (fd : ℕ) (t : Trace) → Careful w t → Careful w (end_redirio w fd t)
  unfolding end_redirio Careful
  end_redirio-Careful fd t c =
      let u = if w.isatty t fd then reset_term w fd t else t in
      let d : Careful w u =
        if_both (Careful w) (w.isatty t fd) (reset_term w fd t) t (λ y. reset_term-Careful fd t c)
          (λ y. c) in
      if_both (Careful w) (ltb 2 fd) (close_fd fd ∷ u) u (λ y. (tt, d)) (λ y. d)

  pub redirio_fd-Careful :
      (fuel : ℕ) (a : Answer) (t : Trace) → Careful w t → CarefulAfter (redirio_fd fuel w a t)
  unfolding redirio_fd
  redirio_fd-Careful fuel (failed e) t c = c
  redirio_fd-Careful fuel gone t c = c
  redirio_fd-Careful fuel (ok fd) t c =
      next (dup_all fuel w fd (0 ∷ 1 ∷ 2 ∷ []) true t)
        (dup_all-Careful fuel fd (0 ∷ 1 ∷ 2 ∷ []) true t c)
    where
      next :
          (r : Option (Bool × Trace))
          → CarefulAfter r
          → CarefulAfter (elim r [ none ↦ none | some (good, u) ↦ some (good, end_redirio w fd u) ])
      next none d = tt
      next (some (good, u)) d = end_redirio-Careful fd u d

  pub redirio-Careful :
      (fuel : ℕ) (path : FileName) (t : Trace) → Careful w t → CarefulAfter (redirio fuel w path t)
  unfolding redirio Careful
  redirio-Careful fuel [] t c = c
  redirio-Careful fuel (x ∷ xs) t c =
      redirio_fd-Careful fuel (w.answer t (open_tty (x ∷ xs))) (open_tty (x ∷ xs) ∷ t) (tt, c)

  pub redirect_to-Careful :
      (fuel : ℕ) (s : Option FileName) (t : Trace)
      → Careful w t
      → CarefulThen (redirect_to fuel w s t)
  unfolding redirect_to
  redirect_to-Careful fuel none t c = c
  redirect_to-Careful fuel (some s) t c = next (redirio fuel w s t) (redirio-Careful fuel s t c)
    where
      next :
          (r : Option (Bool × Trace))
          → CarefulAfter r
          → CarefulThen (elim r [ none ↦ none | some (good, u) ↦ some u ])
      next none d = tt
      next (some (good, u)) d = d

  pub consio-Careful :
      (fuel : ℕ) (b : Build) (t : Trace) → Careful w t → CarefulThen (consio fuel w b t)
  unfolding consio
  consio-Careful fuel b t c =
      let u = seed_dev w b t in
      let s = find_console w b u in
      if_both CarefulThen (is_console w u s) (redirect_to fuel w s u) (some u)
        (λ y. redirect_to-Careful fuel s u (seed_dev-Careful w b t c))
        (λ y. seed_dev-Careful w b t c)

  pub setup_io-Careful :
      (fuel : ℕ) (b : Build) (t : Trace) → Careful w t → CarefulThen (setup_io fuel w b t)
  unfolding setup_io
  setup_io-Careful fuel b t c =
      if_both CarefulThen (w.isatty t 0 && (w.isatty t 1 && w.isatty t 2)) (some (reset_term w 0 t))
        (consio fuel w b t) (λ y. reset_term-Careful 0 t c) (λ y. consio-Careful fuel b t c)
