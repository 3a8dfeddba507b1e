-- ===== src/Stage1/Careful/Whole.antt =====
-- src/stage1.c, `main`: the same in a whole run.
use peso.Base.{
  ℕ, not, ◌&&◌, ◌||◌, List, [], ◌∷◌, ◌++◌, Option, none, some, ◌==◌, ltb, if_both, codes,
}
use peso.Os.{Answer, ok, failed, gone}
use peso.Stage1.{
  FileName, seteuid, setegid, Call, chdir, chroot, setpgid, setsid, chvt, reap_some, execve,
  execvpe, execvp, Trace, World, Build,
}
use peso.Stage1.Seed.{seed_pseudofs, seed_misc}
use peso.Stage1.Console.{consio, setup_io}
use peso.Stage1.Main.{
  GetOpt, opt_e, opt_s, opt_c, opt_other, Process, Result, exits, executes, change_root, take_opt,
  take_opts, exec_all, from_words, from_line, default_stage2, prepare, run_stage1, boot, main,
  non_empty, answers,
}
use peso.Stage1.Careful.{
  Careful, mount_pseudofs-Careful, Guarded, seed_dev-Careful, seed_misc-Careful, seed_run-Careful,
}
use peso.Stage1.Careful.Console.{CarefulThen, consio-Careful, setup_io-Careful}

module _ (w : World) where
  change_root-Careful : (dir : FileName) (t : Trace) → Careful w t → Careful w (change_root w dir t)
  unfolding change_root Careful
  change_root-Careful dir t c =
      if_both (Careful w) (non_empty dir && w.is_d t dir) _ (chdir (codes "/") ∷ t)
        (λ y.
          if_both (Careful w) (answers (w.answer t (chdir dir)))
            (chdir (codes "/") ∷ chroot dir ∷ chdir dir ∷ t) (chdir (codes "/") ∷ chdir dir ∷ t)
            (λ z. (tt, (tt, (tt, c)))) (λ z. (tt, (tt, c))))
        (λ y. (tt, c))

  take_opt-Careful :
      (pid : ℕ) (o : GetOpt) (x : Option FileName × Trace)
      → Careful w x.1
      → Careful w (take_opt w pid o x).1
  unfolding take_opt
  take_opt-Careful pid (opt_e none) (ex, t) c = c
  take_opt-Careful pid (opt_e (some arg)) (ex, t) c =
      if_both (λ (x : Option FileName × Trace). Careful w x.1)
        (non_empty arg && (w.is_f t arg && w.readable t arg)) (some arg, t) (ex, t) (λ y. c)
        (λ y. c)
  take_opt-Careful pid (opt_s arg) (ex, t) c = c
  take_opt-Careful pid (opt_c arg) (ex, t) c =
      if_both (λ (x : Option FileName × Trace). Careful w x.1) (pid == 1) (ex, change_root w arg t)
        (ex, t) (λ y. change_root-Careful arg t c) (λ y. c)
  take_opt-Careful pid opt_other (ex, t) c = c

  take_opts-Careful :
      (pid : ℕ) (os : List GetOpt) (x : Option FileName × Trace)
      → Careful w x.1
      → Careful w (take_opts w pid os x).1
  unfolding take_opts
  take_opts-Careful pid [] x c = c
  take_opts-Careful pid (o ∷ os) x c = take_opts-Careful pid os _ (take_opt-Careful pid o x c)

  prepare-Careful : (b : Build) (t : Trace) → Careful w t → Careful w (prepare b t)
  unfolding prepare Careful
  prepare-Careful b t c =
      if_both (Careful w) b.has_domain _ _ (λ y. (tt, (tt, (tt, (tt, (tt, (tt, c)))))))
        (λ y. (tt, (tt, (tt, (tt, (tt, c))))))

  run_stage1-Careful : (b : Build) (t : Trace) → Careful w t → Careful w (run_stage1 w b t)
  unfolding run_stage1 seed_pseudofs Careful
  run_stage1-Careful b t c =
      let u : Careful w (setpgid ∷ setsid ∷ chvt 1 ∷ t) = (tt, (tt, (tt, c))) in
      let v = seed_run-Careful w b _ (seed_dev-Careful w b _ (mount_pseudofs-Careful w b _ u)) in
      (tt, (tt, (tt, (tt, v))))

  boot-Careful : (fuel : ℕ) (b : Build) (t : Trace) → Careful w t → CarefulThen w (boot fuel w b t)
  unfolding boot Careful
  boot-Careful fuel b t c =
      first (setup_io fuel w b (prepare b t)) (setup_io-Careful w fuel b _ (prepare-Careful b t c))
    where
      second :
          (r : Option Trace)
          → CarefulThen w r
          → CarefulThen w
              (elim r [ none ↦ none | some v ↦ some (seed_misc w b (reap_some ∷ chvt 1 ∷ v)) ])
      second none d = tt
      second (some v) d = seed_misc-Careful w b _ (tt, (tt, d))

      first :
          (r : Option Trace)
          → CarefulThen w r
          → CarefulThen w (elim r [
            | none ↦ none
            | some u ↦ elim (consio fuel w b (run_stage1 w b u)) [
              | none ↦ none
              | some v ↦ some (seed_misc w b (reap_some ∷ chvt 1 ∷ v))
            ]
          ])
      first none d = tt
      first (some u) d =
          second (consio fuel w b (run_stage1 w b u))
            (consio-Careful w fuel b _ (run_stage1-Careful b u d))

  -- No `exec` mounts, or makes a device or a link.
  unfoldable Harmless : List Call → Type 0
  Harmless [] = Unit
  Harmless (c ∷ cs) = ((t : Trace) → Guarded w c t) × Harmless cs

  Harmless-++ : (cs ds : List Call) → Harmless cs → Harmless ds → Harmless (cs ++ ds)
  unfolding Harmless
  Harmless-++ [] ds a b = b
  Harmless-++ (c ∷ cs) ds (g, a) b = (g, Harmless-++ cs ds a b)

  from_words-Harmless :
      (b : Build) (ws : List FileName) (t : Trace) → Harmless (from_words w b ws t)
  unfolding from_words Harmless Guarded
  from_words-Harmless b [] t = tt
  from_words-Harmless b (x ∷ args) t =
      let e = λ (u : Trace). tt in
      if_both Harmless (non_empty x && w.is_fnrx t x) _ []
        (λ y.
          if_both Harmless b.has_execvpe
            (execve x (x ∷ args) ∷ execvpe x (x ∷ args) ∷ execvp x (x ∷ args) ∷ [])
            (execve x (x ∷ args) ∷ execvp x (x ∷ args) ∷ []) (λ z. (e, (e, (e, tt))))
            (λ z. (e, (e, tt))))
        (λ y. tt)

  from_line-Harmless :
      (b : Build) (p : Process) (ex : Option FileName) (t : Trace) → Harmless (from_line w b p ex t)
  unfolding from_line Harmless Guarded
  from_line-Harmless b p none t = from_words-Harmless b p.rest t
  from_line-Harmless b p (some ex) t =
      if_both Harmless (non_empty ex && w.is_fnrx t ex) (execve ex p.argv ∷ execvp ex p.argv ∷ [])
        (from_words w b p.rest t) (λ y. ((λ u. tt), ((λ u. tt), tt)))
        (λ y. from_words-Harmless b p.rest t)

  default_stage2-Harmless : (b : Build) (p : Process) → Harmless (default_stage2 b p)
  unfolding default_stage2 Harmless Guarded
  default_stage2-Harmless b p = ((λ u. tt), ((λ u. tt), tt))

  -- The calls before the end.
  abbrev pub CarefulEnd : Result → Type 0
  CarefulEnd (exits code t) = Careful w t
  CarefulEnd (executes c t) = Careful w t

  exec_all-Careful :
      (cs : List Call) (t : Trace) → Harmless cs → Careful w t → CarefulEnd (exec_all w cs t)
  unfolding exec_all Harmless Careful
  exec_all-Careful [] t h c = c
  exec_all-Careful (x ∷ cs) t (g, h) c =
      next (w.answer t x) (exec_all-Careful cs (x ∷ t) h (g t, c))
    where
      next :
          (a : Answer)
          → CarefulEnd (exec_all w cs (x ∷ t))
          → CarefulEnd (elim a [ failed e ↦ exec_all w cs (x ∷ t) | _ ↦ executes x t ])
      next (failed e) r = r
      next (ok n) r = c
      next gone r = c

-- For a run, if it has an end.
unfoldable pub CarefulRun : World → Option Result → Type 0
unfolding Careful
CarefulRun w none = Unit
CarefulRun w (some (exits code t)) = Careful w t
CarefulRun w (some (executes c t)) = Careful w t

end-run : (w : World) (r : Result) → CarefulEnd w r → CarefulRun w (some r)
unfolding CarefulRun
end-run w (exits code t) c = c
end-run w (executes x t) c = c

-- In a run of `main` that has an end, each as it is at the time of the call: no file system is
-- mounted where `lstat` shows a directory that has one of the inodes 1 to 3, or stands below a
-- directory of another device, or has the inode of the one above it; no device is made where
-- there is a character device; and no link is made where `access` finds something.
pub main-Careful :
    (fuel : ℕ) (w : World) (b : Build) (p : Process) (os : List GetOpt)
    → CarefulRun w (main fuel w b p os [])
unfolding main CarefulRun Careful
main-Careful fuel w b p os =
    let start = setegid ∷ seteuid ∷ [] in
    let x = take_opts w p.pid os (none, start) in
    if_both (CarefulRun w) (not (p.uid == 0) || (not (p.euid == 0) || ltb 1 p.pid))
      (some (exits 100 start)) _ (λ y. (tt, (tt, tt)))
      (λ y.
        next x.0 (boot fuel w b x.1)
          (boot-Careful w fuel b x.1 (take_opts-Careful w p.pid os (none, start) (tt, (tt, tt)))))
  where
    next :
        (ex : Option FileName) (r : Option Trace)
        → CarefulThen w r
        → CarefulRun w (elim r [
          | none ↦ none
          | some v ↦ some (exec_all w (from_line w b p ex v ++ default_stage2 b p) v)
        ])
    next ex none d = tt
    next ex (some v) d = end-run w (exec_all w (from_line w b p ex v ++ default_stage2 b p) v) (
        exec_all-Careful w (from_line w b p ex v ++ default_stage2 b p) v
          (Harmless-++ w (from_line w b p ex v) (default_stage2 b p) (from_line-Harmless w b p ex v)
            (default_stage2-Harmless w b p))
          d)
