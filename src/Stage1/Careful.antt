-- ===== src/Stage1/Careful.antt =====
-- src/stage1.c: what is there when a file system is mounted, and when a device or a link is made.
pub mod Console
pub mod Whole
use peso.Base.{
  ℕ, zero, suc, ◌≡◌, refl, Bool, true, false, not, ◌&&◌, ◌||◌, List, [], ◌∷◌, ◌++◌, Option, none,
  some, Bool-cases, Option-cases, some-inj, ◌==◌, ltb, if◌then◌else◌, if_both, codes, inl, inr,
  arith, subst, sym, ◌∙◌, ◌≢◌,
}
use peso.Os.{Answer, ok, failed, gone}
use peso.Stage1.{
  FileName, octal, seteuid, setegid, Flag, Call, chdir, chroot, setpgid, setsid, chvt, reap_some,
  mkdir, chmod, mknod, symlink, mount, open_trunc, open_append, fchown, fchmod, close_fd, dup2,
  open_tty, tcsetattr, tcflush, execve, execvpe, execvp, Trace, World, Build,
}
use peso.Stage1.Points.{IsMounted, Fits, IsMounted-is_mount_point}
use peso.Stage1.Mounts.{
  is_mount_point, need_dir, do_mount, Mount, pseudofs, do_mounts, mount_pseudofs,
}
use peso.Stage1.Seed.{
  Node, need_node, need_nodes, need_link, nodes, need_dirs, need_links, dirs, links, seed_core,
  seed_dev, own, set_up_file, mkdirs, run_dirs, tmp_dirs, seed_run, seed_pseudofs, seed_misc,
}
use peso.Stage1.Console.{
  eintr, dup_loop, dupfd2, reset_term, sane, dup_all, end_redirio, redirio_fd, redirio, is_console,
  find_console, redirect_to, consio, setup_io,
}
use peso.Stage1.Main.{
  GetOpt, opt_e, opt_s, opt_c, opt_other, Process, Result, exits, executes, change_root, take_opt,
  take_opts, exec_all, from_words, from_line, default_stage2, prepare, run_stage1, boot, main,
  non_empty, answers,
}

-- Where the call takes care.
unfoldable pub Guarded : World → Call → Trace → Type 0
Guarded w (mount src dest type f opts) t = ¬ IsMounted w t dest
Guarded w (mknod path mode major minor) t = w.is_c t path ≡ false
Guarded w (symlink target link) t = w.exists t link ≡ false
Guarded w c t = Unit

-- So for all the calls, each at its time.
unfoldable pub Careful : World → Trace → Type 0
unfolding Guarded
Careful w [] = Unit
Careful w (c ∷ t) = Guarded w c t × Careful w t

-- `is_mount_point` takes the path of each place whole.
unfoldable AllFit : List Mount → Type 0
AllFit [] = Unit
AllFit (m ∷ ms) = Fits m.dest × AllFit ms

pseudofs-AllFit : (b : Build) → AllFit (pseudofs b)
unfolding pseudofs AllFit
pseudofs-AllFit b = omega arith

true≢false : true ≢ false
true≢false e = cc

module _ (w : World) where
  pub need_dir-Careful :
      (dest : FileName) (m : ℕ) (t : Trace) → Careful w t → Careful w (need_dir w dest m t)
  unfolding need_dir Careful
  need_dir-Careful dest m t c =
      if_both (Careful w) (w.is_d t dest) t (mkdir dest m ∷ t) (λ y. c) (λ y. (tt, c))

  pub do_mount-Careful :
      (m : ℕ) (src dest : FileName) (type : Option FileName) (f : List Flag)
      (opts : Option FileName) (t : Trace)
      → Fits dest
      → Careful w t
      → Careful w (do_mount w m src dest type f opts t)
  unfolding do_mount Careful
  do_mount-Careful m src dest type f opts t fits c =
      let u = need_dir w dest m t in
      let d = need_dir-Careful dest m t c in
      if_both (Careful w) (is_mount_point w u dest) u (mount src dest type f opts ∷ u) (λ y. d)
        (λ y. ((λ i. true≢false (sym (IsMounted-is_mount_point w u dest fits i) ∙ y)), d))

  do_mounts-Careful :
      (ms : List Mount) (t : Trace) → AllFit ms → Careful w t → Careful w (do_mounts w ms t)
  unfolding do_mounts AllFit
  do_mounts-Careful [] t fits c = c
  do_mounts-Careful (m ∷ ms) t (fit, fits) c =
      do_mounts-Careful ms _ fits
        (do_mount-Careful m.mode m.src m.dest m.type m.flags m.opts t fit c)

  pub mount_pseudofs-Careful :
      (b : Build) (t : Trace) → Careful w t → Careful w (mount_pseudofs w b t)
  unfolding mount_pseudofs
  mount_pseudofs-Careful b t c = do_mounts-Careful (pseudofs b) t (pseudofs-AllFit b) c

  pub need_nodes-Careful :
      (ns : List Node) (t : Trace) → Careful w t → Careful w (need_nodes w ns t)
  unfolding need_nodes need_node Careful
  need_nodes-Careful [] t c = c
  need_nodes-Careful (n ∷ ns) t c = need_nodes-Careful ns _ (
      if_both (Careful w) (w.is_c t n.path) t (mknod n.path n.mode n.major n.minor ∷ t) (λ y. c)
        (λ y. (y, c)))

  pub need_link-Careful :
      (target link : FileName) (t : Trace) → Careful w t → Careful w (need_link w target link t)
  unfolding need_link Careful
  need_link-Careful target link t c =
      if_both (Careful w) (w.exists t link) t (symlink target link ∷ t) (λ y. c) (λ y. (y, c))

  pub need_links-Careful :
      (ls : List (FileName × FileName)) (t : Trace) → Careful w t → Careful w (need_links w ls t)
  unfolding need_links
  need_links-Careful [] t c = c
  need_links-Careful ((target, link) ∷ ls) t c =
      need_links-Careful ls _ (need_link-Careful target link t c)

  pub need_dirs-Careful :
      (m : ℕ) (ps : List FileName) (t : Trace) → Careful w t → Careful w (need_dirs w m ps t)
  unfolding need_dirs
  need_dirs-Careful m [] t c = c
  need_dirs-Careful m (p ∷ ps) t c = need_dirs-Careful m ps _ (need_dir-Careful p m t c)

  pub seed_core-Careful : (t : Trace) → Careful w t → Careful w (seed_core w t)
  unfolding seed_core
  seed_core-Careful t c =
      let core = codes "/proc/kcore" in
      if_both (Careful w) (w.exists t core) (need_link w core (codes "/dev/core") t) t
        (λ y. need_link-Careful core (codes "/dev/core") t c) (λ y. c)

  pub seed_dev-Careful : (b : Build) (t : Trace) → Careful w t → Careful w (seed_dev w b t)
  unfolding seed_dev Careful
  seed_dev-Careful b t c = (
    tt,
    (
      tt,
      seed_core-Careful _ (
          need_links-Careful links _
            (need_nodes-Careful (nodes b) _ (need_dirs-Careful _ dirs t c))),
    ),
  )

  pub own-Careful : (gid : Option ℕ) (fd : ℕ) (t : Trace) → Careful w t → Careful w (own w gid fd t)
  unfolding own Careful
  own-Careful none fd t c = c
  own-Careful (some gid) fd t c = next (w.answer t (fchown fd 0 gid))
    where
      next :
          (a : Answer)
          → Careful w (elim a [
            | failed e ↦ fchmod fd (octal 0 6 4 4) ∷ fchown fd 0 gid ∷ t
            | _ ↦ fchmod fd (octal 0 6 6 4) ∷ fchown fd 0 gid ∷ t
          ])
      next (failed e) = (tt, (tt, c))
      next (ok n) = (tt, (tt, c))
      next gone = (tt, (tt, c))

  pub set_up_file-Careful :
      (gid : Option ℕ) (a : Answer) (t : Trace) → Careful w t → Careful w (set_up_file w gid a t)
  unfolding set_up_file Careful
  set_up_file-Careful gid (ok fd) t c = (tt, own-Careful gid fd t c)
  set_up_file-Careful gid (failed e) t c = c
  set_up_file-Careful gid gone t c = c

  pub opened-Careful :
      (gid : Option ℕ) (a : Answer) (c : Call) (t : Trace)
      → Guarded w c t
      → Careful w t
      → Careful w (set_up_file w gid a (c ∷ t))
  unfolding Careful
  opened-Careful gid a c t g d = set_up_file-Careful gid a (c ∷ t) (g, d)

  pub mkdirs-Careful :
      (m : ℕ) (ps : List FileName) (t : Trace) → Careful w t → Careful w (mkdirs m ps t)
  unfolding mkdirs Careful
  mkdirs-Careful m [] t c = c
  mkdirs-Careful m (p ∷ ps) t c = mkdirs-Careful m ps (mkdir p m ∷ t) (tt, c)

  pub seed_run-Careful : (b : Build) (t : Trace) → Careful w t → Careful w (seed_run w b t)
  unfolding seed_run Careful Guarded
  seed_run-Careful b t c =
      opened-Careful b.utmp_gid _ _ _ tt (mkdirs-Careful (octal 0 7 5 5) run_dirs t c)

  pub seed_misc-Careful : (b : Build) (t : Trace) → Careful w t → Careful w (seed_misc w b t)
  unfolding seed_misc Careful Guarded
  seed_misc-Careful b t c =
      let first : Careful w (chmod (codes "/") (octal 0 7 5 5) ∷ t) = (tt, c) in
      opened-Careful b.utmp_gid _ _ _ tt (
        tt,
        (
          tt,
          (
            tt,
            mkdirs-Careful (octal 1 7 7 7) tmp_dirs (chmod (codes "/") (octal 0 7 5 5) ∷ t) first,
          ),
        ),
      )
