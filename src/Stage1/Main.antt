-- ===== src/Stage1/Main.antt =====
-- src/stage1.c, `main`.
use peso.Base.{
  ℕ, Bool, true, false, not, ◌&&◌, ◌||◌, List, [], ◌∷◌, ◌++◌, Option, none, some, ◌==◌, ltb,
  if◌then◌else◌, codes,
}
use peso.Os.{Answer, ok, failed, gone}
use peso.Stage1.{
  FileName, Call, seteuid, setegid, umask, set_rlimits, setup_env, sethostname, setdomainname,
  setsid, setpgid, setup_sigs, chdir, chroot, run_conf, chvt, reap_some, execve, execvpe, execvp,
  Trace, World, Build,
}
use peso.Stage1.Mounts.{mount_pseudofs}
use peso.Stage1.Seed.{seed_pseudofs, seed_misc}
use peso.Stage1.Console.{consio, setup_io}

-- An option as `getopt` returns it, with its argument; `opt_s` is -s or -S, and so on. The option string
-- gives -e and -E no argument, so `opt_e` has what `optarg` happens to be then: `none` is NULL. The
-- others, and the errors, are passed over.
pub data GetOpt : Type 0 where
  opt_e : Option FileName → GetOpt
  opt_s opt_c : FileName → GetOpt
  opt_other : GetOpt

-- The process, how it was called, and the words of `argv` from `optind` on.
pub record Process : Type 0 where
  pub pid : ℕ
  pub uid : ℕ
  pub euid : ℕ
  pub argv : List FileName
  pub rest : List FileName

-- How `main` ends: it returns, or a program takes its place.
pub data Result : Type 0 where
  exits : ℕ → Trace → Result
  executes : Call → Trace → Result

unfoldable pub non_empty : FileName → Bool
non_empty [] = false
non_empty (c ∷ cs) = true

unfoldable pub answers : Answer → Bool
answers (ok n) = true
answers (failed e) = false
answers gone = false

-- case 'c', for process 1
unfoldable pub change_root : World → FileName → Trace → Trace
unfolding non_empty answers
change_root w dir t =
    if non_empty dir && w.is_d t dir
    then if answers (w.answer t (chdir dir))
      then chdir (codes "/") ∷ chroot dir ∷ chdir dir ∷ t
      else chdir (codes "/") ∷ chdir dir ∷ t
    else chdir (codes "/") ∷ t

-- The program to execute in place of stage 2, and the calls made.
unfoldable pub take_opt : World → ℕ → GetOpt → Option FileName × Trace → Option FileName × Trace
unfolding non_empty change_root
take_opt w pid (opt_e none) (ex, t) = (ex, t)
take_opt w pid (opt_e (some arg)) (ex, t) =
    if non_empty arg && (w.is_f t arg && w.readable t arg) then (some arg, t) else (ex, t)
take_opt w pid (opt_s arg) (ex, t) = (ex, t)
take_opt w pid (opt_c arg) (ex, t) = if pid == 1 then (ex, change_root w arg t) else (ex, t)
take_opt w pid opt_other (ex, t) = (ex, t)

unfoldable pub take_opts :
    World → ℕ → List GetOpt → Option FileName × Trace → Option FileName × Trace
unfolding take_opt
take_opts w pid [] x = x
take_opts w pid (o ∷ os) x = take_opts w pid os (take_opt w pid o x)

-- The calls of `exec` in their order: one that succeeds does not return. Behind the last one 111 is
-- returned.
unfoldable pub exec_all : World → List Call → Trace → Result
exec_all w [] t = exits 111 t
exec_all w (c ∷ cs) t =
    let rest = exec_all w cs (c ∷ t) in elim (w.answer t c) [ failed e ↦ rest | _ ↦ executes c t ]

-- The programs of the command line, `ex` or the first word that is left.
unfoldable pub from_words : World → Build → List FileName → Trace → List Call
unfolding non_empty
from_words w b [] t = []
from_words w b (x ∷ args) t =
    if non_empty x && w.is_fnrx t x
    then if b.has_execvpe
      then execve x (x ∷ args) ∷ execvpe x (x ∷ args) ∷ execvp x (x ∷ args) ∷ []
      else execve x (x ∷ args) ∷ execvp x (x ∷ args) ∷ []
    else []

unfoldable pub from_line : World → Build → Process → Option FileName → Trace → List Call
unfolding from_words non_empty
from_line w b p none t = from_words w b p.rest t
from_line w b p (some ex) t =
    if non_empty ex && w.is_fnrx t ex
    then execve ex p.argv ∷ execvp ex p.argv ∷ []
    else from_words w b p.rest t

unfoldable pub default_stage2 : Build → Process → List Call
default_stage2 b p = execve b.stage2x p.argv ∷ execvp (codes "stage2") p.argv ∷ []

-- What comes before the console is set up.
unfoldable pub prepare : Build → Trace → Trace
prepare b t =
    let u = sethostname ∷ chdir (codes "/") ∷ setup_env ∷ set_rlimits ∷ umask ∷ t in
    if b.has_domain then setdomainname ∷ u else u

-- From the mounts to the end of the stage 1 tasks.
unfoldable pub run_stage1 : World → Build → Trace → Trace
unfolding mount_pseudofs seed_pseudofs
run_stage1 w b t =
    let u = setpgid ∷ setsid ∷ chvt 1 ∷ t in
    let v = seed_pseudofs w b (mount_pseudofs w b u) in
    chdir (codes "/") ∷ reap_some ∷ run_conf b.stage1 ∷ setup_sigs ∷ v

-- From the creation mask to `seed_misc`.
unfoldable pub boot : ℕ → World → Build → Trace → Option Trace
unfolding prepare setup_io run_stage1 consio seed_misc
boot fuel w b t = elim (setup_io fuel w b (prepare b t)) [
  | none ↦ none
  | some u ↦ elim (consio fuel w b (run_stage1 w b u)) [
    | none ↦ none
    | some v ↦ some (seed_misc w b (reap_some ∷ chvt 1 ∷ v))
  ]
]

-- `none` when the fuel of a loop is gone.
unfoldable pub main : ℕ → World → Build → Process → List GetOpt → Trace → Option Result
unfolding take_opts boot exec_all from_line default_stage2
main fuel w b p os t =
    let privileged = setegid ∷ seteuid ∷ t in
    if not (p.uid == 0) || (not (p.euid == 0) || ltb 1 p.pid)
    then some (exits 100 privileged)
    else (let (ex, u) = take_opts w p.pid os (none, privileged) in
        elim (boot fuel w b u) [
          | none ↦ none
          | some v ↦ some (exec_all w (from_line w b p ex v ++ default_stage2 b p) v)
        ])
