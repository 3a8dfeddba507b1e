-- ===== src/Examples/Boot.antt =====
-- The theorems on src/stage1.c, src/bbinit.c and src/pause.c at concrete inputs.
use peso.Base.{
  if◌then◌else◌, ◌≡◌, refl, Bool, true, false, [], ◌∷◌, none, some, arith, codes, str_eq, ◌||◌, inl,
  inr, Bool-cases,
}
use peso.Os.{ok}
use peso.Stage1.{is_dir, Trace, World, Build, dup2, FileName}
use peso.Stage1.Returns.{main-returns}
use peso.Stage1.Order.{places, mounted, is_among, missing, Shows, mount_pseudofs-places}
use peso.Stage1.Choice.{first_console, consio-first}
use peso.Stage1.Mounts.{mount_pseudofs}
use peso.Stage1.Seed.{seed_dev}
use peso.Stage1.Console.{redirect_to, consio}
use peso.Stage1.Main.{Process, Result}
use peso.Stage1
use peso.Bbinit
use peso.Bbinit.Facts.{Becomes, has_init, init_line, main-Becomes}
use peso.Pause
use peso.Pause.{main-any_round}
use peso.Stage1.Careful.Whole.{CarefulRun, main-Careful}

-- A system without devices, where every call succeeds.
abbrev bare : World
bare = record {
  lstat = λ t p. none;
  is_d = λ t p. false;
  is_c = λ t p. false;
  is_f = λ t p. false;
  is_fnrx = λ t p. false;
  exists = λ t p. false;
  readable = λ t p. false;
  isatty = λ t fd. false;
  tcgetattr = λ t fd. none;
  getenv = λ p. none;
  answer = λ t c. ok 3;
}

abbrev linux : Build
linux = record {
  console = codes "/dev/console";
  vt_master = codes "/dev/tty0";
  stage1 = codes "/etc/inid/stage1";
  stage2x = codes "/etc/inid/stage2";
  utmp_gid = some 43;
  tty_gid = codes "gid=5,";
  has_domain = false;
  has_execvpe = true;
}

abbrev init : Process
init = record { pid = 1; uid = 0; euid = 0; argv = codes "init" ∷ []; rest = [] }

main-Careful_example : CarefulRun bare (Stage1.Main.main 5 bare linux init [] [])
main-Careful_example = main-Careful 5 bare linux init []

-- Every path is a character device, so the console is opened and its descriptor is copied.
abbrev with_console : World
with_console = record bare { is_c = λ t p. true }

main-returns_example : (r : Result) × (Stage1.Main.main 5 with_console linux init [] [] ≡ some r)
unfolding Stage1.Returns.Settles
main-returns_example =
    main-returns 5 with_console linux init [] [] (λ o n t. (0, omega arith, λ e. cc))

-- A system where /proc is a mount point already, and those that were made are.
abbrev on_proc : FileName → Bool
on_proc p = str_eq p (codes "/proc")

abbrev mounting : World
mounting = record bare {
  lstat = λ t p.
      if on_proc p || is_among p (mounted t)
      then some (record { kind = is_dir; dev = 7; ino = 1 })
      else none;
}

mounting-Shows : Shows mounting on_proc
mounting-Shows t p i = (
  λ y. (record { kind = is_dir; dev = 7; ino = 1 }, rw y refl, refl, inl (omega arith)),
  λ (st, g, k, r). elim (Bool-cases (on_proc p || is_among p (mounted t))) [
    | inl y ↦ y
    | inr n ↦ ground (arith, g, n)
  ],
)

mount_pseudofs-places_example :
    let u = mount_pseudofs mounting linux [] in
    (mounted u ≡ missing on_proc [] places)
    × (mounted (mount_pseudofs mounting linux u) ≡ mounted u)
unfolding mounted
mount_pseudofs-places_example = mount_pseudofs-places mounting on_proc linux [] mounting-Shows

consio-first_example :
    let u = seed_dev bare linux [] in
    consio 5 bare linux []
    ≡ redirect_to 5 bare
        (first_console bare u (
          bare.getenv (codes "CONSOLE")
          ∷ bare.getenv (codes "console")
          ∷ some linux.console
          ∷ some linux.vt_master
          ∷ []))
        u
consio-first_example = consio-first 5 bare linux [] (λ e. cc) (λ e. cc)

-- Only a program that is found by its path can be executed.
abbrev by_path_only : Bbinit.Call → Bool
by_path_only (Bbinit.execve x av) = true
by_path_only c = false

main-Becomes_example :
    Becomes by_path_only
      (codes "init" ∷ codes "single" ∷ [])
      Bbinit.prepared
      (Bbinit.main true by_path_only 1 0 0 (codes "/init" ∷ codes "single" ∷ []))
unfolding has_init init_line
main-Becomes_example =
    main-Becomes true by_path_only 1 (codes "/init" ∷ codes "single" ∷ []) (omega arith) refl

abbrev hup_round : Pause.Round
hup_round = record { early = []; during = Pause.sighup }

main-any_round_example : Pause.main [] (hup_round ∷ []) (Pause.sigint ∷ []) ≡ (
    if Pause.any_round (hup_round ∷ [])
    then Pause.returns
    else Pause.pauses (Pause.deliver_all (Pause.sigint ∷ []) 0))
main-any_round_example = main-any_round [] (hup_round ∷ []) (Pause.sigint ∷ [])
