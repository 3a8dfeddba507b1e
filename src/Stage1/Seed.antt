-- ===== src/Stage1/Seed.antt =====
-- src/stage1.c, `seed_dev`, `seed_run`, `seed_pseudofs` and `seed_misc`.
use peso.Base.{ℕ, List, [], ◌∷◌, ◌++◌, Option, none, some, if◌then◌else◌, codes}
use peso.Os.{Answer, ok, failed, gone}
use peso.Stage1.{
  FileName, octal, mkdir, chmod, mknod, symlink, open_trunc, open_append, fchown, fchmod, close_fd,
  Trace, World, Build,
}
use peso.Stage1.Mounts.{need_dir}

-- A character device, where there is none.
pub record Node : Type 0 where
  pub path : FileName
  pub mode : ℕ
  pub major : ℕ
  pub minor : ℕ

unfoldable pub need_node : World → Node → Trace → Trace
need_node w n t = if w.is_c t n.path then t else mknod n.path n.mode n.major n.minor ∷ t

unfoldable pub need_nodes : World → List Node → Trace → Trace
unfolding need_node
need_nodes w [] t = t
need_nodes w (n ∷ ns) t = need_nodes w ns (need_node w n t)

-- A link, where there is nothing.
unfoldable pub need_link : World → FileName → FileName → Trace → Trace
need_link w target link t = if w.exists t link then t else symlink target link ∷ t

abbrev pub tty : FileName → ℕ → ℕ → Node
tty digits mode minor = record {
  path = codes "/dev/tty" ++ digits;
  mode = mode;
  major = 4;
  minor = minor;
}

unfoldable pub nodes : Build → List Node
nodes b =
    record { path = codes "/dev/null"; mode = octal 0 6 6 6; major = 1; minor = 3 }
    ∷ record { path = codes "/dev/kmsg"; mode = octal 0 6 6 0; major = 1; minor = 11 }
    ∷ record { path = b.console; mode = octal 0 6 0 0; major = 5; minor = 1 }
    ∷ record { path = codes "/dev/tty"; mode = octal 0 6 6 6; major = 5; minor = 0 }
    ∷ tty (codes "0") (octal 0 6 0 0) 0
    ∷ tty (codes "1") (octal 0 6 2 0) 1
    ∷ tty (codes "2") (octal 0 6 2 0) 2
    ∷ tty (codes "3") (octal 0 6 2 0) 3
    ∷ tty (codes "4") (octal 0 6 2 0) 4
    ∷ tty (codes "5") (octal 0 6 2 0) 5
    ∷ tty (codes "6") (octal 0 6 2 0) 6
    ∷ tty (codes "7") (octal 0 6 2 0) 7
    ∷ tty (codes "8") (octal 0 6 2 0) 8
    ∷ tty (codes "9") (octal 0 6 2 0) 9
    ∷ tty (codes "10") (octal 0 6 2 0) 10
    ∷ tty (codes "11") (octal 0 6 2 0) 11
    ∷ tty (codes "12") (octal 0 6 2 0) 12
    ∷ []

unfoldable pub need_dirs : World → ℕ → List FileName → Trace → Trace
unfolding need_dir
need_dirs w m [] t = t
need_dirs w m (p ∷ ps) t = need_dirs w m ps (need_dir w p m t)

unfoldable pub need_links : World → List (FileName × FileName) → Trace → Trace
unfolding need_link
need_links w [] t = t
need_links w ((target, link) ∷ ls) t = need_links w ls (need_link w target link t)

unfoldable pub dirs : List FileName
dirs = codes "/dev" ∷ codes "/dev/pts" ∷ codes "/dev/shm" ∷ codes "/dev/mqueue" ∷ []

unfoldable pub links : List (FileName × FileName)
links =
    (codes "/proc/self/fd", codes "/dev/fd")
    ∷ (codes "/proc/self/fd/0", codes "/dev/stdin")
    ∷ (codes "/proc/self/fd/1", codes "/dev/stdout")
    ∷ (codes "/proc/self/fd/2", codes "/dev/stderr")
    ∷ []

unfoldable pub seed_core : World → Trace → Trace
unfolding need_link
seed_core w t =
    if w.exists t (codes "/proc/kcore")
    then need_link w (codes "/proc/kcore") (codes "/dev/core") t
    else t

unfoldable pub seed_dev : World → Build → Trace → Trace
unfolding seed_core need_links links need_nodes nodes need_dirs dirs
seed_dev w b t =
    let u =
      seed_core w
        (need_links w links (need_nodes w (nodes b) (need_dirs w (octal 0 7 5 5) dirs t))) in
    chmod (codes "/dev/null") (octal 0 6 6 6) ∷ chmod b.console (octal 0 6 0 0) ∷ u

-- The owner and the mode of a database file, with UTMP_GID.
unfoldable pub own : World → Option ℕ → ℕ → Trace → Trace
own w none fd t = t
own w (some gid) fd t = elim (w.answer t (fchown fd 0 gid)) [
  | failed e ↦ fchmod fd (octal 0 6 4 4) ∷ fchown fd 0 gid ∷ t
  | _ ↦ fchmod fd (octal 0 6 6 4) ∷ fchown fd 0 gid ∷ t
]

-- Behind `open`, with what it returned.
unfoldable pub set_up_file : World → Option ℕ → Answer → Trace → Trace
unfolding own
set_up_file w gid (ok fd) t = close_fd fd ∷ own w gid fd t
set_up_file w gid (failed e) t = t
set_up_file w gid gone t = t

-- The directories are made whether they are there or not.
unfoldable pub mkdirs : ℕ → List FileName → Trace → Trace
mkdirs m [] t = t
mkdirs m (p ∷ ps) t = mkdirs m ps (mkdir p m ∷ t)

unfoldable pub run_dirs : List FileName
run_dirs =
    codes "/run/openrc"
    ∷ codes "/run/perp"
    ∷ codes "/run/utmps"
    ∷ codes "/run/service"
    ∷ codes "/run/sv"
    ∷ codes "/run/sv/encore"
    ∷ codes "/run/sv/perp"
    ∷ codes "/run/sv/runit"
    ∷ codes "/run/sv/s6"
    ∷ codes "/run/sv/six"
    ∷ []

unfoldable pub seed_run : World → Build → Trace → Trace
unfolding run_dirs mkdirs set_up_file
seed_run w b t =
    let u = mkdirs (octal 0 7 5 5) run_dirs t in
    let c = open_trunc (codes "/run/utmp") (octal 0 6 4 4) in
    set_up_file w b.utmp_gid (w.answer u c) (c ∷ u)

unfoldable pub seed_pseudofs : World → Build → Trace → Trace
unfolding seed_run seed_dev
seed_pseudofs w b t = seed_run w b (seed_dev w b t)

unfoldable pub tmp_dirs : List FileName
tmp_dirs = codes "/tmp" ∷ codes "/tmp/.ICE-unix" ∷ codes "/tmp/.X11-unix" ∷ codes "/var/tmp" ∷ []

unfoldable pub seed_misc : World → Build → Trace → Trace
unfolding tmp_dirs mkdirs set_up_file
seed_misc w b t =
    let u = mkdirs (octal 1 7 7 7) tmp_dirs (chmod (codes "/") (octal 0 7 5 5) ∷ t) in
    let v =
      chmod (codes "/var/tmp") (octal 1 7 5 5)
      ∷ chmod (codes "/tmp") (octal 1 7 5 5)
      ∷ mkdir (codes "/var/log") (octal 0 7 5 5)
      ∷ u in
    let c = open_append (codes "/var/log/wtmp") (octal 0 6 4 4) in
    set_up_file w b.utmp_gid (w.answer v c) (c ∷ v)
