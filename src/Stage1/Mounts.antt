-- ===== src/Stage1/Mounts.antt =====
-- src/stage1.c, `is_mount_point`, `do_mount` and `mount_pseudofs`.
use peso.Base.{
  ℕ, zero, suc, Bool, true, false, not, ◌&&◌, ◌||◌, List, [], ◌∷◌, ◌++◌, Option, none, some, ◌==◌,
  ltb, if◌then◌else◌, codes,
}
use peso.Stage1.{
  FileName, octal, Flag, ms_nodev, ms_nosuid, ms_noexec, ms_bind, ms_rec, Kind, is_dir, is_other,
  Stat, mkdir, mount, Trace, World, Build,
}

-- The loop over `buf`, which has 251 bytes for the path.
unfoldable pub copy : ℕ → FileName → FileName
copy zero cs = []
copy (suc n) [] = []
copy (suc n) (c ∷ cs) = c ∷ copy n cs

unfoldable pub parent_of : FileName → FileName
unfolding copy
parent_of path = copy 251 path ++ codes "/.."

unfoldable pub is_directory : Kind → Bool
is_directory is_dir = true
is_directory is_other = false

-- The test of the directory and the one above it.
unfoldable pub is_other_device : Stat → Option Stat → Bool
unfolding is_directory
is_other_device st none = false
is_other_device st (some st2) =
    is_directory st2.kind && (not (st2.dev == st.dev) || st2.ino == st.ino)

unfoldable pub is_root_of : World → Trace → FileName → Option Stat → Bool
unfolding is_directory parent_of is_other_device
is_root_of w t path none = false
is_root_of w t path (some st) =
    is_directory st.kind
    && (ltb 0 st.ino && ltb st.ino 4 || is_other_device st (w.lstat t (parent_of path)))

unfoldable pub is_mount_point : World → Trace → FileName → Bool
unfolding is_root_of
is_mount_point w t [] = false
is_mount_point w t (c ∷ cs) = is_root_of w t (c ∷ cs) (w.lstat t (c ∷ cs))

-- if ( 0 == is_d ( dest ) ) { (void) mkdir ( dest, m ) ; }
unfoldable pub need_dir : World → FileName → ℕ → Trace → Trace
need_dir w dest m t = if w.is_d t dest then t else mkdir dest m ∷ t

unfoldable pub do_mount :
    World → ℕ → FileName → FileName → Option FileName → List Flag → Option FileName → Trace → Trace
unfolding need_dir is_mount_point
do_mount w m src dest type f opts t =
    let u = need_dir w dest m t in
    if is_mount_point w u dest then u else mount src dest type f opts ∷ u

-- The arguments of one call of `do_mount`.
pub record Mount : Type 0 where
  pub mode : ℕ
  pub src : FileName
  pub dest : FileName
  pub type : Option FileName
  pub flags : List Flag
  pub opts : Option FileName

unfoldable pub pseudofs : Build → List Mount
pseudofs b =
    record {
      mode = octal 0 7 5 5;
      src = codes "proc";
      dest = codes "/proc";
      type = some (codes "proc");
      flags = ms_nodev ∷ ms_nosuid ∷ [];
      opts = none;
    }
    ∷ record {
      mode = octal 0 7 5 5;
      src = codes "sysfs";
      dest = codes "/sys";
      type = some (codes "sysfs");
      flags = ms_nodev ∷ ms_noexec ∷ ms_nosuid ∷ [];
      opts = none;
    }
    ∷ record {
      mode = octal 0 7 5 5;
      src = codes "tmpfs";
      dest = codes "/run";
      type = some (codes "tmpfs");
      flags = ms_nodev ∷ ms_nosuid ∷ [];
      opts = some (codes "mode=0755,size=10M");
    }
    ∷ record {
      mode = octal 0 7 5 5;
      src = codes "devtmpfs";
      dest = codes "/dev";
      type = some (codes "devtmpfs");
      flags = ms_nosuid ∷ [];
      opts = some (codes "mode=0755,size=10M");
    }
    ∷ record {
      mode = octal 0 7 5 5;
      src = codes "devpts";
      dest = codes "/dev/pts";
      type = some (codes "devpts");
      flags = ms_noexec ∷ ms_nosuid ∷ [];
      opts = some (b.tty_gid ++ codes "mode=0620");
    }
    ∷ record {
      mode = octal 1 7 7 7;
      src = codes "mqueue";
      dest = codes "/dev/mqueue";
      type = some (codes "mqueue");
      flags = ms_noexec ∷ ms_nodev ∷ ms_nosuid ∷ [];
      opts = none;
    }
    ∷ record {
      mode = octal 1 7 7 7;
      src = codes "tmpfs";
      dest = codes "/dev/shm";
      type = some (codes "tmpfs");
      flags = ms_noexec ∷ ms_nodev ∷ ms_nosuid ∷ [];
      opts = none;
    }
    ∷ record {
      mode = octal 1 7 7 7;
      src = codes "/dev/mqueue";
      dest = codes "/run/mqueue";
      type = none;
      flags = ms_bind ∷ [];
      opts = none;
    }
    ∷ record {
      mode = octal 1 7 7 7;
      src = codes "/dev/shm";
      dest = codes "/run/shm";
      type = none;
      flags = ms_bind ∷ [];
      opts = none;
    }
    ∷ record {
      mode = octal 0 7 5 5;
      src = codes "/run";
      dest = codes "/var/run";
      type = none;
      flags = ms_bind ∷ ms_rec ∷ [];
      opts = none;
    }
    ∷ []

unfoldable pub do_mounts : World → List Mount → Trace → Trace
unfolding do_mount
do_mounts w [] t = t
do_mounts w (m ∷ ms) t = do_mounts w ms (do_mount w m.mode m.src m.dest m.type m.flags m.opts t)

unfoldable pub mount_pseudofs : World → Build → Trace → Trace
unfolding do_mounts pseudofs
mount_pseudofs w b t = do_mounts w (pseudofs b) t
