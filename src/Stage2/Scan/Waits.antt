-- ===== src/Stage2/Scan/Waits.antt =====
-- src/stage2.c, `check` and `scan`: the time until which the main loop may sleep.
use peso.Base.{
  ℕ, suc, ◌+◌, ◌*◌, ◌≤◌, ◌≡◌, Bool, true, false, List, [], ◌∷◌, some, ◌&&◌, leb, arith, Bool-cases,
  Option-cases, inl, inr, sym, length, subst,
}
use peso.Stage2.{sec, Service, Scanner, reopened}
use peso.Stage2.Table.{All, All-++, All-find_id, All-sweep, All-deactivate, All-map}
use peso.Stage2.Scan.{
  is_hidden, is_closed, Stat, stat_failed, no_directory, directory, Entry, Dir, dir, Effect,
  trystart, earlier, retrydirlater, start_log, start_service, activate, new_service, find_id,
  check_known, check_new, check_stat, check, check_all, deactivate, sweep, scan_dir, scan,
}

-- An active service that lacks a process has a restart time, and the loop wakes up by then.
unfoldable pub Waits : ℕ → Service → Type 0
Waits deadline v =
    v.flagactive ≡ true
    → (v.pid ≡ 0 → deadline ≤ v.restartafter)
      × (v.flaglog ≡ true → v.log_pid ≡ 0 → deadline ≤ v.log_restartafter)

-- `fork` succeeds for the entry, whenever it is called.
pub record Forks (d : Entry) : Type 0 where
  pub pid : ℕ
  pub log_pid : ℕ
  pub forked : d.fork ≡ some (suc pid)
  pub log_forked : d.fork_log ≡ some (suc log_pid)

unfoldable pub AllForks : List Entry → Type 0
AllForks [] = Unit
AllForks (d ∷ ds) = Forks d × AllForks ds

pub Waits-le : (a b : ℕ) → b ≤ a → (v : Service) → Waits a v → Waits b v
unfolding Waits
Waits-le a b l v w h = (λ z. omega (arith, (w h).0 z), λ g z. omega (arith, (w h).1 g z))

-- The logger first.
record LogWaits (e : Effect) : Type 0 where
  waits : e.service.flaglog ≡ true → e.service.log_pid ≡ 0 → e.deadline ≤ e.service.log_restartafter

start_log-LogWaits : (now : ℕ) (d : Entry) (e : Effect) → Forks d → LogWaits (start_log now d e)
unfolding start_log trystart earlier
start_log-LogWaits now d e f = record { waits = λ g z. ground (arith, f.log_forked, g, z) }

start_service-Waits :
    (now : ℕ) (d : Entry) (e : Effect)
    → Forks d
    → LogWaits e
    → Waits (start_service now d e).deadline (start_service now d e).service
unfolding start_service trystart earlier Waits
start_service-Waits now d e f w h =
    (λ z. ground (arith, f.forked, z), λ g z. ground (arith, f.forked, w.waits, g, z))

start_log-le : (now : ℕ) (d : Entry) (e : Effect) → (start_log now d e).deadline ≤ e.deadline
unfolding start_log trystart earlier
start_log-le now d e = ground arith

start_service-le :
    (now : ℕ) (d : Entry) (e : Effect) → (start_service now d e).deadline ≤ e.deadline
unfolding start_service trystart earlier
start_service-le now d e = ground arith

-- So for all services of the table.
abbrev pub Awake : Scanner → Type 0
Awake s = All (Waits s.deadline) s.services

activate-Awake :
    (now : ℕ) (d : Entry) (before : List Service) (v : Service) (after : List Service) (s : Scanner)
    → Forks d
    → All (Waits s.deadline) before
    → All (Waits s.deadline) after
    → Awake (activate now d before v after s)
unfolding activate All
activate-Awake now d before v after s f a b =
    let e : Effect = record {
      service = record v { flagactive = true };
      deadline = s.deadline;
      spawned = s.spawned;
    } in
    let m = start_log now d e in
    let u = start_service now d m in
    let l : u.deadline ≤ s.deadline =
      omega (arith, start_log-le now d e, start_service-le now d m) in
    let P = Waits u.deadline in
    All-++ P before (u.service ∷ after)
      (All-map (Waits s.deadline) P (Waits-le s.deadline u.deadline l) before a)
      (
        start_service-Waits now d m f (start_log-LogWaits now d e f),
        All-map (Waits s.deadline) P (Waits-le s.deadline u.deadline l) after b,
      )

retry-Awake : (now : ℕ) (s : Scanner) → Awake s → Awake (retrydirlater now s)
unfolding retrydirlater earlier
retry-Awake now s a =
    All-map (Waits s.deadline) (Waits (earlier (now + 3 * sec) s.deadline))
      (Waits-le s.deadline (earlier (now + 3 * sec) s.deadline) (ground arith)) s.services a

check_known-Awake :
    (now : ℕ) (d : Entry) (dev ino : ℕ) (us : List Service) (v : Service) (ws : List Service)
    (s : Scanner)
    → Forks d
    → Awake s
    → find_id dev ino s.services ≡ some (us, v, ws)
    → Awake (check_known now d us v ws s)
unfolding check_known All Waits
check_known-Awake now d dev ino us v ws s f a e =
    let P = Waits s.deadline in
    let (l, x, r) = All-find_id P dev ino s.services us v ws a e in
    elim (Bool-cases (v.flaglog && is_closed v.pipe)) [
      | inl y ↦ rw y (All-++ P us (record v { pipe = reopened } ∷ ws) l (x, r))
      | inr y ↦ rw y (activate-Awake now d us v ws s f l r)
    ]

check_new-Awake :
    (now : ℕ) (d : Entry) (dev ino : ℕ) (s : Scanner)
    → Forks d
    → Awake s
    → Awake (check_new now d dev ino s)
unfolding check_new All
check_new-Awake now d dev ino s f a = elim (Bool-cases (leb s.max (length s.services))) [
  | inl y ↦ rw y a
  | inr y ↦ elim (Option-cases (new_service now dev ino d.log_stat d.pipe_made)) [
    | inl g ↦ rw (y, g) (retry-Awake now s a)
    | inr (v, g) ↦ rw (y, g) (activate-Awake now d s.services v [] s f a tt)
  ]
]

check_stat-Awake :
    (now : ℕ) (d : Entry) (x : Stat) (s : Scanner)
    → Forks d
    → Awake s
    → Awake (check_stat now d x s)
unfolding check_stat
check_stat-Awake now d stat_failed s f a = retry-Awake now s a
check_stat-Awake now d no_directory s f a = a
check_stat-Awake now d (directory dev ino) s f a =
    elim (Option-cases (find_id dev ino s.services)) [
      | inl e ↦ rw (e, check_stat) (check_new-Awake now d dev ino s f a)
      | inr ((us, v, ws), e) ↦ rw (e, check_stat) (check_known-Awake now d dev ino us v ws s f a e)
    ]

check_all-Awake :
    (now : ℕ) (ds : List Entry) (s : Scanner) → AllForks ds → Awake s → Awake (check_all now ds s)
unfolding check_all check AllForks
check_all-Awake now [] s f a = a
check_all-Awake now (d ∷ ds) s (f, fs) a = elim (Bool-cases (is_hidden d.name)) [
  | inl y ↦ check_all-Awake now ds (check now d s) fs (rw (y, check) a)
  | inr y ↦
      check_all-Awake now ds (check now d s) fs
        (rw (y, check) (check_stat-Awake now d d.stat s f a))
]

sweep-Awake : (n : ℕ) (s : Scanner) → Awake s → Awake (record s { services = sweep n s.services })
sweep-Awake n s a = All-sweep (Waits s.deadline) n s.services a

all_true : (vs : List Service) → All (λ v. Unit) vs
unfolding All
all_true [] = tt
all_true (v ∷ vs) = (tt, all_true vs)

deactivate-Awake : (s : Scanner) → Awake (record s { services = deactivate s.services })
unfolding Waits
deactivate-Awake s =
    All-deactivate (λ v. Unit) (Waits s.deadline) (λ v u h. cc) s.services (all_true s.services)

scan_dir-Awake :
    (now : ℕ) (ds : List Entry) (readdir_failed : Bool) (s : Scanner)
    → AllForks ds
    → Awake (scan_dir now (dir ds readdir_failed) s)
unfolding scan_dir
scan_dir-Awake now ds false s f =
    let t = check_all now ds (record s { services = deactivate s.services }) in
    sweep-Awake (length t.services) t (check_all-Awake now ds _ f (deactivate-Awake s))
scan_dir-Awake now ds true s f =
    let t = check_all now ds (record s { services = deactivate s.services }) in
    let u = retrydirlater now t in
    sweep-Awake (length u.services) u
      (retry-Awake now t (check_all-Awake now ds _ f (deactivate-Awake s)))

-- `scan` when a scan is wanted.
unfoldable pub wanted : ℕ → Scanner → Scanner
wanted now s = record s {
  flags = record s.flags { wantscan = false };
  deadline = now + s.defaulttimeout;
}

pub scan-wanted :
    (now : ℕ) (d : Dir) (s : Scanner)
    → s.flags.wantscan ≡ true
    → scan now d s ≡ scan_dir now d (wanted now s)
unfolding scan wanted
scan-wanted now d s w = ground (arith, w)

pub scan_unwanted : (now : ℕ) (d : Dir) (s : Scanner) → s.flags.wantscan ≡ false → scan now d s ≡ s
unfolding scan
scan_unwanted now d s w = ground (arith, w)

pub scan-Awake :
    (now : ℕ) (ds : List Entry) (readdir_failed : Bool) (s : Scanner)
    → s.flags.wantscan ≡ true
    → AllForks ds
    → Awake (scan now (dir ds readdir_failed) s)
scan-Awake now ds x s w f =
    subst Awake (sym (scan-wanted now (dir ds x) s w)) (scan_dir-Awake now ds x (wanted now s) f)
