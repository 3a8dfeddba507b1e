-- ===== src/Stage2/Scan.antt =====
-- src/stage2.c, `trystart`, `retrydirlater`, `check` and `scan`. What the system calls answer for an
-- entry of the directory is an argument. The messages are left out.
pub mod Slots
pub mod Keeps
pub mod Waits
pub mod Starts
pub mod Sweeps
pub mod Holds
use peso.Base.{
  ℕ, zero, suc, ◌+◌, ◌*◌, Bool, true, false, not, ◌&&◌, ◌||◌, List, [], ◌∷◌, ◌++◌, Option, none,
  some, ◌==◌, ltb, leb, if◌then◌else◌, length, codes,
}
use peso.Stage2.{
  Flags, Pipe, open_pipe, closed, reopened, Service, Stdio, inherited, moved, move_fails, Spawn,
  Scanner, sec,
}
use peso.Stage2.Reap.{split_last}

-- stat ( name, & st )
pub data Stat : Type 0 where
  stat_failed no_directory : Stat
  directory : (dev ino : ℕ) → Stat

-- stat ( tmp, & su ), of the directory of the logger: `missing` is ENOENT
pub data LogStat : Type 0 where
  missing log_stat_failed log_no_directory log_directory : LogStat

-- An entry of the directory, and what the calls answer that `check` makes for it, if it makes them:
-- `pipecoe`, and `fork` for the logger and for the service; `none` is a failure.
pub record Entry : Type 0 where
  pub name : List ℕ
  pub stat : Stat
  pub log_stat : LogStat
  pub pipe_made : Option (ℕ × ℕ)
  pub fork_log : Option ℕ
  pub fork : Option ℕ

-- A directory as `opendir` and `readdir` show it, with an error at the end or without.
pub data Dir : Type 0 where
  no_dir : Dir
  dir : List Entry → (readdir_failed : Bool) → Dir

-- What `trystart` and `check` change beside the service.
pub record Effect : Type 0 where
  pub service : Service
  pub deadline : ℕ
  pub spawned : List Spawn

-- fd_move ( ! islog, p [ ! islog ] ), in the child
unfoldable pub child_stdio : Bool → Bool → Pipe → Stdio
child_stdio false islog p = inherited
child_stdio true true (open_pipe out into) = moved 0 out
child_stdio true false (open_pipe out into) = moved 1 into
child_stdio true islog p = move_fails

-- Of `trystart`, with what `fork` returned to the parent.
unfoldable pub trystart : ℕ → List ℕ → Bool → Option ℕ → Effect → Effect
unfolding child_stdio
trystart now name true none e = record e {
  service = record e.service { log_restartafter = now + 4 * sec };
}
trystart now name false none e = record e {
  service = record e.service { restartafter = now + 4 * sec };
}
trystart now name true (some pid) e = record e {
  service = record e.service { log_pid = pid };
  spawned =
      record {
        name = name;
        islog = true;
        stdio = child_stdio e.service.flaglog true e.service.pipe;
      }
      ∷ e.spawned;
}
trystart now name false (some pid) e = record e {
  service = record e.service { pid = pid };
  spawned =
      record {
        name = name;
        islog = false;
        stdio = child_stdio e.service.flaglog false e.service.pipe;
      }
      ∷ e.spawned;
}

-- if ( tain_less ( & a, & deadline ) ) deadline = a
unfoldable pub earlier : ℕ → ℕ → ℕ
earlier a deadline = if ltb a deadline then a else deadline

unfoldable pub retrydirlater : ℕ → Scanner → Scanner
unfolding earlier
retrydirlater now s = record s { deadline = earlier (now + 3 * sec) s.deadline }

-- the directory of the logger
abbrev pub log_name : List ℕ → List ℕ
log_name name = name ++ codes "/log"

unfoldable pub start_log : ℕ → Entry → Effect → Effect
unfolding trystart earlier
start_log now d e =
    let v = e.service in
    if v.flaglog && v.log_pid == 0
    then if ltb now v.log_restartafter
      then record e { deadline = earlier v.log_restartafter e.deadline }
      else trystart now (log_name d.name) true d.fork_log e
    else e

unfoldable pub start_service : ℕ → Entry → Effect → Effect
unfolding trystart earlier
start_service now d e =
    let v = e.service in
    if v.pid == 0
    then if ltb now v.restartafter
      then record e { deadline = earlier v.restartafter e.deadline }
      else trystart now d.name false d.fork e
    else e

-- `check` from `services [ i ] . flagactive = 1` on
unfoldable pub activate : ℕ → Entry → List Service → Service → List Service → Scanner → Scanner
unfolding start_log start_service
activate now d before v after s =
    let e = start_service now d (
      start_log now d (record {
        service = record v { flagactive = true };
        deadline = s.deadline;
        spawned = s.spawned;
      })) in
    record s { services = before ++ e.service ∷ after; deadline = e.deadline; spawned = e.spawned }

-- A new service, with or without a logger; `none` where a call fails.
unfoldable pub blank_service : ℕ → ℕ → ℕ → Bool → Pipe → Service
blank_service now dev ino flaglog pipe = record {
  dev = dev;
  ino = ino;
  pid = 0;
  log_pid = 0;
  restartafter = now;
  log_restartafter = now;
  pipe = pipe;
  flagactive = false;
  flaglog = flaglog;
}

unfoldable pub piped_service : ℕ → ℕ → ℕ → Option (ℕ × ℕ) → Option Service
unfolding blank_service
piped_service now dev ino none = none
piped_service now dev ino (some (out, into)) =
    some (blank_service now dev ino true (open_pipe out into))

unfoldable pub new_service : ℕ → ℕ → ℕ → LogStat → Option (ℕ × ℕ) → Option Service
unfolding blank_service piped_service
new_service now dev ino missing p = some (blank_service now dev ino false closed)
new_service now dev ino log_stat_failed p = none
new_service now dev ino log_no_directory p = some (blank_service now dev ino false closed)
new_service now dev ino log_directory p = piped_service now dev ino p

-- The loop over the services for the device and the inode.
unfoldable pub find_id : ℕ → ℕ → List Service → Option (List Service × Service × List Service)
find_id dev ino [] = none
find_id dev ino (v ∷ vs) =
    let rest = find_id dev ino vs in
    if v.ino == ino && v.dev == dev
    then some ([], v, vs)
    else elim rest [ none ↦ none | some (before, w, after) ↦ some (v ∷ before, w, after) ]

-- p [ 0 ] < 0
unfoldable pub is_closed : Pipe → Bool
is_closed (open_pipe a b) = false
is_closed closed = true
is_closed reopened = true

unfoldable pub check_known : ℕ → Entry → List Service → Service → List Service → Scanner → Scanner
unfolding activate is_closed
check_known now d before v after s =
    if v.flaglog && is_closed v.pipe
    then record s { services = before ++ record v { pipe = reopened } ∷ after }
    else activate now d before v after s

unfoldable pub check_new : ℕ → Entry → ℕ → ℕ → Scanner → Scanner
unfolding activate new_service retrydirlater
check_new now d dev ino s =
    if leb s.max (length s.services)
    then s
    else elim (new_service now dev ino d.log_stat d.pipe_made) [
      | none ↦ retrydirlater now s
      | some v ↦ activate now d s.services v [] s
    ]

unfoldable pub check_stat : ℕ → Entry → Stat → Scanner → Scanner
unfolding check_known check_new find_id retrydirlater
check_stat now d stat_failed s = retrydirlater now s
check_stat now d no_directory s = s
check_stat now d (directory dev ino) s = elim (find_id dev ino s.services) [
  | none ↦ check_new now d dev ino s
  | some (before, v, after) ↦ check_known now d before v after s
]

-- name [ 0 ] == '.'
unfoldable pub is_hidden : List ℕ → Bool
is_hidden [] = false
is_hidden (c ∷ name) = c == b'.'

unfoldable pub check : ℕ → Entry → Scanner → Scanner
unfolding check_stat is_hidden
check now d s = if is_hidden d.name then s else check_stat now d d.stat s

unfoldable pub check_all : ℕ → List Entry → Scanner → Scanner
unfolding check
check_all now [] s = s
check_all now (d ∷ ds) s = check_all now ds (check now d s)

-- for ( ; i < n ; ++ i ) services [ i ] . flagactive = 0
unfoldable pub deactivate : List Service → List Service
deactivate [] = []
deactivate (v ∷ vs) = record v { flagactive = false } ∷ deactivate vs

-- The last loop takes a service out that is not active and has no process.
unfoldable pub is_gone : Service → Bool
is_gone v = not v.flagactive && (v.pid == 0 && not (v.flaglog && not (v.log_pid == 0)))

-- The last service is put in its place, and the loop goes on behind that one; on fuel.
unfoldable pub sweep : ℕ → List Service → List Service
unfolding is_gone split_last
sweep n [] = []
sweep zero (v ∷ vs) = v ∷ vs
sweep (suc n) (v ∷ []) = if is_gone v then [] else v ∷ []
sweep (suc n) (v ∷ w ∷ vs) =
    let (us, l) = split_last w vs in
    let swapped = l ∷ sweep n us in
    let kept = v ∷ sweep n (w ∷ vs) in if is_gone v then swapped else kept

-- `scan` behind `opendir`
unfoldable pub scan_dir : ℕ → Dir → Scanner → Scanner
unfolding retrydirlater check_all deactivate sweep
scan_dir now no_dir s = retrydirlater now s
scan_dir now (dir ds readdir_failed) s =
    let t = check_all now ds (record s { services = deactivate s.services }) in
    let u = if readdir_failed then retrydirlater now t else t in
    record u { services = sweep (length u.services) u.services }

-- with the time `now`
unfoldable pub scan : ℕ → Dir → Scanner → Scanner
unfolding scan_dir
scan now d s =
    if not s.flags.wantscan
    then s
    else scan_dir now d (record s {
      flags = record s.flags { wantscan = false };
      deadline = now + s.defaulttimeout;
    })
