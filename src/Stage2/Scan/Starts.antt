-- ===== src/Stage2/Scan/Starts.antt =====
-- src/stage2.c, `check`: which processes it starts, and the pipe between them.
use peso.Base.{
  ℕ, ◌<◌, ◌≡◌, refl, true, false, [], ◌∷◌, ◌++◌, none, some, leb, arith, ◌∙◌, ap, length,
}
use peso.Stage2.{Service, Scanner, moved, open_pipe}
use peso.Stage2.Scan.{
  log_name, child_stdio, is_hidden, directory, log_directory, Entry, Effect, trystart, start_log,
  start_service, activate, new_service, piped_service, blank_service, find_id, check_new,
  check_stat, check,
}

check_room :
    (now dev ino : ℕ) (d : Entry) (s : Scanner) (v : Service)
    → length s.services < s.max
    → new_service now dev ino d.log_stat d.pipe_made ≡ some v
    → check_new now d dev ino s ≡ activate now d s.services v [] s
unfolding check_new
check_room now dev ino d s v r n =
    let z : leb s.max (length s.services) ≡ false = ground arith in
    rw (z, check_new) (rw (n, check_new) refl)

-- A directory that is not in the table, where there is room and the calls succeed.
check_unknown :
    (now dev ino : ℕ) (d : Entry) (s : Scanner) (v : Service)
    → is_hidden d.name ≡ false
    → d.stat ≡ directory dev ino
    → find_id dev ino s.services ≡ none
    → length s.services < s.max
    → new_service now dev ino d.log_stat d.pipe_made ≡ some v
    → check now d s ≡ activate now d s.services v [] s
unfolding check check_stat
check_unknown now dev ino d s v h t e r n =
    rw (h, check) (rw (t, check_stat) (rw (e, check_stat) (check_room now dev ino d s v r n)))

started : ℕ → Entry → Service → Scanner → Effect
started now d v s = start_service now d (
    start_log now d (record {
      service = record v { flagactive = true };
      deadline = s.deadline;
      spawned = s.spawned;
    }))

-- A new service with a logger.
piped-started :
    (now dev ino out into pid log_pid : ℕ) (d : Entry) (s : Scanner)
    → d.fork_log ≡ some log_pid
    → d.fork ≡ some pid
    → let v = blank_service now dev ino true (open_pipe out into) in
      ((started now d v s).service ≡ record v { pid = pid; log_pid = log_pid; flagactive = true })
      × ((started now d v s).spawned
          ≡ record { name = d.name; islog = false; stdio = moved 1 into }
            ∷ record { name = log_name d.name; islog = true; stdio = moved 0 out }
            ∷ s.spawned)
unfolding started start_log start_service trystart child_stdio blank_service
piped-started now dev ino out into pid log_pid d s fl f =
    (ground (arith, fl, f), ground (arith, fl, f))

-- For a directory that is not in the table, with a directory for its logger, where there is
-- room and the calls succeed: `check` adds one active service with the two processes, and the
-- standard output of the service is the writing end of the pipe whose reading end is the
-- standard input of the logger.
pub check-pipes :
    (now dev ino out into pid log_pid : ℕ) (d : Entry) (s : Scanner)
    → is_hidden d.name ≡ false
    → d.stat ≡ directory dev ino
    → find_id dev ino s.services ≡ none
    → length s.services < s.max
    → d.log_stat ≡ log_directory
    → d.pipe_made ≡ some (out, into)
    → d.fork_log ≡ some log_pid
    → d.fork ≡ some pid
    → (v : Service) × ((check now d s).services ≡ s.services ++ v ∷ [])
      × (v.pid ≡ pid)
      × (v.log_pid ≡ log_pid)
      × (v.flagactive ≡ true)
      × ((check now d s).spawned
          ≡ record { name = d.name; islog = false; stdio = moved 1 into }
            ∷ record { name = log_name d.name; islog = true; stdio = moved 0 out }
            ∷ s.spawned)
unfolding new_service piped_service activate started
check-pipes now dev ino out into pid log_pid d s h t e r l p fl f =
    let v = blank_service now dev ino true (open_pipe out into) in
    let made : new_service now dev ino d.log_stat d.pipe_made ≡ some v = rw (l, p) refl in
    let path = check_unknown now dev ino d s v h t e r made in
    let (same, spawns) = piped-started now dev ino out into pid log_pid d s fl f in
    (
      (started now d v s).service,
      ap (λ u. u.services) path,
      ap (λ u. u.pid) same,
      ap (λ u. u.log_pid) same,
      ap (λ u. u.flagactive) same,
      ap (λ u. u.spawned) path ∙ spawns,
    )
