-- ===== src/Stage2/Reap.antt =====
-- src/stage2.c, `reap`: the services whose processes ended.
pub mod Holds
pub mod Ended
pub mod Sums
pub mod Keeps
pub mod Sleeps
pub mod Lookup
pub mod Refines
use peso.Base.{
  subst, ℕ, zero, suc, ◌+◌, ◌-◌, ◌≡◌, ◌≢◌, refl, Bool, true, false, not, ◌&&◌, ◌||◌, List, [], ◌∷◌,
  ◌++◌, Option, none, some, Option-cases, ◌==◌, ltb, if◌then◌else◌, arith, Bool-cases, inl, inr,
  ◌∙◌, ap, sym,
}
use peso.Stage2.{Scanner, sec, Flags, Service, Pipe, open_pipe, closed, reopened}

-- What `wait_nohang` returns: an error other than ECHILD, or the pid of a process that ended. ECHILD
-- and 0 end the list.
pub data Wait : Type 0 where
  wait_failed : Wait
  ended : ℕ → Wait

-- The loop over the services: those before the first one with this process, that one with the
-- process taken out, and those behind it.
unfoldable pub find_pid : ℕ → ℕ → List Service → Option (List Service × Service × List Service)
find_pid nextscan r [] = none
find_pid nextscan r (v ∷ vs) =
    let rest = find_pid nextscan r vs in
    if v.pid == r
    then some ([], record v { pid = 0; restartafter = nextscan }, vs)
    else if v.log_pid == r
    then some ([], record v { log_pid = 0; log_restartafter = nextscan }, vs)
    else elim rest [ none ↦ none | some (before, w, after) ↦ some (v ∷ before, w, after) ]

-- The last of `v ∷ vs`, and the others.
unfoldable pub split_last : Service → List Service → List Service × Service
split_last v [] = ([], v)
split_last v (w ∷ vs) = let (us, l) = split_last w vs in (v ∷ us, l)

-- services [ i ] = services [ -- n ]
unfoldable pub swap_remove : List Service → List Service → List Service
unfolding split_last
swap_remove before [] = before
swap_remove before (v ∷ vs) = let (us, l) = split_last v vs in before ++ l ∷ us

-- The early closing of the pipe, and whether a scan is wanted.
unfoldable pub close_pipe : Pipe → Service → Bool → Service × Bool
close_pipe (open_pipe a b) v wantscan = (record v { pipe = closed }, wantscan)
close_pipe closed v wantscan = (v, wantscan)
close_pipe reopened v wantscan = (v, true)

-- A service that is not active goes when both its processes ended.
unfoldable pub drop_ended : List Service → Service → List Service → List Service
unfolding swap_remove
drop_ended before v after =
    if v.pid == 0 && (not v.flaglog || v.log_pid == 0)
    then swap_remove before after
    else before ++ v ∷ after

unfoldable pub reap_one : ℕ → ℕ → Scanner → Scanner
unfolding find_pid drop_ended close_pipe
reap_one nextscan r s = elim (find_pid nextscan r s.services) [
  | none ↦ s
  | some (before, v, after) ↦
      if v.flagactive
      then record s {
        services = before ++ v ∷ after;
        deadline = if ltb nextscan s.deadline then nextscan else s.deadline;
      }
      else (let (w, scan) =
            if v.flaglog then close_pipe v.pipe v s.flags.wantscan else (v, s.flags.wantscan) in
          record s {
            services = drop_ended before w after;
            flags = record s.flags { wantscan = scan };
          })
]

-- `none` is `panic`.
unfoldable pub reap_all : ℕ → List Wait → Scanner → Option Scanner
unfolding reap_one
reap_all nextscan [] s = some s
reap_all nextscan (wait_failed ∷ ws) s = none
reap_all nextscan (ended zero ∷ ws) s = some s
reap_all nextscan (ended (suc r) ∷ ws) s = reap_all nextscan ws (reap_one nextscan (suc r) s)

-- with the time `now`
unfoldable pub reap : ℕ → List Wait → Scanner → Option Scanner
unfolding reap_all
reap now ws s =
    if not s.flags.wantreap
    then some s
    else reap_all (now + sec) ws (record s { flags = record s.flags { wantreap = false } })
