-- ===== src/Stage2/Kills.antt =====
-- src/stage2.c, `killthem`.
use peso.Base.{
  ℕ, ◌/◌, ◌%◌, ◌≡◌, refl, Bool, true, false, not, ◌&&◌, List, [], ◌∷◌, ◌++◌, map, ◌==◌,
  if◌then◌else◌, arith,
}
use peso.Stage2.{Flags, Service}
use peso.Stage2.Control.{hup, quit, command}

pub data Kill : Type 0 where
  kill_term kill_hup : ℕ → Kill

-- wantkill & 1, & 2 and & 4
unfoldable pub bit : ℕ → ℕ → Bool
bit b w = not (w / b % 2 == 0)

unfoldable pub signal : Bool → ℕ → Kill
signal true p = kill_term p
signal false p = kill_hup p

-- the calls of `kill` for one service
unfoldable pub kill_one : ℕ → Service → List Kill
unfolding bit signal
kill_one w v =
    if not (bit 1 w) && v.flagactive
    then []
    else (if v.pid == 0 then [] else signal (bit 2 w) v.pid ∷ [])
      ++ (if v.flaglog && not (v.log_pid == 0) then signal (bit 4 w) v.log_pid ∷ [] else [])

unfoldable pub kill_each : ℕ → List Service → List Kill
unfolding kill_one
kill_each w [] = []
kill_each w (v ∷ vs) = kill_one w v ++ kill_each w vs

-- the calls of `kill`, in their order, and the flags
unfoldable pub killthem : List Service → Flags → List Kill × Flags
unfolding kill_each
killthem services s =
    if s.wantkill == 0 then ([], s) else (kill_each s.wantkill services, record s { wantkill = 0 })

-- The processes of the services, and the services that are not active.
unfoldable pub pids : List Service → List ℕ
pids [] = []
pids (v ∷ vs) =
    (if v.pid == 0 then [] else v.pid ∷ [])
    ++ (if v.flaglog && not (v.log_pid == 0) then v.log_pid ∷ [] else [])
    ++ pids vs

unfoldable pub inactive : List Service → List Service
inactive [] = []
inactive (v ∷ vs) = if v.flagactive then inactive vs else v ∷ inactive vs

kill_each-quit : (vs : List Service) → kill_each 7 vs ≡ map kill_term (pids vs)
unfolding kill_each pids
kill_each-quit [] = refl
kill_each-quit (v ∷ vs) = ground (arith, kill_each-quit vs)

kill_each-hup : (vs : List Service) → kill_each 1 vs ≡ map kill_hup (pids vs)
unfolding kill_each pids
kill_each-hup [] = refl
kill_each-hup (v ∷ vs) = ground (arith, kill_each-hup vs)

kill_each-inactive : (vs : List Service) → kill_each 6 vs ≡ map kill_term (pids (inactive vs))
unfolding kill_each pids inactive
kill_each-inactive [] = refl
kill_each-inactive (v ∷ vs) = ground (arith, kill_each-inactive vs)

-- Behind `quit` every process of every service gets SIGTERM, behind `hup` every one gets
-- SIGHUP, and behind the command `N` those of the services that are not active get SIGTERM; all
-- once, in the order of the services, and the request is cleared.
pub killthem-kills :
    (vs : List Service) (s : Flags)
    → (killthem vs (quit s) ≡ (map kill_term (pids vs), record s { cont = false; wantkill = 0 }))
      × (killthem vs (hup s) ≡ (map kill_hup (pids vs), record s { cont = false; wantkill = 0 }))
      × (killthem vs (command b'N' s)
          ≡ (map kill_term (pids (inactive vs)), record s { wantkill = 0 }))
unfolding killthem quit hup command
killthem-kills vs s = (
  ground (arith, kill_each-quit vs),
  ground (arith, kill_each-hup vs),
  ground (arith, kill_each-inactive vs),
)

-- A second `killthem` sends no signal and changes no flag, whatever the services are then.
pub killthem-killthem :
    (us vs : List Service) (s : Flags) → killthem vs (killthem us s).1 ≡ ([], (killthem us s).1)
unfolding killthem
killthem-killthem us vs s = ground arith
