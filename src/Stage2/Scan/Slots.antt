-- ===== src/Stage2/Scan/Slots.antt =====
-- src/stage2.c: the size of the table of services, the directories in it and the loggers, where one service
-- is put back or added.
use peso.Base.{
  ℕ, ◌+◌, ◌≤◌, ◌<◌, ◌≡◌, refl, true, false, List, [], ◌∷◌, ◌++◌, Option, none, some, ◌==◌, ◌&&◌,
  if◌then◌else◌, arith, Option-cases, inl, inr, ◌∙◌, ap, sym, length, subst,
}
use peso.Stage2.{Service, Scanner}
use peso.Stage2.Table.{total, All, length-total, total-++, total-find_id, All-++, All-find_id}
use peso.Stage2.Scan.{
  LogStat, missing, log_stat_failed, log_no_directory, log_directory, Entry, Effect, trystart,
  retrydirlater, start_log, start_service, activate, new_service, piped_service, blank_service,
  find_id,
}

-- The service is that of the directory.
unfoldable pub named : ℕ → ℕ → Service → ℕ
named dev ino v = if v.ino == ino && v.dev == dev then 1 else 0

-- A service without a logger has no process for it.
abbrev pub IsLogged : Service → Type 0
IsLogged v = (v.flaglog ≡ false) → v.log_pid ≡ 0

-- The table has room, each directory is in it once, and no process stands for a logger that is none.
pub record IsTable (s : Scanner) : Type 0 where
  pub room : length s.services ≤ s.max
  pub single : (dev ino : ℕ) → total (named dev ino) s.services ≤ 1
  pub logged : All IsLogged s.services

-- What the starting of processes leaves alone.
pub record SameId (v w : Service) : Type 0 where
  pub dev : w.dev ≡ v.dev
  pub ino : w.ino ≡ v.ino
  pub flaglog : w.flaglog ≡ v.flaglog
  pub logged : IsLogged v → IsLogged w

pub start_log-SameId :
    (now : ℕ) (d : Entry) (e : Effect) → SameId e.service (start_log now d e).service
unfolding start_log trystart
start_log-SameId now d e = ground arith

pub start_service-SameId :
    (now : ℕ) (d : Entry) (e : Effect) → SameId e.service (start_service now d e).service
unfolding start_service trystart
start_service-SameId now d e = ground arith

pub SameId-trans : (u v w : Service) → SameId u v → SameId v w → SameId u w
SameId-trans u v w a b = record {
  dev = b.dev ∙ a.dev;
  ino = b.ino ∙ a.ino;
  flaglog = b.flaglog ∙ a.flaglog;
  logged = λ l. b.logged (a.logged l);
}

-- Where `activate` puts the service back.
pub record Activated (before : List Service) (v : Service) (after : List Service) (s t : Scanner)
    : Type 0 where
  pub service : Service
  pub same : SameId v service
  pub services : t.services ≡ before ++ service ∷ after
  pub max : t.max ≡ s.max

pub activate-Activated :
    (now : ℕ) (d : Entry) (before : List Service) (v : Service) (after : List Service) (s : Scanner)
    → Activated before v after s (activate now d before v after s)
unfolding activate
activate-Activated now d before v after s =
    let e : Effect = record {
      service = record v { flagactive = true };
      deadline = s.deadline;
      spawned = s.spawned;
    } in
    let m = start_log now d e in
    let a =
      SameId-trans e.service m.service (start_service now d m).service (start_log-SameId now d e)
        (start_service-SameId now d m) in
    record {
      service = (start_service now d m).service;
      same = record { dev = a.dev; ino = a.ino; flaglog = a.flaglog; logged = a.logged };
      services = refl;
      max = refl;
    }

pub named-SameId : (dev ino : ℕ) (v w : Service) → SameId v w → named dev ino w ≡ named dev ino v
unfolding named
named-SameId dev ino v w a = rw (a.dev, a.ino)

-- The service of the table is put back with the same directory.
pub put_back-IsTable :
    (s t : Scanner) (dev ino : ℕ) (us : List Service) (v w : Service) (ws : List Service)
    → IsTable s
    → find_id dev ino s.services ≡ some (us, v, ws)
    → SameId v w
    → t.services ≡ us ++ w ∷ ws
    → t.max ≡ s.max
    → IsTable t
unfolding total All
put_back-IsTable s t dev ino us v w ws b e a p m =
    let sums = λ (f : Service → ℕ) (h : f w ≡ f v).
      let o : total f t.services ≡ total f s.services =
        ap (total f) p
        ∙ (total-++ f us (w ∷ ws)
            ∙ (ap (λ x. total f us + (x + total f ws)) h
                ∙ total-find_id f dev ino s.services us v ws e)) in
      o in
    let (l, x, r) = All-find_id IsLogged dev ino s.services us v ws b.logged e in
    record {
      room =
          omega (
            arith,
            b.room,
            m,
            length-total t.services,
            length-total s.services,
            sums (λ u. 1) refl,
          );
      single = λ i j. omega (arith, b.single i j, sums (named i j) (named-SameId i j v w a));
      logged = subst (All IsLogged) (sym p) (All-++ IsLogged us (w ∷ ws) l (a.logged x, r));
    }

pub unknown-named :
    (dev ino : ℕ) (vs : List Service) → find_id dev ino vs ≡ none → total (named dev ino) vs ≡ 0
unfolding find_id total named
unknown-named dev ino [] e = refl
unknown-named dev ino (v ∷ vs) e = elim (Option-cases (find_id dev ino vs)) [
  | inl g ↦ ground (arith, e, g, unknown-named dev ino vs g)
  | inr ((a, b, c), g) ↦ ground (arith, e, g)
]

-- A new service, where there is room.
pub put_new-IsTable :
    (s t : Scanner) (dev ino : ℕ) (w : Service)
    → IsTable s
    → length s.services < s.max
    → find_id dev ino s.services ≡ none
    → w.dev ≡ dev
    → w.ino ≡ ino
    → IsLogged w
    → t.services ≡ s.services ++ w ∷ []
    → t.max ≡ s.max
    → IsTable t
unfolding total All named
put_new-IsTable s t dev ino w b l e d i g p m =
    let sums = λ (f : Service → ℕ).
      let o : total f t.services ≡ total f s.services + (f w + 0) =
        ap (total f) p ∙ total-++ f s.services (w ∷ []) in
      o in
    record {
      room = omega (arith, l, m, length-total t.services, length-total s.services, sums (λ u. 1));
      single = λ x y.
          ground (arith, b.single x y, sums (named x y), unknown-named dev ino s.services e, d, i);
      logged = subst (All IsLogged) (sym p) (All-++ IsLogged s.services (w ∷ []) b.logged (g, tt));
    }

-- What `check` makes for a directory that is not in the table.
pub record IsBlank (dev ino : ℕ) (v : Service) : Type 0 where
  pub at_dev : v.dev ≡ dev
  pub at_ino : v.ino ≡ ino
  pub idle : v.log_pid ≡ 0

pub new_service-IsBlank :
    (now dev ino : ℕ) (l : LogStat) (p : Option (ℕ × ℕ)) (v : Service)
    → new_service now dev ino l p ≡ some v
    → IsBlank dev ino v
unfolding new_service piped_service blank_service
new_service-IsBlank now dev ino missing p v e = ground (arith, e)
new_service-IsBlank now dev ino log_stat_failed p v e = cc
new_service-IsBlank now dev ino log_no_directory p v e = ground (arith, e)
new_service-IsBlank now dev ino log_directory none v e = cc
new_service-IsBlank now dev ino log_directory (some (a, c)) v e = ground (arith, e)

pub aside-IsTable :
    (s t : Scanner) → t.services ≡ s.services → t.max ≡ s.max → IsTable s → IsTable t
aside-IsTable s t p m b = record {
  room = omega (arith, ap length p, m, b.room);
  single = λ i j. omega (arith, b.single i j, ap (total (named i j)) p);
  logged = subst (All IsLogged) (sym p) b.logged;
}

pub retry-IsTable : (now : ℕ) (s : Scanner) → IsTable s → IsTable (retrydirlater now s)
unfolding retrydirlater
retry-IsTable now s b = aside-IsTable s (retrydirlater now s) refl refl b
