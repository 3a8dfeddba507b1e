-- ===== src/Stage2/Scan/Holds.antt =====
-- src/stage2.c, `check` and `scan`: the processes that stand in the table.
use peso.Base.{
  ℕ, zero, suc, ◌+◌, ◌≤◌, ◌≡◌, ◌≢◌, refl, true, false, List, [], ◌∷◌, some, ◌==◌, ◌&&◌, leb,
  if◌then◌else◌, arith, Bool-cases, Option-cases, inl, inr, ap, length,
}
use peso.Stage2.{Service, Scanner, reopened}
use peso.Stage2.Table.{
  total, All, total-++, total-split_last, total-find_id, total-deactivate, All-split_last,
}
use peso.Stage2.Reap.{split_last}
use peso.Stage2.Reap.Holds.{holds}
use peso.Stage2.Scan.{
  is_hidden, is_closed, Stat, stat_failed, no_directory, directory, Entry, Dir, no_dir, dir, Effect,
  trystart, retrydirlater, start_log, start_service, activate, new_service, find_id, check_known,
  check_new, check_stat, check, check_all, deactivate, is_gone, sweep, scan_dir, scan,
}
use peso.Stage2.Scan.Slots.{IsLogged, IsTable, aside-IsTable}
use peso.Stage2.Scan.Keeps.{check_all-IsTable, deactivate-IsTable}

-- How often the process stands in the service.
unfoldable pub holds_one : ℕ → Service → ℕ
holds_one x v = (if v.pid == x then 1 else 0) + (if v.log_pid == x then 1 else 0)

holds-total : (x : ℕ) (vs : List Service) → holds x vs ≡ total (holds_one x) vs
unfolding holds total holds_one
holds-total x [] = refl
holds-total x (v ∷ vs) = omega (arith, holds-total x vs)

module _ (x : ℕ) (n : x ≢ 0) where
  start_log-le :
      (now : ℕ) (d : Entry) (e : Effect)
      → holds_one x e.service ≤ holds_one x (start_log now d e).service
  unfolding start_log trystart holds_one
  start_log-le now d e = ground (arith, n)

  start_service-le :
      (now : ℕ) (d : Entry) (e : Effect)
      → holds_one x e.service ≤ holds_one x (start_service now d e).service
  unfolding start_service trystart holds_one
  start_service-le now d e = ground (arith, n)

  activate-le :
      (now : ℕ) (d : Entry) (us : List Service) (v : Service) (ws : List Service) (s : Scanner)
      → total (holds_one x) us + (holds_one x v + total (holds_one x) ws)
        ≤ total (holds_one x) (activate now d us v ws s).services
  unfolding activate total holds_one
  activate-le now d us v ws s =
      let e : Effect = record {
        service = record v { flagactive = true };
        deadline = s.deadline;
        spawned = s.spawned;
      } in
      let m = start_log now d e in
      omega (
        arith,
        total-++ (holds_one x) us ((start_service now d m).service ∷ ws),
        start_log-le now d e,
        start_service-le now d m,
      )

  gone-holds : (v : Service) → IsLogged v → is_gone v ≡ true → holds_one x v ≡ 0
  unfolding is_gone holds_one
  gone-holds v l g = ground (arith, n, l, g)

  sweep-holds :
      (k : ℕ) (vs : List Service)
      → All IsLogged vs
      → total (holds_one x) (sweep k vs) ≡ total (holds_one x) vs
  unfolding sweep total All
  sweep-holds zero [] a = refl
  sweep-holds (suc k) [] a = refl
  sweep-holds zero (v ∷ vs) a = refl
  sweep-holds (suc k) (v ∷ []) (p, a) = ground (arith, gone-holds v p)
  sweep-holds (suc k) (v ∷ w ∷ vs) (p, (q, a)) = elim (Bool-cases (is_gone v)) [
    | inl y ↦ ground (
      arith,
      y,
      gone-holds v p y,
      total-split_last (holds_one x) w vs,
      sweep-holds k (split_last w vs).0 (All-split_last IsLogged w vs q a).1,
    )
    | inr y ↦ ground (arith, y, sweep-holds k (w ∷ vs) (q, a))
  ]

  check_known-le :
      (now dev ino : ℕ) (d : Entry) (us : List Service) (v : Service) (ws : List Service)
      (s : Scanner)
      → find_id dev ino s.services ≡ some (us, v, ws)
      → total (holds_one x) s.services ≤ total (holds_one x) (check_known now d us v ws s).services
  unfolding check_known total holds_one
  check_known-le now dev ino d us v ws s e =
      let sum = total-find_id (holds_one x) dev ino s.services us v ws e in
      elim (Bool-cases (v.flaglog && is_closed v.pipe)) [
        | inl y ↦
            rw (y, check_known)
              (omega (arith, sum, total-++ (holds_one x) us (record v { pipe = reopened } ∷ ws)))
        | inr y ↦ rw (y, check_known) (omega (arith, sum, activate-le now d us v ws s))
      ]

  check_new-le :
      (now dev ino : ℕ) (d : Entry) (s : Scanner)
      → total (holds_one x) s.services ≤ total (holds_one x) (check_new now d dev ino s).services
  unfolding check_new retrydirlater total
  check_new-le now dev ino d s = elim (Bool-cases (leb s.max (length s.services))) [
    | inl y ↦ rw (y, check_new) (omega arith)
    | inr y ↦ elim (Option-cases (new_service now dev ino d.log_stat d.pipe_made)) [
      | inl g ↦ rw (y, check_new) (rw (g, check_new) (omega arith))
      | inr (v, g) ↦
          rw (y, check_new) (rw (g, check_new) (omega (arith, activate-le now d s.services v [] s)))
    ]
  ]

  check_stat-le :
      (now : ℕ) (d : Entry) (a : Stat) (s : Scanner)
      → total (holds_one x) s.services ≤ total (holds_one x) (check_stat now d a s).services
  unfolding check_stat retrydirlater
  check_stat-le now d stat_failed s = omega arith
  check_stat-le now d no_directory s = omega arith
  check_stat-le now d (directory dev ino) s = elim (Option-cases (find_id dev ino s.services)) [
    | inl e ↦ rw (e, check_stat) (check_new-le now dev ino d s)
    | inr ((us, v, ws), e) ↦ rw (e, check_stat) (check_known-le now dev ino d us v ws s e)
  ]

  check_all-le :
      (now : ℕ) (ds : List Entry) (s : Scanner)
      → total (holds_one x) s.services ≤ total (holds_one x) (check_all now ds s).services
  unfolding check_all check
  check_all-le now [] s = omega arith
  check_all-le now (d ∷ ds) s =
      let rest = check_all-le now ds (check now d s) in
      elim (Bool-cases (is_hidden d.name)) [
        | inl y ↦ omega (arith, rest, ap (λ t. total (holds_one x) t.services) (hidden y))
        | inr y ↦ omega (
          arith,
          rest,
          check_stat-le now d d.stat s,
          ap (λ t. total (holds_one x) t.services) (shown y),
        )
      ]
    where
      hidden : is_hidden d.name ≡ true → check now d s ≡ s
      hidden y = rw (y, check) refl

      shown : is_hidden d.name ≡ false → check now d s ≡ check_stat now d d.stat s
      shown y = rw (y, check) refl

  deactivate-holds :
      (vs : List Service) → total (holds_one x) (deactivate vs) ≡ total (holds_one x) vs
  unfolding holds_one
  deactivate-holds vs = total-deactivate (holds_one x) (λ v. refl) vs

  scan_dir-le :
      (now : ℕ) (d : Dir) (s : Scanner)
      → IsTable s
      → total (holds_one x) s.services ≤ total (holds_one x) (scan_dir now d s).services
  unfolding scan_dir retrydirlater
  scan_dir-le now no_dir s b = omega arith
  scan_dir-le now (dir ds f) s b =
      let u = record s { services = deactivate s.services } in
      let t = check_all now ds u in
      let logged = (check_all-IsTable now ds u (deactivate-IsTable s b)).logged in
      ground (
        arith,
        deactivate-holds s.services,
        check_all-le now ds u,
        sweep-holds (length t.services) t.services logged,
      )

pub scan-holds :
    (x now : ℕ) (d : Dir) (s : Scanner)
    → x ≢ 0
    → IsTable s
    → holds x s.services ≤ holds x (scan now d s).services
unfolding scan
scan-holds x now d s n b = elim (Bool-cases s.flags.wantscan) [
  | inl y ↦
      let t : Scanner = record s {
        flags = record s.flags { wantscan = false };
        deadline = now + s.defaulttimeout;
      } in
      let same : scan now d s ≡ scan_dir now d t = ground (arith, y) in
      omega (
        arith,
        ap (λ u. holds x u.services) same,
        holds-total x s.services,
        holds-total x (scan_dir now d t).services,
        scan_dir-le x n now d t (aside-IsTable s t refl refl b),
      )
  | inr y ↦
      let same : scan now d s ≡ s = ground (arith, y) in
      omega (arith, ap (λ u. holds x u.services) same)
]
