-- ===== src/Stage2/Scan/Keeps.antt =====
-- src/stage2.c, `check` and `scan`: what they keep of the table.
use peso.Base.{
  ℕ, ◌+◌, ◌≡◌, refl, true, false, List, [], ◌∷◌, ◌++◌, none, some, ◌&&◌, leb, arith, Bool-cases,
  Option-cases, inl, inr, ◌∙◌, sym, length, subst,
}
use peso.Stage2.{Service, Scanner, reopened}
use peso.Stage2.Table.{length-total, total-deactivate, total-sweep-le, All-sweep, All-deactivate}
use peso.Stage2.Scan.{
  is_hidden, is_closed, Stat, stat_failed, no_directory, directory, Entry, Dir, no_dir, dir,
  retrydirlater, activate, new_service, find_id, check_known, check_new, check_stat, check,
  check_all, deactivate, sweep, scan_dir, scan,
}
use peso.Stage2.Scan.Slots.{
  IsLogged, IsTable, activate-Activated, aside-IsTable, named, new_service-IsBlank,
  put_back-IsTable, put_new-IsTable, retry-IsTable,
}

check_new-IsTable :
    (now : ℕ) (d : Entry) (dev ino : ℕ) (s : Scanner)
    → IsTable s
    → find_id dev ino s.services ≡ none
    → IsTable (check_new now d dev ino s)
unfolding check_new
check_new-IsTable now d dev ino s b e = elim (Bool-cases (leb s.max (length s.services))) [
  | inl y ↦ rw y b
  | inr y ↦ elim (Option-cases (new_service now dev ino d.log_stat d.pipe_made)) [
    | inl g ↦ rw (y, g) (retry-IsTable now s b)
    | inr (v, g) ↦
        let k = new_service-IsBlank now dev ino d.log_stat d.pipe_made v g in
        let a = activate-Activated now d s.services v [] s in
        rw (y, g)
          (put_new-IsTable s (activate now d s.services v [] s) dev ino a.service b (ground arith) e
            (a.same.dev ∙ k.at_dev) (a.same.ino ∙ k.at_ino) (a.same.logged (λ z. k.idle)) a.services
            a.max)
  ]
]

check_known-IsTable :
    (now : ℕ) (d : Entry) (dev ino : ℕ) (us : List Service) (v : Service) (ws : List Service)
    (s : Scanner)
    → IsTable s
    → find_id dev ino s.services ≡ some (us, v, ws)
    → IsTable (check_known now d us v ws s)
unfolding check_known
check_known-IsTable now d dev ino us v ws s b e =
    elim (Bool-cases (v.flaglog && is_closed v.pipe)) [
      | inl y ↦
          let w = record v { pipe = reopened } in
          rw y (
            put_back-IsTable s (record s { services = us ++ w ∷ ws }) dev ino us v w ws b e
              (record { dev = refl; ino = refl; flaglog = refl; logged = λ l. l }) refl refl)
      | inr y ↦
          let a = activate-Activated now d us v ws s in
          rw y (
            put_back-IsTable s (activate now d us v ws s) dev ino us v a.service ws b e a.same
              a.services a.max)
    ]

pub check_stat-IsTable :
    (now : ℕ) (d : Entry) (x : Stat) (s : Scanner) → IsTable s → IsTable (check_stat now d x s)
unfolding check_stat
check_stat-IsTable now d stat_failed s b = retry-IsTable now s b
check_stat-IsTable now d no_directory s b = b
check_stat-IsTable now d (directory dev ino) s b =
    elim (Option-cases (find_id dev ino s.services)) [
      | inl e ↦ rw (e, check_stat) (check_new-IsTable now d dev ino s b e)
      | inr ((us, v, ws), e) ↦ rw (e, check_stat) (check_known-IsTable now d dev ino us v ws s b e)
    ]

pub check-IsTable : (now : ℕ) (d : Entry) (s : Scanner) → IsTable s → IsTable (check now d s)
unfolding check
check-IsTable now d s b = elim (Bool-cases (is_hidden d.name)) [
  | inl y ↦ rw y b
  | inr y ↦ rw y (check_stat-IsTable now d d.stat s b)
]

pub check_all-IsTable :
    (now : ℕ) (ds : List Entry) (s : Scanner) → IsTable s → IsTable (check_all now ds s)
unfolding check_all
check_all-IsTable now [] s b = b
check_all-IsTable now (d ∷ ds) s b =
    check_all-IsTable now ds (check now d s) (check-IsTable now d s b)

pub deactivate-IsTable :
    (s : Scanner) → IsTable s → IsTable (record s { services = deactivate s.services })
unfolding named
deactivate-IsTable s b =
    let t = record s { services = deactivate s.services } in
    record {
      room = omega (
        arith,
        b.room,
        length-total t.services,
        length-total s.services,
        total-deactivate (λ v. 1) (λ v. refl) s.services,
      );
      single =
          λ i j. omega (arith, b.single i j, total-deactivate (named i j) (λ v. refl) s.services);
      logged = All-deactivate IsLogged IsLogged (λ v l. l) s.services b.logged;
    }

sweep-IsTable :
    (n : ℕ) (s : Scanner) → IsTable s → IsTable (record s { services = sweep n s.services })
sweep-IsTable n s b =
    let t = record s { services = sweep n s.services } in
    record {
      room = omega (
        arith,
        b.room,
        length-total t.services,
        length-total s.services,
        total-sweep-le (λ v. 1) n s.services,
      );
      single = λ i j. omega (arith, b.single i j, total-sweep-le (named i j) n s.services);
      logged = All-sweep IsLogged n s.services b.logged;
    }

scan_dir-IsTable : (now : ℕ) (d : Dir) (s : Scanner) → IsTable s → IsTable (scan_dir now d s)
unfolding scan_dir
scan_dir-IsTable now no_dir s b = retry-IsTable now s b
scan_dir-IsTable now (dir ds false) s b =
    let t = check_all now ds (record s { services = deactivate s.services }) in
    sweep-IsTable (length t.services) t (check_all-IsTable now ds _ (deactivate-IsTable s b))
scan_dir-IsTable now (dir ds true) s b =
    let t = check_all now ds (record s { services = deactivate s.services }) in
    let u = retrydirlater now t in
    sweep-IsTable (length u.services) u
      (retry-IsTable now t (check_all-IsTable now ds _ (deactivate-IsTable s b)))

pub scan-IsTable : (now : ℕ) (d : Dir) (s : Scanner) → IsTable s → IsTable (scan now d s)
unfolding scan
scan-IsTable now d s b = elim (Bool-cases s.flags.wantscan) [
  | inl y ↦
      let t : Scanner = record s {
        flags = record s.flags { wantscan = false };
        deadline = now + s.defaulttimeout;
      } in
      subst IsTable (sym (ground (arith, y)))
        (scan_dir-IsTable now d t (aside-IsTable s t refl refl b))
  | inr y ↦ ground (arith, y, b)
]
