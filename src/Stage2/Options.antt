-- ===== src/Stage2/Options.antt =====
-- src/stage2.c, `main`: the options.
use peso.Base.{
  Bool, List, Option, Option-cases, [], arith, false, if_both, if◌then◌else◌, inl, inr, ltb, none,
  not, refl, some, true, ℕ, ◌∷◌, ◌≡◌, ◌≤◌, ◌⊎◌,
}

-- What the options set: in the order of the variables, `t`, `max`, `notif`, `divertsignals` and whether
-- FLAG_DIVERT_SIGNALS_OFF is set.
pub record Settings : Type 0 where
  pub t : ℕ
  pub max : ℕ
  pub notif : ℕ
  pub divertsignals : Bool
  pub divert_off : Bool

unfoldable pub settings : Settings
settings = record { t = 0; max = 500; notif = 0; divertsignals = false; divert_off = false }

-- An option as `subgetopt_r` returns it, with its argument.
pub data Switch : Type 0 where
  opt_S opt_s unknown : Switch
  opt_t opt_c opt_d : List ℕ → Switch

-- `uint0_scan`, which returns the number that its argument is as a whole or none, and
-- whether `fcntl` finds the descriptor open.
module _ (uint0_scan : List ℕ → Option ℕ) (is_open : ℕ → Bool) where
  -- case 'd', which the cases before it fall into; `inr` is the code of the exit.
  unfoldable pub take_d : List ℕ → Settings → ℕ ⊎ Settings
  take_d arg o = elim (uint0_scan arg) [
    | none ↦ inl 100
    | some fd ↦
        if ltb fd 3
        then inl 100
        else if not (is_open fd)
        then inl 100
        else inr (record o { notif = fd })
  ]

  unfoldable pub take_c : List ℕ → Settings → ℕ ⊎ Settings
  unfolding take_d
  take_c arg o = elim (uint0_scan arg) [ none ↦ take_d arg o | some m ↦ inr (record o { max = m }) ]

  unfoldable pub take_t : List ℕ → Settings → ℕ ⊎ Settings
  unfolding take_c
  take_t arg o = elim (uint0_scan arg) [ none ↦ take_c arg o | some t ↦ inr (record o { t = t }) ]

  unfoldable pub take_switch : ℕ → Switch → Settings → ℕ ⊎ Settings
  unfolding take_t take_c take_d
  take_switch mypid opt_S o = inr (if ltb 1 mypid then record o { divert_off = true } else o)
  take_switch mypid opt_s o = inr (record o { divertsignals = true })
  take_switch mypid (opt_t arg) o = take_t arg o
  take_switch mypid (opt_c arg) o = take_c arg o
  take_switch mypid (opt_d arg) o = take_d arg o
  take_switch mypid unknown o = inl 100

  unfoldable pub take_switches : ℕ → List Switch → Settings → ℕ ⊎ Settings
  unfolding take_switch
  take_switches mypid [] o = inr (if ltb o.max 2 then record o { max = 2 } else o)
  take_switches mypid (p ∷ ps) o = elim (take_switch mypid p o) [
    | inl code ↦ inl code
    | inr q ↦ take_switches mypid ps q
  ]

-- No descriptor, or one from 3 on that is open.
unfoldable pub IsNotif : (ℕ → Bool) → ℕ → Type 0
IsNotif is_open fd = (fd ≡ 0) ⊎ (3 ≤ fd × is_open fd ≡ true)

-- The exit code is 100, or the settings are good ones.
unfoldable pub Settled : (ℕ → Bool) → ℕ → ℕ ⊎ Settings → Type 0
unfolding IsNotif
Settled is_open least (inl code) = code ≡ 100
Settled is_open least (inr o) = (least ≤ o.max) × IsNotif is_open o.notif

module _ (uint0_scan : List ℕ → Option ℕ) (is_open : ℕ → Bool) where
  take_d-Settled :
      (arg : List ℕ) (o : Settings) → Settled is_open 0 (take_d uint0_scan is_open arg o)
  unfolding take_d Settled IsNotif
  take_d-Settled arg o = elim (Option-cases (uint0_scan arg)) [
    | inl g ↦ rw (g, take_d) refl
    | inr (fd, g) ↦
        rw (g, take_d)
          (if_both (Settled is_open 0) (ltb fd 3) (inl 100)
            (if not (is_open fd) then inl 100 else inr (record o { notif = fd })) (λ y. refl)
            (λ y.
              if_both (Settled is_open 0) (not (is_open fd)) (inl 100)
                (inr (record o { notif = fd })) (λ z. refl)
                (λ z. (omega arith, inr (ground arith, ground (arith, z))))))
  ]

  take_c-Settled :
      (arg : List ℕ) (o : Settings)
      → IsNotif is_open o.notif
      → Settled is_open 0 (take_c uint0_scan is_open arg o)
  unfolding take_c Settled IsNotif
  take_c-Settled arg o n = elim (Option-cases (uint0_scan arg)) [
    | inl g ↦ rw (g, take_c) (take_d-Settled arg o)
    | inr (m, g) ↦ rw (g, take_c) (omega arith, n)
  ]

  take_t-Settled :
      (arg : List ℕ) (o : Settings)
      → IsNotif is_open o.notif
      → Settled is_open 0 (take_t uint0_scan is_open arg o)
  unfolding take_t Settled IsNotif
  take_t-Settled arg o n = elim (Option-cases (uint0_scan arg)) [
    | inl g ↦ rw (g, take_t) (take_c-Settled arg o n)
    | inr (t, g) ↦ rw (g, take_t) (omega arith, n)
  ]

  take_switch-Settled :
      (mypid : ℕ) (p : Switch) (o : Settings)
      → IsNotif is_open o.notif
      → Settled is_open 0 (take_switch uint0_scan is_open mypid p o)
  unfolding take_switch Settled IsNotif
  take_switch-Settled mypid opt_S o n = (
    omega arith,
    if_both (λ (q : Settings). IsNotif is_open q.notif) (ltb 1 mypid) _ o (λ y. n) (λ y. n),
  )
  take_switch-Settled mypid opt_s o n = (omega arith, n)
  take_switch-Settled mypid unknown o n = refl
  take_switch-Settled mypid (opt_d arg) o n = take_d-Settled arg o
  take_switch-Settled mypid (opt_c arg) o n = take_c-Settled arg o n
  take_switch-Settled mypid (opt_t arg) o n = take_t-Settled arg o n

  take_switches-from :
      (mypid : ℕ) (ps : List Switch) (o : Settings)
      → IsNotif is_open o.notif
      → Settled is_open 2 (take_switches uint0_scan is_open mypid ps o)
  unfolding take_switches Settled IsNotif
  take_switches-from mypid [] o n =
      if_both (λ (q : Settings). Settled is_open 2 (inr q)) (ltb o.max 2) (record o { max = 2 }) o
        (λ y. (omega arith, n)) (λ y. (ground arith, n))
  take_switches-from mypid (p ∷ ps) o n =
      next (take_switch uint0_scan is_open mypid p o) (take_switch-Settled mypid p o n)
        (λ q m. take_switches-from mypid ps q m)
    where
      next :
          (c : ℕ ⊎ Settings)
          → Settled is_open 0 c
          → ((q : Settings)
              → IsNotif is_open q.notif
              → Settled is_open 2 (take_switches uint0_scan is_open mypid ps q))
          → Settled is_open 2
              (elim c [ inl code ↦ inl code | inr q ↦ take_switches uint0_scan is_open mypid ps q ])
      next (inl code) e f = e
      next (inr q) e f = f q e.1

  -- Whatever the options are, they are refused with 100, or there is room for two services or
  -- more and the descriptor for the notification is none, or one from 3 on that is open.
  pub take_switches-Settled :
      (mypid : ℕ) (ps : List Switch)
      → Settled is_open 2 (take_switches uint0_scan is_open mypid ps settings)
  unfolding settings IsNotif
  take_switches-Settled mypid ps = take_switches-from mypid ps settings (inl refl)
