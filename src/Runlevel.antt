-- ===== src/Runlevel.antt =====
-- src/runlevel.c: the first entry of the utmp file with a run level. The entries that `getutent`
-- reads from the file that `utmpname` names are an argument.
use peso.Base.{
  ℕ, ◌+◌, ◌*◌, ◌/◌, ◌%◌, ◌<◌, ◌≡◌, ◌≢◌, refl, List, [], ◌∷◌, ◌++◌, ◌==◌, if◌then◌else◌, arith,
}

pub record Utmp : Type 0 where
  pub ut_type : ℕ
  pub ut_pid : ℕ

-- RUN_LVL, <utmp.h>
abbrev pub run_lvl : ℕ
run_lvl = 1

-- What was printed: two characters, or `unknown`.
pub data Printed : Type 0 where
  levels : (prev cur : ℕ) → Printed
  unknown : Printed

-- The exit code, and what was printed. A `char` keeps the low byte.
unfoldable pub main : List Utmp → ℕ × Printed
main [] = (1, unknown)
main (utp ∷ us) =
    let rest = main us in
    if utp.ut_type == run_lvl
    then (let prev = utp.ut_pid / 256 % 256 in
        (0, levels (if prev == 0 then b'N' else prev) (utp.ut_pid % 256)))
    else rest

-- No entry has a run level.
unfoldable pub NoLevel : List Utmp → Type 0
NoLevel [] = Unit
NoLevel (u ∷ us) = (u.ut_type ≢ run_lvl) × NoLevel us

-- The first entry with a run level is printed, the one that was made of the bytes `prev` and
-- `cur`: with `N` for the previous level when there was none. The entries behind it do not
-- matter.
pub main-first :
    (us vs : List Utmp) (prev cur : ℕ)
    → NoLevel us
    → prev < 256
    → cur < 256
    → main (us ++ record { ut_type = run_lvl; ut_pid = prev * 256 + cur } ∷ vs)
      ≡ (0, levels (if prev == 0 then b'N' else prev) cur)
unfolding main NoLevel
main-first [] vs prev cur n p c =
    let d : (prev * 256 + cur) / 256 ≡ prev = omega arith in
    let m : (prev * 256 + cur) % 256 ≡ cur = omega arith in
    let l : prev % 256 ≡ prev = omega arith in ground (arith, d, m, l)
main-first (u ∷ us) vs prev cur (n, ns) p c = ground (arith, n, main-first us vs prev cur ns p c)

-- Without an entry that has a run level `unknown` is printed and the exit code is 1.
pub main-unknown : (us : List Utmp) → NoLevel us → main us ≡ (1, unknown)
unfolding main NoLevel
main-unknown [] n = refl
main-unknown (u ∷ us) (n, ns) = ground (arith, n, main-unknown us ns)
