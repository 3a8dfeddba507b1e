-- ===== src/Bbinit/Facts.antt =====
-- src/bbinit.c: the program that takes the place of process 1.
use peso.Base.{
  ℕ, ◌≤◌, ◌≡◌, refl, Bool, true, false, ◌||◌, List, [], ◌∷◌, ◌++◌, Option, none, some, Bool-cases,
  ltb, codes, arith, inl, inr, drop, ap, sym, ◌∙◌, subst, ++-assoc,
}
use peso.Bbinit.{
  FileName, Call, execve, execvpe, execvp, Result, executes, basename, by_name, by_first, exec_into,
  init_words, run_init, rescue, exec_all, prepared, main,
}

-- One of the calls succeeds.
unfoldable pub any : (Call → Bool) → List Call → Bool
any succeeds [] = false
any succeeds (c ∷ cs) = succeeds c || any succeeds cs

-- The words that the program is called with.
unfoldable pub words : Call → List FileName
words (execve x av) = av
words (execvpe x av) = av
words (execvp x av) = av
words c = []

unfoldable pub AllWords : List FileName → List Call → Type 0
unfolding words
AllWords av [] = Unit
AllWords av (c ∷ cs) = (words c ≡ av) × AllWords av cs

AllWords-++ :
    (av : List FileName) (cs ds : List Call)
    → AllWords av cs
    → AllWords av ds
    → AllWords av (cs ++ ds)
unfolding AllWords
AllWords-++ av [] ds a b = b
AllWords-++ av (c ∷ cs) ds (w, a) b = (w, AllWords-++ av cs ds a b)

by_name-AllWords :
    (glibc : Bool) (b : Option FileName) (av : List FileName) → AllWords av (by_name glibc b av)
unfolding by_name AllWords words
by_name-AllWords glibc none av = tt
by_name-AllWords glibc (some []) av = tt
by_name-AllWords true (some (c ∷ cs)) av = (refl, (refl, tt))
by_name-AllWords false (some (c ∷ cs)) av = (refl, tt)

by_first-AllWords : (glibc : Bool) (av : List FileName) → AllWords av (by_first glibc av)
unfolding by_first AllWords words
by_first-AllWords glibc [] = tt
by_first-AllWords true (x ∷ xs) = (refl, (refl, tt))
by_first-AllWords false (x ∷ xs) = (refl, tt)

exec_into-AllWords :
    (glibc : Bool) (x : FileName) (av : List FileName) → AllWords av (exec_into glibc x av)
unfolding exec_into AllWords words
exec_into-AllWords glibc x av = (
  refl,
  AllWords-++ av (by_name glibc (basename x) av) (by_first glibc av)
      (by_name-AllWords glibc (basename x) av) (by_first-AllWords glibc av),
)

run_init-AllWords :
    (glibc : Bool) (argv : List FileName) → AllWords (init_words argv) (run_init glibc argv)
unfolding run_init
run_init-AllWords glibc argv =
    let av = init_words argv in
    let busybox = exec_into glibc (codes "/bin/busybox") av in
    let toybox = exec_into glibc (codes "/bin/toybox") av in
    let is_busybox = exec_into-AllWords glibc (codes "/bin/busybox") av in
    AllWords-++ av (busybox ++ busybox) toybox
      (AllWords-++ av busybox busybox is_busybox is_busybox)
      (exec_into-AllWords glibc (codes "/bin/toybox") av)

-- All these calls are refused.
unfoldable pub AllRefused : (Call → Bool) → List Call → Type 0
AllRefused succeeds [] = Unit
AllRefused succeeds (c ∷ cs) = (succeeds c ≡ false) × AllRefused succeeds cs

-- A program with these words takes the place: the first of the calls that is not refused, behind `t`.
pub record Becomes (succeeds : Call → Bool) (av : List FileName) (t : List Call) (r : Result)
    : Type 0 where
  pub call : Call
  pub refused : List Call
  pub result : r ≡ executes call (refused ++ t)
  pub has_words : words call ≡ av
  pub succeeded : succeeds call ≡ true
  pub all_refused : AllRefused succeeds refused

AllRefused-++ :
    (succeeds : Call → Bool) (cs ds : List Call)
    → AllRefused succeeds cs
    → AllRefused succeeds ds
    → AllRefused succeeds (cs ++ ds)
unfolding AllRefused
AllRefused-++ succeeds [] ds a b = b
AllRefused-++ succeeds (c ∷ cs) ds (e, a) b = (e, AllRefused-++ succeeds cs ds a b)

exec_all-Becomes :
    (succeeds : Call → Bool) (av : List FileName) (cs ds t : List Call)
    → AllWords av cs
    → any succeeds cs ≡ true
    → Becomes succeeds av t (exec_all succeeds (cs ++ ds) t)
unfolding exec_all AllWords any AllRefused
exec_all-Becomes succeeds av [] ds t a y = cc
exec_all-Becomes succeeds av (c ∷ cs) ds t (w, a) y = elim (Bool-cases (succeeds c)) [
  | inl z ↦ record {
    call = c;
    refused = [];
    result = rw (z, exec_all) refl;
    has_words = w;
    succeeded = z;
    all_refused = tt;
  }
  | inr z ↦
      let r = exec_all-Becomes succeeds av cs ds (c ∷ t) a (ground (arith, y, z)) in
      record {
        call = r.call;
        refused = r.refused ++ c ∷ [];
        result =
            rw (z, exec_all)
              (r.result ∙ ap (executes r.call) (sym (++-assoc r.refused (c ∷ []) t)));
        has_words = r.has_words;
        succeeded = r.succeeded;
        all_refused = AllRefused-++ succeeds r.refused (c ∷ []) r.all_refused (z, tt);
      }
]

any-++ :
    (succeeds : Call → Bool) (cs ds : List Call)
    → any succeeds (cs ++ ds) ≡ (any succeeds cs || any succeeds ds)
unfolding any
any-++ succeeds [] ds = refl
any-++ succeeds (c ∷ cs) ds = ground (arith, any-++ succeeds cs ds)

-- "init", and the words of the command line behind the first one.
unfoldable pub init_line : List FileName → List FileName
init_line argv = codes "init" ∷ drop 1 argv

init_words-init_line : (argv : List FileName) → init_words argv ≡ init_line argv
unfolding init_words init_line
init_words-init_line [] = refl
init_words-init_line (x ∷ []) = refl
init_words-init_line (x ∷ y ∷ ws) = refl

-- The path of busybox or of toybox can be executed with these words.
unfoldable pub has_init : (Call → Bool) → List FileName → Bool
has_init succeeds av =
    succeeds (execve (codes "/bin/busybox") av) || succeeds (execve (codes "/bin/toybox") av)

or_true : (b : Bool) → (b || true) ≡ true
or_true b = ground arith

exec_into-any :
    (glibc : Bool) (succeeds : Call → Bool) (x : FileName) (av : List FileName)
    → succeeds (execve x av) ≡ true
    → any succeeds (exec_into glibc x av) ≡ true
unfolding exec_into any
exec_into-any glibc succeeds x av e = ground (arith, e)

run_init-any :
    (glibc : Bool) (succeeds : Call → Bool) (argv : List FileName)
    → has_init succeeds (init_words argv) ≡ true
    → any succeeds (run_init glibc argv) ≡ true
unfolding run_init has_init
run_init-any glibc succeeds argv h =
    let av = init_words argv in
    let busybox = exec_into glibc (codes "/bin/busybox") av in
    let toybox = exec_into glibc (codes "/bin/toybox") av in
    any-++ succeeds (busybox ++ busybox) toybox
    ∙ ap (λ b. b || any succeeds toybox) (any-++ succeeds busybox busybox)
    ∙ elim (Bool-cases (succeeds (execve (codes "/bin/busybox") av))) [
      | inl y ↦ rw (exec_into-any glibc succeeds (codes "/bin/busybox") av y) refl
      | inr n ↦
          rw (exec_into-any glibc succeeds (codes "/bin/toybox") av (ground (arith, h, n)))
            (or_true (any succeeds busybox || any succeeds busybox))
    ]

-- As process 1 of the super user, where the path of busybox or that of toybox can be executed
-- with the words "init" and those of the command line behind the first one: a program takes the
-- place of `main` with just these words, in a call that succeeds, and what `main` did before it
-- is its setup and calls of exec that were all refused.
pub main-Becomes :
    (glibc : Bool) (succeeds : Call → Bool) (pid : ℕ) (argv : List FileName)
    → pid ≤ 1
    → has_init succeeds (init_line argv) ≡ true
    → Becomes succeeds (init_line argv) prepared (main glibc succeeds pid 0 0 argv)
unfolding main
main-Becomes glibc succeeds pid argv l h =
    let z : ltb 1 pid ≡ false = ground arith in
    let e = init_words-init_line argv in
    rw (z, main)
      (subst
        (λ av.
          Becomes succeeds av prepared
            (exec_all succeeds (run_init glibc argv ++ rescue glibc) prepared))
        e
        (exec_all-Becomes succeeds (init_words argv) (run_init glibc argv) (rescue glibc) prepared
          (run_init-AllWords glibc argv)
          (run_init-any glibc succeeds argv (ap (has_init succeeds) e ∙ h))))
