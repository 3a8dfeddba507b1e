-- ===== src/Bbinit.antt =====
-- src/bbinit.c. Which of its calls of `exec` succeeds is an argument; the other calls always return.
-- Text that is printed is left out.
pub mod Facts
use peso.Base.{
  ℕ, zero, suc, ◌≡◌, ◌≢◌, refl, Bool, true, false, not, ◌&&◌, ◌||◌, List, [], ◌∷◌, ◌++◌, Option,
  none, some, Bool-cases, ◌==◌, ltb, if◌then◌else◌, if_both, codes, arith, inl, inr, ap, ◌∙◌,
  length,
}

abbrev pub FileName : Type 0
FileName = List ℕ

-- With Env, or with the environment of the process.
pub data Call : Type 0 where
  execve execvpe execvp : FileName → List FileName → Call
  setup_env umask setup_rlimits setsid setpgid chdir sethostname : Call

-- `main` returns, or a program takes its place; with the calls before that, latest first.
pub data Result : Type 0 where
  exits : ℕ → List Call → Result
  executes : Call → List Call → Result

-- getenv ( name ), of a string that is not empty or the default
unfoldable pub or_default : FileName → FileName → Option FileName → FileName
or_default name default none = name ++ b'=' ∷ default
or_default name default (some []) = name ++ b'=' ∷ default
or_default name default (some (c ∷ cs)) = name ++ b'=' ∷ c ∷ cs

-- Env, for what the environment has for TERM and CONSOLE.
unfoldable pub env : (FileName → Option FileName) → List FileName
unfolding or_default
env getenv =
    codes "HOME=/"
    ∷ codes "SHELL=/bin/sh"
    ∷ codes "PATH=/bin:/sbin:/usr/bin:/usr/sbin"
    ∷ or_default (codes "TERM") (codes "linux") (getenv (codes "TERM"))
    ∷ or_default (codes "CONSOLE") (codes "/dev/console") (getenv (codes "CONSOLE"))
    ∷ []

-- basename ( x ), of a path that does not end with a slash: what is behind the last one, if there is one
unfoldable pub basename : FileName → Option FileName
basename [] = none
basename (c ∷ cs) =
    let rest = basename cs in
    elim rest [ some b ↦ some b | none ↦ if c == b'/' then some cs else none ]

-- The second part of `exec_into`, with the name of the file where it is not the path itself.
unfoldable pub by_name : Bool → Option FileName → List FileName → List Call
by_name glibc none av = []
by_name glibc (some []) av = []
by_name glibc (some (c ∷ cs)) av =
    if glibc then execvpe (c ∷ cs) av ∷ execvp (c ∷ cs) av ∷ [] else execvp (c ∷ cs) av ∷ []

unfoldable pub by_first : Bool → List FileName → List Call
by_first glibc [] = []
by_first glibc (x ∷ xs) =
    if glibc then execvpe x (x ∷ xs) ∷ execvp x (x ∷ xs) ∷ [] else execvp x (x ∷ xs) ∷ []

-- The calls of exec that `exec_into` makes if none succeeds.
unfoldable pub exec_into : Bool → FileName → List FileName → List Call
unfolding by_name basename by_first
exec_into glibc x av = execve x av ∷ by_name glibc (basename x) av ++ by_first glibc av

-- The words of the command line with "init" for the first one, if there are at least two.
unfoldable pub init_words : List FileName → List FileName
init_words [] = codes "init" ∷ []
init_words (x ∷ []) = codes "init" ∷ []
init_words (x ∷ y ∷ ws) = codes "init" ∷ y ∷ ws

unfoldable pub run_init : Bool → List FileName → List Call
unfolding exec_into init_words
run_init glibc argv =
    let av = init_words argv in
    exec_into glibc (codes "/bin/busybox") av
    ++ exec_into glibc (codes "/bin/busybox") av
    ++ exec_into glibc (codes "/bin/toybox") av

unfoldable pub sulogin : Bool → List Call
unfolding exec_into
sulogin glibc = exec_into glibc (codes "/sbin/sulogin") (codes "sulogin" ∷ [])

-- A shell that is called by a name, with -i.
unfoldable pub shell : Bool → FileName → FileName → List Call
unfolding exec_into
shell glibc path name = exec_into glibc path (name ∷ codes "-i" ∷ [])

unfoldable pub sh : Bool → List Call
unfolding shell exec_into
sh glibc =
    shell glibc (codes "/usr/bin/zsh") (codes "zsh")
    ++ shell glibc (codes "/bin/bash") (codes "bash")
    ++ shell glibc (codes "/bin/mksh") (codes "ksh")
    ++ shell glibc (codes "/bin/lksh") (codes "ksh")
    ++ shell glibc (codes "/bin/ksh93") (codes "ksh")
    ++ shell glibc (codes "/bin/ksh") (codes "ksh")
    ++ shell glibc (codes "/usr/bin/tcsh") (codes "tcsh")
    ++ shell glibc (codes "/bin/ash") (codes "sh")
    ++ shell glibc (codes "/bin/dash") (codes "sh")
    ++ exec_into glibc (codes "/bin/sh") (codes "sh" ∷ [])

unfoldable pub rescue : Bool → List Call
unfolding sulogin sh
rescue glibc = sulogin glibc ++ sh glibc

-- The calls in their order; one that succeeds does not return. Behind the last one 111 is returned.
unfoldable pub exec_all : (Call → Bool) → List Call → List Call → Result
exec_all succeeds [] t = exits 111 t
exec_all succeeds (c ∷ cs) t =
    let rest = exec_all succeeds cs (c ∷ t) in if succeeds c then executes c t else rest

unfoldable pub prepared : List Call
prepared = sethostname ∷ chdir ∷ setpgid ∷ setsid ∷ setup_rlimits ∷ umask ∷ setup_env ∷ []

-- With the answers of `getpid`, `getuid` and `geteuid`.
unfoldable pub main : Bool → (Call → Bool) → ℕ → ℕ → ℕ → List FileName → Result
unfolding exec_all run_init rescue prepared
main glibc succeeds pid uid euid argv =
    if ltb 1 pid
    then exits 100 []
    else if not (uid == 0) || not (euid == 0)
    then exits 100 []
    else exec_all succeeds (run_init glibc argv ++ rescue glibc) prepared
