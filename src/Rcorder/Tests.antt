-- ===== src/Rcorder/Tests.antt =====
-- rcorder on small files, and the theorems at concrete inputs.
use peso.Base.{ℕ, List, [], ◌∷◌, Option, none, some, codes, str_eq, if◌then◌else◌}
use peso.Rcorder.Types.{Str, Warning}
use peso.Rcorder.Crunch.{Source, regular, unreadable}
use peso.Rcorder.Main.{main}
use peso.Rcorder.Assoc.{assoc}

-- `net` needs `disk`, and `log` stands before `net`.
abbrev pub files : Str → Source
files name =
    if str_eq name (codes "net")
    then regular (codes "#!/bin/sh\n# PROVIDE: net\n# REQUIRE: disk\n")
    else if str_eq name (codes "disk")
    then regular (codes "# PROVIDE: disk\n\n# REQUIRE: net\n")
    else if str_eq name (codes "log")
    then regular (codes "# BEFORE: net\n# KEYWORD: boot")
    else unreadable

abbrev pub names : List Str
names = codes "log" ∷ codes "net" ∷ codes "disk" ∷ []

run : Option (List ℕ × ℕ × List Warning)
unfolding main
run = elim (main assoc 10 30 files [] names) [
  | none ↦ none
  | some s ↦ some (s.output, s.exit_code, s.warnings)
]
