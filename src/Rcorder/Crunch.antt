-- ===== src/Rcorder/Crunch.antt =====
-- src/rcorder.c, `crunch_file`: the keyword lines of one file. The file system is an argument: what
-- `fopen`, `fstat` and `fgets` find under a name.
pub mod Reads
pub mod Block
use peso.Base.{
  ℕ, zero, suc, ◌+◌, Bool, true, false, ◌||◌, List, [], ◌∷◌, Option, none, some, ◌==◌,
  if◌then◌else◌, codes, length, drop, starts_with,
}
use peso.Rcorder.Types.{Str, could_not_stat, could_not_open, no_regular_file}
use peso.Rcorder.Hash.{HashTable}
use peso.Rcorder.Order.{St, warn}
use peso.Rcorder.Words.{parse_line}
use peso.Rcorder.Build.{filenode_new, add_require, add_provide, add_before, add_keyword}

-- What stands under a name: `regular` has the bytes of the file.
pub data Source : Type 0 where
  unreadable unstatable irregular : Source
  regular : List ℕ → Source

-- Which of the four flags is set.
pub data Keyword : Type 0 where
  require provide before keyword : Keyword

-- `fgets ( buf, MAX_LINE_LEN, fp )`: at most 600 bytes, up to a newline, and what is left to read
abbrev pub max_line_len : ℕ
max_line_len = 601

unfoldable pub read_line : ℕ → List ℕ → List ℕ × List ℕ
read_line zero r = ([], r)
read_line (suc n) [] = ([], [])
read_line (suc n) (c ∷ r) =
    let (l, rest) = read_line n r in if c == 10 then (c ∷ [], r) else (c ∷ l, rest)

unfoldable pub fgets : List ℕ → Option (List ℕ × List ℕ)
unfolding read_line
fgets [] = none
fgets (c ∷ r) = some (read_line 600 (c ∷ r))

-- The buffer as a C string.
unfoldable pub c_str : List ℕ → Str
c_str [] = []
c_str (c ∷ r) = if c == 0 then [] else c ∷ c_str r

-- buf [ 0 ] is NUL, newline, tab or space
unfoldable pub is_blank : Str → Bool
is_blank [] = true
is_blank (c ∷ s) = c == 10 || (c == 9 || c == b' ')

-- The chain of tests on `buf + s`: which flag is set, and to what.
unfoldable pub keyword_at : ℕ → Str → Option (Keyword × ℕ)
keyword_at s line =
    if starts_with (codes "REQUIRE:") line
    then some (require, s + 8)
    else if starts_with (codes "REQUIRES:") line
    then some (require, s + 9)
    else if starts_with (codes "PROVIDE:") line
    then some (provide, s + 8)
    else if starts_with (codes "PROVIDES:") line
    then some (provide, s + 9)
    else if starts_with (codes "BEFORE:") line
    then some (before, s + 7)
    else if starts_with (codes "KEYWORD:") line
    then some (keyword, s + 8)
    else if starts_with (codes "KEYWORDS:") line
    then some (keyword, s + 9)
    else none

-- The line is a keyword line: with a comment string `comment`, behind that string, else behind "# ".
unfoldable pub keyword_line : Str → Str → Option (Keyword × ℕ)
unfolding keyword_at
keyword_line [] buf = if starts_with (codes "# ") buf then keyword_at 2 (drop 2 buf) else none
keyword_line (c ∷ comment) buf =
    let s = length (c ∷ comment) in
    if starts_with (c ∷ comment) buf then keyword_at s (drop s buf) else none

module _ (H : HashTable) where
  unfoldable pub add_word : Keyword → ℕ → Str → St H → St H
  add_word require = add_require H
  add_word provide = add_provide H
  add_word before = add_before
  add_word keyword = add_keyword

  -- The loop over the lines, on fuel. `parsing` is 2 before the first keyword line, 1 while the last
  -- line was one, and 0 when a line behind a keyword line was none.
  unfoldable pub crunch_lines : ℕ → Str → ℕ → (parsing : ℕ) → List ℕ → St H → Option (St H)
  unfolding fgets c_str is_blank keyword_line add_word
  crunch_lines zero comment node parsing content s = none
  crunch_lines (suc n) comment node parsing content s = elim (parsing == 0) [
    | true ↦ some s
    | false ↦ elim (fgets content) [
      | none ↦ some s
      | some (line, rest) ↦
          let buf = c_str line in
          let stop = if parsing == 1 then 0 else parsing in
          elim (is_blank buf) [
            | true ↦ crunch_lines n comment node stop rest s
            | false ↦ elim (keyword_line comment buf) [
              | none ↦ crunch_lines n comment node stop rest s
              | some (k, at) ↦
                  elim (parse_line (add_word k node) (suc (length buf)) (drop at buf) s) [
                    | none ↦ none
                    | some t ↦ crunch_lines n comment node 1 rest t
                  ]
            ]
          ]
    ]
  ]

  unfoldable pub crunch_file : (Str → Source) → Str → Str → St H → Option (St H)
  unfolding crunch_lines
  crunch_file fs comment [] s = some s
  crunch_file fs comment (c ∷ name) s = elim (fs (c ∷ name)) [
    | unreadable ↦ some (warn (could_not_open (c ∷ name)) s)
    | unstatable ↦ some (warn (could_not_stat (c ∷ name)) s)
    | irregular ↦ some (warn (no_regular_file (c ∷ name)) s)
    | regular content ↦
        let (node, t) = filenode_new (c ∷ name) s in
        crunch_lines (suc (length content)) comment node 2 content t
  ]
