-- ===== src/Rcorder/Crunch/Block.antt =====
-- src/rcorder.c, `crunch_file`: which lines of a file count, told without the variable `parsing`.
use peso.Base.{
  ℕ, zero, suc, ◌<◌, ◌≡◌, inl, inr, refl, List, [], ◌∷◌, Option, none, some, arith, if◌then◌else◌,
  Bool-cases, length, drop, Option-cases,
}
use peso.Rcorder.Types.{Str}
use peso.Rcorder.Hash.{HashTable}
use peso.Rcorder.Order.{St}
use peso.Rcorder.Words.{parse_line}
use peso.Rcorder.Words.Split.{words, add_words, parse_line-words}
use peso.Rcorder.Crunch.{Keyword, fgets, c_str, is_blank, keyword_line, add_word, crunch_lines}
use peso.Rcorder.Crunch.Reads.{length-fgets, length-drop}

-- What a line says: the keyword with the rest of the line.
unfoldable pub meaning : Str → List ℕ → Option (Keyword × Str)
meaning comment line =
    if is_blank (c_str line) then none else elim (keyword_line comment (c_str line)) [
      | none ↦ none
      | some (k, at) ↦ some (k, drop at (c_str line))
    ]

-- The text in pieces of a line each, on fuel.
unfoldable pub lines : ℕ → List ℕ → List (List ℕ)
lines zero content = []
lines (suc n) content = elim (fgets content) [ none ↦ [] | some (line, rest) ↦ line ∷ lines n rest ]

-- The keyword lines up to the first other line.
unfoldable pub block : Str → List (List ℕ) → List (Keyword × Str)
unfolding meaning
block comment [] = []
block comment (l ∷ ls) = elim (meaning comment l) [ none ↦ [] | some x ↦ x ∷ block comment ls ]

-- The first block of keyword lines.
unfoldable pub first_block : Str → List (List ℕ) → List (Keyword × Str)
unfolding block
first_block comment [] = []
first_block comment (l ∷ ls) = elim (meaning comment l) [
  | none ↦ first_block comment ls
  | some x ↦ x ∷ block comment ls
]

module _ (H : HashTable) (comment : Str) (node : ℕ) where
  -- The function of each keyword is called on each word of its line.
  unfoldable pub enter_block : List (Keyword × Str) → St H → St H
  enter_block [] s = s
  enter_block ((k, line) ∷ b) s = enter_block b (add_words (add_word H k node) (words line) s)

  stopped :
      (n : ℕ) (content : List ℕ) (s : St H)
      → crunch_lines H (suc n) comment node 0 content s ≡ some s
  unfolding crunch_lines
  stopped n content s = refl

  keyword-parse_line :
      (k : Keyword) (at : ℕ) (buf : Str) (s : St H)
      → parse_line (add_word H k node) (suc (length buf)) (drop at buf) s
        ≡ some (add_words (add_word H k node) (words (drop at buf)) s)
  keyword-parse_line k at buf s =
      parse_line-words (add_word H k node) (suc (length buf)) (drop at buf) s
        (omega (arith, length-drop at buf))

  crunch_lines-block :
      (n : ℕ) (content : List ℕ) (s : St H)
      → length content < n
      → crunch_lines H n comment node 1 content s
        ≡ some (enter_block (block comment (lines n content)) s)
  unfolding crunch_lines block enter_block meaning lines
  crunch_lines-block zero content s m = absurd (omega arith)
  crunch_lines-block (suc zero) content s m = elim (Option-cases (fgets content)) [
    | inl e ↦ ground (arith, e)
    | inr ((line, rest), e) ↦ absurd (omega (arith, length-fgets content line rest e))
  ]
  crunch_lines-block (suc (suc n)) content s m = elim (Option-cases (fgets content)) [
    | inl e ↦ ground (arith, e)
    | inr ((line, rest), e) ↦
        let shorter = length-fgets content line rest e in
        elim (Bool-cases (is_blank (c_str line))) [
          | inl y ↦ ground (arith, e, y, stopped n rest s)
          | inr y ↦ elim (Option-cases (keyword_line comment (c_str line))) [
            | inl g ↦ ground (arith, e, y, g, stopped n rest s)
            | inr ((k, at), g) ↦
                let i =
                  crunch_lines-block (suc n) rest
                    (add_words (add_word H k node) (words (drop at (c_str line))) s)
                    (omega arith) in
                ground (arith, e, y, g, keyword-parse_line k at (c_str line) s, i)
          ]
        ]
  ]

  -- With fuel for each byte the loop over the lines returns, and does what the first block of
  -- keyword lines says and nothing else: each word of each of these lines goes to the
  -- function of its keyword, in their order. Lines before the block and everything behind it
  -- are passed over.
  pub crunch_lines-first_block :
      (n : ℕ) (content : List ℕ) (s : St H)
      → length content < n
      → crunch_lines H n comment node 2 content s
        ≡ some (enter_block (first_block comment (lines n content)) s)
  unfolding crunch_lines first_block enter_block meaning lines
  crunch_lines-first_block zero content s m = absurd (omega arith)
  crunch_lines-first_block (suc n) content s m = elim (Option-cases (fgets content)) [
    | inl e ↦ ground (arith, e)
    | inr ((line, rest), e) ↦
        let shorter = length-fgets content line rest e in
        let next = crunch_lines-first_block n rest s (omega arith) in
        elim (Bool-cases (is_blank (c_str line))) [
          | inl y ↦ ground (arith, e, y, next)
          | inr y ↦ elim (Option-cases (keyword_line comment (c_str line))) [
            | inl g ↦ ground (arith, e, y, g, next)
            | inr ((k, at), g) ↦
                let i =
                  crunch_lines-block n rest
                    (add_words (add_word H k node) (words (drop at (c_str line))) s)
                    (omega arith) in
                ground (arith, e, y, g, keyword-parse_line k at (c_str line) s, i)
          ]
        ]
  ]
