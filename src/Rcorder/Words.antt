-- ===== src/Rcorder/Words.antt =====
-- src/rcorder.c, `parse_line`: the words of a line, by `strtok_r` with the delimiters " \t\n".
pub mod Split
pub mod Spread
use peso.Base.{
  ℕ, zero, suc, ◌<◌, ◌≡◌, Bool, true, false, ◌||◌, List, [], ◌∷◌, Option, none, some, ◌==◌,
  if◌then◌else◌,
}
use peso.Rcorder.Types.{Str}

unfoldable pub is_delim : ℕ → Bool
is_delim c = c == b' ' || (c == 9 || c == 10)

-- The delimiters at the front are passed over.
unfoldable pub skip_delims : Str → Str
skip_delims [] = []
skip_delims (c ∷ s) = if is_delim c then skip_delims s else c ∷ s

-- The token ends before the next delimiter, which is overwritten and passed over.
unfoldable pub token : Str → Str
token [] = []
token (c ∷ s) = if is_delim c then [] else c ∷ token s

unfoldable pub after_token : Str → Str
after_token [] = []
after_token (c ∷ s) = if is_delim c then s else after_token s

-- `strtok_r`: the token and the rest of the buffer, or NULL
unfoldable pub strtok_r : Str → Option (Str × Str)
strtok_r s = elim (skip_delims s) [ [] ↦ none | c ∷ r ↦ some (token (c ∷ r), after_token (c ∷ r)) ]

-- `s && * s`
unfoldable pub is_word : Str → Bool
is_word [] = false
is_word (c ∷ s) = true

module _ {S : Type 0} (add_func : Str → S → S) where
  -- the `while` loop, on fuel
  unfoldable pub parse_rest : ℕ → Str → S → Option S
  parse_rest zero buffer s = none
  parse_rest (suc n) buffer s = elim (strtok_r buffer) [
    | none ↦ some s
    | some (w, rest) ↦ parse_rest n rest (if is_word w then add_func w s else s)
  ]

  unfoldable pub parse_line : ℕ → Str → S → Option S
  parse_line n buffer s = elim (strtok_r buffer) [
    | none ↦ some s
    | some (w, rest) ↦ if is_word w then parse_rest n rest (add_func w s) else some s
  ]
