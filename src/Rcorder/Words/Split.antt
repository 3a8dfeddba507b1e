-- ===== src/Rcorder/Words/Split.antt =====
-- src/rcorder.c, `parse_line`: the words of a line, the maximal runs of bytes that are no
-- delimiters.
use peso.Base.{
  ℕ, zero, suc, ◌≤◌, ◌<◌, ◌≡◌, ◌∙◌, refl, sym, true, false, List, [], ◌∷◌, none, some, arith,
  if◌then◌else◌, length, Bool-cases, inl, inr, ◌⊎◌, ap,
}
use peso.Rcorder.Types.{Str}
use peso.Rcorder.Words.{
  is_delim, skip_delims, token, after_token, strtok_r, is_word, parse_rest, parse_line,
}

-- The words of a text: its maximal runs of bytes that are no delimiters.
push_char : ℕ → List Str → List Str
push_char c [] = (c ∷ []) ∷ []
push_char c (w ∷ ws) = (c ∷ w) ∷ ws

unfoldable pub words : Str → List Str
unfolding push_char is_delim
words [] = []
words (c ∷ []) = if is_delim c then [] else (c ∷ []) ∷ []
words (c ∷ d ∷ s) =
    let rest = words (d ∷ s) in
    if is_delim c then rest else if is_delim d then (c ∷ []) ∷ rest else push_char c rest

words-skip_delims : (s : Str) → words (skip_delims s) ≡ words s
unfolding words skip_delims
words-skip_delims [] = refl
words-skip_delims (c ∷ []) = ground arith
words-skip_delims (c ∷ d ∷ s) = ground (arith, words-skip_delims (d ∷ s))

words_of_token :
    (c : ℕ) (s : Str)
    → is_delim c ≡ false
    → words (c ∷ s) ≡ token (c ∷ s) ∷ words (after_token (c ∷ s))
unfolding words token after_token
words_of_token c [] n = ground arith
words_of_token c (d ∷ []) n = ground arith
words_of_token c (d ∷ e ∷ s) n = ground (arith, words_of_token d (e ∷ s))

skip_delims-head : (s : Str) (c : ℕ) (r : Str) → skip_delims s ≡ c ∷ r → is_delim c ≡ false
unfolding skip_delims
skip_delims-head [] c r e = cc
skip_delims-head (d ∷ s) c r e = elim (Bool-cases (is_delim d)) [
  | inl y ↦ skip_delims-head s c r (ground arith)
  | inr n ↦ ground arith
]

length-skip_delims : (s : Str) → length (skip_delims s) ≤ length s
unfolding skip_delims
length-skip_delims [] = omega arith
length-skip_delims (d ∷ s) = ground (arith, length-skip_delims s)

length-after_token : (s : Str) → length (after_token s) ≤ length s
unfolding after_token
length-after_token [] = omega arith
length-after_token (d ∷ s) = ground (arith, length-after_token s)

-- One call of `strtok_r`: the first word, and a shorter buffer that holds the others.
record Taken (buffer w rest : Str) : Type 0 where
  called : strtok_r buffer ≡ some (w, rest)
  word : is_word w ≡ true
  split : words buffer ≡ w ∷ words rest
  shorter : length rest < length buffer

strtok_r-none : (buffer : Str) → skip_delims buffer ≡ [] → strtok_r buffer ≡ none
unfolding strtok_r
strtok_r-none buffer e = rw (e, strtok_r)

strtok_r-some :
    (buffer : Str) (c : ℕ) (r : Str)
    → skip_delims buffer ≡ c ∷ r
    → strtok_r buffer ≡ some (token (c ∷ r), after_token (c ∷ r))
unfolding strtok_r
strtok_r-some buffer c r e = rw (e, strtok_r)

token-is_word : (c : ℕ) (r : Str) → is_delim c ≡ false → is_word (token (c ∷ r)) ≡ true
unfolding token is_word
token-is_word c r n = ground arith

after_token-cons : (c : ℕ) (r : Str) → is_delim c ≡ false → after_token (c ∷ r) ≡ after_token r
unfolding after_token
after_token-cons c r n = ground arith

taken :
    (buffer : Str) (c : ℕ) (r : Str)
    → skip_delims buffer ≡ c ∷ r
    → Taken buffer (token (c ∷ r)) (after_token (c ∷ r))
taken buffer c r e =
    let n = skip_delims-head buffer c r e in
    record {
      called = strtok_r-some buffer c r e;
      word = token-is_word c r n;
      split = sym (words-skip_delims buffer) ∙ ap words e ∙ words_of_token c r n;
      shorter = omega (
        arith,
        length-skip_delims buffer,
        length-after_token r,
        ap length e,
        ap length (after_token-cons c r n),
      );
    }

space_is_delim : is_delim b' ' ≡ true
unfolding is_delim
space_is_delim = refl

pub words_nil : words [] ≡ []
unfolding words
words_nil = refl

strtok_r-cases :
    (buffer : Str)
    → ((strtok_r buffer ≡ none) × (words buffer ≡ []))
      ⊎ ((w : Str) × (rest : Str) × Taken buffer w rest)
strtok_r-cases buffer = go (skip_delims buffer) refl
  where
    go :
        (k : Str)
        → skip_delims buffer ≡ k
        → ((strtok_r buffer ≡ none) × (words buffer ≡ []))
          ⊎ ((w : Str) × (rest : Str) × Taken buffer w rest)
    go [] e = inl (strtok_r-none buffer e, sym (words-skip_delims buffer) ∙ ap words e ∙ words_nil)
    go (c ∷ r) e = inr (token (c ∷ r), after_token (c ∷ r), taken buffer c r e)

module _ {S : Type 0} (add_func : Str → S → S) where
  -- `add_func` for each word in turn
  unfoldable pub add_words : List Str → S → S
  add_words [] s = s
  add_words (w ∷ ws) s = add_words ws (add_func w s)

  parse_rest-words :
      (n : ℕ) (buffer : Str) (s : S)
      → length buffer < n
      → parse_rest add_func n buffer s ≡ some (add_words (words buffer) s)
  unfolding parse_rest add_words
  parse_rest-words zero buffer s l = absurd (omega arith)
  parse_rest-words (suc n) buffer s l = elim (strtok_r-cases buffer) [
    | inl (e, z) ↦ ground arith
    | inr (w, rest, t) ↦ ground (arith, t, parse_rest-words n rest (add_func w s))
  ]

-- With fuel for each byte `parse_line` calls its function on the words of the buffer, once each
-- and in their order, where the words are what stands between spaces, tabs and newlines.
pub parse_line-words :
    {S : Type 0} (add_func : Str → S → S) (n : ℕ) (buffer : Str) (s : S)
    → length buffer < n
    → parse_line add_func n buffer s ≡ some (add_words add_func (words buffer) s)
unfolding parse_line add_words
parse_line-words add_func n buffer s l = elim (strtok_r-cases buffer) [
  | inl (e, z) ↦ ground arith
  | inr (w, rest, t) ↦ ground (arith, t, parse_rest-words add_func n rest (add_func w s))
]
