-- ===== src/Rcorder/Words/Spread.antt =====
-- src/rcorder.c, `parse_line`: lines that are put together from words and gaps.
use peso.Base.{
  ℕ, ◌<◌, ◌≡◌, ◌∙◌, refl, sym, true, false, List, [], ◌∷◌, ◌++◌, some, arith, length, ap, ++-nil,
}
use peso.Rcorder.Types.{Str}
use peso.Rcorder.Words.{is_delim, is_word, parse_line}
use peso.Rcorder.Words.Split.{words, words_nil, add_words, parse_line-words}

-- No byte of the text is a delimiter.
abbrev pub AllPlain : Str → Type 0
AllPlain [] = Unit
AllPlain (c ∷ s) = (is_delim c ≡ false) × AllPlain s

-- The words of a line that starts with a word and a delimiter.
words-cons :
    (c : ℕ) (w : Str) (d : ℕ) (s : Str)
    → is_delim c ≡ false
    → AllPlain w
    → is_delim d ≡ true
    → words (c ∷ (w ++ d ∷ s)) ≡ (c ∷ w) ∷ words s
unfolding words
words-cons c [] d [] n p e = ground arith
words-cons c [] d (x ∷ s) n p e = ground arith
words-cons c (k ∷ w) d s n p e = ground (arith, words-cons k w d s p.0 p.1 e)

-- Each byte of the text is a delimiter.
abbrev pub AllDelims : Str → Type 0
AllDelims [] = Unit
AllDelims (c ∷ s) = (is_delim c ≡ true) × AllDelims s

-- The text of a line: pairs of a gap and a word behind it, and what stands behind the last word.
unfoldable pub spread : List (Str × Str) → Str → Str
spread [] end = end
spread ((gap, w) ∷ ps) end = gap ++ (w ++ spread ps end)

unfoldable pub words_of : List (Str × Str) → List Str
words_of [] = []
words_of ((gap, w) ∷ ps) = w ∷ words_of ps

-- Each gap has delimiters alone, and each word is not empty and has none.
abbrev pub AllWords : List (Str × Str) → Type 0
AllWords [] = Unit
AllWords ((gap, w) ∷ ps) = AllDelims gap × (is_word w ≡ true) × AllPlain w × AllWords ps

-- A gap between two words is not empty. The first one can be.
abbrev pub Apart : List (Str × Str) → Type 0
Apart [] = Unit
Apart (p ∷ []) = Unit
Apart (p ∷ (gap, w) ∷ ps) = (is_word gap ≡ true) × Apart ((gap, w) ∷ ps)

words-delim : (d : ℕ) (s : Str) → is_delim d ≡ true → words (d ∷ s) ≡ words s
unfolding words
words-delim d [] e = ground (arith, e)
words-delim d (c ∷ s) e = ground (arith, e)

words-gap : (gap s : Str) → AllDelims gap → words (gap ++ s) ≡ words s
words-gap [] s a = refl
words-gap (d ∷ gap) s (e, a) = words-delim d (gap ++ s) e ∙ words-gap gap s a

words-plain : (c : ℕ) (w : Str) → is_delim c ≡ false → AllPlain w → words (c ∷ w) ≡ (c ∷ w) ∷ []
unfolding words
words-plain c [] n p = ground (arith, n)
words-plain c (d ∷ w) n (m, p) = ground (arith, n, m, words-plain d w m p)

-- Nothing, or a delimiter first.
Ends : Str → Type 0
Ends [] = Unit
Ends (d ∷ s) = is_delim d ≡ true

words-front : (w r : Str) → is_word w ≡ true → AllPlain w → Ends r → words (w ++ r) ≡ w ∷ words r
unfolding Ends is_word
words-front [] r i p e = cc
words-front (c ∷ w) [] i (n, p) e =
    ap words (++-nil (c ∷ w)) ∙ words-plain c w n p ∙ ap (λ l. (c ∷ w) ∷ l) (sym words_nil)
words-front (c ∷ w) (d ∷ s) i (n, p) e =
    words-cons c w d s n p e ∙ ap (λ l. (c ∷ w) ∷ l) (sym (words-delim d s e))

end-Ends : (end : Str) → AllDelims end → Ends end
unfolding Ends
end-Ends [] a = tt
end-Ends (d ∷ s) (e, a) = e

spread-Ends :
    (p : Str × Str) (ps : List (Str × Str)) (end : Str)
    → AllWords ps
    → Apart (p ∷ ps)
    → AllDelims end
    → Ends (spread ps end)
unfolding spread Ends is_word
spread-Ends p [] end a b e = end-Ends end e
spread-Ends p (([], w) ∷ ps) end a (n, b) e = cc
spread-Ends p ((d ∷ gap, w) ∷ ps) end ((y, g), i, k, a) b e = y

Apart-tail : (p : Str × Str) (ps : List (Str × Str)) → Apart (p ∷ ps) → Apart ps
Apart-tail p [] b = tt
Apart-tail p ((gap, w) ∷ ps) (n, b) = b

-- The words of such a line are found again.
pub words-spread :
    (ps : List (Str × Str)) (end : Str)
    → AllWords ps
    → Apart ps
    → AllDelims end
    → words (spread ps end) ≡ words_of ps
unfolding spread words_of
words-spread [] end a b e = ap words (sym (++-nil end)) ∙ words-gap end [] e ∙ words_nil
words-spread ((gap, w) ∷ ps) end (g, i, p, a) b e =
    words-gap gap (w ++ spread ps end) g
    ∙ words-front w (spread ps end) i p (spread-Ends (gap, w) ps end a b e)
    ∙ ap (λ l. w ∷ l) (words-spread ps end a (Apart-tail (gap, w) ps b) e)

-- Where a line is put together from words that are not empty and have no delimiter in them,
-- with gaps of delimiters of any length between them, in front of the first and behind the
-- last, of which only those two may be empty: `parse_line`, with fuel for each byte, calls its
-- function on just these words, in their order.
pub parse_line-spread :
    {S : Type 0} (add_func : Str → S → S) (n : ℕ) (ps : List (Str × Str)) (end : Str) (s : S)
    → AllWords ps
    → Apart ps
    → AllDelims end
    → length (spread ps end) < n
    → parse_line add_func n (spread ps end) s ≡ some (add_words add_func (words_of ps) s)
parse_line-spread add_func n ps end s a b e l =
    parse_line-words add_func n (spread ps end) s l
    ∙ ap (λ vs. some (add_words add_func vs s)) (words-spread ps end a b e)
