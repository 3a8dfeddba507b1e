-- ===== src/Rcorder/Build/Steps.antt =====
-- src/rcorder.c: the functions that the keywords call, on one line.
use peso.Base.{
  ℕ, ◌<◌, ◌≡◌, inl, inr, refl, List, [], ◌∷◌, some, arith, ◌==◌, Bool-cases, subst, sym, ap, length,
  ◌∙◌,
}
use peso.Rcorder.Types.{Str, null, fn_head}
use peso.Rcorder.Hash.{HashTable}
use peso.Rcorder.Order.{St}
use peso.Rcorder.Words.{parse_line}
use peso.Rcorder.Words.Split.{words, add_words, parse_line-words}
use peso.Rcorder.Build.{
  push_prov, new_head, add_require, add_provide, add_before, add_keyword, push_req,
}
use peso.Rcorder.Build.Fresh.{
  Built, Same-Built, create-Same, add_before-Built, add_keyword-Built, add_require-Built,
}
use peso.Rcorder.Build.Grow.{new_head-Built, push_prov-Built}
use peso.Rcorder.Crunch.{Keyword, require, provide, before, keyword, add_word}

module _ (H : HashTable) where
  open H use {get_value, create_entry}

  -- Well formed, and no other file was added.
  pub record Kept (s t : St H) : Type 0 where
    pub built : Built H t
    pub files : t.next_file ≡ s.next_file

  push_prov-files : (f h : ℕ) (s : St H) → (push_prov f h s).next_file ≡ s.next_file
  unfolding push_prov
  push_prov-files f h s = ground arith

  -- A new head node that gets its first provision.
  pub new_prov-Kept :
      (f e : ℕ) (s : St H)
      → fn_head < f
      → f < s.next_file
      → Built H s
      → Kept s (push_prov f s.next_prov (new_head H e s).1)
  unfolding new_head
  new_prov-Kept f e s h l b =
      let t = (new_head H e s).1 in
      record {
        built =
            push_prov-Built H t (new_head-Built H s b e) f s.next_prov h l
              (record { pos = b.pos; below = omega arith; kept = ground arith }) (ground arith);
        files = push_prov-files f s.next_prov t;
      }

  pub add_provide-Kept :
      (f : ℕ) (w : Str) (s : St H)
      → fn_head < f
      → f < s.next_file
      → Built H s
      → Kept s (add_provide H f w s)
  unfolding add_provide
  add_provide-Kept f w s h l b =
      let r = create_entry s.table w in
      let s1 = record s { table = r.0 } in
      let b1 = Same-Built H s s1 (create-Same H w s) b in
      elim (Bool-cases (get_value r.0 r.1 == null)) [
        | inl z ↦
            let same : add_provide H f w s ≡ push_prov f s1.next_prov (new_head H r.1 s1).1 =
              rw z in
            let k = new_prov-Kept f r.1 s1 h l b1 in
            record {
              built = subst (Built H) (sym same) k.built;
              files = ap (λ t. t.next_file) same ∙ k.files;
            }
        | inr n ↦
            let i = b1.fresh.ready.inv in
            let same : add_provide H f w s ≡ push_prov f (get_value r.0 r.1) s1 = rw n in
            record {
              built = subst (Built H) (sym same) (
                  push_prov-Built H s1 b1 f (get_value r.0 r.1) h l
                    (i.value-Live r.1 (ground arith)) (i.value-head r.1 (ground arith)));
              files = ap (λ t. t.next_file) same ∙ push_prov-files f (get_value r.0 r.1) s1;
            }
      ]

  pub add_word-Kept :
      (k : Keyword) (f : ℕ) (w : Str) (s : St H)
      → fn_head < f
      → f < s.next_file
      → Built H s
      → Kept s (add_word H k f w s)
  unfolding add_word add_require push_req add_before add_keyword
  add_word-Kept require f w s h l b = record { built = add_require-Built H f w s b; files = refl }
  add_word-Kept provide f w s h l b = add_provide-Kept f w s h l b
  add_word-Kept before f w s h l b = record { built = add_before-Built H f w s h l b; files = refl }
  add_word-Kept keyword f w s h l b = record { built = add_keyword-Built H f w s b; files = refl }

  add_words-Kept :
      (k : Keyword) (f : ℕ) (ws : List Str) (s : St H)
      → fn_head < f
      → f < s.next_file
      → Built H s
      → Kept s (add_words (add_word H k f) ws s)
  unfolding add_words
  add_words-Kept k f [] s h l b = record { built = b; files = refl }
  add_words-Kept k f (w ∷ ws) s h l b =
      let a = add_word-Kept k f w s h l b in
      let r = add_words-Kept k f ws (add_word H k f w s) h (omega (arith, a.files)) a.built in
      record { built = r.built; files = r.files ∙ a.files }

  -- One line of words.
  pub parse_line-Kept :
      (k : Keyword) (f n : ℕ) (line : Str) (s : St H)
      → length line < n
      → fn_head < f
      → f < s.next_file
      → Built H s
      → (t : St H) × (parse_line (add_word H k f) n line s ≡ some t) × Kept s t
  parse_line-Kept k f n line s m h l b =
      (_, parse_line-words (add_word H k f) n line s m, add_words-Kept k f (words line) s h l b)
