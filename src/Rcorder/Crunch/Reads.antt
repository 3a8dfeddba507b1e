-- ===== src/Rcorder/Crunch/Reads.antt =====
-- src/rcorder.c, `crunch_file`: its loop on fuel and the heaps.
use peso.Base.{
  ℕ, zero, suc, ◌<◌, ◌≤◌, ◌≡◌, inl, inr, refl, List, [], ◌∷◌, none, some, arith, ◌==◌,
  if◌then◌else◌, Bool-cases, length, drop, ◌∙◌, ap, subst, Option-cases,
}
use peso.Rcorder.Types.{Str, fn_head, Warning, could_not_open, could_not_stat, no_regular_file}
use peso.Rcorder.Hash.{HashTable}
use peso.Rcorder.Order.{St, warn}
use peso.Rcorder.Build.{filenode_new}
use peso.Rcorder.Build.Fresh.{Built, Same-Built}
use peso.Rcorder.Build.Grow.{filenode_new-Built}
use peso.Rcorder.Build.Steps.{Kept, parse_line-Kept}
use peso.Rcorder.Crunch.{
  Source, regular, unreadable, unstatable, irregular, read_line, fgets, c_str, is_blank,
  keyword_line, crunch_lines, crunch_file,
}
use peso.Rcorder.Main.{crunch_files}

length-read_line : (n : ℕ) (r : List ℕ) → length (read_line n r).1 ≤ length r
unfolding read_line
length-read_line zero r = omega arith
length-read_line (suc n) [] = omega arith
length-read_line (suc n) (c ∷ r) = ground (arith, length-read_line n r)

read_line-shorter : (n c : ℕ) (r : List ℕ) → length (read_line (suc n) (c ∷ r)).1 < length (c ∷ r)
unfolding read_line
read_line-shorter n c r = ground (arith, length-read_line n r)

pub length-fgets :
    (content line rest : List ℕ) → fgets content ≡ some (line, rest) → length rest < length content
unfolding fgets
length-fgets [] line rest e = ground (arith, e)
length-fgets (c ∷ r) line rest e =
    subst (λ (q : List ℕ × List ℕ). length q.1 < length (c ∷ r))
      (ap (λ o. elim o [ none ↦ ([], []) | some p ↦ p ]) e) (read_line-shorter 599 c r)

pub length-drop : (n : ℕ) (s : List ℕ) → length (drop n s) ≤ length s
length-drop zero s = omega arith
length-drop (suc n) [] = omega arith
length-drop (suc n) (c ∷ s) = omega (arith, length-drop n s)

module _ (H : HashTable) where
  -- With fuel for each byte the loop over the lines ends.
  crunch_lines-Kept :
      (n : ℕ) (comment : Str) (node parsing : ℕ) (content : List ℕ) (s : St H)
      → length content < n
      → fn_head < node
      → node < s.next_file
      → Built H s
      → (t : St H) × (crunch_lines H n comment node parsing content s ≡ some t) × Kept H s t
  unfolding crunch_lines
  crunch_lines-Kept zero comment node parsing content s m h l b = absurd (omega arith)
  crunch_lines-Kept (suc n) comment node parsing content s m h l b =
      let done : Kept H s s = record { built = b; files = refl } in
      elim (Bool-cases (parsing == 0)) [
        | inl z ↦ (s, ground (arith, z), done)
        | inr z ↦ elim (Option-cases (fgets content)) [
          | inl e ↦ (s, ground (arith, z, e), done)
          | inr ((line, rest), e) ↦
              let shorter = length-fgets content line rest e in
              let stop = if parsing == 1 then 0 else parsing in
              let (t, q, k) = crunch_lines-Kept n comment node stop rest s (omega arith) h l b in
              elim (Bool-cases (is_blank (c_str line))) [
                | inl y ↦ (t, ground (arith, z, e, y, q), k)
                | inr y ↦ elim (Option-cases (keyword_line comment (c_str line))) [
                  | inl g ↦ (t, ground (arith, z, e, y, g, q), k)
                  | inr ((w, at), g) ↦
                      let buf = c_str line in
                      let (u, p, a) =
                        parse_line-Kept H w node (suc (length buf)) (drop at buf) s
                          (omega (arith, length-drop at buf)) h l b in
                      let (v, q', k') =
                        crunch_lines-Kept n comment node 1 rest u (omega arith) h
                          (omega (arith, a.files)) a.built in
                      (
                        v,
                        ground (arith, z, e, y, g, p, q'),
                        record { built = k'.built; files = k'.files ∙ a.files },
                      )
                ]
              ]
        ]
      ]

  warn-Built : (w : Warning) (s : St H) → Built H s → Built H (warn w s)
  warn-Built w s b =
      Same-Built H s _
        (record {
          prov = refl;
          next_prov = refl;
          next_file = refl;
          prov_list = λ g. refl;
          next = λ g. refl;
          last = λ g. refl;
          progress = λ g. refl;
          output = refl;
          befores = λ x. x;
          values = λ d n. refl;
        })
        b

  filenode_new-files : (name : Str) (s : St H) → (filenode_new name s).1.next_file ≡ suc s.next_file
  unfolding filenode_new
  filenode_new-files name s = ground arith

  filenode_new-node : (name : Str) (s : St H) → (filenode_new name s).0 ≡ s.next_file
  unfolding filenode_new
  filenode_new-node name s = refl

  -- Whatever stands under the name, the function returns with well-formed heaps.
  crunch_file-Built :
      (fs : Str → Source) (comment name : Str) (s : St H)
      → Built H s
      → (t : St H) × (crunch_file H fs comment name s ≡ some t) × Built H t
  unfolding crunch_file
  crunch_file-Built fs comment [] s b = (s, refl, b)
  crunch_file-Built fs comment (c ∷ name) s b = go (fs (c ∷ name)) refl
    where
      go :
          (x : Source)
          → fs (c ∷ name) ≡ x
          → (t : St H) × (crunch_file H fs comment (c ∷ name) s ≡ some t) × Built H t
      go unreadable e = (_, rw (e, crunch_file), warn-Built (could_not_open (c ∷ name)) s b)
      go unstatable e = (_, rw (e, crunch_file), warn-Built (could_not_stat (c ∷ name)) s b)
      go irregular e = (_, rw (e, crunch_file), warn-Built (no_regular_file (c ∷ name)) s b)
      go (regular content) e =
          let n = filenode_new (c ∷ name) s in
          let (t, q, k) =
            crunch_lines-Kept (suc (length content)) comment n.0 2 content n.1 (omega arith)
              (omega (arith, b.fresh.ready.sized, filenode_new-node (c ∷ name) s))
              (omega (arith, filenode_new-files (c ∷ name) s, filenode_new-node (c ∷ name) s))
              (filenode_new-Built H (c ∷ name) s b) in
          (t, rw (e, crunch_file) q, k.built)

  -- From well-formed heaps the loop over the operands returns, whatever stands under the
  -- names, and the heaps are well formed then: the lists of providers and of files are doubly
  -- linked, each provision is listed by its file, and nothing is marked or printed.
  pub crunch_files-Built :
      (fs : Str → Source) (comment : Str) (file_list : List Str) (s : St H)
      → Built H s
      → (t : St H) × (crunch_files H fs comment file_list s ≡ some t) × Built H t
  unfolding crunch_files
  crunch_files-Built fs comment [] s b = (s, refl, b)
  crunch_files-Built fs comment (f ∷ file_list) s b =
      let (t, e, c) = crunch_file-Built fs comment f s b in
      let (u, d, a) = crunch_files-Built fs comment file_list t c in (u, ground (arith, e, d), a)
