-- ===== src/Stage1/Points.antt =====
-- src/stage1.c, `is_mount_point`: what it finds out, in terms of what `lstat` shows.
use peso.Base.{
  ℕ, zero, suc, ◌<◌, ◌≤◌, ◌≡◌, ◌≢◌, refl, ◌⊎◌, inl, inr, true, [], ◌∷◌, ◌++◌, Option, none, some,
  codes, arith, ap, sym, ◌∙◌, length,
}
use peso.Stage1.{FileName, Kind, is_dir, is_other, Stat, Trace, World}
use peso.Stage1.Mounts.{copy, parent_of, is_directory, is_other_device, is_root_of, is_mount_point}

-- The file above is a directory, and of another device, or the same one.
abbrev pub IsAbove : Stat → Stat → Type 0
IsAbove st up = (up.kind ≡ is_dir) × ((up.dev ≢ st.dev) ⊎ (up.ino ≡ st.ino))

-- `lstat` shows a directory, and that it has one of the first inodes of its file system or stands
-- below a directory of another device, or is the one above itself.
abbrev pub IsMounted : World → Trace → FileName → Type 0
IsMounted w t p =
    (st : Stat) × (w.lstat t p ≡ some st)
    × (st.kind ≡ is_dir)
    × (((0 < st.ino) × (st.ino < 4))
        ⊎ ((up : Stat) × (w.lstat t (p ++ codes "/..") ≡ some up) × IsAbove st up))

-- A path that `is_mount_point` does not refuse or cut.
abbrev pub Fits : FileName → Type 0
Fits p = (0 < length p) × (length p ≤ 251)

copy-all : (n : ℕ) (p : FileName) → length p ≤ n → copy n p ≡ p
unfolding copy
copy-all zero [] l = refl
copy-all zero (c ∷ cs) l = absurd (omega arith)
copy-all (suc n) [] l = refl
copy-all (suc n) (c ∷ cs) l = ap (λ k. c ∷ k) (copy-all n cs (omega arith))

parent_of-path : (p : FileName) → length p ≤ 251 → parent_of p ≡ p ++ codes "/.."
unfolding parent_of
parent_of-path p l = ap (λ k. k ++ codes "/..") (copy-all 251 p l)

is_dir-true : (k : Kind) → is_directory k ≡ true → k ≡ is_dir
unfolding is_directory
is_dir-true is_dir e = refl
is_dir-true is_other e = cc

is_other_device-IsAbove : (st up : Stat) → is_other_device st (some up) ≡ true → IsAbove st up
unfolding is_other_device
is_other_device-IsAbove st up e = (is_dir-true up.kind (ground (arith, e)), ground (arith, e))

IsAbove-is_other_device : (st up : Stat) → IsAbove st up → is_other_device st (some up) ≡ true
unfolding is_other_device is_directory
IsAbove-is_other_device st up (k, a) = rw (k, is_other_device) (ground (arith, a))

no_device : (st : Stat) → is_other_device st none ≢ true
unfolding is_other_device
no_device st e = cc

no_root : (w : World) (t : Trace) (p : FileName) → is_root_of w t p none ≢ true
unfolding is_root_of
no_root w t p e = cc

module _ (w : World) (t : Trace) where
  at_lstat : (p : FileName) → Fits p → is_mount_point w t p ≡ is_root_of w t p (w.lstat t p)
  unfolding is_mount_point
  at_lstat [] (l, m) = absurd (omega arith)
  at_lstat (c ∷ cs) f = refl

  is_root_of-split :
      (p : FileName) (st : Stat)
      → is_root_of w t p (some st) ≡ true
      → (is_directory st.kind ≡ true)
        × ((0 < st.ino) × (st.ino < 4) ⊎ is_other_device st (w.lstat t (parent_of p)) ≡ true)
  unfolding is_root_of
  is_root_of-split p st e = (ground (arith, e), ground (arith, e))

  IsAbove-up :
      (p : FileName) (st : Stat)
      → Fits p
      → is_other_device st (w.lstat t (parent_of p)) ≡ true
      → (up : Stat) × (w.lstat t (p ++ codes "/..") ≡ some up) × IsAbove st up
  IsAbove-up p st (l, m) e = next (w.lstat t (parent_of p)) refl e
    where
      next :
          (o : Option Stat)
          → w.lstat t (parent_of p) ≡ o
          → is_other_device st o ≡ true
          → (up : Stat) × (w.lstat t (p ++ codes "/..") ≡ some up) × IsAbove st up
      next none g y = absurd (no_device st y)
      next (some up) g y =
          (up, ap (w.lstat t) (sym (parent_of-path p m)) ∙ g, is_other_device-IsAbove st up y)

  pub is_mount_point-IsMounted :
      (p : FileName) → Fits p → is_mount_point w t p ≡ true → IsMounted w t p
  is_mount_point-IsMounted p f e = next (w.lstat t p) refl (sym (at_lstat p f) ∙ e)
    where
      next : (o : Option Stat) → w.lstat t p ≡ o → is_root_of w t p o ≡ true → IsMounted w t p
      next none g y = absurd (no_root w t p y)
      next (some st) g y =
          let (d, r) = is_root_of-split p st y in
          (
            st,
            g,
            is_dir-true st.kind d,
            elim r [ inl i ↦ inl i | inr i ↦ inr (IsAbove-up p st f i) ],
          )

  root-true :
      (p : FileName) (st : Stat)
      → st.kind ≡ is_dir
      → ((0 < st.ino) × (st.ino < 4) ⊎ is_other_device st (w.lstat t (parent_of p)) ≡ true)
      → is_root_of w t p (some st) ≡ true
  unfolding is_root_of is_directory
  root-true p st k (inl (a, b)) = rw (k, is_root_of) (ground (arith, a, b))
  root-true p st k (inr e) = rw (k, is_root_of) (rw e (ground arith))

  pub IsMounted-is_mount_point :
      (p : FileName) → Fits p → IsMounted w t p → is_mount_point w t p ≡ true
  IsMounted-is_mount_point p f (st, g, k, r) =
      at_lstat p f
      ∙ ap (is_root_of w t p) g
      ∙ root-true p st k (elim r [
        | inl i ↦ inl i
        | inr (up, h, a) ↦ inr (
            ap (λ q. is_other_device st (w.lstat t q)) (parent_of-path p f.1)
            ∙ ap (is_other_device st) h
            ∙ IsAbove-is_other_device st up a)
      ])
