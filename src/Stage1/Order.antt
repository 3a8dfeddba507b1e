-- ===== src/Stage1/Order.antt =====
-- src/stage1.c, `mount_pseudofs`: the places where file systems are mounted, and their order.
use peso.Base.{
  ℕ, ◌≡◌, refl, Bool, true, false, not, ◌&&◌, ◌||◌, ◌↔◌, inl, inr, Bool-cases, if◌then◌else◌, arith,
  List, [], ◌∷◌, ◌++◌, map, codes, if_both, ap, subst, sym, ◌∙◌, ++-assoc, ++-nil,
}
use peso.Base.Lists.{str_eq}
use peso.Stage1.{FileName, mount, mkdir, Trace, World, Build}
use peso.Stage1.Points.{IsMounted, Fits, IsMounted-is_mount_point, is_mount_point-IsMounted}
use peso.Stage1.Mounts.{
  is_mount_point, need_dir, do_mount, Mount, pseudofs, do_mounts, mount_pseudofs,
}

-- The places where file systems were mounted, in the order of the calls.
unfoldable pub mounted : Trace → List FileName
mounted [] = []
mounted (mount src dest type f opts ∷ t) = mounted t ++ dest ∷ []
mounted (c ∷ t) = mounted t

unfoldable pub is_among : FileName → List FileName → Bool
is_among p [] = false
is_among p (q ∷ qs) = str_eq p q || is_among p qs

-- The places in the order of the source.
unfoldable pub places : List FileName
places = map codes (
    "/proc" ∷ "/sys" ∷ "/run" ∷ "/dev" ∷ "/dev/pts" ∷ "/dev/mqueue" ∷ "/dev/shm" ∷ "/run/mqueue"
    ∷ "/run/shm" ∷ "/var/run" ∷ [])

unfoldable pub dests : List Mount → List FileName
dests [] = []
dests (m ∷ ms) = m.dest ∷ dests ms

dests-pseudofs : (b : Build) → dests (pseudofs b) ≡ places
unfolding dests pseudofs places
dests-pseudofs b = refl

-- The first is none of the others.
unfoldable pub apart_from : FileName → List FileName → Bool
apart_from p [] = true
apart_from p (q ∷ qs) = not (str_eq q p) && apart_from p qs

unfoldable pub all_apart : List FileName → Bool
all_apart [] = true
all_apart (p ∷ ps) = apart_from p ps && all_apart ps

places-apart : all_apart places ≡ true
unfolding places all_apart apart_from str_eq
places-apart = refl

-- The ones of these where nothing was mounted before, and nothing was mounted in the list `l`.
unfoldable pub missing : (FileName → Bool) → List FileName → List FileName → List FileName
missing before l [] = []
missing before l (p ∷ ps) =
    let rest = missing before l ps in if before p || is_among p l then rest else p ∷ rest

-- Of the places `lstat` shows just those as mount points that are so before the program, and those
-- that it mounts on.
abbrev pub Shows : World → (FileName → Bool) → Type 0
Shows w before =
    (t : Trace) (p : FileName)
    → is_among p places ≡ true
    → ((before p || is_among p (mounted t)) ≡ true) ↔ IsMounted w t p

AllFit : List FileName → Type 0
AllFit [] = Unit
AllFit (p ∷ ps) = Fits p × AllFit ps

places-AllFit : AllFit places
unfolding AllFit places
places-AllFit = omega arith

unfoldable all_among : List FileName → List FileName → Bool
all_among [] l = true
all_among (p ∷ ps) l = is_among p l && all_among ps l

places-all_among : all_among places places ≡ true
unfolding places all_among is_among str_eq
places-all_among = refl

is_among-++ :
    (q : FileName) (l m : List FileName) → is_among q (l ++ m) ≡ (is_among q l || is_among q m)
unfolding is_among
is_among-++ q [] m = refl
is_among-++ q (p ∷ l) m = ground (arith, is_among-++ q l m)

missing-snoc :
    (before : FileName → Bool) (l : List FileName) (p : FileName) (ps : List FileName)
    → apart_from p ps ≡ true
    → missing before (l ++ p ∷ []) ps ≡ missing before l ps
unfolding missing apart_from is_among
missing-snoc before l p [] a = refl
missing-snoc before l p (q ∷ ps) a =
    ground (arith, a, is_among-++ q l (p ∷ []), missing-snoc before l p ps)

module _ (w : World) (before : FileName → Bool) (shows : Shows w before) where
  shown :
      (t : Trace) (p : FileName)
      → is_among p places ≡ true
      → Fits p
      → is_mount_point w t p ≡ (before p || is_among p (mounted t))
  shown t p i f = elim (Bool-cases (is_mount_point w t p)) [
    | inl y ↦ y ∙ sym ((shows t p i).1 (is_mount_point-IsMounted w t p f y))
    | inr n ↦ elim (Bool-cases (before p || is_among p (mounted t))) [
      | inl y ↦ IsMounted-is_mount_point w t p f ((shows t p i).0 y) ∙ sym y
      | inr m ↦ n ∙ sym m
    ]
  ]

  need_dir-mounted :
      (dest : FileName) (m : ℕ) (t : Trace) → mounted (need_dir w dest m t) ≡ mounted t
  unfolding need_dir mounted
  need_dir-mounted dest m t =
      if_both (λ u. mounted u ≡ mounted t) (w.is_d t dest) t (mkdir dest m ∷ t) (λ y. refl)
        (λ y. refl)

  do_mount-mounted :
      (m : Mount) (t : Trace)
      → is_among m.dest places ≡ true
      → Fits m.dest
      → mounted (do_mount w m.mode m.src m.dest m.type m.flags m.opts t) ≡ (
          if before m.dest || is_among m.dest (mounted t)
          then mounted t
          else mounted t ++ m.dest ∷ [])
  unfolding do_mount mounted
  do_mount-mounted m t i f =
      let u = need_dir w m.dest m.mode t in
      let same = need_dir-mounted m.dest m.mode t in
      let y = shown u m.dest i f ∙ ap (λ l. before m.dest || is_among m.dest l) same in
      elim (Bool-cases (before m.dest || is_among m.dest (mounted t))) [
        | inl z ↦ rw (z, do_mount) (rw (y ∙ z) same)
        | inr z ↦ rw (z, do_mount) (rw (y ∙ z) (ap (λ l. l ++ m.dest ∷ []) same))
      ]

  do_mounts-mounted :
      (ms : List Mount) (t : Trace)
      → AllFit (dests ms)
      → all_among (dests ms) places ≡ true
      → all_apart (dests ms) ≡ true
      → mounted (do_mounts w ms t) ≡ mounted t ++ missing before (mounted t) (dests ms)
  unfolding do_mounts dests AllFit all_among all_apart missing
  do_mounts-mounted [] t f i a = sym (++-nil (mounted t))
  do_mounts-mounted (m ∷ ms) t (f, fs) i a =
      let d = m.dest in
      let ds = dests ms in
      let u = do_mount w m.mode m.src d m.type m.flags m.opts t in
      let one = do_mount-mounted m t (ground (arith, i)) f in
      let ih =
        do_mounts-mounted ms u fs (ground (arith, i)) (ground (arith, a))
        ∙ ap (λ l. l ++ missing before l ds) one in
      let snoc = missing-snoc before (mounted t) d ds (ground (arith, a)) in
      next (before d || is_among d (mounted t)) (mounted t) d ds (mounted (do_mounts w ms u)) snoc
        ih
    where
      next :
          (z : Bool) (l : List FileName) (d : FileName) (ds after : List FileName)
          → missing before (l ++ d ∷ []) ds ≡ missing before l ds
          → after
            ≡ (if z then l else l ++ d ∷ []) ++ missing before (if z then l else l ++ d ∷ []) ds
          → after ≡ l ++ (if z then missing before l ds else d ∷ missing before l ds)
      next true l d ds after snoc e = e
      next false l d ds after snoc e =
          e ∙ ap (λ k. (l ++ d ∷ []) ++ k) snoc ∙ ++-assoc l (d ∷ []) (missing before l ds)

  mount_pseudofs-mounted :
      (b : Build) (t : Trace)
      → mounted (mount_pseudofs w b t) ≡ mounted t ++ missing before (mounted t) places
  unfolding mount_pseudofs
  mount_pseudofs-mounted b t =
      let e = dests-pseudofs b in
      do_mounts-mounted (pseudofs b) t (subst AllFit (sym e) places-AllFit)
        (ap (λ l. all_among l places) e ∙ places-all_among) (ap all_apart e ∙ places-apart)
      ∙ ap (λ l. mounted t ++ missing before (mounted t) l) e

str_eq_self : (p : FileName) → str_eq p p ≡ true
unfolding str_eq
str_eq_self [] = refl
str_eq_self (c ∷ p) = ground (arith, str_eq_self p)

or_true : (b : Bool) → (b || true) ≡ true
or_true b = ground arith

head : (p : FileName) (pre r : List FileName) → (is_among p pre || is_among p (p ∷ r)) ≡ true
unfolding is_among
head p pre r = ground (arith, str_eq_self p)

missing-skip :
    (before : FileName → Bool) (l : List FileName) (p : FileName) (ps : List FileName)
    → (before p || is_among p l) ≡ true
    → missing before l (p ∷ ps) ≡ missing before l ps
unfolding missing
missing-skip before l p ps y = rw y refl

missing-take :
    (before : FileName → Bool) (l : List FileName) (p : FileName) (ps : List FileName)
    → (before p || is_among p l) ≡ false
    → missing before l (p ∷ ps) ≡ p ∷ missing before l ps
unfolding missing
missing-take before l p ps n = rw n refl

-- Nothing is missing twice.
missing-again :
    (before : FileName → Bool) (pre l ps : List FileName)
    → ((q : FileName) → is_among q l ≡ true → is_among q pre ≡ true)
    → missing before (pre ++ missing before l ps) ps ≡ []
unfolding missing
missing-again before pre l [] h = refl
missing-again before pre l (p ∷ ps) h = elim (Bool-cases (before p || is_among p l)) [
  | inl y ↦
      let r = missing before l ps in
      let z : (before p || is_among p (pre ++ r)) ≡ true =
        ground (arith, y, h p, is_among-++ p pre r) in
      ap (λ k. missing before (pre ++ k) (p ∷ ps)) (missing-skip before l p ps y)
      ∙ missing-skip before (pre ++ r) p ps z
      ∙ missing-again before pre l ps h
  | inr n ↦
      let r = missing before l ps in
      let z : (before p || is_among p (pre ++ p ∷ r)) ≡ true =
        ap (λ k. before p || k) (is_among-++ p pre (p ∷ r) ∙ head p pre r) ∙ or_true (before p) in
      let more : (q : FileName) → is_among q l ≡ true → is_among q (pre ++ p ∷ []) ≡ true =
        λ q i. is_among-++ q pre (p ∷ []) ∙ ap (λ k. k || is_among q (p ∷ [])) (h q i) in
      ap (λ k. missing before (pre ++ k) (p ∷ ps)) (missing-take before l p ps n)
      ∙ missing-skip before (pre ++ p ∷ r) p ps z
      ∙ ap (λ k. missing before k ps) (sym (++-assoc pre (p ∷ []) r))
      ∙ missing-again before (pre ++ p ∷ []) l ps more
]

-- Where `lstat` shows, of the ten places of the source, just those as mount points that were so
-- before the program and those that it has called `mount` on: `mount_pseudofs` mounts on all
-- the others, once each and in the order of the source, and on no other place, and a second run
-- mounts nothing more.
pub mount_pseudofs-places :
    (w : World) (before : FileName → Bool) (b : Build) (t : Trace)
    → Shows w before
    → let u = mount_pseudofs w b t in
      (mounted u ≡ mounted t ++ missing before (mounted t) places)
      × (mounted (mount_pseudofs w b u) ≡ mounted u)
mount_pseudofs-places w before b t shows =
    let u = mount_pseudofs w b t in
    let once = mount_pseudofs-mounted w before shows b t in
    (
      once,
      mount_pseudofs-mounted w before shows b u
          ∙ ap (λ l. mounted u ++ missing before l places) once
          ∙ ap (λ l. mounted u ++ l)
              (missing-again before (mounted t) (mounted t) places (λ q i. i))
          ∙ ++-nil (mounted u),
    )
