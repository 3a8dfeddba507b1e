-- ===== src/Stage2/Reap/Refines.antt =====
-- src/stage2.c, `reap`: the processes that ended, on the function from the directories to their services.
use peso.Base.{
  if_true, if_false, ℕ, ◌+◌, ◌≤◌, ◌<◌, ◌≡◌, refl, Bool, true, false, List, [], ◌∷◌, ◌++◌, Option,
  none, some, ◌==◌, if◌then◌else◌, arith, Bool-cases, Option-cases, inl, inr, ◌∙◌, ap, sym, subst,
}
use peso.Stage2.{Service, Scanner}
use peso.Stage2.Table.{total, total-++}
use peso.Stage2.Reap.{find_pid, reap_one}
use peso.Stage2.Reap.Holds.{holds, reap_one-none, holds-missing, holds-++}
use peso.Stage2.Reap.Lookup.{
  at, at-++, at-cons, at-none, at-reap_one, first, is_named, on, reap_service, settle,
}
use peso.Stage2.Scan.Slots.{IsTable, named}

-- Where `find_pid` found the service.
record Split (nextscan r : ℕ) (vs us : List Service) (v : Service) (ws : List Service)
    : Type 0 where
  old : Service
  services : vs ≡ us ++ old ∷ ws
  same : (dev ino : ℕ) → is_named dev ino v ≡ is_named dev ino old
  reaped : (scan : Bool) → reap_service nextscan scan r old ≡ settle scan v
  held : 0 < holds r (old ∷ [])

-- The three parts as a whole.
abbrev Parts : Type 0
Parts = List Service × Service × List Service

SplitAt : ℕ → ℕ → List Service → Parts → Type 0
SplitAt nextscan r vs p = Split nextscan r vs p.0 p.1 p.2

Split-cons :
    (nextscan r : ℕ) (u : Service) (vs us : List Service) (v : Service) (ws : List Service)
    → Split nextscan r vs us v ws
    → Split nextscan r (u ∷ vs) (u ∷ us) v ws
Split-cons nextscan r u vs us v ws q = record {
  old = q.old;
  services = ap (λ l. u ∷ l) q.services;
  same = q.same;
  reaped = q.reaped;
  held = q.held;
}

module _ (nextscan r : ℕ) (u : Service) (vs : List Service) where
  Split-pid :
      (u.pid == r) ≡ true
      → Split nextscan r (u ∷ vs) [] (record u { pid = 0; restartafter = nextscan }) vs
  unfolding is_named reap_service holds
  Split-pid y = record {
    old = u;
    services = refl;
    same = λ i j. refl;
    reaped = λ scan. if_true (u.pid == r) _ _ y;
    held = ground (arith, y);
  }

  Split-log_pid :
      (u.pid == r) ≡ false
      → (u.log_pid == r) ≡ true
      → Split nextscan r (u ∷ vs) [] (record u { log_pid = 0; log_restartafter = nextscan }) vs
  unfolding is_named reap_service holds
  Split-log_pid y z = record {
    old = u;
    services = refl;
    same = λ i j. refl;
    reaped = λ scan. if_false (u.pid == r) _ _ y ∙ if_true (u.log_pid == r) _ (some u) z;
    held = ground (arith, z);
  }

find_pid-Split :
    (nextscan r : ℕ) (vs us : List Service) (v : Service) (ws : List Service)
    → find_pid nextscan r vs ≡ some (us, v, ws)
    → Split nextscan r vs us v ws
unfolding find_pid SplitAt
find_pid-Split nextscan r [] us v ws e = cc
find_pid-Split nextscan r (u ∷ vs) us v ws e = elim (Bool-cases (u.pid == r)) [
  | inl y ↦
      let p : Parts = ([], record u { pid = 0; restartafter = nextscan }, vs) in
      let same : p ≡ (us, v, ws) = ground (arith, e, y) in
      subst (SplitAt nextscan r (u ∷ vs)) same (Split-pid nextscan r u vs y)
  | inr y ↦ elim (Bool-cases (u.log_pid == r)) [
    | inl z ↦
        let p : Parts = ([], record u { log_pid = 0; log_restartafter = nextscan }, vs) in
        let same : p ≡ (us, v, ws) = ground (arith, e, y, z) in
        subst (SplitAt nextscan r (u ∷ vs)) same (Split-log_pid nextscan r u vs y z)
    | inr z ↦ elim (Option-cases (find_pid nextscan r vs)) [
      | inl g ↦ ground (arith, e, y, z, g)
      | inr ((a, b, c), g) ↦
          let p : Parts = (u ∷ a, b, c) in
          let same : p ≡ (us, v, ws) = ground (arith, e, y, z, g) in
          subst (SplitAt nextscan r (u ∷ vs)) same
            (Split-cons nextscan r u vs a b c (find_pid-Split nextscan r vs a b c g))
    ]
  ]
]

-- The service of a directory in a part of the table where the process is not.
on-other :
    (nextscan r dev ino : ℕ) (scan : Bool) (vs : List Service)
    → holds r vs ≡ 0
    → on (reap_service nextscan scan r) (at dev ino vs) ≡ at dev ino vs
unfolding holds at reap_service
on-other nextscan r dev ino scan [] h = refl
on-other nextscan r dev ino scan (v ∷ vs) h = elim (Bool-cases (is_named dev ino v)) [
  | inl y ↦
      let p : (v.pid == r) ≡ false = ground (arith, h) in
      let l : (v.log_pid == r) ≡ false = ground (arith, h) in
      rw y (if_false (v.pid == r) _ _ p ∙ if_false (v.log_pid == r) _ (some v) l)
  | inr y ↦ rw (y, at) (on-other nextscan r dev ino scan vs (omega (arith, h)))
]

on-first :
    (f : Service → Option Service) (a b : Option Service)
    → on f a ≡ a
    → on f b ≡ b
    → on f (first a b) ≡ first a b
unfolding first
on-first f none b p q = q
on-first f (some v) b p q = p

first_first : (o : Option Service) → o ≡ first none (first o none)
unfolding first
first_first none = refl
first_first (some v) = refl

on-join :
    (f : Service → Option Service) (b : Bool) (a c x : Option Service) (v : Service)
    → (b ≡ true → (a ≡ none) × (c ≡ none))
    → on f a ≡ a
    → on f c ≡ c
    → f v ≡ x
    → on f (first a (first (if b then some v else none) c))
      ≡ first a (first (if b then x else none) c)
unfolding first
on-join f false a c x v n p q e = on-first f a c p q
on-join f true a c x v n p q e = let (na, nc) = n refl in rw (na, nc) (e ∙ first_first x)

-- No process stands in the table twice, and no directory.
module _ (nextscan r dev ino : ℕ) (s : Scanner) (us : List Service) (v : Service)
    (ws : List Service) (q : Split nextscan r s.services us v ws)
    (single : total (named dev ino) s.services ≤ 1) (once : holds r s.services ≤ 1) where
  around :
      (total (named dev ino) us + (named dev ino q.old + total (named dev ino) ws) ≤ 1)
      × (holds r us ≡ 0)
      × (holds r ws ≡ 0)
  unfolding total holds
  around =
      let t : total (named dev ino) s.services
          ≡ total (named dev ino) us + (named dev ino q.old + total (named dev ino) ws) =
        ap (total (named dev ino)) q.services ∙ total-++ (named dev ino) us (q.old ∷ ws) in
      let h : holds r s.services ≡ holds r us + holds r (q.old ∷ ws) =
        ap (holds r) q.services ∙ holds-++ r us (q.old ∷ ws) in
      (omega (arith, t, single), omega (arith, h, once, q.held), omega (arith, h, once, q.held))

  alone : is_named dev ino q.old ≡ true → (at dev ino us ≡ none) × (at dev ino ws ≡ none)
  unfolding named is_named
  alone y =
      let t = around.0 in
      let one : named dev ino q.old ≡ 1 = if_true (is_named dev ino q.old) 1 0 y in
      (at-none dev ino us (omega (arith, t, one)), at-none dev ino ws (omega (arith, t, one)))

  split-at :
      on (reap_service nextscan s.flags.wantscan r) (at dev ino s.services)
      ≡ first
          (at dev ino us)
          (first (if is_named dev ino v then settle s.flags.wantscan v else none) (at dev ino ws))
  split-at =
      let (t, hu, hw) = around in
      let f = reap_service nextscan s.flags.wantscan r in
      let whole : at dev ino s.services
          ≡ first (at dev ino us)
              (first (if is_named dev ino q.old then some q.old else none) (at dev ino ws)) =
        ap (at dev ino) q.services
        ∙ at-++ dev ino us (q.old ∷ ws)
        ∙ ap (first (at dev ino us)) (at-cons dev ino q.old ws) in
      ap (on f) whole
      ∙ on-join f (is_named dev ino q.old) (at dev ino us) (at dev ino ws)
          (settle s.flags.wantscan v) q.old alone
          (on-other nextscan r dev ino s.flags.wantscan us hu)
          (on-other nextscan r dev ino s.flags.wantscan ws hw) (q.reaped s.flags.wantscan)
      ∙ ap
          (λ b.
            first (at dev ino us)
              (first (if b then settle s.flags.wantscan v else none) (at dev ino ws)))
          (sym (q.same dev ino))

-- Where each directory is in the table once and the process that ended stands in it at most
-- once: `reap` acts on the function from the directories to their services, for each directory
-- by itself. The service that had the process is settled (it stays with a new restart time, or
-- goes), all others are left, and the order of the table does not matter.
pub reap_one-at :
    (nextscan r dev ino : ℕ) (s : Scanner)
    → IsTable s
    → holds r s.services ≤ 1
    → at dev ino (reap_one nextscan r s).services
      ≡ on (reap_service nextscan s.flags.wantscan r) (at dev ino s.services)
reap_one-at nextscan r dev ino s b once = elim (Option-cases (find_pid nextscan r s.services)) [
  | inl e ↦
      ap (λ t. at dev ino t.services) (reap_one-none nextscan r s e)
      ∙ sym (
          on-other nextscan r dev ino s.flags.wantscan s.services
            (holds-missing nextscan r s.services e))
  | inr ((us, v, ws), e) ↦
      let q = find_pid-Split nextscan r s.services us v ws e in
      let t = (around nextscan r dev ino s us v ws q (b.single dev ino) once).0 in
      at-reap_one dev ino nextscan r s us v ws e (omega (arith, t))
      ∙ sym (split-at nextscan r dev ino s us v ws q (b.single dev ino) once)
]
