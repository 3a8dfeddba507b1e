-- ===== src/Stage2/Reap/Lookup.antt =====
-- src/stage2.c, `reap`: the table as a function from the directories to their services.
use peso.Base.{
  if_true, if_false, ℕ, ◌≤◌, ◌≡◌, refl, Bool, true, false, List, [], ◌∷◌, ◌++◌, Option, none, some,
  ◌==◌, ◌&&◌, ◌||◌, not, if◌then◌else◌, arith, Bool-cases, inl, inr, ◌∙◌, ap, sym,
}
use peso.Stage2.{Service, Scanner, Pipe, open_pipe, closed, reopened}
use peso.Stage2.Table.{total, total-split_last}
use peso.Stage2.Reap.{find_pid, split_last, swap_remove, close_pipe, drop_ended, reap_one}
use peso.Stage2.Reap.Holds.{dying, reap_one-active, reap_one-inactive}
use peso.Stage2.Reap.Sums.{dying_cases}
use peso.Stage2.Scan.Slots.{named}

unfoldable pub is_named : ℕ → ℕ → Service → Bool
is_named dev ino v = v.ino == ino && v.dev == dev

-- The service of a directory.
unfoldable pub at : ℕ → ℕ → List Service → Option Service
unfolding is_named
at dev ino [] = none
at dev ino (v ∷ vs) = if is_named dev ino v then some v else at dev ino vs

-- What `reap` does with one service whose process ended: it goes or stays.
unfoldable pub settle : Bool → Service → Option Service
unfolding dying
settle wantscan v =
    let w = dying v wantscan in
    if v.flagactive
    then some v
    else if w.pid == 0 && (not w.flaglog || w.log_pid == 0)
    then none
    else some w

unfoldable pub reap_service : ℕ → Bool → ℕ → Service → Option Service
unfolding settle
reap_service nextscan wantscan r v =
    if v.pid == r
    then settle wantscan (record v { pid = 0; restartafter = nextscan })
    else if v.log_pid == r
    then settle wantscan (record v { log_pid = 0; log_restartafter = nextscan })
    else some v

abbrev pub on : (Service → Option Service) → Option Service → Option Service
on f none = none
on f (some v) = f v

unfoldable pub first : Option Service → Option Service → Option Service
first none b = b
first (some a) b = some a

pub first-none : (a : Option Service) → a ≡ first a none
unfolding first
first-none none = refl
first-none (some v) = refl

pub pulled :
    (b : Bool) (w : Service) (o : Option Service)
    → (if b then some w else o) ≡ first (if b then some w else none) o
unfolding first
pulled true w o = refl
pulled false w o = refl

pub nothing : (b : Bool) (o : Option Service) → o ≡ first (if b then none else none) o
unfolding first
nothing true o = refl
nothing false o = refl

pub settle-gone :
    (scan : Bool) (v : Service)
    → v.flagactive ≡ false
    → let w = dying v scan in
      (w.pid == 0 && (not w.flaglog || w.log_pid == 0)) ≡ true → settle scan v ≡ none
unfolding settle
settle-gone scan v i y = rw (y, settle) (if_false v.flagactive (some v) none i)

pub settle-stays :
    (scan : Bool) (v : Service)
    → v.flagactive ≡ false
    → let w = dying v scan in
      (w.pid == 0 && (not w.flaglog || w.log_pid == 0)) ≡ false
      → settle scan v ≡ some (dying v scan)
unfolding settle
settle-stays scan v i y = rw (y, settle) (if_false v.flagactive (some v) (some (dying v scan)) i)

module _ (dev ino : ℕ) where
  pub close_pipe-is_named :
      (p : Pipe) (v : Service) (scan : Bool)
      → is_named dev ino (close_pipe p v scan).0 ≡ is_named dev ino v
  unfolding close_pipe is_named
  close_pipe-is_named (open_pipe x y) v scan = refl
  close_pipe-is_named closed v scan = refl
  close_pipe-is_named reopened v scan = refl

  pub at-++ : (us vs : List Service) → at dev ino (us ++ vs) ≡ first (at dev ino us) (at dev ino vs)
  unfolding at first
  at-++ [] vs = refl
  at-++ (u ∷ us) vs = elim (Bool-cases (is_named dev ino u)) [
    | inl y ↦ rw (y, at) refl
    | inr y ↦ rw (y, at) (at-++ us vs)
  ]

  pub at-none : (vs : List Service) → total (named dev ino) vs ≡ 0 → at dev ino vs ≡ none
  unfolding at total named is_named
  at-none [] e = refl
  at-none (v ∷ vs) e = ground (arith, e, at-none vs)

  pub at-split_last :
      (v : Service) (vs : List Service)
      → total (named dev ino) (v ∷ vs) ≤ 1
      → at dev ino ((split_last v vs).1 ∷ (split_last v vs).0) ≡ at dev ino (v ∷ vs)
  unfolding at total named is_named split_last
  at-split_last v [] l = refl
  at-split_last v (w ∷ vs) l =
      ground (arith, l, at-split_last w vs, total-split_last (named dev ino) w vs)

  pub at-swap_remove :
      (us vs : List Service)
      → total (named dev ino) vs ≤ 1
      → at dev ino (swap_remove us vs) ≡ first (at dev ino us) (at dev ino vs)
  unfolding swap_remove at
  at-swap_remove us [] l = first-none (at dev ino us)
  at-swap_remove us (v ∷ vs) l =
      at-++ us ((split_last v vs).1 ∷ (split_last v vs).0)
      ∙ ap (first (at dev ino us)) (at-split_last v vs l)

  pub at-cons :
      (w : Service) (ws : List Service)
      → at dev ino (w ∷ ws) ≡ first (if is_named dev ino w then some w else none) (at dev ino ws)
  unfolding at first
  at-cons w ws = pulled (is_named dev ino w) w (at dev ino ws)

  pub dying-is_named :
      (v : Service) (scan : Bool) → is_named dev ino (dying v scan) ≡ is_named dev ino v
  unfolding is_named
  dying-is_named v scan = elim (dying_cases v scan) [
    | inl y ↦ ap (is_named dev ino) y ∙ close_pipe-is_named v.pipe v scan
    | inr y ↦ ap (is_named dev ino) y
  ]

  -- The service stays in its place or the last one is put there.
  pub at-drop_ended :
      (wantscan : Bool) (us : List Service) (v : Service) (ws : List Service)
      → total (named dev ino) ws ≤ 1
      → v.flagactive ≡ false
      → at dev ino (drop_ended us (dying v wantscan) ws)
        ≡ first
            (at dev ino us)
            (first (if is_named dev ino v then settle wantscan v else none) (at dev ino ws))
  unfolding drop_ended
  at-drop_ended wantscan us v ws l i =
      let w = dying v wantscan in
      elim (Bool-cases (w.pid == 0 && (not w.flaglog || w.log_pid == 0))) [
        | inl y ↦
            rw (y, drop_ended)
              (at-swap_remove us ws l
                ∙ ap (first (at dev ino us)) (
                    rw (settle-gone wantscan v i y) (nothing (is_named dev ino v) (at dev ino ws))))
        | inr y ↦
            rw (y, drop_ended)
              (at-++ us (w ∷ ws)
                ∙ ap (first (at dev ino us)) (
                    at-cons w ws
                    ∙ ap (λ b. first (if b then some w else none) (at dev ino ws))
                        (dying-is_named v wantscan)
                    ∙ ap (λ o. first (if is_named dev ino v then o else none) (at dev ino ws))
                        (sym (settle-stays wantscan v i y))))
      ]

  pub at-reap_one :
      (nextscan r : ℕ) (s : Scanner) (us : List Service) (v : Service) (ws : List Service)
      → find_pid nextscan r s.services ≡ some (us, v, ws)
      → total (named dev ino) ws ≤ 1
      → at dev ino (reap_one nextscan r s).services
        ≡ first
            (at dev ino us)
            (first (if is_named dev ino v then settle s.flags.wantscan v else none) (at dev ino ws))
  unfolding settle
  at-reap_one nextscan r s us v ws e l = elim (Bool-cases v.flagactive) [
    | inl y ↦
        ap (at dev ino) (reap_one-active nextscan r s us v ws e y)
        ∙ at-++ us (v ∷ ws)
        ∙ ap (first (at dev ino us)) (
            at-cons v ws
            ∙ ap (λ o. first (if is_named dev ino v then o else none) (at dev ino ws))
                (sym (if_true v.flagactive (some v) _ y)))
    | inr y ↦
        ap (at dev ino) (reap_one-inactive nextscan r s us v ws e y)
        ∙ at-drop_ended s.flags.wantscan us v ws l y
  ]
