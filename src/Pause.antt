-- ===== src/Pause.antt =====
-- src/pause.c: the signals that end the loop of `main`, with the moments at which they arrive.
use peso.Base.{
  ℕ, ◌+◌, ◌/◌, ◌%◌, ◌^◌, ◌<◌, ◌≡◌, ◌≢◌, refl, List, [], ◌∷◌, ◌==◌, if◌then◌else◌, arith, ◌∙◌, ap,
  Bool, true, false, ◌||◌, Bool-cases, inl, inr,
}

pub data Sig : Type 0 where
  sighup sigint sigusr1 sigusr2 sigterm : Sig

-- signal ( 7 ) of Linux
unfoldable pub number : Sig → ℕ
number sighup = 1
number sigint = 2
number sigusr1 = 10
number sigusr2 = 12
number sigterm = 15

-- got_sig |= 1 << s
unfoldable pub sig_hand : ℕ → ℕ → ℕ
sig_hand s got_sig = if got_sig / 2 ^ s % 2 == 0 then got_sig + 2 ^ s else got_sig

-- The handler that `sig_conf` sets.
unfoldable pub deliver : Sig → ℕ → ℕ
unfolding number sig_hand
deliver sighup got_sig = got_sig
deliver s got_sig = sig_hand (number s) got_sig

unfoldable pub deliver_all : List Sig → ℕ → ℕ
unfolding deliver
deliver_all [] got_sig = got_sig
deliver_all (s ∷ ss) got_sig = deliver_all ss (deliver s got_sig)

-- One round of the loop: the signals that arrive behind the test and before `pause`, and the
-- one during `pause`.
pub record Round : Type 0 where
  pub early : List Sig
  pub during : Sig

pub data Result : Type 0 where
  -- `main` returns 0
  returns : Result
  -- it is in `pause` and no signal arrives there, with `got_sig`
  pauses : ℕ → Result

-- The rounds that `pause` ends, and the signals before the `pause` that no signal ends.
unfoldable pub wait_loop : List Round → List Sig → ℕ → Result
unfolding deliver_all
wait_loop [] early got_sig = if got_sig == 0 then pauses (deliver_all early got_sig) else returns
wait_loop (r ∷ rs) early got_sig =
    let rest = wait_loop rs early (deliver r.during (deliver_all r.early got_sig)) in
    if got_sig == 0 then rest else returns

-- With the signals before `got_sig = 0`.
unfoldable pub main : List Sig → List Round → List Sig → Result
unfolding wait_loop
main first rs early = wait_loop rs early 0

-- No round has a signal other than SIGHUP.
unfoldable pub OnlyHup : List Round → Type 0
OnlyHup [] = Unit
OnlyHup (r ∷ rs) = (r.early ≡ []) × (r.during ≡ sighup) × OnlyHup rs

deliver-pos : (s : Sig) (got_sig : ℕ) → s ≢ sighup → 0 < deliver s got_sig
unfolding deliver sig_hand number
deliver-pos sighup g n = absurd (n refl)
deliver-pos sigint g n = ground arith
deliver-pos sigusr1 g n = ground arith
deliver-pos sigusr2 g n = ground arith
deliver-pos sigterm g n = ground arith

wait_loop-set :
    (rs : List Round) (early : List Sig) (got_sig : ℕ)
    → 0 < got_sig
    → wait_loop rs early got_sig ≡ returns
unfolding wait_loop
wait_loop-set [] early g p = ground arith
wait_loop-set (r ∷ rs) early g p = ground arith

unfoldable pub is_caught : Sig → Bool
is_caught sighup = false
is_caught s = true

unfoldable pub any_caught : List Sig → Bool
unfolding is_caught
any_caught [] = false
any_caught (s ∷ ss) = is_caught s || any_caught ss

-- A signal other than SIGHUP arrives in one of the rounds, before `pause` or in it.
unfoldable pub any_round : List Round → Bool
unfolding any_caught is_caught
any_round [] = false
any_round (r ∷ rs) = any_caught r.early || (is_caught r.during || any_round rs)

deliver-keeps : (s : Sig) (got_sig : ℕ) → 0 < got_sig → 0 < deliver s got_sig
unfolding deliver sig_hand
deliver-keeps sighup g p = p
deliver-keeps sigint g p = ground (arith, p)
deliver-keeps sigusr1 g p = ground (arith, p)
deliver-keeps sigusr2 g p = ground (arith, p)
deliver-keeps sigterm g p = ground (arith, p)

deliver_all-keeps : (ss : List Sig) (got_sig : ℕ) → 0 < got_sig → 0 < deliver_all ss got_sig
unfolding deliver_all
deliver_all-keeps [] g p = p
deliver_all-keeps (s ∷ ss) g p = deliver_all-keeps ss (deliver s g) (deliver-keeps s g p)

caught-pos : (s : Sig) (got_sig : ℕ) → is_caught s ≡ true → 0 < deliver s got_sig
unfolding is_caught
caught-pos sighup g e = cc
caught-pos sigint g e = deliver-pos sigint g (λ h. cc)
caught-pos sigusr1 g e = deliver-pos sigusr1 g (λ h. cc)
caught-pos sigusr2 g e = deliver-pos sigusr2 g (λ h. cc)
caught-pos sigterm g e = deliver-pos sigterm g (λ h. cc)

not_caught-same : (s : Sig) (got_sig : ℕ) → is_caught s ≡ false → deliver s got_sig ≡ got_sig
unfolding is_caught deliver
not_caught-same sighup g e = refl
not_caught-same sigint g e = cc
not_caught-same sigusr1 g e = cc
not_caught-same sigusr2 g e = cc
not_caught-same sigterm g e = cc

deliver_all-pos : (ss : List Sig) (got_sig : ℕ) → any_caught ss ≡ true → 0 < deliver_all ss got_sig
unfolding any_caught deliver_all
deliver_all-pos [] g e = cc
deliver_all-pos (s ∷ ss) g e = elim (Bool-cases (is_caught s)) [
  | inl y ↦ deliver_all-keeps ss (deliver s g) (caught-pos s g y)
  | inr n ↦ deliver_all-pos ss (deliver s g) (ground (arith, e, n))
]

deliver_all-same :
    (ss : List Sig) (got_sig : ℕ) → any_caught ss ≡ false → deliver_all ss got_sig ≡ got_sig
unfolding any_caught deliver_all
deliver_all-same [] g e = refl
deliver_all-same (s ∷ ss) g e =
    ap (deliver_all ss) (not_caught-same s g (ground (arith, e)))
    ∙ deliver_all-same ss g (ground (arith, e))

wait_loop-any_round :
    (rs : List Round) (early : List Sig)
    → wait_loop rs early 0 ≡ (if any_round rs then returns else pauses (deliver_all early 0))
unfolding wait_loop any_round
wait_loop-any_round [] early = refl
wait_loop-any_round (r ∷ rs) early = elim (Bool-cases (any_caught r.early)) [
  | inl y ↦
      rw (y, any_round)
        (wait_loop-set rs early (deliver r.during (deliver_all r.early 0))
          (deliver-keeps r.during (deliver_all r.early 0) (deliver_all-pos r.early 0 y)))
  | inr n ↦ elim (Bool-cases (is_caught r.during)) [
    | inl y ↦
        rw (n, any_round)
          (rw y (
            wait_loop-set rs early (deliver r.during (deliver_all r.early 0))
              (caught-pos r.during (deliver_all r.early 0) y)))
    | inr m ↦
        rw (n, any_round)
          (rw m (
            ap (wait_loop rs early)
              (not_caught-same r.during (deliver_all r.early 0) m ∙ deliver_all-same r.early 0 n)
            ∙ wait_loop-any_round rs early))
  ]
]

-- For all signals and the moments at which they arrive: `main` returns just when a signal other
-- than SIGHUP arrived in one of the rounds that end a `pause`, before the `pause` or during it.
-- Else it waits, and the signals that came before `got_sig` was set to 0 are lost, and those
-- between the last test and the last `pause` have only left their bits.
pub main-any_round :
    (first : List Sig) (rs : List Round) (early : List Sig)
    → main first rs early ≡ (if any_round rs then returns else pauses (deliver_all early 0))
unfolding main
main-any_round first rs early = wait_loop-any_round rs early
