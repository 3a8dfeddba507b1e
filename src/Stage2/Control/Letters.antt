-- ===== src/Stage2/Control/Letters.antt =====
-- src/stage2.c, `handle_control`: a description of what is read and of what it sets, by tables of letters.
use peso.Base.{
  inl, inr, ℕ, ◌≡◌, refl, true, false, List, [], ◌∷◌, Option, none, some, ◌==◌, ◌||◌, ◌&&◌, not,
  has, codes, Bool, Bool-cases, if_true, if_false, ap, sym, ◌∙◌, if◌then◌else◌, arith,
}
use peso.Stage2.{Finish, reboot, poweroff, halt, other, Flags}
use peso.Stage2.Control.{
  Read, broken, byte, term, hup, quit, intr, usr1, last_command, command, handle_control,
}

-- The letters behind which nothing more is read.
unfoldable pub last_letters : List ℕ
last_letters = codes "htb6iq078"

-- What a letter has to say on the program that the scanner ends with, and on the signals.
unfoldable pub finish_of : ℕ → Option Finish
finish_of c =
    if has c (codes "p7")
    then some poweroff
    else if has c (codes "r6i")
    then some reboot
    else if has c (codes "s0")
    then some halt
    else if c == b'8'
    then some other
    else none

unfoldable pub kill_of : ℕ → Option ℕ
kill_of c =
    if has c (codes "t6i078")
    then some 3
    else if c == b'h'
    then some 1
    else if c == b'q'
    then some 7
    else if c == b'n'
    then some 2
    else if c == b'N'
    then some 6
    else none

-- The last letter that has something to say, or else the old value.
unfoldable pub latest : {A : Type 0} → (ℕ → Option A) → List ℕ → A → A
latest f [] old = old
latest f (c ∷ cs) old = latest f cs (elim (f c) [ some a ↦ a | none ↦ old ])

-- One of these letters is among those.
unfoldable pub meets : List ℕ → List ℕ → Bool
meets [] ls = false
meets (c ∷ cs) ls = has c ls || meets cs ls

unfoldable and_before : ℕ → Option (List ℕ × List Read) → Option (List ℕ × List Read)
and_before c none = none
and_before c (some (cs, left)) = some (c ∷ cs, left)

-- The letters up to the first one of `last_letters`, and what is behind them; none when the
-- pipe breaks before.
unfoldable pub up_to_last : List Read → Option (List ℕ × List Read)
unfolding last_letters and_before
up_to_last [] = some ([], [])
up_to_last (broken ∷ rs) = none
up_to_last (byte c ∷ rs) =
    if has c last_letters then some (c ∷ [], rs) else and_before c (up_to_last rs)

-- The flags behind these letters.
unfoldable pub after : List ℕ → Flags → Flags
unfolding latest meets finish_of kill_of last_letters
after cs s = record {
  wantreap = s.wantreap || has b'z' cs;
  wantscan = s.wantscan || has b'a' cs;
  wantkill = latest kill_of cs s.wantkill;
  cont = s.cont && not (meets cs last_letters);
  finish_arg = latest finish_of cs s.finish_arg;
}

unfoldable pub outcome : Option (List ℕ × List Read) → Flags → Option (Flags × List Read)
unfolding after
outcome none s = none
outcome (some (cs, left)) s = some (after cs s, left)

-- One letter.
last_command-after :
    (c : ℕ) (s : Flags) → has c last_letters ≡ true → last_command c s ≡ some (after (c ∷ []) s)
unfolding last_command term hup quit intr usr1 after latest meets finish_of kill_of last_letters
last_command-after c s h = ground (arith, h)

last_command-none : (c : ℕ) (s : Flags) → has c last_letters ≡ false → last_command c s ≡ none
unfolding last_command last_letters
last_command-none c s h = ground (arith, h)

command-after :
    (c : ℕ) (cs : List ℕ) (s : Flags)
    → has c last_letters ≡ false
    → after cs (command c s) ≡ after (c ∷ cs) s
unfolding command after latest meets finish_of kill_of
command-after c cs s h = ground (arith, h)

after-nil : (s : Flags) → after [] s ≡ s
unfolding after latest meets
after-nil s = ground arith

one_last :
    (c : ℕ) (s t : Flags) (rs : List Read)
    → last_command c s ≡ some t
    → handle_control (byte c ∷ rs) s ≡ some (t, rs)
unfolding handle_control
one_last c s t rs e = ground (arith, e)

one_more :
    (c : ℕ) (s : Flags) (rs : List Read)
    → last_command c s ≡ none
    → handle_control (byte c ∷ rs) s ≡ handle_control rs (command c s)
unfolding handle_control
one_more c s rs e = ground (arith, e)

-- Whatever is in the pipe, `handle_control` reads up to the first of the letters `htb6iq078`
-- and no further, and panics just when the pipe breaks before. Of what it read, the last letter
-- that names a program sets `finish_arg` (`p` and `7` poweroff, `r`, `6` and `i` reboot, `s`
-- and `0` halt, `8` other), the last one that asks for signals sets `wantkill` (`t`, `6`, `i`,
-- `0`, `7` and `8` to 3, `h` to 1, `q` to 7, `n` to 2, `N` to 6), `z` and `a` ask for reaping
-- and scanning, and `cont` is cleared just by one of `htb6iq078`.
pub handle_control-up_to_last :
    (rs : List Read) (s : Flags) → handle_control rs s ≡ outcome (up_to_last rs) s
unfolding handle_control up_to_last outcome
handle_control-up_to_last [] s = cc (after-nil s)
handle_control-up_to_last (broken ∷ rs) s = refl
handle_control-up_to_last (byte c ∷ rs) s = elim (Bool-cases (has c last_letters)) [
  | inl y ↦
      one_last c s (after (c ∷ []) s) rs (last_command-after c s y)
      ∙ ap (λ r. outcome r s) (sym (if_true _ (some (c ∷ [], rs)) (and_before c (up_to_last rs)) y))
  | inr n ↦
      one_more c s rs (last_command-none c s n)
      ∙ next n (up_to_last rs) (handle_control-up_to_last rs (command c s))
      ∙ ap (λ r. outcome r s)
          (sym (if_false _ (some (c ∷ [], rs)) (and_before c (up_to_last rs)) n))
]
  where
    next :
        has c last_letters ≡ false
        → (r : Option (List ℕ × List Read))
        → handle_control rs (command c s) ≡ outcome r (command c s)
        → handle_control rs (command c s) ≡ outcome (and_before c r) s
    next n none e = e
    next n (some (cs, left)) e = e ∙ ap (λ t. some (t, left)) (command-after c cs s n)
