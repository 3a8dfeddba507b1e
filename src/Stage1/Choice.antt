-- ===== src/Stage1/Choice.antt =====
-- src/stage1.c: the console that `consio` chooses.
use peso.Base.{
  ℕ, ◌≡◌, ◌≢◌, refl, Bool, List, [], ◌∷◌, Option, none, some, Bool-cases, if◌then◌else◌, codes, inl,
  inr,
}
use peso.Stage1.{FileName, Trace, World, Build}
use peso.Stage1.Console.{is_console, find_console, redirect_to, consio}
use peso.Stage1.Seed.{seed_dev}

-- The first of the candidates that is a character device.
unfoldable pub first_console : World → Trace → List (Option FileName) → Option FileName
unfolding is_console
first_console w t [] = none
first_console w t (s ∷ ss) = if is_console w t s then s else first_console w t ss

is_console-some :
    (w : World) (t : Trace) (p : FileName) → p ≢ [] → is_console w t (some p) ≡ w.is_c t p
unfolding is_console
is_console-some w t [] n = absurd (n refl)
is_console-some w t (c ∷ cs) n = refl

-- The choice of `consio`, for a test and what is done with the choice.
choose-first :
    {A : Type 0} (P : Option FileName → Bool) (f : Option FileName → A) (u l c v : Option FileName)
    → (let s = if P u then u else if P l then l else if P c then c else if P v then v else l in
        if P s then f s else f none)
      ≡ f (if P u then u else if P l then l else if P c then c else if P v then v else none)
choose-first P f u l c v = elim (Bool-cases (P u)) [
  | inl x ↦ rw (x, x) refl
  | inr x ↦ elim (Bool-cases (P l)) [
    | inl y ↦ rw (x, y, y) refl
    | inr y ↦ elim (Bool-cases (P c)) [
      | inl z ↦ rw (x, y, z, z) refl
      | inr z ↦ elim (Bool-cases (P v)) [
        | inl a ↦ rw (x, y, z, a, a) refl
        | inr a ↦ rw (x, y, z, a, y) refl
      ]
    ]
  ]
]

-- Where the names of the console and of the virtual terminal are not empty, `consio` redirects
-- to the first of CONSOLE and console in the environment, the system console and the virtual
-- terminal that is a character device, if one is.
pub consio-first :
    (fuel : ℕ) (w : World) (b : Build) (t : Trace)
    → b.console ≢ []
    → b.vt_master ≢ []
    → let u = seed_dev w b t in
      consio fuel w b t
      ≡ redirect_to fuel w
          (first_console w u (
            w.getenv (codes "CONSOLE")
            ∷ w.getenv (codes "console")
            ∷ some b.console
            ∷ some b.vt_master
            ∷ []))
          u
unfolding consio first_console find_console redirect_to
consio-first fuel w b t c v =
    let u = seed_dev w b t in
    rw⁻¹ (is_console-some w u b.console c) (
      rw⁻¹ (is_console-some w u b.vt_master v) (
        choose-first (is_console w u) (λ s. redirect_to fuel w s u) (w.getenv (codes "CONSOLE"))
          (w.getenv (codes "console")) (some b.console) (some b.vt_master)))
