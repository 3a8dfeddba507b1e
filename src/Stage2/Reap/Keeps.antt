-- ===== src/Stage2/Reap/Keeps.antt =====
-- src/stage2.c, `reap`: what it keeps of the table.
use peso.Base.{
  ℕ, zero, suc, ◌+◌, ◌≡◌, refl, Bool, false, List, [], ◌∷◌, some, ◌==◌, ◌&&◌, ◌||◌, not, arith,
  Bool-cases, Option-cases, some-inj, inl, inr, sym, subst,
}
use peso.Stage2.{Service, Scanner, sec, Pipe, open_pipe, closed, reopened}
use peso.Stage2.Table.{All, length-total, All-++, All-map, All-swap_remove}
use peso.Stage2.Reap.{
  Wait, wait_failed, ended, find_pid, close_pipe, drop_ended, reap_one, reap_all, reap,
}
use peso.Stage2.Reap.Holds.{dying, reap_one-active, reap_one-inactive, reap_one-none}
use peso.Stage2.Reap.Sums.{dying_cases, named-Blind, one-Blind, reap_one-total-le}
use peso.Stage2.Scan.Slots.{IsLogged, IsTable, aside-IsTable, named}

pub All-find_pid :
    (P : Service → Type 0) (Q : Service → Type 0) (nextscan r : ℕ)
    → ((v : Service) → P v → Q (record v { pid = 0; restartafter = nextscan }))
    → ((v : Service) → P v → Q (record v { log_pid = 0; log_restartafter = nextscan }))
    → (vs us : List Service) (v : Service) (ws : List Service) → All P vs
    → find_pid nextscan r vs ≡ some (us, v, ws)
    → All P us × Q v × All P ws
unfolding find_pid All
All-find_pid P Q nextscan r f g [] us v ws a e = cc
All-find_pid P Q nextscan r f g (u ∷ vs) us v ws (p, a) e = elim (Bool-cases (u.pid == r)) [
  | inl y ↦ ground (arith, e, y, f u p, a)
  | inr y ↦ elim (Bool-cases (u.log_pid == r)) [
    | inl z ↦ ground (arith, e, y, z, g u p, a)
    | inr z ↦ elim (Option-cases (find_pid nextscan r vs)) [
      | inl h ↦ ground (arith, e, y, z, h)
      | inr ((x, w, c), h) ↦
          ground (arith, e, y, z, h, p, All-find_pid P Q nextscan r f g vs x w c a h)
    ]
  ]
]

pub All-drop_ended :
    (P : Service → Type 0) (us : List Service) (v : Service) (ws : List Service)
    → All P us
    → P v
    → All P ws
    → All P (drop_ended us v ws)
unfolding drop_ended All
All-drop_ended P us v ws a p b =
    elim (Bool-cases (v.pid == 0 && (not v.flaglog || v.log_pid == 0))) [
      | inl y ↦ rw y (All-swap_remove P us ws a b)
      | inr y ↦ rw y (All-++ P us (v ∷ ws) a (p, b))
    ]

-- What the services have before, and what they have behind, whichever of them is changed.
pub record Carries (P Q : Service → Type 0) (nextscan : ℕ) : Type 0 where
  pub same : (v : Service) → P v → Q v
  pub pid : (v : Service) → P v → Q (record v { pid = 0; restartafter = nextscan })
  pub log_pid : (v : Service) → P v → Q (record v { log_pid = 0; log_restartafter = nextscan })
  pub pipe : (v : Service) (p : Pipe) → v.flagactive ≡ false → Q v → Q (record v { pipe = p })

pub close_pipe-Carries :
    (P Q : Service → Type 0) (nextscan : ℕ) (p : Pipe) (v : Service) (scan : Bool)
    → Carries P Q nextscan
    → v.flagactive ≡ false
    → Q v
    → Q (close_pipe p v scan).0
unfolding close_pipe
close_pipe-Carries P Q nextscan (open_pipe x y) v scan c i q = c.pipe v closed i q
close_pipe-Carries P Q nextscan closed v scan c i q = q
close_pipe-Carries P Q nextscan reopened v scan c i q = q

pub dying-Carries :
    (P Q : Service → Type 0) (nextscan : ℕ) (v : Service) (scan : Bool)
    → Carries P Q nextscan
    → v.flagactive ≡ false
    → Q v
    → Q (dying v scan)
dying-Carries P Q nextscan v scan c i q = elim (dying_cases v scan) [
  | inl y ↦ subst Q (sym y) (close_pipe-Carries P Q nextscan v.pipe v scan c i q)
  | inr y ↦ subst Q (sym y) q
]

pub reap_one-All :
    (P Q : Service → Type 0) (nextscan r : ℕ) (s : Scanner)
    → Carries P Q nextscan
    → All P s.services
    → All Q (reap_one nextscan r s).services
unfolding All
reap_one-All P Q nextscan r s c a = elim (Option-cases (find_pid nextscan r s.services)) [
  | inl e ↦
      subst (λ t. All Q t.services) (sym (reap_one-none nextscan r s e))
        (All-map P Q c.same s.services a)
  | inr ((us, v, ws), e) ↦
      let (l, q, o) = All-find_pid P Q nextscan r c.pid c.log_pid s.services us v ws a e in
      let before = All-map P Q c.same us l in
      let after = All-map P Q c.same ws o in
      elim (Bool-cases v.flagactive) [
        | inl y ↦
            subst (All Q) (sym (reap_one-active nextscan r s us v ws e y))
              (All-++ Q us (v ∷ ws) before (q, after))
        | inr y ↦ subst (All Q) (sym (reap_one-inactive nextscan r s us v ws e y)) (
            All-drop_ended Q us (dying v s.flags.wantscan) ws before
              (dying-Carries P Q nextscan v s.flags.wantscan c y q) after)
      ]
]

pub reap_one-max : (nextscan r : ℕ) (s : Scanner) → (reap_one nextscan r s).max ≡ s.max
unfolding reap_one
reap_one-max nextscan r s = ground arith

pub reap_one-IsTable : (nextscan r : ℕ) (s : Scanner) → IsTable s → IsTable (reap_one nextscan r s)
reap_one-IsTable nextscan r s b =
    let t = reap_one nextscan r s in
    record {
      room = omega (
        arith,
        b.room,
        reap_one-max nextscan r s,
        length-total t.services,
        length-total s.services,
        reap_one-total-le (λ v. 1) one-Blind nextscan r s,
      );
      single = λ i j.
          omega (arith, b.single i j, reap_one-total-le (named i j) (named-Blind i j) nextscan r s);
      logged =
          reap_one-All IsLogged IsLogged nextscan r s
            (record {
              same = λ v l. l;
              pid = λ v l. l;
              log_pid = λ v l y. refl;
              pipe = λ v p i l. l;
            })
            b.logged;
    }

pub reap_all-IsTable :
    (nextscan : ℕ) (ws : List Wait) (s t : Scanner)
    → IsTable s
    → reap_all nextscan ws s ≡ some t
    → IsTable t
unfolding reap_all
reap_all-IsTable nextscan [] s t b e = subst IsTable (some-inj e) b
reap_all-IsTable nextscan (wait_failed ∷ ws) s t b e = cc
reap_all-IsTable nextscan (ended zero ∷ ws) s t b e = subst IsTable (some-inj e) b
reap_all-IsTable nextscan (ended (suc r) ∷ ws) s t b e =
    reap_all-IsTable nextscan ws (reap_one nextscan (suc r) s) t
      (reap_one-IsTable nextscan (suc r) s b) e

pub reap-IsTable :
    (now : ℕ) (ws : List Wait) (s t : Scanner) → IsTable s → reap now ws s ≡ some t → IsTable t
unfolding reap
reap-IsTable now ws s t b e = elim (Bool-cases s.flags.wantreap) [
  | inl y ↦
      let u : Scanner = record s { flags = record s.flags { wantreap = false } } in
      reap_all-IsTable (now + sec) ws u t (aside-IsTable s u refl refl b) (ground (arith, y, e))
  | inr y ↦ ground (arith, y, e, b)
]
