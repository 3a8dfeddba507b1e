-- ===== src/Rcorder/Order/Once.antt =====
-- src/rcorder.c, `print_file` in a run of `do_file`: which files are printed.
use peso.Base.{
  ℕ, ◌+◌, ◌≤◌, ◌≡◌, refl, Bool, true, not, ◌&&◌, List, ◌∷◌, arith, ◌==◌, if◌then◌else◌, count,
}
use peso.Rcorder.Types.{Str, State, Warning}
use peso.Rcorder.Hash.{HashTable}
use peso.Rcorder.Order.{
  St, fail, enter, leave, drop_lists, print_file, unlink_file, mark_head, skip_ok, keep_ok,
}
use peso.Rcorder.Order.Trace.{
  DoFile, Reqs, Req, Drain, run, end, req, missing, satisfied, circular, drained, stop, more,
}
use peso.Rcorder.Order.Invariant.{
  Inv, Later, DoFile-Inv, Reqs-Inv, Req-Inv, enter-Later, leave-Later, enter-Inv, mark_head-Inv,
}

module _ {T : Type 0} where
  -- the keyword lists let the file be printed
  unfoldable pub chosen : State T → ℕ → Bool
  chosen s f = skip_ok s f && keep_ok s f

  -- 1 for a file that is marked and may be printed
  abbrev pub due : State T → ℕ → ℕ
  due s g = if (s.file g).in_progress && chosen s g then 1 else 0

  -- From `s` to `t` a file is printed once if it was marked between them and may be printed.
  abbrev pub Prints : State T → State T → ℕ → Type 0
  Prints s t g = count g t.output + due s g ≡ count g s.output + due t g

  pub chosen-Later : (s t : State T) → Later s t → (g : ℕ) → chosen t g ≡ chosen s g
  unfolding chosen skip_ok keep_ok
  chosen-Later s t l g = rw (l.keep_list, l.skip_list, (l.file g).keyword_list)

  pub leave-output :
      (f : ℕ) (w : Bool) (s : State T)
      → (leave f w s).output ≡ (if not w && chosen s f then f ∷ s.output else s.output)
  unfolding chosen leave drop_lists print_file unlink_file skip_ok keep_ok
  leave-output f w s = ground arith

  pub leave-progress :
      (f : ℕ) (w : Bool) (s : State T) (g : ℕ)
      → ((leave f w s).file g).in_progress ≡ (s.file g).in_progress
  unfolding leave drop_lists print_file unlink_file
  leave-progress f w s g = ground arith

  pub enter-progress :
      (f : ℕ) (s : State T) (g : ℕ)
      → ((enter f s).file g).in_progress ≡ (if g == f then true else (s.file g).in_progress)
  unfolding enter
  enter-progress f s g = ground arith

  pub enter-output : (f : ℕ) (s : State T) → (enter f s).output ≡ s.output
  unfolding enter
  enter-output f s = ground arith

  run-Prints :
      (f : ℕ) (s t : State T) (g : ℕ)
      → Later (enter f s) t
      → Prints (enter f s) t g
      → Prints s (leave f (s.file f).in_progress t) g
  run-Prints f s t g l p =
      let u = leave f (s.file f).in_progress t in
      ground (
        arith,
        enter-progress f s g,
        enter-output f s,
        leave-progress f (s.file f).in_progress t g,
        leave-output f (s.file f).in_progress t,
        chosen-Later s (enter f s) (enter-Later f s) g,
        chosen-Later (enter f s) t l g,
        chosen-Later t u (leave-Later f (s.file f).in_progress t) g,
        l.file f,
      )

  fail-Prints : (s : State T) (w : Warning) (g : ℕ) → Prints s (fail w s) g
  unfolding chosen skip_ok keep_ok
  fail-Prints s w g = refl

  pub Prints-le :
      (s t : State T) (g : ℕ) → Later s t → Prints s t g → count g s.output ≤ count g t.output
  Prints-le s t g l p = ground (arith, chosen-Later s t l g, l.file g)

module _ (H : HashTable) (own : ℕ → ℕ) (g : ℕ) where
  open H use {get_value}

  mark_head-Prints : (h : ℕ) (s : St H) → Prints s (mark_head H h s) g
  unfolding chosen skip_ok keep_ok mark_head
  mark_head-Prints h s = refl

  mutual
    pub DoFile-Prints : {f : ℕ} {s t : St H} → DoFile H f s t → Inv H own s → Prints s t g
    DoFile-Prints (run {f} {s} {t} r e) i = rw e (
        run-Prints f s t g (Reqs-Inv H own r (enter-Inv H own f s i)).1
          (Reqs-Prints r (enter-Inv H own f s i)))

    pub Reqs-Prints :
        {rs : List ℕ} {name : Str} {s t : St H} → Reqs H rs name s t → Inv H own s → Prints s t g
    Reqs-Prints (end e) i = rw e
    Reqs-Prints (req {s} {t} {u} a b) i =
        omega (arith, Req-Prints a i, Reqs-Prints b (Req-Inv H own a i).0)

    pub Req-Prints :
        {r : ℕ} {name : Str} {s t : St H} → Req H r name s t → Inv H own s → Prints s t g
    Req-Prints (missing {s} {t} z e) i = rw e (fail-Prints s _ g)
    Req-Prints (satisfied n z e) i = rw e
    Req-Prints (circular {s} n m p e) i = rw e (fail-Prints s _ g)
    Req-Prints (drained {r} {s} {t} n m p d) i = omega (
      arith,
      mark_head-Prints (get_value s.table r) s,
      Drain-Prints d (mark_head-Inv H own _ s i),
    )

    pub Drain-Prints : {h : ℕ} {s t : St H} → Drain H h s t → Inv H own s → Prints s t g
    Drain-Prints (stop z e) i = rw e
    Drain-Prints (more n c d) i =
        omega (arith, DoFile-Prints c i, Drain-Prints d (DoFile-Inv H own c i).0)
