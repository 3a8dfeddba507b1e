-- ===== src/Rcorder/Order/Front.antt =====
-- src/rcorder.c: a call of `do_file` on the first listed file, with its back link to the head.
use peso.Base.{
  ℕ, ◌≤◌, ◌<◌, ◌≡◌, ◌≢◌, ◌⊎◌, inr, refl, Bool, true, List, [], arith, ◌==◌, if◌then◌else◌,
}
use peso.Rcorder.Types.{Str, null, fn_head, State, Warning}
use peso.Rcorder.Hash.{HashTable}
use peso.Rcorder.Order.{St, fail, enter, leave, drop_lists, print_file, unlink_file, mark_head}
use peso.Rcorder.Order.Trace.{
  DoFile, Reqs, Req, Drain, run, end, req, missing, satisfied, circular, drained, stop, more,
}
use peso.Rcorder.Order.Invariant.{
  Inv, DoFile-Inv, Reqs-Inv, Req-Inv, enter-Inv, enter-Later, mark_head-Inv, leave-prov_list,
  Drain-Inv,
}
use peso.Rcorder.Order.Files.{
  Node, Chain, DoFile-Chain, Reqs-Chain, Req-Chain, enter-Chain, mark_head-Chain, mark-value,
  provider,
}

module _ {T : Type 0} where
  -- `d` is linked to the head, and all above it have given up their provisions.
  pub record Front (d : ℕ) (s : State T) : Type 0 where
    pub last : (s.file d).last ≡ fn_head
    pub dropped : (f : ℕ) → d < f → (s.file f).prov_list ≡ []

  -- A file is marked only if it was so before, or has no provisions any more.
  abbrev pub Settles : State T → State T → ℕ → Type 0
  Settles s t g =
      (t.file g).in_progress ≡ true → ((t.file g).prov_list ≡ []) ⊎ ((s.file g).in_progress ≡ true)

  pub enter-Front : (d f : ℕ) (s : State T) → Front d s → Front d (enter f s)
  unfolding enter
  enter-Front d f s r = record {
    last = ground (arith, r.last);
    dropped = λ g l. ground (arith, r.dropped g l);
  }

  leave-last :
      (d f : ℕ) (w : Bool) (s : State T)
      → (s.file f).next ≢ d
      → ((leave f w s).file d).last ≡ (s.file d).last
  unfolding leave drop_lists print_file unlink_file
  leave-last d f w s n = ground arith

  leave-Front :
      (d f : ℕ) (w : Bool) (s : State T)
      → fn_head < f
      → f ≤ d
      → Node s f
      → Chain s
      → Front d s
      → Front d (leave f w s)
  leave-Front d f w s h le n c r = record {
    last = ground (arith, leave-last d f w s, c.next_lt f n, r.last);
    dropped = λ g l. ground (arith, leave-prov_list f w s g, r.dropped g l);
  }

  -- The first file is out of the list at last: the head is linked to its successor.
  pub leave-head :
      (f : ℕ) (w : Bool) (s : State T)
      → fn_head < f
      → (s.file f).next ≢ fn_head
      → (s.file f).last ≡ fn_head
      → ((leave f w s).file fn_head).next ≡ (s.file f).next
  unfolding leave drop_lists print_file unlink_file
  leave-head f w s h n l = ground arith

  pub leave-head_last :
      (f : ℕ) (w : Bool) (s : State T)
      → fn_head < f
      → (s.file f).next ≢ null
      → (s.file f).next ≢ fn_head
      → (s.file f).last ≡ fn_head
      → ((leave f w s).file (s.file f).next).last ≡ fn_head
  unfolding leave drop_lists print_file unlink_file
  leave-head_last f w s h n m l = ground arith

  leave-progress :
      (f : ℕ) (w : Bool) (s : State T) (g : ℕ)
      → ((leave f w s).file g).in_progress ≡ (s.file g).in_progress
  unfolding leave drop_lists print_file unlink_file
  leave-progress f w s g = ground arith

  enter-progress :
      (f : ℕ) (s : State T) (g : ℕ)
      → ((enter f s).file g).in_progress ≡ (if g == f then true else (s.file g).in_progress)
  unfolding enter
  enter-progress f s g = ground arith

module _ (H : HashTable) (own : ℕ → ℕ) where
  open H use {get_value}

  mark_head-Front : (d h : ℕ) (s : St H) → Front d s → Front d (mark_head H h s)
  unfolding mark_head
  mark_head-Front d h s r = record { last = r.last; dropped = r.dropped }

  fail-Front : (d : ℕ) (w : Warning) (s t : St H) → t ≡ fail w s → Front d s → Front d t
  fail-Front d w s t e r = rw e (record { last = r.last; dropped = r.dropped })

  mark_head-progress :
      (h g : ℕ) (s : St H) → ((mark_head H h s).file g).in_progress ≡ (s.file g).in_progress
  unfolding mark_head
  mark_head-progress h g s = refl

  module _ (d : ℕ) where
    mutual
      pub DoFile-Front :
          {f : ℕ} {s t : St H}
          → DoFile H f s t
          → Inv H own s
          → Node s f
          → fn_head < f
          → f ≤ d
          → Chain s
          → Front d s
          → Front d t
      DoFile-Front (run {f} {s} {t} r e) i n h le c q =
          let i' = enter-Inv H own f s i in
          let l = (Reqs-Inv H own r i').1 in
          let c' = enter-Chain f s c in
          rw e (
            leave-Front d f _ t h le (ground (arith, l, enter-Later f s)) (Reqs-Chain H own r i' c')
              (Reqs-Front r i' c' (enter-Front d f s q)))

      pub Reqs-Front :
          {rs : List ℕ} {name : Str} {s t : St H}
          → Reqs H rs name s t
          → Inv H own s
          → Chain s
          → Front d s
          → Front d t
      Reqs-Front (end e) i c q = rw e q
      Reqs-Front (req a b) i c q =
          Reqs-Front b (Req-Inv H own a i).0 (Req-Chain H own a i c) (Req-Front a i c q)

      Req-Front :
          {r : ℕ} {name : Str} {s t : St H}
          → Req H r name s t
          → Inv H own s
          → Chain s
          → Front d s
          → Front d t
      Req-Front (missing {s} {t} z e) i c q = fail-Front d _ s t e q
      Req-Front (satisfied n z e) i c q = rw e q
      Req-Front (circular {s} {t} n m p e) i c q = fail-Front d _ s t e q
      Req-Front (drained {r} {s} n m p k) i c q =
          Drain-Front k r (mark_head-Inv H own _ s i) (mark-value H own r s) n
            (mark_head-Chain H own _ s c) (mark_head-Front d _ s q)

      Drain-Front :
          {h : ℕ} {s t : St H}
          → Drain H h s t
          → (r : ℕ) → Inv H own s
          → h ≡ get_value s.table r
          → h ≢ null
          → Chain s
          → Front d s
          → Front d t
      Drain-Front (stop z e) r i g n c q = rw e q
      Drain-Front (more {h} {s} m x k) r i g n c q =
          let (j, l) = DoFile-Inv H own x i in
          let y = provider H own h s i r g n m in
          let f = (s.prov (s.prov h).next).fnode in
          let node : Node s f = ground (arith, i.filed _ _ y, i.filed_below _ _ y) in
          let le : f ≤ d = ground (arith, q.dropped f) in
          Drain-Front k r j (rw l.table g) n (DoFile-Chain H own x i node (i.filed _ _ y) c)
            (DoFile-Front x i node (i.filed _ _ y) le c q)

  module _ (g : ℕ) where
    mutual
      pub DoFile-Settles : {f : ℕ} {s t : St H} → DoFile H f s t → Inv H own s → Settles s t g
      DoFile-Settles (run {f} {s} {t} r e) i = rw e (
          ground (
            arith,
            Reqs-Settles r (enter-Inv H own f s i),
            leave-progress f (s.file f).in_progress t g,
            leave-prov_list f (s.file f).in_progress t g,
            enter-progress f s g,
          ))

      Reqs-Settles :
          {rs : List ℕ} {name : Str} {s t : St H} → Reqs H rs name s t → Inv H own s → Settles s t g
      Reqs-Settles (end e) i = rw e (λ p. inr p)
      Reqs-Settles (req {s} {t} {u} a b) i =
          let (j, l) = Req-Inv H own a i in
          let m = (Reqs-Inv H own b j).1 in
          ground (arith, Req-Settles a i, Reqs-Settles b j, m.file g)

      Req-Settles :
          {r : ℕ} {name : Str} {s t : St H} → Req H r name s t → Inv H own s → Settles s t g
      Req-Settles (missing {s} {t} z e) i = rw e (λ p. inr p)
      Req-Settles (satisfied n z e) i = rw e (λ p. inr p)
      Req-Settles (circular {s} {t} n m p e) i = rw e (λ p. inr p)
      Req-Settles (drained {r} {s} {t} n m p k) i = ground (
        arith,
        mark_head-progress (get_value s.table r) g s,
        Drain-Settles k (mark_head-Inv H own _ s i),
      )

      Drain-Settles : {h : ℕ} {s t : St H} → Drain H h s t → Inv H own s → Settles s t g
      Drain-Settles (stop z e) i = rw e (λ p. inr p)
      Drain-Settles (more {h} {s} {t} m x k) i =
          let (j, l) = DoFile-Inv H own x i in
          let b = (Drain-Inv H own k j).1 in
          ground (arith, DoFile-Settles x i, Drain-Settles k j, b.file g)
