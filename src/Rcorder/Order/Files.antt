-- ===== src/Rcorder/Order/Files.antt =====
-- src/rcorder.c: the doubly linked list of the files. `do_file` unlinks a file that is already
-- out of the list, with links that are out of date, whenever it is called on it twice.
use peso.Base.{ℕ, ◌≤◌, ◌<◌, ◌≡◌, ◌≢◌, refl, Bool, true, List, arith, ◌==◌, if◌then◌else◌, ◌∈◌}
use peso.Rcorder.Types.{Str, null, fn_head, State, Warning}
use peso.Rcorder.Hash.{HashTable}
use peso.Rcorder.Order.{St, fail, enter, leave, drop_lists, print_file, unlink_file, mark_head}
use peso.Rcorder.Order.Trace.{
  DoFile, Reqs, Req, Drain, run, end, req, missing, satisfied, circular, drained, stop, more,
}
use peso.Rcorder.Order.Invariant.{
  Inv, DoFile-Inv, Reqs-Inv, Req-Inv, enter-Inv, enter-Later, mark_head-Inv,
}

module _ {T : Type 0} where
  -- Files are linked from high addresses to low ones; the head stands above all.
  abbrev pub place : State T → ℕ → ℕ
  place s x = if x == fn_head then s.next_file else x

  pub record Node (s : State T) (x : ℕ) : Type 0 where
    pub low : fn_head ≤ x
    pub below : x < s.next_file

  pub record Between (s : State T) (lo hi z : ℕ) : Type 0 where
    pub file : fn_head < z
    pub above : lo < z
    pub under : z < hi

  pub record Chain (s : State T) : Type 0 where
    pub next_lt : (x : ℕ) → Node s x → (s.file x).next < place s x
    pub next_ne : (x : ℕ) → Node s x → (s.file x).next ≢ fn_head
    pub next_gap :
        (x z : ℕ)
        → Node s x
        → Between s (s.file x).next (place s x) z
        → (s.file z).in_progress ≡ true
    pub last_Node : (y : ℕ) → Node s y → fn_head < y → Node s (s.file y).last
    pub last_lt : (y : ℕ) → Node s y → fn_head < y → y < place s (s.file y).last
    pub last_gap :
        (y z : ℕ)
        → Node s y
        → fn_head < y
        → Between s y (place s (s.file y).last) z
        → (s.file z).in_progress ≡ true

  -- Only marks were set.
  pub record SameLinks (s t : State T) : Type 0 where
    pub next_file : t.next_file ≡ s.next_file
    pub next : (x : ℕ) → (t.file x).next ≡ (s.file x).next
    pub last : (x : ℕ) → (t.file x).last ≡ (s.file x).last
    pub progress : (x : ℕ) → (s.file x).in_progress ≡ true → (t.file x).in_progress ≡ true

  pub SameLinks-Chain : (s t : State T) → SameLinks s t → Chain s → Chain t
  SameLinks-Chain s t e c = record {
    next_lt = λ x n. ground (arith, e.next_file, e.next x, c.next_lt x);
    next_ne = λ x n. ground (arith, e.next_file, e.next x, c.next_ne x);
    next_gap = λ x z n b. ground (arith, e.next_file, e.next x, e.progress z, c.next_gap x z);
    last_Node = λ y n f. ground (arith, e.next_file, e.last y, c.last_Node y);
    last_lt = λ y n f. ground (arith, e.next_file, e.last y, c.last_lt y);
    last_gap = λ y z n f b. ground (arith, e.next_file, e.last y, e.progress z, c.last_gap y z);
  }

  unlink_file-Chain :
      (f : ℕ) (s : State T)
      → Node s f
      → fn_head < f
      → (s.file f).in_progress ≡ true
      → Chain s
      → Chain (unlink_file f s)
  unfolding unlink_file
  unlink_file-Chain f s n h p c =
      let ln = c.last_Node f n h in
      let ll = c.last_lt f n h in
      let nl = c.next_lt f n in
      let nn = c.next_ne f n in
      record {
        next_lt = λ x m. ground (arith, c.next_lt x);
        next_ne = λ x m. ground (arith, c.next_ne x);
        next_gap = λ x z m b. ground (arith, c.next_gap x z, c.next_gap f z, c.last_gap f z);
        last_Node = λ y m k. ground (arith, c.last_Node y);
        last_lt = λ y m k. ground (arith, c.last_lt y);
        last_gap = λ y z m k b. ground (arith, c.last_gap y z, c.next_gap f z, c.last_gap f z);
      }

  enter-SameLinks : (f : ℕ) (s : State T) → SameLinks s (enter f s)
  unfolding enter
  enter-SameLinks f s = record {
    next_file = ground arith;
    next = λ x. ground arith;
    last = λ x. ground arith;
    progress = λ x p. ground arith;
  }

  drop_lists-SameLinks : (f : ℕ) (s : State T) → SameLinks s (drop_lists f s)
  unfolding drop_lists
  drop_lists-SameLinks f s = record {
    next_file = refl;
    next = λ x. ground arith;
    last = λ x. ground arith;
    progress = λ x p. ground arith;
  }

  print_file-SameLinks : (f : ℕ) (w : Bool) (s : State T) → SameLinks s (print_file f w s)
  unfolding print_file
  print_file-SameLinks f w s = record {
    next_file = ground arith;
    next = λ x. ground arith;
    last = λ x. ground arith;
    progress = λ x p. ground arith;
  }

  leave-Chain :
      (f : ℕ) (w : Bool) (s : State T)
      → Node s f
      → fn_head < f
      → (s.file f).in_progress ≡ true
      → Chain s
      → Chain (leave f w s)
  unfolding leave
  leave-Chain f w s n h p c =
      let a = drop_lists-SameLinks f s in
      let b = print_file-SameLinks f w (drop_lists f s) in
      let t = print_file f w (drop_lists f s) in
      unlink_file-Chain f t (ground (arith, a, b)) h (b.progress f (a.progress f p))
        (SameLinks-Chain _ t b (SameLinks-Chain s _ a c))

  enter-progress : (f : ℕ) (s : State T) → ((enter f s).file f).in_progress ≡ true
  unfolding enter
  enter-progress f s = ground arith

  pub enter-Chain : (f : ℕ) (s : State T) → Chain s → Chain (enter f s)
  enter-Chain f s c = SameLinks-Chain s _ (enter-SameLinks f s) c

  fail-Chain : (w : Warning) (s t : State T) → t ≡ fail w s → Chain s → Chain t
  fail-Chain w s t e c = rw e (SameLinks-Chain s (fail w s) (ground arith) c)

module _ (H : HashTable) (own : ℕ → ℕ) where
  open H use {get_value}

  pub mark_head-Chain : (h : ℕ) (s : St H) → Chain s → Chain (mark_head H h s)
  unfolding mark_head
  mark_head-Chain h s c = SameLinks-Chain s _ (ground arith) c

  pub mark-value :
      (r : ℕ) (s : St H)
      → get_value s.table r ≡ get_value (mark_head H (get_value s.table r) s).table r
  unfolding mark_head
  mark-value r s = refl

  -- the file that a round of the loop in `satisfy_req` is about
  pub provider :
      (h : ℕ) (s : St H)
      → Inv H own s
      → (r : ℕ) → h ≡ get_value s.table r
      → h ≢ null
      → (s.prov h).next ≢ null
      → (s.prov h).next ∈ (s.file (s.prov (s.prov h).next).fnode).prov_list
  provider h s i r e n m =
      let fw = i.linked.fwd h (ground (arith, i.value-Live r)) m in
      i.linked.listed (s.prov h).next fw.live fw.inner

  mutual
    pub DoFile-Chain :
        {f : ℕ} {s t : St H}
        → DoFile H f s t
        → Inv H own s
        → Node s f
        → fn_head < f
        → Chain s
        → Chain t
    DoFile-Chain (run {f} {s} {t} r e) i n h c =
        let l = (Reqs-Inv H own r (enter-Inv H own f s i)).1 in
        let d =
          Reqs-Chain r (enter-Inv H own f s i) (SameLinks-Chain s _ (enter-SameLinks f s) c) in
        rw e (
          leave-Chain f _ t (ground (arith, l, enter-Later f s)) h
            ((l.file f).progress (enter-progress f s)) d)

    pub Reqs-Chain :
        {rs : List ℕ} {name : Str} {s t : St H}
        → Reqs H rs name s t
        → Inv H own s
        → Chain s
        → Chain t
    Reqs-Chain (end e) i c = rw e c
    Reqs-Chain (req a b) i c = Reqs-Chain b (Req-Inv H own a i).0 (Req-Chain a i c)

    pub Req-Chain :
        {r : ℕ} {name : Str} {s t : St H} → Req H r name s t → Inv H own s → Chain s → Chain t
    Req-Chain (missing {s} {t} z e) i c = fail-Chain _ s t e c
    Req-Chain (satisfied n z e) i c = rw e c
    Req-Chain (circular {s} {t} n m p e) i c = fail-Chain _ s t e c
    Req-Chain (drained {r} {s} n m p d) i c =
        Drain-Chain d r (mark_head-Inv H own _ s i) (mark-value r s) n (mark_head-Chain _ s c)

    Drain-Chain :
        {h : ℕ} {s t : St H}
        → Drain H h s t
        → (r : ℕ) → Inv H own s
        → h ≡ get_value s.table r
        → h ≢ null
        → Chain s
        → Chain t
    Drain-Chain (stop z e) r i g n c = rw e c
    Drain-Chain (more {h} {s} m d k) r i g n c =
        let (j, l) = DoFile-Inv H own d i in
        let y = provider h s i r g n m in
        Drain-Chain k r j (rw l.table g) n
          (DoFile-Chain d i (ground (arith, i.filed _ _ y, i.filed_below _ _ y)) (i.filed _ _ y) c)
