-- ===== src/Rcorder/Order/Invariant.antt =====
-- src/rcorder.c: the invariant of the traversal, on the lists of providers and the marks.
use peso.Base.{
  ℕ, ◌<◌, ◌≡◌, ◌≢◌, ◌⊎◌, inl, inr, refl, Bool, true, List, [], arith, ◌==◌, if◌then◌else◌, ◌∈◌,
  Bool-cases, subst, sym,
}
use peso.Rcorder.Types.{Str, null, fn_head, FileNode, State, Warning}
use peso.Rcorder.Hash.{HashTable}
use peso.Rcorder.Unlink.{
  Live, Linked, Linked-cong, unlink_provs, unlink_provs-Linked, unlink_provs-SameProv,
  unlink_provs-freed, mark-Linked,
}
use peso.Rcorder.Order.{St, fail, enter, drop_lists, print_file, unlink_file, leave, mark_head}
use peso.Rcorder.Order.Trace.{
  DoFile, Reqs, Req, Drain, run, end, req, missing, satisfied, circular, drained, stop, more,
}

-- A file node after some calls: only the links may differ, the mark may be set, and the lists may
-- be dropped.
pub record LaterFile (a b : FileNode) : Type 0 where
  pub filename : b.filename ≡ a.filename
  pub keyword_list : b.keyword_list ≡ a.keyword_list
  pub progress : a.in_progress ≡ true → b.in_progress ≡ true
  pub prov_list : (b.prov_list ≡ a.prov_list) ⊎ (b.prov_list ≡ [])
  pub req_list : (b.req_list ≡ a.req_list) ⊎ (b.req_list ≡ [])

pub record LaterProv (a b : Bool) (c d : Bool) (e f : ℕ) : Type 0 where
  pub progress : a ≡ true → b ≡ true
  pub head : d ≡ c
  pub fnode : f ≡ e

module _ {T : Type 0} where
  pub record Later (s t : State T) : Type 0 where
    pub table : t.table ≡ s.table
    pub next_prov : t.next_prov ≡ s.next_prov
    pub next_file : t.next_file ≡ s.next_file
    pub keep_list : t.keep_list ≡ s.keep_list
    pub skip_list : t.skip_list ≡ s.skip_list
    pub file : (f : ℕ) → LaterFile (s.file f) (t.file f)
    pub prov :
        (x : ℕ)
        → LaterProv
            (s.prov x).in_progress
            (t.prov x).in_progress
            (s.prov x).head
            (t.prov x).head
            (s.prov x).fnode
            (t.prov x).fnode

  pub Later-refl : (s t : State T) → t ≡ s → Later s t
  Later-refl s t e = record {
    table = ground arith;
    next_prov = ground arith;
    next_file = ground arith;
    keep_list = ground arith;
    skip_list = ground arith;
    file = λ f. ground arith;
    prov = λ x. ground arith;
  }

  pub Later-trans : (s t u : State T) → Later s t → Later t u → Later s u
  Later-trans s t u a b = record {
    table = ground arith;
    next_prov = ground arith;
    next_file = ground arith;
    keep_list = ground arith;
    skip_list = ground arith;
    file = λ f. ground (arith, a.file f, b.file f);
    prov = λ x. ground (arith, a.prov x, b.prov x);
  }

  pub fail-Later : (w : Warning) (s t : State T) → t ≡ fail w s → Later s t
  fail-Later w s t e = record {
    table = ground arith;
    next_prov = ground arith;
    next_file = ground arith;
    keep_list = ground arith;
    skip_list = ground arith;
    file = λ f. ground arith;
    prov = λ x. ground arith;
  }

  pub enter-Later : (f : ℕ) (s : State T) → Later s (enter f s)
  unfolding enter
  enter-Later f s = record {
    table = ground arith;
    next_prov = ground arith;
    next_file = ground arith;
    keep_list = ground arith;
    skip_list = ground arith;
    file = λ g. ground arith;
    prov = λ x. ground arith;
  }

  pub leave-Later : (f : ℕ) (w : Bool) (s : State T) → Later s (leave f w s)
  unfolding leave drop_lists print_file unlink_file
  leave-Later f w s = record {
    table = ground arith;
    next_prov = ground arith;
    next_file = ground arith;
    keep_list = ground arith;
    skip_list = ground arith;
    file = λ g. ground arith;
    prov = λ x. ground (arith, unlink_provs-SameProv (s.file f).prov_list s.prov x);
  }

  -- `leave` has dropped the file's own provisions and left all other lists alone.
  pub leave-prov_list :
      (f : ℕ) (w : Bool) (s : State T) (g : ℕ)
      → ((leave f w s).file g).prov_list ≡ (if g == f then [] else (s.file g).prov_list)
  unfolding leave drop_lists print_file unlink_file
  leave-prov_list f w s g = ground arith

  pub leave-req_list :
      (f : ℕ) (w : Bool) (s : State T) (g : ℕ)
      → ((leave f w s).file g).req_list ≡ (if g == f then [] else (s.file g).req_list)
  unfolding leave drop_lists print_file unlink_file
  leave-req_list f w s g = ground arith

  pub record Left (f : ℕ) (s t : State T) : Type 0 where
    pub prov : t.prov ≡ unlink_provs (s.file f).prov_list s.prov
    pub table : t.table ≡ s.table
    pub next_prov : t.next_prov ≡ s.next_prov
    pub next_file : t.next_file ≡ s.next_file

  pub leave-same : (f : ℕ) (w : Bool) (s : State T) → Left f s (leave f w s)
  unfolding leave drop_lists print_file unlink_file
  leave-same f w s = record {
    prov = ground arith;
    table = ground arith;
    next_prov = ground arith;
    next_file = ground arith;
  }

module _ (H : HashTable) (own : ℕ → ℕ) where
  open H use {get_value}

  pub record Inv (s : St H) : Type 0 where
    pub linked : Linked s.next_prov own s.prov (λ f. (s.file f).prov_list)
    pub value-Live :
        (e : ℕ) → get_value s.table e ≢ null → Live s.next_prov s.prov (get_value s.table e)
    pub value-head :
        (e : ℕ) → get_value s.table e ≢ null → (s.prov (get_value s.table e)).head ≡ true
    pub filed : (f y : ℕ) → y ∈ (s.file f).prov_list → fn_head < f
    pub filed_below : (f y : ℕ) → y ∈ (s.file f).prov_list → f < s.next_file

  pub fail-Inv : (w : Warning) (s t : St H) → t ≡ fail w s → Inv s → Inv t
  fail-Inv w s t e i = subst Inv (sym e) (record {
    linked = i.linked;
    value-Live = i.value-Live;
    value-head = i.value-head;
    filed = i.filed;
    filed_below = i.filed_below;
  })

  pub enter-Inv : (f : ℕ) (s : St H) → Inv s → Inv (enter f s)
  unfolding enter
  enter-Inv f s i = record {
    linked = elim (Bool-cases (s.file f).in_progress) [
      | inl e ↦ rw e (Linked-cong s.prov (λ g. (s.file g).prov_list) _ i.linked (λ g. ground arith))
      | inr e ↦ rw e (Linked-cong s.prov (λ g. (s.file g).prov_list) _ i.linked (λ g. ground arith))
    ];
    value-Live = λ e n. ground (arith, i.value-Live e);
    value-head = λ e n. ground (arith, i.value-head e);
    filed = λ g y m. ground (arith, i.filed g y);
    filed_below = λ g y m. ground (arith, i.filed_below g y);
  }

  pub leave-Inv : (f : ℕ) (w : Bool) (s : St H) → Inv s → Inv (leave f w s)
  leave-Inv f w s i =
      let ps = (s.file f).prov_list in
      record {
        linked = rw (leave-same f w s).prov (
            rw (leave-same f w s).next_prov (
              Linked-cong _ _ _
                (unlink_provs-Linked ps s.prov (λ g. (s.file g).prov_list) f i.linked refl)
                (λ g. sym (leave-prov_list f w s g))));
        value-Live = λ e n. ground (
          arith,
          leave-same f w s,
          i.value-Live e,
          i.value-head e,
          unlink_provs-freed ps s.prov (get_value s.table e) (λ y m. i.linked.inner f y m),
        );
        value-head = λ e n. ground (
          arith,
          leave-same f w s,
          i.value-head e,
          unlink_provs-SameProv ps s.prov (get_value s.table e),
        );
        filed = λ g y m. ground (arith, i.filed g y, leave-prov_list f w s g);
        filed_below =
            λ g y m. ground (arith, i.filed_below g y, leave-prov_list f w s g, leave-same f w s);
      }

  pub mark_head-Inv : (h : ℕ) (s : St H) → Inv s → Inv (mark_head H h s)
  unfolding mark_head
  mark_head-Inv h s i = record {
    linked = mark-Linked h s.prov _ i.linked;
    value-Live = λ e n. ground (arith, i.value-Live e);
    value-head = λ e n. ground (arith, i.value-head e);
    filed = i.filed;
    filed_below = i.filed_below;
  }

  pub mark_head-Later : (h : ℕ) (s : St H) → Later s (mark_head H h s)
  unfolding mark_head
  mark_head-Later h s = record {
    table = refl;
    next_prov = refl;
    next_file = refl;
    keep_list = refl;
    skip_list = refl;
    file = λ f. ground arith;
    prov = λ x. ground arith;
  }

  -- Along every run the invariant stays, and marks and dropped lists stay as they are.
  mutual
    pub DoFile-Inv : {f : ℕ} {s t : St H} → DoFile H f s t → Inv s → Inv t × Later s t
    DoFile-Inv (run {f} {s} {t} r e) i =
        let (j, l) = Reqs-Inv r (enter-Inv f s i) in
        rw e (
          leave-Inv f _ t j,
          Later-trans _ _ _ (enter-Later f s) (Later-trans _ _ _ l (leave-Later f _ t)),
        )

    pub Reqs-Inv :
        {rs : List ℕ} {name : Str} {s t : St H} → Reqs H rs name s t → Inv s → Inv t × Later s t
    Reqs-Inv (end {s} {t} e) i = (rw e i, Later-refl s t e)
    Reqs-Inv (req a b) i =
        let (j, l) = Req-Inv a i in let (k, m) = Reqs-Inv b j in (k, Later-trans _ _ _ l m)

    pub Req-Inv : {r : ℕ} {name : Str} {s t : St H} → Req H r name s t → Inv s → Inv t × Later s t
    Req-Inv (missing {s} {t} z e) i = (fail-Inv _ s t e i, fail-Later _ s t e)
    Req-Inv (satisfied {s} {t} n z e) i = (rw e i, Later-refl s t e)
    Req-Inv (circular {s} {t} n m p e) i = (fail-Inv _ s t e i, fail-Later _ s t e)
    Req-Inv (drained {s} n m p d) i =
        let (j, l) = Drain-Inv d (mark_head-Inv _ s i) in
        (j, Later-trans _ _ _ (mark_head-Later _ s) l)

    pub Drain-Inv : {h : ℕ} {s t : St H} → Drain H h s t → Inv s → Inv t × Later s t
    Drain-Inv (stop {s} {t} z e) i = (rw e i, Later-refl s t e)
    Drain-Inv (more n c d) i =
        let (j, l) = DoFile-Inv c i in let (k, m) = Drain-Inv d j in (k, Later-trans _ _ _ l m)
