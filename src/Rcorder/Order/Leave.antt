-- ===== src/Rcorder/Order/Leave.antt =====
-- src/rcorder.c, `do_file`: the order of the output at its start and at its end.
use peso.Base.{
  ℕ, ◌≤◌, ◌<◌, ◌≡◌, ◌≢◌, inl, inr, true, arith, ◌==◌, ◌∈◌, Bool-cases, count, Bool, not, ◌&&◌,
  has-count,
}
use peso.Rcorder.Types.{null}
use peso.Rcorder.Hash.{HashTable}
use peso.Rcorder.Unlink.{unlink_provs-SameProv}
use peso.Rcorder.Order.{St, enter, leave}
use peso.Rcorder.Order.Invariant.{
  Later, Later-trans, enter-Inv, enter-Later, leave-prov_list, leave-Later, leave-Inv, leave-same,
  leave-req_list,
}
use peso.Rcorder.Order.Once.{
  chosen, chosen-Later, leave-output, leave-progress, enter-progress, enter-output,
}
use peso.Rcorder.Order.Drained.{Drained, Drained-Later}
use peso.Rcorder.Order.Quiet.{IsRanked, Needs, Held, SameLists, Quiet, Ran, Done-Later}

module _ (H : HashTable) (own : ℕ → ℕ) (s0 : St H) (rank : ℕ → ℕ)
    (ranked : IsRanked H own s0 rank) where
  open H use {get_value}

  pub enter-Quiet :
      (f : ℕ) (s : St H)
      → Quiet H own s0 rank (rank f) null s
      → Quiet H own s0 rank (rank f) null (enter f s)
  unfolding enter
  enter-Quiet f s q = record {
    inv = enter-Inv H own f s q.inv;
    later = Later-trans s0 s _ q.later (enter-Later f s);
    lists = λ g. elim (q.lists g) [
      | inl d ↦ inl (record { prov_list = ground arith; req_list = ground arith })
      | inr m ↦ inr (ground arith)
    ];
    files = λ g p b.
        let old : (s.file g).in_progress ≡ true = ground arith in
        let d = q.files g old b in
        record { dropped = ground arith; printed = λ c. ground (arith, d.printed c) };
    heads = λ x n p.
        let old : (s.prov x).in_progress ≡ true = ground arith in
        elim (q.heads x n old) [ inl d ↦ inl (λ g y m. d g y (ground arith)) | inr o ↦ inr o ];
    sorted = rw (enter-output f s) q.sorted;
  }

  -- What `f` needs was printed when its requirements have been gone through.
  met :
      (f g : ℕ) (s t : St H)
      → SameLists H own s0 rank s f
      → Later s0 s
      → Quiet H own s0 rank (rank f) null t
      → ((r : ℕ)
          → r ∈ (s.file f).req_list
          → get_value s.table r ≢ null
          → Drained H own t (get_value s.table r))
      → Needs H own s0 f g
      → 0 < count g t.output
  met f g s t same l q d need =
      let r = need.entry in
      let known : get_value s.table r ≢ null = ground (arith, l.table, need.known) in
      let gone = d r (ground (arith, same, need.required)) known in
      elim (q.lists g) [
        | inl kept ↦ absurd (
            gone g need.node (ground (arith, kept, need.provided))
              (ground (arith, l.table, need.same)))
        | inr m ↦
            let lt = ranked f r g need.node need.required need.known need.provided need.same in
            (q.files g m lt).printed need.printed
      ]

  leave-mark :
      (f : ℕ) (w : Bool) (s : St H) (x : ℕ)
      → ((leave f w s).prov x).in_progress ≡ (s.prov x).in_progress
  leave-mark f w s x =
      rw (leave-same f w s).prov (unlink_provs-SameProv (s.file f).prov_list s.prov x).progress

  enter-mark :
      (f : ℕ) (s : St H) (x : ℕ) → ((enter f s).prov x).in_progress ≡ (s.prov x).in_progress
  unfolding enter
  enter-mark f s x = ground arith

  pub leave-Ran :
      (f : ℕ) (s t : St H)
      → Quiet H own s0 rank (rank f) null s
      → Quiet H own s0 rank (rank f) null t
      → Ran H own s0 rank (enter f s) t
      → ((r : ℕ)
          → r ∈ (s.file f).req_list
          → get_value s.table r ≢ null
          → Drained H own t (get_value s.table r))
      → Ran H own s0 rank s (leave f (s.file f).in_progress t)
  leave-Ran f s t q q' r d =
      let w = (s.file f).in_progress in
      let u = leave f w t in
      let out = leave-output f w t in
      let marked : (t.file f).in_progress ≡ true =
        ground (arith, r.later.file f, enter-progress f s f) in
      let grow =
        λ (g : ℕ). let le : count g t.output ≤ count g u.output = ground (arith, out) in le in
      record {
        inv = leave-Inv H own f w t r.inv;
        later = Later-trans s _ u (enter-Later f s) (Later-trans _ t u r.later (leave-Later f w t));
        grows = λ g. ground (arith, r.grows g, enter-output f s, grow g);
        lists = λ g. elim (q'.lists g) [
          | inl l ↦ elim (Bool-cases (g == f)) [
            | inl e ↦ inr (ground (arith, leave-progress f w t g))
            | inr e ↦ inl (record {
              prov_list = ground (arith, leave-prov_list f w t g, l);
              req_list = ground (arith, leave-req_list f w t g, l);
            })
          ]
          | inr m ↦ inr (ground (arith, leave-progress f w t g))
        ];
        files = λ g p.
            let m : (t.file g).in_progress ≡ true = ground (arith, leave-progress f w t g) in
            elim (Bool-cases (g == f)) [
              | inl e ↦ elim (Bool-cases w) [
                | inl old ↦ inr (ground arith)
                | inr new ↦ inl (record {
                  dropped = ground (arith, leave-prov_list f w t g);
                  printed = λ c. ground (arith, out, chosen-Later s0 t q'.later f);
                })
              ]
              | inr e ↦ elim (r.files g m) [
                | inl x ↦ inl (Done-Later H own s0 rank t u g (leave-Later f w t) (grow g) x)
                | inr o ↦ inr (ground (arith, enter-progress f s g))
              ]
            ];
        heads = λ x n p. elim (r.heads x n (ground (arith, leave-mark f w t x))) [
          | inl o ↦ inl (Drained-Later H own t u (leave-Later f w t) x o)
          | inr o ↦ inr (ground (arith, enter-mark f s x))
        ];
        sorted = elim (Bool-cases (not w && chosen t f)) [
          | inl e ↦ elim (q.lists f) [
            | inl same ↦
                rw (out, e)
                  (λ g need. has-count g t.output (met f g s t same q.later q' d need), r.sorted)
            | inr old ↦ absurd (ground arith)
          ]
          | inr e ↦ rw (out, e) r.sorted
        ];
      }

  -- The call for a provider H own s0 rank ranked: its own rank is the new bound, and it holds the head.
  pub lower :
      (k k' e : ℕ) (s : St H)
      → Quiet H own s0 rank k e s
      → k' < k
      → Held H own s0 rank k' e
      → Quiet H own s0 rank k' null s
  lower k k' e s q l h = record {
    inv = q.inv;
    later = q.later;
    lists = q.lists;
    files = λ g p b. q.files g p (omega arith);
    heads = λ x n p. elim (q.heads x n p) [
      | inl d ↦ inl d
      | inr (inl o) ↦ inr (
          inl (record {
            file = o.file;
            node = o.node;
            provided = o.provided;
            same = o.same;
            high = omega (arith, o.high);
          }))
      | inr (inr y) ↦ inr (inl (rw y h))
    ];
    sorted = q.sorted;
  }
