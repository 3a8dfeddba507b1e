-- ===== src/Rcorder/Order/Provider.antt =====
-- src/rcorder.c, `satisfy_req`: the provider that a round of its loop works on.
use peso.Base.{ℕ, ◌<◌, ◌≡◌, ◌≢◌, inl, inr, refl, true, false, arith, ◌==◌, ◌∈◌, Bool-cases}
use peso.Rcorder.Types.{null}
use peso.Rcorder.Hash.{HashTable}
use peso.Rcorder.Order.{St, mark_head}
use peso.Rcorder.Order.Invariant.{Later-trans, mark_head-Inv, mark_head-Later}
use peso.Rcorder.Order.Drained.{Drained}
use peso.Rcorder.Order.Quiet.{IsRanked, Quiet, Ran}

module _ (H : HashTable) (own : ℕ → ℕ) (s0 : St H) (rank : ℕ → ℕ)
    (ranked : IsRanked H own s0 rank) where
  open H use {get_value}

  -- A head that is not empty is held by a provider, and that one has a smaller rank.
  module _ (f r : ℕ) (s : St H) (e : ℕ) (q : Quiet H own s0 rank (rank f) e s)
      (asked : r ∈ (s0.file f).req_list) (n : get_value s.table r ≢ null)
      (m : (s.prov (get_value s.table r)).next ≢ null) where
    pub record Provider : Type 0 where
      pub node : ℕ
      pub file : ℕ
      pub is_next : node ≡ (s.prov (get_value s.table r)).next
      pub is_file : file ≡ (s.prov node).fnode
      pub now : node ∈ (s.file file).prov_list
      pub before : node ∈ (s0.file file).prov_list
      pub same : own node ≡ get_value s.table r
      pub smaller : rank file < rank f

    pub provider : Provider
    provider =
        let i = q.inv in
        let h = get_value s.table r in
        let l = i.value-Live r n in
        let fw = i.linked.fwd h l m in
        let y = (s.prov h).next in
        let g = (s.prov y).fnode in
        let now : y ∈ (s.file g).prov_list = i.linked.listed y fw.live fw.inner in
        let before : y ∈ (s0.file g).prov_list = ground (arith, q.later.file g) in
        let same : own y ≡ h = ground (arith, i.linked.heads h l (i.value-head r n)) in
        record {
          node = y;
          file = g;
          is_next = refl;
          is_file = refl;
          now = now;
          before = before;
          same = same;
          smaller =
              ranked f r g y asked (ground (arith, q.later.table)) before
                (ground (arith, q.later.table));
        }

    pub not_circular : e ≡ null → (s.prov (get_value s.table r)).in_progress ≡ true → ⊥
    not_circular z p = elim (q.heads (get_value s.table r) n p) [
      | inl d ↦ d provider.file provider.node provider.now provider.same
      | inr (inl h) ↦ omega (
        arith,
        ranked f r h.file h.node asked (ground (arith, q.later.table)) h.provided
            (ground (arith, q.later.table, h.same)),
        h.high,
      )
      | inr (inr h) ↦ n (ground arith)
    ]

  pub mark_head-Ran :
      (k h : ℕ) (s : St H)
      → Quiet H own s0 rank k null s
      → Quiet H own s0 rank k h (mark_head H h s)
  unfolding mark_head
  mark_head-Ran k h s q = record {
    inv = mark_head-Inv H own h s q.inv;
    later = Later-trans s0 s _ q.later (mark_head-Later H own h s);
    lists = λ g. elim (q.lists g) [
      | inl d ↦ inl (record { prov_list = d.prov_list; req_list = d.req_list })
      | inr m ↦ inr m
    ];
    files =
        λ g p b. record { dropped = (q.files g p b).dropped; printed = (q.files g p b).printed };
    heads = λ x n p. elim (Bool-cases (x == h)) [
      | inl e ↦ inr (inr (ground arith))
      | inr ne ↦ elim (q.heads x n (ground arith)) [
        | inl d ↦ inl d
        | inr (inl o) ↦ inr (inl o)
        | inr (inr z) ↦ absurd (n z)
      ]
    ];
    sorted = q.sorted;
  }

  -- Marking a head for a file of rank `k`, and what the loop over it leaves.
  pub mark_head-back :
      (k h : ℕ) (s t : St H)
      → Quiet H own s0 rank k null s
      → (s.prov h).in_progress ≡ false
      → Ran H own s0 rank (mark_head H h s) t
      → Drained H own t h
      → Ran H own s0 rank s t
  unfolding mark_head
  mark_head-back k h s t q np r d = record {
    inv = r.inv;
    later = Later-trans s _ t (mark_head-Later H own h s) r.later;
    grows = r.grows;
    lists = r.lists;
    files = r.files;
    heads = λ x n p. elim (Bool-cases (x == h)) [
      | inl e ↦ inl (λ g y m. ground (arith, d g y m))
      | inr ne ↦ elim (r.heads x n p) [ inl u ↦ inl u | inr o ↦ inr (ground arith) ]
    ];
    sorted = r.sorted;
  }
