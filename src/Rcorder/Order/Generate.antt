-- ===== src/Rcorder/Order/Generate.antt =====
-- src/rcorder.c, `generate_ordering`: the loop over the first listed file.
use peso.Base.{
  ℕ, zero, suc, ◌+◌, ◌<◌, ◌≡◌, ◌≢◌, inl, inr, refl, true, false, [], some, arith, ◌==◌,
  if◌then◌else◌, Bool-cases, count, nil-or-has,
}
use peso.Rcorder.Types.{null, fn_head}
use peso.Rcorder.Hash.{HashTable}
use peso.Rcorder.Order.{St, generate_ordering}
use peso.Rcorder.Order.Trace.{DoFile, run, do_file-DoFile}
use peso.Rcorder.Order.Invariant.{
  Inv, Later, Later-refl, Later-trans, DoFile-Inv, Reqs-Inv, enter-Inv, enter-Later,
}
use peso.Rcorder.Order.Terminates.{unmarked, listed, unmarked_mono, listed_mono, do_file_ends}
use peso.Rcorder.Order.Once.{chosen, Prints, DoFile-Prints, chosen-Later}
use peso.Rcorder.Order.Files.{Node, Chain, DoFile-Chain, Reqs-Chain, enter-Chain}
use peso.Rcorder.Order.Front.{
  Front, Reqs-Front, enter-Front, leave-head, leave-head_last, DoFile-Settles,
}

module _ (H : HashTable) (own : ℕ → ℕ) where
  -- Between two calls no file is being worked on.
  pub record Ready (s : St H) : Type 0 where
    pub inv : Inv H own s
    pub chain : Chain s
    pub settled : (f : ℕ) → (s.file f).in_progress ≡ true → (s.file f).prov_list ≡ []
    pub first : (s.file fn_head).next ≢ null → (s.file (s.file fn_head).next).last ≡ fn_head
    pub sized : fn_head < s.next_file

  first-Front : (s : St H) → Ready s → (s.file fn_head).next ≢ null → Front (s.file fn_head).next s
  first-Front s r n = record {
    last = r.first n;
    dropped = λ f l. elim (nil-or-has (s.file f).prov_list) [
      | inl e ↦ e
      | inr (y, m) ↦ r.settled f (
          r.chain.next_gap fn_head f (ground arith)
            (ground (arith, r.inv.filed_below f y m, r.inv.filed f y m)))
    ];
  }

  record Round (d : ℕ) (s t : St H) : Type 0 where
    ready : Ready t
    falls : (t.file fn_head).next < d
    later : Later s t
    prints : (g : ℕ) → Prints s t g

  round :
      {s t : St H} (d : ℕ)
      → d ≡ (s.file fn_head).next
      → d ≢ null
      → Ready s
      → DoFile H d s t
      → Round d s t
  round d g n r (run {f} {s} {t} {u} q e) =
      let i = enter-Inv H own f s r.inv in
      let (j, l) = Reqs-Inv H own q i in
      let front : Front f s = rw g (first-Front s r (rw (← g) n)) in
      let c = enter-Chain f s r.chain in
      let node : Node s fn_head = ground (arith, r.sized) in
      let h : fn_head < f = ground (arith, r.chain.next_ne fn_head node) in
      let at : Node s f = ground (arith, r.chain.next_lt fn_head node) in
      let there : Node t f = ground (arith, l, enter-Later f s) in
      let before : Front f t = Reqs-Front H own f q i c (enter-Front f f s front) in
      let after : Chain t = Reqs-Chain H own q i c in
      let head = leave-head f (s.file f).in_progress t h (after.next_ne f there) before.last in
      let (inv, later) = DoFile-Inv H own (run q e) r.inv in
      record {
        ready = record {
          inv = inv;
          chain = DoFile-Chain H own (run q e) r.inv at h r.chain;
          settled = λ x p.
              ground (arith, DoFile-Settles H own x (run q e) r.inv, r.settled x, later.file x);
          first = λ m. rw e (
              rw head (
                leave-head_last f (s.file f).in_progress t h (ground arith) (after.next_ne f there)
                  before.last));
          sized = ground (arith, later, r.sized);
        };
        falls = ground (arith, after.next_lt f there);
        later = later;
        prints = λ x. DoFile-Prints H own x (run q e) r.inv;
      }

  -- The end of the loop.
  pub record Finished (s t : St H) : Type 0 where
    pub ready : Ready t
    pub empty : (t.file fn_head).next ≡ null
    pub later : Later s t
    pub prints : (g : ℕ) → Prints s t g

  pub generate_ends :
      (k n : ℕ) (s : St H)
      → Ready s
      → (s.file fn_head).next < k
      → unmarked s + listed s < n
      → (t : St H) × (generate_ordering H k n s ≡ some t) × Finished s t
  unfolding generate_ordering
  generate_ends zero n s r b w = absurd (omega arith)
  generate_ends (suc k) n s r b w = elim (Bool-cases ((s.file fn_head).next == null)) [
    | inl z ↦ (
      s,
      ground arith,
      record { ready = r; empty = ground arith; later = Later-refl s s refl; prints = λ g. refl },
    )
    | inr nz ↦
        let d = (s.file fn_head).next in
        let (t, e) = do_file_ends H own n d s r.inv w in
        let o = round d refl (ground arith) r (do_file-DoFile H n d s t e) in
        let (u, e', f) =
          generate_ends k n t o.ready (omega (arith, o.falls))
            (omega (arith, unmarked_mono s t o.later, listed_mono s t o.later)) in
        (
          u,
          ground arith,
          record {
            ready = f.ready;
            empty = f.empty;
            later = Later-trans s t u o.later f.later;
            prints = λ g. omega (arith, o.prints g, f.prints g);
          },
        )
  ]

  -- Nothing was done yet.
  pub record Fresh (s : St H) : Type 0 where
    pub ready : Ready s
    pub idle : (f : ℕ) → (s.file f).in_progress ≡ false
    pub unmarked : (x : ℕ) → (s.prov x).in_progress ≡ false
    pub silent : s.output ≡ []

  -- From a state with well-formed lists in which nothing was done, circular or not:
  -- `generate_ordering` returns with the fuel that is named, and prints each file node once
  -- if the keyword lists let it through, and else never.
  pub generate_prints_once :
      (s : St H)
      → Fresh s
      → (t : St H) × (generate_ordering H
            (suc (s.file fn_head).next)
            (suc (unmarked s + listed s))
            s
          ≡ some t)
        × ((f : ℕ)
            → fn_head < f
            → f < s.next_file
            → count f t.output ≡ (if chosen s f then 1 else 0))
  generate_prints_once s r =
      let (t, e, f) =
        generate_ends (suc (s.file fn_head).next) (suc (unmarked s + listed s)) s r.ready
          (omega arith) (omega arith) in
      (
        t,
        e,
        λ x h b. ground (
          arith,
          f.prints x,
          r.idle x,
          r.silent,
          chosen-Later s t f.later x,
          f.empty,
          f.later.next_file,
          f.ready.chain.next_gap fn_head x (ground (arith, f.ready.sized))
              (ground (arith, f.empty, f.later.next_file)),
        ),
      )
