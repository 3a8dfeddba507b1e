-- ===== src/Rcorder/Order/Sorted.antt =====
-- src/rcorder.c, `generate_ordering`: the order of the output.
use peso.Base.{
  ℕ, zero, suc, ◌+◌, ◌<◌, ◌≡◌, ◌≢◌, ◌⊎◌, inl, inr, refl, true, List, arith, ◌==◌, ◌∈◌, Bool-cases,
  some, Option-cases,
}
use peso.Rcorder.Types.{Str, null, fn_head}
use peso.Rcorder.Hash.{HashTable}
use peso.Rcorder.Order.{St, do_file, generate_ordering}
use peso.Rcorder.Order.Trace.{
  DoFile, Reqs, Req, Drain, run, end, req, missing, satisfied, circular, drained, stop, more,
  do_file-DoFile,
}
use peso.Rcorder.Order.Invariant.{Inv, Later, Later-trans, enter-Later, Later-refl}
use peso.Rcorder.Order.Files.{mark-value}
use peso.Rcorder.Order.Generate.{Fresh, generate_prints_once}
use peso.Rcorder.Order.Terminates.{unmarked, listed}
use peso.Rcorder.Order.Drained.{Drained, Drained-Later, Drained-null}
use peso.Rcorder.Order.Quiet.{
  IsRanked, Needs, Ordered, Sorted, Done, Held, SameLists, Quiet, Ran, Done-Later, Quiet-Ran,
  Ran-trans, Ran-refl, Ran-fail,
}
use peso.Rcorder.Order.Provider.{provider, not_circular, mark_head-Ran, mark_head-back}
use peso.Rcorder.Order.Leave.{enter-Quiet, leave-Ran, lower}

module _ (H : HashTable) (own : ℕ → ℕ) (s0 : St H) (rank : ℕ → ℕ)
    (ranked : IsRanked H own s0 rank) where
  open H use {get_value}

  mutual
    DoFile-Ran :
        {f : ℕ} {s t : St H}
        → DoFile H f s t
        → Quiet H own s0 rank (rank f) null s
        → Ran H own s0 rank s t
    DoFile-Ran (run {f} {s} {t} r e) q =
        let q1 = enter-Quiet H own s0 rank ranked f s q in
        let (a, d) = Reqs-Ran r f q1 (λ x m. ground (arith, q.later.file f)) in
        rw e (
          leave-Ran H own s0 rank ranked f s t q (Quiet-Ran H own s0 rank (rank f) null _ t q1 a) a
            (λ x m n. rw (← (enter-Later f s).table) (d x m (rw (enter-Later f s).table n))))

    Reqs-Ran :
        {rs : List ℕ} {name : Str} {s t : St H}
        → Reqs H rs name s t
        → (f : ℕ) → Quiet H own s0 rank (rank f) null s
        → ((r : ℕ) → r ∈ rs → r ∈ (s0.file f).req_list)
        → Ran H own s0 rank s t
          × ((r : ℕ) → r ∈ rs → get_value s.table r ≢ null → Drained H own t (get_value s.table r))
    Reqs-Ran (end {s} {t} e) f q sub = (Ran-refl H own s0 rank (rank f) null s t q e, λ r m. cc)
    Reqs-Ran (req {r} {rs} {s} {t} {u} a b) f q sub =
        let (x, d) = Req-Ran a f q (sub r (ground arith)) in
        let (y, d') =
          Reqs-Ran b f (Quiet-Ran H own s0 rank (rank f) null s t q x)
            (λ c m. sub c (ground arith)) in
        (
          Ran-trans H own s0 rank s t u x y,
          λ c m n. elim (Bool-cases (c == r)) [
            | inl e ↦
                let same : c ≡ r = ground arith in
                rw same (Drained-Later H own t u y.later _ (d (rw (← same) n)))
            | inr ne ↦ rw (← x.later.table) (d' c (ground arith) (rw x.later.table n))
          ],
        )

    Req-Ran :
        {r : ℕ} {name : Str} {s t : St H}
        → Req H r name s t
        → (f : ℕ) → Quiet H own s0 rank (rank f) null s
        → r ∈ (s0.file f).req_list
        → Ran H own s0 rank s t
          × (get_value s.table r ≢ null → Drained H own t (get_value s.table r))
    Req-Ran (missing {s} {t} z e) f q m =
        (Ran-fail H own s0 rank (rank f) null _ s t q e, λ n. absurd (n z))
    Req-Ran (satisfied {r} {s} {t} n z e) f q m = (
      Ran-refl H own s0 rank (rank f) null s t q e,
      λ _. rw e (Drained-null H own s q.inv (get_value s.table r) z),
    )
    Req-Ran (circular {r} {s} {t} n x p e) f q m =
        absurd (not_circular H own s0 rank ranked f r s null q m n x refl p)
    Req-Ran (drained {r} {s} {t} n x p d) f q m =
        let h = get_value s.table r in
        let (a, b) =
          Drain-Ran d f r (mark_head-Ran H own s0 rank ranked (rank f) h s q) (mark-value H own r s)
            n m in
        (mark_head-back H own s0 rank ranked (rank f) h s t q p a b, λ _. b)

    Drain-Ran :
        {h : ℕ} {s t : St H}
        → Drain H h s t
        → (f r : ℕ) → Quiet H own s0 rank (rank f) h s
        → h ≡ get_value s.table r
        → h ≢ null
        → r ∈ (s0.file f).req_list
        → Ran H own s0 rank s t × Drained H own t h
    Drain-Ran (stop {h} {s} {t} z e) f r q g n m =
        (Ran-refl H own s0 rank (rank f) h s t q e, rw e (Drained-null H own s q.inv h z))
    Drain-Ran (more {h} {s} {t} {u} x d k) f r q g n m =
        let v = provider H own s0 rank ranked f r s h q m (ground arith) (ground arith) in
        let file = (s.prov (s.prov h).next).fnode in
        let less : rank file < rank f = ground (arith, v) in
        let held : Held H own s0 rank (rank file) h = record {
          file = v.file;
          node = v.node;
          provided = v.before;
          same = ground (arith, v);
          high = ground (arith, v);
        } in
        let a = DoFile-Ran d (lower H own s0 rank ranked (rank f) (rank file) h s q less held) in
        let (b, c) =
          Drain-Ran k f r (Quiet-Ran H own s0 rank (rank f) h s t q a) (rw a.later.table g) n m in
        (Ran-trans H own s0 rank s t u a b, c)

  -- Between two calls of the main loop.
  record Idle (s : St H) : Type 0 where
    inv : Inv H own s
    later : Later s0 s
    lists : (g : ℕ) → SameLists H own s0 rank s g ⊎ ((s.file g).in_progress ≡ true)
    files : (g : ℕ) → (s.file g).in_progress ≡ true → Done H own s0 rank s g
    heads : (x : ℕ) → x ≢ null → (s.prov x).in_progress ≡ true → Drained H own s x
    sorted : Sorted H own s0 rank s.output

  Idle-Quiet : (k : ℕ) (s : St H) → Idle s → Quiet H own s0 rank k null s
  Idle-Quiet k s i = record {
    inv = i.inv;
    later = i.later;
    lists = i.lists;
    files = λ g p b. i.files g p;
    heads = λ x n p. inl (i.heads x n p);
    sorted = i.sorted;
  }

  Ran-Idle : (s t : St H) → Idle s → Ran H own s0 rank s t → Idle t
  Ran-Idle s t i r = record {
    inv = r.inv;
    later = Later-trans s0 s t i.later r.later;
    lists = r.lists;
    files = λ g p. elim (r.files g p) [
      | inl d ↦ d
      | inr o ↦ Done-Later H own s0 rank s t g r.later (r.grows g) (i.files g o)
    ];
    heads = λ x n p. elim (r.heads x n p) [
      | inl d ↦ d
      | inr o ↦ Drained-Later H own s t r.later x (i.heads x n o)
    ];
    sorted = r.sorted;
  }

  generate-Idle : (k n : ℕ) (s t : St H) → Idle s → generate_ordering H k n s ≡ some t → Idle t
  unfolding generate_ordering
  generate-Idle zero n s t i e = cc
  generate-Idle (suc k) n s t i e = elim (Bool-cases ((s.file fn_head).next == null)) [
    | inl z ↦ let same : t ≡ s = ground arith in rw same i
    | inr nz ↦ elim (Option-cases (do_file H n (s.file fn_head).next s)) [
      | inl x ↦ absurd (ground arith)
      | inr (u, x) ↦
          let d = do_file-DoFile H n (s.file fn_head).next s u x in
          let r = DoFile-Ran d (Idle-Quiet (rank (s.file fn_head).next) s i) in
          generate-Idle k n u t (Ran-Idle s u i r) (ground arith)
    ]
  ]

-- From a state with well-formed lists in which nothing was done, and whose requirements can be
-- ranked so that whoever provides what a file requires has a smaller rank: `generate_ordering`
-- returns with the fuel that is named, and behind each printed file (the latest stands first)
-- stand all the files that provide something it requires and that the keyword lists let
-- through.
pub generate_orders :
    (H : HashTable) (own : ℕ → ℕ) (s : St H) (rank : ℕ → ℕ)
    → Fresh H own s
    → IsRanked H own s rank
    → (t : St H) × (generate_ordering H (suc (s.file fn_head).next) (suc (unmarked s + listed s)) s
        ≡ some t)
      × Ordered (Needs H own s) t.output
generate_orders H own s rank f ranked =
    let (t, e, _) = generate_prints_once H own s f in
    let start : Idle H own s rank ranked s = record {
      inv = f.ready.inv;
      later = Later-refl s s refl;
      lists = λ g. inl (record { prov_list = refl; req_list = refl });
      files = λ g p. absurd (ground (arith, f.idle g));
      heads = λ x n p. absurd (ground (arith, f.unmarked x));
      sorted = rw f.silent tt;
    } in
    (t, e, (generate-Idle H own s rank ranked _ _ s t start e).sorted)
