-- ===== src/Rcorder/Order/Quiet.antt =====
-- src/rcorder.c: the invariant behind the order of the output, for requirements that are not
-- circular.
use peso.Base.{ℕ, ◌≤◌, ◌<◌, ◌≡◌, ◌≢◌, ◌⊎◌, inl, inr, refl, true, List, [], ◌∷◌, arith, ◌∈◌, count}
use peso.Rcorder.Types.{null, Warning}
use peso.Rcorder.Hash.{HashTable}
use peso.Rcorder.Order.{St, fail}
use peso.Rcorder.Order.Invariant.{Inv, Later, Later-trans, fail-Inv, fail-Later, Later-refl}
use peso.Rcorder.Order.Once.{chosen}
use peso.Rcorder.Order.Drained.{Drained, Drained-Later}

-- Requirements are met in the order of `rank` from the state `s0` before the traversal: whoever
-- provides what a file requires has a smaller rank.
abbrev pub IsRanked : (H : HashTable) → (ℕ → ℕ) → St H → (ℕ → ℕ) → Type 0
IsRanked H own s0 rank =
    (f r g y : ℕ)
    → r ∈ (s0.file f).req_list
    → H.get_value s0.table r ≢ null
    → y ∈ (s0.file g).prov_list
    → own y ≡ H.get_value s0.table r
    → rank g < rank f

-- `g` provides something that `f` requires, and may be printed.
pub record Needs (H : HashTable) (own : ℕ → ℕ) (s0 : St H) (f g : ℕ) : Type 0 where
  pub entry : ℕ
  pub node : ℕ
  pub required : entry ∈ (s0.file f).req_list
  pub known : H.get_value s0.table entry ≢ null
  pub provided : node ∈ (s0.file g).prov_list
  pub same : own node ≡ H.get_value s0.table entry
  pub printed : chosen s0 g ≡ true

-- The latest file first: behind each file stands whatever it needs.
abbrev pub Ordered : (ℕ → ℕ → Type 0) → List ℕ → Type 0
Ordered R [] = Unit
Ordered R (f ∷ rest) = ((g : ℕ) → R f g → g ∈ rest) × Ordered R rest

module _ (H : HashTable) (own : ℕ → ℕ) (s0 : St H) (rank : ℕ → ℕ) where
  open H use {get_value}

  abbrev pub Sorted : List ℕ → Type 0
  Sorted = Ordered (Needs H own s0)

  -- `g` has given up its provisions, and was printed if it may be.
  pub record Done (s : St H) (g : ℕ) : Type 0 where
    pub dropped : (s.file g).prov_list ≡ []
    pub printed : chosen s0 g ≡ true → 0 < count g s.output

  -- A file of rank `k` or more provides what head `x` stands for.
  pub record Held (k x : ℕ) : Type 0 where
    pub file : ℕ
    pub node : ℕ
    pub provided : node ∈ (s0.file file).prov_list
    pub same : own node ≡ x
    pub high : k ≤ rank file

  pub record SameLists (s : St H) (g : ℕ) : Type 0 where
    pub prov_list : (s.file g).prov_list ≡ (s0.file g).prov_list
    pub req_list : (s.file g).req_list ≡ (s0.file g).req_list

  -- No file of a rank below `k` is being worked on, and no head but `e` is held by such a file.
  pub record Quiet (k e : ℕ) (s : St H) : Type 0 where
    pub inv : Inv H own s
    pub later : Later s0 s
    pub lists : (g : ℕ) → SameLists s g ⊎ ((s.file g).in_progress ≡ true)
    pub files : (g : ℕ) → (s.file g).in_progress ≡ true → rank g < k → Done s g
    pub heads :
        (x : ℕ)
        → x ≢ null
        → (s.prov x).in_progress ≡ true
        → Drained H own s x ⊎ (Held k x ⊎ (x ≡ e))
    pub sorted : Sorted s.output

  -- What a call adds to the state before it.
  pub record Ran (s t : St H) : Type 0 where
    pub inv : Inv H own t
    pub later : Later s t
    pub grows : (g : ℕ) → count g s.output ≤ count g t.output
    pub lists : (g : ℕ) → SameLists t g ⊎ ((t.file g).in_progress ≡ true)
    pub files : (g : ℕ) → (t.file g).in_progress ≡ true → Done t g ⊎ ((s.file g).in_progress ≡ true)
    pub heads :
        (x : ℕ)
        → x ≢ null
        → (t.prov x).in_progress ≡ true
        → Drained H own t x ⊎ ((s.prov x).in_progress ≡ true)
    pub sorted : Sorted t.output

  pub Done-Later :
      (s t : St H) (g : ℕ) → Later s t → count g s.output ≤ count g t.output → Done s g → Done t g
  Done-Later s t g l c d = record {
    dropped = ground (arith, l.file g);
    printed = λ p. omega (arith, d.printed p);
  }

  pub Quiet-Ran : (k e : ℕ) (s t : St H) → Quiet k e s → Ran s t → Quiet k e t
  Quiet-Ran k e s t q r = record {
    inv = r.inv;
    later = Later-trans s0 s t q.later r.later;
    lists = r.lists;
    files = λ g p b. elim (r.files g p) [
      | inl d ↦ d
      | inr old ↦ Done-Later s t g r.later (r.grows g) (q.files g old b)
    ];
    heads = λ x n p. elim (r.heads x n p) [
      | inl d ↦ inl d
      | inr old ↦ elim (q.heads x n old) [
        | inl d ↦ inl (Drained-Later H own s t r.later x d)
        | inr rest ↦ inr rest
      ]
    ];
    sorted = r.sorted;
  }

  pub Ran-trans : (s t u : St H) → Ran s t → Ran t u → Ran s u
  Ran-trans s t u a b = record {
    inv = b.inv;
    later = Later-trans s t u a.later b.later;
    grows = λ g. omega (arith, a.grows g, b.grows g);
    lists = b.lists;
    files = λ g p. elim (b.files g p) [
      | inl d ↦ inl d
      | inr old ↦ elim (a.files g old) [
        | inl d ↦ inl (Done-Later t u g b.later (b.grows g) d)
        | inr older ↦ inr older
      ]
    ];
    heads = λ x n p. elim (b.heads x n p) [
      | inl d ↦ inl d
      | inr old ↦ elim (a.heads x n old) [
        | inl d ↦ inl (Drained-Later H own t u b.later x d)
        | inr older ↦ inr older
      ]
    ];
    sorted = b.sorted;
  }

  pub Ran-refl : (k e : ℕ) (s t : St H) → Quiet k e s → t ≡ s → Ran s t
  Ran-refl k e s t q p = rw p (record {
    inv = q.inv;
    later = Later-refl s s refl;
    grows = λ g. omega arith;
    lists = q.lists;
    files = λ g m. inr m;
    heads = λ x n m. inr m;
    sorted = q.sorted;
  })

  pub Ran-fail : (k e : ℕ) (w : Warning) (s t : St H) → Quiet k e s → t ≡ fail w s → Ran s t
  Ran-fail k e w s t q p = rw p (record {
    inv = fail-Inv H own w s _ refl q.inv;
    later = fail-Later w s _ refl;
    grows = λ g. omega arith;
    lists = λ g. elim (q.lists g) [
      | inl d ↦ inl (record { prov_list = d.prov_list; req_list = d.req_list })
      | inr m ↦ inr m
    ];
    files = λ g m. inr m;
    heads = λ x n m. inr m;
    sorted = q.sorted;
  })
