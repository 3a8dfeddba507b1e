-- ===== src/Rcorder/Build/Fresh.antt =====
-- src/rcorder.c: the invariant of the functions that build the heaps, and those that leave the
-- links alone.
use peso.Base.{ℕ, ◌<◌, ◌≡◌, ◌≢◌, refl, List, [], ◌∷◌, arith, if◌then◌else◌, sym}
use peso.Rcorder.Types.{Str, null, fn_head}
use peso.Rcorder.Hash.{HashTable}
use peso.Rcorder.Unlink.{Linked-cong}
use peso.Rcorder.Order.{St}
use peso.Rcorder.Order.Files.{SameLinks-Chain}
use peso.Rcorder.Order.Generate.{Fresh}
use peso.Rcorder.Build.{push_req, add_require, add_before, add_keyword}

-- The files of the words that `BEFORE:` lines gave.
abbrev pub AllFiles : ℕ → List (ℕ × Str) → Type 0
AllFiles n [] = Unit
AllFiles n ((f, w) ∷ bs) = (fn_head < f) × (f < n) × AllFiles n bs

module _ (H : HashTable) where
  open H use {get_value, create_entry, set_value, value_create, value_set}

  -- The heaps are well formed for some assignment of heads to nodes, and nothing was printed.
  pub record Built (s : St H) : Type 0 where
    pub own : ℕ → ℕ
    pub fresh : Fresh H own s
    pub pos : 0 < s.next_prov
    pub befores : AllFiles s.next_file s.bl_list
    pub front :
        (f : ℕ)
        → fn_head < f
        → f < s.next_file
        → (s.file f).last ≡ fn_head
        → f ≡ (s.file fn_head).next

  -- The parts of the state that `Fresh` reads.
  pub record Same (s t : St H) : Type 0 where
    pub prov : t.prov ≡ s.prov
    pub next_prov : t.next_prov ≡ s.next_prov
    pub next_file : t.next_file ≡ s.next_file
    pub prov_list : (f : ℕ) → (t.file f).prov_list ≡ (s.file f).prov_list
    pub next : (f : ℕ) → (t.file f).next ≡ (s.file f).next
    pub last : (f : ℕ) → (t.file f).last ≡ (s.file f).last
    pub progress : (f : ℕ) → (t.file f).in_progress ≡ (s.file f).in_progress
    pub output : t.output ≡ s.output
    pub befores : AllFiles s.next_file s.bl_list → AllFiles s.next_file t.bl_list
    pub values : (e : ℕ) → get_value t.table e ≢ null → get_value t.table e ≡ get_value s.table e

  pub Same-Fresh : (own : ℕ → ℕ) (s t : St H) → Same s t → Fresh H own s → Fresh H own t
  Same-Fresh own s t e f =
      let i = f.ready.inv in
      record {
        ready = record {
          inv = record {
            linked =
                rw (e.prov, e.next_prov)
                  (Linked-cong s.prov (λ g. (s.file g).prov_list) (λ g. (t.file g).prov_list)
                    i.linked (λ g. sym (e.prov_list g)));
            value-Live = λ d n.
                rw (e.prov, e.next_prov, e.values d n)
                  (i.value-Live d (ground (arith, e.values d n)));
            value-head =
                λ d n. rw (e.prov, e.values d n) (i.value-head d (ground (arith, e.values d n)));
            filed = λ g y m. i.filed g y (ground (arith, e.prov_list g));
            filed_below =
                λ g y m. rw e.next_file (i.filed_below g y (ground (arith, e.prov_list g)));
          };
          chain =
              SameLinks-Chain s t
                (record {
                  next_file = e.next_file;
                  next = e.next;
                  last = e.last;
                  progress = λ x p. ground (arith, e.progress x);
                })
                f.ready.chain;
          settled = λ g p. absurd (ground (arith, e.progress g, f.idle g));
          first = λ n. ground (arith, e.next fn_head, e.last (s.file fn_head).next, f.ready.first);
          sized = ground (arith, e.next_file, f.ready.sized);
        };
        idle = λ g. ground (arith, e.progress g, f.idle g);
        unmarked = λ x. rw e.prov (f.unmarked x);
        silent = ground (arith, e.output, f.silent);
      }

  pub Same-Built : (s t : St H) → Same s t → Built s → Built t
  Same-Built s t e b = record {
    own = b.own;
    fresh = Same-Fresh b.own s t e b.fresh;
    pos = ground (arith, e.next_prov, b.pos);
    befores = rw e.next_file (e.befores b.befores);
    front = λ f h l z. ground (arith, e.next fn_head, e.last f, e.next_file, b.front f h);
  }

  push_req-Same : (f e : ℕ) (s : St H) → Same s (push_req f e s)
  unfolding push_req
  push_req-Same f e s = record {
    prov = refl;
    next_prov = refl;
    next_file = refl;
    prov_list = λ g. ground arith;
    next = λ g. ground arith;
    last = λ g. ground arith;
    progress = λ g. ground arith;
    output = refl;
    befores = λ b. b;
    values = λ d n. refl;
  }

  -- A table after `Hash_CreateEntry`, with the client data left as it was or set to NULL.
  table-Same :
      (s : St H) (t : H.Table)
      → ((e : ℕ) → get_value t e ≢ null → get_value t e ≡ get_value s.table e)
      → Same s (record s { table = t })
  table-Same s t v = record {
    prov = refl;
    next_prov = refl;
    next_file = refl;
    prov_list = λ g. refl;
    next = λ g. refl;
    last = λ g. refl;
    progress = λ g. refl;
    output = refl;
    befores = λ b. b;
    values = v;
  }

  pub create-Same : (w : Str) (s : St H) → Same s (record s { table = (create_entry s.table w).0 })
  create-Same w s = table-Same s _ (λ e n. ground (arith, value_create s.table w e))

  pub push_req-Built : (f e : ℕ) (s : St H) → Built s → Built (push_req f e s)
  push_req-Built f e s = Same-Built s _ (push_req-Same f e s)

  pub add_before-Built :
      (f : ℕ) (w : Str) (s : St H)
      → fn_head < f
      → f < s.next_file
      → Built s
      → Built (add_before f w s)
  unfolding add_before
  add_before-Built f w s h l = Same-Built s _ (record {
    prov = refl;
    next_prov = refl;
    next_file = refl;
    prov_list = λ g. refl;
    next = λ g. refl;
    last = λ g. refl;
    progress = λ g. refl;
    output = refl;
    befores = λ b. (h, l, b);
    values = λ d n. refl;
  })

  pub add_keyword-Built : (f : ℕ) (w : Str) (s : St H) → Built s → Built (add_keyword f w s)
  unfolding add_keyword
  add_keyword-Built f w s = Same-Built s _ (record {
    prov = refl;
    next_prov = refl;
    next_file = refl;
    prov_list = λ g. ground arith;
    next = λ g. ground arith;
    last = λ g. ground arith;
    progress = λ g. ground arith;
    output = refl;
    befores = λ b. b;
    values = λ d n. refl;
  })

  pub add_require-Built : (f : ℕ) (w : Str) (s : St H) → Built s → Built (add_require H f w s)
  unfolding add_require
  add_require-Built f w s b =
      let r = create_entry s.table w in
      let t = if r.2 then set_value r.0 r.1 null else r.0 in
      push_req-Built f r.1 (record s { table = t })
        (Same-Built s _
          (table-Same s t
            (λ e n. ground (arith, value_create s.table w e, value_set r.0 r.1 null e)))
          b)
