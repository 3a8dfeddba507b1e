-- ===== src/Rcorder/Build/Grow.antt =====
-- src/rcorder.c: the functions that allocate a node.
use peso.Base.{
  ℕ, suc, ◌<◌, ◌≡◌, ◌≢◌, inl, inr, true, false, List, [], ◌∷◌, arith, ◌==◌, if◌then◌else◌, update,
  Bool-cases, nil-or-has, fun_ext,
}
use peso.Rcorder.Types.{Str, fn_head, State}
use peso.Rcorder.Hash.{HashTable}
use peso.Rcorder.Unlink.{Live, Linked-cong}
use peso.Rcorder.Order.{St}
use peso.Rcorder.Order.Files.{Node, Chain, SameLinks-Chain}
use peso.Rcorder.Build.{filenode_new, push_prov, new_head}
use peso.Rcorder.Build.Lists.{pushed, new_head-Linked, push-Linked}
use peso.Rcorder.Build.Fresh.{Built, AllFiles}

AllFiles-mono : (n m : ℕ) (bs : List (ℕ × Str)) → n < m → AllFiles n bs → AllFiles m bs
AllFiles-mono n m [] l a = tt
AllFiles-mono n m ((f, w) ∷ bs) l (h, b, a) = (h, omega arith, AllFiles-mono n m bs l a)

-- The list of files with a new node at its front.
record Made {T : Type 0} (s t : State T) : Type 0 where
  prov : t.prov ≡ s.prov
  next_prov : t.next_prov ≡ s.next_prov
  table : t.table ≡ s.table
  output : t.output ≡ s.output
  befores : t.bl_list ≡ s.bl_list
  next_file : t.next_file ≡ suc s.next_file
  prov_list :
      (g : ℕ) → (t.file g).prov_list ≡ (if g == s.next_file then [] else (s.file g).prov_list)
  progress : (g : ℕ) → (s.file g).in_progress ≡ false → (t.file g).in_progress ≡ false
  next : (t.file fn_head).next ≡ s.next_file
  last : (t.file s.next_file).last ≡ fn_head
  front :
      (g : ℕ)
      → fn_head < g
      → g ≢ s.next_file
      → (t.file g).last ≡ fn_head
      → ((s.file g).last ≡ fn_head) × (g ≢ (s.file fn_head).next)

filenode_new-Made :
    {T : Type 0} (name : Str) (s : State T)
    → fn_head < s.next_file
    → (s.file fn_head).next < s.next_file
    → (s.file fn_head).next ≢ fn_head
    → Made s (filenode_new name s).1
unfolding filenode_new
filenode_new-Made name s h l n = record {
  prov = ground arith;
  next_prov = ground arith;
  table = ground arith;
  output = ground arith;
  befores = ground arith;
  next_file = ground arith;
  prov_list = λ g. ground arith;
  progress = λ g p. ground arith;
  next = ground arith;
  last = ground arith;
  front = λ g k n e. (ground arith, ground arith);
}

module _ (H : HashTable) where
  open H use {get_value, create_entry, set_value, value_create, value_set}

  filenode_new-Chain : (name : Str) (s : St H) → Built H s → Chain (filenode_new name s).1
  unfolding filenode_new
  filenode_new-Chain name s b =
      let f = b.fresh in
      let c = f.ready.chain in
      let top : Node s fn_head = ground (arith, f.ready.sized) in
      let n = (s.file fn_head).next in
      record {
        next_lt = λ x m.
            ground
              (arith, f.ready.sized, c.next_lt x, c.next_lt fn_head top, c.next_ne fn_head top);
        next_ne = λ x m. ground (arith, f.ready.sized, c.next_ne x, c.next_ne fn_head top);
        next_gap = λ x z m e. ground (
          arith,
          f.ready.sized,
          f.idle z,
          c.next_gap x z,
          c.next_gap fn_head z top,
          c.next_ne fn_head top,
          c.next_lt fn_head top,
        );
        last_Node = λ y m k. ground (arith, f.ready.sized, c.last_Node y, c.next_lt fn_head top);
        last_lt = λ y m k.
            ground (arith, f.ready.sized, c.last_lt y, c.last_Node y, c.next_lt fn_head top);
        last_gap = λ y z m k e. ground (
          arith,
          b.front y,
          f.ready.sized,
          f.idle z,
          c.last_gap y z,
          c.last_Node y,
          f.ready.first,
          c.next_gap fn_head z top,
          c.next_lt fn_head top,
        );
      }

  pub filenode_new-Built : (name : Str) (s : St H) → Built H s → Built H (filenode_new name s).1
  filenode_new-Built name s b =
      let f = b.fresh in
      let t = (filenode_new name s).1 in
      let c = f.ready.chain in
      let top : Node s fn_head = ground (arith, f.ready.sized) in
      let e =
        filenode_new-Made name s f.ready.sized (c.next_lt fn_head top) (c.next_ne fn_head top) in
      let i = f.ready.inv in
      record {
        own = b.own;
        fresh = record {
          ready = record {
            inv = record {
              linked =
                  rw (e.prov, e.next_prov)
                    (Linked-cong s.prov (λ g. (s.file g).prov_list) (λ g. (t.file g).prov_list)
                      i.linked
                      (λ g. elim (nil-or-has (s.file g).prov_list) [
                        | inl none ↦ ground (arith, e.prov_list g)
                        | inr (y, m) ↦ ground (arith, e.prov_list g, i.filed_below g y m)
                      ]));
              value-Live = rw (e.prov, e.next_prov, e.table) i.value-Live;
              value-head = rw (e.prov, e.table) i.value-head;
              filed = λ g y m. ground (arith, i.filed g y, e.prov_list g);
              filed_below = λ g y m. ground (arith, i.filed_below g y, e.prov_list g, e.next_file);
            };
            chain = filenode_new-Chain name s b;
            settled = λ g p. absurd (ground (arith, e.progress g, f.idle g));
            first = λ n. ground (arith, e.next, e.last);
            sized = ground (arith, e.next_file, f.ready.sized);
          };
          idle = λ g. ground (arith, e.progress g, f.idle g);
          unmarked = rw e.prov f.unmarked;
          silent = ground (arith, e.output, f.silent);
        };
        pos = ground (arith, e.next_prov, b.pos);
        befores =
            rw (e.next_file, e.befores)
              (AllFiles-mono s.next_file _ s.bl_list (omega arith) b.befores);
        front = λ g h l z. elim (Bool-cases (g == s.next_file)) [
          | inl new ↦ ground (arith, e.next)
          | inr old ↦
              let (was, ne) = e.front g h (ground arith) z in
              absurd (ne (b.front g h (ground (arith, e.next_file)) was))
        ];
      }

  module _ (s : St H) (b : Built H s) where
    -- A head node for an entry that has none.
    pub new_head-Built : (e : ℕ) → Built H (new_head H e s).1
    unfolding new_head
    new_head-Built e =
        let f = b.fresh in
        let i = f.ready.inv in
        let L = new_head-Linked i.linked b.pos in
        record {
          own = update b.own s.next_prov s.next_prov;
          fresh = record {
            ready = record {
              inv = record {
                linked = L;
                value-Live =
                    λ d n. ground (arith, value_set s.table e s.next_prov d, i.value-Live d, b.pos);
                value-head = λ d n.
                    ground
                      (arith, value_set s.table e s.next_prov d, i.value-head d, i.value-Live d);
                filed = i.filed;
                filed_below = i.filed_below;
              };
              chain = SameLinks-Chain s _ (ground arith) f.ready.chain;
              settled = f.ready.settled;
              first = f.ready.first;
              sized = f.ready.sized;
            };
            idle = f.idle;
            unmarked = λ x. ground (arith, f.unmarked x);
            silent = f.silent;
          };
          pos = omega arith;
          befores = b.befores;
          front = b.front;
        }

    push_prov-pushed :
        (f h : ℕ) (live : Live s.next_prov s.prov h) (top : (s.prov h).head ≡ true) (x : ℕ)
        → (push_prov f h s).prov x ≡ pushed b.fresh.ready.inv.linked b.pos f h live top x
    unfolding push_prov
    push_prov-pushed f h live top x = ground arith

    push_prov-prov_list :
        (f h g : ℕ)
        → update (λ k. (s.file k).prov_list) f (s.next_prov ∷ (s.file f).prov_list) g
          ≡ ((push_prov f h s).file g).prov_list
    unfolding push_prov
    push_prov-prov_list f h g = ground arith

    push_prov-next_prov : (f h : ℕ) → (push_prov f h s).next_prov ≡ suc s.next_prov
    unfolding push_prov
    push_prov-next_prov f h = ground arith

    pub push_prov-Built :
        (f h : ℕ)
        → fn_head < f
        → f < s.next_file
        → Live s.next_prov s.prov h
        → (s.prov h).head ≡ true
        → Built H (push_prov f h s)
    unfolding push_prov
    push_prov-Built f h low below live top =
        let r = b.fresh in
        let i = r.ready.inv in
        let t = push_prov f h s in
        record {
          own = update b.own s.next_prov h;
          fresh = record {
            ready = record {
              inv = record {
                linked =
                    rw (push_prov-next_prov f h, fun_ext (push_prov-pushed f h live top))
                      (Linked-cong _ _ _ (push-Linked i.linked b.pos f h live top)
                        (λ g. push_prov-prov_list f h g));
                value-Live = λ d n. ground (arith, i.value-Live d);
                value-head = λ d n. ground (arith, i.value-head d, i.value-Live d);
                filed = λ g y m. ground (arith, i.filed g y);
                filed_below = λ g y m. ground (arith, i.filed_below g y);
              };
              chain = SameLinks-Chain s _ (ground arith) r.ready.chain;
              settled = λ g p. absurd (ground (arith, r.idle g));
              first = λ n. ground (arith, r.ready.first);
              sized = ground (arith, r.ready.sized);
            };
            idle = λ g. ground (arith, r.idle g);
            unmarked = λ x. ground (arith, r.unmarked x, r.unmarked h, r.unmarked (s.prov h).next);
            silent = ground (arith, r.silent);
          };
          pos = ground arith;
          befores = ground (arith, b.befores);
          front = λ g k l z. ground (arith, b.front g k);
        }
