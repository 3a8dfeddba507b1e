-- ===== src/Rcorder/Build/Insert.antt =====
-- src/rcorder.c, `insert_before`: its loops on fuel and the heaps.
use peso.Base.{
  ℕ, zero, suc, ◌<◌, ◌≡◌, ◌⊎◌, inl, inr, refl, Bool, true, false, List, [], ◌∷◌, some, arith, ◌==◌,
  if◌then◌else◌, Bool-cases, subst, sym, ap, ◌∙◌,
}
use peso.Rcorder.Types.{Str, null, fn_head, Warning, before_unknown}
use peso.Rcorder.Hash.{HashTable}
use peso.Rcorder.Unlink.{Live}
use peso.Rcorder.Order.{St, warn}
use peso.Rcorder.Build.{
  push_prov, push_req, new_head, make_fake_provision, require_fake, insert_one, insert_all,
  insert_before,
}
use peso.Rcorder.Build.Fresh.{Built, AllFiles, Same, Same-Built, create-Same, push_req-Built}
use peso.Rcorder.Build.Steps.{Kept, new_prov-Kept}
use peso.Rcorder.Build.Names.{fake_loop_ends}

module _ (H : HashTable) where
  open H use {get_value, create_entry, num_entries}

  -- Heaps that differ in the messages, the counter of names and the list of `BEFORE:` words.
  aside-Same :
      (s t : St H)
      → t ≡ record s { warnings = t.warnings; fake = t.fake; bl_list = t.bl_list }
      → AllFiles s.next_file t.bl_list
      → Same H s t
  aside-Same s t e b = record {
    prov = ap (λ u. u.prov) e;
    next_prov = ap (λ u. u.next_prov) e;
    next_file = ap (λ u. u.next_file) e;
    prov_list = λ g. ap (λ u. (u.file g).prov_list) e;
    next = λ g. ap (λ u. (u.file g).next) e;
    last = λ g. ap (λ u. (u.file g).last) e;
    progress = λ g. ap (λ u. (u.file g).in_progress) e;
    output = ap (λ u. u.output) e;
    befores = λ x. b;
    values = λ d n. ap (λ u. get_value u.table d) e;
  }

  push_req-files : (f e : ℕ) (s : St H) → (push_req f e s).next_file ≡ s.next_file
  unfolding push_req
  push_req-files f e s = refl

  push_req-prov : (f e : ℕ) (s : St H) → (push_req f e s).prov ≡ s.prov
  unfolding push_req
  push_req-prov f e s = refl

  push_req-next_prov : (f e : ℕ) (s : St H) → (push_req f e s).next_prov ≡ s.next_prov
  unfolding push_req
  push_req-next_prov f e s = refl

  found-Built :
      (s t : St H) (key : Str) (counter : ℕ)
      → t ≡ record s { table = (create_entry s.table key).0; fake = counter }
      → Built H s
      → Built H t
  found-Built s t key counter e b =
      let s1 = record s { table = (create_entry s.table key).0 } in
      let b1 = Same-Built H s s1 (create-Same H key s) b in
      subst (Built H) (sym e)
        (Same-Built H s1 _ (aside-Same s1 (record s1 { fake = counter }) refl b1.befores) b1)

  make_fake-Kept :
      (f : ℕ) (s : St H)
      → fn_head < f
      → f < s.next_file
      → Built H s
      → (e : ℕ) × (t : St H) × (make_fake_provision H f s ≡ some (e, t)) × Kept H s t
  unfolding make_fake_provision
  make_fake-Kept f s h l b =
      let (e, t, p, found) = fake_loop_ends H s in
      let b2 = found-Built s t found.key found.counter found.state b in
      let files : t.next_file ≡ s.next_file = ap (λ u. u.next_file) found.state in
      let k = new_prov-Kept H f e t h (omega (arith, files)) b2 in
      (
        e,
        push_prov f t.next_prov (new_head H e t).1,
        rw (p, make_fake_provision) refl,
        record { built = k.built; files = k.files ∙ files },
      )

  -- The node behind a live node.
  next-cases :
      (s : St H) (x : ℕ)
      → Built H s
      → Live s.next_prov s.prov x
      → ((s.prov x).next ≡ null)
        ⊎ (Live s.next_prov s.prov (s.prov x).next
            × ((s.prov (s.prov x).next).head ≡ false)
            × (((s.prov x).head ≡ true) ⊎ (s.prov x).next < x))
  next-cases s x b v = elim (Bool-cases ((s.prov x).next == null)) [
    | inl z ↦ inl (ground arith)
    | inr n ↦
        let L = b.fresh.ready.inv.linked in
        let f = L.fwd x v (ground arith) in
        let o = L.bwd (s.prov x).next f.live f.inner in
        inr (f.live, f.inner, ground (arith, o.order, f.back))
  ]

  -- Behind the head the addresses fall, so there is fuel for the walk.
  require_fake-Kept :
      (n p e : ℕ) (s : St H)
      → p < n
      → (p ≡ null) ⊎ (Live s.next_prov s.prov p × ((s.prov p).head ≡ false))
      → Built H s
      → (t : St H) × (require_fake H n p e s ≡ some t) × Kept H s t
  unfolding require_fake
  require_fake-Kept zero p e s l c b = absurd (omega arith)
  require_fake-Kept (suc n) p e s l (inl z) b =
      (s, ground (arith, z), record { built = b; files = refl })
  require_fake-Kept (suc n) p e s l (inr (v, i)) b =
      let u = push_req (s.prov p).fnode e s in
      let c = next-cases s p b v in
      let (t, q, k) =
        require_fake-Kept n (s.prov p).next e u (ground (arith, c, v.pos, i)) (ground (arith, c))
          (push_req-Built H (s.prov p).fnode e s b) in
      (t, ground (arith, v.pos, i, q), record { built = k.built; files = k.files })

  require_fake_ends :
      (p e : ℕ) (s : St H)
      → (p ≡ null) ⊎ (Live s.next_prov s.prov p × ((s.prov p).head ≡ true))
      → Built H s
      → (t : St H) × (require_fake H (suc s.next_prov) p e s ≡ some t) × Kept H s t
  unfolding require_fake
  require_fake_ends p e s (inl z) b = (s, ground (arith, z), record { built = b; files = refl })
  require_fake_ends p e s (inr (v, i)) b =
      let c = next-cases s p b v in
      let (t, q, k) =
        require_fake-Kept s.next_prov (s.prov p).next e s (ground (arith, c, v.pos, b.pos))
          (ground (arith, c)) b in
      (t, ground (arith, v.pos, i, q), k)

  -- The message about a name that nobody provides, and the walk.
  warned-Kept :
      (c : Bool) (m : Warning) (p e : ℕ) (s : St H)
      → (p ≡ null) ⊎ (Live s.next_prov s.prov p × ((s.prov p).head ≡ true))
      → Built H s
      → (t : St H) × (require_fake H
            (suc (if c then warn m s else s).next_prov)
            p
            e
            (if c then warn m s else s)
          ≡ some t)
        × Kept H s t
  warned-Kept false m p e s v b = require_fake_ends p e s v b
  warned-Kept true m p e s v b =
      let (t, q, k) =
        require_fake_ends p e (warn m s) v
          (Same-Built H s (warn m s) (aside-Same s (warn m s) refl b.befores) b) in
      (t, q, record { built = k.built; files = k.files })

  -- One word of a `BEFORE:` line.
  insert_one-Kept :
      (f : ℕ) (w : Str) (s : St H)
      → fn_head < f
      → f < s.next_file
      → Built H s
      → (t : St H) × (insert_one H (f, w) s ≡ some t) × Kept H s t
  unfolding insert_one
  insert_one-Kept f w s h l b =
      let (fake, s1, p, k) = make_fake-Kept f s h l b in
      let r = create_entry s1.table w in
      let s2 = record s1 { table = r.0 } in
      let b2 = Same-Built H s1 s2 (create-Same H w s1) k.built in
      let i = b2.fresh.ready.inv in
      let v : (get_value r.0 r.1 ≡ null)
          ⊎ (Live s2.next_prov s2.prov (get_value r.0 r.1)
              × ((s2.prov (get_value r.0 r.1)).head ≡ true)) =
        elim (Bool-cases (get_value r.0 r.1 == null)) [
          | inl z ↦ inl (ground arith)
          | inr n ↦ inr (i.value-Live r.1 (ground arith), i.value-head r.1 (ground arith))
        ] in
      let (t, q, k2) =
        warned-Kept r.2 (before_unknown w (s.file f).filename) (get_value r.0 r.1) fake s2 v b2 in
      (t, rw (p, insert_one) q, record { built = k2.built; files = k2.files ∙ k.files })

  insert_all-Built :
      (bs : List (ℕ × Str)) (s : St H)
      → AllFiles s.next_file bs
      → Built H s
      → (t : St H) × (insert_all H bs s ≡ some t) × Built H t
  unfolding insert_all
  insert_all-Built [] s a b = (s, refl, b)
  insert_all-Built ((f, w) ∷ bs) s (h, l, a) b =
      let (t, e, k) = insert_one-Kept f w s h l b in
      let rest : AllFiles t.next_file bs = rw k.files a in
      let (u, d, c) =
        insert_all-Built bs (record t { bl_list = bs }) rest
          (Same-Built H t _ (aside-Same t (record t { bl_list = bs }) refl rest) k.built) in
      (u, rw (e, insert_all) d, c)

  -- From well-formed heaps `insert_before` returns: for each word a name is found that is not
  -- taken, the walk along the providers ends, and the heaps are well formed then.
  pub insert_before-Built :
      (s : St H) → Built H s → (t : St H) × (insert_before H s ≡ some t) × Built H t
  unfolding insert_before
  insert_before-Built s b = insert_all-Built s.bl_list s b.befores b
