-- ===== src/Rcorder/Unlink.antt =====
-- src/rcorder.c, the doubly linked list of the nodes that provide one name: removal in `do_file`.
use peso.Base.{
  ℕ, ◌<◌, ◌≡◌, ◌≢◌, ◌⊎◌, refl, true, false, List, [], ◌∷◌, arith, ◌==◌, if◌then◌else◌, update, ◌∈◌,
  Distinct, subst, fun_ext,
}
use peso.Rcorder.Types.{null, ProvNode}

abbrev pub Provs : Type 0
Provs = ℕ → ProvNode

-- `p->last = q` and `p->next = q`
unfoldable pub set_last : ℕ → ℕ → Provs → Provs
set_last p q h = update h p (record (h p) { last = q })

unfoldable pub set_next : ℕ → ℕ → Provs → Provs
set_next p q h = update h p (record (h p) { next = q })

unfoldable pub free_prov : ℕ → Provs → Provs
free_prov p h = update h p (record (h p) { freed = true })

-- if ( pnode -> next ) pnode -> next -> last = pnode -> last
unfoldable pub relink_next : ℕ → Provs → Provs
relink_next p h = if (h p).next == null then h else set_last (h p).next (h p).last h

-- if ( pnode -> last ) pnode -> last -> next = pnode -> next
unfoldable pub relink_last : ℕ → Provs → Provs
relink_last p h = if (h p).last == null then h else set_next (h p).last (h p).next h

unfoldable pub unlink_prov : ℕ → Provs → Provs
unfolding set_last set_next free_prov relink_next relink_last
unlink_prov p h = free_prov p (relink_last p (relink_next p h))

-- the loop over `fnode -> prov_list`
unfoldable pub unlink_provs : List ℕ → Provs → Provs
unlink_provs [] h = h
unlink_provs (p ∷ ps) h = unlink_provs ps (unlink_prov p h)

-- A node that was allocated and not freed.
pub record Live (np : ℕ) (h : Provs) (x : ℕ) : Type 0 where
  pub pos : 0 < x
  pub below : x < np
  pub kept : (h x).freed ≡ false

pub record Fwd (np : ℕ) (own : ℕ → ℕ) (h : Provs) (x : ℕ) : Type 0 where
  pub live : Live np h (h x).next
  pub back : (h (h x).next).last ≡ x
  pub inner : (h (h x).next).head ≡ false
  pub same : own (h x).next ≡ own x

pub record Bwd (np : ℕ) (h : Provs) (y : ℕ) : Type 0 where
  pub live : Live np h (h y).last
  pub back : (h (h y).last).next ≡ y
  pub order : ((h (h y).last).head ≡ true) ⊎ (y < (h y).last)

-- `own` names the head of the list in which a node stands, `plist` the nodes of a file.
pub record Linked (np : ℕ) (own : ℕ → ℕ) (h : Provs) (plist : ℕ → List ℕ) : Type 0 where
  pub fwd : (x : ℕ) → Live np h x → (h x).next ≢ 0 → Fwd np own h x
  pub bwd : (y : ℕ) → Live np h y → (h y).head ≡ false → Bwd np h y
  pub heads : (x : ℕ) → Live np h x → (h x).head ≡ true → own x ≡ x
  pub listed : (y : ℕ) → Live np h y → (h y).head ≡ false → y ∈ plist (h y).fnode
  pub lives : (f y : ℕ) → y ∈ plist f → Live np h y
  pub inner : (f y : ℕ) → y ∈ plist f → (h y).head ≡ false
  pub owner : (f y : ℕ) → y ∈ plist f → (h y).fnode ≡ f
  pub distinct : (f : ℕ) → Distinct (plist f)

-- What the node reads after the two writes, when it is the first of a file's list.
module _ {np : ℕ} {own : ℕ → ℕ} {h : Provs} {plist : ℕ → List ℕ} (L : Linked np own h plist)
    (f p : ℕ) (ps : List ℕ) (e : plist f ≡ p ∷ ps) where
  here : p ∈ plist f
  here = rw e (ground arith)

  rest_forward :
      (x : ℕ)
      → Live np (unlink_prov p h) x
      → (unlink_prov p h x).next ≢ 0
      → Fwd np own (unlink_prov p h) x
  unfolding unlink_prov
  rest_forward x l n =
      ground
        (arith, L.lives f p here, L.inner f p here, L.fwd x, L.fwd p, L.bwd p, L.fwd (h p).last)

  rest_backward :
      (y : ℕ)
      → Live np (unlink_prov p h) y
      → (unlink_prov p h y).head ≡ false
      → Bwd np (unlink_prov p h) y
  unfolding unlink_prov
  rest_backward y l n = ground (
    arith,
    L.lives f p here,
    L.inner f p here,
    L.bwd y,
    L.fwd p,
    L.bwd p,
    L.fwd (h y).last,
    L.fwd (h p).last,
  )

  rest-heads : (x : ℕ) → Live np (unlink_prov p h) x → (unlink_prov p h x).head ≡ true → own x ≡ x
  unfolding unlink_prov
  rest-heads x l n = ground (arith, L.heads x)

  rest-listed :
      (y : ℕ)
      → Live np (unlink_prov p h) y
      → (unlink_prov p h y).head ≡ false
      → y ∈ update plist f ps (unlink_prov p h y).fnode
  unfolding unlink_prov
  rest-listed y l n = ground (arith, L.listed y)

  rest-lives : (g y : ℕ) → y ∈ update plist f ps g → Live np (unlink_prov p h) y
  unfolding unlink_prov
  rest-lives g y m = ground (arith, L.lives g y, L.owner g y, L.owner f p here, L.distinct f)

  rest-inner : (g y : ℕ) → y ∈ update plist f ps g → (unlink_prov p h y).head ≡ false
  unfolding unlink_prov
  rest-inner g y m = ground (arith, L.inner g y)

  rest-owner : (g y : ℕ) → y ∈ update plist f ps g → (unlink_prov p h y).fnode ≡ g
  unfolding unlink_prov
  rest-owner g y m = ground (arith, L.owner g y)

  rest_lists_once : (g : ℕ) → Distinct (update plist f ps g)
  rest_lists_once g = ground (arith, L.distinct g)

  pub unlink_prov-Linked : Linked np own (unlink_prov p h) (update plist f ps)
  unlink_prov-Linked = record {
    fwd = rest_forward;
    bwd = rest_backward;
    heads = rest-heads;
    listed = rest-listed;
    lives = rest-lives;
    inner = rest-inner;
    owner = rest-owner;
    distinct = rest_lists_once;
  }

module _ {np : ℕ} {own : ℕ → ℕ} where
  pub Linked-cong :
      (h : Provs) (xs ys : ℕ → List ℕ)
      → Linked np own h xs
      → ((g : ℕ) → xs g ≡ ys g)
      → Linked np own h ys
  Linked-cong h xs ys L e = subst (Linked np own h) (fun_ext e) L

  -- Where the lists of providers are doubly linked and each node is listed by its file, they
  -- still are after `do_file` has removed all the nodes of one file, which then lists none.
  pub unlink_provs-Linked :
      (ps : List ℕ) (h : Provs) (plist : ℕ → List ℕ) (f : ℕ)
      → Linked np own h plist
      → plist f ≡ ps
      → Linked np own (unlink_provs ps h) (update plist f [])
  unfolding unlink_provs
  unlink_provs-Linked [] h plist f L e = Linked-cong h plist _ L (λ g. ground arith)
  unlink_provs-Linked (p ∷ ps) h plist f L e =
      Linked-cong _ _ _
        (unlink_provs-Linked ps (unlink_prov p h) (update plist f ps) f
          (unlink_prov-Linked L f p ps e) (ground arith))
        (λ g. ground arith)

-- What the removal leaves alone.
pub record SameProv (a b : ProvNode) : Type 0 where
  pub head : b.head ≡ a.head
  pub progress : b.in_progress ≡ a.in_progress
  pub fnode : b.fnode ≡ a.fnode

unlink_prov-SameProv : (p : ℕ) (h : Provs) (x : ℕ) → SameProv (h x) (unlink_prov p h x)
unfolding unlink_prov
unlink_prov-SameProv p h x = ground arith

pub unlink_provs-SameProv : (ps : List ℕ) (h : Provs) (x : ℕ) → SameProv (h x) (unlink_provs ps h x)
unfolding unlink_provs
unlink_provs-SameProv [] h x = ground arith
unlink_provs-SameProv (p ∷ ps) h x =
    ground (arith, unlink_prov-SameProv p h x, unlink_provs-SameProv ps (unlink_prov p h) x)

unlink_prov-freed :
    (p : ℕ) (h : Provs) (x : ℕ)
    → (h p).head ≡ false
    → (h x).head ≡ true
    → (unlink_prov p h x).freed ≡ (h x).freed
unfolding unlink_prov
unlink_prov-freed p h x m n = ground arith

-- No head node is freed.
pub unlink_provs-freed :
    (ps : List ℕ) (h : Provs) (x : ℕ)
    → ((y : ℕ) → y ∈ ps → (h y).head ≡ false)
    → (h x).head ≡ true
    → (unlink_provs ps h x).freed ≡ (h x).freed
unfolding unlink_provs
unlink_provs-freed [] h x m n = refl
unlink_provs-freed (p ∷ ps) h x m n = ground (
  arith,
  unlink_prov-freed p h x (m p (ground arith)),
  unlink_prov-SameProv p h x,
  unlink_provs-freed ps (unlink_prov p h) x
      (λ y i. ground (arith, m y, unlink_prov-SameProv p h y)),
)

pub mark-Linked :
    {np : ℕ} {own : ℕ → ℕ} (x : ℕ) (h : Provs) (plist : ℕ → List ℕ)
    → Linked np own h plist
    → Linked np own (update h x (record (h x) { in_progress = true })) plist
mark-Linked x h plist L = record {
  fwd = λ y l n. ground (arith, L.fwd y);
  bwd = λ y l n. ground (arith, L.bwd y);
  heads = λ y l n. ground (arith, L.heads y);
  listed = λ y l n. ground (arith, L.listed y);
  lives = λ f y m. ground (arith, L.lives f y);
  inner = λ f y m. ground (arith, L.inner f y);
  owner = λ f y m. ground (arith, L.owner f y);
  distinct = L.distinct;
}
