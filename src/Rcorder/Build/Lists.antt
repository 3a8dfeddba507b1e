-- ===== src/Rcorder/Build/Lists.antt =====
-- src/rcorder.c: a new head node and a new provision in the doubly linked lists.
use peso.Base.{
  ℕ, suc, ◌<◌, ◌≡◌, inl, inr, true, false, List, ◌∷◌, arith, ◌==◌, if◌then◌else◌, update,
  Bool-cases, has,
}
use peso.Rcorder.Types.{null, ProvNode}
use peso.Rcorder.Unlink.{Provs, Live, Linked}

abbrev pub head_node : ProvNode
head_node = record {
  head = true;
  in_progress = false;
  fnode = null;
  next = null;
  last = null;
  freed = false;
}

abbrev pub prov_node : ℕ → ℕ → ℕ → ProvNode
prov_node f h n = record {
  head = false;
  in_progress = false;
  fnode = f;
  next = n;
  last = h;
  freed = false;
}

module _ {np : ℕ} {own : ℕ → ℕ} {h : Provs} {plist : ℕ → List ℕ} (L : Linked np own h plist)
    (pos : 0 < np) where
  pub new_head-Linked : Linked (suc np) (update own np np) (update h np head_node) plist
  new_head-Linked = record {
    fwd = λ x l n. ground (arith, L.fwd x);
    bwd = λ y l n. ground (arith, L.bwd y);
    heads = λ x l n. ground (arith, L.heads x);
    listed = λ y l n. ground (arith, L.listed y);
    lives = λ f y m. ground (arith, L.lives f y);
    inner = λ f y m. ground (arith, L.inner f y, L.lives f y);
    owner = λ f y m. ground (arith, L.owner f y, L.lives f y);
    distinct = L.distinct;
  }

  module _ (f x : ℕ) (l : Live np h x) (top : (h x).head ≡ true) where
    -- the store after the three writes
    abbrev with_node : Provs
    with_node = update h np (prov_node f x (h x).next)

    abbrev with_next : Provs
    with_next = update with_node x (record (with_node x) { next = np })

    abbrev pub pushed : Provs
    pushed =
        if (h x).next == null
        then with_next
        else update with_next (h x).next (record (with_next (h x).next) { last = np })

    fresh : (g : ℕ) → has np (plist g) ≡ false
    fresh g = elim (Bool-cases (has np (plist g))) [
      | inl m ↦ absurd (omega (arith, (L.lives g np m).below))
      | inr n ↦ n
    ]

    pub push-Linked : Linked (suc np) (update own np x) pushed (update plist f (np ∷ plist f))
    push-Linked = record {
      fwd =
          λ y k n. ground (arith, L.fwd y, L.fwd x, L.heads x, L.bwd (h y).next, L.bwd (h x).next);
      bwd = λ y k n. ground (arith, L.bwd y, L.fwd x, L.bwd (h x).next, L.fwd (h y).last);
      heads = λ y k n. ground (arith, L.heads y, L.fwd x);
      listed = λ y k n. ground (arith, L.listed y, L.fwd x);
      lives = λ g y m. ground (arith, L.lives g y, L.fwd x);
      inner = λ g y m. ground (arith, L.inner g y, L.lives g y, L.fwd x);
      owner = λ g y m. ground (arith, L.owner g y, L.lives g y, L.fwd x);
      distinct = λ g. ground (arith, L.distinct g, fresh g);
    }
