-- ===== src/Rcorder/Order/Drained.antt =====
-- src/rcorder.c: a head node whose list has run empty.
use peso.Base.{ℕ, zero, suc, ◌+◌, ◌≤◌, ◌≡◌, ◌≢◌, inl, inr, false, arith, ◌∈◌, Bool-cases}
use peso.Rcorder.Types.{null}
use peso.Rcorder.Hash.{HashTable}
use peso.Rcorder.Unlink.{Live}
use peso.Rcorder.Order.{St}
use peso.Rcorder.Order.Invariant.{Inv, Later}

module _ (H : HashTable) (own : ℕ → ℕ) where
  open H use {get_value}

  -- No provision is left in the list of head `x`.
  abbrev pub Drained : St H → ℕ → Type 0
  Drained s x = (g y : ℕ) → y ∈ (s.file g).prov_list → own y ≢ x

  pub Drained-Later : (s t : St H) → Later s t → (x : ℕ) → Drained s x → Drained t x
  Drained-Later s t l x d g y m = d g y (ground (arith, l.file g))

  -- With an empty list at head `x`, no node that is not freed has `x` for its head.
  module _ (s : St H) (i : Inv H own s) (x : ℕ) (empty : (s.prov x).next ≡ null) where
    no_owner :
        (j y : ℕ)
        → s.next_prov ≤ y + j
        → Live s.next_prov s.prov y
        → (s.prov y).head ≡ false
        → own y ≢ x
    no_owner zero y b l h e = omega arith
    no_owner (suc j) y b l h e =
        let w = i.linked.bwd y l h in
        let z = (s.prov y).last in
        let v = i.linked.fwd z w.live (ground arith) in
        let same : own z ≡ x = ground arith in
        elim (Bool-cases (s.prov z).head) [
          | inl t ↦ ground (arith, i.linked.heads z w.live)
          | inr f ↦ no_owner j z (ground arith) w.live f same
        ]

    pub Drained-null : Drained s x
    Drained-null g y m =
        no_owner s.next_prov y (omega arith) (i.linked.lives g y m) (i.linked.inner g y m)
