-- ===== src/Rcorder/Order/Terminates.antt =====
-- src/rcorder.c: what bounds the recursion of `do_file`, the marks and the lengths of the lists.
use peso.Base.{
  ℕ, zero, suc, ◌+◌, ◌≤◌, ◌<◌, ◌≡◌, ◌≢◌, false, not, List, [], ◌∷◌, Option, some, arith, ◌==◌,
  Bool-cases, inl, inr, length, count_below, count_below_mono, count_below_drop, sum_below,
  length-pos, refl, ap, sym, sum_below_mono, sum_below_drop, ◌∈◌,
}
use peso.Rcorder.Types.{Str, null, State, no_providers, circular_provision}
use peso.Rcorder.Hash.{HashTable}
use peso.Rcorder.Unlink.{Live}
use peso.Rcorder.Order.{
  St, fail, enter, leave, mark_head, drain, satisfy_req, satisfy_reqs, do_file,
}
use peso.Rcorder.Order.Trace.{DoFile, run, do_file-DoFile, satisfy_req-Req}
use peso.Rcorder.Order.Invariant.{
  Inv, Later, DoFile-Inv, Req-Inv, enter-Inv, enter-Later, mark_head-Inv, mark_head-Later,
  leave-prov_list,
}

module _ {T : Type 0} where
  -- the provision nodes that are not marked, and the provisions that are still listed
  pub unmarked : State T → ℕ
  unmarked s = count_below (λ x. not (s.prov x).in_progress) s.next_prov

  pub listed : State T → ℕ
  listed s = sum_below (λ f. length (s.file f).prov_list) s.next_file

  pub unmarked_mono : (s t : State T) → Later s t → unmarked t ≤ unmarked s
  unfolding unmarked
  unmarked_mono s t l =
      rw l.next_prov (count_below_mono _ _ (λ x. ground (arith, l.prov x)) s.next_prov)

  pub listed_mono : (s t : State T) → Later s t → listed t ≤ listed s
  unfolding listed
  listed_mono s t l =
      rw l.next_file (sum_below_mono _ _ (λ f. ground (arith, l.file f)) s.next_file)

  pub listed_drop :
      (s t : State T)
      → Later s t
      → (f y : ℕ) → y ∈ (s.file f).prov_list
      → f < s.next_file
      → (t.file f).prov_list ≡ []
      → listed t < listed s
  unfolding listed
  listed_drop s t l f y m b e = rw l.next_file (
      sum_below_drop _ _ (λ g. ground (arith, l.file g)) s.next_file f b
        (ground (arith, length-pos y (s.file f).prov_list)))

module _ (H : HashTable) (own : ℕ → ℕ) where
  open H use {get_value, get_key}

  mark_head-unmarked :
      (h : ℕ) (s : St H)
      → h < s.next_prov
      → (s.prov h).in_progress ≡ false
      → unmarked (mark_head H h s) < unmarked s
  unfolding unmarked mark_head
  mark_head-unmarked h s b e =
      count_below_drop _ _ (λ x. ground arith) s.next_prov h b (ground arith) (ground arith)

  -- a call that returns, and what is left of the file's list
  abbrev Returns : Option (St H) → Type 0
  Returns r = (t : St H) × (r ≡ some t)

  abbrev work : St H → ℕ
  work s = unmarked s + listed s

  DoFile-empty : {f : ℕ} {s t : St H} → DoFile H f s t → (t.file f).prov_list ≡ []
  DoFile-empty (run {f} {s} {t} r e) = ground (arith, leave-prov_list f (s.file f).in_progress t f)

  module _ (call : ℕ → St H → Option (St H)) (n : ℕ)
      (ends : (f : ℕ) (s : St H) → Inv H own s → work s < n → Returns (call f s))
      (sound : (f : ℕ) (s t : St H) → call f s ≡ some t → DoFile H f s t) where
    drain_ends :
        (k h : ℕ) (r : ℕ) (s : St H)
        → Inv H own s
        → h ≡ get_value s.table r
        → h ≢ null
        → work s < n
        → listed s < k
        → Returns (drain call k h s)
    unfolding drain
    drain_ends zero h r s i g z w b = absurd (omega arith)
    drain_ends (suc k) h r s i g z w b = elim (Bool-cases ((s.prov h).next == null)) [
      | inl z ↦ (s, ground arith)
      | inr nz ↦
          let p = (s.prov h).next in
          let f = (s.prov p).fnode in
          let (t, e) = ends f s i w in
          let d = sound f s t e in
          let (j, later) = DoFile-Inv H own d i in
          let l : Live s.next_prov s.prov h = ground (arith, i.value-Live r) in
          let fw = i.linked.fwd h l (ground arith) in
          let m : p ∈ (s.file f).prov_list = i.linked.listed p fw.live fw.inner in
          let less = listed_drop s t later f p m (i.filed_below f p m) (DoFile-empty d) in
          let (u, e') =
            drain_ends k h r t j (ground (arith, later)) z (omega (arith, unmarked_mono s t later))
              (omega arith) in
          (u, ground arith)
    ]

    satisfy_req_ends :
        (r : ℕ) (name : Str) (s : St H)
        → Inv H own s
        → work s ≤ n
        → Returns (satisfy_req H call n r name s)
    unfolding satisfy_req
    satisfy_req_ends r name s i w =
        let h = get_value s.table r in
        elim (Bool-cases (h == null)) [
          | inl z ↦ (fail (no_providers (get_key s.table r) name) s, rw z)
          | inr nz ↦ elim (Bool-cases ((s.prov h).next == null)) [
            | inl z ↦ (s, rw (nz, z))
            | inr nn ↦ elim (Bool-cases (s.prov h).in_progress) [
              | inl p ↦ (fail (circular_provision (get_key s.table r) name) s, rw (nz, nn, p))
              | inr np ↦
                  let l = mark_head-Later H own h s in
                  let live = i.value-Live r (ground arith) in
                  let less = mark_head-unmarked h s live.below np in
                  let same = listed_mono s (mark_head H h s) l in
                  let (t, e) =
                    drain_ends n h r (mark_head H h s) (mark_head-Inv H own h s i)
                      (ap (λ t. get_value t r) (sym l.table)) (ground arith) (omega arith)
                      (omega arith) in
                  (t, rw (nz, nn, np) e)
            ]
          ]
        ]

    satisfy_reqs_ends :
        (rs : List ℕ) (name : Str) (s : St H)
        → Inv H own s
        → work s ≤ n
        → Returns (satisfy_reqs H call n rs name s)
    unfolding satisfy_reqs
    satisfy_reqs_ends [] name s i w = (s, refl)
    satisfy_reqs_ends (r ∷ rs) name s i w =
        let (t, e) = satisfy_req_ends r name s i w in
        let (j, later) = Req-Inv H own (satisfy_req-Req H call sound n r name s t e) i in
        let (u, e') =
          satisfy_reqs_ends rs name t j
            (omega (arith, unmarked_mono s t later, listed_mono s t later)) in
        (u, ground arith)

  -- Enough fuel: more than there are provision nodes without a mark and listed provisions.
  pub do_file_ends : (n f : ℕ) (s : St H) → Inv H own s → work s < n → Returns (do_file H n f s)
  unfolding do_file
  do_file_ends zero f s i w = absurd (omega arith)
  do_file_ends (suc n) f s i w =
      let l = enter-Later f s in
      let (t, e) =
        satisfy_reqs_ends (do_file H n) n (do_file_ends n) (do_file-DoFile H n) (s.file f).req_list
          (s.file f).filename (enter f s) (enter-Inv H own f s i)
          (omega (arith, unmarked_mono s _ l, listed_mono s _ l)) in
      (leave f (s.file f).in_progress t, ground arith)
