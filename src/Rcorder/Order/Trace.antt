-- ===== src/Rcorder/Order/Trace.antt =====
-- src/rcorder.c: the runs of `do_file` as derivations, one constructor for each way through the
-- code.
use peso.Base.{
  ℕ, zero, suc, ◌≡◌, ◌≢◌, true, false, List, [], ◌∷◌, Option, some, arith, ◌==◌, Bool-cases,
  Option-cases, inl, inr,
}
use peso.Rcorder.Types.{Str, null, no_providers, circular_provision}
use peso.Rcorder.Hash.{HashTable}
use peso.Rcorder.Order.{
  St, fail, enter, leave, mark_head, drain, satisfy_req, satisfy_reqs, do_file,
}

module _ (H : HashTable) where
  open H use {get_value, get_key}

  mutual
    pub data DoFile : ℕ → St H → St H → Type 0 where
      run :
          {f : ℕ} {s t u : St H}
          → Reqs (s.file f).req_list (s.file f).filename (enter f s) t
          → u ≡ leave f (s.file f).in_progress t
          → DoFile f s u

    pub data Reqs : List ℕ → Str → St H → St H → Type 0 where
      end : {name : Str} {s t : St H} → t ≡ s → Reqs [] name s t
      req :
          {r : ℕ} {rs : List ℕ} {name : Str} {s t u : St H}
          → Req r name s t
          → Reqs rs name t u
          → Reqs (r ∷ rs) name s u

    pub data Req : ℕ → Str → St H → St H → Type 0 where
      missing :
          {r : ℕ} {name : Str} {s t : St H}
          → get_value s.table r ≡ null
          → t ≡ fail (no_providers (get_key s.table r) name) s
          → Req r name s t
      satisfied :
          {r : ℕ} {name : Str} {s t : St H}
          → get_value s.table r ≢ null
          → (s.prov (get_value s.table r)).next ≡ null
          → t ≡ s
          → Req r name s t
      circular :
          {r : ℕ} {name : Str} {s t : St H}
          → get_value s.table r ≢ null
          → (s.prov (get_value s.table r)).next ≢ null
          → (s.prov (get_value s.table r)).in_progress ≡ true
          → t ≡ fail (circular_provision (get_key s.table r) name) s
          → Req r name s t
      drained :
          {r : ℕ} {name : Str} {s t : St H}
          → get_value s.table r ≢ null
          → (s.prov (get_value s.table r)).next ≢ null
          → (s.prov (get_value s.table r)).in_progress ≡ false
          → Drain (get_value s.table r) (mark_head H (get_value s.table r) s) t
          → Req r name s t

    pub data Drain : ℕ → St H → St H → Type 0 where
      stop : {h : ℕ} {s t : St H} → (s.prov h).next ≡ null → t ≡ s → Drain h s t
      more :
          {h : ℕ} {s t u : St H}
          → (s.prov h).next ≢ null
          → DoFile (s.prov (s.prov h).next).fnode s t
          → Drain h t u
          → Drain h s u

  -- A returning call of `do_file`, and what is built on one, has a derivation.
  abbrev pub Sound : (ℕ → St H → Option (St H)) → Type 0
  Sound call = (f : ℕ) (s t : St H) → call f s ≡ some t → DoFile f s t

  module _ (call : ℕ → St H → Option (St H)) (c : Sound call) (k : ℕ) where
    drain-Drain : (j h : ℕ) (s t : St H) → drain call j h s ≡ some t → Drain h s t
    unfolding drain
    drain-Drain zero h s t e = cc
    drain-Drain (suc j) h s t e = elim (Bool-cases ((s.prov h).next == null)) [
      | inl z ↦ stop (ground arith) (ground arith)
      | inr nz ↦ elim (Option-cases (call (s.prov (s.prov h).next).fnode s)) [
        | inl x ↦ absurd (ground arith)
        | inr (u, x) ↦ more (ground arith) (c _ s u x) (drain-Drain j h u t (ground arith))
      ]
    ]

    pub satisfy_req-Req :
        (r : ℕ) (name : Str) (s t : St H) → satisfy_req H call k r name s ≡ some t → Req r name s t
    unfolding satisfy_req
    satisfy_req-Req r name s t e =
        let h = get_value s.table r in
        elim (Bool-cases (h == null)) [
          | inl z ↦ missing (ground arith) (ground arith)
          | inr nz ↦ elim (Bool-cases ((s.prov h).next == null)) [
            | inl z ↦ satisfied (ground arith) (ground arith) (ground arith)
            | inr nn ↦ elim (Bool-cases (s.prov h).in_progress) [
              | inl p ↦ circular (ground arith) (ground arith) p (ground arith)
              | inr np ↦
                  drained (ground arith) (ground arith) np
                    (drain-Drain k h (mark_head H h s) t (ground arith))
            ]
          ]
        ]

    satisfy_reqs-Reqs :
        (rs : List ℕ) (name : Str) (s t : St H)
        → satisfy_reqs H call k rs name s ≡ some t
        → Reqs rs name s t
    unfolding satisfy_reqs
    satisfy_reqs-Reqs [] name s t e = end (ground arith)
    satisfy_reqs-Reqs (r ∷ rs) name s t e = elim (Option-cases (satisfy_req H call k r name s)) [
      | inl x ↦ absurd (ground arith)
      | inr (u, x) ↦
          req (satisfy_req-Req r name s u x) (satisfy_reqs-Reqs rs name u t (ground arith))
    ]

  pub do_file-DoFile : (n f : ℕ) (s t : St H) → do_file H n f s ≡ some t → DoFile f s t
  unfolding do_file
  do_file-DoFile zero f s t e = cc
  do_file-DoFile (suc n) f s t e =
      elim (Option-cases
        (satisfy_reqs H (do_file H n) n (s.file f).req_list (s.file f).filename (enter f s))) [
          | inl x ↦ absurd (ground arith)
          | inr (u, x) ↦
              run (satisfy_reqs-Reqs (do_file H n) (do_file-DoFile n) n _ _ _ u x) (ground arith)
        ]
