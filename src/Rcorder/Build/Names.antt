-- ===== src/Rcorder/Build/Names.antt =====
-- src/rcorder.c, `make_fake_provision`: the names that it tries.
use peso.Base.{
  ℕ, zero, suc, ◌+◌, ◌-◌, ◌*◌, ◌/◌, ◌%◌, ◌≤◌, ◌<◌, ◌≡◌, ◌∙◌, sym, subst, ap, refl, [], ◌∷◌, none,
  some, arith, ◌==◌, ◌&&◌, Option-cases, Bool-cases, inl, inr, drop, pred,
}
use peso.Rcorder.Types.{Str}
use peso.Rcorder.Hash.{HashTable}
use peso.Rcorder.Order.{St}
use peso.Rcorder.Build.{digits, fake_name, fake_loop}

-- the number that decimal digits stand for, behind `acc`
value : ℕ → Str → ℕ
value acc [] = acc
value acc (c ∷ s) = value (acc * 10 + (c - b'0')) s

value-digits : (k w n : ℕ) (acc : Str) → n + w ≤ k → value 0 (digits k w n acc) ≡ value n acc
unfolding value digits
value-digits zero w n acc l = ap (λ m. value m acc) (omega arith)
value-digits (suc k) w n acc l =
    let e : n / 10 * 10 + (b'0' + n % 10 - b'0') ≡ n = omega arith in
    elim (Bool-cases (w == 0 && n == 0)) [
      | inl z ↦ ground arith
      | inr z ↦
          let i = value-digits k (pred w) (n / 10) ((b'0' + n % 10) ∷ acc) (ground arith) in
          rw (z, digits) (i ∙ ap (λ m. value m acc) e)
    ]

fake_name-inj : (i j : ℕ) → fake_name i ≡ fake_name j → i ≡ j
unfolding fake_name value
fake_name-inj i j e =
    sym (value-digits (i + 8) 8 i [] (omega arith))
    ∙ (ap (λ s. value 0 (drop 10 s)) e ∙ value-digits (j + 8) 8 j [] (omega arith))

module _ (H : HashTable) where
  open H use {find_entry, create_entry, create_found, create_new, num_entries, find_missing}

  -- The search came to an end: only the table and the counter differ, and the table is what one
  -- `Hash_CreateEntry` made of the old one.
  pub record Found (s : St H) (e : ℕ) (t : St H) : Type 0 where
    pub key : Str
    pub counter : ℕ
    pub state : t ≡ record s { table = (create_entry s.table key).0; fake = counter }

  fake_loop-Found :
      (i n : ℕ) (s : St H)
      → i < n
      → find_entry s.table (fake_name (s.fake + i)) ≡ none
      → (e : ℕ) × (t : St H) × (fake_loop H n s ≡ some (e, t)) × Found s e t
  unfolding fake_loop
  fake_loop-Found i zero s l m = absurd (omega arith)
  fake_loop-Found zero (suc n) s l m =
      let zero_right : s.fake + 0 ≡ s.fake = omega arith in
      let free : find_entry s.table (fake_name s.fake) ≡ none =
        subst (λ i. find_entry s.table (fake_name i) ≡ none) zero_right m in
      let r = create_entry s.table (fake_name s.fake) in
      let new = create_new s.table (fake_name s.fake) free in
      (
        r.1,
        record s { table = r.0; fake = suc s.fake },
        rw new,
        record { key = fake_name s.fake; counter = suc s.fake; state = refl },
      )
  fake_loop-Found (suc i) (suc n) s l m =
      elim (Option-cases (find_entry s.table (fake_name s.fake))) [
        | inl free ↦
            let r = create_entry s.table (fake_name s.fake) in
            let new = create_new s.table (fake_name s.fake) free in
            (
              r.1,
              record s { table = r.0; fake = suc s.fake },
              rw new,
              record { key = fake_name s.fake; counter = suc s.fake; state = refl },
            )
        | inr (d, found) ↦
            let next : s.fake + suc i ≡ suc s.fake + i = omega arith in
            let (e, t, p, f) =
              fake_loop-Found i n (record s { fake = suc s.fake }) (omega arith)
                (subst (λ j. find_entry s.table (fake_name j) ≡ none) next m) in
            (
              e,
              t,
              rw (create_found s.table (fake_name s.fake) d found) p,
              record { key = f.key; counter = f.counter; state = f.state },
            )
      ]

  -- With a name more than there are entries the search ends.
  pub fake_loop_ends :
      (s : St H)
      → (e : ℕ) × (t : St H) × (fake_loop H (suc (num_entries s.table)) s ≡ some (e, t))
        × Found s e t
  fake_loop_ends s =
      let (i, l, m) =
        find_missing s.table (λ j. fake_name (s.fake + j))
          (λ j k e. omega (arith, fake_name-inj (s.fake + j) (s.fake + k) e)) in
      fake_loop-Found i (suc (num_entries s.table)) s (omega arith) m
