-- ===== src/Rcorder/Assoc.antt =====
-- A hash table as a list of keys, for the tests: the entry of a key is the number of keys that were
-- there before it, plus one.
use peso.Base.{
  ℕ, suc, ◌≡◌, refl, Bool, true, false, ◌&&◌, List, [], ◌∷◌, Option, none, some, arith, ◌==◌,
  if◌then◌else◌, length, update, str_eq, Bool-cases, inl, inr, ltb, ◌≤◌, sym, ◌∙◌, str_eq-eq,
}
use peso.Rcorder.Types.{Str, null}
use peso.Rcorder.Hash.{HashTable}

pub record Keys : Type 0 where
  pub keys : List Str
  pub values : ℕ → ℕ

unfoldable pub find_key : Str → List Str → Option ℕ
find_key k [] = none
find_key k (j ∷ js) = if str_eq j k then some (suc (length js)) else find_key k js

unfoldable pub key_at : List Str → ℕ → Str
key_at [] e = []
key_at (j ∷ js) e = if suc (length js) == e then j else key_at js e

unfoldable pub create : Keys → Str → Keys × ℕ × Bool
unfolding find_key
create t k = elim (find_key k t.keys) [
  | some e ↦ (t, e, false)
  | none ↦
      let e = suc (length t.keys) in
      (record { keys = k ∷ t.keys; values = update t.values e null }, e, true)
]

pub create_found :
    (t : Keys) (k : Str) (e : ℕ) → find_key k t.keys ≡ some e → create t k ≡ (t, e, false)
unfolding create
create_found t k e h = ground arith

pub create_new : (t : Keys) (k : Str) → find_key k t.keys ≡ none → (create t k).2 ≡ true
unfolding create
create_new t k h = ground arith

pub value_create :
    (t : Keys) (k : Str) (e : ℕ)
    → (create t k).0.values e ≡ (if (create t k).2 && e == (create t k).1 then null else t.values e)
unfolding create
value_create t k e = ground arith

-- Of more distinct keys than the list has, one is not in it.
pub find_missing :
    (keys : List Str) (key : ℕ → Str)
    → ((i j : ℕ) → key i ≡ key j → i ≡ j)
    → (i : ℕ) × (i ≤ length keys) × (find_key (key i) keys ≡ none)
unfolding find_key
find_missing [] key inj = (0, omega arith, refl)
find_missing (j ∷ js) key inj =
    let (i, le, e) = find_missing js key inj in
    elim (Bool-cases (str_eq j (key i))) [
      | inr ne ↦ (i, omega arith, ground arith)
      | inl y ↦
          let skip = λ (k : ℕ). if ltb k i then k else suc k in
          let (k, le', e') =
            find_missing js (λ m. key (skip m))
              (λ m n q. ground (arith, inj (skip m) (skip n) q)) in
          (
            skip k,
            ground arith,
            elim (Bool-cases (str_eq j (key (skip k)))) [
              | inr ne ↦ ground arith
              | inl z ↦
                  let same : key (skip k) ≡ key i =
                    sym (str_eq-eq j (key (skip k)) z) ∙ str_eq-eq j (key i) y in
                  absurd (ground (arith, inj (skip k) i same))
            ],
          )
    ]

abbrev pub assoc : HashTable
unfolding create find_key key_at
assoc = record {
  Table = Keys;
  init_table = λ _. record { keys = []; values = λ _. null };
  find_entry = λ t k. find_key k t.keys;
  create_entry = create;
  get_value = λ t e. t.values e;
  set_value = λ t e v. record t { values = update t.values e v };
  get_key = λ t e. key_at t.keys e;
  num_entries = λ t. length t.keys;
  find_missing = λ t key inj. find_missing t.keys key inj;
  value_init = λ n e. refl;
  create_found = create_found;
  create_new = create_new;
  value_create = value_create;
  value_set = λ t e v d. refl;
}
