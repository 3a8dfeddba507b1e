-- ===== src/Rcorder/Hash.antt =====
-- The calls that rcorder makes of the hash table library (src/hash.h): an entry is an address, and
-- its client data is the address of the head node of a provision, or NULL.
use peso.Base.{ℕ, ◌≤◌, ◌≡◌, Bool, true, false, ◌&&◌, Option, none, some, ◌==◌, if◌then◌else◌}
use peso.Rcorder.Types.{Str, null}

pub record HashTable : Type 1 where
  pub Table : Type 0
  -- Hash_InitTable, Hash_FindEntry, Hash_CreateEntry (the entry, and `*newPtr`)
  pub init_table : ℕ → Table
  pub find_entry : Table → Str → Option ℕ
  pub create_entry : Table → Str → Table × ℕ × Bool
  -- Hash_GetValue, Hash_SetValue, Hash_GetKey
  pub get_value : Table → ℕ → ℕ
  pub set_value : Table → ℕ → ℕ → Table
  pub get_key : Table → ℕ → Str
  -- the entries that the table holds
  pub num_entries : Table → ℕ
  -- Of more keys than there are entries, one is not in the table.
  pub find_missing :
      (t : Table) (key : ℕ → Str)
      → ((i j : ℕ) → key i ≡ key j → i ≡ j)
      → (i : ℕ) × (i ≤ num_entries t) × (find_entry t (key i) ≡ none)
  -- No entry of a new table has client data.
  pub value_init : (n e : ℕ) → get_value (init_table n) e ≡ null
  -- An existing entry is found again, and the table stays as it is.
  pub create_found :
      (t : Table) (k : Str) (e : ℕ) → find_entry t k ≡ some e → create_entry t k ≡ (t, e, false)
  -- Otherwise an entry is made, and `*newPtr` says so.
  pub create_new : (t : Table) (k : Str) → find_entry t k ≡ none → (create_entry t k).2 ≡ true
  -- A new entry has no client data, and all others keep theirs.
  pub value_create :
      (t : Table) (k : Str) (e : ℕ)
      → get_value (create_entry t k).0 e
        ≡ (if (create_entry t k).2 && e == (create_entry t k).1 then null else get_value t e)
  pub value_set :
      (t : Table) (e v d : ℕ)
      → get_value (set_value t e v) d ≡ (if d == e then v else get_value t d)
