-- ===== src/Rcorder/Build.antt =====
-- src/rcorder.c, from `strnode_add` to `insert_before`: the functions that build the two heaps from
-- the words of the files. `emalloc` and `estrdup` end the program when memory runs out, so the
-- model goes on with a fresh address.
pub mod Lists
pub mod Fresh
pub mod Grow
pub mod Steps
pub mod Names
pub mod Insert
use peso.Base.{
  ℕ, zero, suc, ◌+◌, ◌*◌, ◌/◌, ◌%◌, Bool, true, false, ◌&&◌, List, [], ◌∷◌, ◌++◌, Option, none,
  some, ◌==◌, if◌then◌else◌, update, pred, codes,
}
use peso.Rcorder.Types.{Str, null, fn_head, ProvNode, FileNode, State, Warning, before_unknown}
use peso.Rcorder.Hash.{HashTable}
use peso.Rcorder.Order.{St, warn}

-- `strnode_add`: the new element goes to the front.
unfoldable pub strnode_add {ℓ} : {A : Type ℓ} → List A → A → List A
strnode_add l s = s ∷ l

-- the digits of "%08d": at least `width` of them, written in front of `acc`
unfoldable pub digits : ℕ → ℕ → ℕ → Str → Str
digits zero width n acc = acc
digits (suc k) width n acc =
    let more = digits k (pred width) (n / 10) ((b'0' + n % 10) ∷ acc) in
    if width == 0 && n == 0 then acc else more

-- snprintf ( buffer, sizeof buffer, "fake_prov_%08d", i )
unfoldable pub fake_name : ℕ → Str
unfolding digits
fake_name i = codes "fake_prov_" ++ digits (i + 8) 8 i []

module _ {T : Type 0} where
  -- the node of `fnode`, with a list put in
  abbrev pub set_file : ℕ → FileNode → State T → State T
  set_file f v s = record s { file = update s.file f v }

  abbrev pub set_prov : ℕ → ProvNode → State T → State T
  set_prov p v s = record s { prov = update s.prov p v }

  -- if ( temp -> next ) temp -> next -> last = temp
  unfoldable pub link_back : ℕ → State T → State T
  link_back f s =
      let n = (s.file f).next in
      if n == null then s else set_file n (record (s.file n) { last = f }) s

  -- The address of the new node, and the list with it at the front.
  unfoldable pub filenode_new : Str → State T → ℕ × State T
  unfolding link_back
  filenode_new filename s =
      let temp = s.next_file in
      let s1 =
        set_file temp
          (record {
            filename = filename;
            in_progress = false;
            next = (s.file fn_head).next;
            last = fn_head;
            req_list = [];
            prov_list = [];
            keyword_list = [];
          })
          (record s { next_file = suc temp }) in
      let s2 = link_back temp s1 in
      (temp, set_file fn_head (record (s2.file fn_head) { next = temp }) s2)

  unfoldable pub add_before : ℕ → Str → State T → State T
  unfolding strnode_add
  add_before f w s = record s { bl_list = strnode_add s.bl_list (f, w) }

  unfoldable pub add_keyword : ℕ → Str → State T → State T
  unfolding strnode_add
  add_keyword f w s =
      set_file f (record (s.file f) { keyword_list = strnode_add (s.file f).keyword_list w }) s

  -- A requirement of entry `e` for the file.
  unfoldable pub push_req : ℕ → ℕ → State T → State T
  push_req f e s = set_file f (record (s.file f) { req_list = e ∷ (s.file f).req_list }) s

  -- if ( pnode -> next ) pnode -> next -> last = pnode
  unfoldable pub link_prov_back : ℕ → State T → State T
  link_prov_back p s =
      let n = (s.prov p).next in
      if n == null then s else set_prov n (record (s.prov n) { last = p }) s

  -- A new provision of the file, at the front of the list of `head` and of the file's own.
  unfoldable pub push_prov : ℕ → ℕ → State T → State T
  unfolding link_prov_back
  push_prov f h s =
      let p = s.next_prov in
      let s1 =
        set_prov p
          (record {
            head = false;
            in_progress = false;
            fnode = f;
            next = (s.prov h).next;
            last = h;
            freed = false;
          })
          (record s { next_prov = suc p }) in
      let s2 = link_prov_back p (set_prov h (record (s1.prov h) { next = p }) s1) in
      set_file f (record (s2.file f) { prov_list = p ∷ (s2.file f).prov_list }) s2

module _ (H : HashTable) where
  open H use {Table, num_entries, create_entry, get_value, set_value}

  -- A new head node, as the client data of the entry.
  unfoldable pub new_head : ℕ → St H → ℕ × St H
  new_head e s =
      let h = s.next_prov in
      (
        h,
        set_prov h
            (record {
              head = true;
              in_progress = false;
              fnode = null;
              next = null;
              last = null;
              freed = false;
            })
            (record s { next_prov = suc h; table = set_value s.table e h }),
      )

  unfoldable pub add_require : ℕ → Str → St H → St H
  unfolding push_req
  add_require f w s =
      let (t, e, new) = create_entry s.table w in
      push_req f e (record s { table = if new then set_value t e null else t })

  unfoldable pub add_provide : ℕ → Str → St H → St H
  unfolding push_prov new_head
  add_provide f w s =
      let (t, e, new) = create_entry s.table w in
      let s1 = record s { table = t } in
      let (h, s2) = if get_value t e == null then new_head e s1 else (get_value t e, s1) in
      push_prov f h s2

  -- the loop that looks for a name that is not taken, on fuel: its entry
  unfoldable pub fake_loop : ℕ → St H → Option (ℕ × St H)
  unfolding fake_name
  fake_loop zero s = none
  fake_loop (suc n) s =
      let (t, e, new) = create_entry s.table (fake_name s.fake) in
      let s1 = record s { table = t; fake = suc s.fake } in
      let rest = fake_loop n s1 in if new then some (e, s1) else rest

  -- One name more than there are entries is enough.
  unfoldable pub make_fake_provision : ℕ → St H → Option (ℕ × St H)
  unfolding fake_loop push_prov new_head
  make_fake_provision f s = elim (fake_loop (suc (num_entries s.table)) s) [
    | none ↦ none
    | some (e, s1) ↦ let (h, s2) = new_head e s1 in some (e, push_prov f h s2)
  ]

  -- for ( pnode = … ; pnode ; pnode = pnode -> next ), on fuel: a requirement for each provider
  unfoldable pub require_fake : ℕ → ℕ → ℕ → St H → Option (St H)
  unfolding push_req
  require_fake zero p e s = none
  require_fake (suc n) p e s = elim (p == null) [
    | true ↦ some s
    | false ↦
        require_fake n (s.prov p).next e
          (if (s.prov p).head then s else push_req (s.prov p).fnode e s)
  ]

  -- the body of the loop in `insert_before`
  unfoldable pub insert_one : ℕ × Str → St H → Option (St H)
  unfolding make_fake_provision require_fake
  insert_one (f, w) s = elim (make_fake_provision f s) [
    | none ↦ none
    | some (fake, s1) ↦
        let (t, e, new) = create_entry s1.table w in
        let s2 = record s1 { table = t } in
        let s3 = if new then warn (before_unknown w (s.file f).filename) s2 else s2 in
        require_fake (suc s3.next_prov) (get_value t e) fake s3
  ]

  unfoldable pub insert_all : List (ℕ × Str) → St H → Option (St H)
  unfolding insert_one
  insert_all [] s = some s
  insert_all (b ∷ bs) s = elim (insert_one b s) [
    | none ↦ none
    | some t ↦ insert_all bs (record t { bl_list = bs })
  ]

  -- `while ( NULL != bl_list )`
  unfoldable pub insert_before : St H → Option (St H)
  unfolding insert_all
  insert_before s = insert_all s.bl_list s
