-- ===== src/Rcorder/Order.antt =====
-- src/rcorder.c, from `satisfy_req` to `generate_ordering`: the traversal that prints the files.
pub mod Trace
pub mod Invariant
pub mod Terminates
pub mod Once
pub mod Files
pub mod Front
pub mod Generate
pub mod Drained
pub mod Quiet
pub mod Provider
pub mod Leave
pub mod Sorted
use peso.Base.{
  ℕ, zero, suc, Bool, true, false, not, ◌&&◌, ◌||◌, List, [], ◌∷◌, Option, none, some, ◌==◌,
  if◌then◌else◌, update, str_eq,
}
use peso.Rcorder.Types.{
  Str, null, fn_head, FileNode, Warning, circular_file, no_providers, circular_provision, State,
}
use peso.Rcorder.Unlink.{unlink_provs}
use peso.Rcorder.Hash.{HashTable}

-- Whether some word of the second list is in the first: the two loops of `skip_ok` and `keep_ok`.
unfoldable pub any_match_word : Str → List Str → Bool
any_match_word w [] = false
any_match_word w (k ∷ ks) = str_eq k w || any_match_word w ks

unfoldable pub any_match : List Str → List Str → Bool
any_match [] ks = false
any_match (w ∷ ws) ks = any_match_word w ks || any_match ws ks

unfoldable pub is_nil : List Str → Bool
is_nil [] = true
is_nil (w ∷ ws) = false

-- if ( fnode -> next ) fnode -> next -> last = fnode -> last
unfoldable pub skip_back : ℕ → (ℕ → FileNode) → ℕ → FileNode
skip_back f h =
    let n = (h f).next in if n == null then h else update h n (record (h n) { last = (h f).last })

-- if ( fnode -> last ) fnode -> last -> next = fnode -> next
unfoldable pub skip_over : ℕ → (ℕ → FileNode) → ℕ → FileNode
skip_over f h =
    let l = (h f).last in if l == null then h else update h l (record (h l) { next = (h f).next })

module _ {T : Type 0} where
  unfoldable pub skip_ok : State T → ℕ → Bool
  skip_ok s f = if any_match s.skip_list (s.file f).keyword_list then false else true

  unfoldable pub keep_ok : State T → ℕ → Bool
  unfolding any_match is_nil
  keep_ok s f = if any_match s.keep_list (s.file f).keyword_list then true else is_nil s.keep_list

  -- `warnx ( … )`
  abbrev pub warn : Warning → State T → State T
  warn w s = record s { warnings = w ∷ s.warnings }

  -- `warnx ( … ) ; exit_code = 1`
  abbrev pub fail : Warning → State T → State T
  fail w s = record s { warnings = w ∷ s.warnings; exit_code = 1 }

  -- `fnode -> in_progress = SET`, with the warning if it was set
  unfoldable pub enter : ℕ → State T → State T
  enter f s =
      let marked = λ (t : State T). record t {
        file = update t.file f (record (t.file f) { in_progress = true });
      } in
      if (s.file f).in_progress
      then marked (fail (circular_file (s.file f).filename) s)
      else marked s

  -- the requirements and the provisions of the file are dropped
  unfoldable pub drop_lists : ℕ → State T → State T
  drop_lists f s = record s {
    file = update s.file f (record (s.file f) { req_list = []; prov_list = [] });
    prov = unlink_provs (s.file f).prov_list s.prov;
  }

  -- `printf ( "%s\n", fnode -> filename )`, unless it was in progress or the keywords forbid it
  unfoldable pub print_file : ℕ → Bool → State T → State T
  print_file f was_set s =
      if not was_set && skip_ok s f && keep_ok s f then record s { output = f ∷ s.output } else s

  unfoldable pub unlink_file : ℕ → State T → State T
  unfolding skip_back skip_over
  unlink_file f s = record s { file = skip_over f (skip_back f s.file) }

  -- `do_file` behind the loop over the requirements
  unfoldable pub leave : ℕ → Bool → State T → State T
  leave f was_set s = unlink_file f (print_file f was_set (drop_lists f s))

  -- `while ( NULL != head -> next ) do_file ( head -> next -> fnode )`, on fuel
  unfoldable pub drain : (ℕ → State T → Option (State T)) → ℕ → ℕ → State T → Option (State T)
  drain call zero h s = none
  drain call (suc k) h s = elim ((s.prov h).next == null) [
    | true ↦ some s
    | false ↦ elim (call (s.prov (s.prov h).next).fnode s) [
      | none ↦ none
      | some t ↦ drain call k h t
    ]
  ]

module _ (H : HashTable) where
  open H use {Table, get_value, get_key}

  abbrev pub St : Type 0
  St = State Table

  -- `head -> in_progress = SET`
  unfoldable pub mark_head : ℕ → St → St
  mark_head h s = record s { prov = update s.prov h (record (s.prov h) { in_progress = true }) }

  -- `call` is `do_file`, and `k` the fuel of the loop
  unfoldable pub satisfy_req : (ℕ → St → Option St) → ℕ → ℕ → Str → St → Option St
  satisfy_req call k entry filename s =
      let h = get_value s.table entry in
      if h == null
      then some (fail (no_providers (get_key s.table entry) filename) s)
      else if (s.prov h).next == null
      then some s
      else if (s.prov h).in_progress
      then some (fail (circular_provision (get_key s.table entry) filename) s)
      else drain call k h (mark_head h s)

  -- the loop over `fnode -> req_list`
  unfoldable pub satisfy_reqs : (ℕ → St → Option St) → ℕ → List ℕ → Str → St → Option St
  satisfy_reqs call k [] filename s = some s
  satisfy_reqs call k (r ∷ rs) filename s = elim (satisfy_req call k r filename s) [
    | none ↦ none
    | some t ↦ satisfy_reqs call k rs filename t
  ]

  -- `none` means that the fuel ran out.
  unfoldable pub do_file : ℕ → ℕ → St → Option St
  do_file zero f s = none
  do_file (suc n) f s =
      elim (satisfy_reqs (do_file n) n (s.file f).req_list (s.file f).filename (enter f s)) [
        | none ↦ none
        | some t ↦ some (leave f (s.file f).in_progress t)
      ]

  -- `while ( NULL != fn_head -> next ) do_file ( fn_head -> next )`, with `k` rounds at most and
  -- fuel `n` for each call
  unfoldable pub generate_ordering : ℕ → ℕ → St → Option St
  generate_ordering zero n s = none
  generate_ordering (suc k) n s = elim ((s.file fn_head).next == null) [
    | true ↦ some s
    | false ↦ elim (do_file n (s.file fn_head).next s) [
      | none ↦ none
      | some t ↦ generate_ordering k n t
    ]
  ]
