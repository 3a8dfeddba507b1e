-- ===== src/Rcorder/Examples.antt =====
-- The theorems on src/rcorder.c at concrete inputs: the file `net` needs what the file `disk` provides.
use peso.Base.{
  ℕ, suc, ◌+◌, ◌<◌, ◌≡◌, ◌≢◌, refl, inl, inr, [], ◌∷◌, some, ◌==◌, if◌then◌else◌, arith, ◌∙◌,
  Bool-cases, codes, update, count,
}
use peso.Rcorder.Types.{Str, null, fn_head}
use peso.Rcorder.Hash.{HashTable}
use peso.Rcorder.Unlink.{Linked, unlink_provs, unlink_provs-Linked}
use peso.Rcorder.Order.{St, generate_ordering}
use peso.Rcorder.Order.Once.{chosen}
use peso.Rcorder.Order.Terminates.{unmarked, listed}
use peso.Rcorder.Order.Quiet.{IsRanked, Needs, Ordered}
use peso.Rcorder.Order.Generate.{generate_prints_once}
use peso.Rcorder.Order.Sorted.{generate_orders}
use peso.Rcorder.Words.{parse_line, is_word, is_delim}
use peso.Rcorder.Words.Split.{words, add_words, parse_line-words}
use peso.Rcorder.Words.Spread.{spread, words_of, parse_line-spread}
use peso.Rcorder.Build.{filenode_new, push_prov, new_head, add_provide, add_require, insert_before}
use peso.Rcorder.Build.Fresh.{Built}
use peso.Rcorder.Build.Grow.{filenode_new-Built}
use peso.Rcorder.Build.Steps.{add_word-Kept}
use peso.Rcorder.Build.Insert.{insert_before-Built}
use peso.Rcorder.Crunch.{crunch_lines, add_word, require, provide}
use peso.Rcorder.Crunch.Block.{first_block, lines, enter_block, crunch_lines-first_block}
use peso.Rcorder.Crunch.Reads.{crunch_files-Built}
use peso.Rcorder.Main.{no_options, initialize, main, crunch_files}
use peso.Rcorder.Main.Whole.{Read, initialize-Built, main_prints_once}
use peso.Rcorder.Assoc.{assoc}
use peso.Rcorder.Tests.{files, names}

main_prints_once_example :
    (s : St assoc) × Read assoc files [] names s
    × (rounds : ℕ) × (fuel : ℕ) × (t : St assoc) × (main assoc rounds fuel files [] names ≡ some t)
    × ((f : ℕ) → fn_head < f → f < s.next_file → count f t.output ≡ (if chosen s f then 1 else 0))
main_prints_once_example = main_prints_once assoc files [] names

-- `net` is file 2 and `disk` is file 3.
unfoldable empty_state : St assoc
empty_state = initialize assoc 2 no_options

unfoldable with_net : St assoc
unfolding empty_state
with_net = (filenode_new (codes "net") empty_state).1

unfoldable net_requires : St assoc
unfolding with_net
net_requires = add_word assoc require 2 (codes "disk") with_net

unfoldable with_disk : St assoc
unfolding net_requires
with_disk = (filenode_new (codes "disk") net_requires).1

unfoldable disk_provides : St assoc
unfolding with_disk
disk_provides = add_word assoc provide 3 (codes "disk") with_disk

empty_state-Built : Built assoc empty_state
unfolding empty_state
empty_state-Built = initialize-Built assoc 2 no_options

with_net-files : with_net.next_file ≡ 3
unfolding with_net initialize filenode_new
with_net-files = refl

net_requires-Built : Built assoc net_requires
unfolding net_requires
net_requires-Built =
    (add_word-Kept assoc require 2 (codes "disk") with_net (omega arith)
      (omega (arith, with_net-files))
      (filenode_new-Built assoc (codes "net") empty_state empty_state-Built)).built

with_disk-Built : Built assoc with_disk
unfolding with_disk
with_disk-Built = filenode_new-Built assoc (codes "disk") net_requires net_requires-Built

with_disk-files : with_disk.next_file ≡ 4
unfolding with_disk initialize filenode_new add_word add_require
with_disk-files = refl

disk_provides-Built : Built assoc disk_provides
unfolding disk_provides
disk_provides-Built =
    (add_word-Kept assoc provide 3 (codes "disk") with_disk (omega arith)
      (omega (arith, with_disk-files)) with_disk-Built).built

generate_prints_once_example :
    (t : St assoc) × (generate_ordering assoc
        (suc (disk_provides.file fn_head).next)
        (suc (unmarked disk_provides + listed disk_provides))
        disk_provides
      ≡ some t)
    × ((f : ℕ)
        → fn_head < f
        → f < disk_provides.next_file
        → count f t.output ≡ (if chosen disk_provides f then 1 else 0))
generate_prints_once_example =
    generate_prints_once assoc disk_provides-Built.own disk_provides disk_provides-Built.fresh

-- `disk` has the rank 0, all others 1.
abbrev rank : ℕ → ℕ
rank f = if f == 3 then 0 else 1

-- Which lists of a file each operation changes.
module _ (H : HashTable) (s : St H) (g : ℕ) where
  filenode_new-lists :
      (name : Str)
      → (((s.file g).prov_list ≡ []) → ((filenode_new name s).1.file g).prov_list ≡ [])
        × (((s.file g).req_list ≡ []) → ((filenode_new name s).1.file g).req_list ≡ [])
  unfolding filenode_new
  filenode_new-lists name = (λ e. ground (arith, e), λ e. ground (arith, e))

  require-lists :
      (f : ℕ) (w : Str)
      → (((add_word H require f w s).file g).prov_list ≡ (s.file g).prov_list)
        × ((g ≢ f) → ((add_word H require f w s).file g).req_list ≡ (s.file g).req_list)
  unfolding add_word add_require
  require-lists f w = (ground arith, λ n. ground (arith, n))

  push_prov-lists :
      (f h : ℕ)
      → (((push_prov f h s).file g).req_list ≡ (s.file g).req_list)
        × ((g ≢ f) → ((push_prov f h s).file g).prov_list ≡ (s.file g).prov_list)
  unfolding push_prov
  push_prov-lists f h = (ground arith, λ n. ground (arith, n))

provide-lists :
    (H : HashTable) (s : St H) (g f : ℕ) (w : Str)
    → (((add_word H provide f w s).file g).req_list ≡ (s.file g).req_list)
      × ((g ≢ f) → ((add_word H provide f w s).file g).prov_list ≡ (s.file g).prov_list)
unfolding add_word add_provide new_head
provide-lists H s g f w =
    let r = H.create_entry s.table w in
    let s1 = record s { table = r.0 } in
    elim (Bool-cases (H.get_value r.0 r.1 == null)) [
      | inl z ↦ rw z (push_prov-lists H (new_head H r.1 s1).1 g f s.next_prov)
      | inr n ↦ rw n (push_prov-lists H s1 g f (H.get_value r.0 r.1))
    ]

empty_state-lists :
    (g : ℕ) → ((empty_state.file g).prov_list ≡ []) × ((empty_state.file g).req_list ≡ [])
unfolding empty_state initialize
empty_state-lists g = (refl, refl)

with_net-lists : (g : ℕ) → ((with_net.file g).prov_list ≡ []) × ((with_net.file g).req_list ≡ [])
unfolding with_net
with_net-lists g =
    let (p, r) = empty_state-lists g in
    let (fp, fr) = filenode_new-lists assoc empty_state g (codes "net") in (fp p, fr r)

with_disk-lists :
    (g : ℕ) → ((with_disk.file g).prov_list ≡ []) × ((g ≢ 2) → (with_disk.file g).req_list ≡ [])
unfolding with_disk net_requires
with_disk-lists g =
    let (p, r) = with_net-lists g in
    let (ap, ar) = require-lists assoc with_net g 2 (codes "disk") in
    let (fp, fr) = filenode_new-lists assoc net_requires g (codes "disk") in
    (fp (ap ∙ p), λ n. fr (ar n ∙ r))

disk_provides-lists :
    (g : ℕ)
    → ((g ≢ 3) → (disk_provides.file g).prov_list ≡ [])
      × ((g ≢ 2) → (disk_provides.file g).req_list ≡ [])
unfolding disk_provides
disk_provides-lists g =
    let (p, r) = with_disk-lists g in
    let (ar, ap) = provide-lists assoc with_disk g 3 (codes "disk") in
    (λ n. ap n ∙ p, λ n. ar ∙ r n)

disk_provides-IsRanked : IsRanked assoc disk_provides-Built.own disk_provides rank
disk_provides-IsRanked f r g y m n p e =
    ground (arith, disk_provides-lists g, disk_provides-lists f)

generate_orders_example :
    (t : St assoc) × (generate_ordering assoc
        (suc (disk_provides.file fn_head).next)
        (suc (unmarked disk_provides + listed disk_provides))
        disk_provides
      ≡ some t)
    × Ordered (Needs assoc disk_provides-Built.own disk_provides) t.output
generate_orders_example =
    generate_orders assoc disk_provides-Built.own disk_provides rank disk_provides-Built.fresh
      disk_provides-IsRanked

parse_line-words_example :
    parse_line (add_word assoc require 2) 11 (codes " disk net\n") with_net
    ≡ some (add_words (add_word assoc require 2) (words (codes " disk net\n")) with_net)
parse_line-words_example =
    parse_line-words (add_word assoc require 2) 11 (codes " disk net\n") with_net (omega arith)

parse_line-spread_example :
    parse_line (add_word assoc require 2) 20 (codes " disk \tnet\n") with_net
    ≡ some (add_words (add_word assoc require 2) (codes "disk" ∷ codes "net" ∷ []) with_net)
unfolding is_word is_delim spread words_of
parse_line-spread_example =
    parse_line-spread (add_word assoc require 2) 20
      ((codes " ", codes "disk") ∷ (codes " \t", codes "net") ∷ []) (codes "\n") with_net
      (
        (refl, tt),
        refl,
        (refl, (refl, (refl, (refl, tt)))),
        ((refl, (refl, tt)), refl, (refl, (refl, (refl, tt))), tt),
      )
      (refl, tt) (refl, tt) (omega arith)

insert_before-Built_example :
    (t : St assoc) × (insert_before assoc disk_provides ≡ some t) × Built assoc t
insert_before-Built_example = insert_before-Built assoc disk_provides disk_provides-Built

crunch_files-Built_example :
    (t : St assoc) × (crunch_files assoc files [] names empty_state ≡ some t) × Built assoc t
crunch_files-Built_example = crunch_files-Built assoc files [] names empty_state empty_state-Built

unlink_provs-Linked_example :
    Linked disk_provides.next_prov disk_provides-Built.own
      (unlink_provs (disk_provides.file 3).prov_list disk_provides.prov)
      (update (λ f. (disk_provides.file f).prov_list) 3 [])
unlink_provs-Linked_example =
    unlink_provs-Linked (disk_provides.file 3).prov_list disk_provides.prov
      (λ f. (disk_provides.file f).prov_list) 3 disk_provides-Built.fresh.ready.inv.linked refl

abbrev net_script : Str
net_script = codes "#!/bin/sh\n# PROVIDE: net\n# REQUIRE: disk\n\n# BEFORE: log\n"

crunch_lines-first_block_example :
    crunch_lines assoc 60 [] 2 2 net_script with_net
    ≡ some (enter_block assoc [] 2 (first_block [] (lines 60 net_script)) with_net)
crunch_lines-first_block_example =
    crunch_lines-first_block assoc [] 2 60 net_script with_net (omega arith)
