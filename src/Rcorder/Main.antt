-- ===== src/Rcorder/Main.antt =====
-- src/rcorder.c, `main`, `initialize` and `crunch_all_files`. What `getopt` returns is an argument:
-- the options with their arguments, and the operands.
pub mod Whole
use peso.Base.{ℕ, false, List, [], ◌∷◌, Option, none, some, length}
use peso.Rcorder.Types.{Str, null, ProvNode, FileNode, Warning, debug_ignored}
use peso.Rcorder.Hash.{HashTable}
use peso.Rcorder.Order.{St, generate_ordering}
use peso.Rcorder.Build.{strnode_add, insert_before}
use peso.Rcorder.Crunch.{Source, crunch_file}

-- An option that `getopt` returns, with `optarg`.
pub data Opt : Type 0 where
  opt_c opt_k opt_s : Str → Opt
  opt_d other : Opt

-- `comment`, `keep_list` and `skip_list`, and the warnings about `-d`
pub record Options : Type 0 where
  pub comment : Str
  pub keep_list : List Str
  pub skip_list : List Str
  pub warnings : List Warning

abbrev pub no_options : Options
no_options = record { comment = []; keep_list = []; skip_list = []; warnings = [] }

-- the `switch` in `main`; an empty argument is ignored
unfoldable pub take_option : Opt → Options → Options
unfolding strnode_add
take_option (opt_c []) o = o
take_option (opt_c (c ∷ w)) o = record o { comment = c ∷ w }
take_option opt_d o = record o { warnings = debug_ignored ∷ o.warnings }
take_option (opt_k []) o = o
take_option (opt_k (c ∷ w)) o = record o { keep_list = strnode_add o.keep_list (c ∷ w) }
take_option (opt_s []) o = o
take_option (opt_s (c ∷ w)) o = record o { skip_list = strnode_add o.skip_list (c ∷ w) }
take_option other o = o

-- the `while` loop over the options
unfoldable pub take_options : List Opt → Options → Options
unfolding take_option
take_options [] o = o
take_options (p ∷ ps) o = take_options ps (take_option p o)

-- A node of memory that was not given out yet.
abbrev pub blank_file : FileNode
blank_file = record {
  filename = [];
  in_progress = false;
  next = null;
  last = null;
  req_list = [];
  prov_list = [];
  keyword_list = [];
}

abbrev pub blank_prov : ProvNode
blank_prov = record {
  head = false;
  in_progress = false;
  fnode = null;
  next = null;
  last = null;
  freed = false;
}

module _ (H : HashTable) where
  -- The globals after `initialize`.
  unfoldable pub initialize : ℕ → Options → St H
  initialize file_count o = record {
    table = H.init_table file_count;
    file = λ _. blank_file;
    next_file = 2;
    prov = λ _. blank_prov;
    next_prov = 1;
    bl_list = [];
    keep_list = o.keep_list;
    skip_list = o.skip_list;
    fake = 0;
    exit_code = 0;
    output = [];
    warnings = o.warnings;
  }

  unfoldable pub crunch_files : (Str → Source) → Str → List Str → St H → Option (St H)
  crunch_files fs comment [] s = some s
  crunch_files fs comment (f ∷ file_list) s = elim (crunch_file H fs comment f s) [
    | none ↦ none
    | some t ↦ crunch_files fs comment file_list t
  ]

  unfoldable pub crunch_all_files : (Str → Source) → Str → List Str → St H → Option (St H)
  unfolding crunch_files
  crunch_all_files fs comment file_list s = elim (crunch_files fs comment file_list s) [
    | none ↦ none
    | some t ↦ insert_before H t
  ]

  -- `main`, with fuel for the rounds of the main loop and the calls in it
  unfoldable pub main : ℕ → ℕ → (Str → Source) → List Opt → List Str → Option (St H)
  unfolding take_options initialize crunch_all_files
  main rounds fuel fs opts file_list =
      let o = take_options opts no_options in
      elim (crunch_all_files fs o.comment file_list (initialize (length file_list) o)) [
        | none ↦ none
        | some s ↦ generate_ordering H rounds fuel s
      ]
