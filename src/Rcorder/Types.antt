-- ===== src/Rcorder/Types.antt =====
-- src/rcorder.c, the structures: `filenode`, `provnode` and the lists that hang from them, the
-- warnings, and the program's global state with its two heaps.
use peso.Base.{ℕ, Bool, List}

-- A C string: its bytes up to the NUL.
abbrev pub Str : Type 0
Str = List ℕ

-- A pointer is an address, and NULL is 0. `fn_head` points at the static node `fn_head_s`.
abbrev pub null : ℕ
null = 0

abbrev pub fn_head : ℕ
fn_head = 1

-- `struct provnode`; `freed` says that the node was given back by `free`.
pub record ProvNode : Type 0 where
  pub head : Bool
  pub in_progress : Bool
  pub fnode : ℕ
  pub next : ℕ
  pub last : ℕ
  pub freed : Bool

-- `struct filenode`. The singly linked lists `f_reqnode`, `f_provnode` and `strnodelist` are
-- sequences, the first node first: of hash entries, of provision nodes and of words.
pub record FileNode : Type 0 where
  pub filename : Str
  pub in_progress : Bool
  pub next : ℕ
  pub last : ℕ
  pub req_list : List ℕ
  pub prov_list : List ℕ
  pub keyword_list : List Str

-- What `warn` and `warnx` report, with the texts that they put in.
pub data Warning : Type 0 where
  debug_ignored : Warning
  could_not_stat could_not_open no_regular_file circular_file : Str → Warning
  before_unknown no_providers circular_provision : (name filename : Str) → Warning

-- The global variables. `file` and `prov` are the two heaps, `next_file` and `next_prov` the first
-- addresses that are not in use, `fake` the static counter of `make_fake_provision`. `output` holds
-- the file nodes whose names were printed, and `warnings` what was reported, the latest first.
pub record State (Table : Type 0) : Type 0 where
  pub table : Table
  pub file : ℕ → FileNode
  pub next_file : ℕ
  pub prov : ℕ → ProvNode
  pub next_prov : ℕ
  pub bl_list : List (ℕ × Str)
  pub keep_list : List Str
  pub skip_list : List Str
  pub fake : ℕ
  pub exit_code : ℕ
  pub output : List ℕ
  pub warnings : List Warning
