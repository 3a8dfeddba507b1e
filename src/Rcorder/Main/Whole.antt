-- ===== src/Rcorder/Main/Whole.antt =====
-- src/rcorder.c, `main`: from the files to the output.
use peso.Base.{ℕ, suc, ◌+◌, ◌<◌, ◌≡◌, refl, List, some, arith, if◌then◌else◌, length, count}
use peso.Rcorder.Types.{Str, fn_head}
use peso.Rcorder.Hash.{HashTable}
use peso.Rcorder.Order.{St}
use peso.Rcorder.Order.Once.{chosen}
use peso.Rcorder.Order.Terminates.{unmarked, listed}
use peso.Rcorder.Order.Generate.{generate_prints_once}
use peso.Rcorder.Build.Fresh.{Built}
use peso.Rcorder.Build.Insert.{insert_before-Built}
use peso.Rcorder.Crunch.{Source}
use peso.Rcorder.Crunch.Reads.{crunch_files-Built}
use peso.Rcorder.Main.{Opt, Options, no_options, take_options, initialize, crunch_all_files, main}

module _ (H : HashTable) where
  open H use {get_value, value_init}

  pub initialize-Built : (n : ℕ) (o : Options) → Built H (initialize H n o)
  unfolding initialize
  initialize-Built n o = record {
    own = λ x. x;
    fresh = record {
      ready = record {
        inv = record {
          linked = record {
            fwd = λ x l. absurd (omega (arith, l.pos, l.below));
            bwd = λ x l. absurd (omega (arith, l.pos, l.below));
            heads = λ x l. absurd (omega (arith, l.pos, l.below));
            listed = λ x l. absurd (omega (arith, l.pos, l.below));
            lives = λ f y m. ground (arith, m);
            inner = λ f y m. refl;
            owner = λ f y m. ground (arith, m);
            distinct = λ f. ground arith;
          };
          value-Live = λ e v. absurd (v (value_init n e));
          value-head = λ e v. absurd (v (value_init n e));
          filed = λ f y m. ground (arith, m);
          filed_below = λ f y m. ground (arith, m);
        };
        chain = record {
          next_lt = λ x d. ground (arith, d.low, d.below);
          next_ne = λ x d. ground arith;
          next_gap = λ x z d w. ground (arith, d.low, d.below, w.file, w.above, w.under);
          last_Node = λ y d l. absurd (omega (arith, d.low, d.below, l));
          last_lt = λ y d l. absurd (omega (arith, d.low, d.below, l));
          last_gap = λ y z d l. absurd (omega (arith, d.low, d.below, l));
        };
        settled = λ f e. refl;
        first = λ n. absurd (n refl);
        sized = omega arith;
      };
      idle = λ f. refl;
      unmarked = λ x. refl;
      silent = refl;
    };
    pos = omega arith;
    befores = tt;
    front = λ f h l. absurd (omega arith);
  }

  -- The state that `generate_ordering` starts from: `crunch_all_files` returns, with well-formed heaps.
  crunch_all_files-Built :
      (fs : Str → Source) (comment : Str) (file_list : List Str) (s : St H)
      → Built H s
      → (t : St H) × (crunch_all_files H fs comment file_list s ≡ some t) × Built H t
  unfolding crunch_all_files
  crunch_all_files-Built fs comment file_list s b =
      let (t, e, c) = crunch_files-Built H fs comment file_list s b in
      let (u, d, a) = insert_before-Built H t c in (u, rw (e, crunch_all_files) d, a)

  -- The files are read, and `s` is what `generate_ordering` starts from.
  unfoldable pub Read : (Str → Source) → List Opt → List Str → St H → Type 0
  Read fs opts file_list s =
      crunch_all_files H fs (take_options opts no_options).comment file_list
        (initialize H (length file_list) (take_options opts no_options))
      ≡ some s

  -- For every hash table that keeps its laws, all files, options and operands: `main` comes
  -- to an end, and of the file nodes that it hands to `generate_ordering` it prints each one
  -- once that the keyword lists let through, and prints no other of them.
  pub main_prints_once :
      (fs : Str → Source) (opts : List Opt) (file_list : List Str)
      → (s : St H) × Read fs opts file_list s
        × (rounds : ℕ) × (fuel : ℕ) × (t : St H) × (main H rounds fuel fs opts file_list ≡ some t)
        × ((f : ℕ)
            → fn_head < f
            → f < s.next_file
            → count f t.output ≡ (if chosen s f then 1 else 0))
  unfolding main Read
  main_prints_once fs opts file_list =
      let o = take_options opts no_options in
      let (s, e, b) =
        crunch_all_files-Built fs o.comment file_list (initialize H (length file_list) o)
          (initialize-Built (length file_list) o) in
      let (t, d, once) = generate_prints_once H b.own s b.fresh in
      (s, e, suc (s.file fn_head).next, suc (unmarked s + listed s), t, rw (e, main) d, once)
