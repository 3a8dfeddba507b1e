-- ===== src/Lib.antt =====
-- peso, the init suite: a model of the parts of src that carry its logic, and what is proved of it.
--
-- rcorder (src/rcorder.c) prints the names of files in the order in which they are to be run. `main`
-- takes the options, `crunch_all_files` reads the files and builds two heaps of nodes that are linked
-- with each other, and `generate_ordering` goes through them.
--   Rcorder/Types: the structures and the global variables; an address is a number, NULL is 0.
--   Rcorder/Hash: the hash table (src/hash.c, a library) as a record of its calls and their laws, and
--     Rcorder/Assoc: a table that keeps them.
--   Rcorder/Words, Rcorder/Crunch: `parse_line` and `crunch_file`, byte by byte.
--   Rcorder/Build: the functions that build the heaps, with children on what they keep.
--   Rcorder/Unlink, Rcorder/Order: `do_file`, `satisfy_req`, `generate_ordering`. The children of
--     Order have a derivation for each run (Trace), what every run keeps (Invariant, Files, Front),
--     its end (Terminates), what it prints (Once) and in which order (Quiet, Sorted and others).
--   Rcorder/Main: `main`, from the options and the files to the output.
-- The recursion of `do_file` is on fuel, which its marks bound: a file that is not marked is marked,
-- or a list of providers gets shorter. The fuel of the main loop is the address of the first file,
-- since addresses fall along the list. The fuel for `strtok_r`, `fgets` and the names that
-- `make_fake_provision` tries is the length of the text and the size of the table.
--
-- Stage 1 sets the system up, stage 2 watches over the services, stage 3 stops the system; reboot.c
-- makes the last call. Each stage is a program that takes the place of the one before.
--   Stage1: src/stage1.c. Mounts, Seed and Console have the functions that mount, make files and
--     devices, and set up the console, Main has `main`. A function takes the calls made before and
--     adds its own; what the system answers is the record World, and how it is built is Build. The
--     functions of icommon.c, which the repository does not hold, are part of these. The loop of
--     `dupfd2` is on fuel: a call that is interrupted is made again. Points says what `is_mount_point`
--     finds out; Careful, Returns, Order and Choice have the theorems.
--   Stage2: src/stage2.c. Its state is the record Scanner, with the table of services as a list.
--     Control: the handlers of signals and control commands, Control/Letters: a description of the
--     commands by tables; Kills: `killthem`; Reap: `reap`; Scan:
--     `trystart`, `check` and `scan`; Options: the options; Main: the init phase, the loop and the
--     finish phase. What the pipes, the directory, `fork`, the clock and the processes give in each
--     round is an argument; times are numbers of nanoseconds. The last loop of `scan` is on fuel, which
--     is the number of services; the loop of `main` goes as far as there are rounds. Table, Scan/Slots,
--     Scan/Keeps, Reap/Sums, Reap/Keeps and Main/Keeps are on the table, Scan/Waits, Reap/Sleeps and
--     Main/Sleeps on the restart times, Reap/Holds, Reap/Ended, Scan/Holds and Main/Holds on the
--     processes in the table, Reap/Lookup and Reap/Refines on the table without its order.
--   Stage3: src/stage3.c, from the options to `sys_down`; the flags of `f` are a record. The loops on
--     `vfork` and `pause` may run for ever, so they are on fuel, and a run without fuel left is told
--     from one that returns.
--   Reboot: src/reboot.c, `do_reboot` and `sys_reboot` as Linux builds them.
--   Os: the calls to the kernel of stage 3. Its answers are an argument, and the calls made are kept.
--   Bbinit: src/bbinit.c, the calls of `exec` in their order, of which the first that succeeds ends it.
--   Pause: src/pause.c, with the moments at which the signals arrive.
--   Runlevel: src/runlevel.c.
--   Examples, Rcorder/Examples, Rcorder/Tests: the theorems at concrete inputs.
--
-- Not modelled: the branches for other systems than Linux, and code between `#if 0`; text that is
-- printed by the stages; in src/stage2.c `set_rlimits`, which is not called, the newline that is
-- written to the descriptor of -d, and the numbers of descriptors that are closed; memory that runs
-- out, which ends the program; the scripts.
pub mod Base
pub mod Rcorder
pub mod Os
pub mod Reboot
pub mod Stage3
pub mod Runlevel
pub mod Stage1
pub mod Bbinit
pub mod Pause
pub mod Stage2
pub mod Examples
