-- ===== src/Files/Tests.antt =====
-- The calls of src/kernel/core/file.c on a process 7 with a table at 10, where descriptors 0 and 2 are the
-- file at 1.
use kil0y_os.Prelude.{
  ℕ, ◌≡◌, refl, true, none, some, [], ◌∷◌, replicate, ◌==◌, arith, if◌then◌else◌, update,
}
use kil0y_os.Prelude.Int.{pos}
use kil0y_os.Files.{
  tty, File, Table, Store, fd_install, fd_close, fd_dup, fd_dup2, fd_table_fork, fd_table_exit,
}
use kil0y_os.Files.Counts.{count, count-some, count-none, count-replicate}
use kil0y_os.Files.Invariant.{Counted, plus}
use kil0y_os.Files.Calls.{Installed, Closed, fd_install_lem, fd_close_lem}
use kil0y_os.Files.Dup.{Duplicated, Replaced, fd_dup_lem, fd_dup2_lem}
use kil0y_os.Files.Fork.{Forked, fd_table_fork_lem}
use kil0y_os.Files.Exit.{Left, fd_table_exit_lem}

abbrev console : File
console = record { closes = true; kind = tty; priv = 0; refs = 2; flags = 0 }

abbrev table_10 : Table
table_10 = record { refs = 1; fds = some 1 ∷ none ∷ some 1 ∷ replicate 61 none }

abbrev store_7 : Store
store_7 = record {
  objects = update (λ f. none) 1 (some console);
  tables = (10, table_10) ∷ [];
  files = update (λ p. none) 7 (some 10);
  current = some 7;
  released = [];
}

abbrev nobody : ℕ → ℕ
nobody f = 0

count-table_10 : (f : ℕ) → count f table_10.fds ≡ (if 1 == f then 2 else 0)
count-table_10 f = ground (
  arith,
  count-some f 1 (none ∷ some 1 ∷ replicate 61 none),
  count-none f (some 1 ∷ replicate 61 none),
  count-some f 1 (replicate 61 none),
  count-replicate f 61,
)

store_7-Counted : Counted store_7 nobody
store_7-Counted = record {
  exact = λ f. ground (arith, count-table_10 f);
  small = λ f. ground arith;
  sized = λ t table e. ground (arith, e);
}

fd_close_example : Closed store_7 10 2 (pos 0) nobody (fd_close store_7 (pos 2) (pos 0))
fd_close_example =
    fd_close_lem store_7 10 table_10 refl refl 2 (pos 0) nobody (omega arith) store_7-Counted

fd_dup_example : Duplicated store_7 10 1 nobody (fd_dup store_7 (pos 2))
fd_dup_example =
    fd_dup_lem store_7 10 table_10 refl refl 2 1 nobody (omega arith) store_7-Counted refl
      (omega arith)

fd_dup2_example : Replaced store_7 10 5 1 nobody (fd_dup2 store_7 (pos 2) (pos 5) (pos 0))
fd_dup2_example =
    fd_dup2_lem store_7 10 table_10 refl refl 2 5 1 nobody (pos 0) (omega arith) (omega arith)
      (λ e. absurd (omega (arith, e))) store_7-Counted refl (omega arith)

fd_table_fork_example :
    Forked store_7 8 11 10 table_10.fds nobody (fd_table_fork store_7 7 8 (some 11))
fd_table_fork_example =
    fd_table_fork_lem store_7 7 8 10 11 table_10 nobody refl refl refl store_7-Counted
      (λ f. ground (arith, count-table_10 f))

fd_table_exit_example : Left store_7 10 table_10 nobody (fd_table_exit store_7 7)
fd_table_exit_example =
    fd_table_exit_lem store_7 7 10 table_10 nobody refl refl refl (omega arith) (omega arith)
      store_7-Counted

-- A file at 2 that the caller holds.
abbrev store_held : Store
store_held = record store_7 {
  objects = update store_7.objects 2 (some (record console { refs = 1 }));
}

held_2-Counted : Counted store_held (plus 2 nobody)
held_2-Counted = record {
  exact = λ f. ground (arith, count-table_10 f);
  small = λ f. ground arith;
  sized = λ t table e. ground (arith, e);
}

fd_install_example : Installed store_held 10 2 nobody (fd_install store_held (some 2))
fd_install_example = fd_install_lem store_held 10 table_10 refl refl 2 nobody held_2-Counted
