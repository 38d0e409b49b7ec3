-- ===== src/Files.antt =====
-- src/kernel/core/file.c: reference-counted file objects, and descriptor tables that processes own or
-- share. Objects, tables and processes are named by addresses in stores. What kmalloc returns is an
-- argument (`none` for NULL), and so is the result of a backend's close; `released` records, newest
-- first, the objects whose backend was closed before kfree. `int` counters keep their wrap at 32 bits.
pub mod Counts
pub mod Invariant
pub mod Slots
pub mod Calls
pub mod Dup
pub mod Fork
pub mod Exit
mod Tests
use kil0y_os.Prelude.{
  ℕ, zero, suc, ◌+◌, ◌-◌, ◌*◌, ◌%◌, ◌^◌, Bool, true, false, not, ◌&&◌, ◌||◌, Option, none, some,
  List, [], ◌∷◌, length, get_elem?, set, replicate, ltb, leb, ◌==◌, if◌then◌else◌, update, lookup,
  insert, erase,
}
use kil0y_os.Prelude.Int.{ℤ, pos, negsuc, minus}

-- LNX_MAX_FDS
abbrev pub max_fds : ℕ
max_fds = 64

-- enum file_kind
pub data FileKind : Type 0 where
  tty vfs sock_tcp sock_udp sock_unix : FileKind

-- struct file; `closes` says whether `ops` and `ops->close` are there.
pub record File : Type 0 where
  pub closes : Bool
  pub kind : FileKind
  pub priv : ℕ
  pub refs : ℕ
  pub flags : ℕ

-- files_t: the slots hold the addresses of objects.
pub record Table : Type 0 where
  pub refs : ℕ
  pub fds : List (Option ℕ)

-- `files` is each process's pointer to its table.
pub record Store : Type 0 where
  pub objects : ℕ → Option File
  pub tables : List (ℕ × Table)
  pub files : ℕ → Option ℕ
  pub current : Option ℕ
  pub released : List ℕ

-- ++ and -- on an int.
abbrev pub increment : ℕ → ℕ
increment n = (n + 1) % 2 ^ 32

abbrev pub decrement : ℕ → ℕ
decrement n = (n + 2 ^ 32 - 1) % 2 ^ 32

abbrev new_file : Bool → FileKind → ℕ → File
new_file closes kind priv = record {
  closes = closes;
  kind = kind;
  priv = priv;
  refs = 1;
  flags = 0;
}

pub file_new : Store → Option ℕ → Bool → FileKind → ℕ → Store × Option ℕ
file_new s none closes kind priv = (s, none)
file_new s (some f) closes kind priv =
    (record s { objects = update s.objects f (some (new_file closes kind priv)) }, some f)

abbrev pub write_refs : Store → ℕ → ℕ → Store
write_refs s f n = elim (s.objects f) [
  | none ↦ s
  | some o ↦ record s { objects = update s.objects f (some (record o { refs = n })) }
]

abbrev pub refs_of : Store → ℕ → ℕ
refs_of s f = elim (s.objects f) [ none ↦ 0 | some o ↦ o.refs ]

abbrev pub closes_of : Store → ℕ → Bool
closes_of s f = elim (s.objects f) [ none ↦ false | some o ↦ o.closes ]

-- file_ref, on NULL too.
pub file_ref : Store → Option ℕ → Store
file_ref s none = s
file_ref s (some f) = write_refs s f (increment (refs_of s f))

-- The last close: the backend's close, then kfree.
abbrev pub destroy : Store → ℕ → Store
destroy s f = record s {
  objects = update s.objects f none;
  released = if closes_of s f then f ∷ s.released else s.released;
}

-- file_close; `closed` is what the backend's close returns.
pub file_close : Store → Option ℕ → ℤ → Store × ℤ
file_close s none closed = (s, minus 1)
file_close s (some f) closed =
    if decrement (refs_of s f) == 0
    then (destroy s f, if closes_of s f then closed else pos 0)
    else (write_refs s f (decrement (refs_of s f)), pos 0)

abbrev pub bind {ℓ κ} : {A : Type ℓ} {B : Type κ} → Option A → (A → Option B) → Option B
bind none f = none
bind (some a) f = f a

-- proc->files of the current process, as an address; NULL if there is no process or no table.
abbrev pub current_files : Store → Option ℕ
current_files s = bind s.current s.files

abbrev pub fds_of : Store → ℕ → List (Option ℕ)
fds_of s t = elim (lookup t s.tables) [ none ↦ [] | some table ↦ table.fds ]

abbrev pub slot : List (Option ℕ) → ℕ → Option ℕ
slot fds i = bind (get_elem? fds i) (λ o. o)

abbrev pub write_slot : Store → ℕ → ℕ → Option ℕ → Store
write_slot s t fd f = elim (lookup t s.tables) [
  | none ↦ s
  | some table ↦ record s { tables = insert t (record table { fds = set table.fds fd f }) s.tables }
]

-- The first NULL slot, from `fd` on.
pub free_slot : List (Option ℕ) → ℕ → Option ℕ
free_slot [] fd = none
free_slot (none ∷ fds) fd = some fd
free_slot (some f ∷ fds) fd = free_slot fds (fd + 1)

abbrev pub install_at : Store → ℕ → ℕ → Option ℕ → Store × ℤ
install_at s t f none = (s, minus 1)
install_at s t f (some fd) = (write_slot s t fd (some f), pos fd)

abbrev pub install_in : Store → Option ℕ → Option ℕ → Store × ℤ
install_in s none f = (s, minus 1)
install_in s (some t) none = (s, minus 1)
install_in s (some t) (some f) = install_at s t f (free_slot (fds_of s t) 0)

pub fd_install : Store → Option ℕ → Store × ℤ
fd_install s f = install_in s (current_files s) f

-- proc->files->fds[fd], NULL for a descriptor out of range.
abbrev pub file_at : Store → Option ℕ → ℤ → Option ℕ
file_at s none fd = none
file_at s (some t) (negsuc n) = none
file_at s (some t) (pos fd) = if leb max_fds fd then none else slot (fds_of s t) fd

pub fd_get_file : Store → ℤ → Option ℕ
fd_get_file s fd = file_at s (current_files s) fd

abbrev pub close_at : Store → ℕ → ℕ → Option ℕ → ℤ → Store × ℤ
close_at s t fd none closed = (s, minus 9)
close_at s t fd (some f) closed = file_close (write_slot s t fd none) (some f) closed

abbrev pub close_in : Store → Option ℕ → ℤ → ℤ → Store × ℤ
close_in s none fd closed = (s, minus 9)
close_in s (some t) (negsuc n) closed = (s, minus 9)
close_in s (some t) (pos fd) closed =
    if leb max_fds fd then (s, minus 9) else close_at s t fd (slot (fds_of s t) fd) closed

pub fd_close : Store → ℤ → ℤ → Store × ℤ
fd_close s fd closed = close_in s (current_files s) fd closed

abbrev pub dup_file : Store → Option ℕ → Store × ℤ
dup_file s none = (s, minus 9)
dup_file s (some f) = fd_install (file_ref s (some f)) (some f)

pub fd_dup : Store → ℤ → Store × ℤ
fd_dup s fd = dup_file s (fd_get_file s fd)

-- The end of fd_dup2, in the table of the current process.
abbrev pub put_in : Store → Option ℕ → ℕ → ℕ → Store × ℤ
put_in s none fd2 f = (s, minus 9)
put_in s (some t) fd2 f = (write_slot (file_ref s (some f)) t fd2 (some f), pos fd2)

abbrev pub put : Store → ℕ → ℕ → Store × ℤ
put s fd2 f = put_in s (current_files s) fd2 f

abbrev pub dup2_file : Store → Option ℕ → ℤ → ℤ → Store × ℤ
dup2_file s none fd2 closed = (s, minus 9)
dup2_file s (some f) (negsuc n) closed = (s, minus 9)
dup2_file s (some f) (pos fd2) closed =
    if leb max_fds fd2 then (s, minus 9) else put (fd_close s (pos fd2) closed).0 fd2 f

abbrev pub same_int : ℤ → ℤ → Bool
same_int (pos a) (pos b) = a == b
same_int (negsuc a) (negsuc b) = a == b
same_int (pos a) (negsuc b) = false
same_int (negsuc a) (pos b) = false

pub fd_dup2 : Store → ℤ → ℤ → ℤ → Store × ℤ
fd_dup2 s fd fd2 closed =
    if same_int fd fd2 then (s, fd2) else dup2_file s (fd_get_file s fd) fd2 closed

abbrev pub no_fds : List (Option ℕ)
no_fds = replicate max_fds none

abbrev pub set_files : Store → ℕ → Option ℕ → Store
set_files s p t = record s { files = update s.files p t }

abbrev pub add_table : Store → ℕ → Table → Store
add_table s t table = record s { tables = insert t table s.tables }

-- The three console files of a new table; the loop stops at the first failed allocation.
pub init_ttys : Store → ℕ → ℕ → List (Option ℕ) → Store
init_ttys s t i [] = s
init_ttys s t i (none ∷ addresses) = s
init_ttys s t i (some f ∷ addresses) =
    init_ttys (write_slot (file_new s (some f) true tty 0).0 t i (some f)) t (i + 1) addresses

-- `table` and `ttys` are what kmalloc returns for the table and for the three files.
pub fd_table_init : Store → ℕ → Option ℕ → List (Option ℕ) → Store
fd_table_init s p none ttys = set_files s p none
fd_table_init s p (some t) ttys =
    init_ttys (add_table (set_files s p (some t)) t (record { refs = 1; fds = no_fds })) t 0 ttys

-- The loop of fd_table_fork: each entry is referenced again and copied.
pub fork_slots : Store → ℕ → ℕ → List (Option ℕ) → Store
fork_slots s t i [] = s
fork_slots s t i (f ∷ fds) = fork_slots (write_slot (file_ref s f) t i f) t (i + 1) fds

abbrev pub parent_fds : Store → Option ℕ → List (Option ℕ)
parent_fds s none = []
parent_fds s (some t) = fds_of s t

-- The parent has a table: the source reads it without a test.
pub fd_table_fork : Store → ℕ → ℕ → Option ℕ → Store
fd_table_fork s parent child none = set_files s child none
fd_table_fork s parent child (some t) =
    fork_slots (add_table (set_files s child (some t)) t (record { refs = 1; fds = no_fds })) t 0
      (parent_fds s (s.files parent))

abbrev pub write_table_refs : Store → ℕ → ℕ → Store
write_table_refs s t n = elim (lookup t s.tables) [
  | none ↦ s
  | some table ↦ record s { tables = insert t (record table { refs = n }) s.tables }
]

abbrev pub table_refs : Store → ℕ → ℕ
table_refs s t = elim (lookup t s.tables) [ none ↦ 0 | some table ↦ table.refs ]

abbrev pub share_in : Store → ℕ → Option ℕ → Store
share_in s child none = s
share_in s child (some t) =
    write_table_refs (set_files s child (some t)) t (increment (table_refs s t))

pub fd_table_share : Store → ℕ → ℕ → Store
fd_table_share s parent child = share_in s child (s.files parent)

-- The closing loop of fd_table_exit; the results of the backends' closes are dropped.
pub close_slots : Store → List (Option ℕ) → Store
close_slots s [] = s
close_slots s (none ∷ fds) = close_slots s fds
close_slots s (some f ∷ fds) = close_slots (file_close s (some f) (pos 0)).0 fds

abbrev pub drop_table : Store → ℕ → Store
drop_table s t = record s { tables = erase t s.tables }

-- `--t->refs > 0` on an int: not 0, and the sign bit clear.
abbrev pub is_positive : ℕ → Bool
is_positive n = ltb 0 n && ltb n (2 ^ 31)

-- `n` is the counter that is left.
abbrev pub leave_with : Store → ℕ → ℕ → Store
leave_with s t n =
    if is_positive n
    then write_table_refs s t n
    else drop_table (close_slots (write_table_refs s t n) (fds_of s t)) t

abbrev pub leave : Store → ℕ → Store
leave s t = leave_with s t (decrement (table_refs s t))

abbrev pub leave_files : Store → ℕ → Option ℕ → Store
leave_files s p none = s
leave_files s p (some t) = leave (set_files s p none) t

pub fd_table_exit : Store → ℕ → Store
fd_table_exit s p = leave_files s p (s.files p)
