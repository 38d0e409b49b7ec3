-- ===== src/Files/Slots.antt =====
-- The search for a NULL slot, and a table after one slot is written.
use kil0y_os.Prelude.{
  ℕ, zero, suc, ◌+◌, ◌<◌, ◌≡◌, ◌≢◌, refl, ap, ◌∙◌, Option, none, some, List, [], ◌∷◌, length, set,
  ◌==◌, arith, if◌then◌else◌, lookup, lookup-insert, get_elem?-set_self, get_elem?-set_ne,
}
use kil0y_os.Prelude.Int.{ℤ}
use kil0y_os.Files.{Table, Store, file_ref, file_close, fds_of, slot, write_slot, free_slot}
use kil0y_os.Files.Counts.{write_slot-some, tables-file_ref, tables-file_close}

-- The first `n` slots are taken.
abbrev pub Full : List (Option ℕ) → ℕ → Type 0
Full fds n = (i : ℕ) → i < n → slot fds i ≢ none

-- What a search for a NULL slot in the rest of a table finds.
abbrev pub FoundSlot : List (Option ℕ) → ℕ → Option ℕ → Type 0
FoundSlot fds from none = Full fds (length fds)
FoundSlot fds from (some fd) =
    (k : ℕ) × (fd ≡ from + k) × (k < length fds) × (slot fds k ≡ none) × Full fds k

Full-cons : (f : ℕ) (fds : List (Option ℕ)) (n : ℕ) → Full fds n → Full (some f ∷ fds) (suc n)
Full-cons f fds n h zero l = ground arith
Full-cons f fds n h (suc i) l = h i (omega (arith, l))

FoundSlot-cons :
    (f : ℕ) (fds : List (Option ℕ)) (from : ℕ) (r : Option ℕ)
    → FoundSlot fds (from + 1) r
    → FoundSlot (some f ∷ fds) from r
FoundSlot-cons f fds from none h = Full-cons f fds (length fds) h
FoundSlot-cons f fds from (some fd) (k, e, l, n, h) =
    (suc k, omega (arith, e), omega (arith, l), n, Full-cons f fds k h)

pub free_slot-FoundSlot :
    (fds : List (Option ℕ)) (from : ℕ) → FoundSlot fds from (free_slot fds from)
unfolding free_slot
free_slot-FoundSlot [] from = λ i h. absurd (omega arith)
free_slot-FoundSlot (none ∷ fds) from =
    (0, omega arith, omega arith, refl, λ i h. absurd (omega (arith, h)))
free_slot-FoundSlot (some f ∷ fds) from =
    FoundSlot-cons f fds from (free_slot fds (from + 1)) (free_slot-FoundSlot fds (from + 1))

-- The other descriptors of the table are as before.
abbrev pub SameOthers : Store → Store → ℕ → ℕ → Type 0
SameOthers s s' t fd = (i : ℕ) → fd ≢ i → slot (fds_of s' t) i ≡ slot (fds_of s t) i

module _ (s : Store) (t : ℕ) (table : Table) (e : lookup t s.tables ≡ some table) where
  pub fds-table : fds_of s t ≡ table.fds
  fds-table = ground (arith, e)

  pub fds-write_slot : (fd : ℕ) (v : Option ℕ) → fds_of (write_slot s t fd v) t ≡ set table.fds fd v
  fds-write_slot fd v =
      rw (write_slot-some s t fd v table e)
        (ground (arith, lookup-insert t t (record table { fds = set table.fds fd v }) s.tables))

  pub slot-write_slot :
      (fd : ℕ) (v : Option ℕ) → fd < length table.fds → slot (fds_of (write_slot s t fd v) t) fd ≡ v
  slot-write_slot fd v h = rw (fds-write_slot fd v) (rw (get_elem?-set_self table.fds fd v h))

  pub write_slot-SameOthers : (fd : ℕ) (v : Option ℕ) → SameOthers s (write_slot s t fd v) t fd
  write_slot-SameOthers fd v i n =
      rw (fds-write_slot fd v, fds-table) (rw (get_elem?-set_ne table.fds {i = fd} {j = i} v n))

  pub files-write_slot :
      (fd : ℕ) (v : Option ℕ)
      → ((write_slot s t fd v).files ≡ s.files) × ((write_slot s t fd v).current ≡ s.current)
  files-write_slot fd v =
      (rw (write_slot-some s t fd v table e), rw (write_slot-some s t fd v table e))

  pub lookup-write_slot :
      (fd u : ℕ) (v : Option ℕ)
      → lookup u (write_slot s t fd v).tables
        ≡ (if t == u then some (record table { fds = set table.fds fd v }) else lookup u s.tables)
  lookup-write_slot fd u v =
      ap (λ (m : Store). lookup u m.tables) (write_slot-some s t fd v table e)
      ∙ lookup-insert t u (record table { fds = set table.fds fd v }) s.tables

pub fds-file_ref : (s : Store) (o : Option ℕ) (t : ℕ) → fds_of (file_ref s o) t ≡ fds_of s t
fds-file_ref s o t = ap (λ m. fds_of (record s { tables = m }) t) (tables-file_ref s o)

pub fds-file_close :
    (s : Store) (o : Option ℕ) (closed : ℤ) (t : ℕ)
    → fds_of (file_close s o closed).0 t ≡ fds_of s t
fds-file_close s o closed t =
    ap (λ m. fds_of (record s { tables = m }) t) (tables-file_close s o closed)
