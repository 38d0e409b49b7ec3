-- ===== src/Files/Exit.antt =====
-- fd_table_share and fd_table_exit of src/kernel/core/file.c.
use kil0y_os.Prelude.{
  subst, ℕ, ◌+◌, ◌-◌, ◌^◌, ◌≤◌, ◌<◌, ◌≡◌, refl, ap, sym, ◌∙◌, Option, none, some, List, [], ◌∷◌,
  ◌==◌, arith, if◌then◌else◌, lookup, insert, erase, total, weight, weight-le-total, total-insert,
  total-erase, lookup-erase_ne, erase-insert, weight-le-total, lookup-insert, Bool-cases, inl, inr,
  ◌⊎◌,
}
use kil0y_os.Prelude.Int.{pos}
use kil0y_os.Files.{
  Table, Store, refs_of, file_close, fds_of, set_files, table_refs, write_table_refs, close_slots,
  drop_table, leave, leave_with, leave_files, fd_table_exit, decrement,
}
use kil0y_os.Files.Counts.{
  count, references, Live, refs-file_close, tables-file_close, files-file_close,
}
use kil0y_os.Files.Invariant.{Counted}
use kil0y_os.Files.Slots.{fds-table}

-- Each object loses the references that the list has to it.
abbrev pub Dropped : Store → List (Option ℕ) → Store → Type 0
Dropped s fds s' =
    ((f : ℕ) → refs_of s' f ≡ refs_of s f - count f fds)
    × (s'.tables ≡ s.tables)
    × (s'.files ≡ s.files)
    × (s'.current ≡ s.current)

close_slots-Dropped :
    (s : Store) (fds : List (Option ℕ))
    → ((f : ℕ) → (count f fds ≤ refs_of s f) × (refs_of s f < 2 ^ 31))
    → Dropped s fds (close_slots s fds)
unfolding close_slots count
close_slots-Dropped s [] b = (λ f. omega arith, refl, refl, refl)
close_slots-Dropped s (none ∷ fds) b =
    let (r, ts, fs, cs) = close_slots-Dropped s fds (λ f. (omega (arith, (b f).0), (b f).1)) in
    (λ f. omega (arith, r f), ts, fs, cs)
close_slots-Dropped s (some g ∷ fds) b =
    let m = (file_close s (some g) (pos 0)).0 in
    let live : Live s g = (ground (arith, (b g).0), (b g).1) in
    let closed : (f : ℕ) → refs_of m f ≡ (if g == f then refs_of s f - 1 else refs_of s f) =
      λ f. refs-file_close s g f (pos 0) live in
    let (r, ts, fs, cs) =
      close_slots-Dropped m fds
        (λ f. (rw (closed f) (ground (arith, (b f).0)), rw (closed f) (ground (arith, (b f).1)))) in
    let kept = files-file_close s (some g) (pos 0) in
    (
      λ f. r f ∙ rw (closed f) (ground arith),
      ts ∙ tables-file_close s (some g) (pos 0),
      fs ∙ kept.0,
      cs ∙ kept.1,
    )

-- The table has one user fewer, or it is gone with the references of its entries.
abbrev pub Left : Store → ℕ → Table → (ℕ → ℕ) → Store → Type 0
Left s t table held s' =
    Counted s' held
    × (((1 < table.refs)
          × (lookup t s'.tables ≡ some (record table { refs = table.refs - 1 }))
          × ((f : ℕ) → refs_of s' f ≡ refs_of s f))
        ⊎ ((table.refs ≡ 1)
            × (lookup t s'.tables ≡ none)
            × ((f : ℕ) → refs_of s' f ≡ refs_of s f - count f table.fds)))

module _ (s : Store) (t : ℕ) (table : Table) (e : lookup t s.tables ≡ some table) where
  abbrev rewritten : ℕ → Store
  rewritten n = write_table_refs s t n

  write_table_refs-some :
      (n : ℕ) → rewritten n ≡ record s { tables = insert t (record table { refs = n }) s.tables }
  write_table_refs-some n = ground (arith, e)

  lookup-rewritten :
      (n u : ℕ)
      → lookup u (rewritten n).tables
        ≡ (if t == u then some (record table { refs = n }) else lookup u s.tables)
  lookup-rewritten n u =
      ap (λ (m : Store). lookup u m.tables) (write_table_refs-some n)
      ∙ lookup-insert t u (record table { refs = n }) s.tables

  references-rewritten : (n f : ℕ) → references (rewritten n) f ≡ references s f
  references-rewritten n f = rw (write_table_refs-some n) (
      omega (
        arith,
        total-insert (λ (u : Table). count f u.fds) t (record table { refs = n }) s.tables,
        ap (weight (λ (u : Table). count f u.fds)) e,
      ))

  refs-rewritten : (n f : ℕ) → refs_of (rewritten n) f ≡ refs_of s f
  refs-rewritten n f = rw (write_table_refs-some n)

  rewritten-Counted : (n : ℕ) (held : ℕ → ℕ) → Counted s held → Counted (rewritten n) held
  rewritten-Counted n held k = record {
    exact =
        λ f. refs-rewritten n f ∙ k.exact f ∙ ap (λ r. r + held f) (sym (references-rewritten n f));
    small = λ f. rw (refs-rewritten n f) (k.small f);
    sized = λ u other q. elim (Bool-cases (t == u)) [
      | inl b ↦ ground (arith, k.sized t table e, lookup-rewritten n u, q)
      | inr b ↦ ground (arith, k.sized u other, lookup-rewritten n u, q)
    ];
  }

  -- The table is dropped after its entries are closed.
  drop_table-Counted :
      (m : Store) (held : ℕ → ℕ)
      → Counted s held
      → Dropped s table.fds m
      → lookup t (erase t s.tables) ≡ none
      → Counted (drop_table m t) held
  drop_table-Counted m held k (r, ts, fs, cs) once = record {
    exact = λ f. omega (
      arith,
      r f,
      k.exact f,
      ap (λ u. total (λ (x : Table). count f x.fds) (erase t u)) ts,
      total-erase (λ (x : Table). count f x.fds) t s.tables,
      ap (weight (λ (x : Table). count f x.fds)) e,
    );
    small = λ f. omega (arith, r f, k.small f);
    sized = λ u other q. elim (Bool-cases (t == u)) [
      | inl b ↦
          (let same : t ≡ u = ground arith in
            absurd (
              ground (
                arith,
                once,
                q,
                ap (λ v. lookup t (erase t v)) ts,
                ap (λ v. lookup v (erase t m.tables)) same,
              )))
      | inr b ↦ k.sized u other (
          sym (lookup-erase_ne t u s.tables (ground arith))
          ∙ ap (λ v. lookup u (erase t v)) (sym ts)
          ∙ q)
    ];
  }

  fds-rewritten : (n : ℕ) → fds_of (rewritten n) t ≡ table.fds
  fds-rewritten n = ground (arith, lookup-rewritten n t)

  table_refs-some : table_refs s t ≡ table.refs
  table_refs-some = ground (arith, e)

  counter-left : 0 < table.refs → table.refs < 2 ^ 31 → decrement (table_refs s t) ≡ table.refs - 1
  counter-left h l = rw table_refs-some (ground arith)

  no_users : table.refs ≡ 1 → table.refs - 1 ≡ 0
  no_users h = omega (arith, h)

  leave-shared : 1 < table.refs → table.refs < 2 ^ 31 → leave s t ≡ rewritten (table.refs - 1)
  leave-shared h l = ap (leave_with s t) (counter-left (omega (arith, h)) l) ∙ ground (arith, h, l)

  leave-last : table.refs ≡ 1 → leave s t ≡ drop_table (close_slots (rewritten 0) table.fds) t
  leave-last h =
      ap (leave_with s t) (counter-left (omega (arith, h)) (omega (arith, h)) ∙ no_users h)
      ∙ ap (λ fds. drop_table (close_slots (rewritten 0) fds) t) (fds-table s t table e)

module _ (s : Store) (t : ℕ) (table : Table) (e : lookup t s.tables ≡ some table) (held : ℕ → ℕ)
    (k : Counted s held) where
  closable :
      (f : ℕ)
      → (count f table.fds ≤ refs_of (rewritten s t table e 0) f)
        × (refs_of (rewritten s t table e 0) f < 2 ^ 31)
  closable f = (
    omega (
      arith,
      refs-rewritten s t table e 0 f,
      k.exact f,
      ap (weight (λ (x : Table). count f x.fds)) e,
      weight-le-total (λ (x : Table). count f x.fds) t s.tables,
    ),
    omega (arith, refs-rewritten s t table e 0 f, k.small f),
  )

  closed-Dropped :
      Dropped (rewritten s t table e 0) table.fds (close_slots (rewritten s t table e 0) table.fds)
  closed-Dropped = close_slots-Dropped (rewritten s t table e 0) table.fds closable

  erase-rewritten : (n : ℕ) → erase t (rewritten s t table e n).tables ≡ erase t s.tables
  erase-rewritten n =
      ap (λ (m : Store). erase t m.tables) (write_table_refs-some s t table e n)
      ∙ erase-insert t (record table { refs = n }) s.tables

  leave_last-Left :
      lookup t (erase t s.tables) ≡ none
      → table.refs ≡ 1
      → Left s t table held (drop_table (close_slots (rewritten s t table e 0) table.fds) t)
  leave_last-Left once h =
      let m = rewritten s t table e 0 in
      let once' : lookup t (erase t m.tables) ≡ none = ap (lookup t) (erase-rewritten 0) ∙ once in
      (
        drop_table-Counted m t (record table { refs = 0 })
            (lookup-rewritten s t table e 0 t ∙ ground arith) (close_slots m table.fds) held
            (rewritten-Counted s t table e 0 held k) closed-Dropped once',
        inr (
          h,
          ap (λ u. lookup t (erase t u)) closed-Dropped.1 ∙ once',
          λ f.
              closed-Dropped.0 f ∙ ap (λ n. n - count f table.fds) (refs-rewritten s t table e 0 f),
        ),
      )

-- What `leave` does, by the counter of the table.
leave-Left :
    (s : Store) (t : ℕ) (table : Table) (held : ℕ → ℕ)
    → lookup t s.tables ≡ some table
    → lookup t (erase t s.tables) ≡ none
    → 0 < table.refs
    → table.refs < 2 ^ 31
    → Counted s held
    → Left s t table held (leave s t)
leave-Left s t table held e once pos' small k = elim (Bool-cases (table.refs == 1)) [
  | inl b ↦
      subst (Left s t table held) (sym (leave-last s t table e (ground arith)))
        (leave_last-Left s t table e held k once (ground arith))
  | inr b ↦
      (let q = leave-shared s t table e (ground arith) small in
        (
          subst (λ m. Counted m held) (sym q)
              (rewritten-Counted s t table e (table.refs - 1) held k),
          inl (
            ground arith,
            ap (λ (m : Store). lookup t m.tables) q
                ∙ lookup-rewritten s t table e (table.refs - 1) t
                ∙ ground arith,
            λ f. ap (λ m. refs_of m f) q ∙ refs-rewritten s t table e (table.refs - 1) f,
          ),
        ))
]

set_files-Counted :
    (s : Store) (p : ℕ) (o : Option ℕ) (held : ℕ → ℕ)
    → Counted s held
    → Counted (set_files s p o) held
set_files-Counted s p o held k = record { exact = k.exact; small = k.small; sized = k.sized }

-- If the counters are right and the table of the process has a positive counter that is below 2^31
-- and stands once in the store, fd_table_exit keeps the counters right: it decrements the table's
-- counter if other users are left, and else closes all its descriptors and frees it.
pub fd_table_exit_lem :
    (s : Store) (p t : ℕ) (table : Table) (held : ℕ → ℕ)
    → s.files p ≡ some t
    → lookup t s.tables ≡ some table
    → lookup t (erase t s.tables) ≡ none
    → 0 < table.refs
    → table.refs < 2 ^ 31
    → Counted s held
    → Left s t table held (fd_table_exit s p)
unfolding fd_table_exit
fd_table_exit_lem s p t table held fp e once h l k =
    subst (λ o. Left s t table held (leave_files s p o)) (sym fp)
      (leave-Left (set_files s p none) t table held e once h l (set_files-Counted s p none held k))
