-- ===== src/Files/Fork.antt =====
-- fd_table_fork of src/kernel/core/file.c: the child's table is a copy, and its entries are counted.
use kil0y_os.Prelude.{
  subst, ◌++◌, length-append, length-replicate, ℕ, suc, ◌+◌, ◌^◌, ◌<◌, ◌≡◌, ◌≢◌, refl, ap, sym, ◌∙◌,
  Option, none, some, List, [], ◌∷◌, length, set, replicate, ◌==◌, arith, if◌then◌else◌, lookup,
  weight, weight-le-total, total-insert, lookup-insert,
}
use kil0y_os.Files.{
  Table, Store, max_fds, refs_of, file_ref, parent_fds, fds_of, slot, write_slot, set_files,
  add_table, no_fds, fork_slots, fd_table_fork,
}
use kil0y_os.Files.Counts.{
  count, count-some, count-replicate, count-none, file_ref-none, references, refs-file_ref,
  tables-file_ref, files-file_ref,
}
use kil0y_os.Files.Invariant.{Counted, file_ref-Counted, put-Counted, keep-Counted, refs-write_slot}
use kil0y_os.Files.Slots.{lookup-write_slot, fds-table, files-write_slot}

set-append :
    (xs ys : List (Option ℕ)) (o v : Option ℕ) → set (xs ++ (o ∷ ys)) (length xs) v ≡ xs ++ (v ∷ ys)
set-append [] ys o v = refl
set-append (x ∷ xs) ys o v = ap (λ zs. x ∷ zs) (set-append xs ys o v)

slot-append : (xs ys : List (Option ℕ)) (o : Option ℕ) → slot (xs ++ (o ∷ ys)) (length xs) ≡ o
slot-append [] ys none = refl
slot-append [] ys (some f) = refl
slot-append (x ∷ xs) ys o = slot-append xs ys o

append-cons : (xs ys : List (Option ℕ)) (o : Option ℕ) → (xs ++ (o ∷ [])) ++ ys ≡ xs ++ (o ∷ ys)
append-cons [] ys o = refl
append-cons (x ∷ xs) ys o = ap (λ zs. x ∷ zs) (append-cons xs ys o)

-- The entries that are still to be copied are live, and their counters do not overflow.
abbrev pub Copyable : Store → List (Option ℕ) → Type 0
Copyable s fds =
    (f : ℕ) → (0 < count f fds → 0 < refs_of s f) × (refs_of s f + count f fds < 2 ^ 31)

-- A table `t` of which `done` is copied and `left` slots are not.
abbrev pub Copying : Store → ℕ → List (Option ℕ) → ℕ → Type 0
Copying s t done left =
    (table : Table) × (lookup t s.tables ≡ some table) × (table.fds ≡ done ++ replicate left none)

abbrev pub Copied : Store → ℕ → List (Option ℕ) → (ℕ → ℕ) → Store → Type 0
Copied s t fds held s' =
    Counted s' held
    × (fds_of s' t ≡ fds)
    × ((u : ℕ) → t ≢ u → lookup u s'.tables ≡ lookup u s.tables)
    × (s'.files ≡ s.files)
    × (s'.current ≡ s.current)

module _ (s : Store) (t : ℕ) (done : List (Option ℕ)) (left : ℕ) (held : ℕ → ℕ)
    (k : Counted s held) where
  copied-lt :
      (o : Option ℕ) (fds : List (Option ℕ)) → Copying s t done (suc left) → length done < max_fds
  copied-lt o fds (table, e, q) = omega (
    arith,
    ap length q,
    k.sized t table e,
    length-append done (replicate (suc left) none),
    length-replicate {A = Option ℕ} left none,
  )

  -- One turn of the loop.
  copy-Counted :
      (o : Option ℕ) (fds : List (Option ℕ))
      → Copying s t done (suc left)
      → Copyable s (o ∷ fds)
      → Counted (write_slot (file_ref s o) t (length done) o) held
  copy-Counted none fds (table, e, q) b =
      subst (λ m. Counted (write_slot m t (length done) none) held) (sym (file_ref-none s))
        (keep-Counted s t (length done) table e (copied-lt none fds (table, e, q)) held k
          (ap (λ u. slot u (length done)) q ∙ slot-append done (replicate left none) none))
  copy-Counted (some f) fds (table, e, q) b =
      let m = file_ref s (some f) in
      let k' =
        file_ref-Counted s f held k ((b f).0 (ground (arith, count-some f f fds)))
          (ground (arith, count-some f f fds, (b f).1)) in
      let e' = ap (lookup t) (tables-file_ref s (some f)) ∙ e in
      put-Counted m t (length done) table e' (copied-lt (some f) fds (table, e, q)) f held k'
        (ap (λ u. slot u (length done)) q ∙ slot-append done (replicate left none) none)

  copy-Copying :
      (o : Option ℕ)
      → Copying s t done (suc left)
      → Copying (write_slot (file_ref s o) t (length done) o) t (done ++ (o ∷ [])) left
  copy-Copying o (table, e, q) =
      let e' = ap (lookup t) (tables-file_ref s o) ∙ e in
      (
        record table { fds = set table.fds (length done) o },
        lookup-write_slot (file_ref s o) t table e' (length done) t o ∙ ground arith,
        ap (λ u. set u (length done) o) q
            ∙ set-append done (replicate left none) none o
            ∙ sym (append-cons done (replicate left none) o),
      )

  copy-Copyable :
      (o : Option ℕ) (fds : List (Option ℕ))
      → Copying s t done (suc left)
      → Copyable s (o ∷ fds)
      → Copyable (write_slot (file_ref s o) t (length done) o) fds
  copy-Copyable none fds (table, e, q) b f =
      let e' = ap (lookup t) (tables-file_ref s none) ∙ e in
      let r =
        refs-write_slot (file_ref s none) t (length done) table e'
          (copied-lt none fds (table, e, q)) none f
        ∙ ap (λ m. refs_of m f) (file_ref-none s) in
      (
        λ h. rw r ((b f).0 (omega (arith, h, count-none f fds))),
        rw r (omega (arith, (b f).1, count-none f fds)),
      )
  copy-Copyable (some g) fds (table, e, q) b f =
      let l = copied-lt (some g) fds (table, e, q) in
      let e' = ap (lookup t) (tables-file_ref s (some g)) ∙ e in
      let r =
        refs-write_slot (file_ref s (some g)) t (length done) table e' l (some g) f
        ∙ refs-file_ref s g f ((b g).0 (ground (arith, count-some g g fds)), k.small g) in
      (
        λ h. rw r (ground (arith, (b f).0 (ground (arith, h, count-some f g fds)))),
        rw r (ground (arith, (b f).1, count-some f g fds)),
      )

  copy-others :
      (o : Option ℕ) (u : ℕ)
      → Copying s t done (suc left)
      → t ≢ u
      → lookup u (write_slot (file_ref s o) t (length done) o).tables ≡ lookup u s.tables
  copy-others o u (table, e, q) d =
      let e' = ap (lookup t) (tables-file_ref s o) ∙ e in
      lookup-write_slot (file_ref s o) t table e' (length done) u o
      ∙ ground (arith, d, ap (lookup u) (tables-file_ref s o))

Copied-step :
    (s : Store) (t : ℕ) (done fds : List (Option ℕ)) (o : Option ℕ) (held : ℕ → ℕ) (left : ℕ)
    (s' : Store)
    → Counted s held
    → Copying s t done (suc left)
    → Copied (write_slot (file_ref s o) t (length done) o) t ((done ++ (o ∷ [])) ++ fds) held s'
    → Copied s t (done ++ (o ∷ fds)) held s'
Copied-step s t done fds o held left s' k c (k', q, others, files, current) =
    let e' = ap (lookup t) (tables-file_ref s o) ∙ c.1 in
    let kept = files-write_slot (file_ref s o) t c.0 e' (length done) o in
    (
      k',
      q ∙ append-cons done fds o,
      λ u d. others u d ∙ copy-others s t done left held k o u c d,
      files ∙ kept.0 ∙ (files-file_ref s o).0,
      current ∙ kept.1 ∙ (files-file_ref s o).1,
    )

fork_slots-Copied :
    (s : Store) (t : ℕ) (done fds : List (Option ℕ)) (held : ℕ → ℕ)
    → Counted s held
    → Copying s t done (length fds)
    → Copyable s fds
    → Copied s t (done ++ fds) held (fork_slots s t (length done) fds)
unfolding fork_slots
fork_slots-Copied s t done [] held k (table, e, q) b =
    (k, fds-table s t table e ∙ q, λ u d. refl, refl, refl)
fork_slots-Copied s t done (o ∷ fds) held k c b =
    let m = write_slot (file_ref s o) t (length done) o in
    let next = done ++ (o ∷ []) in
    let size : length next ≡ length done + 1 = length-append done (o ∷ []) in
    let rest =
      fork_slots-Copied m t next fds held (copy-Counted s t done (length fds) held k o fds c b)
        (copy-Copying s t done (length fds) held k o c)
        (copy-Copyable s t done (length fds) held k o fds c b) in
    subst (λ i. Copied s t (done ++ (o ∷ fds)) held (fork_slots m t i fds)) size
      (Copied-step s t done fds o held (length fds) (fork_slots m t (length next) fds) k c rest)

-- The child has a table of its own, a copy of the parent's, and the parent's is as before.
abbrev pub Forked : Store → ℕ → ℕ → ℕ → List (Option ℕ) → (ℕ → ℕ) → Store → Type 0
Forked s child t p fds held s' =
    Counted s' held × (s'.files child ≡ some t) × (fds_of s' t ≡ fds) × (fds_of s' p ≡ fds)

abbrev fresh : Table
fresh = record { refs = 1; fds = no_fds }

module _ (s : Store) (child t : ℕ) (n : lookup t s.tables ≡ none) where
  abbrev added : Store
  added = add_table (set_files s child (some t)) t fresh

  references-added : (f : ℕ) → references added f ≡ references s f
  references-added f = omega (
    arith,
    total-insert (λ (u : Table). count f u.fds) t fresh s.tables,
    ap (weight (λ (u : Table). count f u.fds)) n,
    count-replicate f max_fds,
  )

  lookup-added :
      (u : ℕ) → lookup u added.tables ≡ (if t == u then some fresh else lookup u s.tables)
  lookup-added u = lookup-insert t u fresh s.tables

  added-Counted : (held : ℕ → ℕ) → Counted s held → Counted added held
  added-Counted held k = record {
    exact = λ f. k.exact f ∙ ap (λ r. r + held f) (sym (references-added f));
    small = k.small;
    sized = λ u table q.
        ground
          (arith, k.sized u table, q, lookup-added u, length-replicate {A = Option ℕ} max_fds none);
  }

  added-Copying : Copying added t [] max_fds
  added-Copying = (fresh, ground (arith, lookup-added t), refl)

  added-Forked :
      (p : ℕ) (fds : List (Option ℕ)) (held : ℕ → ℕ) (s' : Store)
      → t ≢ p
      → fds_of s p ≡ fds
      → Copied added t fds held s'
      → Forked s child t p fds held s'
  added-Forked p fds held s' d e (k, q, others, files, current) = (
    k,
    ap (λ g. g child) files ∙ ground arith,
    q,
    ground (arith, others p d, lookup-added p, d, e),
  )

-- If the counters are right, the parent has a table, kmalloc returns a new address and no counter
-- overflows, fd_table_fork gives the child a table with the parent's descriptors, leaves the
-- parent's table as it is and keeps the counters right.
pub fd_table_fork_lem :
    (s : Store) (parent child p t : ℕ) (table : Table) (held : ℕ → ℕ)
    → s.files parent ≡ some p
    → lookup p s.tables ≡ some table
    → lookup t s.tables ≡ none
    → Counted s held
    → ((f : ℕ) → refs_of s f + count f table.fds < 2 ^ 31)
    → Forked s child t p table.fds held (fd_table_fork s parent child (some t))
unfolding fd_table_fork
fd_table_fork_lem s parent child p t table held fp e n k b =
    let d : t ≢ p = λ q. absurd (ground (arith, e, n, ap (λ u. lookup u s.tables) q)) in
    let copyable : Copyable (added s child t n) table.fds = λ f. (
      λ h. omega (
        arith,
        h,
        k.exact f,
        ap (weight (λ (u : Table). count f u.fds)) e,
        weight-le-total (λ (u : Table). count f u.fds) p s.tables,
      ),
      b f,
    ) in
    added-Forked s child t n p table.fds held (fd_table_fork s parent child (some t)) d
      (fds-table s p table e)
      (subst
        (λ fds.
          Copied (added s child t n) t table.fds held (fork_slots (added s child t n) t 0 fds))
        (sym (ap (parent_fds s) fp ∙ fds-table s p table e))
        (fork_slots-Copied (added s child t n) t [] table.fds held
          (added-Counted s child t n held k)
          (subst (Copying (added s child t n) t []) (sym (k.sized p table e))
            (added-Copying s child t n))
          copyable))
