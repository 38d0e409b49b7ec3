-- ===== src/Files/Calls.antt =====
-- fd_install, fd_close, fd_dup and fd_dup2 of src/kernel/core/file.c: the results and the counters.
use kil0y_os.Prelude.{
  subst, ℕ, ◌-◌, ◌≤◌, ◌<◌, ◌≡◌, refl, ap, sym, ◌∙◌, Option, none, some, ◌∷◌, ◌==◌, arith,
  if◌then◌else◌, lookup, Bool-cases, inl, inr, ◌⊎◌,
}
use kil0y_os.Prelude.Int.{ℤ, pos, minus}
use kil0y_os.Files.{
  Table, Store, max_fds, refs_of, file_close, fds_of, slot, write_slot, closes_of, close_at,
  close_in, install_at, file_at, install_in, current_files, free_slot, fd_install, fd_get_file,
  fd_close,
}
use kil0y_os.Files.Counts.{
  write_slot-some, Live, refs-file_close, tables-file_close, files-file_close,
}
use kil0y_os.Files.Invariant.{
  Counted, plus, held-Live, file_close-Counted, put-Counted, take-Counted, refs-write_slot,
}
use kil0y_os.Files.Slots.{
  fds-file_close, Full, FoundSlot, free_slot-FoundSlot, SameOthers, fds-table, slot-write_slot,
  write_slot-SameOthers, files-write_slot,
}

-- fd_install: the reference moves into the lowest free descriptor, or nothing changes.
abbrev pub Installed : Store → ℕ → ℕ → (ℕ → ℕ) → Store × ℤ → Type 0
Installed s t f held (s', r) =
    ((fd : ℕ) × (r ≡ pos fd)
      × (fd < max_fds)
      × (slot (fds_of s t) fd ≡ none)
      × Full (fds_of s t) fd
      × (slot (fds_of s' t) fd ≡ some f)
      × SameOthers s s' t fd
      × Counted s' held)
    ⊎ ((r ≡ minus 1) × (s' ≡ s) × Full (fds_of s t) max_fds)

module _ (s : Store) (t : ℕ) (table : Table) (e : lookup t s.tables ≡ some table)
    (c : current_files s ≡ some t) where
  install_at-Installed :
      (f : ℕ) (held : ℕ → ℕ) (free : Option ℕ)
      → Counted s (plus f held)
      → FoundSlot table.fds 0 free
      → Installed s t f held (install_at s t f free)
  install_at-Installed f held none k h =
      inr (refl, refl, rw (fds-table s t table e) (subst (Full table.fds) (k.sized t table e) h))
  install_at-Installed f held (some fd) k (i, q, l, n, h) =
      let same : i ≡ fd = omega (arith, q) in
      let small : fd < max_fds = omega (arith, q, l, k.sized t table e) in
      inl (
        fd,
        refl,
        small,
        ap (λ u. slot u fd) (fds-table s t table e) ∙ ap (slot table.fds) (sym same) ∙ n,
        rw (fds-table s t table e) (subst (Full table.fds) same h),
        slot-write_slot s t table e fd (some f) (omega (arith, small, k.sized t table e)),
        write_slot-SameOthers s t table e fd (some f),
        put-Counted s t fd table e small f held k (ap (slot table.fds) (sym same) ∙ n),
      )

  -- If the counters are right and the caller holds a reference to `f`, fd_install either stores `f`
  -- in the lowest free descriptor, leaves the others as they are and takes the caller's reference,
  -- or finds the table full, changes nothing and returns -1.
  pub fd_install_lem :
      (f : ℕ) (held : ℕ → ℕ)
      → Counted s (plus f held)
      → Installed s t f held (fd_install s (some f))
  unfolding fd_install
  fd_install_lem f held k =
      subst (λ o. Installed s t f held (install_in s o (some f))) (sym c)
        (install_at-Installed f held (free_slot (fds_of s t) 0) k (
          subst (λ fds. FoundSlot fds 0 (free_slot (fds_of s t) 0)) (fds-table s t table e)
            (free_slot-FoundSlot (fds_of s t) 0)))

-- What becomes of an object when one of its references is closed: the last one closes the backend, whose
-- result is passed on, and frees the object.
abbrev pub Unreferenced : Store → ℕ → ℤ → Store × ℤ → Type 0
Unreferenced s f closed (s', r) =
    ((refs_of s f ≡ 1)
      × (s'.objects f ≡ none)
      × (s'.released ≡ (if closes_of s f then f ∷ s.released else s.released))
      × (r ≡ (if closes_of s f then closed else pos 0)))
    ⊎ ((1 < refs_of s f)
        × (refs_of s' f ≡ refs_of s f - 1)
        × (s'.released ≡ s.released)
        × (r ≡ pos 0))

file_close-Unreferenced :
    (s : Store) (f : ℕ) (closed : ℤ)
    → Live s f
    → Unreferenced s f closed (file_close s (some f) closed)
unfolding file_close
file_close-Unreferenced s f closed (p, q) = elim (Bool-cases (refs_of s f == 1)) [
  | inl b ↦ inl (ground arith, ground arith, ground arith, ground arith)
  | inr b ↦ inr (ground arith, ground arith, ground arith, ground arith)
]

-- fd_close of an open descriptor, and of one that is not.
abbrev pub Closed : Store → ℕ → ℕ → ℤ → (ℕ → ℕ) → Store × ℤ → Type 0
Closed s t fd closed held (s', r) =
    ((f : ℕ) × (slot (fds_of s t) fd ≡ some f)
      × (slot (fds_of s' t) fd ≡ none)
      × SameOthers s s' t fd
      × Counted s' held
      × ((g : ℕ) → refs_of s' g ≤ refs_of s g)
      × (s'.files ≡ s.files)
      × (s'.current ≡ s.current)
      × Unreferenced s f closed (s', r))
    ⊎ ((slot (fds_of s t) fd ≡ none) × (s' ≡ s) × (r ≡ minus 9))

module _ (s : Store) (t : ℕ) (table : Table) (e : lookup t s.tables ≡ some table)
    (c : current_files s ≡ some t) where
  close_at-Closed :
      (fd : ℕ) (closed : ℤ) (held : ℕ → ℕ) (o : Option ℕ)
      → fd < max_fds
      → Counted s held
      → slot (fds_of s t) fd ≡ o
      → Closed s t fd closed held (close_at s t fd o closed)
  close_at-Closed fd closed held none l k n = inr (n, refl, refl)
  close_at-Closed fd closed held (some f) l k n =
      let mid : Store = write_slot s t fd none in
      let tables = tables-file_close mid (some f) closed in
      let kept = files-file_close mid (some f) closed in
      let taken : Counted mid (plus f held) =
        take-Counted s t fd table e l f held k
          (ap (λ u. slot u fd) (sym (fds-table s t table e)) ∙ n) in
      inl (
        f,
        n,
        ap (λ u. slot u fd) (fds-file_close mid (some f) closed t)
            ∙ slot-write_slot s t table e fd none (omega (arith, l, k.sized t table e)),
        λ i d.
            ap (λ u. slot u i) (fds-file_close mid (some f) closed t)
            ∙ write_slot-SameOthers s t table e fd none i d,
        file_close-Counted mid f held closed taken,
        λ g. ground (
          arith,
          refs-file_close mid f g closed (held-Live f held taken),
          refs-write_slot s t fd table e l none g,
        ),
        kept.0 ∙ (files-write_slot s t table e fd none).0,
        kept.1 ∙ (files-write_slot s t table e fd none).1,
        subst (λ m. Unreferenced m f closed (file_close mid (some f) closed))
            (write_slot-some s t fd none table e)
            (file_close-Unreferenced mid f closed (held-Live f held taken)),
      )

  pub fd_close-open :
      (fd : ℕ) (closed : ℤ)
      → fd < max_fds
      → fd_close s (pos fd) closed ≡ close_at s t fd (slot (fds_of s t) fd) closed
  unfolding fd_close
  fd_close-open fd closed l = ap (λ o. close_in s o (pos fd) closed) c ∙ ground (arith, l)

  pub fd_get_file-open : (fd : ℕ) → fd < max_fds → fd_get_file s (pos fd) ≡ slot (fds_of s t) fd
  unfolding fd_get_file
  fd_get_file-open fd l = ap (λ o. file_at s o (pos fd)) c ∙ ground (arith, l)

  -- If the counters are right, fd_close of a descriptor in range returns -9 and changes nothing if
  -- the slot is empty; else it empties that slot only and the counters stay right, where the last
  -- reference closes the backend, passes its result on and frees the object, and any other reference
  -- only decrements the counter.
  pub fd_close_lem :
      (fd : ℕ) (closed : ℤ) (held : ℕ → ℕ)
      → fd < max_fds
      → Counted s held
      → Closed s t fd closed held (fd_close s (pos fd) closed)
  fd_close_lem fd closed held l k =
      subst (Closed s t fd closed held) (sym (fd_close-open fd closed l))
        (close_at-Closed fd closed held (slot (fds_of s t) fd) l k refl)
