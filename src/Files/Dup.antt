-- ===== src/Files/Dup.antt =====
-- fd_dup and fd_dup2 of src/kernel/core/file.c.
use kil0y_os.Prelude.{
  subst, ℕ, ◌+◌, ◌^◌, ◌≤◌, ◌<◌, ◌≡◌, ◌≢◌, refl, ap, sym, ◌∙◌, none, some, arith, lookup,
  Option-cases, inl, inr, ◌⊎◌,
}
use kil0y_os.Prelude.Int.{ℤ, pos, minus}
use kil0y_os.Files.{
  Table, Store, max_fds, refs_of, file_ref, fds_of, slot, dup_file, put, put_in, current_files,
  fd_install, fd_close, fd_dup, fd_dup2,
}
use kil0y_os.Files.Counts.{tables-file_ref, files-file_ref, current_files-same}
use kil0y_os.Files.Invariant.{Counted, plus, file_ref-Counted, put-Counted, slot-Live}
use kil0y_os.Files.Slots.{
  fds-file_ref, Full, SameOthers, fds-table, slot-write_slot, write_slot-SameOthers,
}
use kil0y_os.Files.Calls.{Installed, fd_install_lem, Closed, fd_close_lem, fd_get_file-open}

-- What fd_dup does with the object `f`: a second descriptor has it, or the table is full, nothing is
-- installed, and the counter of `f` counts a reference that no table and no caller has.
abbrev pub Duplicated : Store → ℕ → ℕ → (ℕ → ℕ) → Store × ℤ → Type 0
Duplicated s t f held (s', r) =
    ((fd : ℕ) × (r ≡ pos fd)
      × (slot (fds_of s t) fd ≡ none)
      × Full (fds_of s t) fd
      × (slot (fds_of s' t) fd ≡ some f)
      × SameOthers s s' t fd
      × Counted s' held)
    ⊎ ((r ≡ minus 1)
        × (s' ≡ file_ref s (some f))
        × Full (fds_of s t) max_fds
        × Counted s' (plus f held))

dup_file-Duplicated :
    (s : Store) (t f : ℕ) (held : ℕ → ℕ) (r : Store × ℤ)
    → Counted (file_ref s (some f)) (plus f held)
    → Installed (file_ref s (some f)) t f held r
    → Duplicated s t f held r
dup_file-Duplicated s t f held r k (inl (fd, q, l, n, full, new, same, k')) =
    let e = fds-file_ref s (some f) t in
    inl (
      fd,
      q,
      ap (λ u. slot u fd) (sym e) ∙ n,
      subst (λ u. Full u fd) e full,
      new,
      λ i d. same i d ∙ ap (λ u. slot u i) e,
      k',
    )
dup_file-Duplicated s t f held r k (inr (q, same, full)) = inr (
  q,
  same,
  subst (λ u. Full u max_fds) (fds-file_ref s (some f) t) full,
  subst (λ m. Counted m (plus f held)) (sym same) k,
)

module _ (s : Store) (t : ℕ) (table : Table) (e : lookup t s.tables ≡ some table)
    (c : current_files s ≡ some t) where
  -- If the counters are right and the counter of the open file does not overflow, fd_dup puts the
  -- file into the lowest free descriptor, leaves the others as they are and keeps the counters
  -- right; if the table is full it returns -1 and the counter is one more than the references there
  -- are.
  pub fd_dup_lem :
      (fd f : ℕ) (held : ℕ → ℕ)
      → fd < max_fds
      → Counted s held
      → slot (fds_of s t) fd ≡ some f
      → refs_of s f + 1 < 2 ^ 31
      → Duplicated s t f held (fd_dup s (pos fd))
  unfolding fd_dup
  fd_dup_lem fd f held l k n m =
      let live =
        slot-Live s t fd table e l f held k
          (ap (λ u. slot u fd) (sym (fds-table s t table e)) ∙ n) in
      let k' = file_ref-Counted s f held k live.0 m in
      subst (λ o. Duplicated s t f held (dup_file s o))
        (sym (fd_get_file-open s t table e c fd l ∙ n))
        (dup_file-Duplicated s t f held (fd_install (file_ref s (some f)) (some f)) k' (
          fd_install_lem (file_ref s (some f)) t table
            (ap (lookup t) (tables-file_ref s (some f)) ∙ e)
            (current_files-same s (file_ref s (some f)) (files-file_ref s (some f)) ∙ c) f held k'))

-- fd_dup2 onto another descriptor: it has the object, after what it had before is closed.
abbrev pub Replaced : Store → ℕ → ℕ → ℕ → (ℕ → ℕ) → Store × ℤ → Type 0
Replaced s t fd f held (s', r) =
    (r ≡ pos fd) × (slot (fds_of s' t) fd ≡ some f) × SameOthers s s' t fd × Counted s' held

-- A table with a descriptor whose slot is empty.
abbrev pub Emptied : Store → ℕ → ℕ → (ℕ → ℕ) → Store → Type 0
Emptied s t fd held m =
    (slot (fds_of m t) fd ≡ none)
    × SameOthers s m t fd
    × Counted m held
    × ((g : ℕ) → refs_of m g ≤ refs_of s g)
    × (current_files m ≡ current_files s)

Closed-Emptied :
    (s : Store) (t fd : ℕ) (closed : ℤ) (held : ℕ → ℕ) (r : Store × ℤ)
    → Counted s held
    → Closed s t fd closed held r
    → Emptied s t fd held r.0
Closed-Emptied s t fd closed held r k (inl (f, n, new, same, k', le, p, q, u)) =
    (new, same, k', le, current_files-same s r.0 (p, q))
Closed-Emptied s t fd closed held r k (inr (n, same, q)) =
    subst (Emptied s t fd held) (sym same) (n, λ i d. refl, k, λ g. omega arith, refl)

table-slot :
    (m : Store) (t fd f : ℕ)
    → slot (fds_of m t) fd ≡ some f
    → (table : Table) × (lookup t m.tables ≡ some table)
table-slot m t fd f n = elim (Option-cases (lookup t m.tables)) [
  | inl e ↦ absurd (ground (arith, n, e))
  | inr e ↦ e
]

put-Replaced :
    (s m : Store) (t fd other f : ℕ) (held : ℕ → ℕ)
    → fd < max_fds
    → other < max_fds
    → fd ≢ other
    → current_files s ≡ some t
    → slot (fds_of s t) other ≡ some f
    → refs_of s f + 1 < 2 ^ 31
    → Emptied s t fd held m
    → Replaced s t fd f held (put m fd f)
put-Replaced s m t fd other f held l l' d c n small (new, same, k, le, cur) =
    let has = same other d ∙ n in
    let (table, e) = table-slot m t other f has in
    let m' = file_ref m (some f) in
    let e' = ap (lookup t) (tables-file_ref m (some f)) ∙ e in
    let live =
      slot-Live m t other table e l' f held k
        (ap (λ u. slot u other) (sym (fds-table m t table e)) ∙ has) in
    let k' = file_ref-Counted m f held k live.0 (omega (arith, small, le f)) in
    subst (λ o. Replaced s t fd f held (put_in m o fd f)) (sym (cur ∙ c))
      (
        refl,
        slot-write_slot m' t table e' fd (some f) (omega (arith, l, k'.sized t table e')),
        λ i q.
            write_slot-SameOthers m' t table e' fd (some f) i q
            ∙ ap (λ u. slot u i) (fds-file_ref m (some f) t)
            ∙ same i q,
        put-Counted m' t fd table e' l f held k'
            (ap (λ u. slot u fd) (sym (fds-table m' t table e') ∙ fds-file_ref m (some f) t) ∙ new),
      )

module _ (s : Store) (t : ℕ) (table : Table) (e : lookup t s.tables ≡ some table)
    (c : current_files s ≡ some t) where
  fd_dup2-put :
      (fd fd2 f : ℕ) (closed : ℤ)
      → fd < max_fds
      → fd2 < max_fds
      → fd ≢ fd2
      → slot (fds_of s t) fd ≡ some f
      → fd_dup2 s (pos fd) (pos fd2) closed ≡ put (fd_close s (pos fd2) closed).0 fd2 f
  unfolding fd_dup2
  fd_dup2-put fd fd2 f closed l l' d n =
      rw (fd_get_file-open s t table e c fd l ∙ n) (ground (arith, l', d))

  -- If the counters are right and the counter of the open file does not overflow, fd_dup2 onto
  -- another descriptor in range returns that descriptor, which then has the file, leaves the other
  -- descriptors as they are and keeps the counters right.
  pub fd_dup2_lem :
      (fd fd2 f : ℕ) (held : ℕ → ℕ) (closed : ℤ)
      → fd < max_fds
      → fd2 < max_fds
      → fd ≢ fd2
      → Counted s held
      → slot (fds_of s t) fd ≡ some f
      → refs_of s f + 1 < 2 ^ 31
      → Replaced s t fd2 f held (fd_dup2 s (pos fd) (pos fd2) closed)
  fd_dup2_lem fd fd2 f held closed l l' d k n m =
      subst (Replaced s t fd2 f held) (sym (fd_dup2-put fd fd2 f closed l l' d n)) (
        put-Replaced s (fd_close s (pos fd2) closed).0 t fd2 fd f held l' l (λ q. d (sym q)) c n m
          (Closed-Emptied s t fd2 closed held (fd_close s (pos fd2) closed) k
            (fd_close_lem s t table e c fd2 closed held l' k)))
