-- ===== src/Files/Invariant.antt =====
-- The reference counts are right: a counter is the entries of all tables that are the object, and the
-- references that callers hold beside them (`held`). Each step keeps this.
use kil0y_os.Prelude.{
  ℕ, ◌+◌, ◌^◌, ◌<◌, ◌≡◌, ap, sym, ◌∙◌, Option, none, some, length, set, ◌==◌, arith, if◌then◌else◌,
  lookup, lookup-insert, length-set, Bool-cases, inl, inr,
}
use kil0y_os.Prelude.Int.{ℤ}
use kil0y_os.Files.{Table, Store, max_fds, refs_of, file_ref, file_close, slot, write_slot}
use kil0y_os.Files.Counts.{
  references, references-write_slot, write_slot-some, Live, refs-file_ref, refs-file_close,
  tables-file_ref, tables-file_close,
}

pub record Counted (s : Store) (held : ℕ → ℕ) : Type 0 where
  pub exact : (f : ℕ) → refs_of s f ≡ references s f + held f
  pub small : (f : ℕ) → refs_of s f < 2 ^ 31
  pub sized : (t : ℕ) (table : Table) → lookup t s.tables ≡ some table → length table.fds ≡ max_fds

-- One more reference to `f`.
abbrev pub plus : ℕ → (ℕ → ℕ) → ℕ → ℕ
plus f held g = if f == g then held g + 1 else held g

pub held-Live : {s : Store} (f : ℕ) (held : ℕ → ℕ) → Counted s (plus f held) → Live s f
held-Live f held c = ground (arith, c.exact f, c.small f)

pub file_ref-Counted :
    (s : Store) (f : ℕ) (held : ℕ → ℕ)
    → Counted s held
    → 0 < refs_of s f
    → refs_of s f + 1 < 2 ^ 31
    → Counted (file_ref s (some f)) (plus f held)
file_ref-Counted s f held c l m = record {
  exact = λ g.
      refs-file_ref s f g (l, c.small f)
      ∙ rw (tables-file_ref s (some f)) (ground (arith, c.exact g));
  small = λ g. rw (refs-file_ref s f g (l, c.small f)) (elim (Bool-cases (f == g)) [
    | inl e ↦ let e' : f ≡ g = ground arith in ground (arith, m, ap (refs_of s) e')
    | inr e ↦ ground (arith, c.small g)
  ]);
  sized = λ t table e. c.sized t table (rw (tables-file_ref s (some f)) at e);
}

pub file_close-Counted :
    (s : Store) (f : ℕ) (held : ℕ → ℕ) (closed : ℤ)
    → Counted s (plus f held)
    → Counted (file_close s (some f) closed).0 held
file_close-Counted s f held closed c = record {
  exact = λ g.
      refs-file_close s f g closed (held-Live f held c)
      ∙ rw (tables-file_close s (some f) closed) (ground (arith, c.exact g));
  small = λ g. rw (refs-file_close s f g closed (held-Live f held c)) (ground (arith, c.small g));
  sized = λ t table e. c.sized t table (rw (tables-file_close s (some f) closed) at e);
}

module _ (s : Store) (t fd : ℕ) (table : Table) (e : lookup t s.tables ≡ some table)
    (h : fd < max_fds) where
  pub refs-write_slot : (v : Option ℕ) (f : ℕ) → refs_of (write_slot s t fd v) f ≡ refs_of s f
  refs-write_slot v f = rw (write_slot-some s t fd v table e)

  write_slot-sized :
      (held : ℕ → ℕ) (v : Option ℕ) (u : ℕ) (other : Table)
      → Counted s held
      → lookup u (write_slot s t fd v).tables ≡ some other
      → length other.fds ≡ max_fds
  write_slot-sized held v u other c q = elim (Bool-cases (t == u)) [
    | inl b ↦ ground (
      arith,
      length-set table.fds fd v,
      c.sized t table e,
      lookup-insert t u (record table { fds = set table.fds fd v }) s.tables,
      sym (ap (λ (x : Store). lookup u x.tables) (write_slot-some s t fd v table e)) ∙ q,
    )
    | inr b ↦ ground (
      arith,
      c.sized u other,
      lookup-insert t u (record table { fds = set table.fds fd v }) s.tables,
      sym (ap (λ (x : Store). lookup u x.tables) (write_slot-some s t fd v table e)) ∙ q,
    )
  ]

  -- A held reference goes into an empty slot.
  pub put-Counted :
      (f : ℕ) (held : ℕ → ℕ)
      → Counted s (plus f held)
      → slot table.fds fd ≡ none
      → Counted (write_slot s t fd (some f)) held
  put-Counted f held c n = record {
    exact = λ g.
        refs-write_slot (some f) g
        ∙ ground
            (arith, c.exact g, c.sized t table e, references-write_slot s t fd g (some f) table e);
    small = λ g. rw (refs-write_slot (some f) g) (c.small g);
    sized = λ u other. write_slot-sized (plus f held) (some f) u other c;
  }

  -- The reference of a slot is taken out.
  pub take-Counted :
      (f : ℕ) (held : ℕ → ℕ)
      → Counted s held
      → slot table.fds fd ≡ some f
      → Counted (write_slot s t fd none) (plus f held)
  take-Counted f held c n = record {
    exact = λ g.
        refs-write_slot none g
        ∙ ground (arith, c.exact g, c.sized t table e, references-write_slot s t fd g none table e);
    small = λ g. rw (refs-write_slot none g) (c.small g);
    sized = λ u other. write_slot-sized held none u other c;
  }

  -- An empty slot is written as it is.
  pub keep-Counted :
      (held : ℕ → ℕ)
      → Counted s held
      → slot table.fds fd ≡ none
      → Counted (write_slot s t fd none) held
  keep-Counted held c n = record {
    exact = λ g.
        refs-write_slot none g
        ∙ ground (arith, c.exact g, c.sized t table e, references-write_slot s t fd g none table e);
    small = λ g. rw (refs-write_slot none g) (c.small g);
    sized = λ u other. write_slot-sized held none u other c;
  }

  -- An object in a slot has a reference.
  pub slot-Live : (f : ℕ) (held : ℕ → ℕ) → Counted s held → slot table.fds fd ≡ some f → Live s f
  slot-Live f held c n = (
    ground (
      arith,
      n,
      c.exact f,
      c.sized t table e,
      references-write_slot s t fd f none table e (omega (arith, h, c.sized t table e)),
    ),
    c.small f,
  )
