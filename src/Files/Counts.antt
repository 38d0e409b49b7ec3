-- ===== src/Files/Counts.antt =====
-- How the reference counters and the entries of the tables change under each write.
use kil0y_os.Prelude.{
  ℕ, zero, suc, ◌+◌, ◌-◌, ◌^◌, ◌<◌, ◌≡◌, refl, ap, ◌∙◌, Option, none, some, List, [], ◌∷◌, length,
  set, replicate, ◌==◌, arith, if◌then◌else◌, lookup, insert, total, weight, total-insert,
  Bool-cases, inl, inr,
}
use kil0y_os.Prelude.Int.{ℤ}
use kil0y_os.Files.{
  Table, Store, refs_of, file_ref, file_close, slot, write_slot, bind, current_files,
}

-- 1 if the entry is the object.
abbrev pub one : ℕ → Option ℕ → ℕ
one f none = 0
one f (some g) = if g == f then 1 else 0

unfoldable pub count : ℕ → List (Option ℕ) → ℕ
count f [] = 0
count f (o ∷ fds) = one f o + count f fds

-- The entries of all tables that are the object.
abbrev pub references : Store → ℕ → ℕ
references s f = total (λ table. count f table.fds) s.tables

pub count-some :
    (f g : ℕ) (fds : List (Option ℕ))
    → count f (some g ∷ fds) ≡ (if g == f then 1 else 0) + count f fds
unfolding count
count-some f g fds = refl

pub count-none : (f : ℕ) (fds : List (Option ℕ)) → count f (none ∷ fds) ≡ count f fds
unfolding count
count-none f fds = omega arith

pub count-replicate : (f n : ℕ) → count f (replicate n none) ≡ 0
unfolding count
count-replicate f zero = refl
count-replicate f (suc n) = omega (arith, count-replicate f n)

pub count-set :
    (f : ℕ) (fds : List (Option ℕ)) (i : ℕ) (v : Option ℕ)
    → i < length fds
    → count f (set fds i v) + one f (slot fds i) ≡ count f fds + one f v
unfolding count
count-set f [] i v h = absurd (omega arith)
count-set f (o ∷ fds) zero v h = omega arith
count-set f (o ∷ fds) (suc i) v h = omega (arith, count-set f fds i v (omega arith))

pub write_slot-some :
    (s : Store) (t fd : ℕ) (v : Option ℕ) (table : Table)
    → lookup t s.tables ≡ some table
    → write_slot s t fd v
      ≡ record s { tables = insert t (record table { fds = set table.fds fd v }) s.tables }
write_slot-some s t fd v table e = ground arith

pub references-write_slot :
    (s : Store) (t fd f : ℕ) (v : Option ℕ) (table : Table)
    → lookup t s.tables ≡ some table
    → fd < length table.fds
    → references (write_slot s t fd v) f + one f (slot table.fds fd) ≡ references s f + one f v
references-write_slot s t fd f v table e h = rw (write_slot-some s t fd v table e) (
    omega (
      arith,
      ap (weight (λ (u : Table). count f u.fds)) e,
      total-insert (λ (u : Table). count f u.fds) t (record table { fds = set table.fds fd v })
          s.tables,
      count-set f table.fds fd v h,
    ))

-- A live object has a counter between 1 and 2^31 - 1.
abbrev pub Live : Store → ℕ → Type 0
Live s f = (0 < refs_of s f) × (refs_of s f < 2 ^ 31)

pub refs-file_ref :
    (s : Store) (g f : ℕ)
    → Live s g
    → refs_of (file_ref s (some g)) f ≡ (if g == f then refs_of s f + 1 else refs_of s f)
unfolding file_ref
refs-file_ref s g f l = elim (Bool-cases (g == f)) [
  | inl e ↦ let e' : g ≡ f = ground arith in ground (arith, ap s.objects e')
  | inr e ↦ ground arith
]

pub refs-file_close :
    (s : Store) (g f : ℕ) (closed : ℤ)
    → Live s g
    → refs_of (file_close s (some g) closed).0 f ≡ (if g == f then refs_of s f - 1 else refs_of s f)
unfolding file_close
refs-file_close s g f closed l = elim (Bool-cases (g == f)) [
  | inl e ↦ let e' : g ≡ f = ground arith in ground (arith, ap s.objects e')
  | inr e ↦ ground arith
]

pub file_ref-none : (s : Store) → file_ref s none ≡ s
unfolding file_ref
file_ref-none s = refl

pub tables-file_ref : (s : Store) (o : Option ℕ) → (file_ref s o).tables ≡ s.tables
unfolding file_ref
tables-file_ref s none = refl
tables-file_ref s (some f) = ground arith

pub tables-file_close :
    (s : Store) (o : Option ℕ) (closed : ℤ) → (file_close s o closed).0.tables ≡ s.tables
unfolding file_close
tables-file_close s none closed = refl
tables-file_close s (some f) closed = ground arith

pub files-file_ref :
    (s : Store) (o : Option ℕ)
    → ((file_ref s o).files ≡ s.files) × ((file_ref s o).current ≡ s.current)
unfolding file_ref
files-file_ref s none = (refl, refl)
files-file_ref s (some f) = (ground arith, ground arith)

pub current_files-same :
    (s s' : Store)
    → (s'.files ≡ s.files) × (s'.current ≡ s.current)
    → current_files s' ≡ current_files s
current_files-same s s' (p, q) = ap (λ u. bind u s'.files) q ∙ ap (bind s.current) p

pub files-file_close :
    (s : Store) (o : Option ℕ) (closed : ℤ)
    → ((file_close s o closed).0.files ≡ s.files) × ((file_close s o closed).0.current ≡ s.current)
unfolding file_close
files-file_close s none closed = (refl, refl)
files-file_close s (some f) closed = (ground arith, ground arith)
