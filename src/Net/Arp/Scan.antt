-- ===== src/Net/Arp/Scan.antt =====
-- The loops of src/kernel/net/arp.c over the cache: what arp_find and the search for a free entry give.
use kil0y_os.Prelude.{
  ℕ, zero, suc, ◌+◌, ◌<◌, ◌≡◌, refl, ap, sym, ◌∙◌, subst, Bool, true, false, ◌&&◌, List, [], ◌∷◌,
  length, set, get_elem?, ◌==◌, leb, ◌-◌, ◌%◌, ◌^◌, if◌then◌else◌, Option, none, some, Bool-cases,
  inl, inr, ◌⊎◌, arith,
}
use kil0y_os.Net.Arp.{Entry, is_old, find_from, free_entry}

-- An entry in use for an address: valid and at most 30 seconds old.
abbrev pub answers : Entry → ℕ → ℕ → Bool
answers e ip now = e.valid && (leb ((now + 2 ^ 32 - e.timestamp) % 2 ^ 32) 30000 && (e.ip == ip))

-- The hardware address that the cache has for an address.
abbrev pub mac_at : List Entry → ℕ → ℕ → Option (List ℕ)
mac_at [] ip now = none
mac_at (e ∷ es) ip now = if answers e ip now then some e.mac else mac_at es ip now

-- No entry before index `k` answers.
abbrev pub NoneBefore : List Entry → ℕ → ℕ → ℕ → Type 0
NoneBefore [] k ip now = Unit {0}
NoneBefore (e ∷ es) zero ip now = Unit {0}
NoneBefore (e ∷ es) (suc k) ip now = (answers e ip now ≡ false) × NoneBefore es k ip now

-- A fresh entry for an address, put where no entry before it answers.
pub set-answers :
    (es : List Entry) (k : ℕ) (new : Entry) (ip now : ℕ)
    → k < length es
    → answers new ip now ≡ true
    → NoneBefore es k ip now
    → mac_at (set es k new) ip now ≡ some new.mac
set-answers [] k new ip now l a n = absurd (omega (arith, l))
set-answers (e ∷ es) zero new ip now l a n = rw a refl
set-answers (e ∷ es) (suc k) new ip now l a (b, n) =
    rw b (set-answers es k new ip now (omega (arith, l)) a n)

entry_or : Option Entry → Entry → Entry
entry_or none d = d
entry_or (some e) d = e

same_entry : (e old : Entry) → some e ≡ some old → e ≡ old
unfolding entry_or
same_entry e old g = ap (λ o. entry_or o e) g

-- An address for which neither the old nor the new entry answers.
pub set-others :
    (es : List Entry) (k : ℕ) (old new : Entry) (ip now : ℕ)
    → get_elem? es k ≡ some old
    → answers old ip now ≡ false
    → answers new ip now ≡ false
    → mac_at (set es k new) ip now ≡ mac_at es ip now
set-others [] k old new ip now g a b = refl
set-others (e ∷ es) zero old new ip now g a b =
    let same : answers e ip now ≡ false =
      subst (λ x. answers x ip now ≡ false) (sym (same_entry e old g)) a in
    rw (b, same) refl
set-others (e ∷ es) (suc k) old new ip now g a b =
    ap (λ r. if answers e ip now then some e.mac else r) (set-others es k old new ip now g a b)

passed :
    (e : Entry) (es : List Entry) (x now : ℕ)
    → answers e x now ≡ false
    → mac_at (e ∷ es) x now ≡ mac_at es x now
passed e es x now a = rw a refl

-- What the scan of arp_find gave: the index of the first entry that answers, or that none does.
abbrev pub Hit : List Entry → ℕ → ℕ → ℕ → Option ℕ → Type 0
Hit es ip now i none = (k : ℕ) → NoneBefore es k ip now
Hit es ip now i (some j) =
    (k : ℕ) × (j ≡ i + k)
    × NoneBefore es k ip now
    × ((e : Entry) × (get_elem? es k ≡ some e) × (e.ip ≡ ip))

abbrev Scanned : List Entry → ℕ → ℕ → ℕ → List Entry × Option ℕ → Type 0
Scanned es ip now i (es', r) =
    (length es' ≡ length es) × ((x : ℕ) → mac_at es' x now ≡ mac_at es x now) × Hit es' ip now i r

Hit-later :
    (e : Entry) (es : List Entry) (ip now i : ℕ) (r : Option ℕ)
    → answers e ip now ≡ false
    → Hit es ip now (i + 1) r
    → Hit (e ∷ es) ip now i r
Hit-later e es ip now i none a h = λ k. before k
  where
    before : (k : ℕ) → NoneBefore (e ∷ es) k ip now
    before zero = tt
    before (suc k) = (a, h k)
Hit-later e es ip now i (some j) a (k, at, n, here) = (suc k, omega (arith, at), (a, n), here)

-- An entry that does not answer, or that has become old, is passed over.
find_from-passes :
    (e : Entry) (es : List Entry) (ip now i : ℕ)
    → answers e ip now ≡ false
    → let rest = find_from es ip now (i + 1) in
      (find_from (e ∷ es) ip now i ≡ (e ∷ rest.0, rest.1))
      ⊎ ((find_from (e ∷ es) ip now i ≡ (record e { valid = false } ∷ rest.0, rest.1))
          × ((x : ℕ) → answers e x now ≡ false))
unfolding find_from
find_from-passes e es ip now i a = elim (Bool-cases e.valid) [
  | inr v ↦ inl (ground (arith, v))
  | inl v ↦ elim (Bool-cases (is_old e now)) [
    | inl o ↦ inr (ground (arith, v, o), λ x. ground (arith, v, o))
    | inr o ↦ inl (ground (arith, v, o, a))
  ]
]

find_from-stops :
    (e : Entry) (es : List Entry) (ip now i : ℕ)
    → answers e ip now ≡ true
    → find_from (e ∷ es) ip now i ≡ (e ∷ es, some i)
unfolding find_from
find_from-stops e es ip now i a = ground (arith, a)

find_from-empty : (ip now i : ℕ) → find_from [] ip now i ≡ ([], none)
unfolding find_from
find_from-empty ip now i = refl

pub find_from-Scanned :
    (es : List Entry) (ip now i : ℕ) → Scanned es ip now i (find_from es ip now i)
find_from-Scanned [] ip now i =
    subst (Scanned [] ip now i) (sym (find_from-empty ip now i)) (refl, λ x. refl, λ k. tt)
find_from-Scanned (e ∷ es) ip now i = elim (Bool-cases (answers e ip now)) [
  | inl a ↦
      let z : i ≡ i + 0 = omega arith in
      subst (Scanned (e ∷ es) ip now i) (sym (find_from-stops e es ip now i a))
        (refl, λ x. refl, (0, z, tt, (e, refl, ground (arith, a))))
  | inr a ↦
      let (size, same, hit) = find_from-Scanned es ip now (i + 1) in
      elim (find_from-passes e es ip now i a) [
        | inl eq ↦ subst (Scanned (e ∷ es) ip now i) (sym eq) (
          ap suc size,
          λ x. ap (λ r. if answers e x now then some e.mac else r) (same x),
          Hit-later e _ ip now i _ a hit,
        )
        | inr (eq, silent) ↦ subst (Scanned (e ∷ es) ip now i) (sym eq) (
          ap suc size,
          λ x. same x ∙ sym (passed e es x now (silent x)),
          Hit-later (record e { valid = false }) _ ip now i _ refl hit,
        )
      ]
]

pub get_elem?-lt : (es : List Entry) (k : ℕ) (e : Entry) → get_elem? es k ≡ some e → k < length es
get_elem?-lt [] k e g = absurd (ground (arith, g))
get_elem?-lt (d ∷ es) zero e g = omega arith
get_elem?-lt (d ∷ es) (suc k) e g = omega (arith, get_elem?-lt es k e g)

pub get_elem?-some :
    (es : List Entry) (k : ℕ) → k < length es → (e : Entry) × (get_elem? es k ≡ some e)
get_elem?-some [] k l = absurd (omega (arith, l))
get_elem?-some (e ∷ es) zero l = (e, refl)
get_elem?-some (e ∷ es) (suc k) l = get_elem?-some es k (omega (arith, l))

-- Every entry is valid.
abbrev pub AllValid : List Entry → Type 0
AllValid [] = Unit {0}
AllValid (e ∷ es) = (e.valid ≡ true) × AllValid es

-- Every entry is in use for its address.
abbrev pub AllInUse : List Entry → ℕ → Type 0
AllInUse [] now = Unit {0}
AllInUse (e ∷ es) now = (answers e e.ip now ≡ true) × AllInUse es now

in_use : (e : Entry) (now : ℕ) → e.valid ≡ true → is_old e now ≡ false → answers e e.ip now ≡ true
in_use e now v y = ground (arith, v, y)

find_from-young :
    (e : Entry) (es : List Entry) (ip now i : ℕ)
    → answers e ip now ≡ false
    → is_old e now ≡ false
    → find_from (e ∷ es) ip now i
      ≡ (e ∷ (find_from es ip now (i + 1)).0, (find_from es ip now (i + 1)).1)
unfolding find_from
find_from-young e es ip now i a y = ground (arith, a, y)

find_from-fades :
    (e : Entry) (es : List Entry) (ip now i : ℕ)
    → e.valid ≡ true
    → is_old e now ≡ true
    → find_from (e ∷ es) ip now i ≡ (
      record e { valid = false } ∷ (find_from es ip now (i + 1)).0,
      (find_from es ip now (i + 1)).1,
    )
unfolding find_from
find_from-fades e es ip now i v o = ground (arith, v, o)

-- If the scan finds nothing and leaves every entry valid, then every entry was in use, and none has changed.
abbrev pub FilledUp : List Entry → ℕ → List Entry × Option ℕ → Type 0
FilledUp es now (out, r) = r ≡ none → AllValid out → AllInUse es now × (out ≡ es)

pub find_from-FilledUp : (es : List Entry) (ip now i : ℕ) → FilledUp es now (find_from es ip now i)
find_from-FilledUp [] ip now i =
    subst (FilledUp [] now) (sym (find_from-empty ip now i)) (λ r v. (tt, refl))
find_from-FilledUp (e ∷ es) ip now i =
    let ih = find_from-FilledUp es ip now (i + 1) in
    elim (Bool-cases (answers e ip now)) [
      | inl a ↦
          subst (FilledUp (e ∷ es) now) (sym (find_from-stops e es ip now i a))
            (λ r v. absurd (ground (arith, r)))
      | inr a ↦ elim (Bool-cases (is_old e now)) [
        | inl o ↦ elim (Bool-cases e.valid) [
          | inl u ↦
              subst (FilledUp (e ∷ es) now) (sym (find_from-fades e es ip now i u o))
                (λ r v. absurd (ground (arith, v.0)))
          | inr u ↦ elim (find_from-passes e es ip now i a) [
            | inl eq ↦
                subst (FilledUp (e ∷ es) now) (sym eq) (λ r v. absurd (ground (arith, u, v.0)))
            | inr (eq, silent) ↦
                subst (FilledUp (e ∷ es) now) (sym eq) (λ r v. absurd (ground (arith, v.0)))
          ]
        ]
        | inr y ↦ subst (FilledUp (e ∷ es) now) (sym (find_from-young e es ip now i a y)) (λ r v.
            let (used, same) = ih r (v.1) in ((in_use e now (v.0) y, used), ap (λ xs. e ∷ xs) same))
      ]
    ]

-- The entry that arp_cache_update takes when no entry answers.
abbrev pub FoundFree : List Entry → ℕ → Option ℕ → Type 0
FoundFree es i none = AllValid es
FoundFree es i (some j) =
    (k : ℕ) × (j ≡ i + k) × ((e : Entry) × (get_elem? es k ≡ some e) × (e.valid ≡ false))

FoundFree-later :
    (e : Entry) (es : List Entry) (i : ℕ) (r : Option ℕ)
    → e.valid ≡ true
    → FoundFree es (i + 1) r
    → FoundFree (e ∷ es) i r
FoundFree-later e es i none v f = (v, f)
FoundFree-later e es i (some j) v (k, at, here) = (suc k, omega (arith, at), here)

free_entry-taken :
    (e : Entry) (es : List Entry) (i : ℕ)
    → e.valid ≡ true
    → free_entry (e ∷ es) i ≡ free_entry es (i + 1)
unfolding free_entry
free_entry-taken e es i v = ground (arith, v)

free_entry-here :
    (e : Entry) (es : List Entry) (i : ℕ) → e.valid ≡ false → free_entry (e ∷ es) i ≡ some i
unfolding free_entry
free_entry-here e es i v = ground (arith, v)

free_entry-empty : (i : ℕ) → free_entry [] i ≡ none
unfolding free_entry
free_entry-empty i = refl

pub free_entry-FoundFree : (es : List Entry) (i : ℕ) → FoundFree es i (free_entry es i)
free_entry-FoundFree [] i = subst (FoundFree [] i) (sym (free_entry-empty i)) tt
free_entry-FoundFree (e ∷ es) i = elim (Bool-cases e.valid) [
  | inl v ↦
      subst (FoundFree (e ∷ es) i) (sym (free_entry-taken e es i v))
        (FoundFree-later e es i _ v (free_entry-FoundFree es (i + 1)))
  | inr v ↦
      let z : i ≡ i + 0 = omega arith in
      subst (FoundFree (e ∷ es) i) (sym (free_entry-here e es i v)) (0, z, (e, refl, v))
]
