-- ===== src/Memory/Heap/Boot.antt =====
-- memory_init of src/kernel/mm/memory.c: the choice of the heap's arena, the heap, and its pages. The map is a list,
-- empty for NULL; the log is left out.
use kil0y_os.Prelude.{
  ℕ, ◌+◌, ◌-◌, ◌*◌, ◌/◌, ◌%◌, ◌^◌, ◌≤◌, ◌<◌, ◌≡◌, refl, ap, sym, subst, Bool, true, false, ◌&&◌,
  List, [], ◌∷◌, ltb, leb, ◌==◌, if◌then◌else◌, arith, Bool-cases, inl, inr, ◌⊎◌,
}
use kil0y_os.Memory.Pages.{Pmm, mark_region}
use kil0y_os.Memory.Heap.{Header, Heap, heap_init, ptr_add}

-- memory_map_t, less its last word, which nothing reads.
pub record MapEntry : Type 0 where
  pub base_addr_low : ℕ
  pub base_addr_high : ℕ
  pub length_low : ℕ
  pub length_high : ℕ
  pub kind : ℕ

-- The two halves of a 64-bit number.
abbrev pub entry_base : MapEntry → ℕ
entry_base e = e.base_addr_high * 2 ^ 32 + e.base_addr_low

abbrev pub entry_length : MapEntry → ℕ
entry_length e = e.length_high * 2 ^ 32 + e.length_low

-- The end of the kernel, up to a page, and at least 2 MiB.
abbrev pub heap_base : ℕ → ℕ
heap_base kernel_end =
    let up = (kernel_end + 4095) % 2 ^ 64 / 4096 * 4096 in if ltb up 0x200000 then 0x200000 else up

-- The loop over the map: the size and the start of the largest region so far.
unfoldable pub largest_region : ℕ → List MapEntry → ℕ × ℕ → ℕ × ℕ
largest_region low [] best = best
largest_region low (e ∷ es) (size, start) = largest_region low es (
    if (e.kind == 1) && ltb size (entry_length e) && leb low (entry_base e)
    then (entry_length e, entry_base e)
    else (size, start))

-- heap_start and heap_end.
abbrev pub choose_arena : ℕ → List MapEntry → ℕ × ℕ
choose_arena kernel_end map =
    let low = heap_base kernel_end in
    let (size, start) = largest_region low map (0, low) in
    if ltb 0x100000 size
    then (start, ptr_add start (if ltb 0x2000000 size then 0x2000000 else size))
    else (low, ptr_add low 0x2000000)

unfoldable pub memory_init : ℕ → List MapEntry → (ℕ → Header) → Pmm → Heap × Pmm
memory_init kernel_end map memory pmm =
    let (start, stop) = choose_arena kernel_end map in
    (heap_init start stop memory, mark_region pmm start ((stop + 2 ^ 64 - start) % 2 ^ 64) true)

-- Some usable entry (type 1) of the map has the base and the length.
abbrev pub HasRegion : List MapEntry → ℕ → ℕ → Type 0
HasRegion [] base size = ⊥
HasRegion (e ∷ es) base size =
    ((e.kind ≡ 1) × (base ≡ entry_base e) × (size ≡ entry_length e)) ⊎ HasRegion es base size

-- No usable entry from `low` on is longer.
abbrev pub AtMost : List MapEntry → ℕ → ℕ → Type 0
AtMost [] low size = Unit {0}
AtMost (e ∷ es) low size =
    (e.kind ≡ 1 → low ≤ entry_base e → entry_length e ≤ size) × AtMost es low size

-- Every usable entry ends below 2^63.
abbrev pub EndsLow : List MapEntry → Type 0
EndsLow [] = Unit {0}
EndsLow (e ∷ es) = (e.kind ≡ 1 → entry_base e + entry_length e < 2 ^ 63) × EndsLow es

-- What the loop found, started at `best`.
abbrev pub Largest : List MapEntry → ℕ → ℕ × ℕ → ℕ × ℕ → Type 0
Largest es low best out =
    ((out ≡ best) ⊎ (HasRegion es (out.1) (out.0) × (low ≤ out.1)))
    × AtMost es low (out.0)
    × (best.0 ≤ out.0)

better : ℕ → MapEntry → ℕ → Bool
better low e size = (e.kind == 1) && ltb size (entry_length e) && leb low (entry_base e)

largest_region-takes :
    (low : ℕ) (e : MapEntry) (es : List MapEntry) (size start : ℕ)
    → better low e size ≡ true
    → largest_region low (e ∷ es) (size, start)
      ≡ largest_region low es (entry_length e, entry_base e)
unfolding largest_region better
largest_region-takes low e es size start t = rw t refl

largest_region-passes :
    (low : ℕ) (e : MapEntry) (es : List MapEntry) (size start : ℕ)
    → better low e size ≡ false
    → largest_region low (e ∷ es) (size, start) ≡ largest_region low es (size, start)
unfolding largest_region better
largest_region-passes low e es size start t = rw t refl

taken_lem :
    (low : ℕ) (e : MapEntry) (size : ℕ)
    → better low e size ≡ true
    → (e.kind ≡ 1) × (size < entry_length e) × (low ≤ entry_base e)
unfolding better
taken_lem low e size t = ground (arith, t)

passed_lem :
    (low : ℕ) (e : MapEntry) (size : ℕ)
    → better low e size ≡ false
    → e.kind ≡ 1
    → low ≤ entry_base e
    → entry_length e ≤ size
unfolding better
passed_lem low e size t k l = ground (arith, t, k, l)

largest_region-empty : (low size start : ℕ) → largest_region low [] (size, start) ≡ (size, start)
unfolding largest_region
largest_region-empty low size start = refl

pub largest_region-Largest :
    (low : ℕ) (es : List MapEntry) (size start : ℕ)
    → Largest es low (size, start) (largest_region low es (size, start))
largest_region-Largest low [] size start =
    subst (Largest [] low (size, start)) (sym (largest_region-empty low size start))
      (inl refl, tt, omega arith)
largest_region-Largest low (e ∷ es) size start = elim (Bool-cases (better low e size)) [
  | inl t ↦
      let (kind, more, above) = taken_lem low e size t in
      let (found, most, up) = largest_region-Largest low es (entry_length e) (entry_base e) in
      subst (Largest (e ∷ es) low (size, start)) (sym (largest_region-takes low e es size start t))
        (
          elim found [
            | inl same ↦ inr (
              inl (kind, ap (λ (p : ℕ × ℕ). p.1) same, ap (λ (p : ℕ × ℕ). p.0) same),
              subst (λ b. low ≤ b) (sym (ap (λ (p : ℕ × ℕ). p.1) same)) above,
            )
            | inr (r, l) ↦ inr (inr r, l)
          ],
          ((λ k l. up), most),
          omega (arith, more, up),
        )
  | inr t ↦
      let (found, most, up) = largest_region-Largest low es size start in
      let short = passed_lem low e size t in
      subst (Largest (e ∷ es) low (size, start)) (sym (largest_region-passes low e es size start t))
        (
          elim found [ inl same ↦ inl same | inr (r, l) ↦ inr (inr r, l) ],
          ((λ k l. omega (arith, short k l, up)), most),
          up,
        )
]

pub EndsLow-HasRegion :
    (es : List MapEntry) (base size : ℕ)
    → EndsLow es
    → HasRegion es base size
    → base + size < 2 ^ 63
EndsLow-HasRegion [] base size h r = absurd r
EndsLow-HasRegion (e ∷ es) base size (h, hs) (inl (k, b, l)) = omega (arith, h k, b, l)
EndsLow-HasRegion (e ∷ es) base size (h, hs) (inr r) = EndsLow-HasRegion es base size hs r
