-- ===== src/Prelude/Maps.antt =====
-- Stores: a function from addresses, and an association list whose entries can be summed over.
use Prim.Native.Nat.{ℕ, ◌+◌, ◌≤◌}
use mathlib.Core.Path.{◌≡◌, refl}
use mathlib.Core.Logic.{◌≢◌}
use mathlib.Core.List.{List, [], ◌∷◌}
use mathlib.Core.Option.{Option, none, some}
use native.Mathlib.Omega.{arith}
use kil0y_os.Prelude.Tests.{◌==◌, if◌then◌else◌}

-- A store with one cell written.
abbrev pub update {ℓ} : {A : Type ℓ} → (ℕ → A) → ℕ → A → ℕ → A
update f p v q = if p == q then v else f q

module _ {ℓ} {V : Type ℓ} where
  abbrev pub lookup : ℕ → List (ℕ × V) → Option V
  lookup k [] = none
  lookup k ((j, v) ∷ m) = if j == k then some v else lookup k m

  -- Writes the first entry with the key, and adds one if there is none.
  abbrev pub insert : ℕ → V → List (ℕ × V) → List (ℕ × V)
  insert k v [] = (k, v) ∷ []
  insert k v ((j, w) ∷ m) = if j == k then (k, v) ∷ m else (j, w) ∷ insert k v m

  -- Drops the first entry with the key.
  abbrev pub erase : ℕ → List (ℕ × V) → List (ℕ × V)
  erase k [] = []
  erase k ((j, w) ∷ m) = if j == k then m else (j, w) ∷ erase k m

  -- The sum of a weight over the entries.
  abbrev pub total : (V → ℕ) → List (ℕ × V) → ℕ
  total w [] = 0
  total w ((_, v) ∷ m) = w v + total w m

  abbrev pub weight : (V → ℕ) → Option V → ℕ
  weight w none = 0
  weight w (some v) = w v

  pub lookup-insert :
      (k j : ℕ) (v : V) (m : List (ℕ × V))
      → lookup j (insert k v m) ≡ (if k == j then some v else lookup j m)
  lookup-insert k j v [] = refl
  lookup-insert k j v ((i, w) ∷ m) = ground (arith, lookup-insert k j v m)

  pub total-insert :
      (w : V → ℕ) (k : ℕ) (v : V) (m : List (ℕ × V))
      → total w (insert k v m) + weight w (lookup k m) ≡ total w m + w v
  total-insert w k v [] = omega arith
  total-insert w k v ((j, x) ∷ m) = ground (arith, total-insert w k v m)

  pub total-erase :
      (w : V → ℕ) (k : ℕ) (m : List (ℕ × V))
      → total w (erase k m) + weight w (lookup k m) ≡ total w m
  total-erase w k [] = omega arith
  total-erase w k ((j, x) ∷ m) = ground (arith, total-erase w k m)

  pub weight-le-total : (w : V → ℕ) (k : ℕ) (m : List (ℕ × V)) → weight w (lookup k m) ≤ total w m
  weight-le-total w k m = omega (arith, total-erase w k m)

  pub lookup-erase_ne : (k j : ℕ) (m : List (ℕ × V)) → k ≢ j → lookup j (erase k m) ≡ lookup j m
  lookup-erase_ne k j [] d = refl
  lookup-erase_ne k j ((i, w) ∷ m) d = ground (arith, d, lookup-erase_ne k j m d)

  pub erase-insert : (k : ℕ) (v : V) (m : List (ℕ × V)) → erase k (insert k v m) ≡ erase k m
  erase-insert k v [] = ground arith
  erase-insert k v ((i, w) ∷ m) = ground (arith, erase-insert k v m)
