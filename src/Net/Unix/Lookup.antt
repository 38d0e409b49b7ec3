-- ===== src/Net/Unix/Lookup.antt =====
-- The lookup of a name in the bind table of src/kernel/net/unix_sock.c.
use kil0y_os.Prelude.{
  ℕ, suc, ◌+◌, ◌-◌, ◌≤◌, ◌≡◌, ◌≢◌, refl, ap, sym, ◌∙◌, subst, Bool, true, false, List, [], ◌∷◌,
  get_elem?, if◌then◌else◌, Option, none, some, Option-cases, Bool-cases, inl, inr, ◌⊎◌, arith,
}
use kil0y_os.Net.Unix.{Unix, Node}
use kil0y_os.Net.Unix.Bind.{same_bytes, same_flag, is_bound_to, bind_find}
use kil0y_os.Net.Unix.Connect.{socket_at}

-- The socket of the first node with a name, 0 if there is none.
abbrev pub find_owner : List Node → List ℕ → Bool → ℕ
find_owner [] path abstract = 0
find_owner (n ∷ ns) path abstract =
    if is_bound_to n path abstract then n.owner else find_owner ns path abstract

abbrev pub owner_of : Option Node → ℕ
owner_of none = 0
owner_of (some n) = n.owner

-- What bind_find returns, started at index `i`.
abbrev pub Found : List Node → List ℕ → Bool → ℕ → Option ℕ → Type 0
Found ns path abstract i none = find_owner ns path abstract ≡ 0
Found ns path abstract i (some j) =
    (i ≤ j)
    × (owner_of (get_elem? ns (j - i)) ≡ find_owner ns path abstract)
    × (find_owner ns path abstract ≢ 0)

pub later :
    (n : Node) (ns : List Node) (i j : ℕ)
    → i + 1 ≤ j
    → get_elem? (n ∷ ns) (j - i) ≡ get_elem? ns (j - (i + 1))
later n ns i j l = let e : j - i ≡ suc (j - (i + 1)) = omega (arith, l) in rw e refl

Found-later :
    (n : Node) (ns : List Node) (path : List ℕ) (abstract : Bool) (i : ℕ) (r : Option ℕ)
    → is_bound_to n path abstract ≡ false
    → Found ns path abstract (i + 1) r
    → Found (n ∷ ns) path abstract i r
Found-later n ns path abstract i none e f = rw e f
Found-later n ns path abstract i (some j) e (a, b, c) =
    let same : find_owner (n ∷ ns) path abstract ≡ find_owner ns path abstract =
      ground (arith, e) in
    (omega (arith, a), ap owner_of (later n ns i j a) ∙ b ∙ sym same, λ z. c (sym same ∙ z))

pub bind_find-Found :
    (ns : List Node) (path : List ℕ) (abstract : Bool) (i : ℕ)
    → Found ns path abstract i (bind_find ns path abstract i)
unfolding bind_find
bind_find-Found [] path abstract i = refl
bind_find-Found (n ∷ ns) path abstract i = elim (Bool-cases (is_bound_to n path abstract)) [
  | inl e ↦
      let z : i - i ≡ 0 = omega arith in
      let nonzero : n.owner ≢ 0 = λ w. absurd (ground (arith, e, w)) in
      let here : n.owner ≡ find_owner (n ∷ ns) path abstract = ground (arith, e) in
      let at : owner_of (get_elem? (n ∷ ns) (i - i)) ≡ n.owner = rw z refl in
      rw e (omega arith, at ∙ here, λ w. nonzero (here ∙ w))
  | inr e ↦ rw e (Found-later n ns path abstract i _ e (bind_find-Found ns path abstract (i + 1)))
]

owner_at :
    (ns : List Node) (o : Option Node)
    → elim o as (λ _. ℕ) [ none ↦ 0 | some n ↦ n.owner ] ≡ owner_of o
owner_at ns none = refl
owner_at ns (some n) = refl

-- The lookup that the calls make is the first node with the name.
pub socket_at-find_owner :
    (u : Unix) (path : List ℕ) (abstract : Bool)
    → socket_at u path abstract ≡ find_owner u.bind_tab path abstract
socket_at-find_owner u path abstract =
    let f = bind_find-Found u.bind_tab path abstract 0 in
    elim (Option-cases (bind_find u.bind_tab path abstract 0)) [
      | inl e ↦ ground (arith, e, subst (Found u.bind_tab path abstract 0) e f)
      | inr (j, e) ↦
          let (a, b, c) = subst (Found u.bind_tab path abstract 0) e f in
          let z : j - 0 ≡ j = omega arith in
          ground (arith, e, b, ap (λ k. owner_of (get_elem? u.bind_tab k)) z)
    ]

pub same_bytes→eq : (xs ys : List ℕ) → same_bytes xs ys ≡ true → xs ≡ ys
same_bytes→eq [] [] e = refl
same_bytes→eq [] (y ∷ ys) e = absurd (ground (arith, e))
same_bytes→eq (x ∷ xs) [] e = absurd (ground (arith, e))
same_bytes→eq (x ∷ xs) (y ∷ ys) e =
    let a : x ≡ y = ground (arith, e) in
    let b : xs ≡ ys = same_bytes→eq xs ys (ground (arith, e)) in
    ap (λ z. z ∷ xs) a ∙ ap (λ zs. y ∷ zs) b

pub same_flag→eq : (a b : Bool) → same_flag a b ≡ true → a ≡ b
same_flag→eq a b e = ground (arith, e)

pub same_bytes_refl : (xs : List ℕ) → same_bytes xs xs ≡ true
same_bytes_refl [] = refl
same_bytes_refl (x ∷ xs) = ground (arith, same_bytes_refl xs)

-- A node in use that has the name.
abbrev pub HasName : Node → List ℕ → Bool → Type 0
HasName n path abstract = (n.owner ≢ 0) × (n.is_abstract ≡ abstract) × (n.path ≡ path)

-- `l` is the socket of the first node in use that has the name, 0 if there is none.
abbrev pub IsAt : List Node → List ℕ → Bool → ℕ → Type 0
IsAt [] path abstract l = l ≡ 0
IsAt (n ∷ ns) path abstract l =
    (HasName n path abstract × (l ≡ n.owner))
    ⊎ (¬ HasName n path abstract × IsAt ns path abstract l)

bound-HasName :
    (n : Node) (path : List ℕ) (abstract : Bool)
    → is_bound_to n path abstract ≡ true
    → HasName n path abstract
bound-HasName n path abstract e = (
  (λ z. absurd (ground (arith, e, z))),
  same_flag→eq n.is_abstract abstract (ground (arith, e)),
  same_bytes→eq n.path path (ground (arith, e)),
)

unbound-HasName :
    (n : Node) (path : List ℕ) (abstract : Bool)
    → is_bound_to n path abstract ≡ false
    → ¬ HasName n path abstract
unbound-HasName n path abstract e (d, f, q) =
    let same : same_bytes n.path path ≡ true =
      subst (λ x. same_bytes n.path x ≡ true) q (same_bytes_refl n.path) in
    absurd (ground (arith, e, d, f, same))

find_owner-IsAt :
    (ns : List Node) (path : List ℕ) (abstract : Bool)
    → IsAt ns path abstract (find_owner ns path abstract)
find_owner-IsAt [] path abstract = refl
find_owner-IsAt (n ∷ ns) path abstract = elim (Bool-cases (is_bound_to n path abstract)) [
  | inl e ↦ inl (bound-HasName n path abstract e, ground (arith, e))
  | inr e ↦
      let skip : find_owner ns path abstract ≡ find_owner (n ∷ ns) path abstract =
        ground (arith, e) in
      inr (
        unbound-HasName n path abstract e,
        subst (IsAt ns path abstract) skip (find_owner-IsAt ns path abstract),
      )
]

pub socket_at-IsAt :
    (u : Unix) (path : List ℕ) (abstract : Bool)
    → IsAt u.bind_tab path abstract (socket_at u path abstract)
socket_at-IsAt u path abstract =
    subst (IsAt u.bind_tab path abstract) (sym (socket_at-find_owner u path abstract))
      (find_owner-IsAt u.bind_tab path abstract)
