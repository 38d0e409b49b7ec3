-- ===== src/Net/Unix/Names.antt =====
-- The bind table of src/kernel/net/unix_sock.c as a map from names to sockets.
use kil0y_os.Prelude.{
  ℕ, zero, suc, ◌+◌, ◌-◌, ◌≤◌, ◌≡◌, ◌≢◌, refl, ap, sym, ◌∙◌, subst, Bool, true, false, not, ◌&&◌,
  ◌||◌, List, [], ◌∷◌, length, set, get_elem?, ◌==◌, ltb, if◌then◌else◌, Option, none, some,
  Option-cases, Bool-cases, inl, inr, ◌⊎◌, arith,
}
use kil0y_os.Prelude.Int.{ℤ, pos, minus}
use kil0y_os.Net.Unix.{Unix, Node, path_max, write_socket}
use kil0y_os.Net.Unix.Bind.{same_bytes, same_flag, is_bound_to, bind_find, free_node, unix_bind}
use kil0y_os.Net.Unix.Connect.{socket_at}
use kil0y_os.Net.Unix.Lookup.{
  find_owner, owner_of, Found, later, bind_find-Found, socket_at-find_owner, same_bytes→eq,
  same_flag→eq, same_bytes_refl, IsAt, socket_at-IsAt,
}

-- Whether two names are the same.
abbrev pub same_name : List ℕ → Bool → List ℕ → Bool → Bool
same_name path abstract path' abstract' = same_flag abstract abstract' && same_bytes path path'

-- A free node that is filled with a name that no node has.
find_owner-set :
    (ns : List Node) (k : ℕ) (old new : Node) (path : List ℕ) (abstract : Bool)
    → get_elem? ns k ≡ some old
    → old.owner ≡ 0
    → (is_bound_to new path abstract ≡ true → find_owner ns path abstract ≡ 0)
    → find_owner (set ns k new) path abstract
      ≡ (if is_bound_to new path abstract then new.owner else find_owner ns path abstract)
find_owner-set [] k old new path abstract at z h = absurd (ground (arith, at))
find_owner-set (n ∷ ns) zero old new path abstract at z h =
    let none_here : n.owner ≡ 0 = ap owner_of at ∙ z in ground (arith, none_here, h)
find_owner-set (n ∷ ns) (suc k) old new path abstract at z h =
    elim (Bool-cases (is_bound_to n path abstract)) [
      | inl e ↦ ground (arith, e, h)
      | inr e ↦
          let same : find_owner (n ∷ ns) path abstract ≡ find_owner ns path abstract =
            ground (arith, e) in
          ground (arith, e, find_owner-set ns k old new path abstract at z (λ w. sym same ∙ h w))
    ]

-- Every node of the table belongs to a socket.
abbrev pub AllOwned : List Node → Type 0
AllOwned [] = Unit {0}
AllOwned (n ∷ ns) = (n.owner ≢ 0) × AllOwned ns

-- The node that unix_bind takes.
abbrev FoundFree : List Node → ℕ → Option ℕ → Type 0
FoundFree ns i none = AllOwned ns
FoundFree ns i (some j) = (i ≤ j) × ((n : Node) × (get_elem? ns (j - i) ≡ some n) × (n.owner ≡ 0))

FoundFree-later :
    (n : Node) (ns : List Node) (i : ℕ) (r : Option ℕ)
    → n.owner ≢ 0
    → FoundFree ns (i + 1) r
    → FoundFree (n ∷ ns) i r
FoundFree-later n ns i none d f = (d, f)
FoundFree-later n ns i (some j) d (a, (m, at, z)) =
    (omega (arith, a), (m, later n ns i j a ∙ at, z))

free_node-FoundFree : (ns : List Node) (i : ℕ) → FoundFree ns i (free_node ns i)
unfolding free_node
free_node-FoundFree [] i = tt
free_node-FoundFree (n ∷ ns) i = elim (Bool-cases (n.owner == 0)) [
  | inl e ↦
      let z : i - i ≡ 0 = omega arith in
      let at : get_elem? (n ∷ ns) (i - i) ≡ some n = rw z refl in
      rw e (omega arith, (n, at, ground (arith, e)))
  | inr e ↦ rw e (
      FoundFree-later n ns i _ (λ z. absurd (ground (arith, e, z)))
        (free_node-FoundFree ns (i + 1)))
]

-- The arguments that unix_bind refuses: no socket, a socket with a name, an empty or a long name.
abbrev pub refused : Unix → ℕ → List ℕ → Bool
refused u p path =
    (p == 0)
    || not (length (u.sockets p).name == 0)
    || (length path == 0)
    || ltb path_max (length path)

-- What unix_bind did: the name now leads to the socket, and no other name to another; or nothing.
abbrev pub Bound : Unix → ℕ → List ℕ → Bool → Unix × ℤ → Type 0
Bound u p path abstract (u', r) =
    ((r ≡ pos 0)
      × (refused u p path ≡ false)
      × (socket_at u path abstract ≡ 0)
      × ((u'.sockets p).name ≡ path)
      × (socket_at u' path abstract ≡ p)
      × ((x : List ℕ) (f : Bool) → (x ≢ path) ⊎ (f ≢ abstract) → socket_at u' x f ≡ socket_at u x f)
      × ((x : List ℕ) (f : Bool) → IsAt u'.bind_tab x f (socket_at u' x f)))
    ⊎ ((u' ≡ u)
        × (((r ≡ minus 22) × (refused u p path ≡ true))
            ⊎ ((r ≡ minus 98) × ((socket_at u path abstract ≢ 0) ⊎ AllOwned u.bind_tab))))

unix_bind-refused :
    (u : Unix) (p : ℕ) (path : List ℕ) (abstract : Bool)
    → refused u p path ≡ true
    → unix_bind u p (some path) abstract ≡ (u, minus 22)
unfolding unix_bind
unix_bind-refused u p path abstract e = ground (arith, e)

unix_bind-taken :
    (u : Unix) (p i : ℕ) (path : List ℕ) (abstract : Bool)
    → refused u p path ≡ false
    → bind_find u.bind_tab path abstract 0 ≡ some i
    → unix_bind u p (some path) abstract ≡ (u, minus 98)
unfolding unix_bind
unix_bind-taken u p i path abstract e f = ground (arith, e, f)

unix_bind-full :
    (u : Unix) (p : ℕ) (path : List ℕ) (abstract : Bool)
    → refused u p path ≡ false
    → bind_find u.bind_tab path abstract 0 ≡ none
    → free_node u.bind_tab 0 ≡ none
    → unix_bind u p (some path) abstract ≡ (u, minus 98)
unfolding unix_bind
unix_bind-full u p path abstract e f g = ground (arith, e, f, g)

abbrev bound_state : Unix → ℕ → ℕ → List ℕ → Bool → Unix
bound_state u p i path abstract =
    record (write_socket u p (record (u.sockets p) { name = path; is_abstract = abstract })) {
      bind_tab = set u.bind_tab i (record { path = path; is_abstract = abstract; owner = p });
    }

unix_bind-free :
    (u : Unix) (p i : ℕ) (path : List ℕ) (abstract : Bool)
    → refused u p path ≡ false
    → bind_find u.bind_tab path abstract 0 ≡ none
    → free_node u.bind_tab 0 ≡ some i
    → unix_bind u p (some path) abstract ≡ (bound_state u p i path abstract, pos 0)
unfolding unix_bind
unix_bind-free u p i path abstract e f g = ground (arith, e, f, g)

-- The lookup after a free node was filled.
socket_at-bound_state :
    (u : Unix) (p i : ℕ) (path : List ℕ) (abstract : Bool) (old : Node)
    → p ≢ 0
    → get_elem? u.bind_tab i ≡ some old
    → old.owner ≡ 0
    → find_owner u.bind_tab path abstract ≡ 0
    → (x : List ℕ) (f : Bool)
    → socket_at (bound_state u p i path abstract) x f
      ≡ (if same_name path abstract x f then p else socket_at u x f)
socket_at-bound_state u p i path abstract old nonzero at z free x f =
    let new : Node = record { path = path; is_abstract = abstract; owner = p } in
    let unused : is_bound_to new x f ≡ true → find_owner u.bind_tab x f ≡ 0 = λ w.
      let a : path ≡ x = same_bytes→eq path x (ground (arith, w)) in
      let b : abstract ≡ f = same_flag→eq abstract f (ground (arith, w)) in
      subst (λ y. find_owner u.bind_tab y f ≡ 0) a
        (subst (λ g. find_owner u.bind_tab path g ≡ 0) b free) in
    let e = find_owner-set u.bind_tab i old new x f at z unused in
    socket_at-find_owner (bound_state u p i path abstract) x f
    ∙ ground (arith, e, nonzero, socket_at-find_owner u x f)

same_name_self : (path : List ℕ) (abstract : Bool) → same_name path abstract path abstract ≡ true
same_name_self path abstract = ground (arith, same_bytes_refl path)

same_name_other :
    (path x : List ℕ) (abstract f : Bool)
    → (x ≢ path) ⊎ (f ≢ abstract)
    → same_name path abstract x f ≡ false
same_name_other path x abstract f d = elim (Bool-cases (same_name path abstract x f)) [
  | inr e ↦ e
  | inl e ↦ elim d [
    | inl a ↦ absurd (a (sym (same_bytes→eq path x (ground (arith, e)))))
    | inr b ↦ absurd (b (sym (same_flag→eq abstract f (ground (arith, e)))))
  ]
]

-- The name, and every other one.
two_lookups :
    (u v : Unix) (p : ℕ) (path : List ℕ) (abstract : Bool)
    → ((x : List ℕ) (f : Bool)
        → socket_at v x f ≡ (if same_name path abstract x f then p else socket_at u x f))
    → (socket_at v path abstract ≡ p)
      × ((x : List ℕ) (f : Bool) → (x ≢ path) ⊎ (f ≢ abstract) → socket_at v x f ≡ socket_at u x f)
two_lookups u v p path abstract h = (
  h path abstract
      ∙ ap (λ b. if b then p else socket_at u path abstract) (same_name_self path abstract),
  λ x f d. h x f ∙ ap (λ b. if b then p else socket_at u x f) (same_name_other path x abstract f d),
)

-- unix_bind of a name: if it returns 0 then the name led nowhere and now leads to the socket, which has it,
-- and every other name leads where it did (a name leads to the socket of the first node in use that has it); else nothing changes, and the arguments are refused (-22), or
-- the name is taken or each node of the table belongs to a socket (-98).
pub unix_bind_lem :
    (u : Unix) (p : ℕ) (path : List ℕ) (abstract : Bool)
    → Bound u p path abstract (unix_bind u p (some path) abstract)
unix_bind_lem u p path abstract = elim (Bool-cases (refused u p path)) [
  | inl e ↦
      subst (Bound u p path abstract) (sym (unix_bind-refused u p path abstract e))
        (inr (refl, inl (refl, e)))
  | inr e ↦
      let at = bind_find-Found u.bind_tab path abstract 0 in
      let looked = socket_at-find_owner u path abstract in
      elim (Option-cases (bind_find u.bind_tab path abstract 0)) [
        | inr (i, f) ↦
            let (a, b, c) = subst (Found u.bind_tab path abstract 0) f at in
            subst (Bound u p path abstract) (sym (unix_bind-taken u p i path abstract e f))
              (inr (refl, inr (refl, inl (λ w. c (sym looked ∙ w)))))
        | inl f ↦
            let unused = subst (Found u.bind_tab path abstract 0) f at in
            elim (Option-cases (free_node u.bind_tab 0)) [
              | inl g ↦
                  let full = subst (FoundFree u.bind_tab 0) g (free_node-FoundFree u.bind_tab 0) in
                  subst (Bound u p path abstract) (sym (unix_bind-full u p path abstract e f g))
                    (inr (refl, inr (refl, inr full)))
              | inr (i, g) ↦
                  let (low, (old, here, z)) =
                    subst (FoundFree u.bind_tab 0) g (free_node-FoundFree u.bind_tab 0) in
                  let i0 : i - 0 ≡ i = omega arith in
                  let here' : get_elem? u.bind_tab i ≡ some old =
                    subst (λ k. get_elem? u.bind_tab k ≡ some old) i0 here in
                  let nonzero : p ≢ 0 = λ w. absurd (ground (arith, e, w)) in
                  let looks =
                    two_lookups u (bound_state u p i path abstract) p path abstract
                      (socket_at-bound_state u p i path abstract old nonzero here' z unused) in
                  subst (Bound u p path abstract) (sym (unix_bind-free u p i path abstract e f g)) (
                    inl (
                      refl,
                      e,
                      looked ∙ unused,
                      ground arith,
                      looks.0,
                      looks.1,
                      socket_at-IsAt (bound_state u p i path abstract),
                    ))
            ]
      ]
]
