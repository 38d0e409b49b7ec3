-- ===== src/Net/Unix/Bind.antt =====
-- The bind table of src/kernel/net/unix_sock.c: at most one socket to a name.
use kil0y_os.Prelude.{
  ℕ, ◌+◌, Bool, true, false, not, ◌&&◌, ◌||◌, Option, none, some, List, [], ◌∷◌, length, set, ltb,
  ◌==◌, if◌then◌else◌,
}
use kil0y_os.Prelude.Int.{ℤ, pos, minus}
use kil0y_os.Net.Unix.{Unix, Node, path_max, write_socket}

-- plen is the length of the path, and memcmp compares that many bytes.
abbrev pub same_bytes : List ℕ → List ℕ → Bool
same_bytes [] [] = true
same_bytes [] (y ∷ ys) = false
same_bytes (x ∷ xs) [] = false
same_bytes (x ∷ xs) (y ∷ ys) = (x == y) && same_bytes xs ys

abbrev pub same_flag : Bool → Bool → Bool
same_flag a b = if a then b else not b

abbrev pub is_bound_to : Node → List ℕ → Bool → Bool
is_bound_to n path abstract =
    not (n.owner == 0) && same_flag n.is_abstract abstract && same_bytes n.path path

-- The loop of bind_find from index `i` on.
unfoldable pub bind_find : List Node → List ℕ → Bool → ℕ → Option ℕ
bind_find [] path abstract i = none
bind_find (n ∷ ns) path abstract i =
    let rest = bind_find ns path abstract (i + 1) in
    if is_bound_to n path abstract then some i else rest

-- The first node that is not in use.
unfoldable pub free_node : List Node → ℕ → Option ℕ
free_node [] i = none
free_node (n ∷ ns) i = let rest = free_node ns (i + 1) in if n.owner == 0 then some i else rest

-- `pathlen` is negative for an abstract name; `path` holds the bytes of the name.
unfoldable pub unix_bind : Unix → ℕ → Option (List ℕ) → Bool → Unix × ℤ
unix_bind u p none abstract = (u, minus 22)
unix_bind u p (some path) abstract =
    let s = u.sockets p in
    if (p == 0) || not (length s.name == 0) || (length path == 0) || ltb path_max (length path)
    then (u, minus 22)
    else elim (bind_find u.bind_tab path abstract 0) [
      | some i ↦ (u, minus 98)
      | none ↦ elim (free_node u.bind_tab 0) [
        | none ↦ (u, minus 98)
        | some i ↦ (
          record (write_socket u p (record s { name = path; is_abstract = abstract })) {
            bind_tab = set u.bind_tab i (record { path = path; is_abstract = abstract; owner = p });
          },
          pos 0,
        )
      ]
    ]

abbrev pub unbound : Node → Node
unbound n = record n { owner = 0; path = [] }

-- The loop of unix_unlink_path: the first node with the path, not an abstract one, is freed.
unfoldable pub unlink_node : List Node → List ℕ → Option (List Node)
unlink_node [] path = none
unlink_node (n ∷ ns) path =
    let rest = unlink_node ns path in
    if is_bound_to n path false
    then some (unbound n ∷ ns)
    else elim rest [ none ↦ none | some ns' ↦ some (n ∷ ns') ]

abbrev pub no_length : List ℕ → Bool
no_length path = (length path == 0) || ltb path_max (length path)

unfoldable pub unix_unlink_path : Unix → List ℕ → Unix × ℤ
unix_unlink_path u path =
    if no_length path then (u, minus 22) else elim (unlink_node u.bind_tab path) [
      | none ↦ (u, minus 2)
      | some tab ↦ (record u { bind_tab = tab }, pos 0)
    ]

unfoldable pub unix_has_node : Unix → List ℕ → Bool
unix_has_node u path =
    if no_length path
    then false
    else elim (bind_find u.bind_tab path false 0) [ none ↦ false | some i ↦ true ]
