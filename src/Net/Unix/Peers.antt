-- ===== src/Net/Unix/Peers.antt =====
-- unix_connect of src/kernel/net/unix_sock.c: the two ends of a connection.
use kil0y_os.Prelude.{
  ℕ, ◌≤◌, ◌<◌, ◌≡◌, ◌≢◌, refl, ap, sym, ◌∙◌, subst, Bool, true, false, not, ◌||◌, List, [], ◌∷◌,
  ◌++◌, length, ◌==◌, ltb, leb, if◌then◌else◌, some, Bool-cases, inl, inr, ◌⊎◌, arith,
}
use kil0y_os.Prelude.Int.{ℤ, pos, minus}
use kil0y_os.Net.Unix.{
  Unix, Socket, SocketState, path_max, is_connected, is_listening, unix_socket_create, fresh_socket,
}
use kil0y_os.Net.Unix.States.{
  connected_state, not_connected_state, listening_state, not_listening_state,
}
use kil0y_os.Net.Unix.Lookup.{IsAt, socket_at-IsAt}
use kil0y_os.Net.Unix.Connect.{socket_at, server_child, queue_child, join_child, unix_connect}
use kil0y_os.Net.Unix.Pending.{pending, IsListener, queue_child_lem}

-- The client `p` and the new child `c` are each other's peers, and the child waits behind the others at the
-- listener `l`.
abbrev pub Joined : Unix → ℕ → ℕ → ℕ → ℕ → Unix × ℤ → Type 0
Joined u p l c tgid (u', r) =
    (r ≡ pos 0)
    × ((u'.sockets p).peer ≡ c)
    × ((u'.sockets c).peer ≡ p)
    × ((u'.sockets p).state ≡ SocketState.connected)
    × ((u'.sockets c).state ≡ SocketState.connected)
    × ((u'.sockets c).cred_pid ≡ tgid)
    × ((u'.sockets c).name ≡ (u.sockets l).name)
    × ((u'.sockets c).kind ≡ (u.sockets l).kind)
    × (pending (u'.sockets l) ≡ pending (u.sockets l) ++ (c ∷ []))
    × IsListener (u'.sockets l)
    × ((x : ℕ) → x ≢ p → x ≢ c → x ≢ l → u'.sockets x ≡ u.sockets x)

-- The name can be connected to: the client is there and not connected, the name is not too short or long, its socket
-- listens, and its queue has room.
abbrev pub IsOpen : Unix → ℕ → ℕ → List ℕ → Type 0
IsOpen u p l path =
    (p ≢ 0)
    × ((u.sockets p).state ≢ SocketState.connected)
    × (length path ≢ 0)
    × (length path ≤ path_max)
    × (l ≢ 0)
    × ((u.sockets l).state ≡ SocketState.listening)
    × ((u.sockets l).pend_cnt < (u.sockets l).backlog)

-- Why unix_connect failed.
abbrev pub Refused : Unix → ℕ → ℕ → List ℕ → ℤ → Type 0
Refused u p l path r =
    ((r ≡ minus 22) × ((p ≡ 0) ⊎ (length path ≡ 0) ⊎ (path_max < length path)))
    ⊎ ((r ≡ minus 106) × ((u.sockets p).state ≡ SocketState.connected))
    ⊎ ((r ≡ minus 111) × ((l ≡ 0) ⊎ ((u.sockets l).state ≢ SocketState.listening)))
    ⊎ ((r ≡ minus 11) × ((u.sockets l).backlog ≤ (u.sockets l).pend_cnt))

-- What unix_connect did: it joined the two ends, or no socket and no name has changed.
abbrev pub Connected : Unix → ℕ → ℕ → ℕ → ℕ → List ℕ → Unix × ℤ → Type 0
Connected u p l c tgid path out =
    (IsOpen u p l path × Joined u p l c tgid out)
    ⊎ ((out.0.sockets ≡ u.sockets) × (out.0.bind_tab ≡ u.bind_tab) × Refused u p l path (out.1))

kept_name : (xs : List ℕ) → (if length xs == 0 then [] else xs) ≡ xs
kept_name [] = refl
kept_name (x ∷ xs) = ground arith

join_child-made :
    (u : Unix) (p l c rx tgid : ℕ)
    → c ≢ 0
    → rx ≢ 0
    → p ≢ c
    → l ≢ c
    → p ≢ l
    → IsListener (u.sockets l)
    → (u.sockets l).pend_cnt < (u.sockets l).backlog
    → Joined u p l c tgid (join_child (unix_socket_create u (u.sockets l).kind c rx) p l tgid)
unfolding join_child unix_socket_create
join_child-made u p l c rx tgid c0 rx0 pc lc pl h room =
    let s = u.sockets l in
    let (listens, more) = queue_child_lem s c h room in
    let out = join_child (unix_socket_create u s.kind c rx) p l tgid in
    let at_l : out.0.sockets l ≡ queue_child s c = ground (arith, c0, rx0, lc, pl) in
    let child = server_child (fresh_socket s.kind) p tgid s in
    let at_c : out.0.sockets c ≡ child = ground (arith, c0, rx0, pc, lc) in
    (
      ground (arith, c0, rx0),
      ground (arith, c0, rx0, pl, pc),
      ground (arith, c0, rx0, pc, lc),
      ground (arith, c0, rx0, pl, pc),
      ground (arith, c0, rx0, pc, lc),
      ground (arith, c0, rx0, pc, lc),
      ap (λ (t : Socket). t.name) at_c ∙ kept_name s.name,
      ground (arith, c0, rx0, pc, lc),
      ap pending at_l ∙ more,
      subst IsListener (sym at_l) listens,
      λ x a b d. ground (arith, c0, rx0, a, b, d),
    )

connect-join_child :
    (u : Unix) (p c rx tgid : ℕ) (path : List ℕ) (abstract : Bool)
    → let l = socket_at u path abstract in
      p ≢ 0
      → is_connected (u.sockets p) ≡ false
      → ((length path == 0) || ltb path_max (length path)) ≡ false
      → ((l == 0) || not (is_listening (u.sockets l))) ≡ false
      → leb (u.sockets l).backlog (u.sockets l).pend_cnt ≡ false
      → unix_connect u p (some path) abstract tgid c rx
        ≡ join_child (unix_socket_create u (u.sockets l).kind c rx) p l tgid
unfolding unix_connect
connect-join_child u p c rx tgid path abstract a b d e f = ground (arith, a, b, d, e, f)

-- What the tests of unix_connect say of a name that is too short or long.
bad_length :
    (path : List ℕ)
    → ((length path == 0) || ltb path_max (length path)) ≡ true
    → (length path ≡ 0) ⊎ (path_max < length path)
bad_length path e = elim (Bool-cases (length path == 0)) [
  | inl z ↦ inl (ground (arith, z))
  | inr z ↦ inr (ground (arith, e, z))
]

no_listener :
    (u : Unix) (l : ℕ)
    → ((l == 0) || not (is_listening (u.sockets l))) ≡ true
    → (l ≡ 0) ⊎ ((u.sockets l).state ≢ SocketState.listening)
no_listener u l e = elim (Bool-cases (l == 0)) [
  | inl z ↦ inl (ground (arith, z))
  | inr z ↦ inr (not_listening_state (u.sockets l) (ground (arith, e, z)))
]

passed-IsOpen :
    (u : Unix) (p l : ℕ) (path : List ℕ)
    → (p == 0) ≡ false
    → is_connected (u.sockets p) ≡ false
    → ((length path == 0) || ltb path_max (length path)) ≡ false
    → ((l == 0) || not (is_listening (u.sockets l))) ≡ false
    → leb (u.sockets l).backlog (u.sockets l).pend_cnt ≡ false
    → IsOpen u p l path
passed-IsOpen u p l path a b d e f = (
  (λ z. absurd (ground (arith, a, z))),
  not_connected_state (u.sockets p) b,
  (λ z. absurd (ground (arith, d, z))),
  ground (arith, d),
  (λ z. absurd (ground (arith, e, z))),
  listening_state (u.sockets l) (ground (arith, e)),
  ground (arith, f),
)

-- What the tests of unix_connect lead to.
tried :
    (u : Unix) (p c rx tgid : ℕ) (path : List ℕ) (abstract : Bool)
    → let l = socket_at u path abstract in
      c ≢ 0
      → rx ≢ 0
      → p ≢ c
      → l ≢ c
      → p ≢ l
      → IsListener (u.sockets l)
      → Connected u p l c tgid path (unix_connect u p (some path) abstract tgid c rx)
unfolding unix_connect
tried u p c rx tgid path abstract c0 rx0 pc lc pl h =
    let l = socket_at u path abstract in
    elim (Bool-cases (p == 0)) [
      | inl a ↦ rw a (inr (refl, refl, inl (refl, inl (ground (arith, a)))))
      | inr a ↦ elim (Bool-cases (is_connected (u.sockets p))) [
        | inl b ↦ rw (a, b) (inr (refl, refl, inr (inl (refl, connected_state (u.sockets p) b))))
        | inr b ↦ elim (Bool-cases ((length path == 0) || ltb path_max (length path))) [
          | inl d ↦ rw (a, b, d) (inr (refl, refl, inl (refl, inr (bad_length path d))))
          | inr d ↦ elim (Bool-cases ((l == 0) || not (is_listening (u.sockets l)))) [
            | inl e ↦ rw (a, b, d, e) (inr (refl, refl, inr (inr (inl (refl, no_listener u l e)))))
            | inr e ↦ elim (Bool-cases (leb (u.sockets l).backlog (u.sockets l).pend_cnt)) [
              | inl f ↦
                  rw (a, b, d, e, f) (inr (refl, refl, inr (inr (inr (refl, ground (arith, f))))))
              | inr f ↦
                  let can = passed-IsOpen u p l path a b d e f in
                  subst (Connected u p l c tgid path)
                    (sym (connect-join_child u p c rx tgid path abstract (can.0) b d e f))
                    (inl
                      (can, join_child-made u p l c rx tgid c0 rx0 pc lc pl h (ground (arith, f))))
            ]
          ]
        ]
      ]
    ]

-- A socket p that connects to a name: `l` is the socket of the first node in use that has it, 0
-- for none, and `c` and `rx` are what kmalloc gave, not NULL, with `c`
-- another socket than these. If `p` is not the listener itself and the listener's queue is well formed, then either the name can be connected to, the two ends are each other's peers, the
-- child has the name and type of the listener and the identity of the client and waits behind the others, and other
-- sockets are as they were; or no socket has changed, and the client is NULL or the name too short or long (-22), the
-- client is connected already (-106), no socket with the name listens (-111), or its queue is full (-11).
pub unix_connect_lem :
    (u : Unix) (p c rx tgid : ℕ) (path : List ℕ) (abstract : Bool)
    → let l = socket_at u path abstract in
      c ≢ 0
      → rx ≢ 0
      → p ≢ c
      → l ≢ c
      → p ≢ l
      → IsListener (u.sockets l)
      → IsAt u.bind_tab path abstract l
        × Connected u p l c tgid path (unix_connect u p (some path) abstract tgid c rx)
unix_connect_lem u p c rx tgid path abstract c0 rx0 pc lc pl h =
    (socket_at-IsAt u path abstract, tried u p c rx tgid path abstract c0 rx0 pc lc pl h)
