-- ===== src/Net/Unix/Sends.antt =====
-- unix_send of src/kernel/net/unix_sock.c on every branch.
use kil0y_os.Prelude.{
  ℕ, ◌+◌, ◌<◌, ◌≤◌, ◌≡◌, ◌≢◌, refl, sym, subst, true, false, not, ◌||◌, List, ◌++◌, length, ◌==◌,
  ltb, Bool-cases, inl, inr, ◌⊎◌, arith,
}
use kil0y_os.Prelude.Int.{ℤ, pos, minus}
use kil0y_os.Net.Unix.{
  Unix, Socket, SocketState, rx_sz, is_connected, write_socket, unix_wake, ring_space, ring_write,
}
use kil0y_os.Net.Unix.States.{connected_state, not_connected_state, ring_space-stored}
use kil0y_os.Net.Unix.Data.{unix_send}
use kil0y_os.Net.Unix.Fifo.{IsRing, stored, Holds, ring_write_lem}

-- The socket is there, and connected.
abbrev pub IsConnected : Unix → ℕ → Type 0
IsConnected u p = (p ≢ 0) × ((u.sockets p).state ≡ SocketState.connected)

-- Only the socket `q` of the store has changed, and the waiters were woken once.
abbrev pub OnlyAt : Unix → ℕ → Unix → Type 0
OnlyAt u q u' = ((x : ℕ) → x ≢ q → u'.sockets x ≡ u.sockets x) × (u'.wakes ≡ u.wakes + 1)

pub wrote-OnlyAt : (u : Unix) (q : ℕ) (s : Socket) → OnlyAt u q (unix_wake (write_socket u q s))
wrote-OnlyAt u q s = (λ x d. ground (arith, d), refl)

pub wrote_at : (u : Unix) (q : ℕ) (s : Socket) → (unix_wake (write_socket u q s)).sockets q ≡ s
wrote_at u q s = ground arith

-- The bytes that wait at a socket leave room for `n` more.
abbrev pub HasRoom : Socket → ℕ → Type 0
HasRoom s n = length (stored s) + n ≤ rx_sz

-- What unix_send did: the bytes went behind those that wait at the peer, or nothing.
abbrev pub Sent : Unix → ℕ → List ℕ → Unix × ℤ → Type 0
Sent u p input (u', r) =
    let q = (u.sockets p).peer in
    let target = u.sockets q in
    ((r ≡ pos (length input))
      × IsConnected u p
      × (q ≢ 0)
      × HasRoom target (length input)
      × Holds target (stored target ++ input) (u'.sockets q)
      × OnlyAt u q u')
    ⊎ ((u' ≡ u)
        × (((r ≡ minus 107) × ((p ≡ 0) ⊎ ((u.sockets p).state ≢ SocketState.connected)))
            ⊎ ((r ≡ minus 32) × IsConnected u p × (q ≡ 0))
            ⊎ ((r ≡ minus 11) × IsConnected u p × (q ≢ 0) × ¬ HasRoom target (length input))))

refused_state :
    (u : Unix) (p : ℕ)
    → ((p == 0) || not (is_connected (u.sockets p))) ≡ true
    → (p ≡ 0) ⊎ ((u.sockets p).state ≢ SocketState.connected)
refused_state u p a = elim (Bool-cases (p == 0)) [
  | inl z ↦ inl (ground (arith, z))
  | inr z ↦ inr (not_connected_state (u.sockets p) (ground (arith, a, z)))
]

ready_state :
    (u : Unix) (p : ℕ) → ((p == 0) || not (is_connected (u.sockets p))) ≡ false → IsConnected u p
ready_state u p a =
    ((λ z. absurd (ground (arith, a, z))), connected_state (u.sockets p) (ground (arith, a)))

-- If the ring of the peer is well formed, then unix_send puts the bytes behind those that wait there, wakes
-- the waiters and changes no other socket, if the socket is connected, has a peer and there is room for all the bytes;
-- or it changes nothing, since the socket is not connected (-107), the peer is gone (-32), or there is too little
-- room (-11).
pub unix_send_lem :
    (u : Unix) (p : ℕ) (input : List ℕ)
    → IsRing (u.sockets (u.sockets p).peer)
    → Sent u p input (unix_send u p input)
unfolding unix_send
unix_send_lem u p input ring =
    let q = (u.sockets p).peer in
    let target = u.sockets q in
    let space = ring_space-stored target ring in
    elim (Bool-cases ((p == 0) || not (is_connected (u.sockets p)))) [
      | inl a ↦ rw a (inr (refl, inl (refl, refused_state u p a)))
      | inr a ↦
          let ready = ready_state u p a in
          elim (Bool-cases (q == 0)) [
            | inl b ↦ rw (a, b) (inr (refl, inr (inl (refl, ready, ground (arith, b)))))
            | inr b ↦
                let peered : q ≢ 0 = λ z. absurd (ground (arith, b, z)) in
                elim (Bool-cases (ltb (ring_space target) (length input))) [
                  | inl c ↦
                      let over : ring_space target < length input = ground (arith, c) in
                      rw (a, b, c)
                        (inr (
                          refl,
                          inr (inr (refl, ready, peered, λ z. omega (arith, over, space, z))),
                        ))
                  | inr c ↦
                      let fits : length input ≤ ring_space target = ground (arith, c) in
                      let held = ring_write_lem target input ring fits in
                      let s = ring_write target input in
                      rw (a, b, c)
                        (inl (
                          refl,
                          ready,
                          peered,
                          omega (arith, fits, space),
                          subst (Holds target (stored target ++ input)) (sym (wrote_at u q s)) held,
                          wrote-OnlyAt u q s,
                        ))
                ]
          ]
    ]
