-- ===== src/Net/Tcp/Ring.antt =====
-- The receive ring of a socket as a queue of bytes: tcp_rx_push at one end, tcp_recv at the other.
use kil0y_os.Prelude.{
  ℕ, zero, suc, ◌+◌, ◌-◌, ◌%◌, ◌<◌, ◌≡◌, ◌≢◌, refl, ap, sym, ◌∙◌, subst, List, [], ◌∷◌, ◌++◌, take,
  drop, append_assoc, append-nil, ◌==◌, update, arith, Bool-cases, inl, inr,
}
use kil0y_os.Prelude.Int.{pos}
use kil0y_os.Net.Tcp.{Socket, Turn, rx_size, push_bytes, tcp_rx_push, window}
use kil0y_os.Net.Tcp.Calls.{pop_bytes}

-- The positions of a ring are in its array.
abbrev pub IsRing : Socket → Type 0
IsRing s = (s.rx_head < rx_size) × (s.rx_tail < rx_size)

abbrev pub used_bytes : Socket → ℕ
used_bytes s = (s.rx_head + rx_size - s.rx_tail) % rx_size

-- The next `n` bytes from a position.
pub read_out : (ℕ → ℕ) → ℕ → ℕ → List ℕ
read_out buf tail zero = []
read_out buf tail (suc n) = buf tail ∷ read_out buf ((tail + 1) % rx_size) n

-- The bytes that are received and not yet read.
abbrev pub stream : Socket → List ℕ
stream s = read_out s.rx_buf s.rx_tail (used_bytes s)

read_out-update :
    (buf : ℕ → ℕ) (b n tail h : ℕ)
    → tail < rx_size
    → h ≡ (tail + n) % rx_size
    → n < rx_size
    → read_out (update buf h b) tail (suc n) ≡ read_out buf tail n ++ (b ∷ [])
unfolding read_out
read_out-update buf b zero tail h l e m = ground (arith, l, e)
read_out-update buf b (suc n) tail h l e m =
    let ne : h ≢ tail = λ q. absurd (omega (arith, q, e, l, m)) in
    let here : update buf h b tail ≡ buf tail = ground (arith, ne) in
    let rest =
      read_out-update buf b n ((tail + 1) % rx_size) h (omega arith) (omega (arith, e))
        (omega (arith, m)) in
    ap (λ x. x ∷ read_out (update buf h b) ((tail + 1) % rx_size) (suc n)) here
    ∙ ap (λ xs. buf tail ∷ xs) rest

push_one :
    (s : Socket) (b : ℕ)
    → IsRing s
    → used_bytes s < rx_size - 1
    → stream
        (record s { rx_buf = update s.rx_buf s.rx_head b; rx_head = (s.rx_head + 1) % rx_size })
      ≡ stream s ++ (b ∷ [])
push_one s b (p, q) l =
    ap (read_out (update s.rx_buf s.rx_head b) s.rx_tail) (counted p q l)
    ∙ read_out-update s.rx_buf b (used_bytes s) s.rx_tail s.rx_head q (omega (arith, p, q))
        (omega (arith, l))
  where
    counted :
        s.rx_head < rx_size
        → s.rx_tail < rx_size
        → used_bytes s < rx_size - 1
        → ((s.rx_head + 1) % rx_size + rx_size - s.rx_tail) % rx_size ≡ suc (used_bytes s)
    counted p q l = omega (arith, p, q, l)

-- The ring after bytes are pushed: the old bytes, and of the new ones as many as it had room for.
abbrev pub Pushed : Socket → List ℕ → Socket → Type 0
Pushed s input s' =
    IsRing s' × (s'.rx_tail ≡ s.rx_tail) × (stream s' ≡ stream s ++ take (window s) input)

take_nil : (n : ℕ) → [] ≡ take {A = ℕ} n []
take_nil zero = refl
take_nil (suc n) = refl

abbrev wrote : Socket → ℕ → Socket
wrote s b = record s { rx_buf = update s.rx_buf s.rx_head b; rx_head = (s.rx_head + 1) % rx_size }

push_bytes-full :
    (s : Socket) (b : ℕ) (input : List ℕ)
    → (s.rx_head + 1) % rx_size ≡ s.rx_tail
    → push_bytes s (b ∷ input) ≡ s
unfolding push_bytes
push_bytes-full s b input e = ground (arith, e)

push_bytes-room :
    (s : Socket) (b : ℕ) (input : List ℕ)
    → (s.rx_head + 1) % rx_size ≢ s.rx_tail
    → push_bytes s (b ∷ input) ≡ push_bytes (wrote s b) input
unfolding push_bytes
push_bytes-room s b input e = ground (arith, e)

module _ (s : Socket) (b : ℕ) (input : List ℕ) (p : s.rx_head < rx_size)
    (q : s.rx_tail < rx_size) where
  full-Pushed : (s.rx_head + 1) % rx_size ≡ s.rx_tail → Pushed s (b ∷ input) s
  full-Pushed e =
      let none_left : window s ≡ 0 = omega (arith, e, p, q) in
      (
        (p, q),
        refl,
        sym (append-nil (stream s)) ∙ ap (λ n. stream s ++ take n (b ∷ input)) (sym none_left),
      )

  room-Pushed :
      (s' : Socket)
      → (s.rx_head + 1) % rx_size ≢ s.rx_tail
      → Pushed (wrote s b) input s'
      → Pushed s (b ∷ input) s'
  room-Pushed s' ne (r, t, e) =
      let left : window s ≡ suc (window (wrote s b)) = omega (arith, ne, p, q) in
      (
        r,
        t,
        e
            ∙ ap (λ l. l ++ take (window (wrote s b)) input)
                (push_one s b (p, q) (omega (arith, ne, p, q)))
            ∙ append_assoc (stream s) (b ∷ []) (take (window (wrote s b)) input)
            ∙ ap (λ n. stream s ++ take n (b ∷ input)) (sym left),
      )

push_nil : (s : Socket) → IsRing s → Pushed s [] (push_bytes s [])
unfolding push_bytes
push_nil s r =
    (r, refl, sym (append-nil (stream s)) ∙ ap (λ l. stream s ++ l) (take_nil (window s)))

push_bytes-Pushed : (s : Socket) (input : List ℕ) → IsRing s → Pushed s input (push_bytes s input)
push_bytes-Pushed s [] r = push_nil s r
push_bytes-Pushed s (b ∷ input) (p, q) =
    let rest = push_bytes-Pushed (wrote s b) input (omega arith, q) in
    elim (Bool-cases ((s.rx_head + 1) % rx_size == s.rx_tail)) [
      | inl e ↦
          let full : (s.rx_head + 1) % rx_size ≡ s.rx_tail = ground (arith, e) in
          subst (Pushed s (b ∷ input)) (sym (push_bytes-full s b input full))
            (full-Pushed s b input p q full)
      | inr e ↦
          let room : (s.rx_head + 1) % rx_size ≢ s.rx_tail = ground (arith, e) in
          subst (Pushed s (b ∷ input)) (sym (push_bytes-room s b input room))
            (room-Pushed s b input p q (push_bytes (wrote s b) input) room rest)
    ]

-- tcp_rx_push appends to the bytes that wait to be read as many of the new ones as the advertised window
-- has room for and drops the others, keeps the ring well formed, and wakes one reader.
pub tcp_rx_push_lem :
    (t : Turn) (input : List ℕ)
    → IsRing t.sock
    → Pushed t.sock input (tcp_rx_push input t).sock
      × ((tcp_rx_push input t).woken ≡ pos 1 ∷ t.woken)
unfolding tcp_rx_push
tcp_rx_push_lem t input r = (push_bytes-Pushed t.sock input r, refl)

-- The ring after up to `n` bytes are read, with the bytes that were read.
abbrev pub Popped : ℕ → Socket → Socket × List ℕ → Type 0
Popped n s (s', out) = IsRing s' × (out ≡ take n (stream s)) × (stream s' ≡ drop n (stream s))

pop_bytes-empty : (n : ℕ) (s : Socket) → s.rx_tail ≡ s.rx_head → pop_bytes (suc n) s ≡ (s, [])
unfolding pop_bytes
pop_bytes-empty n s e = ground (arith, e)

abbrev read_one : Socket → Socket
read_one s = record s { rx_tail = (s.rx_tail + 1) % rx_size }

pop_bytes-some :
    (n : ℕ) (s : Socket)
    → s.rx_tail ≢ s.rx_head
    → pop_bytes (suc n) s
      ≡ ((pop_bytes n (read_one s)).0, s.rx_buf s.rx_tail ∷ (pop_bytes n (read_one s)).1)
unfolding pop_bytes
pop_bytes-some n s e = ground (arith, e)

stream-nil : (s : Socket) → IsRing s → s.rx_tail ≡ s.rx_head → stream s ≡ []
unfolding read_out
stream-nil s r e = ap (read_out s.rx_buf s.rx_tail) (none_used s e r)
  where
    none_used : (s : Socket) → s.rx_tail ≡ s.rx_head → IsRing s → used_bytes s ≡ 0
    none_used s e (p, q) = omega (arith, e, p, q)

stream-cons :
    (s : Socket)
    → IsRing s
    → s.rx_tail ≢ s.rx_head
    → stream s ≡ s.rx_buf s.rx_tail ∷ stream (read_one s)
unfolding read_out
stream-cons s (p, q) ne =
    ap (read_out s.rx_buf s.rx_tail) {x = used_bytes s} {y = suc (used_bytes (read_one s))}
      (omega (arith, ne, p, q))

pop_zero : (s : Socket) → IsRing s → Popped 0 s (pop_bytes 0 s)
unfolding pop_bytes
pop_zero s r = (r, refl, refl)

-- tcp_recv's copying loop reads the oldest bytes in order, at most `n`, leaves the others to be read, and
-- keeps the ring well formed.
pub pop_bytes_lem : (n : ℕ) (s : Socket) → IsRing s → Popped n s (pop_bytes n s)
pop_bytes_lem zero s r = pop_zero s r
pop_bytes_lem (suc n) s r =
    let rest = pop_bytes_lem n (read_one s) (r.0, omega arith) in
    elim (Bool-cases (s.rx_tail == s.rx_head)) [
      | inl b ↦
          let e : s.rx_tail ≡ s.rx_head = ground (arith, b) in
          subst (Popped (suc n) s) (sym (pop_bytes-empty n s e)) (
            r,
            ap (take (suc n)) (sym (stream-nil s r e)),
            stream-nil s r e ∙ ap (drop (suc n)) (sym (stream-nil s r e)),
          )
      | inr b ↦
          let ne : s.rx_tail ≢ s.rx_head = ground (arith, b) in
          subst (Popped (suc n) s) (sym (pop_bytes-some n s ne)) (
            rest.0,
            ap (λ l. s.rx_buf s.rx_tail ∷ l) rest.1 ∙ ap (take (suc n)) (sym (stream-cons s r ne)),
            rest.2 ∙ ap (drop (suc n)) (sym (stream-cons s r ne)),
          )
    ]
