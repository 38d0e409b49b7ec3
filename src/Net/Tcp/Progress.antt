-- ===== src/Net/Tcp/Progress.antt =====
-- What a segment does to the state of a connection (tcp_receive of src/kernel/net/tcp.c).
use kil0y_os.Prelude.{
  ℕ, ◌+◌, ◌%◌, ◌^◌, ◌≤◌, ◌<◌, ◌≡◌, refl, ap, sym, ◌∙◌, subst, Bool, true, false, not, ◌&&◌, List,
  [], ◌∷◌, length, ltb, ◌==◌, if◌then◌else◌, update, arith, Bool-cases, inl, inr,
}
use kil0y_os.Prelude.Int.{minus}
use kil0y_os.Net.Tcp.{
  State, closed, syn_sent, established, fin_wait1, fin_wait2, time_wait, close_wait, last_ack,
  closing, Socket, Turn, tcp_transmit_seg, tcp_rx_push, wait_wake, rx_size, push_bytes,
}
use kil0y_os.Net.Tcp.Rx.{
  Arrival, sub32, send_ack, on_syn_sent, is_new_ack, take_ack, take_data, after_fin, take_fin,
  after_our_ack, settle, on_open, on_last_ack, on_time_wait, by_state, deliver, advance, set_state,
  flag_rst, flag_ack, flag_fin, flag_syn,
}
use kil0y_os.Net.Tcp.Ring.{IsRing, tcp_rx_push_lem}

-- The moves of a connection when a segment arrives.
pub data Moves : State → State → Type 0 where
  stays : {a : State} → Moves a a
  reset : {a : State} → Moves a closed
  opens : Moves syn_sent established
  peer_closes : Moves established close_wait
  our_fin_acked : Moves fin_wait1 fin_wait2
  both_close : Moves fin_wait1 closing
  both_closed : Moves fin_wait1 time_wait
  peer_closes_last : Moves fin_wait2 time_wait
  last_fin_acked : Moves closing time_wait
  done : Moves last_ack closed

-- The number of sequence numbers that are sent and not acknowledged.
abbrev pub in_flight : Socket → ℕ
in_flight s = sub32 s.snd_nxt s.snd_una

-- A socket that is opening has sent its SYN and no more.
abbrev pub IsOpening : Socket → Type 0
IsOpening s = (s.snd_una ≡ s.iss) × (s.snd_nxt ≡ (s.iss + 1) % 2 ^ 32)

abbrev pub AreWords : Socket → Type 0
AreWords s = (s.snd_una < 2 ^ 32) × (s.snd_nxt < 2 ^ 32) × (s.iss < 2 ^ 32)

abbrev pub Progress : Socket → Socket → Type 0
Progress s s' =
    Moves s.state s'.state × IsRing s' × (s'.snd_nxt ≡ s.snd_nxt) × (in_flight s' ≤ in_flight s)

sock-tcp_transmit_seg :
    (ip seq flags : ℕ) (payload : List ℕ) (t : Turn)
    → (tcp_transmit_seg ip seq flags payload t).sock ≡ t.sock
unfolding tcp_transmit_seg
sock-tcp_transmit_seg ip seq flags payload t = ground arith

-- The fields that a push leaves as they are.
abbrev SameControl : Socket → Socket → Type 0
SameControl s s' =
    (s'.state ≡ s.state)
    × (s'.snd_nxt ≡ s.snd_nxt)
    × (s'.snd_una ≡ s.snd_una)
    × (s'.tx_len ≡ s.tx_len)
    × (s'.fin_queued ≡ s.fin_queued)
    × (s'.rcv_nxt ≡ s.rcv_nxt)

if-SameControl :
    (s s1 : Socket) (full : Bool) → SameControl s s1 → SameControl s (if full then s else s1)
if-SameControl s s1 true c = (refl, refl, refl, refl, refl, refl)
if-SameControl s s1 false c = c

push_bytes-SameControl : (s : Socket) (input : List ℕ) → SameControl s (push_bytes s input)
unfolding push_bytes
push_bytes-SameControl s [] = (refl, refl, refl, refl, refl, refl)
push_bytes-SameControl s (b ∷ input) =
    let wrote : Socket = record s {
      rx_buf = update s.rx_buf s.rx_head b;
      rx_head = (s.rx_head + 1) % rx_size;
    } in
    if-SameControl s (push_bytes wrote input) ((s.rx_head + 1) % rx_size == s.rx_tail)
      (push_bytes-SameControl wrote input)

tcp_rx_push-SameControl :
    (input : List ℕ) (t : Turn) → SameControl t.sock (tcp_rx_push input t).sock
unfolding tcp_rx_push
tcp_rx_push-SameControl input t = push_bytes-SameControl t.sock input

Moves-if : {a b c : State} (test : Bool) → Moves a b → Moves a c → Moves a (if test then b else c)
Moves-if true m n = m
Moves-if false m n = n

-- A FIN, then the transitions of our own FIN.
abbrev ends_in : ℕ → Bool → Bool → State → State
ends_in n queued fin a = after_our_ack n queued (if fin then after_fin a else a)

data IsOpen : State → Type 0 where
  open1 : IsOpen established
  open2 : IsOpen fin_wait1
  open3 : IsOpen fin_wait2
  open4 : IsOpen closing

Moves-ends_in :
    (n : ℕ) (queued fin : Bool) (a : State) → IsOpen a → Moves a (ends_in n queued fin a)
Moves-ends_in n queued true _ open1 = peer_closes
Moves-ends_in n queued false _ open1 = stays
Moves-ends_in n queued true _ open2 = Moves-if (n == 0) both_closed both_close
Moves-ends_in n queued false _ open2 = Moves-if (n == 0 && not queued) our_fin_acked stays
Moves-ends_in n queued true _ open3 = peer_closes_last
Moves-ends_in n queued false _ open3 = stays
Moves-ends_in n queued true _ open4 = Moves-if (n == 0) last_fin_acked stays
Moves-ends_in n queued false _ open4 = Moves-if (n == 0) last_fin_acked stays

-- A step that keeps the ring well formed and sends nothing new.
abbrev Carries : Socket → Socket → Type 0
Carries s s' = (IsRing s → IsRing s') × (s'.snd_nxt ≡ s.snd_nxt) × (in_flight s' ≤ in_flight s)

Carries-trans : (a b c : Socket) → Carries a b → Carries b c → Carries a c
Carries-trans a b c (f, p, q) (g, p', q') = (λ r. g (f r), p' ∙ p, omega (arith, q, q'))

take_ack-Carries :
    (h : Arrival) (t : Turn)
    → AreWords t.sock
    → h.ack < 2 ^ 32
    → Carries t.sock (take_ack h t).sock × ((take_ack h t).sock.state ≡ t.sock.state)
unfolding take_ack
take_ack-Carries h t w l = elim (Bool-cases (is_new_ack h t.sock)) [
  | inl e ↦ ((λ r. rw e r, rw e, ground (arith, e, w, l)), rw e)
  | inr e ↦ ((λ r. rw e r, rw e, ground (arith, e)), rw e)
]

Carries-refl : (s : Socket) → Carries s s
Carries-refl s = (λ r. r, refl, omega arith)

-- A step that changes neither the state nor the send side.
abbrev Quiet : Socket → Socket → Type 0
Quiet s s' =
    Carries s s' × (s'.state ≡ s.state) × (s'.tx_len ≡ s.tx_len) × (s'.fin_queued ≡ s.fin_queued)

Quiet-send_ack : (ip : ℕ) (s : Socket) (t : Turn) → Quiet s t.sock → Quiet s (send_ack ip t).sock
Quiet-send_ack ip s t q = subst (Quiet s) (sym (sock-tcp_transmit_seg ip t.sock.snd_nxt 16 [] t)) q

Quiet-tcp_rx_push :
    (input : List ℕ) (t : Turn) → IsRing t.sock → Quiet t.sock (tcp_rx_push input t).sock
Quiet-tcp_rx_push input t r =
    let c = tcp_rx_push-SameControl input t in
    ((λ _. (tcp_rx_push_lem t input r).0.0, c.1, ground (arith, c.1, c.2)), c.0, c.3, c.4)

Quiet-refl : (s : Socket) → Quiet s s
Quiet-refl s = (Carries-refl s, refl, refl, refl)

Quiet-if :
    (s : Socket) (test : Bool) (t u : Turn)
    → Quiet s t.sock
    → Quiet s u.sock
    → Quiet s (if test then t else u).sock
Quiet-if s true t u p q = p
Quiet-if s false t u p q = q

take_data-Quiet :
    (ip : ℕ) (h : Arrival) (t : Turn) → IsRing t.sock → Quiet t.sock (take_data ip h t).sock
unfolding take_data
take_data-Quiet ip h t r =
    let s = t.sock in
    let fed : Turn =
      if h.seq == s.rcv_nxt then advance (length h.payload) (tcp_rx_push h.payload t) else t in
    Quiet-if s (length h.payload == 0) t (send_ack ip fed) (Quiet-refl s) (
      Quiet-send_ack ip s fed (
        Quiet-if s (h.seq == s.rcv_nxt) (advance (length h.payload) (tcp_rx_push h.payload t)) t
          (Quiet-tcp_rx_push h.payload t r) (Quiet-refl s)))

-- What a step makes of the state, when it changes nothing else that matters here.
abbrev Turns : Socket → State → Socket → Type 0
Turns s a s' =
    Carries s s' × (s'.state ≡ a) × (s'.tx_len ≡ s.tx_len) × (s'.fin_queued ≡ s.fin_queued)

set_state-Turns :
    (s : Socket) (f : State → State) (t : Turn)
    → Quiet s t.sock
    → Turns s (f s.state) (set_state f t).sock
set_state-Turns s f t (c, a, n, q) = (c, ap f a, n, q)

Turns-if :
    (s : Socket) (test : Bool) (a b : State) (t u : Turn)
    → Turns s a t.sock
    → Turns s b u.sock
    → Turns s (if test then a else b) (if test then t else u).sock
Turns-if s true a b t u p q = p
Turns-if s false a b t u p q = q

-- A turn with the peer's FIN noted.
abbrev noted : Arrival → Turn → Turn
noted h t =
    let fin_end = (h.seq + length h.payload + 1) % 2 ^ 32 in
    wait_wake (minus 1) (record t {
      sock = record t.sock {
        rcv_nxt = if ltb t.sock.rcv_nxt fin_end then fin_end else t.sock.rcv_nxt;
        rx_fin = true;
      };
    })

take_fin-Turns :
    (ip : ℕ) (h : Arrival) (t : Turn)
    → Turns t.sock
        (if flag_fin h then after_fin t.sock.state else t.sock.state)
        (take_fin ip h t).sock
unfolding take_fin
take_fin-Turns ip h t =
    Turns-if t.sock (flag_fin h) (after_fin t.sock.state) t.sock.state
      (set_state after_fin (send_ack ip (noted h t))) t
      (set_state-Turns t.sock after_fin (send_ack ip (noted h t))
        (Quiet-send_ack ip t.sock (noted h t) (Quiet-refl t.sock)))
      (Quiet-refl t.sock)

-- One segment in an open state.
on_open-Progress :
    (ip : ℕ) (h : Arrival) (t : Turn)
    → IsOpen t.sock.state
    → AreWords t.sock
    → h.ack < 2 ^ 32
    → IsRing t.sock
    → Progress t.sock (on_open ip h t).sock
unfolding on_open settle
on_open-Progress ip h t o w l r =
    let t1 = take_ack h t in
    let t2 = take_data ip h t1 in
    let t3 = take_fin ip h t2 in
    let s1 = take_ack-Carries h t w l in
    let s2 = take_data-Quiet ip h t1 (s1.0.0 r) in
    let s3 = take_fin-Turns ip h t2 in
    let c : Carries t.sock t3.sock =
      Carries-trans t.sock t1.sock t3.sock s1.0 (Carries-trans t1.sock t2.sock t3.sock s2.0 s3.0) in
    (
      subst (λ a. Moves t.sock.state (after_our_ack t3.sock.tx_len t3.sock.fin_queued a))
          (ap (λ a. if flag_fin h then after_fin a else a) (sym (s2.1 ∙ s1.1)) ∙ sym s3.1)
          (Moves-ends_in t3.sock.tx_len t3.sock.fin_queued (flag_fin h) t.sock.state o),
      c.0 r,
      c.1,
      c.2,
    )

Progress-refl : (s : Socket) → IsRing s → Progress s s
Progress-refl s r = (stays, r, refl, omega arith)

Progress-if :
    (s : Socket) (test : Bool) (t u : Turn)
    → Progress s t.sock
    → Progress s u.sock
    → Progress s (if test then t else u).sock
Progress-if s true t u p q = p
Progress-if s false t u p q = q

-- The socket once the SYN-ACK is accepted, before its data.
abbrev opened : Arrival → Turn → Turn
opened h t = record t {
  sock = record t.sock {
    rcv_nxt = ((h.seq + 1) % 2 ^ 32 + length h.payload) % 2 ^ 32;
    snd_una = h.ack;
    state = established;
    tx_time = 0;
    tx_retries = 0;
  };
}

opened-Progress :
    (ip : ℕ) (h : Arrival) (t : Turn)
    → t.sock.state ≡ syn_sent
    → h.ack ≡ (t.sock.iss + 1) % 2 ^ 32
    → AreWords t.sock
    → IsOpening t.sock
    → IsRing t.sock
    → Progress t.sock (send_ack ip (tcp_rx_push h.payload (opened h t))).sock
opened-Progress ip h t st e w o r =
    let q =
      Quiet-send_ack ip (opened h t).sock (tcp_rx_push h.payload (opened h t))
        (Quiet-tcp_rx_push h.payload (opened h t) r) in
    let s' = (send_ack ip (tcp_rx_push h.payload (opened h t))).sock in
    (
      subst (λ a. Moves a s'.state) (sym st) (subst (Moves syn_sent) (sym q.1) opens),
      q.0.0 r,
      q.0.1,
      omega (arith, q.0.2, e, w, o),
    )

on_syn_sent-Progress :
    (ip : ℕ) (h : Arrival) (t : Turn)
    → t.sock.state ≡ syn_sent
    → AreWords t.sock
    → IsOpening t.sock
    → IsRing t.sock
    → Progress t.sock (on_syn_sent ip h t).sock
unfolding on_syn_sent
on_syn_sent-Progress ip h t st w o r =
    elim (Bool-cases (flag_syn h && flag_ack h && h.ack == (t.sock.iss + 1) % 2 ^ 32)) [
      | inl e ↦ rw e (opened-Progress ip h t st (ground arith) w o r)
      | inr e ↦ rw e (Progress-refl t.sock r)
    ]

on_last_ack-Progress :
    (h : Arrival) (t : Turn)
    → t.sock.state ≡ last_ack
    → IsRing t.sock
    → Progress t.sock (on_last_ack h t).sock
unfolding on_last_ack
on_last_ack-Progress h t st r =
    Progress-if t.sock (flag_ack h && h.ack == t.sock.snd_nxt) (set_state (λ state. closed) t) t
      (reset, r, refl, omega arith) (Progress-refl t.sock r)

on_time_wait-Progress :
    (ip : ℕ) (h : Arrival) (t : Turn) → IsRing t.sock → Progress t.sock (on_time_wait ip h t).sock
unfolding on_time_wait
on_time_wait-Progress ip h t r =
    Progress-if t.sock (flag_fin h) (send_ack ip t) t
      (subst (Progress t.sock) (sym (sock-tcp_transmit_seg ip t.sock.snd_nxt 16 [] t))
        (Progress-refl t.sock r))
      (Progress-refl t.sock r)

by_state-Progress :
    (ip : ℕ) (h : Arrival) (a : State) (t : Turn)
    → t.sock.state ≡ a
    → (a ≡ syn_sent → IsOpening t.sock)
    → AreWords t.sock
    → h.ack < 2 ^ 32
    → IsRing t.sock
    → Progress t.sock (by_state ip h a t).sock
by_state-Progress ip h closed t e o w l r = Progress-refl t.sock r
by_state-Progress ip h syn_sent t e o w l r = on_syn_sent-Progress ip h t e w (o refl) r
by_state-Progress ip h established t e o w l r =
    on_open-Progress ip h t (subst IsOpen (sym e) open1) w l r
by_state-Progress ip h fin_wait1 t e o w l r =
    on_open-Progress ip h t (subst IsOpen (sym e) open2) w l r
by_state-Progress ip h fin_wait2 t e o w l r =
    on_open-Progress ip h t (subst IsOpen (sym e) open3) w l r
by_state-Progress ip h time_wait t e o w l r = on_time_wait-Progress ip h t r
by_state-Progress ip h close_wait t e o w l r = Progress-refl t.sock r
by_state-Progress ip h last_ack t e o w l r = on_last_ack-Progress h t e r
by_state-Progress ip h closing t e o w l r =
    on_open-Progress ip h t (subst IsOpen (sym e) open4) w l r

-- Whatever segment a connection is given, if its ring is well formed, its sequence numbers are words and
-- a connection that is opening has sent just its SYN, then the connection moves along an edge of the
-- TCP diagram or not at all, the ring stays well formed, nothing new counts as sent, and the amount in
-- flight does not grow.
pub deliver_lem :
    (ip : ℕ) (h : Arrival) (t : Turn)
    → (t.sock.state ≡ syn_sent → IsOpening t.sock)
    → AreWords t.sock
    → h.ack < 2 ^ 32
    → IsRing t.sock
    → Progress t.sock (deliver ip h t).sock
unfolding deliver
deliver_lem ip h t o w l r =
    Progress-if t.sock (flag_rst h) (set_state (λ state. closed) t) (by_state ip h t.sock.state t)
      (reset, r, refl, omega arith) (by_state-Progress ip h t.sock.state t refl o w l r)
