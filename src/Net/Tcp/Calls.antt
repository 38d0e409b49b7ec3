-- ===== src/Net/Tcp/Calls.antt =====
-- The user-facing calls of src/kernel/net/tcp.c. A blocking loop is given by its turns: what happens between
-- two turns (the interrupt handler, netif_poll) is the environment's. `now` is pit_uptime_us.
use Prim.Native.Nat.{bit_xor, bit_or}
use kil0y_os.Prelude.{
  ℕ, zero, suc, ◌+◌, ◌-◌, ◌*◌, ◌/◌, ◌%◌, ◌^◌, Bool, true, false, not, ◌&&◌, ◌||◌, List, [], ◌∷◌,
  length, take, ltb, leb, ◌==◌, if◌then◌else◌,
}
use kil0y_os.Net.Tcp.{
  State, closed, syn_sent, established, fin_wait1, close_wait, last_ack, Socket, Turn,
  tcp_transmit_seg, port_taken, rto, max_retries, mss, rx_size,
}

-- tcp_isn: xorshift in 32 bits.
unfoldable pub tcp_isn : ℕ → ℕ → ℕ
tcp_isn isn_state now =
    let a = if isn_state == 0 then bit_or (now % 2 ^ 32) 1 else isn_state in
    let b = bit_xor a (a * 2 ^ 13 % 2 ^ 32) in
    let c = bit_xor b (b / 2 ^ 17) in bit_xor c (c * 2 ^ 5 % 2 ^ 32)

-- The retransmit timer.
unfoldable pub tcp_poll : ℕ → ℕ → Turn → Turn
tcp_poll ip now t =
    let s = t.sock in
    if not s.used
      || s.tx_len == 0
      || s.tx_time == 0
      || ltb ((now + 2 ^ 64 - s.tx_time) % 2 ^ 64) rto
    then t
    else (if leb max_retries s.tx_retries
        then record t { sock = record s { state = closed; tx_time = 0 } }
        else (let again = tcp_transmit_seg ip s.snd_una s.tx_flags (take s.tx_len s.tx_seg) t in
            record again { sock = record s { tx_time = now; tx_retries = s.tx_retries + 1 } }))

-- tcp_send_seg_tracked, with TCP_FLAG_ACK set and no FIN.
unfoldable pub send_tracked : ℕ → ℕ → ℕ → List ℕ → Turn → Turn
send_tracked ip now flags payload t =
    let chunk = take mss payload in
    let armed = record t.sock {
      tx_seg = chunk;
      tx_len = length chunk;
      tx_flags = bit_or flags 16;
      tx_retries = 0;
      fin_queued = bit_or flags 1 == flags;
    } in
    let out = tcp_transmit_seg ip armed.snd_una armed.tx_flags chunk (record t { sock = armed }) in
    record out { sock = record armed { tx_time = now } }

-- The search of tcp_connect for a port: the port it takes (0 for none) and the allocator's next port.
unfoldable pub ephemeral_port : ℕ → List Socket → ℕ → ℕ → ℕ × ℕ
ephemeral_port zero sockets self next = (0, next)
ephemeral_port (suc tries) sockets self next =
    let p = next in
    let bumped = (next + 1) % 2 ^ 16 in
    let again = ephemeral_port tries sockets self (if ltb bumped 49152 then 49152 else bumped) in
    if port_taken sockets 0 self p then again else (p, bumped)

-- What tcp_connect writes before its loop: the address, the sequence numbers, and the SYN.
pub start_connect : ℕ → ℕ → ℕ → Turn → Turn
start_connect ip now isn t =
    let ready = record t.sock {
      iss = isn;
      snd_una = isn;
      snd_nxt = (isn + 1) % 2 ^ 32;
      rcv_nxt = 0;
      rx_head = 0;
      rx_tail = 0;
      rx_fin = false;
      state = syn_sent;
    } in
    let out = tcp_transmit_seg ip isn 2 [] (record t { sock = ready }) in
    record out {
      sock = record ready {
        tx_len = 0;
        tx_flags = 2;
        fin_queued = false;
        tx_retries = 0;
        tx_time = now;
      };
    }

-- A turn of the loop, with the retransmission timeout; `true` says that the retries are used up.
pub connect_turn : ℕ → ℕ → ℕ → Turn → (Turn × ℕ) × Bool
connect_turn ip now timeout t =
    let s = t.sock in
    if not (s.tx_time == 0) && ltb timeout ((now + 2 ^ 64 - s.tx_time) % 2 ^ 64)
    then (if leb max_retries s.tx_retries
        then ((record t { sock = record s { state = closed } }, timeout), true)
        else (let again = tcp_transmit_seg ip s.iss 2 [] t in
            (
              (
                record again { sock = record s { tx_time = now; tx_retries = s.tx_retries + 1 } },
                if ltb timeout 4000000 then timeout * 2 else timeout,
              ),
              false,
            )))
    else ((t, timeout), false)

-- A chunk of tcp_send: the bytes are counted as sent before they are transmitted.
unfoldable pub send_chunk : ℕ → ℕ → List ℕ → Turn → Turn
send_chunk ip now input t =
    let chunk = take mss input in
    send_tracked ip now 24 chunk
      (record t { sock = record t.sock { snd_nxt = (t.sock.snd_nxt + length chunk) % 2 ^ 32 } })

abbrev is_ready : Socket → Bool
is_ready s = s.used && (not (s.rx_head == s.rx_tail) || s.rx_fin)

pub tcp_rx_ready : Socket → Bool
tcp_rx_ready s = is_ready s

-- The copying loop of tcp_recv, for at most `n` bytes.
unfoldable pub pop_bytes : ℕ → Socket → Socket × List ℕ
pop_bytes zero s = (s, [])
pop_bytes (suc n) s =
    let rest = pop_bytes n (record s { rx_tail = (s.rx_tail + 1) % rx_size }) in
    if s.rx_tail == s.rx_head then (s, []) else (rest.0, s.rx_buf s.rx_tail ∷ rest.1)

pub data Received : Type 0 where
  failed : Received
  bytes : List ℕ → Received
  end_of_stream : Received
  waiting : Received

abbrev pub is_closed_state : State → Bool
is_closed_state closed = true
is_closed_state _ = false

-- A turn of tcp_recv before its timeout: bytes, the end of the stream, an error, or another turn.
unfoldable pub recv_turn : ℕ → ℕ → Turn → Turn × Received
recv_turn ip maxlen t =
    let s = t.sock in
    if s.rx_head == s.rx_tail
    then (if is_closed_state s.state
        then (t, failed)
        else (if s.rx_fin then (t, end_of_stream) else (t, waiting)))
    else (let popped = pop_bytes maxlen s in
        let drained = record t { sock = popped.0 } in
        (tcp_transmit_seg ip popped.0.snd_nxt 16 [] drained, bytes popped.1))

-- The FIN that tcp_close sends, from CLOSE_WAIT and from ESTABLISHED.
unfoldable pub close_fin : ℕ → ℕ → Turn → Turn
close_fin ip now t =
    let s = t.sock in
    let send = λ (ready : Socket).
      let out = tcp_transmit_seg ip s.snd_nxt 17 [] (record t { sock = ready }) in
      record out { sock = record ready { tx_time = now } } in
    elim s.state [
      | close_wait ↦ send (record s {
        state = last_ack;
        tx_flags = 17;
        tx_retries = 0;
        snd_nxt = (s.snd_nxt + 1) % 2 ^ 32;
      })
      | established ↦ send (record s {
        tx_len = 1;
        tx_flags = 17;
        fin_queued = true;
        tx_retries = 0;
        state = fin_wait1;
        snd_nxt = (s.snd_nxt + 1) % 2 ^ 32;
      })
      | _ ↦ t
    ]
