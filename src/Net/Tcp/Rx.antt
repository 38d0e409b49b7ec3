-- ===== src/Net/Tcp/Rx.antt =====
-- The receive state machine of src/kernel/net/tcp.c (tcp_receive).
use kil0y_os.Prelude.{
  ℕ, ◌+◌, ◌-◌, ◌*◌, ◌/◌, ◌%◌, ◌^◌, Bool, true, false, not, ◌&&◌, ◌||◌, Option, none, some, List, [],
  ◌∷◌, length, get_or, set, drop, ltb, ◌==◌, if◌then◌else◌,
}
use kil0y_os.Prelude.Bits.{bit}
use kil0y_os.Prelude.Int.{minus}
use kil0y_os.Net.Tcp.{
  State, closed, syn_sent, established, fin_wait1, fin_wait2, time_wait, close_wait, last_ack,
  closing, Socket, socket, Turn, tcp_transmit_seg, tcp_rx_push, wait_wake, tcp_checksum,
}

-- The fields of tcp_header_t in host order, and the payload.
pub record Arrival : Type 0 where
  pub src_port : ℕ
  pub dst_port : ℕ
  pub seq : ℕ
  pub ack : ℕ
  pub off : ℕ
  pub flags : ℕ
  pub payload : List ℕ

abbrev pub read16 : List ℕ → ℕ → ℕ
read16 input i = get_or input i 0 * 256 + get_or input (i + 1) 0

abbrev pub read32 : List ℕ → ℕ → ℕ
read32 input i = read16 input i * 2 ^ 16 + read16 input (i + 2)

unfoldable pub parse : List ℕ → Arrival
parse input =
    let off = get_or input 12 0 / 16 * 4 in
    record {
      src_port = read16 input 0;
      dst_port = read16 input 2;
      seq = read32 input 4;
      ack = read32 input 8;
      off = off;
      flags = get_or input 13 0;
      payload = drop off input;
    }

abbrev pub flag_fin : Arrival → Bool
flag_fin h = bit h.flags 0 == 1

abbrev pub flag_syn : Arrival → Bool
flag_syn h = bit h.flags 1 == 1

abbrev pub flag_rst : Arrival → Bool
flag_rst h = bit h.flags 2 == 1

abbrev pub flag_ack : Arrival → Bool
flag_ack h = bit h.flags 4 == 1

abbrev pub is_closed : State → Bool
is_closed closed = true
is_closed _ = false

-- The first socket that the segment is for.
abbrev pub matches : Socket → ℕ → Arrival → Bool
matches s src_ip h =
    s.used
    && s.local_port == h.dst_port
    && s.remote_port == h.src_port
    && not (is_closed s.state)
    && s.remote_ip == src_ip

pub find_socket : List Socket → ℕ → ℕ → Arrival → Option ℕ
find_socket [] i src_ip h = none
find_socket (s ∷ sockets) i src_ip h =
    if matches s src_ip h then some i else find_socket sockets (i + 1) src_ip h

-- a - b in 32 bits
abbrev pub sub32 : ℕ → ℕ → ℕ
sub32 a b = (a + 2 ^ 32 - b) % 2 ^ 32

-- TCP_FLAG_ACK
abbrev pub ack_only : ℕ
ack_only = 16

abbrev pub send_ack : ℕ → Turn → Turn
send_ack ip t = tcp_transmit_seg ip t.sock.snd_nxt ack_only [] t

unfoldable pub on_syn_sent : ℕ → Arrival → Turn → Turn
on_syn_sent ip h t =
    let s = t.sock in
    if flag_syn h && flag_ack h && h.ack == (s.iss + 1) % 2 ^ 32
    then send_ack ip (
        tcp_rx_push h.payload (record t {
          sock = record s {
            rcv_nxt = ((h.seq + 1) % 2 ^ 32 + length h.payload) % 2 ^ 32;
            snd_una = h.ack;
            state = established;
            tx_time = 0;
            tx_retries = 0;
          };
        }))
    else t

-- An ACK of bytes that were sent and not yet acknowledged.
abbrev pub is_new_ack : Arrival → Socket → Bool
is_new_ack h s =
    flag_ack h
    && ltb 0 (sub32 h.ack s.snd_una)
    && ltb (sub32 h.ack s.snd_una) (2 ^ 31)
    && ltb (sub32 s.snd_nxt h.ack) (2 ^ 31)

unfoldable pub take_ack : Arrival → Turn → Turn
take_ack h t =
    if is_new_ack h t.sock
    then record t {
      sock = record t.sock {
        snd_una = h.ack;
        tx_len = 0;
        tx_time = 0;
        fin_queued = false;
        tx_retries = 0;
      };
    }
    else t

abbrev pub advance : ℕ → Turn → Turn
advance n t = record t { sock = record t.sock { rcv_nxt = (t.sock.rcv_nxt + n) % 2 ^ 32 } }

unfoldable pub take_data : ℕ → Arrival → Turn → Turn
take_data ip h t =
    if length h.payload == 0
    then t
    else send_ack ip (
        if h.seq == t.sock.rcv_nxt then advance (length h.payload) (tcp_rx_push h.payload t) else t)

abbrev pub after_fin : State → State
after_fin established = close_wait
after_fin fin_wait1 = closing
after_fin fin_wait2 = time_wait
after_fin state = state

abbrev pub set_state : (State → State) → Turn → Turn
set_state f t = record t { sock = record t.sock { state = f t.sock.state } }

unfoldable pub take_fin : ℕ → Arrival → Turn → Turn
take_fin ip h t =
    let fin_end = (h.seq + length h.payload + 1) % 2 ^ 32 in
    if flag_fin h
    then set_state after_fin (
        send_ack ip (
          wait_wake (minus 1) (record t {
            sock = record t.sock {
              rcv_nxt = if ltb t.sock.rcv_nxt fin_end then fin_end else t.sock.rcv_nxt;
              rx_fin = true;
            };
          })))
    else t

-- The transitions once our FIN is acknowledged.
abbrev pub after_our_ack : ℕ → Bool → State → State
after_our_ack tx_len fin_queued fin_wait1 =
    if tx_len == 0 && not fin_queued then fin_wait2 else fin_wait1
after_our_ack tx_len fin_queued closing = if tx_len == 0 then time_wait else closing
after_our_ack tx_len fin_queued state = state

unfoldable pub settle : Turn → Turn
settle t = set_state (after_our_ack t.sock.tx_len t.sock.fin_queued) t

unfoldable pub on_open : ℕ → Arrival → Turn → Turn
on_open ip h t = settle (take_fin ip h (take_data ip h (take_ack h t)))

unfoldable pub on_last_ack : Arrival → Turn → Turn
on_last_ack h t = if flag_ack h && h.ack == t.sock.snd_nxt then set_state (λ state. closed) t else t

unfoldable pub on_time_wait : ℕ → Arrival → Turn → Turn
on_time_wait ip h t = if flag_fin h then send_ack ip t else t

abbrev pub by_state : ℕ → Arrival → State → Turn → Turn
by_state ip h closed t = t
by_state ip h syn_sent t = on_syn_sent ip h t
by_state ip h established t = on_open ip h t
by_state ip h fin_wait1 t = on_open ip h t
by_state ip h fin_wait2 t = on_open ip h t
by_state ip h time_wait t = on_time_wait ip h t
by_state ip h close_wait t = t
by_state ip h last_ack t = on_last_ack h t
by_state ip h closing t = on_open ip h t

-- The switch of tcp_receive, after the RST test.
unfoldable pub deliver : ℕ → Arrival → Turn → Turn
deliver ip h t = if flag_rst h then set_state (λ state. closed) t else by_state ip h t.sock.state t

abbrev put_turn : List Socket → ℕ → Turn → List Socket × Turn
put_turn sockets i t = (set sockets i t.sock, t)

-- The sockets after the segment, and the turn of the socket that took it (none if it was dropped).
pub tcp_receive : ℕ → List Socket → ℕ → List ℕ → Option (List Socket × Turn)
tcp_receive ip sockets src_ip input =
    let h = parse input in
    if ltb (length input) 20 || ltb h.off 20 || ltb (length input) h.off
    then none
    else elim (find_socket sockets 0 src_ip h) [
      | none ↦ none
      | some i ↦
          if tcp_checksum src_ip ip input == 0
          then some (
              put_turn sockets i
                (deliver ip h (record { sock = socket sockets i; sent = []; woken = [] })))
          else none
    ]
