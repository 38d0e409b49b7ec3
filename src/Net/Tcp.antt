-- ===== src/Net/Tcp.antt =====
-- src/kernel/net/tcp.c: sockets, and the segments on the wire. A socket's receive ring is a function from
-- positions. A handler takes a socket and returns a Turn: the socket after it, the segments that were
-- handed to IPv4 and the wait_wake calls on the network queue, both newest first. The uptime and the
-- interface's address are arguments.
pub mod Rx
pub mod Calls
pub mod Ring
pub mod Progress
pub mod Wire
pub mod Port
mod Tests
use kil0y_os.Prelude.{
  ℕ, zero, suc, ◌+◌, ◌-◌, ◌*◌, ◌/◌, ◌%◌, ◌^◌, Bool, true, false, not, ◌&&◌, ◌||◌, Option, none,
  some, List, [], ◌∷◌, ◌++◌, length, get_elem?, get_or, set, replicate, take, drop, ltb, leb, ◌==◌,
  if◌then◌else◌, update, map,
}
use kil0y_os.Prelude.Int.{ℤ, pos, minus}

-- TCP_MAX_SOCKETS
abbrev pub max_sockets : ℕ
max_sockets = 8

-- TCP_RX_BUFSZ
abbrev pub rx_size : ℕ
rx_size = 64 * 1024

-- TCP_MSS
abbrev pub mss : ℕ
mss = 1400

-- TCP_RETRIES
abbrev pub max_retries : ℕ
max_retries = 8

-- TCP_RTO_MS, in microseconds
abbrev pub rto : ℕ
rto = 300 * 1000

pub data State : Type 0 where
  closed syn_sent established fin_wait1 fin_wait2 time_wait close_wait last_ack closing : State

-- tcp_socket_t
pub record Socket : Type 0 where
  pub used : Bool
  pub state : State
  pub remote_ip : ℕ
  pub remote_port : ℕ
  pub local_port : ℕ
  pub iss : ℕ
  pub snd_una : ℕ
  pub snd_nxt : ℕ
  pub tx_seg : List ℕ
  pub tx_len : ℕ
  pub tx_flags : ℕ
  pub tx_time : ℕ
  pub tx_retries : ℕ
  pub fin_queued : Bool
  pub rcv_nxt : ℕ
  pub rx_buf : ℕ → ℕ
  pub rx_head : ℕ
  pub rx_tail : ℕ
  pub rx_fin : Bool

-- memset(s, 0, sizeof(*s))
abbrev pub cleared : Socket
cleared = record {
  used = false;
  state = closed;
  remote_ip = 0;
  remote_port = 0;
  local_port = 0;
  iss = 0;
  snd_una = 0;
  snd_nxt = 0;
  tx_seg = [];
  tx_len = 0;
  tx_flags = 0;
  tx_time = 0;
  tx_retries = 0;
  fin_queued = false;
  rcv_nxt = 0;
  rx_buf = λ i. 0;
  rx_head = 0;
  rx_tail = 0;
  rx_fin = false;
}

abbrev pub shut : Socket → Socket
shut s = record s { used = false; state = closed }

pub tcp_init : List Socket → List Socket
tcp_init sockets = map shut sockets

abbrev pub socket : List Socket → ℕ → Socket
socket sockets i = get_or sockets i cleared

-- The index of the first socket that is not used.
pub find_unused : List Socket → ℕ → Option ℕ
find_unused [] i = none
find_unused (s ∷ sockets) i = if s.used then find_unused sockets (i + 1) else some i

pub tcp_socket_create : List Socket → List Socket × Option ℕ
tcp_socket_create sockets = elim (find_unused sockets 0) [
  | none ↦ (sockets, none)
  | some i ↦ (set sockets i (record cleared { used = true }), some i)
]

pub tcp_socket_close : List Socket → ℕ → List Socket
tcp_socket_close sockets i = set sockets i (shut (socket sockets i))

-- Whether a used socket other than the one at `self` has the port.
pub port_taken : List Socket → ℕ → ℕ → ℕ → Bool
port_taken [] i self port = false
port_taken (s ∷ sockets) i self port =
    (not (i == self) && s.used && s.local_port == port) || port_taken sockets (i + 1) self port

pub tcp_bind : List Socket → ℕ → ℕ → List Socket × ℤ
tcp_bind sockets i port =
    if not (socket sockets i).used || port_taken sockets 0 i port
    then (sockets, minus 1)
    else (set sockets i (record (socket sockets i) { local_port = port }), pos 0)

-- The bytes of a word, most significant first.
abbrev pub be16 : ℕ → List ℕ
be16 v = v / 256 % 256 ∷ v % 256 ∷ []

abbrev pub be32 : ℕ → List ℕ
be32 v = v / 2 ^ 24 % 256 ∷ v / 2 ^ 16 % 256 ∷ v / 256 % 256 ∷ v % 256 ∷ []

-- The little-endian words of a byte sequence, added up in 32 bits; an odd byte counts by itself.
unfoldable pub add_words : ℕ → List ℕ → ℕ
add_words sum [] = sum
add_words sum (a ∷ []) = (sum + a) % 2 ^ 32
add_words sum (a ∷ b ∷ bytes) = add_words ((sum + (a + b * 256)) % 2 ^ 32) bytes

abbrev pub fold : ℕ → ℕ
fold sum = sum % 2 ^ 16 + sum / 2 ^ 16

-- `while (sum >> 16)`: three turns are enough for 32 bits.
abbrev pub fold_all : ℕ → ℕ
fold_all sum = fold (fold (fold sum))

abbrev pub pseudo_header : ℕ → ℕ → ℕ → List ℕ
pseudo_header src_ip dst_ip len = be32 src_ip ++ (be32 dst_ip ++ (0 ∷ 6 ∷ be16 len))

unfoldable pub tcp_checksum : ℕ → ℕ → List ℕ → ℕ
tcp_checksum src_ip dst_ip seg =
    2 ^ 16 - 1 - fold_all (add_words (add_words 0 (pseudo_header src_ip dst_ip (length seg))) seg)

pub record Turn : Type 0 where
  pub sock : Socket
  pub sent : List (List ℕ)
  pub woken : List ℤ

-- The free bytes of the ring, which a segment advertises.
abbrev pub window : Socket → ℕ
window s = rx_size - 1 - (s.rx_head + rx_size - s.rx_tail) % rx_size

-- The header with the MSS option; the checksum field is written as it lies in memory.
abbrev pub header : Socket → ℕ → ℕ → ℕ → List ℕ
header s seq flags checksum =
    be16 s.local_port
    ++ (be16 s.remote_port
        ++ (be32 seq
            ++ (be32 s.rcv_nxt
                ++ (96
                    ∷ flags
                    ∷ (be16 (window s)
                        ++ (checksum % 256 ∷ checksum / 256 % 256 ∷ 0 ∷ 0 ∷ 2 ∷ 4 ∷ be16 mss))))))

-- The bytes that tcp_transmit_seg hands to IPv4.
unfoldable pub segment : ℕ → Socket → ℕ → ℕ → List ℕ → List ℕ
segment ip s seq flags payload =
    let blank = header s seq flags 0 ++ payload in
    header s seq flags (tcp_checksum ip s.remote_ip blank) ++ payload

-- NET_MAX_PACKET - sizeof(ipv4_header_t)
abbrev pub max_segment : ℕ
max_segment = 2048 - 20

pub tcp_transmit_seg : ℕ → ℕ → ℕ → List ℕ → Turn → Turn
tcp_transmit_seg ip seq flags payload t =
    if ltb max_segment ((24 + length payload) % 2 ^ 16)
    then t
    else record t { sent = segment ip t.sock seq flags payload ∷ t.sent }

-- The loop of tcp_rx_push: what does not fit is dropped.
pub push_bytes : Socket → List ℕ → Socket
push_bytes s [] = s
push_bytes s (b ∷ input) =
    let next = (s.rx_head + 1) % rx_size in
    let rest =
      push_bytes (record s { rx_buf = update s.rx_buf s.rx_head b; rx_head = next }) input in
    if next == s.rx_tail then s else rest

abbrev pub wait_wake : ℤ → Turn → Turn
wait_wake n t = record t { woken = n ∷ t.woken }

pub tcp_rx_push : List ℕ → Turn → Turn
tcp_rx_push input t = wait_wake (pos 1) (record t { sock = push_bytes t.sock input })
