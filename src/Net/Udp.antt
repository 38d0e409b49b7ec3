-- ===== src/Net/Udp.antt =====
-- src/kernel/net/udp.c: the sockets, the header and the payload of a datagram. The bytes of rx_buf up to rx_count are
-- one list; a packet given to ipv4_transmit is a result, and so is the wake of the waiting readers.
pub mod Delivery
mod Tests
use kil0y_os.Prelude.{
  ℕ, zero, suc, ◌+◌, ◌-◌, ◌*◌, ◌/◌, ◌%◌, ◌^◌, Bool, true, false, not, ◌&&◌, ◌||◌, Option, none,
  some, List, [], ◌∷◌, ◌++◌, map, length, set, get_elem?, take, drop, ltb, leb, ◌==◌, if◌then◌else◌,
}
use kil0y_os.Net.Arp.{bytes_2, field}

-- udp_socket_t
pub record UdpSocket : Type 0 where
  pub local_port : ℕ
  pub remote_ip : ℕ
  pub remote_port : ℕ
  pub bound : Bool
  pub used : Bool
  pub rx : List ℕ

-- The sockets, and the next ephemeral port.
pub record Udp : Type 0 where
  pub sockets : List UdpSocket
  pub next : ℕ

abbrev pub udp_rx_bufsz : ℕ
udp_rx_bufsz = 2048

abbrev pub udp_header_size : ℕ
udp_header_size = 8

-- NET_MTU less the headers of IPv4 and UDP
abbrev pub max_payload : ℕ
max_payload = 1500 - 20 - 8

pub udp_init : Udp → Udp
udp_init u = record u {
  sockets = map (λ (s : UdpSocket). record s { used = false; bound = false; rx = [] }) u.sockets;
}

abbrev pub has_port : UdpSocket → ℕ → Bool
has_port s port = s.used && s.bound && (s.local_port == port)

-- The first socket with the port takes the payload, unless its buffer is in use.
unfoldable pub give_payload : List UdpSocket → ℕ → ℕ → ℕ → List ℕ → List UdpSocket × Bool
give_payload [] src_ip src_port dst_port payload = ([], false)
give_payload (s ∷ ss) src_ip src_port dst_port payload =
    let rest = give_payload ss src_ip src_port dst_port payload in
    let new : UdpSocket = record s {
      remote_ip = src_ip;
      remote_port = src_port;
      rx = take udp_rx_bufsz payload;
    } in
    if has_port s dst_port
    then (if not (length s.rx == 0) then (s ∷ ss, false) else (new ∷ ss, true))
    else (s ∷ rest.0, rest.1)

-- The length that counts: what the header says, at most what came.
abbrev pub udp_len : List ℕ → ℕ
udp_len input = if ltb (length input) (field input 4 2) then length input else field input 4 2

unfoldable pub udp_receive : Udp → ℕ → List ℕ → Udp × Bool
udp_receive u src_ip input =
    let payload = take (udp_len input - udp_header_size) (drop udp_header_size input) in
    let given = give_payload u.sockets src_ip (field input 0 2) (field input 2 2) payload in
    if ltb (length input) udp_header_size || ltb (udp_len input) udp_header_size
    then (u, false)
    else (record u { sockets = given.0 }, given.1)

-- The first unused socket, with its index.
unfoldable pub take_socket : List UdpSocket → ℕ → List UdpSocket × Option ℕ
take_socket [] i = ([], none)
take_socket (s ∷ ss) i =
    let rest = take_socket ss (i + 1) in
    let new : UdpSocket = record s { used = true; bound = false; rx = []; local_port = 0 } in
    if not s.used then (new ∷ ss, some i) else (s ∷ rest.0, rest.1)

pub udp_socket_create : Udp → Udp × Option ℕ
udp_socket_create u =
    (record u { sockets = (take_socket u.sockets 0).0 }, (take_socket u.sockets 0).1)

pub udp_socket_close : Udp → ℕ → UdpSocket → Udp
udp_socket_close u i s = record u { sockets = set u.sockets i (record s { used = false }) }

-- The socket at index `i` is `s`.
pub udp_bind : Udp → ℕ → UdpSocket → ℕ → Option Udp
udp_bind u i s port =
    if not s.used
    then none
    else some
        (record u { sockets = set u.sockets i (record s { local_port = port; bound = true }) })

abbrev pub is_taken : List UdpSocket → ℕ → Bool
is_taken [] port = false
is_taken (s ∷ ss) port = has_port s port || is_taken ss port

abbrev pub after_port : ℕ → ℕ
after_port p = let n = (p + 1) % 2 ^ 16 in if ltb n 49152 then 49152 else n

-- The loop of udp_ephemeral_port: the port, or 0, and the next one.
unfoldable pub udp_ephemeral_port : List UdpSocket → ℕ → ℕ → ℕ × ℕ
udp_ephemeral_port ss zero next = (0, next)
udp_ephemeral_port ss (suc tries) next =
    let rest = udp_ephemeral_port ss tries (after_port next) in
    if is_taken ss next then rest else (next, after_port next)

abbrev pub datagram : ℕ → ℕ → List ℕ → List ℕ
datagram src_port dst_port payload =
    bytes_2 src_port
    ++ (bytes_2 dst_port ++ (bytes_2 (udp_header_size + length payload) ++ (bytes_2 0 ++ payload)))

-- The packet for ipv4_transmit, with the socket at index `i` bound if it was not; none where udp_sendto returns -1.
unfoldable pub udp_sendto : Udp → ℕ → UdpSocket → ℕ → List ℕ → Udp × Option (List ℕ)
udp_sendto u i s dst_port payload =
    let (p, next) = udp_ephemeral_port u.sockets 0x4000 u.next in
    let chosen : UdpSocket = if s.bound then s else record s { local_port = p; bound = true } in
    let v =
      if s.bound
      then u
      else record { sockets = if p == 0 then u.sockets else set u.sockets i chosen; next = next } in
    if not s.used
    then (u, none)
    else (if (not s.bound && (p == 0)) || ltb max_payload (length payload)
        then (v, none)
        else (v, some (datagram chosen.local_port dst_port payload)))

-- A turn of the loop of udp_recvfrom after netif_poll: the bytes, and the socket with an empty buffer.
pub udp_take : UdpSocket → ℕ → Option (UdpSocket × List ℕ)
udp_take s maxlen =
    if ltb 0 (length s.rx) then some (record s { rx = [] }, take maxlen s.rx) else none
