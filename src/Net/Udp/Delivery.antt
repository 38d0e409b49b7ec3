-- ===== src/Net/Udp/Delivery.antt =====
-- A datagram of src/kernel/net/udp.c from one socket to another.
use kil0y_os.Prelude.{
  ℕ, zero, suc, ◌-◌, ◌≡◌, Bool, true, false, List, [], ◌∷◌, take, ltb, set, ◌||◌, if◌then◌else◌,
}
use kil0y_os.Net.Udp.{UdpSocket, Udp, udp_rx_bufsz, udp_header_size, has_port, give_payload}

-- The socket at index `k` is `r`, and the first one with the port.
abbrev pub FirstWith : List UdpSocket → ℕ → UdpSocket → ℕ → Type 0
FirstWith [] k r port = ⊥
FirstWith (s ∷ ss) zero r port = (s ≡ r) × (has_port s port ≡ true)
FirstWith (s ∷ ss) (suc k) r port = (has_port s port ≡ false) × FirstWith ss k r port

-- A socket with the payload and its sender.
abbrev pub filled : UdpSocket → ℕ → ℕ → List ℕ → UdpSocket
filled r src_ip src_port payload = record r {
  remote_ip = src_ip;
  remote_port = src_port;
  rx = take udp_rx_bufsz payload;
}

given : Udp → ℕ → ℕ → ℕ → ℕ → ℕ → List ℕ → Udp × Bool
given u src_ip size len src dst rest =
    let r = give_payload u.sockets src_ip src dst (take (len - udp_header_size) rest) in
    if ltb size udp_header_size || ltb len udp_header_size
    then (u, false)
    else (record u { sockets = r.0 }, r.1)

-- What the receiver has: the socket at index `k` holds the payload and the sender's address, no other has changed, and
-- the waiting readers are woken.
abbrev pub Delivered : Udp → ℕ → UdpSocket → ℕ → ℕ → List ℕ → Udp × Bool → Type 0
Delivered v k r src_ip src payload w =
    let new : UdpSocket = record r { remote_ip = src_ip; remote_port = src; rx = payload } in
    w ≡ (record v { sockets = set v.sockets k new }, true)
