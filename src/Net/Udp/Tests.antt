-- ===== src/Net/Udp/Tests.antt =====
-- Two sockets on one host, and a datagram to the second from another host.
use kil0y_os.Prelude.{ℕ, ◌≡◌, refl, true, false, List, [], ◌∷◌}
use kil0y_os.Net.Udp.{UdpSocket, Udp, udp_ephemeral_port, udp_receive, datagram, give_payload}

abbrev bound_to : ℕ → UdpSocket
bound_to port = record {
  local_port = port;
  remote_ip = 0;
  remote_port = 0;
  bound = true;
  used = true;
  rx = [];
}

abbrev host : Udp
host = record { sockets = bound_to 68 ∷ bound_to 53 ∷ []; next = 49152 }

abbrev text : List ℕ
text = 104 ∷ 105 ∷ []

next_port : udp_ephemeral_port (bound_to 65535 ∷ []) 9 65535 ≡ (49152, 49153)
unfolding udp_ephemeral_port
next_port = refl

short : udp_receive host 7 (0 ∷ 1 ∷ 0 ∷ []) ≡ (host, false)
unfolding udp_receive give_payload
short = refl

-- A datagram without payload wakes the readers and is not kept.
empty : udp_receive host 7 (datagram 68 53 []) ≡ (
  record host {
    sockets = bound_to 68 ∷ record (bound_to 53) { remote_ip = 7; remote_port = 68 } ∷ [];
  },
  true,
)
unfolding udp_receive give_payload
empty = refl
