-- ===== src/Net/Tcp/Tests.antt =====
-- The claims about src/kernel/net/tcp.c at concrete sockets.
use kil0y_os.Prelude.{◌≡◌, true, [], ◌∷◌, arith}
use kil0y_os.Prelude.Int.{pos}
use kil0y_os.Net.Tcp.{established, Socket, cleared, Turn, tcp_rx_push, tcp_checksum, segment}
use kil0y_os.Net.Tcp.Rx.{Arrival, parse, deliver}
use kil0y_os.Net.Tcp.Calls.{pop_bytes}
use kil0y_os.Net.Tcp.Ring.{Pushed, Popped, tcp_rx_push_lem, pop_bytes_lem}
use kil0y_os.Net.Tcp.Progress.{Progress, deliver_lem}
use kil0y_os.Net.Tcp.Wire.{ReadBack, FitsWire, segment_lem}

-- A connection from port 50000 to port 80, with the ring about to wrap.
abbrev peer : Socket
peer = record cleared {
  used = true;
  state = established;
  remote_ip = 0x0A000202;
  remote_port = 80;
  local_port = 50000;
  iss = 7;
  snd_una = 8;
  snd_nxt = 20;
  tx_len = 12;
  rcv_nxt = 1000;
  rx_head = 65535;
  rx_tail = 65535;
}

abbrev idle : Turn
idle = record { sock = peer; sent = []; woken = [] }

tcp_rx_push_example :
    Pushed peer (1 ∷ 2 ∷ []) (tcp_rx_push (1 ∷ 2 ∷ []) idle).sock
    × ((tcp_rx_push (1 ∷ 2 ∷ []) idle).woken ≡ pos 1 ∷ [])
tcp_rx_push_example = tcp_rx_push_lem idle (1 ∷ 2 ∷ []) (omega arith, omega arith)

pop_bytes_example :
    Popped 1 (tcp_rx_push (1 ∷ 2 ∷ []) idle).sock (pop_bytes 1 (tcp_rx_push (1 ∷ 2 ∷ []) idle).sock)
pop_bytes_example =
    pop_bytes_lem 1 (tcp_rx_push (1 ∷ 2 ∷ []) idle).sock
      (tcp_rx_push_lem idle (1 ∷ 2 ∷ []) (omega arith, omega arith)).0.0

-- A FIN with an ACK of all that was sent.
abbrev fin : Arrival
fin = record {
  src_port = 80;
  dst_port = 50000;
  seq = 1000;
  ack = 20;
  off = 20;
  flags = 17;
  payload = [];
}

deliver_example : Progress peer (deliver 0x0A00020F fin idle).sock
deliver_example =
    deliver_lem 0x0A00020F fin idle (λ e. absurd (cc e)) (omega arith, omega arith, omega arith)
      (omega arith) (omega arith, omega arith)

peer-FitsWire : FitsWire 0x0A00020F peer 20 24
peer-FitsWire = record {
  local_port = omega arith;
  remote_port = omega arith;
  remote_ip = omega arith;
  rcv_nxt = omega arith;
  own_ip = omega arith;
  number = omega arith;
  bits = omega arith;
}

segment_example :
    (tcp_checksum 0x0A00020F 0x0A000202 (segment 0x0A00020F peer 20 24 (71 ∷ 69 ∷ 84 ∷ [])) ≡ 0)
    × ReadBack 0x0A00020F peer 20 24
        (71 ∷ 69 ∷ 84 ∷ [])
        peer-FitsWire
        (omega arith, (omega arith, (omega arith, omega arith)))
        (omega arith)
        (parse (segment 0x0A00020F peer 20 24 (71 ∷ 69 ∷ 84 ∷ [])))
segment_example =
    segment_lem 0x0A00020F peer 20 24 (71 ∷ 69 ∷ 84 ∷ []) peer-FitsWire
      (omega arith, (omega arith, (omega arith, omega arith))) (omega arith)
