-- ===== src/Net/Unix/States.antt =====
-- The tests on the state of a Unix socket (src/kernel/net/unix_sock.c) and what they say of it.
use kil0y_os.Prelude.{◌≡◌, ◌≢◌, true, false, arith, ◌+◌, length}
use kil0y_os.Net.Unix.{Socket, SocketState, is_connected, is_listening, is_shut, rx_sz, ring_space}
use kil0y_os.Net.Unix.Fifo.{IsRing, stored, length-read_out}

pub connected_state : (s : Socket) → is_connected s ≡ true → s.state ≡ SocketState.connected
connected_state s e = ground (arith, e)

pub not_connected_state : (s : Socket) → is_connected s ≡ false → s.state ≢ SocketState.connected
not_connected_state s e z = absurd (ground (arith, e, z))

pub listening_state : (s : Socket) → is_listening s ≡ true → s.state ≡ SocketState.listening
listening_state s e = ground (arith, e)

pub not_listening_state : (s : Socket) → is_listening s ≡ false → s.state ≢ SocketState.listening
not_listening_state s e z = absurd (ground (arith, e, z))

pub closed_state : (s : Socket) → is_shut s ≡ true → s.state ≡ SocketState.closed
closed_state s e = ground (arith, e)

pub not_closed_state : (s : Socket) → is_shut s ≡ false → s.state ≢ SocketState.closed
not_closed_state s e z = absurd (ground (arith, e, z))

-- The space of a ring is what the bytes that wait leave of it.
pub ring_space-stored : (s : Socket) → IsRing s → ring_space s + length (stored s) ≡ rx_sz
ring_space-stored s (a, b, c, d, e) = omega (arith, b, length-read_out _ s.rx s.rx_tail)
