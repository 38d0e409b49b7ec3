-- ===== src/Net/Unix/Tests.antt =====
-- Unix sockets at work: a bound listener, a client, a pair of streams and a pair of datagram sockets.
use kil0y_os.Prelude.{ℕ, ◌+◌, ◌≡◌, refl, false, some, List, [], ◌∷◌, arith, replicate, set}
use kil0y_os.Prelude.Int.{pos}
use kil0y_os.Net.Unix.{
  Unix, Socket, Node, SocketState, fresh_socket, bind_max, write_socket, unix_socket_create,
}
use kil0y_os.Net.Unix.Bind.{unix_bind, bind_find, free_node}
use kil0y_os.Net.Unix.Connect.{unix_connect, unix_accept, socket_at, join_child}
use kil0y_os.Net.Unix.Data.{unix_send, put_record, framed_pop}
use kil0y_os.Net.Unix.Fifo.{IsRing, read_out}
use kil0y_os.Net.Unix.Records.{IsFramed, Popped, framed_pop_lem, put_record_lem}
use kil0y_os.Net.Unix.Sends.{Sent, unix_send_lem}
use kil0y_os.Net.Unix.Lookup.{IsAt}
use kil0y_os.Net.Unix.Names.{Bound, unix_bind_lem}
use kil0y_os.Net.Unix.Peers.{Connected, unix_connect_lem}
use kil0y_os.Net.Unix.Pending.{Accepted, IsListener, pending, waiting, unix_accept_lem}

abbrev no_node : Node
no_node = record { path = []; is_abstract = false; owner = 0 }

abbrev empty : Unix
empty = record {
  sockets = λ p. fresh_socket 1;
  bind_tab = replicate bind_max no_node;
  wakes = 0;
  closed = [];
  freed = [];
}

abbrev x_socket : List ℕ
x_socket = 47 ∷ 88 ∷ []

unix_bind_example : Bound empty 10 x_socket false (unix_bind empty 10 (some x_socket) false)
unix_bind_example = unix_bind_lem empty 10 x_socket false

bind_result : (unix_bind empty 10 (some x_socket) false).1 ≡ pos 0
unfolding unix_bind bind_find free_node
bind_result = refl

-- Socket 10 listens at the name.
abbrev listener : Socket
listener = record (fresh_socket 1) { name = x_socket; state = SocketState.listening; backlog = 3 }

abbrev serving : Unix
serving = record (write_socket empty 10 listener) {
  bind_tab =
      set (replicate bind_max no_node) 0
        (record { path = x_socket; is_abstract = false; owner = 10 });
}

found : socket_at serving x_socket false ≡ 10
unfolding bind_find
found = refl

listens : IsListener (serving.sockets (socket_at serving x_socket false))
unfolding bind_find
listens = (omega arith, omega arith, omega arith)

unix_connect_example :
    IsAt serving.bind_tab x_socket false (socket_at serving x_socket false)
    × Connected serving 20
        (socket_at serving x_socket false)
        30
        7
        x_socket
        (unix_connect serving 20 (some x_socket) false 7 30 31)
unix_connect_example =
    unix_connect_lem serving 20 30 31 7 x_socket false (omega arith) (omega arith) (omega arith)
      (omega (arith, found)) (omega (arith, found)) listens

connect_result : (unix_connect serving 20 (some x_socket) false 7 30 31).1 ≡ pos 0
unfolding unix_connect bind_find join_child unix_socket_create
connect_result = refl

-- Two connections wait.
abbrev busy : Unix
busy = write_socket empty 10 (record listener { pend = λ i. 30 + i; pend_head = 15; pend_cnt = 2 })

unix_accept_example : Accepted busy 10 (pending (busy.sockets 10)) (unix_accept busy 10)
unix_accept_example =
    unix_accept_lem busy 10 (omega arith) refl (omega arith, omega arith, omega arith)

pending-busy : pending (busy.sockets 10) ≡ 45 ∷ 30 ∷ []
unfolding waiting
pending-busy = refl

abbrev paired : ℕ → ℕ → Socket
paired kind peer = record (fresh_socket kind) { state = SocketState.connected; peer = peer }

abbrev streams : Unix
streams = write_socket (write_socket empty 1 (paired 1 2)) 2 (paired 1 1)

abbrev hello : List ℕ
hello = 104 ∷ 105 ∷ []

paired-IsRing : IsRing (paired 1 1)
paired-IsRing = (omega arith, omega arith, omega arith, omega arith, omega arith)

unix_send_example : Sent streams 1 hello (unix_send streams 1 hello)
unix_send_example = unix_send_lem streams 1 hello paired-IsRing

send_result : (unix_send streams 1 hello).1 ≡ pos 2
unfolding unix_send
send_result = refl

abbrev datagrams : Unix
datagrams = write_socket (write_socket empty 1 (paired 2 2)) 2 (paired 2 1)

framed : IsFramed (paired 2 1) []
unfolding read_out
framed = record { ring = paired-IsRing; bytes = refl; count = refl; senders = tt }

one_record : IsFramed (put_record (paired 2 1) 1 hello) ((1, hello) ∷ [])
one_record = put_record_lem (paired 2 1) [] 1 hello framed (omega arith) (omega arith)

framed_pop_example : Popped 1 1 hello [] (framed_pop (put_record (paired 2 1) 1 hello) 1)
framed_pop_example = framed_pop_lem (put_record (paired 2 1) 1 hello) 1 hello [] 1 one_record
