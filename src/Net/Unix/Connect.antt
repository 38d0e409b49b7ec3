-- ===== src/Net/Unix/Connect.antt =====
-- Listening, connecting, accepting and closing (src/kernel/net/unix_sock.c).
use kil0y_os.Prelude.{
  ℕ, zero, suc, ◌+◌, ◌-◌, ◌%◌, ◌^◌, Bool, not, ◌&&◌, ◌||◌, Option, none, some, List, [], ◌∷◌,
  length, map, replicate, take, drop, get_elem?, ltb, leb, ◌==◌, if◌then◌else◌, update,
}
use kil0y_os.Prelude.Int.{ℤ, pos, negsuc, minus}
use kil0y_os.Net.Unix.{
  Unix, Socket, Node, SocketState, path_max, backlog_max, scm_qlen, rx_sz, rec_hdr_size,
  is_connected, is_listening, is_idle, is_shut, write_socket, unix_wake, put_bytes, ring_peek,
  ring_place, le_value, unix_socket_create,
}
use kil0y_os.Net.Unix.Bind.{bind_find, unbound}

-- 1 if the argument is not positive.
abbrev pub wanted_backlog : ℤ → ℕ
wanted_backlog (negsuc n) = 1
wanted_backlog (pos n) = if n == 0 then 1 else n

unfoldable pub unix_listen : Unix → ℕ → ℤ → Unix × ℤ
unix_listen u p backlog =
    let s = u.sockets p in
    let wanted = wanted_backlog backlog in
    let kept = if ltb backlog_max wanted then backlog_max else wanted in
    if (p == 0) || (not (s.kind == 1) && not (s.kind == 5)) || (length s.name == 0)
    then (u, minus 22)
    else (if is_idle s
        then (write_socket u p (record s { backlog = kept; state = SocketState.listening }), pos 0)
        else (u, minus 106))

-- The socket bound to a name.
abbrev pub socket_at : Unix → List ℕ → Bool → ℕ
socket_at u path abstract = elim (bind_find u.bind_tab path abstract 0) [
  | none ↦ 0
  | some i ↦ elim (get_elem? u.bind_tab i) [ none ↦ 0 | some n ↦ n.owner ]
]

-- The child that waits to be accepted: connected to `p`, with the name of the listener.
abbrev pub server_child : Socket → ℕ → ℕ → Socket → Socket
server_child child p tgid listener = record child {
  state = SocketState.connected;
  peer = p;
  cred_pid = tgid;
  name = if length listener.name == 0 then child.name else listener.name;
  is_abstract = if length listener.name == 0 then child.is_abstract else listener.is_abstract;
}

abbrev pub queue_child : Socket → ℕ → Socket
queue_child s child = record s {
  pend = update s.pend ((s.pend_head + s.pend_cnt) % backlog_max) child;
  pend_cnt = s.pend_cnt + 1;
}

-- What follows the tests of unix_connect: `l` is the listener, `made` what unix_socket_create gave.
unfoldable pub join_child : Unix × ℕ → ℕ → ℕ → ℕ → Unix × ℤ
join_child (u, child) p l tgid =
    let v = write_socket u child (server_child (u.sockets child) p tgid (u.sockets l)) in
    let w =
      write_socket v p (record (v.sockets p) { peer = child; state = SocketState.connected }) in
    if child == 0
    then (u, minus 12)
    else (unix_wake (write_socket w l (queue_child (w.sockets l) child)), pos 0)

-- `tgid` is that of the calling process; `child` and `rx` are what kmalloc returns.
unfoldable pub unix_connect : Unix → ℕ → Option (List ℕ) → Bool → ℕ → ℕ → ℕ → Unix × ℤ
unix_connect u p none abstract tgid child rx = (u, minus 22)
unix_connect u p (some path) abstract tgid child rx =
    let l = socket_at u path abstract in
    if p == 0
    then (u, minus 22)
    else (if is_connected (u.sockets p)
        then (u, minus 106)
        else (if (length path == 0) || ltb path_max (length path)
            then (u, minus 22)
            else (if (l == 0) || not (is_listening (u.sockets l))
                then (u, minus 111)
                else (if leb (u.sockets l).backlog (u.sockets l).pend_cnt
                    then (u, minus 11)
                    else join_child (unix_socket_create u (u.sockets l).kind child rx) p l tgid))))

-- The child, 0 if there is none.
unfoldable pub unix_accept : Unix → ℕ → Unix × ℕ
unix_accept u p =
    let s = u.sockets p in
    let taken = record s {
      pend = update s.pend s.pend_head 0;
      pend_head = (s.pend_head + 1) % backlog_max;
      pend_cnt = s.pend_cnt - 1;
    } in
    if (p == 0) || not (is_listening s) || (s.pend_cnt == 0)
    then (u, 0)
    else (write_socket u p taken, s.pend s.pend_head)

unfoldable pub unix_socketpair : Unix → ℕ → ℕ → ℕ → Unix × ℤ
unix_socketpair u a b tgid =
    let v = write_socket u a (record (u.sockets a) { peer = b }) in
    let w = write_socket v b (record (v.sockets b) { peer = a }) in
    let x = write_socket w a (record (w.sockets a) { state = SocketState.connected }) in
    let y = write_socket x b (record (x.sockets b) { state = SocketState.connected }) in
    let z = write_socket y a (record (y.sockets a) { cred_pid = tgid }) in
    if (a == 0) || (b == 0)
    then (u, minus 22)
    else (write_socket z b (record (z.sockets b) { cred_pid = (z.sockets a).cred_pid }), pos 0)

-- The loop of scrub_ring_src over the records from the offset `at_pos` on.
unfoldable pub scrub_from : ℕ → Socket → ℕ → ℕ → Socket
scrub_from zero s at_pos dying = s
scrub_from (suc m) s at_pos dying =
    let h = ring_peek s at_pos rec_hdr_size in
    let wiped = (put_bytes s.rx ((ring_place s at_pos + 8) % rx_sz) (replicate 8 0)).0 in
    let s' = if le_value (drop 8 h) == dying then record s { rx = wiped } else s in
    scrub_from m s' ((at_pos + rec_hdr_size + le_value (take 4 h)) % 2 ^ 64) dying

abbrev pub scrub_ring_src : Socket → ℕ → Socket
scrub_ring_src s dying =
    if (s.kind == 1) || (s.msg_cnt == 0) then s else scrub_from s.msg_cnt s s.abs_tail dying

abbrev pub close_files : List ℕ → Unix → Unix
close_files [] u = u
close_files (f ∷ fs) u = close_files fs (record u { closed = f ∷ u.closed })

-- The loop over the pending connections from index `i` on.
unfoldable pub refuse_pending : ℕ → Unix → ℕ → ℕ → Unix
refuse_pending zero u p i = u
refuse_pending (suc n) u p i =
    let s = u.sockets p in
    let child = s.pend ((s.pend_head + i) % backlog_max) in
    let c = u.sockets child in
    let v =
      if c.peer == 0 then u else write_socket u c.peer (record (u.sockets c.peer) { peer = 0 }) in
    let w = write_socket v child (record (v.sockets child) { state = SocketState.closed }) in
    let w' = if child == 0 then u else record w { freed = child ∷ w.freed } in
    refuse_pending n w' p (i + 1)

-- The loop over the descriptors that nobody received.
unfoldable pub drop_scm : ℕ → Unix → ℕ → ℕ → Unix
drop_scm zero u p i = u
drop_scm (suc n) u p i =
    let s = u.sockets p in
    drop_scm n (close_files (s.scm ((s.scm_head + i) % scm_qlen)).files u) p (i + 1)

abbrev pub orphan_peer : Unix → ℕ → Unix
orphan_peer u p =
    let q = (u.sockets p).peer in
    let v = write_socket u q (record (u.sockets q) { peer = 0 }) in
    if q == 0 then u else write_socket v q (scrub_ring_src (v.sockets q) p)

unfoldable pub unix_sock_close : Unix → ℕ → Unix
unix_sock_close u p =
    let detached = record u {
      bind_tab = map (λ (n : Node). if n.owner == p then unbound n else n) u.bind_tab;
    } in
    let v = orphan_peer detached p in
    let w = refuse_pending (v.sockets p).pend_cnt v p 0 in
    let x = drop_scm (w.sockets p).scm_cnt w p 0 in
    let y = unix_wake (write_socket x p (record (x.sockets p) { state = SocketState.closed })) in
    if (p == 0) || is_shut (u.sockets p) then u else record y { freed = p ∷ y.freed }
