-- ===== src/Net/Unix.antt =====
-- src/kernel/net/unix_sock.c: the sockets, their receive rings and the bind table. A socket is an address in
-- a store, with 0 for NULL. rx_sz is UNIX_RXBUF_SZ in every socket (unix_socket_create sets it, and nothing
-- else does), so it is a constant. A name carries its length. `wakes` counts the calls of unix_wake, `closed`
-- holds the files passed to file_close and `freed` the sockets passed to kfree, the last one first.
pub mod Connect
pub mod Bind
pub mod Data
pub mod Messages
pub mod Fifo
pub mod States
pub mod Lookup
pub mod Records
pub mod Sends
pub mod Datagrams
pub mod Names
pub mod Pending
pub mod Peers
mod Tests
use kil0y_os.Prelude.{
  ℕ, zero, suc, ◌+◌, ◌-◌, ◌*◌, ◌/◌, ◌%◌, ◌^◌, Bool, true, false, not, ◌&&◌, ◌||◌, Option, none,
  some, List, [], ◌∷◌, ◌++◌, replicate, length, ltb, leb, ◌==◌, if◌then◌else◌, update,
}
use kil0y_os.Prelude.Int.{ℤ, pos, negsuc, minus}

-- US_*
pub data SocketState : Type 0 where
  idle listening connected closed : SocketState

-- unix_scm_t
pub record Scm : Type 0 where
  pub off : ℕ
  pub files : List ℕ

-- struct unix_sock; `kind` is its type: 1 stream, 2 dgram, 5 seqpacket.
pub record Socket : Type 0 where
  pub kind : ℕ
  pub state : SocketState
  pub peer : ℕ
  pub rx : ℕ → ℕ
  pub rx_head : ℕ
  pub rx_tail : ℕ
  pub abs_head : ℕ
  pub abs_tail : ℕ
  pub msg_cnt : ℕ
  pub pend : ℕ → ℕ
  pub pend_head : ℕ
  pub pend_cnt : ℕ
  pub backlog : ℕ
  pub scm : ℕ → Scm
  pub scm_head : ℕ
  pub scm_cnt : ℕ
  pub name : List ℕ
  pub is_abstract : Bool
  pub cred_pid : ℕ

-- unix_bind_node_t; `owner` is its socket.
pub record Node : Type 0 where
  pub path : List ℕ
  pub is_abstract : Bool
  pub owner : ℕ

pub record Unix : Type 0 where
  pub sockets : ℕ → Socket
  pub bind_tab : List Node
  pub wakes : ℕ
  pub closed : List ℕ
  pub freed : List ℕ

abbrev pub rx_sz : ℕ
rx_sz = 65536

abbrev pub path_max : ℕ
path_max = 108

abbrev pub backlog_max : ℕ
backlog_max = 16

abbrev pub scm_max : ℕ
scm_max = 8

abbrev pub scm_qlen : ℕ
scm_qlen = 8

abbrev pub bind_max : ℕ
bind_max = 32

abbrev pub rec_hdr_size : ℕ
rec_hdr_size = 16

abbrev pub is_connected : Socket → Bool
is_connected s = elim s.state [ connected ↦ true | _ ↦ false ]

abbrev pub is_listening : Socket → Bool
is_listening s = elim s.state [ listening ↦ true | _ ↦ false ]

abbrev pub is_idle : Socket → Bool
is_idle s = elim s.state [ idle ↦ true | _ ↦ false ]

abbrev pub is_shut : Socket → Bool
is_shut s = elim s.state [ SocketState.closed ↦ true | _ ↦ false ]

abbrev pub write_socket : Unix → ℕ → Socket → Unix
write_socket u p s = record u { sockets = update u.sockets p s }

abbrev pub unix_wake : Unix → Unix
unix_wake u = record u { wakes = u.wakes + 1 }

abbrev pub ring_used : Socket → ℕ
ring_used s = (s.abs_head + 2 ^ 64 - s.abs_tail) % 2 ^ 64 % 2 ^ 32

abbrev pub ring_space : Socket → ℕ
ring_space s = (rx_sz + 2 ^ 32 - ring_used s) % 2 ^ 32

-- The loop of ring_write.
unfoldable pub put_bytes : (ℕ → ℕ) → ℕ → List ℕ → (ℕ → ℕ) × ℕ
put_bytes m h [] = (m, h)
put_bytes m h (b ∷ bs) = put_bytes (update m h b) ((h + 1) % rx_sz) bs

abbrev pub ring_write : Socket → List ℕ → Socket
ring_write s input =
    let out = put_bytes s.rx s.rx_head input in
    record s { rx = out.0; rx_head = out.1; abs_head = (s.abs_head + length input) % 2 ^ 64 }

-- The loop of ring_read and ring_peek: the bytes, and where it ends.
unfoldable pub get_bytes : ℕ → (ℕ → ℕ) → ℕ → List ℕ × ℕ
get_bytes zero m t = ([], t)
get_bytes (suc n) m t = let (bs, last) = get_bytes n m ((t + 1) % rx_sz) in (m t ∷ bs, last)

abbrev pub ring_read : Socket → ℕ → List ℕ × Socket
ring_read s n =
    let (bs, last) = get_bytes n s.rx s.rx_tail in
    (bs, record s { rx_tail = last; abs_tail = (s.abs_tail + n) % 2 ^ 64 })

-- The place of an absolute offset in the ring.
abbrev pub ring_place : Socket → ℕ → ℕ
ring_place s abs_off =
    (s.rx_tail + (abs_off + 2 ^ 64 - s.abs_tail) % 2 ^ 64 % 2 ^ 32) % 2 ^ 32 % rx_sz

abbrev pub ring_peek : Socket → ℕ → ℕ → List ℕ
ring_peek s abs_off n = (get_bytes n s.rx (ring_place s abs_off)).0

-- The bytes of an integer, the lowest first, and back.
unfoldable pub le_bytes : ℕ → ℕ → List ℕ
le_bytes zero x = []
le_bytes (suc n) x = (x % 256) ∷ le_bytes n (x / 256)

unfoldable pub le_value : List ℕ → ℕ
le_value [] = 0
le_value (b ∷ bs) = b + 256 * le_value bs

-- unix_rec_hdr_t in memory: len, pad and src.
abbrev pub header_bytes : ℕ → ℕ → List ℕ
header_bytes len src = le_bytes 4 len ++ (le_bytes 4 0 ++ le_bytes 8 src)

abbrev pub sock_readable : Socket → Bool
sock_readable s = if s.kind == 1 then ltb 0 (ring_used s) || (s.peer == 0) else ltb 0 s.msg_cnt

abbrev pub sock_writable : Socket → Bool
sock_writable s =
    if s.kind == 1 then ltb 0 (ring_space s) else ltb (rec_hdr_size + 256) (ring_space s)

abbrev pub fresh_socket : ℕ → Socket
fresh_socket kind = record {
  kind = kind;
  state = idle;
  peer = 0;
  rx = λ i. 0;
  rx_head = 0;
  rx_tail = 0;
  abs_head = 0;
  abs_tail = 0;
  msg_cnt = 0;
  pend = λ i. 0;
  pend_head = 0;
  pend_cnt = 0;
  backlog = 0;
  scm = λ i. record { off = 0; files = [] };
  scm_head = 0;
  scm_cnt = 0;
  name = [];
  is_abstract = false;
  cred_pid = 0;
}

-- `p` and `rx` are what kmalloc returns.
unfoldable pub unix_socket_create : Unix → ℕ → ℕ → ℕ → Unix × ℕ
unix_socket_create u kind p rx =
    if p == 0
    then (u, 0)
    else (if rx == 0
        then (record u { freed = p ∷ u.freed }, 0)
        else (write_socket u p (fresh_socket kind), p))

unfoldable pub unix_poll_bits : Unix → ℕ → ℕ
unix_poll_bits u p =
    let s = u.sockets p in
    if p == 0
    then 0
    else (if is_listening s
        then (if ltb 0 s.pend_cnt then 1 else 0) + 4
        else (if sock_readable s then 1 else 0)
          + (if sock_writable s then 4 else 0)
          + (if (s.peer == 0) && is_connected s then 8 else 0))

pub unix_getsockname : Unix → ℕ → ℤ × List ℕ
unix_getsockname u p =
    if p == 0 then (minus 22, []) else (pos (length (u.sockets p).name), (u.sockets p).name)

pub unix_getpeername : Unix → ℕ → ℤ × List ℕ
unix_getpeername u p =
    if (p == 0) || ((u.sockets p).peer == 0)
    then (minus 107, [])
    else unix_getsockname u (u.sockets p).peer

-- The user and group are 0.
pub unix_peer_cred : Unix → ℕ → ℕ
unix_peer_cred u p = if p == 0 then 0 else (u.sockets p).cred_pid
