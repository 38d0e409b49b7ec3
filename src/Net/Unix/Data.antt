-- ===== src/Net/Unix/Data.antt =====
-- Sending and receiving bytes and records (src/kernel/net/unix_sock.c).
use kil0y_os.Prelude.{
  ℕ, zero, suc, ◌+◌, ◌-◌, ◌%◌, ◌^◌, Bool, false, not, ◌||◌, Option, none, some, List, [], length,
  take, drop, ltb, ◌==◌, if◌then◌else◌, update,
}
use kil0y_os.Prelude.Int.{ℤ, pos, minus}
use kil0y_os.Net.Unix.{
  Unix, Socket, scm_qlen, rx_sz, rec_hdr_size, is_connected, is_shut, write_socket, unix_wake,
  ring_used, ring_space, ring_write, ring_read, le_value, header_bytes,
}
use kil0y_os.Net.Unix.Connect.{close_files, socket_at}

unfoldable pub unix_send : Unix → ℕ → List ℕ → Unix × ℤ
unix_send u p input =
    let q = (u.sockets p).peer in
    let len = length input in
    if (p == 0) || not (is_connected (u.sockets p))
    then (u, minus 107)
    else (if q == 0
        then (u, minus 32)
        else (if ltb (ring_space (u.sockets q)) len
            then (u, minus 11)
            else (unix_wake (write_socket u q (ring_write (u.sockets q) input)), pos len)))

abbrev pub next_scm : Socket → Socket
next_scm s = record s {
  scm = update s.scm s.scm_head (record (s.scm s.scm_head) { files = [] });
  scm_head = (s.scm_head + 1) % scm_qlen;
  scm_cnt = s.scm_cnt - 1;
}

-- The loop of unix_recv over the records of descriptors, at most `n` of them.
unfoldable pub drop_passed : ℕ → Unix → ℕ → Unix
drop_passed zero u p = u
drop_passed (suc n) u p =
    let s = u.sockets p in
    let r = s.scm s.scm_head in
    let v = close_files r.files u in
    let rest = drop_passed n (write_socket v p (next_scm (v.sockets p))) p in
    if ltb s.abs_tail r.off then u else rest

-- The result, and the bytes written to the buffer.
unfoldable pub unix_recv : Unix → ℕ → ℕ → (Unix × ℤ) × List ℕ
unix_recv u p len =
    let s = u.sockets p in
    let used = ring_used s in
    let n = if ltb used len then used else len in
    let got = ring_read s n in
    if (p == 0) || not (s.kind == 1)
    then ((u, minus 22), [])
    else (if used == 0
        then (if s.peer == 0 then ((u, pos 0), []) else ((u, minus 11), []))
        else ((drop_passed s.scm_cnt (write_socket u p (got.1)) p, pos n), got.0))

-- A record goes into the ring of `q`.
abbrev pub put_record : Socket → ℕ → List ℕ → Socket
put_record s src input =
    let written = ring_write (ring_write s (header_bytes (length input) src)) input in
    record written { msg_cnt = written.msg_cnt + 1 }

-- What follows the choice of the receiver `q`.
unfoldable pub send_record : Unix → ℕ → ℕ → List ℕ → Unix × ℤ
send_record u p q input =
    let dst = u.sockets q in
    let need = (length input + rec_hdr_size) % 2 ^ 32 in
    if is_shut dst
    then (u, minus 104)
    else (if ltb rx_sz need
        then (u, minus 90)
        else (if ltb (ring_space dst) need
            then (u, minus 11)
            else (unix_wake (write_socket u q (put_record dst p input)), pos (length input))))

-- `none` for a path that is NULL; an abstract name has a negative length, so it is refused like an empty one.
unfoldable pub unix_sendto_dgram : Unix → ℕ → List ℕ → Option (List ℕ) → Bool → Unix × ℤ
unix_sendto_dgram u p input path abstract =
    let s = u.sockets p in
    if (p == 0) || (s.kind == 1)
    then (u, minus 22)
    else (if s.peer == 0
        then elim path [
          | none ↦ (u, minus 107)
          | some name ↦
              if abstract || (length name == 0)
              then (u, minus 107)
              else (if socket_at u name false == 0
                  then (u, minus 111)
                  else send_record u p (socket_at u name false) input)
        ]
        else send_record u p s.peer input)

-- The loop that discards the rest of an overlong record.
unfoldable pub discard : ℕ → Socket → Socket
discard zero s = s
discard (suc n) s = discard n ((ring_read s 1).1)

-- The bytes written to the buffer and the sender, and the socket after; `none` for -L_EAGAIN.
unfoldable pub framed_pop : Socket → ℕ → Option ((List ℕ × ℕ) × Socket)
framed_pop s len =
    let (h, s1) = ring_read s rec_hdr_size in
    let total = le_value (take 4 h) in
    let n = if ltb total len then total else len in
    let (bs, s2) = ring_read (record s1 { msg_cnt = s1.msg_cnt - 1 }) n in
    if s.msg_cnt == 0 then none else some ((bs, le_value (drop 8 h)), discard (total - n) s2)
