-- ===== src/Net/Unix/Messages.antt =====
-- unix_sendmsg and unix_recvmsg of src/kernel/net/unix_sock.c, with the descriptors they pass.
use kil0y_os.Prelude.{
  ℕ, zero, suc, ◌+◌, ◌-◌, ◌%◌, ◌^◌, Bool, true, false, not, ◌||◌, none, some, List, [], ◌∷◌, ◌++◌,
  length, take, drop, ltb, leb, ◌==◌, if◌then◌else◌, update,
}
use kil0y_os.Prelude.Int.{ℤ, pos, minus}
use kil0y_os.Net.Unix.{
  Unix, Socket, Scm, scm_max, scm_qlen, rx_sz, rec_hdr_size, is_connected, write_socket, unix_wake,
  ring_used, ring_space, ring_write, ring_read, header_bytes,
}
use kil0y_os.Net.Unix.Connect.{close_files}
use kil0y_os.Net.Unix.Data.{next_scm, framed_pop}

-- The socket after, and whether there was room.
unfoldable pub scm_push : Socket → List ℕ → Socket × Bool
scm_push s fds =
    let r : Scm = record { off = s.abs_head; files = fds } in
    if leb scm_qlen s.scm_cnt then (s, false) else (
      record s {
        scm = update s.scm ((s.scm_head + s.scm_cnt) % scm_qlen) r;
        scm_cnt = s.scm_cnt + 1;
      },
      true,
    )

abbrev pub total_length : List (List ℕ) → ℕ
total_length [] = 0
total_length (b ∷ bs) = length b + total_length bs

-- The loop over the buffers of a message.
unfoldable pub write_all : Socket → List (List ℕ) → Socket
write_all s [] = s
write_all s (b ∷ bs) = write_all (if length b == 0 then s else ring_write s b) bs

-- The descriptors are closed if the receiver has no room for them.
abbrev pub pass_files : Unix → ℕ → List ℕ → Unix
pass_files u q [] = u
pass_files u q (f ∷ fs) =
    let (s, pushed) = scm_push (u.sockets q) (f ∷ fs) in
    if pushed then write_socket u q s else close_files (f ∷ fs) u

abbrev pub put_message : Socket → ℕ → List (List ℕ) → Socket
put_message s src bufs =
    let written = write_all (ring_write s (header_bytes (total_length bufs) src)) bufs in
    record written { msg_cnt = written.msg_cnt + 1 }

unfoldable pub unix_sendmsg : Unix → ℕ → List (List ℕ) → List ℕ → Unix × ℤ
unix_sendmsg u p bufs fds =
    let q = (u.sockets p).peer in
    let peer = u.sockets q in
    let total = total_length bufs in
    let need = (total + rec_hdr_size) % 2 ^ 32 in
    let sent = pos total in
    if (p == 0) || not (is_connected (u.sockets p))
    then (u, minus 107)
    else (if q == 0
        then (u, minus 32)
        else (if ltb (rx_sz - 16) total
            then (u, minus 90)
            else (if peer.kind == 1
                then (if ltb (ring_space peer) total then (u, minus 11) else (
                  unix_wake (pass_files (write_socket u q (write_all peer bufs)) q fds),
                  sent,
                ))
                else (if ltb rx_sz need
                    then (u, minus 90)
                    else (if ltb (ring_space peer) need
                        then (u, minus 11)
                        else (unix_wake (write_socket u q (put_message peer p bufs)), sent))))))

-- The loop over the buffers of a receiver, given by their lengths.
unfoldable pub read_all : Socket → List ℕ → List (List ℕ) × Socket
read_all s [] = ([], s)
read_all s (len ∷ lens) =
    let used = ring_used s in
    let want = if ltb len used then len else used in
    let (bs, s') = ring_read s want in
    let (rest, last) = read_all s' lens in if want == 0 then ([], s) else (bs ∷ rest, last)

-- The loop over the records of descriptors, at most `n` of them: the descriptors received, and the socket after.
unfoldable pub deliver_scm : ℕ → Socket → List ℕ → List ℕ × Socket
deliver_scm zero s out = (out, s)
deliver_scm (suc n) s out =
    let r = s.scm s.scm_head in
    let rest = deliver_scm n (next_scm s) (out ++ take (scm_max - length out) r.files) in
    if leb scm_max (length out) || ltb s.abs_tail r.off then (out, s) else rest

abbrev pub sum_lengths : List ℕ → ℕ
sum_lengths [] = 0
sum_lengths (n ∷ ns) = n + sum_lengths ns

-- The loop that copies a record into the buffers.
abbrev pub scatter : List ℕ → List ℕ → List (List ℕ)
scatter bs [] = []
scatter [] (len ∷ lens) = []
scatter (b ∷ bs) (len ∷ lens) = take len (b ∷ bs) ∷ scatter (drop len (b ∷ bs)) lens

-- The state after, the result, what is written to the buffers, and the descriptors.
pub record Reception : Type 0 where
  pub after : Unix
  pub result : ℤ
  pub bufs : List (List ℕ)
  pub files : List ℕ

abbrev pub nothing : Unix → ℤ → Reception
nothing u r = record { after = u; result = r; bufs = []; files = [] }

abbrev pub receive_stream : Unix → ℕ → List ℕ → Reception
receive_stream u p lens =
    let (bs, read) = read_all (u.sockets p) lens in
    let (files, last) = deliver_scm read.scm_cnt read [] in
    record {
      after = write_socket u p last;
      result = pos (total_length bs);
      bufs = bs;
      files = files;
    }

-- `stage` is what kmalloc returns.
abbrev pub receive_record : Unix → ℕ → List ℕ → ℕ → Reception
receive_record u p lens stage =
    if sum_lengths lens == 0
    then nothing u (minus 90)
    else (if stage == 0
        then nothing u (minus 12)
        else elim (framed_pop (u.sockets p) (sum_lengths lens)) [
          | none ↦ nothing u (minus 11)
          | some out ↦ record {
            after = write_socket u p (out.1);
            result = pos (length (out.0.0));
            bufs = scatter (out.0.0) lens;
            files = [];
          }
        ])

unfoldable pub unix_recvmsg : Unix → ℕ → List ℕ → ℕ → Reception
unix_recvmsg u p lens stage =
    let s = u.sockets p in
    if p == 0
    then nothing u (minus 22)
    else (if s.kind == 1
        then (if ring_used s == 0
            then nothing u (if s.peer == 0 then pos 0 else minus 11)
            else receive_stream u p lens)
        else (if s.msg_cnt == 0 then nothing u (minus 11) else receive_record u p lens stage))
