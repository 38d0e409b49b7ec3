-- ===== src/Net/Unix/Records.antt =====
-- The framed records of a Unix socket (src/kernel/net/unix_sock.c): datagrams go in at one end of the ring and
-- come out whole, in order, at the other.
use kil0y_os.Prelude.{
  ℕ, zero, suc, ◌+◌, ◌-◌, ◌^◌, ◌≤◌, ◌<◌, ◌≡◌, refl, ap, sym, ◌∙◌, subst, List, [], ◌∷◌, ◌++◌, take,
  drop, length, ◌==◌, arith, Bool-cases, inl, inr, append_assoc, append-nil, take-append,
  drop-append, drop-drop, take-all, take-inside, length-append, Option, some, none, false, ltb,
  if◌then◌else◌, length-drop,
}
use kil0y_os.Net.Unix.{
  Socket, rec_hdr_size, ring_used, ring_space, ring_write, ring_read, le_bytes, le_value,
  header_bytes,
}
use kil0y_os.Net.Unix.Fifo.{IsRing, stored, length-read_out, Holds, ring_write_lem, ring_read_lem}
use kil0y_os.Net.Unix.Data.{put_record, discard, framed_pop}

-- A record in the ring: the sender and its bytes.
abbrev pub encode : ℕ × List ℕ → List ℕ
encode (src, bs) = header_bytes (length bs) src ++ bs

abbrev pub encode_all : List (ℕ × List ℕ) → List ℕ
encode_all [] = []
encode_all (r ∷ rs) = encode r ++ encode_all rs

abbrev pub AreRecords : List (ℕ × List ℕ) → Type 0
AreRecords [] = Unit {0}
AreRecords ((src, bs) ∷ rs) = (src < 2 ^ 64) × AreRecords rs

-- The ring holds these records and nothing else.
pub record IsFramed (s : Socket) (rs : List (ℕ × List ℕ)) : Type 0 where
  pub ring : IsRing s
  pub bytes : stored s ≡ encode_all rs
  pub count : s.msg_cnt ≡ length rs
  pub senders : AreRecords rs

encode_all-append :
    (rs : List (ℕ × List ℕ)) (r : ℕ × List ℕ)
    → encode_all (rs ++ (r ∷ [])) ≡ encode_all rs ++ encode r
encode_all-append [] r = append-nil (encode r)
encode_all-append (q ∷ rs) r =
    ap (λ xs. encode q ++ xs) (encode_all-append rs r)
    ∙ sym (append_assoc (encode q) (encode_all rs) (encode r))

AreRecords-append :
    (rs : List (ℕ × List ℕ)) (src : ℕ) (bs : List ℕ)
    → AreRecords rs
    → src < 2 ^ 64
    → AreRecords (rs ++ ((src, bs) ∷ []))
AreRecords-append [] src bs h l = (l, tt)
AreRecords-append ((src', bs') ∷ rs) src bs (a, h) l = (a, AreRecords-append rs src bs h l)

length-header_bytes : (len src : ℕ) → length (header_bytes len src) ≡ rec_hdr_size
unfolding le_bytes
length-header_bytes len src = refl

header_len : (len src : ℕ) → len < 2 ^ 32 → le_value (take 4 (header_bytes len src)) ≡ len
unfolding le_bytes le_value
header_len len src l = omega (arith, l)

header_src : (len src : ℕ) → src < 2 ^ 64 → le_value (drop 8 (header_bytes len src)) ≡ src
unfolding le_bytes le_value
header_src len src l = omega (arith, l)

-- A record for which there is space goes behind the others.
pub put_record_lem :
    (s : Socket) (rs : List (ℕ × List ℕ)) (src : ℕ) (input : List ℕ)
    → IsFramed s rs
    → src < 2 ^ 64
    → length input + rec_hdr_size ≤ ring_space s
    → IsFramed (put_record s src input) (rs ++ ((src, input) ∷ []))
put_record_lem s rs src input h l room =
    let head = header_bytes (length input) src in
    let len = length-header_bytes (length input) src in
    let (ring1, bytes1, count1) = ring_write_lem s head h.ring (omega (arith, len, room)) in
    let s1 = ring_write s head in
    let grown = length-read_out (ring_used s1) s1.rx s1.rx_tail in
    let more = ap length bytes1 ∙ length-append (stored s) head in
    let before = length-read_out (ring_used s) s.rx s.rx_tail in
    let used : ring_used s1 ≡ ring_used s + rec_hdr_size =
      omega (arith, grown, more, before, len) in
    let (ring2, bytes2, count2) =
      ring_write_lem s1 input ring1 (omega (arith, used, room, h.ring)) in
    record {
      ring = ring2;
      bytes =
          bytes2
          ∙ ap (λ xs. xs ++ input) (bytes1 ∙ ap (λ xs. xs ++ head) h.bytes)
          ∙ append_assoc (encode_all rs) head input
          ∙ sym (encode_all-append rs (src, input));
      count = omega (arith, h.count, length-append rs ((src, input) ∷ []));
      senders = AreRecords-append rs src input h.senders l;
    }

used_length : (s : Socket) → length (stored s) ≡ ring_used s
used_length s = length-read_out (ring_used s) s.rx s.rx_tail

-- The loop that discards bytes of the ring.
discard_lem :
    (n : ℕ) (s : Socket) → IsRing s → n ≤ ring_used s → Holds s (drop n (stored s)) (discard n s)
unfolding discard
discard_lem zero s r l = (r, refl, refl)
discard_lem (suc n) s r l =
    let s1 = (ring_read s 1).1 in
    let (byte, (r1, bytes1, count1)) = ring_read_lem s 1 r (omega (arith, l)) in
    let left : ring_used s1 ≡ ring_used s - 1 =
      sym (used_length s1)
      ∙ ap length bytes1
      ∙ length-drop 1 (stored s)
      ∙ ap (λ k. k - 1) (used_length s) in
    let (r2, bytes2, count2) = discard_lem n s1 r1 (omega (arith, left, l)) in
    let e : 1 + n ≡ suc n = omega arith in
    (
      r2,
      bytes2 ∙ ap (drop n) bytes1 ∙ drop-drop n 1 (stored s) ∙ ap (λ k. drop k (stored s)) e,
      count2 ∙ count1,
    )

-- How much of a record of `total` bytes fits a buffer.
abbrev fitting : ℕ → ℕ → ℕ
fitting total len = if ltb total len then total else len

take-fitting : (len : ℕ) (bs ys : List ℕ) → take (fitting (length bs) len) (bs ++ ys) ≡ take len bs
take-fitting len bs ys = elim (Bool-cases (ltb (length bs) len)) [
  | inl e ↦ rw e (take-append bs ys ∙ sym (take-all len bs (ground (arith, e))))
  | inr e ↦ rw e (take-inside len bs ys (ground (arith, e)))
]

-- What framed_pop did with the first record.
abbrev pub Popped : ℕ → ℕ → List ℕ → List (ℕ × List ℕ) → Option ((List ℕ × ℕ) × Socket) → Type 0
Popped len src bs rs none = ⊥
Popped len src bs rs (some ((bytes, from), s')) =
    (bytes ≡ take len bs) × (from ≡ src) × IsFramed s' rs

framed_pop-some :
    (s : Socket) (len total src : ℕ) (h : List ℕ)
    → (s.msg_cnt == 0) ≡ false
    → (ring_read s rec_hdr_size).0 ≡ h
    → le_value (take 4 h) ≡ total
    → le_value (drop 8 h) ≡ src
    → let s1 = record ((ring_read s rec_hdr_size).1) { msg_cnt = s.msg_cnt - 1 } in
      let out = ring_read s1 (fitting total len) in
      framed_pop s len ≡ some ((out.0, src), discard (total - fitting total len) (out.1))
unfolding framed_pop
framed_pop-some s len total src h e a b c = rw (← c, ← b, ← a, e) refl

-- framed_pop returns the first record, cut to the buffer, with its sender; the others stay as they are.
pub framed_pop_lem :
    (s : Socket) (src : ℕ) (bs : List ℕ) (rs : List (ℕ × List ℕ)) (len : ℕ)
    → IsFramed s ((src, bs) ∷ rs)
    → Popped len src bs rs (framed_pop s len)
framed_pop_lem s src bs rs len h =
    let head = header_bytes (length bs) src in
    let rest = bs ++ encode_all rs in
    let n = fitting (length bs) len in
    let all : stored s ≡ head ++ rest = h.bytes ∙ append_assoc head bs (encode_all rs) in
    let size_head = length-header_bytes (length bs) src in
    let size : ring_used s ≡ rec_hdr_size + (length bs + length (encode_all rs)) =
      sym (used_length s)
      ∙ ap length all
      ∙ length-append head rest
      ∙ omega (arith, size_head, length-append bs (encode_all rs)) in
    let (first, (r1, bytes1, count1)) = ring_read_lem s rec_hdr_size h.ring (omega (arith, size)) in
    let s1 = record ((ring_read s rec_hdr_size).1) { msg_cnt = s.msg_cnt - 1 } in
    let left1 : stored s1 ≡ rest =
      bytes1
      ∙ ap (drop rec_hdr_size) all
      ∙ ap (λ k. drop k (head ++ rest)) (sym size_head)
      ∙ drop-append head rest in
    let head_read : (ring_read s rec_hdr_size).0 ≡ head =
      first
      ∙ ap (take rec_hdr_size) all
      ∙ ap (λ k. take k (head ++ rest)) (sym size_head)
      ∙ take-append head rest in
    let used1 : ring_used s1 ≡ length bs + length (encode_all rs) =
      sym (used_length s1) ∙ ap length left1 ∙ length-append bs (encode_all rs) in
    let within : n ≤ length bs = ground arith in
    let (second, (r2, bytes2, count2)) = ring_read_lem s1 n r1 (omega (arith, used1, within)) in
    let s2 = (ring_read s1 n).1 in
    let used2 : ring_used s2 ≡ ring_used s1 - n =
      sym (used_length s2)
      ∙ ap length bytes2
      ∙ length-drop n (stored s1)
      ∙ ap (λ k. k - n) (used_length s1) in
    let (r3, bytes3, count3) =
      discard_lem (length bs - n) s2 r2 (omega (arith, used2, used1, within)) in
    let hit =
      framed_pop-some s len (length bs) src head (ground (arith, h.count)) head_read
        (header_len (length bs) src (omega (arith, size, h.ring)))
        (header_src (length bs) src (h.senders.0)) in
    subst (Popped len src bs rs) (sym hit) (
      second ∙ ap (take n) left1 ∙ take-fitting len bs (encode_all rs),
      refl,
      record {
        ring = r3;
        bytes =
            bytes3
            ∙ ap (drop (length bs - n)) bytes2
            ∙ drop-drop (length bs - n) n (stored s1)
            ∙ ap (λ k. drop k (stored s1)) (omega (arith, within))
            ∙ ap (drop (length bs)) left1
            ∙ drop-append bs (encode_all rs);
        count = omega (arith, count3, count2, h.count);
        senders = h.senders.1;
      },
    )
