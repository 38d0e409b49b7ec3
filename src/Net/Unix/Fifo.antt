-- ===== src/Net/Unix/Fifo.antt =====
-- The receive ring of a Unix socket (src/kernel/net/unix_sock.c) as a queue of bytes.
use kil0y_os.Prelude.{
  ℕ, zero, suc, ◌+◌, ◌-◌, ◌%◌, ◌^◌, ◌≤◌, ◌<◌, ◌≡◌, ◌≢◌, refl, ap, sym, ◌∙◌, List, [], ◌∷◌, ◌++◌,
  take, drop, length, update, arith, append_assoc, append-nil, take-append, drop-append,
}
use kil0y_os.Net.Unix.{
  Socket, rx_sz, ring_used, ring_space, put_bytes, get_bytes, ring_write, ring_read,
}

-- The positions of the ring agree with the absolute ones, and no more bytes are used than it has.
abbrev pub IsRing : Socket → Type 0
IsRing s =
    (s.rx_tail < rx_sz)
    × (ring_used s ≤ rx_sz)
    × (s.rx_head ≡ (s.rx_tail + ring_used s) % rx_sz)
    × (s.abs_head < 2 ^ 64)
    × (s.abs_tail < 2 ^ 64)

-- The next `n` bytes from a position.
unfoldable pub read_out : (ℕ → ℕ) → ℕ → ℕ → List ℕ
read_out m t zero = []
read_out m t (suc n) = m t ∷ read_out m ((t + 1) % rx_sz) n

-- The bytes that are written and not yet read.
abbrev pub stored : Socket → List ℕ
stored s = read_out s.rx s.rx_tail (ring_used s)

get_bytes-read_out :
    (n : ℕ) (m : ℕ → ℕ) (t : ℕ)
    → t < rx_sz
    → ((get_bytes n m t).0 ≡ read_out m t n) × ((get_bytes n m t).1 ≡ (t + n) % rx_sz)
unfolding get_bytes read_out
get_bytes-read_out zero m t l = (refl, omega (arith, l))
get_bytes-read_out (suc n) m t l =
    let (bs, last) = get_bytes-read_out n m ((t + 1) % rx_sz) (omega arith) in
    (ap (λ xs. m t ∷ xs) bs, omega (arith, last))

read_out-split :
    (a b : ℕ) (m : ℕ → ℕ) (t : ℕ)
    → t < rx_sz
    → read_out m t (a + b) ≡ read_out m t a ++ read_out m ((t + a) % rx_sz) b
unfolding read_out
read_out-split zero b m t l =
    let e : (t + 0) % rx_sz ≡ t = omega (arith, l) in
    let f : 0 + b ≡ b = omega arith in rw (f, e) refl
read_out-split (suc a) b m t l =
    let e : suc a + b ≡ suc (a + b) = omega arith in
    let f : (t + suc a) % rx_sz ≡ ((t + 1) % rx_sz + a) % rx_sz = omega arith in
    rw (e, f) (ap (λ xs. m t ∷ xs) (read_out-split a b m ((t + 1) % rx_sz) (omega arith)))

pub length-read_out : (n : ℕ) (m : ℕ → ℕ) (t : ℕ) → length (read_out m t n) ≡ n
unfolding read_out
length-read_out zero m t = refl
length-read_out (suc n) m t = ap suc (length-read_out n m ((t + 1) % rx_sz))

-- A write outside of the bytes that wait leaves them.
read_out-update :
    (n : ℕ) (m : ℕ → ℕ) (t h b : ℕ)
    → t < rx_sz
    → n < rx_sz
    → h ≡ (t + n) % rx_sz
    → read_out (update m h b) t n ≡ read_out m t n
unfolding read_out
read_out-update zero m t h b l k e = refl
read_out-update (suc n) m t h b l k e =
    let ne : h ≢ t = λ q. absurd (omega (arith, q, e, l, k)) in
    let here : update m h b t ≡ m t = ground (arith, ne) in
    let rest =
      read_out-update n m ((t + 1) % rx_sz) h b (omega arith) (omega (arith, k))
        (omega (arith, e)) in
    ap (λ x. x ∷ read_out (update m h b) ((t + 1) % rx_sz) n) here ∙ ap (λ xs. m t ∷ xs) rest

written : (m : ℕ → ℕ) (b h t : ℕ) → h ≡ t → read_out (update m h b) t 1 ≡ b ∷ []
unfolding read_out
written m b h t e = ap (λ x. x ∷ []) (ground (arith, e))

-- ring_write's loop behind `n` bytes that wait.
put_bytes-append :
    (bs : List ℕ) (m : ℕ → ℕ) (t n h : ℕ)
    → t < rx_sz
    → n + length bs ≤ rx_sz
    → h ≡ (t + n) % rx_sz
    → (read_out ((put_bytes m h bs).0) t (n + length bs) ≡ read_out m t n ++ bs)
      × ((put_bytes m h bs).1 ≡ (t + (n + length bs)) % rx_sz)
unfolding put_bytes
put_bytes-append [] m t n h l k e =
    let f : n + 0 ≡ n = omega arith in rw f (sym (append-nil (read_out m t n)), e)
put_bytes-append (b ∷ bs) m t n h l k e =
    let m' = update m h b in
    let (rest, last) =
      put_bytes-append bs m' t (n + 1) ((h + 1) % rx_sz) l (omega (arith, k)) (omega (arith, e)) in
    let f : n + suc (length bs) ≡ n + 1 + length bs = omega arith in
    let last_byte : read_out m' ((t + n) % rx_sz) 1 ≡ b ∷ [] = written m b h ((t + n) % rx_sz) e in
    let one : read_out m' t (n + 1) ≡ read_out m t n ++ (b ∷ []) =
      read_out-split n 1 m' t l
      ∙ ap (λ xs. xs ++ read_out m' ((t + n) % rx_sz) 1)
          (read_out-update n m t h b l (omega (arith, k)) e)
      ∙ ap (λ xs. read_out m t n ++ xs) last_byte in
    rw f (rest ∙ ap (λ xs. xs ++ bs) one ∙ append_assoc (read_out m t n) (b ∷ []) bs, last)

-- Whether `s'` is `s` with other bytes waiting.
abbrev pub Holds : Socket → List ℕ → Socket → Type 0
Holds s bytes s' = IsRing s' × (stored s' ≡ bytes) × (s'.msg_cnt ≡ s.msg_cnt)

-- ring_write puts bytes for which there is space behind those that wait.
pub ring_write_lem :
    (s : Socket) (input : List ℕ)
    → IsRing s
    → length input ≤ ring_space s
    → Holds s (stored s ++ input) (ring_write s input)
ring_write_lem s input (t, u, h, a, b) room =
    let n = ring_used s in
    let fits : n + length input ≤ rx_sz = omega (arith, u, room) in
    let (bytes, last) = put_bytes-append input s.rx s.rx_tail n s.rx_head t fits h in
    let used : ring_used (ring_write s input) ≡ n + length input = omega (arith, u, fits, a, b) in
    (
      (
        t,
        omega (arith, used, fits),
        last ∙ ap (λ k. (s.rx_tail + k) % rx_sz) (sym used),
        omega arith,
        b,
      ),
      ap (read_out (ring_write s input).rx s.rx_tail) used ∙ bytes,
      refl,
    )

-- ring_read takes the oldest bytes.
pub ring_read_lem :
    (s : Socket) (n : ℕ)
    → IsRing s
    → n ≤ ring_used s
    → ((ring_read s n).0 ≡ take n (stored s)) × Holds s (drop n (stored s)) ((ring_read s n).1)
ring_read_lem s n (t, u, h, a, b) l =
    let m = ring_used s - n in
    let whole : ring_used s ≡ n + m = omega (arith, l) in
    let (bytes, last) = get_bytes-read_out n s.rx s.rx_tail t in
    let used : ring_used ((ring_read s n).1) ≡ m = omega (arith, u, l, a, b) in
    let both : stored s ≡ read_out s.rx s.rx_tail n ++ read_out s.rx ((s.rx_tail + n) % rx_sz) m =
      ap (read_out s.rx s.rx_tail) whole ∙ read_out-split n m s.rx s.rx_tail t in
    let size : length (read_out s.rx s.rx_tail n) ≡ n = length-read_out n s.rx s.rx_tail in
    let rest = read_out s.rx ((s.rx_tail + n) % rx_sz) m in
    let first : take n (stored s) ≡ read_out s.rx s.rx_tail n =
      ap (take n) both
      ∙ ap (λ k. take k (read_out s.rx s.rx_tail n ++ rest)) (sym size)
      ∙ take-append (read_out s.rx s.rx_tail n) rest in
    let others : drop n (stored s) ≡ rest =
      ap (drop n) both
      ∙ ap (λ k. drop k (read_out s.rx s.rx_tail n ++ rest)) (sym size)
      ∙ drop-append (read_out s.rx s.rx_tail n) rest in
    let s' = (ring_read s n).1 in
    (
      bytes ∙ sym first,
      (
        (
          omega (arith, last),
          omega (arith, used, u, l),
          omega (arith, used, last, h, whole, t),
          a,
          omega arith,
        ),
        ap (read_out s.rx s'.rx_tail) used ∙ ap (λ k. read_out s.rx k m) last ∙ sym others,
        refl,
      ),
    )
