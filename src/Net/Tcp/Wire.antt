-- ===== src/Net/Tcp/Wire.antt =====
-- The segments of src/kernel/net/tcp.c on the wire: what one end builds, the other accepts and reads back.
use kil0y_os.Prelude.{
  ℕ, ◌+◌, ◌-◌, ◌*◌, ◌/◌, ◌%◌, ◌^◌, ◌≤◌, ◌<◌, ◌≡◌, refl, ap, ◌∙◌, List, [], ◌∷◌, ◌++◌, length, arith,
}
use kil0y_os.Net.Tcp.{
  Socket, add_words, fold, fold_all, pseudo_header, tcp_checksum, header, segment,
}
use kil0y_os.Net.Tcp.Rx.{Arrival, parse}

abbrev pub AreBytes : List ℕ → Type 0
AreBytes [] = 0 ≤ 0
AreBytes (b ∷ bytes) = (b < 256) × AreBytes bytes

-- The sum of the words without a bound.
words : List ℕ → ℕ
words [] = 0
words (a ∷ []) = a
words (a ∷ b ∷ bytes) = a + b * 256 + words bytes

words-le : (bytes : List ℕ) → AreBytes bytes → words bytes ≤ 65535 * length bytes
unfolding words
words-le [] k = omega arith
words-le (a ∷ []) (p, k) = omega (arith, p)
words-le (a ∷ b ∷ bytes) (p, (q, k)) = omega (arith, p, q, words-le bytes k)

add_words_lem :
    (sum : ℕ) (bytes : List ℕ)
    → sum + words bytes < 2 ^ 32
    → add_words sum bytes ≡ sum + words bytes
unfolding add_words words
add_words_lem sum [] h = omega arith
add_words_lem sum (a ∷ []) h = omega (arith, h)
add_words_lem sum (a ∷ b ∷ bytes) h =
    let small : (sum + (a + b * 256)) % 2 ^ 32 ≡ sum + (a + b * 256) = omega (arith, h) in
    ap (λ n. add_words n bytes) small
    ∙ add_words_lem (sum + (a + b * 256)) bytes (omega (arith, h))
    ∙ omega arith

-- Folding keeps the value modulo 65535, and leaves 16 bits.
fold_all_lem :
    (x : ℕ)
    → x < 2 ^ 32
    → ((k : ℕ) × (x ≡ fold_all x + 65535 * k)) × (fold_all x ≤ 65535) × (0 < x → 0 < fold_all x)
fold_all_lem x h = (
  (x / 65536 + fold x / 65536 + fold (fold x) / 65536, omega (arith, h)),
  omega (arith, h),
  λ p. omega (arith, h, p),
)

all_ones :
    (x f g k m : ℕ)
    → x ≡ f + 65535 * k
    → f ≤ 65535
    → x + (65535 - f) ≡ g + 65535 * m
    → g ≤ 65535
    → (0 < x + (65535 - f) → 0 < g)
    → g ≡ 65535
all_ones x f g k m p l q l' pos =
    let some : 0 < g = pos (omega (arith, p, l)) in omega (arith, p, l, q, l', some)

-- A sum with its complement folds to all ones.
fold_all-complement : (x : ℕ) → x + 65535 < 2 ^ 32 → fold_all (x + (65535 - fold_all x)) ≡ 65535
fold_all-complement x h =
    let a = fold_all_lem x (omega (arith, h)) in
    let b = fold_all_lem (x + (65535 - fold_all x)) (omega (arith, h)) in
    all_ones x (fold_all x) (fold_all (x + (65535 - fold_all x))) a.0.0 b.0.0 a.0.1 a.1 b.0.1 b.1
      b.2

-- The fields of a socket that go into a segment fit theirs.
pub record FitsWire (ip : ℕ) (s : Socket) (seq flags : ℕ) : Type 0 where
  pub local_port : s.local_port < 2 ^ 16
  pub remote_port : s.remote_port < 2 ^ 16
  pub remote_ip : s.remote_ip < 2 ^ 32
  pub rcv_nxt : s.rcv_nxt < 2 ^ 32
  pub own_ip : ip < 2 ^ 32
  pub number : seq < 2 ^ 32
  pub bits : flags < 2 ^ 8

module _ (ip : ℕ) (s : Socket) (seq flags : ℕ) (payload : List ℕ) (w : FitsWire ip s seq flags)
    (k : AreBytes payload) (l : length payload ≤ 2004) where
  -- The words before the checksum is written, pseudo header included.
  abbrev plain : ℕ
  plain =
      words (pseudo_header ip s.remote_ip (24 + length payload))
      + words (header s seq flags 0 ++ payload)

  header-words :
      (c : ℕ)
      → c < 2 ^ 16
      → words (header s seq flags c ++ payload) ≡ words (header s seq flags 0 ++ payload) + c
  unfolding words
  header-words c h = omega (arith, h)

  plain-lt : plain < 2 ^ 31
  unfolding words
  plain-lt = omega (arith, w.bits, words-le payload k, l)

  sum-lem :
      (c : ℕ)
      → c < 2 ^ 16
      → add_words
          (add_words 0 (pseudo_header ip s.remote_ip (24 + length payload)))
          (header s seq flags c ++ payload)
        ≡ plain + c
  sum-lem c h =
      let first =
        add_words_lem 0 (pseudo_header ip s.remote_ip (24 + length payload))
          (omega (arith, plain-lt)) in
      ap (λ n. add_words n (header s seq flags c ++ payload)) first
      ∙ add_words_lem (0 + words (pseudo_header ip s.remote_ip (24 + length payload)))
          (header s seq flags c ++ payload) (omega (arith, plain-lt, header-words c h, h))
      ∙ omega (arith, header-words c h)

  -- The length does not depend on the checksum.
  length-header : (c : ℕ) → length (header s seq flags c ++ payload) ≡ 24 + length payload
  length-header c = omega arith

  tcp_checksum-header :
      (c : ℕ)
      → c < 2 ^ 16
      → tcp_checksum ip s.remote_ip (header s seq flags c ++ payload) ≡ 65535 - fold_all (plain + c)
  unfolding tcp_checksum
  tcp_checksum-header c h =
      ap
        (λ n.
          65535
          - fold_all (
              add_words (add_words 0 (pseudo_header ip s.remote_ip n))
                (header s seq flags c ++ payload)))
        (length-header c)
      ∙ ap (λ n. 65535 - fold_all n) (sum-lem c h)

  abbrev sealed : ℕ
  sealed = tcp_checksum ip s.remote_ip (header s seq flags 0 ++ payload)

  sealed-lem : sealed ≡ 65535 - fold_all plain
  sealed-lem =
      tcp_checksum-header 0 (omega arith)
      ∙ ap (λ n. 65535 - fold_all n) {x = plain + 0} {y = plain} (omega arith)

  accepted : tcp_checksum ip s.remote_ip (header s seq flags sealed ++ payload) ≡ 0
  accepted =
      tcp_checksum-header sealed (omega (arith, sealed-lem))
      ∙ ap (λ n. 65535 - fold_all (plain + n)) sealed-lem
      ∙ ap (λ n. 65535 - n) (fold_all-complement plain (omega (arith, plain-lt)))

  -- The header that the other end reads.
  abbrev pub ReadBack : Arrival → Type 0
  ReadBack h =
      (h.src_port ≡ s.local_port)
      × (h.dst_port ≡ s.remote_port)
      × (h.seq ≡ seq)
      × (h.ack ≡ s.rcv_nxt)
      × (h.off ≡ 24)
      × (h.flags ≡ flags)
      × (h.payload ≡ payload)

  -- A segment built by tcp_transmit_seg with a payload of at most 2004 bytes passes the receiver's
  -- checksum test, and the receiver reads back its ports, numbers, flags and payload.
  pub segment_lem :
      (tcp_checksum ip s.remote_ip (segment ip s seq flags payload) ≡ 0)
      × ReadBack (parse (segment ip s seq flags payload))
  unfolding segment parse
  segment_lem = (
    accepted,
    (
      omega (arith, w.local_port),
      omega (arith, w.remote_port),
      omega (arith, w.number),
      omega (arith, w.rcv_nxt),
      refl,
      refl,
      refl,
    ),
  )
