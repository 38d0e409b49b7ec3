-- ===== src/Net/Arp/Wire.antt =====
-- The bytes of an ARP packet of src/kernel/net/arp.c, printed and parsed.
use kil0y_os.Prelude.{
  ℕ, ◌%◌, ◌^◌, ◌<◌, ◌≡◌, refl, ◌∙◌, subst, List, [], ◌∷◌, length, ◌++◌, arith, length-append,
}
use kil0y_os.Net.Arp.{Packet, be, parse_packet, print_packet, bytes_2, bytes_4, packet_size}

-- The numbers of a packet fit their fields, and its hardware addresses have six bytes.
pub record Fits (p : Packet) : Type 0 where
  pub htype : p.htype < 2 ^ 16
  pub ptype : p.ptype < 2 ^ 16
  pub hlen : p.hlen < 2 ^ 8
  pub plen : p.plen < 2 ^ 8
  pub oper : p.oper < 2 ^ 16
  pub sha : length p.sha ≡ 6
  pub spa : p.spa < 2 ^ 32
  pub tha : length p.tha ≡ 6
  pub tpa : p.tpa < 2 ^ 32

SixBytes : List ℕ → Type 0
SixBytes xs =
    (a : ℕ) × (b : ℕ) × (c : ℕ) × (d : ℕ) × (e : ℕ) × (f : ℕ) × (a ∷ b ∷ c ∷ d ∷ e ∷ f ∷ [] ≡ xs)

six : (xs : List ℕ) → length xs ≡ 6 → SixBytes xs
unfolding SixBytes
six [] l = absurd (omega (arith, l))
six (a ∷ []) l = absurd (omega (arith, l))
six (a ∷ b ∷ []) l = absurd (omega (arith, l))
six (a ∷ b ∷ c ∷ []) l = absurd (omega (arith, l))
six (a ∷ b ∷ c ∷ d ∷ []) l = absurd (omega (arith, l))
six (a ∷ b ∷ c ∷ d ∷ e ∷ []) l = absurd (omega (arith, l))
six (a ∷ b ∷ c ∷ d ∷ e ∷ f ∷ []) l = (a, b, c, d, e, f, refl)
six (a ∷ b ∷ c ∷ d ∷ e ∷ f ∷ g ∷ xs) l = absurd (omega (arith, l))

be_2 : (n : ℕ) → n < 2 ^ 16 → be (bytes_2 n) 0 ≡ n
be_2 n l = omega (arith, l)

be_4 : (n : ℕ) → n < 2 ^ 32 → be (bytes_4 n) 0 ≡ n
be_4 n l = omega (arith, l)

be_1 : (n : ℕ) → n < 2 ^ 8 → be (n % 256 ∷ []) 0 ≡ n
be_1 n l = omega (arith, l)

abbrev pack : ℕ → ℕ → ℕ → ℕ → ℕ → List ℕ → ℕ → List ℕ → ℕ → Packet
pack htype ptype hlen plen oper sha spa tha tpa = record {
  htype = htype;
  ptype = ptype;
  hlen = hlen;
  plen = plen;
  oper = oper;
  sha = sha;
  spa = spa;
  tha = tha;
  tpa = tpa;
}

-- The fields of a printed packet with its bytes written out.
parse-print :
    (p : Packet)
    → SixBytes p.sha
    → SixBytes p.tha
    → parse_packet (print_packet p)
      ≡ pack
          (be (bytes_2 p.htype) 0)
          (be (bytes_2 p.ptype) 0)
          (be (p.hlen % 256 ∷ []) 0)
          (be (p.plen % 256 ∷ []) 0)
          (be (bytes_2 p.oper) 0)
          p.sha
          (be (bytes_4 p.spa) 0)
          p.tha
          (be (bytes_4 p.tpa) 0)
unfolding SixBytes
parse-print p (a, b, c, d, e, f, q) (a', b', c', d', e', f', q') =
    let at : List ℕ → List ℕ → Packet =
      λ sha tha. pack p.htype p.ptype p.hlen p.plen p.oper sha p.spa tha p.tpa in
    let goal : List ℕ → List ℕ → Type 0 = λ sha tha.
      parse_packet (print_packet (at sha tha))
      ≡ pack (be (bytes_2 p.htype) 0) (be (bytes_2 p.ptype) 0) (be (p.hlen % 256 ∷ []) 0)
          (be (p.plen % 256 ∷ []) 0) (be (bytes_2 p.oper) 0) sha (be (bytes_4 p.spa) 0) tha
          (be (bytes_4 p.tpa) 0) in
    let both : goal (a ∷ b ∷ c ∷ d ∷ e ∷ f ∷ []) (a' ∷ b' ∷ c' ∷ d' ∷ e' ∷ f' ∷ []) = refl in
    subst (λ x. goal x p.tha) q (subst (λ y. goal (a ∷ b ∷ c ∷ d ∷ e ∷ f ∷ []) y) q' both)

-- A packet that fits is what its bytes are read as.
pub parse_packet-print_packet : (p : Packet) → Fits p → parse_packet (print_packet p) ≡ p
parse_packet-print_packet p fits =
    parse-print p (six p.sha fits.sha) (six p.tha fits.tha)
    ∙ rw
        (
          be_2 p.htype fits.htype,
          be_2 p.ptype fits.ptype,
          be_1 p.hlen fits.hlen,
          be_1 p.plen fits.plen,
          be_2 p.oper fits.oper,
          be_4 p.spa fits.spa,
          be_4 p.tpa fits.tpa,
        )
        refl

pub length-print_packet : (p : Packet) → Fits p → length (print_packet p) ≡ packet_size
length-print_packet p fits =
    let tail = length-append p.tha (bytes_4 p.tpa) in
    let rest = length-append p.sha (bytes_4 p.spa ++ (p.tha ++ bytes_4 p.tpa)) in
    omega (arith, tail, rest, fits.sha, fits.tha)
