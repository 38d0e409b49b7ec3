-- ===== src/Net/Arp.antt =====
-- src/kernel/net/arp.c: the cache of hardware addresses and the packets that fill it. A MAC address is the list of
-- its bytes; `now` is the uptime in milliseconds, 32 bits of it. A packet that is sent is a result.
pub mod Scan
pub mod Cache
pub mod Wire
pub mod Exchange
mod Tests
use kil0y_os.Prelude.{
  ℕ, zero, suc, ◌+◌, ◌-◌, ◌*◌, ◌/◌, ◌%◌, ◌^◌, Bool, true, false, not, ◌&&◌, ◌||◌, Option, none,
  some, List, [], ◌∷◌, map, length, ◌++◌, set, get_elem?, get_or, take, drop, replicate, ltb, leb,
  ◌==◌, if◌then◌else◌,
}
use Prim.Native.Nat.{bit_and}

-- arp_entry_t
pub record Entry : Type 0 where
  pub ip : ℕ
  pub mac : List ℕ
  pub valid : Bool
  pub timestamp : ℕ

pub record Arp : Type 0 where
  pub cache : List Entry
  pub next_victim : ℕ

-- arp_packet_t, its numbers in host order.
pub record Packet : Type 0 where
  pub htype : ℕ
  pub ptype : ℕ
  pub hlen : ℕ
  pub plen : ℕ
  pub oper : ℕ
  pub sha : List ℕ
  pub spa : ℕ
  pub tha : List ℕ
  pub tpa : ℕ

-- The fields of netif_t that ARP reads.
pub record Interface : Type 0 where
  pub ip : ℕ
  pub mac : List ℕ
  pub netmask : ℕ
  pub gateway : ℕ

abbrev pub cache_size : ℕ
cache_size = 16

abbrev pub timeout_ms : ℕ
timeout_ms = 30000

abbrev pub packet_size : ℕ
packet_size = 28

abbrev pub arp_init : Arp → Arp
arp_init a = record a {
  cache = map (λ (e : Entry). record e { valid = false }) a.cache;
  next_victim = 0;
}

abbrev pub is_old : Entry → ℕ → Bool
is_old e now = ltb timeout_ms ((now + 2 ^ 32 - e.timestamp) % 2 ^ 32)

-- The loop of arp_find from index `i` on: the cache with old entries dropped on the way, and the index.
unfoldable pub find_from : List Entry → ℕ → ℕ → ℕ → List Entry × Option ℕ
find_from [] ip now i = ([], none)
find_from (e ∷ es) ip now i =
    let rest = find_from es ip now (i + 1) in
    if not e.valid
    then (e ∷ rest.0, rest.1)
    else (if is_old e now
        then (record e { valid = false } ∷ rest.0, rest.1)
        else (if e.ip == ip then (e ∷ es, some i) else (e ∷ rest.0, rest.1)))

abbrev pub arp_find : Arp → ℕ → ℕ → Arp × Option ℕ
arp_find a ip now =
    (record a { cache = (find_from a.cache ip now 0).0 }, (find_from a.cache ip now 0).1)

-- The first entry that is not valid.
unfoldable pub free_entry : List Entry → ℕ → Option ℕ
free_entry [] i = none
free_entry (e ∷ es) i = let rest = free_entry es (i + 1) in if e.valid then rest else some i

abbrev pub fresh_entry : ℕ → List ℕ → ℕ → Entry
fresh_entry ip mac now = record { ip = ip; mac = mac; valid = true; timestamp = now }

unfoldable pub arp_cache_update : Arp → ℕ → List ℕ → ℕ → Arp
arp_cache_update a ip mac now =
    let b = (arp_find a ip now).0 in
    let new = fresh_entry ip mac now in
    elim ((arp_find a ip now).1) [
      | some i ↦ record b { cache = set b.cache i new }
      | none ↦ elim (free_entry b.cache 0) [
        | some i ↦ record b { cache = set b.cache i new }
        | none ↦ record b {
          cache = set b.cache b.next_victim new;
          next_victim = (b.next_victim + 1) % 256 % cache_size;
        }
      ]
    ]

-- A number in network order.
abbrev pub be : List ℕ → ℕ → ℕ
be [] n = n
be (b ∷ bs) n = be bs (n * 256 + b)

abbrev pub field : List ℕ → ℕ → ℕ → ℕ
field input at size = be (take size (drop at input)) 0

abbrev pub parse_packet : List ℕ → Packet
parse_packet input = record {
  htype = field input 0 2;
  ptype = field input 2 2;
  hlen = field input 4 1;
  plen = field input 5 1;
  oper = field input 6 2;
  sha = take 6 (drop 8 input);
  spa = field input 14 4;
  tha = take 6 (drop 18 input);
  tpa = field input 24 4;
}

abbrev pub bytes_2 : ℕ → List ℕ
bytes_2 n = n / 256 % 256 ∷ n % 256 ∷ []

abbrev pub bytes_4 : ℕ → List ℕ
bytes_4 n = n / 2 ^ 24 % 256 ∷ n / 2 ^ 16 % 256 ∷ n / 256 % 256 ∷ n % 256 ∷ []

-- The bytes of a packet that is given to eth_transmit.
abbrev pub print_packet : Packet → List ℕ
print_packet p =
    bytes_2 p.htype
    ++ (bytes_2 p.ptype
        ++ ((p.hlen % 256)
            ∷ (p.plen % 256)
            ∷ (bytes_2 p.oper ++ (p.sha ++ (bytes_4 p.spa ++ (p.tha ++ bytes_4 p.tpa))))))

abbrev pub reply_to : Interface → Packet → Packet
reply_to iface p = record {
  htype = p.htype;
  ptype = p.ptype;
  hlen = 6;
  plen = 4;
  oper = 2;
  sha = iface.mac;
  spa = iface.ip;
  tha = p.sha;
  tpa = p.spa;
}

-- The cache, and the reply that goes to the sender.
unfoldable pub arp_receive : Arp → Interface → List ℕ → ℕ → Arp × Option Packet
arp_receive a iface input now =
    let p = parse_packet input in
    let for_us = (p.oper == 1) && (p.tpa == iface.ip) in
    let learned = if (p.oper == 2) || for_us then arp_cache_update a p.spa p.sha now else a in
    if ltb (length input) packet_size || not (p.htype == 1) || not (p.ptype == 0x800)
    then (a, none)
    else (learned, if for_us then some (reply_to iface p) else none)

abbrev pub arp_send_request : Interface → ℕ → Packet
arp_send_request iface target = record {
  htype = 1;
  ptype = 0x800;
  hlen = 6;
  plen = 4;
  oper = 1;
  sha = iface.mac;
  spa = iface.ip;
  tha = replicate 6 0;
  tpa = target;
}

-- The address that arp_resolve asks for: the gateway's for an address outside the network.
pub next_hop : Interface → ℕ → ℕ
next_hop iface ip =
    if not (bit_and iface.ip iface.netmask == bit_and ip iface.netmask) && not (iface.gateway == 0)
    then iface.gateway
    else ip

-- arp_get_cache
pub count_valid : List Entry → ℕ
count_valid [] = 0
count_valid (e ∷ es) = (if e.valid then 1 else 0) + count_valid es
