-- ===== src/Net/Arp/Exchange.antt =====
-- One exchange of src/kernel/net/arp.c: the request of one host, received by another, and its reply.
use kil0y_os.Prelude.{
  ℕ, ◌^◌, ◌<◌, ◌≡◌, refl, ap, ◌∙◌, not, ◌&&◌, ◌||◌, length, ◌==◌, ltb, if◌then◌else◌, Option, none,
  some, arith,
}
use kil0y_os.Net.Arp.{
  Arp, Interface, Packet, parse_packet, reply_to, arp_receive, arp_cache_update, arp_send_request,
  print_packet, packet_size,
}
use kil0y_os.Net.Arp.Wire.{Fits, parse_packet-print_packet, length-print_packet}
use kil0y_os.Net.Arp.Scan.{mac_at}
use kil0y_os.Net.Arp.Cache.{arp_cache_update_lem}

handle_parsed : Arp → Interface → ℕ → Packet → ℕ → Arp × Option Packet
handle_parsed a iface size p now =
    let for_us = (p.oper == 1) && (p.tpa == iface.ip) in
    let learned = if (p.oper == 2) || for_us then arp_cache_update a p.spa p.sha now else a in
    if ltb size packet_size || not (p.htype == 1) || not (p.ptype == 0x800)
    then (a, none)
    else (learned, if for_us then some (reply_to iface p) else none)

-- arp_receive of a packet's bytes.
arp_receive-print_packet :
    (a : Arp) (iface : Interface) (p : Packet) (now : ℕ)
    → Fits p
    → arp_receive a iface (print_packet p) now ≡ handle_parsed a iface packet_size p now
unfolding arp_receive handle_parsed
arp_receive-print_packet a iface p now fits =
    ap (λ n. handle_parsed a iface n (parse_packet (print_packet p)) now)
      (length-print_packet p fits)
    ∙ ap (λ q. handle_parsed a iface packet_size q now) (parse_packet-print_packet p fits)

handle_reply :
    (a : Arp) (iface : Interface) (p : Packet) (now : ℕ)
    → p.htype ≡ 1
    → p.ptype ≡ 0x800
    → p.oper ≡ 2
    → handle_parsed a iface packet_size p now ≡ (arp_cache_update a p.spa p.sha now, none)
unfolding handle_parsed
handle_reply a iface p now t y o = ground (arith, t, y, o)

handle_request :
    (a : Arp) (iface : Interface) (p : Packet) (now : ℕ)
    → p.htype ≡ 1
    → p.ptype ≡ 0x800
    → p.oper ≡ 1
    → p.tpa ≡ iface.ip
    → handle_parsed a iface packet_size p now
      ≡ (arp_cache_update a p.spa p.sha now, some (reply_to iface p))
unfolding handle_parsed
handle_request a iface p now t y o q = ground (arith, t, y, o, q)

-- An interface whose address and hardware address have their sizes.
abbrev pub IsInterface : Interface → Type 0
IsInterface i = (i.ip < 2 ^ 32) × (length i.mac ≡ 6)

-- What the exchange leaves: the owner's reply, and the two entries.
abbrev pub Exchanged : Arp → Arp → Interface → Interface → ℕ → ℕ → Type 0
Exchanged asker owner i j now later =
    let request = print_packet (arp_send_request i j.ip) in
    (reply : Packet) × ((arp_receive owner j request now).1 ≡ some reply)
    × (mac_at (arp_receive owner j request now).0.cache i.ip now ≡ some i.mac)
    × (mac_at (arp_receive asker i (print_packet reply) later).0.cache j.ip later ≡ some j.mac)

-- The request of one host for the address of another, sent as bytes: the other host's reply, sent as bytes, gives the
-- first host its hardware address, and the request gives the other host that of the first, if the addresses fit
-- their fields and the next victims of both caches are entries.
pub arp_exchange :
    (asker owner : Arp) (i j : Interface) (now later : ℕ)
    → IsInterface i
    → IsInterface j
    → asker.next_victim < length asker.cache
    → owner.next_victim < length owner.cache
    → Exchanged asker owner i j now later
arp_exchange asker owner i j now later (li, mi) (lj, mj) va vo =
    let request = arp_send_request i j.ip in
    let reply = reply_to j request in
    let fits : Fits request = record {
      htype = omega arith;
      ptype = omega arith;
      hlen = omega arith;
      plen = omega arith;
      oper = omega arith;
      sha = mi;
      spa = li;
      tha = refl;
      tpa = lj;
    } in
    let fits' : Fits reply = record {
      htype = omega arith;
      ptype = omega arith;
      hlen = omega arith;
      plen = omega arith;
      oper = omega arith;
      sha = mj;
      spa = lj;
      tha = mi;
      tpa = li;
    } in
    let asked =
      arp_receive-print_packet owner j request now fits
      ∙ handle_request owner j request now refl refl refl refl in
    let told =
      arp_receive-print_packet asker i reply later fits'
      ∙ handle_reply asker i reply later refl refl refl in
    (
      reply,
      ap (λ r. r.1) asked,
      ap (λ r. mac_at r.0.cache i.ip now) asked ∙ (arp_cache_update_lem owner i.ip now i.mac vo).0,
      ap (λ r. mac_at r.0.cache j.ip later) told
          ∙ (arp_cache_update_lem asker j.ip later j.mac va).0,
    )
