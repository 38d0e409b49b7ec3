-- ===== src/Net/Arp/Tests.antt =====
-- A cache of two entries, both in use, one of them old.
use kil0y_os.Prelude.{ℕ, ◌≡◌, refl, none, some, List, [], ◌∷◌, replicate, arith, inr}
use kil0y_os.Net.Arp.{
  Arp, Interface, fresh_entry, arp_cache_update, arp_receive, find_from, free_entry,
}
use kil0y_os.Net.Arp.Exchange.{Exchanged, arp_exchange}
use kil0y_os.Net.Arp.Scan.{mac_at}
use kil0y_os.Net.Arp.Cache.{Updated, arp_cache_update_lem, arp_receive_unasked}

abbrev mac_1 : List ℕ
mac_1 = replicate 6 1

abbrev mac_2 : List ℕ
mac_2 = replicate 6 2

abbrev two : Arp
two = record { cache = fresh_entry 10 mac_1 5 ∷ fresh_entry 11 mac_1 40000 ∷ []; next_victim = 1 }

-- The entry for 10 is old at 40001, and its place is taken.
arp_cache_update_example : Updated two 12 mac_2 40001 (arp_cache_update two 12 mac_2 40001).cache
arp_cache_update_example = arp_cache_update_lem two 12 40001 mac_2 (omega arith)

kept : mac_at (arp_cache_update two 12 mac_2 40001).cache 11 40001 ≡ some mac_1
unfolding arp_cache_update find_from free_entry
kept = refl

abbrev card : Interface
card = record { ip = 0x0A000002; mac = mac_1; netmask = 0xFFFFFF00; gateway = 0x0A000001 }

abbrev friend : Interface
friend = record { ip = 0x0A000003; mac = mac_2; netmask = 0xFFFFFF00; gateway = 0x0A000001 }

arp_exchange_example : Exchanged two two card friend 5 9
arp_exchange_example =
    arp_exchange two two card friend 5 9 (omega arith, refl) (omega arith, refl) (omega arith)
      (omega arith)

-- A request for 10.0.0.3.
abbrev request : List ℕ
request =
    0 ∷ 1 ∷ 8 ∷ 0 ∷ 6 ∷ 4 ∷ 0 ∷ 1 ∷ 2 ∷ 2 ∷ 2 ∷ 2 ∷ 2 ∷ 2 ∷ 10 ∷ 0 ∷ 0 ∷ 9 ∷ 0 ∷ 0 ∷ 0 ∷ 0 ∷ 0 ∷ 0
    ∷ 10 ∷ 0 ∷ 0 ∷ 3 ∷ []

arp_receive_unasked_example : arp_receive two card request 5 ≡ (two, none)
arp_receive_unasked_example =
    arp_receive_unasked two card request 5 (omega arith) (inr (omega arith))
