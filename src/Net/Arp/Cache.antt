-- ===== src/Net/Arp/Cache.antt =====
-- The cache of src/kernel/net/arp.c as a map from addresses to hardware addresses.
use kil0y_os.Prelude.{
  ℕ, ◌<◌, ◌≡◌, ◌≢◌, refl, ap, sym, ◌∙◌, subst, true, false, List, length, set, get_elem?, ◌==◌, leb,
  ◌+◌, ◌-◌, ◌%◌, ◌^◌, none, some, Option-cases, Bool-cases, inl, inr, ◌⊎◌, arith,
}
use kil0y_os.Net.Arp.{
  Entry, Arp, Interface, find_from, free_entry, fresh_entry, arp_cache_update, arp_receive,
  parse_packet,
}
use kil0y_os.Net.Arp.Scan.{
  answers, mac_at, NoneBefore, set-answers, set-others, Hit, find_from-Scanned, get_elem?-lt,
  get_elem?-some, FoundFree, free_entry-FoundFree, AllInUse, find_from-FilledUp,
}

-- The cache after arp_cache_update: the address has the hardware address, and every other address what it had,
-- but for the one that the victim had, where every entry was in use.
abbrev pub Updated : Arp → ℕ → List ℕ → ℕ → List Entry → Type 0
Updated a ip mac now cache' =
    (mac_at cache' ip now ≡ some mac)
    × ((x : ℕ)
        → x ≢ ip
        → (mac_at cache' x now ≡ mac_at a.cache x now)
          ⊎ (AllInUse a.cache now
              × ((e : Entry) × (get_elem? a.cache a.next_victim ≡ some e)
                  × (answers e x now ≡ true))))

fresh-answers : (ip x now : ℕ) (mac : List ℕ) → answers (fresh_entry ip mac now) x now ≡ (ip == x)
fresh-answers ip x now mac =
    let young : leb ((now + 2 ^ 32 - now) % 2 ^ 32) 30000 ≡ true = ground arith in rw young refl

self-answers : (ip now : ℕ) (mac : List ℕ) → answers (fresh_entry ip mac now) ip now ≡ true
self-answers ip now mac = fresh-answers ip ip now mac ∙ ground arith

other-answers :
    (ip x now : ℕ) (mac : List ℕ) → x ≢ ip → answers (fresh_entry ip mac now) x now ≡ false
other-answers ip x now mac d = fresh-answers ip x now mac ∙ ground (arith, d)

module _ (a : Arp) (ip now : ℕ) (mac : List ℕ) where
  aged : List Entry
  aged = (find_from a.cache ip now 0).0

  new : Entry
  new = fresh_entry ip mac now

  -- The entry that is written: none before it answers, and the one it replaces answers no other address,
  -- or is the victim.
  written :
      (k : ℕ) (old : Entry)
      → get_elem? aged k ≡ some old
      → NoneBefore aged k ip now
      → ((x : ℕ) → mac_at aged x now ≡ mac_at a.cache x now)
      → (mac_at (set aged k new) ip now ≡ some mac)
        × ((x : ℕ)
            → x ≢ ip
            → (mac_at (set aged k new) x now ≡ mac_at a.cache x now) ⊎ (answers old x now ≡ true))
  unfolding new
  written k old at n same = (
    set-answers aged k new ip now (get_elem?-lt aged k old at) (self-answers ip now mac) n,
    λ x d. elim (Bool-cases (answers old x now)) [
      | inl y ↦ inr y
      | inr y ↦ inl (set-others aged k old new x now at y (other-answers ip x now mac d) ∙ same x)
    ],
  )

  update-found :
      (i : ℕ)
      → (find_from a.cache ip now 0).1 ≡ some i
      → (arp_cache_update a ip mac now).cache ≡ set aged i new
  unfolding arp_cache_update aged new
  update-found i e = ground (arith, e)

  update-free :
      (i : ℕ)
      → (find_from a.cache ip now 0).1 ≡ none
      → free_entry aged 0 ≡ some i
      → (arp_cache_update a ip mac now).cache ≡ set aged i new
  unfolding arp_cache_update aged new
  update-free i e f = ground (arith, e, f)

  update-evicts :
      (find_from a.cache ip now 0).1 ≡ none
      → free_entry aged 0 ≡ none
      → (arp_cache_update a ip mac now).cache ≡ set aged a.next_victim new
  unfolding arp_cache_update aged new
  update-evicts e f = ground (arith, e, f)

invalid-answers : (e : Entry) (x now : ℕ) → e.valid ≡ false → answers e x now ≡ true → ⊥
invalid-answers e x now v y = ground (arith, v, y)

matched-answers : (e : Entry) (x ip now : ℕ) → e.ip ≡ ip → x ≢ ip → answers e x now ≡ true → ⊥
matched-answers e x ip now q d y = ground (arith, q, d, y)

-- The victim is the only entry whose address is lost.
replaced :
    (a : Arp) (ip now : ℕ) (mac : List ℕ) (k : ℕ) (old : Entry)
    → get_elem? (aged a ip now mac) k ≡ some old
    → NoneBefore (aged a ip now mac) k ip now
    → ((x : ℕ) → mac_at (aged a ip now mac) x now ≡ mac_at a.cache x now)
    → ((x : ℕ)
        → x ≢ ip
        → answers old x now ≡ true
        → AllInUse a.cache now
          × ((e : Entry) × (get_elem? a.cache a.next_victim ≡ some e) × (answers e x now ≡ true)))
    → Updated a ip mac now (set (aged a ip now mac) k (new a ip now mac))
unfolding aged
replaced a ip now mac k old here n same lost =
    let (self, others) = written a ip now mac k old here n same in
    (self, λ x d. elim (others x d) [ inl e ↦ inl e | inr y ↦ inr (lost x d y) ])

-- If the next victim is an entry of the cache, then right after arp_cache_update the address has the new hardware
-- address, and every other address has what it had, unless every entry of the cache was in use (valid and at most 30
-- seconds old) and it lost its entry, the victim, to the new one.
pub arp_cache_update_lem :
    (a : Arp) (ip now : ℕ) (mac : List ℕ)
    → a.next_victim < length a.cache
    → Updated a ip mac now (arp_cache_update a ip mac now).cache
unfolding aged
arp_cache_update_lem a ip now mac l =
    let (size, same, hit) = find_from-Scanned a.cache ip now 0 in
    let es = aged a ip now mac in
    let fresh = new a ip now mac in
    elim (Option-cases ((find_from a.cache ip now 0).1)) [
      | inr (i, e) ↦
          let (k, at, n, (old, here, q)) = subst (Hit es ip now 0) e hit in
          let ik : k ≡ i = omega (arith, at) in
          subst (Updated a ip mac now)
            (ap (λ j. set es j fresh) ik ∙ sym (update-found a ip now mac i e))
            (replaced a ip now mac k old here n same
              (λ x d y. absurd (matched-answers old x ip now q d y)))
      | inl e ↦
          let all = subst (Hit es ip now 0) e hit in
          let free = free_entry-FoundFree es 0 in
          elim (Option-cases (free_entry es 0)) [
            | inr (i, f) ↦
                let (k, at, (old, here, v)) = subst (FoundFree es 0) f free in
                let ik : k ≡ i = omega (arith, at) in
                subst (Updated a ip mac now)
                  (ap (λ j. set es j fresh) ik ∙ sym (update-free a ip now mac i e f))
                  (replaced a ip now mac k old here (all k) same
                    (λ x d y. absurd (invalid-answers old x now v y)))
            | inl f ↦
                let (old, here) = get_elem?-some es a.next_victim (omega (arith, l, size)) in
                let (used, unchanged) =
                  find_from-FilledUp a.cache ip now 0 e (subst (FoundFree es 0) f free) in
                let there : get_elem? a.cache a.next_victim ≡ some old =
                  subst (λ xs. get_elem? xs a.next_victim ≡ some old) unchanged here in
                subst (Updated a ip mac now) (sym (update-evicts a ip now mac e f)) (
                  replaced a ip now mac a.next_victim old here (all a.next_victim) same
                    (λ x d y. (used, (old, there, y))))
          ]
    ]

-- arp_receive learns nothing from a packet that is neither a reply nor a request for the interface's address.
pub arp_receive_unasked :
    (a : Arp) (iface : Interface) (input : List ℕ) (now : ℕ)
    → (parse_packet input).oper ≢ 2
    → ((parse_packet input).oper ≢ 1) ⊎ ((parse_packet input).tpa ≢ iface.ip)
    → arp_receive a iface input now ≡ (a, none)
unfolding arp_receive
arp_receive_unasked a iface input now d h = ground (arith, d, h)
