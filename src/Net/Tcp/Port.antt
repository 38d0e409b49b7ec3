-- ===== src/Net/Tcp/Port.antt =====
-- The ephemeral ports of tcp_connect in src/kernel/net/tcp.c.
use kil0y_os.Prelude.{
  get_elem?, some, none, Option, ◌-◌, ◌≢◌, not, ◌&&◌, ◌==◌, ℕ, ◌+◌, ◌%◌, ◌^◌, ◌≤◌, ◌<◌, ◌≡◌, Bool,
  true, false, List, ◌⊎◌,
}
use kil0y_os.Net.Tcp.{Socket}

socket_or : Option Socket → Socket → Socket
socket_or none s = s
socket_or (some t) s = t

-- A used socket other than the one at `self` has the port.
abbrev pub IsInUse : List Socket → ℕ → ℕ → Type 0
IsInUse sockets self p =
    (k : ℕ) × (k ≢ self)
    × ((s : Socket) × (get_elem? sockets k ≡ some s) × (s.used ≡ true) × (s.local_port ≡ p))

-- No used socket other than the one at `self` has the port.
abbrev pub IsUnused : List Socket → ℕ → ℕ → Type 0
IsUnused sockets self p =
    (k : ℕ) (s : Socket)
    → k ≢ self
    → get_elem? sockets k ≡ some s
    → s.used ≡ true
    → s.local_port ≢ p

-- The ephemeral port `j` steps after `p`: 49152 follows 65535.
abbrev pub nth_port : ℕ → ℕ → ℕ
nth_port p j = 49152 + (p - 49152 + j) % 16384

-- A port with the allocator's next one: the first of the ephemeral ports from `start` on that no other used socket
-- has, or 0 if each of the `tries` ports from there on is in use; the next port is ephemeral, or 0 after the last one.
abbrev pub Chosen : ℕ → List Socket → ℕ → ℕ → ℕ × ℕ → Type 0
Chosen tries sockets self start (p, next) =
    (((p ≡ 0) × ((j : ℕ) → j < tries → IsInUse sockets self (nth_port start j)))
      ⊎ ((n : ℕ) × (n < tries)
          × (p ≡ nth_port start n)
          × IsUnused sockets self p
          × ((j : ℕ) → j < n → IsInUse sockets self (nth_port start j))))
    × ((next ≡ 0) ⊎ ((49152 ≤ next) × (next < 2 ^ 16)))

-- What port_taken finds, started at index `i`.
Taken : List Socket → ℕ → ℕ → ℕ → Bool → Type 0
Taken sockets i self p true =
    (k : ℕ) × (i + k ≢ self)
    × ((s : Socket) × (get_elem? sockets k ≡ some s) × (s.used ≡ true) × (s.local_port ≡ p))
Taken sockets i self p false =
    (k : ℕ) (s : Socket)
    → i + k ≢ self
    → get_elem? sockets k ≡ some s
    → s.used ≡ true
    → s.local_port ≢ p

abbrev has_it : Socket → ℕ → ℕ → ℕ → Bool
has_it s i self p = not (i == self) && s.used && s.local_port == p
