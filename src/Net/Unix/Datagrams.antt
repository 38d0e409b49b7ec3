-- ===== src/Net/Unix/Datagrams.antt =====
-- unix_sendto_dgram of src/kernel/net/unix_sock.c on every branch.
use kil0y_os.Prelude.{
  ℕ, ◌+◌, ◌<◌, ◌≤◌, ◌≡◌, ◌≢◌, Bool, true, false, ◌||◌, List, [], ◌∷◌, ◌++◌, length, ◌==◌,
  if◌then◌else◌, Option, none, some, ◌⊎◌,
}
use kil0y_os.Prelude.Int.{ℤ, pos, minus}
use kil0y_os.Net.Unix.{Unix, SocketState, rx_sz, rec_hdr_size}
use kil0y_os.Net.Unix.Lookup.{IsAt}
use kil0y_os.Net.Unix.Connect.{socket_at}
use kil0y_os.Net.Unix.Records.{IsFramed}
use kil0y_os.Net.Unix.Sends.{HasRoom, OnlyAt}

-- What send_record did with the receiver `q`, which held the records `rs`.
abbrev pub Delivered : Unix → ℕ → ℕ → List ℕ → List (ℕ × List ℕ) → Unix × ℤ → Type 0
Delivered u p q input rs (u', r) =
    let target = u.sockets q in
    let record_size = length input + rec_hdr_size in
    ((r ≡ pos (length input))
      × (target.state ≢ SocketState.closed)
      × HasRoom target record_size
      × IsFramed (u'.sockets q) (rs ++ ((p, input) ∷ []))
      × OnlyAt u q u')
    ⊎ ((u' ≡ u)
        × (((r ≡ minus 104) × (target.state ≡ SocketState.closed))
            ⊎ ((r ≡ minus 90) × (target.state ≢ SocketState.closed) × (rx_sz < record_size))
            ⊎ ((r ≡ minus 11)
                × (target.state ≢ SocketState.closed)
                × (record_size ≤ rx_sz)
                × ¬ HasRoom target record_size)))

-- The receiver of a datagram: the peer, or else the socket that has the name; abstract names are refused.
abbrev pub receiver : Unix → ℕ → Option (List ℕ) → Bool → ℕ
receiver u p path abstract =
    if (u.sockets p).peer == 0
    then elim path [
      | none ↦ 0
      | some name ↦ if abstract || (length name == 0) then 0 else socket_at u name false
    ]
    else (u.sockets p).peer

-- The socket cannot send records.
abbrev no_records : Unix → ℕ → Bool
no_records u p = (p == 0) || ((u.sockets p).kind == 1)

-- What unix_sendto_dgram did, with the receiver `q`.
abbrev pub SentTo : Unix → ℕ → ℕ → List ℕ → List (ℕ × List ℕ) → Unix × ℤ → Type 0
SentTo u p q input rs (u', r) =
    ((no_records u p ≡ false) × (q ≢ 0) × Delivered u p q input rs (u', r))
    ⊎ ((u' ≡ u)
        × (((r ≡ minus 22) × (no_records u p ≡ true))
            ⊎ (((r ≡ minus 107) ⊎ (r ≡ minus 111)) × (q ≡ 0))))

-- The socket of the first node in use that has the name, if it is neither abstract nor empty.
abbrev pub IsNamed : Unix → Option (List ℕ) → Bool → ℕ → Type 0
IsNamed u none abstract q = q ≡ 0
IsNamed u (some name) abstract q =
    (((abstract ≡ true) ⊎ (length name ≡ 0)) × (q ≡ 0))
    ⊎ ((abstract ≡ false) × (length name ≢ 0) × IsAt u.bind_tab name false q)

-- The peer, or else the socket that has the name; 0 if there is none.
abbrev pub IsReceiver : Unix → ℕ → Option (List ℕ) → Bool → ℕ → Type 0
IsReceiver u p path abstract q =
    (((u.sockets p).peer ≢ 0) × (q ≡ (u.sockets p).peer))
    ⊎ (((u.sockets p).peer ≡ 0) × IsNamed u path abstract q)

named : Unix → Option (List ℕ) → Bool → ℕ
named u none abstract = 0
named u (some name) abstract = if abstract || (length name == 0) then 0 else socket_at u name false
