-- ===== src/Net/Unix/Pending.antt =====
-- unix_accept of src/kernel/net/unix_sock.c: the connections that wait are a queue.
use kil0y_os.Prelude.{
  ℕ, zero, suc, ◌+◌, ◌-◌, ◌%◌, ◌≤◌, ◌<◌, ◌≡◌, ◌≢◌, refl, ap, sym, ◌∙◌, subst, true, List, [], ◌∷◌,
  ◌++◌, arith, update,
}
use kil0y_os.Net.Unix.{Unix, Socket, backlog_max, is_listening, write_socket}
use kil0y_os.Net.Unix.Connect.{queue_child, unix_accept}

-- The children from a position on.
unfoldable pub waiting : ℕ → (ℕ → ℕ) → ℕ → List ℕ
waiting zero pend h = []
waiting (suc n) pend h = pend h ∷ waiting n pend ((h + 1) % backlog_max)

-- The connections that nobody has accepted yet, the oldest first.
abbrev pub pending : Socket → List ℕ
pending s = waiting s.pend_cnt s.pend s.pend_head

abbrev pub IsListener : Socket → Type 0
IsListener s = (s.pend_head < backlog_max) × (s.pend_cnt ≤ s.backlog) × (s.backlog ≤ backlog_max)

waiting-update :
    (n k : ℕ) (pend : ℕ → ℕ) (t h c : ℕ)
    → t < backlog_max
    → n ≤ k
    → k < backlog_max
    → h ≡ (t + k) % backlog_max
    → waiting n (update pend h c) t ≡ waiting n pend t
unfolding waiting
waiting-update zero k pend t h c l a b e = refl
waiting-update (suc n) k pend t h c l a b e =
    let ne : h ≢ t = λ q. absurd (omega (arith, q, e, l, a, b)) in
    let here : update pend h c t ≡ pend t = ground (arith, ne) in
    let rest =
      waiting-update n (k - 1) pend ((t + 1) % backlog_max) h c (omega arith) (omega (arith, a))
        (omega (arith, b)) (omega (arith, e, a)) in
    ap (λ x. x ∷ waiting n (update pend h c) ((t + 1) % backlog_max)) here
    ∙ ap (λ xs. pend t ∷ xs) rest

waiting-last :
    (n : ℕ) (pend : ℕ → ℕ) (t : ℕ)
    → t < backlog_max
    → waiting (n + 1) pend t ≡ waiting n pend t ++ (pend ((t + n) % backlog_max) ∷ [])
unfolding waiting
waiting-last zero pend t l =
    let e : t ≡ (t + 0) % backlog_max = omega (arith, l) in ap (λ k. pend k ∷ []) e
waiting-last (suc n) pend t l =
    let e : suc n + 1 ≡ suc (n + 1) = omega arith in
    let f : ((t + 1) % backlog_max + n) % backlog_max ≡ (t + suc n) % backlog_max = omega arith in
    rw (e, ← f) (ap (λ xs. pend t ∷ xs) (waiting-last n pend ((t + 1) % backlog_max) (omega arith)))

-- A child goes behind those that wait.
pub queue_child_lem :
    (s : Socket) (c : ℕ)
    → IsListener s
    → s.pend_cnt < s.backlog
    → IsListener (queue_child s c) × (pending (queue_child s c) ≡ pending s ++ (c ∷ []))
queue_child_lem s c (a, b, d) room =
    let h = (s.pend_head + s.pend_cnt) % backlog_max in
    let self : update s.pend h c h ≡ c = ground arith in
    (
      (a, omega (arith, room), d),
      waiting-last s.pend_cnt (update s.pend h c) s.pend_head a
          ∙ ap (λ xs. xs ++ (update s.pend h c h ∷ []))
              (waiting-update s.pend_cnt s.pend_cnt s.pend s.pend_head h c a (omega arith)
                (omega (arith, room, d)) refl)
          ∙ ap (λ x. pending s ++ (x ∷ [])) self,
    )

-- What unix_accept did with the connections `cs` that waited.
abbrev pub Accepted : Unix → ℕ → List ℕ → Unix × ℕ → Type 0
Accepted u p [] (u', c) = (u' ≡ u) × (c ≡ 0)
Accepted u p (first ∷ rest) (u', c) =
    (c ≡ first)
    × (pending (u'.sockets p) ≡ rest)
    × IsListener (u'.sockets p)
    × ((x : ℕ) → x ≢ p → u'.sockets x ≡ u.sockets x)

accept-first :
    (u : Unix) (p n : ℕ)
    → p ≢ 0
    → is_listening (u.sockets p) ≡ true
    → (u.sockets p).pend_cnt ≡ suc n
    → let s = u.sockets p in
      unix_accept u p ≡ (
        write_socket u p (record s {
          pend = update s.pend s.pend_head 0;
          pend_head = (s.pend_head + 1) % backlog_max;
          pend_cnt = s.pend_cnt - 1;
        }),
        s.pend s.pend_head,
      )
unfolding unix_accept
accept-first u p n d l e = ground (arith, d, l, e)

accept-none : (u : Unix) (p : ℕ) → (u.sockets p).pend_cnt ≡ 0 → unix_accept u p ≡ (u, 0)
unfolding unix_accept
accept-none u p e = ground (arith, e)

abbrev taken : Socket → Socket
taken s = record s {
  pend = update s.pend s.pend_head 0;
  pend_head = (s.pend_head + 1) % backlog_max;
  pend_cnt = s.pend_cnt - 1;
}

written_at : (u : Unix) (p : ℕ) (s : Socket) → (write_socket u p s).sockets p ≡ s
written_at u p s = ground arith

accepted :
    (u : Unix) (p n : ℕ)
    → p ≢ 0
    → is_listening (u.sockets p) ≡ true
    → IsListener (u.sockets p)
    → (u.sockets p).pend_cnt ≡ n
    → Accepted u p (waiting n (u.sockets p).pend (u.sockets p).pend_head) (unix_accept u p)
unfolding waiting
accepted u p zero d l h e = subst (Accepted u p []) (sym (accept-none u p e)) (refl, refl)
accepted u p (suc n) d l (a, b, c) e =
    let s = u.sockets p in
    let rest = waiting n s.pend ((s.pend_head + 1) % backlog_max) in
    let fewer : s.pend_cnt - 1 ≡ n = omega (arith, e) in
    let same : waiting n (update s.pend s.pend_head 0) ((s.pend_head + 1) % backlog_max) ≡ rest =
      waiting-update n 15 s.pend ((s.pend_head + 1) % backlog_max) s.pend_head 0 (omega arith)
        (omega (arith, e, b, c)) (omega arith) (omega (arith, a)) in
    let left : pending (taken s) ≡ rest =
      ap (λ k. waiting k (update s.pend s.pend_head 0) ((s.pend_head + 1) % backlog_max)) fewer
      ∙ same in
    let listens : IsListener (taken s) = (omega arith, omega (arith, b), c) in
    subst (Accepted u p (s.pend s.pend_head ∷ rest)) (sym (accept-first u p n d l e)) (
      refl,
      ap pending (written_at u p (taken s)) ∙ left,
      subst IsListener (sym (written_at u p (taken s))) listens,
      λ x ne. ground (arith, ne),
    )

-- unix_accept of a listening socket returns the connection that has waited longest and leaves the others in
-- order, and no other socket changes; if none waits it returns NULL and changes nothing.
pub unix_accept_lem :
    (u : Unix) (p : ℕ)
    → p ≢ 0
    → is_listening (u.sockets p) ≡ true
    → IsListener (u.sockets p)
    → Accepted u p (pending (u.sockets p)) (unix_accept u p)
unix_accept_lem u p d l h = accepted u p (u.sockets p).pend_cnt d l h refl
