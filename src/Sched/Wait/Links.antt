-- ===== src/Sched/Wait/Links.antt =====
-- A wait queue of src/kernel/sched/wait.c is a list of processes: wq_push adds at its end, wq_pop takes its
-- first.
use kil0y_os.Prelude.{
  subst, ℕ, ◌≤◌, ◌<◌, ◌≡◌, ◌≢◌, refl, ap, sym, ◌∙◌, List, [], ◌∷◌, ◌++◌, ◌==◌, if◌then◌else◌, arith,
}
use kil0y_os.Sched.Wait.{Process, Queue, set_next, wq_push, wq_pop}

-- The links from `p` on.
abbrev pub Chain : (ℕ → Process) → ℕ → List ℕ → Type 0
Chain m p [] = p ≡ 0
Chain m p (q ∷ qs) = (p ≡ q) × (0 < q) × Chain m (m q).wait_next qs

abbrev pub NotIn : ℕ → List ℕ → Type 0
NotIn p [] = 0 ≤ 0
NotIn p (q ∷ qs) = (p ≢ q) × NotIn p qs

abbrev pub Distinct : List ℕ → Type 0
Distinct [] = 0 ≤ 0
Distinct (q ∷ qs) = NotIn q qs × Distinct qs

-- The last of a list, 0 if it is empty.
abbrev pub last : ℕ → List ℕ → ℕ
last p [] = p
last p (q ∷ qs) = last q qs

pub record IsQueue (m : ℕ → Process) (wq : Queue) (ps : List ℕ) : Type 0 where
  pub chain : Chain m wq.head ps
  pub tail : wq.tail ≡ last 0 ps
  pub distinct : Distinct ps

-- Links are read only at the list's processes.
pub Chain-frame :
    (m m' : ℕ → Process) (p : ℕ) (ps : List ℕ) (x : ℕ)
    → ((q : ℕ) → x ≢ q → (m' q).wait_next ≡ (m q).wait_next)
    → NotIn x ps
    → Chain m p ps
    → Chain m' p ps
Chain-frame m m' p [] x same n c = c
Chain-frame m m' p (q ∷ qs) x same (ne, n) (e, pos, c) = (
  e,
  pos,
  subst (λ r. Chain m' r qs) (sym (same q ne)) (Chain-frame m m' (m q).wait_next qs x same n c),
)

last-NotIn : (x p : ℕ) (ps : List ℕ) → x ≢ p → NotIn x ps → x ≢ last p ps
last-NotIn x p [] d n = d
last-NotIn x p (q ∷ qs) d (e, n) = last-NotIn x q qs e n

-- A chain whose last link is set to `p`.
Chain-append :
    (m m' : ℕ → Process) (p a t : ℕ) (q : ℕ) (qs : List ℕ)
    → ((r : ℕ) → t ≢ r → p ≢ r → (m' r).wait_next ≡ (m r).wait_next)
    → (m' t).wait_next ≡ p
    → (m' p).wait_next ≡ 0
    → 0 < p
    → t ≡ last q qs
    → NotIn p (q ∷ qs)
    → Distinct (q ∷ qs)
    → Chain m a (q ∷ qs)
    → Chain m' a ((q ∷ qs) ++ (p ∷ []))
Chain-append m m' p a t q [] same link end pos e n d (f, z, c) =
    (f, z, (ap (λ r. (m' r).wait_next) (sym e) ∙ link, pos, end))
Chain-append m m' p a t q (r ∷ qs) same link end pos e (ne, n) (u, d) (f, z, c) =
    let other : t ≢ q = λ g. last-NotIn q r qs u.0 u.1 (sym g ∙ e) in
    (
      f,
      z,
      subst (λ x. Chain m' x ((r ∷ qs) ++ (p ∷ []))) (sym (same q other ne))
          (Chain-append m m' p (m q).wait_next t r qs same link end pos e n d c),
    )

Chain-last : (m : ℕ → Process) (p q : ℕ) (qs : List ℕ) → Chain m p (q ∷ qs) → 0 < last q qs
Chain-last m p q [] (e, z, c) = z
Chain-last m p q (r ∷ qs) (e, z, c) = Chain-last m (m q).wait_next r qs c

last-append : (x p : ℕ) (ps : List ℕ) → last x (ps ++ (p ∷ [])) ≡ p
last-append x p [] = refl
last-append x p (q ∷ qs) = last-append q p qs

NotIn-append : (x p : ℕ) (ps : List ℕ) → x ≢ p → NotIn x ps → NotIn x (ps ++ (p ∷ []))
NotIn-append x p [] d n = (d, n)
NotIn-append x p (q ∷ qs) d (e, n) = (e, NotIn-append x p qs d n)

Distinct-append : (p : ℕ) (ps : List ℕ) → NotIn p ps → Distinct ps → Distinct (ps ++ (p ∷ []))
Distinct-append p [] n d = (n, d)
Distinct-append p (q ∷ qs) (ne, n) (u, d) =
    (NotIn-append q p qs (λ e. ne (sym e)) u, Distinct-append p qs n d)

module _ (m : ℕ → Process) (wq : Queue) (p : ℕ) (pos : 0 < p) where
  push-empty : wq.tail ≡ 0 → wq_push m wq p ≡ (set_next m p 0, record { head = p; tail = p })
  unfolding wq_push
  push-empty e = ground (arith, e)

  push-behind :
      0 < wq.tail → wq_push m wq p ≡ (set_next (set_next m p 0) wq.tail p, record wq { tail = p })
  unfolding wq_push
  push-behind h = ground (arith, h)

  -- wq_push of a process that is not in the queue puts it behind the others.
  pub wq_push_lem :
      (ps : List ℕ)
      → IsQueue m wq ps
      → NotIn p ps
      → IsQueue (wq_push m wq p).0 (wq_push m wq p).1 (ps ++ (p ∷ []))
  wq_push_lem [] k n =
      subst (λ o. IsQueue o.0 o.1 (p ∷ [])) (sym (push-empty k.tail))
        (record { chain = (refl, pos, ground arith); tail = refl; distinct = (n, n) })
  wq_push_lem (q ∷ qs) k n =
      let t = wq.tail in
      let some : 0 < t = subst (λ r. 0 < r) (sym k.tail) (Chain-last m wq.head q qs k.chain) in
      let other : p ≢ t = λ e. last-NotIn p q qs n.0 n.1 (e ∙ k.tail) in
      subst (λ o. IsQueue o.0 o.1 ((q ∷ qs) ++ (p ∷ []))) (sym (push-behind some))
        (record {
          chain =
              Chain-append m (set_next (set_next m p 0) t p) p wq.head t q qs
                (λ r d e. ground (arith, d, e)) (ground arith) (ground (arith, other)) pos k.tail n
                k.distinct k.chain;
          tail = sym (last-append q p qs);
          distinct = Distinct-append p (q ∷ qs) n k.distinct;
        })

module _ (m : ℕ → Process) (wq : Queue) where
  pop-none : wq.head ≡ 0 → wq_pop m wq ≡ ((m, wq), 0)
  unfolding wq_pop
  pop-none e = ground (arith, e)

  abbrev after_pop : Queue
  after_pop = record {
    head = (m wq.head).wait_next;
    tail = if (m wq.head).wait_next == 0 then 0 else wq.tail;
  }

  pop-some : 0 < wq.head → wq_pop m wq ≡ ((set_next m wq.head 0, after_pop), wq.head)
  unfolding wq_pop
  pop-some h = ground (arith, h)

  pop-tail :
      (n : ℕ) (q : ℕ) (qs : List ℕ)
      → Chain m n qs
      → wq.tail ≡ last q qs
      → (if n == 0 then 0 else wq.tail) ≡ last 0 qs
  pop-tail n q [] c e = ground (arith, c)
  pop-tail n q (r ∷ qs) (f, z, c) e = ground (arith, f, z, e)

  -- wq_pop returns the first process of a queue, and the others stay in order.
  pub wq_pop_lem :
      (p : ℕ) (ps : List ℕ)
      → IsQueue m wq (p ∷ ps)
      → ((wq_pop m wq).1 ≡ p) × IsQueue (wq_pop m wq).0.0 (wq_pop m wq).0.1 ps
  wq_pop_lem p ps k =
      let h : wq.head ≡ p = k.chain.0 in
      let some : 0 < wq.head = omega (arith, h, k.chain.1) in
      let rest : Chain m (m wq.head).wait_next ps =
        subst (λ r. Chain m (m r).wait_next ps) (sym h) k.chain.2 in
      subst (λ (o : ((ℕ → Process) × Queue) × ℕ). (o.1 ≡ p) × IsQueue o.0.0 o.0.1 ps)
        (sym (pop-some some))
        (
          h,
          record {
            chain =
                Chain-frame m (set_next m wq.head 0) (m wq.head).wait_next ps wq.head
                  (λ q d. ground (arith, d)) (subst (λ r. NotIn r ps) (sym h) k.distinct.0) rest;
            tail = pop-tail (m wq.head).wait_next p ps rest k.tail;
            distinct = k.distinct.1;
          },
        )
