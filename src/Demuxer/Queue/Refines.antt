-- ===== src/Demuxer/Queue/Refines.antt =====
-- libpager/queue.h: the linked queue is a list with insertion at its end.
use hurd.Base.{ℕ, ◌≡◌, ◌≢◌, refl, sym, ap, List, [], ◌∷◌, ◌++◌, arith, All, ==_iff, is_empty, subst}
use hurd.Demuxer.Queue.{
  Place, head_of_queue, next_of, Queue, update, queue_init, queue_enqueue, queue_dequeue,
  queue_empty, QueueOp, enqueue, dequeue, run,
}

-- The items that a pointer leads to.
abbrev pub IsChain : (ℕ → ℕ) → ℕ → List ℕ → Type 0
IsChain next p [] = p ≡ 0
IsChain next p (x ∷ xs) = (p ≡ x) × (x ≢ 0) × IsChain next (next x) xs

abbrev pub Avoids : ℕ → List ℕ → Type 0
Avoids a xs = All (λ x. x ≢ a) xs

abbrev pub NoRepeats : List ℕ → Type 0
NoRepeats [] = Unit
NoRepeats (x ∷ xs) = Avoids x xs × NoRepeats xs

abbrev last : ℕ → List ℕ → ℕ
last x [] = x
last x (y ∷ ys) = last y ys

abbrev pub last_place : List ℕ → Place
last_place [] = head_of_queue
last_place (x ∷ xs) = next_of (last x xs)

-- The queue holds the items of the list, in order.
pub record Holds (xs : List ℕ) (q : Queue) : Type 0 where
  pub chain : IsChain q.next q.head xs
  pub tail : q.tail ≡ last_place xs
  pub distinct : NoRepeats xs

-- A write elsewhere leaves a chain as it is.
IsChain-update :
    (next : ℕ → ℕ) (a v p : ℕ) (xs : List ℕ)
    → Avoids a xs
    → IsChain next p xs
    → IsChain (update next a v) p xs
IsChain-update next a v p [] h c = c
IsChain-update next a v p (x ∷ xs) h c =
    let rest = IsChain-update next a v (next x) xs h.1 c.2 in
    (c.0, c.1, subst (λ y. IsChain (update next a v) y xs) (ground (arith, ==_iff x a, h.0)) rest)

last-ne : (a x : ℕ) (xs : List ℕ) → Avoids a (x ∷ xs) → last x xs ≢ a
last-ne a x [] h = h.0
last-ne a x (y ∷ ys) h = last-ne a y ys h.1

IsChain-append :
    (next : ℕ → ℕ) (x r : ℕ) (xs : List ℕ)
    → r ≢ 0
    → Avoids r (x ∷ xs)
    → NoRepeats (x ∷ xs)
    → IsChain next x (x ∷ xs)
    → IsChain (update (update next (last x xs) r) r 0) x ((x ∷ xs) ++ r ∷ [])
IsChain-append next x r [] e a d c = ground (arith, e, a.0, c.1)
IsChain-append next x r (y ∷ ys) e a d c =
    let rest = IsChain-append next y r ys e a.1 d.1 (refl, c.2.1, c.2.2) in
    let step : update (update next (last y ys) r) r 0 x ≡ y =
      ground (arith, c.2.0, a.0, last-ne x y ys d.0, ==_iff x r, ==_iff x (last y ys)) in
    (refl, c.1, (step, rest.1, rest.2))

NoRepeats-append : (xs : List ℕ) (r : ℕ) → NoRepeats xs → Avoids r xs → NoRepeats (xs ++ r ∷ [])
NoRepeats-append [] r d a = (tt, tt)
NoRepeats-append (x ∷ xs) r d a = (avoids xs d.0, NoRepeats-append xs r d.1 a.1)
  where
    avoids : (ys : List ℕ) → Avoids x ys → Avoids x (ys ++ r ∷ [])
    avoids [] h = ((λ e. a.0 (sym e)), tt)
    avoids (y ∷ ys) h = (h.0, avoids ys h.1)

last_place-append : (xs : List ℕ) (r : ℕ) → last_place (xs ++ r ∷ []) ≡ next_of r
last_place-append [] r = refl
last_place-append (x ∷ xs) r = ap next_of (last_of x xs)
  where
    last_of : (y : ℕ) (ys : List ℕ) → last y (ys ++ r ∷ []) ≡ r
    last_of y [] = refl
    last_of y (z ∷ zs) = last_of z zs

pub queue_enqueue-Holds :
    (r : ℕ) (xs : List ℕ) (q : Queue)
    → r ≢ 0
    → Avoids r xs
    → Holds xs q
    → Holds (xs ++ r ∷ []) (queue_enqueue r q)
unfolding queue_enqueue
queue_enqueue-Holds r [] q e a h =
    rw h.tail
      (record { chain = (refl, e, ground (arith, ==_iff r r)); tail = refl; distinct = (tt, tt) })
queue_enqueue-Holds r (x ∷ xs) q e a h = rw h.tail (
    let c = IsChain-append q.next x r xs e a h.distinct (refl, h.chain.1, h.chain.2) in
    record {
      chain = (h.chain.0, c.1, c.2);
      tail = sym (last_place-append (x ∷ xs) r);
      distinct = NoRepeats-append (x ∷ xs) r h.distinct a;
    })

pub queue_dequeue_empty : (q : Queue) → Holds [] q → queue_dequeue q ≡ (0, q)
unfolding queue_dequeue
queue_dequeue_empty q h = ground (arith, h.chain)

queue_dequeue_lem :
    (x : ℕ) (xs : List ℕ) (q : Queue)
    → Holds (x ∷ xs) q
    → queue_dequeue q
      ≡ (x, record { next = update q.next x 0; head = q.next x; tail = last_place xs })
unfolding queue_dequeue
queue_dequeue_lem x [] q h = ground (arith, h.chain.0, h.chain.1, h.chain.2)
queue_dequeue_lem x (y ∷ ys) q h =
    ground (arith, h.chain.0, h.chain.1, h.chain.2.0, h.chain.2.1, h.tail)

pub queue_dequeue-Holds :
    (x : ℕ) (xs : List ℕ) (q : Queue)
    → Holds (x ∷ xs) q
    → ((queue_dequeue q).0 ≡ x) × Holds xs (queue_dequeue q).1
queue_dequeue-Holds x xs q h = rw (queue_dequeue_lem x xs q h) (
  refl,
  record {
    chain = IsChain-update q.next x 0 (q.next x) xs h.distinct.0 h.chain.2;
    tail = refl;
    distinct = h.distinct.1;
  },
)

-- The operations on a list, and what dequeueing returns: 0 from the empty list.
abbrev pub run_list : List QueueOp → List ℕ → List ℕ × List ℕ
run_list [] xs = ([], xs)
run_list (enqueue r ∷ ops) xs = run_list ops (xs ++ r ∷ [])
run_list (dequeue ∷ ops) [] = let (rs, ys) = run_list ops [] in (0 ∷ rs, ys)
run_list (dequeue ∷ ops) (x ∷ xs) = let (rs, ys) = run_list ops xs in (x ∷ rs, ys)

-- No operation enqueues NULL or an item that is in the queue.
abbrev pub IsUsed : List QueueOp → List ℕ → Type 0
IsUsed [] xs = Unit
IsUsed (enqueue r ∷ ops) xs = (r ≢ 0) × Avoids r xs × IsUsed ops (xs ++ r ∷ [])
IsUsed (dequeue ∷ ops) [] = IsUsed ops []
IsUsed (dequeue ∷ ops) (x ∷ xs) = IsUsed ops xs

run-Holds :
    (ops : List QueueOp) (xs : List ℕ) (q : Queue)
    → IsUsed ops xs
    → Holds xs q
    → ((run ops q).0 ≡ (run_list ops xs).0) × Holds (run_list ops xs).1 (run ops q).1
run-Holds [] xs q u h = (refl, h)
run-Holds (enqueue r ∷ ops) xs q u h =
    run-Holds ops (xs ++ r ∷ []) (queue_enqueue r q) u.2 (queue_enqueue-Holds r xs q u.0 u.1 h)
run-Holds (dequeue ∷ ops) [] q u h =
    rw (queue_dequeue_empty q h)
      (let rest = run-Holds ops [] q u h in (ap (λ rs. 0 ∷ rs) rest.0, rest.1))
run-Holds (dequeue ∷ ops) (x ∷ xs) q u h =
    let (e, h') = queue_dequeue-Holds x xs q h in
    let rest = run-Holds ops xs (queue_dequeue q).1 u h' in
    (rw e (ap (λ rs. x ∷ rs) rest.0), rest.1)

queue_init-Holds : (next : ℕ → ℕ) → Holds [] (queue_init next)
unfolding queue_init
queue_init-Holds next = record { chain = refl; tail = refl; distinct = tt }

queue_empty-Holds : (xs : List ℕ) (q : Queue) → Holds xs q → queue_empty q ≡ is_empty xs
unfolding queue_empty
queue_empty-Holds [] q h = ground (arith, h.chain)
queue_empty-Holds (x ∷ xs) q h = ground (arith, h.chain.0, h.chain.1)

-- From queue_init on, whatever the items' pointers hold, any sequence of queue_enqueue and
-- queue_dequeue returns what the same operations on a list return that are insertion at the end and
-- removal at the front, and leaves a linked queue of the items of that list, which queue_empty finds
-- empty exactly when the list is; if no operation enqueues NULL or an item that is in the queue.
pub run-Holds_list :
    (ops : List QueueOp) (next : ℕ → ℕ)
    → IsUsed ops []
    → ((run ops (queue_init next)).0 ≡ (run_list ops []).0)
      × Holds (run_list ops []).1 (run ops (queue_init next)).1
      × (queue_empty (run ops (queue_init next)).1 ≡ is_empty (run_list ops []).1)
run-Holds_list ops next u =
    let (e, h) = run-Holds ops [] (queue_init next) u (queue_init-Holds next) in
    (e, h, queue_empty-Holds (run_list ops []).1 (run ops (queue_init next)).1 h)
