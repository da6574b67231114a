-- ===== src/Demuxer/Queue.antt =====
-- libpager/queue.h: a queue of items that are linked by pointers in the items. The memory is the `next`
-- field of every item; NULL is 0.
use hurd.Base.{ℕ, ◌≡◌, Bool, List, [], ◌∷◌, ◌++◌, ◌==◌, if◌then◌else◌}
pub mod Refines

-- What `struct item **tail` points to.
pub data Place : Type 0 where
  head_of_queue : Place
  next_of : ℕ → Place

pub record Queue : Type 0 where
  pub next : ℕ → ℕ
  pub head : ℕ
  pub tail : Place

abbrev pub update : (ℕ → ℕ) → ℕ → ℕ → ℕ → ℕ
update f a v b = if b == a then v else f b

-- `*place = v`.
abbrev pub write : Place → ℕ → Queue → Queue
write head_of_queue v q = record q { head = v }
write (next_of a) v q = record q { next = update q.next a v }

unfoldable pub queue_init : (ℕ → ℕ) → Queue
queue_init next = record { next = next; head = 0; tail = head_of_queue }

unfoldable pub queue_enqueue : ℕ → Queue → Queue
queue_enqueue r q =
    let q' = record (write q.tail r q) { tail = next_of r } in write (next_of r) 0 q'

-- The item, or NULL.
unfoldable pub queue_dequeue : Queue → ℕ × Queue
queue_dequeue q =
    let r = q.head in
    if r == 0
    then (0, q)
    else (let q' = record q { head = q.next r } in
        let q'' = if q'.head == 0 then record q' { tail = head_of_queue } else q' in
        (r, write (next_of r) 0 q''))

unfoldable pub queue_empty : Queue → Bool
queue_empty q = q.head == 0

-- A sequence of operations, and what the calls of queue_dequeue return.
pub data QueueOp : Type 0 where
  enqueue : ℕ → QueueOp
  dequeue : QueueOp

abbrev pub run : List QueueOp → Queue → List ℕ × Queue
run [] q = ([], q)
run (enqueue r ∷ ops) q = run ops (queue_enqueue r q)
run (dequeue ∷ ops) q = let (r, q') = queue_dequeue q in let (rs, q'') = run ops q' in (r ∷ rs, q'')
