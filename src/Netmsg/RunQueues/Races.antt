-- ===== src/Netmsg/RunQueues/Races.antt =====
-- The races of netmsg's run queues, which nothing locks.
use hurd.Base.{
  false, some, ap, ◌∙◌, List-cases, inl, inr, ℕ, sym, ◌+◌, ◌≡◌, refl, subst, List, [], ◌∷◌, ◌++◌,
  arith, if◌then◌else◌, ◌==◌, append_assoc,
}
use hurd.Base.OrdMap
use hurd.Base.OrdMap.{Map, nat_key, lookup-insert, nat_cmp_eq}
use mathlib.Core.Option.{get_or}
use hurd.Netmsg.RunQueues.{
  Worker, Pusher, pushing, spawning, starting, asserted, popped, handling, idle, RunQueues, queue,
  push_back, continue_push, continue_run, Step, call, push, work, Steps, here, next,
}

abbrev pub port_of : Worker → ℕ
port_of (starting p) = p
port_of (asserted p) = p
port_of (popped p) = p
port_of (handling p m) = p

-- How many threads a port has.
abbrev pub workers : ℕ → List Worker → ℕ
workers p [] = 0
workers p (w ∷ ws) = (if port_of w == p then 1 else 0) + workers p ws

workers-append : (p : ℕ) (xs ys : List Worker) → workers p (xs ++ ys) ≡ workers p xs + workers p ys
workers-append p [] ys = omega arith
workers-append p (x ∷ xs) ys = ground (arith, workers-append p xs ys)

queue-inserted :
    (p : ℕ) (ms : List ℕ) (qs : Map ℕ (List ℕ))
    → get_or (OrdMap.lookup p (OrdMap.insert p ms qs)) [] ≡ ms
queue-inserted p ms qs = ground (arith, lookup-insert p p ms qs, nat_cmp_eq p p)

-- A port's one thread is done with the last message of its queue, and nobody is pushing.
pub record IsLast (p last : ℕ) (before after : List Worker) (s : RunQueues) : Type 0 where
  pub threads : s.threads ≡ before ++ handling p last ∷ after
  pub queue : queue p s ≡ last ∷ []
  pub pusher : s.pusher ≡ idle
  pub only : workers p (before ++ after) ≡ 0

-- The value of `empty` that a push on the port has is false.
abbrev HasNotEmpty : ℕ → Pusher → Type 0
HasNotEmpty p idle = Unit
HasNotEmpty p (pushing q m empty) = q ≡ p → empty ≡ false
HasNotEmpty p (spawning q empty) = q ≡ p → empty ≡ false

-- A message is the first in the queue of a port that has no thread, and gets none.
pub record IsStranded (p m : ℕ) (s : RunQueues) : Type 0 where
  pub rest : List ℕ
  pub first : queue p s ≡ m ∷ rest
  pub nobody : workers p s.threads ≡ 0
  pub not_empty : HasNotEmpty p s.pusher

push_back-IsStranded :
    (p m q n : ℕ) (s : RunQueues) → IsStranded p m s → IsStranded p m (push_back q n s)
unfolding push_back
push_back-IsStranded p m q n s h = record {
  rest = h.rest;
  first = ground (arith, h.first, lookup-insert p q (queue q s) s.queues, nat_cmp_eq p q);
  nobody = h.nobody;
  not_empty = λ e. rw (e, h.first) refl;
}

continue_push-IsStranded :
    (p m : ℕ) (w : Pusher) (s : RunQueues)
    → IsStranded p m s
    → HasNotEmpty p w
    → IsStranded p m (continue_push w s)
unfolding continue_push
continue_push-IsStranded p m idle s h k = h
continue_push-IsStranded p m (pushing q n empty) s h k = record {
  rest = if p == q then h.rest ++ n ∷ [] else h.rest;
  first = ground (arith, h.first, lookup-insert p q (queue q s ++ n ∷ []) s.queues, nat_cmp_eq p q);
  nobody = h.nobody;
  not_empty = k;
}
continue_push-IsStranded p m (spawning q empty) s h k = record {
  rest = h.rest;
  first = h.first;
  nobody = ground (arith, h.nobody, k, workers-append p s.threads (starting q ∷ []));
  not_empty = tt;
}

-- A thread of another port leaves the queue as it is, and starts no thread of the port.
continue_run-other :
    (p : ℕ) (w : Worker) (s : RunQueues) (queues : Map ℕ (List ℕ)) (ws : List Worker)
    → (port_of w == p) ≡ false
    → continue_run w s ≡ some (queues, ws)
    → (get_or (OrdMap.lookup p queues) [] ≡ queue p s) × (workers p ws ≡ 0)
unfolding continue_run
continue_run-other p (starting q) s queues ws o e = ground arith
continue_run-other p (asserted q) s queues ws o e = ground arith
continue_run-other p (popped q) s queues ws o e = ground arith
continue_run-other p (handling q n) s queues ws o e = elim (List-cases (queue q s)) [
  | inl nil ↦ ground arith
  | inr (m, ms, full) ↦ ground (arith, lookup-insert p q ms s.queues, nat_cmp_eq p q)
]

Step-IsStranded : (p m : ℕ) {s t : RunQueues} → Step s t → IsStranded p m s → IsStranded p m t
Step-IsStranded p m (call s q n e) h = push_back-IsStranded p m q n s h
Step-IsStranded p m (push s) h = continue_push-IsStranded p m s.pusher s h h.not_empty
Step-IsStranded p m (work s before after w queues ws split e) h =
    let count : workers p before + workers p (w ∷ after) ≡ 0 =
      sym (workers-append p before (w ∷ after)) ∙ ap (workers p) (sym split) ∙ h.nobody in
    let other = continue_run-other p w s queues ws (ground (arith, count)) e in
    record {
      rest = h.rest;
      first = other.0 ∙ h.first;
      nobody =
          ground (
            arith,
            count,
            other.1,
            workers-append p before (ws ++ after),
            workers-append p ws after,
          );
      not_empty = h.not_empty;
    }

Steps-IsStranded : (p m : ℕ) {s t : RunQueues} → Steps s t → IsStranded p m s → IsStranded p m t
Steps-IsStranded p m (here s) h = h
Steps-IsStranded p m (next step steps) h = Steps-IsStranded p m steps (Step-IsStranded p m step h)

-- The defect of push_back without a lock: from any state in which a port's one thread is done with the
-- last message of its queue and nobody is pushing, the threads may go on so that a message is pushed
-- for the port, push_back ends, and the message is left in the queue of a port without a thread. From
-- then on, whatever is pushed and whatever the threads do, it stays the first in that queue and the
-- port gets no thread.
pub push_back-strands :
    (p last m : ℕ) (before after : List Worker) (s : RunQueues)
    → IsLast p last before after s
    → (t : RunQueues) × Steps s t
      × (queue p t ≡ m ∷ [])
      × (workers p t.threads ≡ 0)
      × (t.pusher ≡ idle)
      × ((u : RunQueues) → Steps t u → IsStranded p m u)
unfolding push_back continue_push continue_run
push_back-strands p last m before after s h =
    let s1 = push_back p m s in
    let q2 : Map ℕ (List ℕ) = OrdMap.insert p [] s1.queues in
    let s2 : RunQueues = record s1 { queues = q2; threads = before ++ popped p ∷ after } in
    let s3 : RunQueues = record s2 { threads = before ++ after } in
    let s4 = continue_push s3.pusher s3 in
    let emptied = queue-inserted p [] s1.queues in
    let pushed = queue-inserted p (queue p s3 ++ m ∷ []) q2 in
    let left : queue p (continue_push s4.pusher s4) ≡ m ∷ [] = ground (arith, emptied, pushed) in
    let nobody : workers p (continue_push s4.pusher s4).threads ≡ 0 =
      ground (arith, h.queue, h.only) in
    (
      continue_push s4.pusher s4,
      next (call s p m h.pusher) (
          next
            (work s1 before after (handling p last) q2 (popped p ∷ []) h.threads
              (ground (arith, h.queue, queue-inserted p (queue p s) s.queues)))
            (next (work s2 before after (popped p) q2 [] refl (ground (arith, emptied)))
              (next (push s3) (next (push s4) (here _))))),
      left,
      nobody,
      refl,
      λ u steps.
          Steps-IsStranded p m steps
            (record { rest = []; first = left; nobody = nobody; not_empty = tt }),
    )

-- The other defect of push_back without a lock: from any state in which a port's one thread is done
-- with the last message of its queue and nobody is pushing, the threads may go on so that a message is
-- pushed for the port and, alone in the queue, is with two threads of the port at once.
pub push_back-doubles :
    (p last m : ℕ) (before after : List Worker) (s : RunQueues)
    → IsLast p last before after s
    → (t : RunQueues) × Steps s t
      × (queue p t ≡ m ∷ [])
      × (t.threads ≡ before ++ handling p m ∷ after ++ handling p m ∷ [])
unfolding push_back continue_push continue_run
push_back-doubles p last m before after s h =
    let q1 : Map ℕ (List ℕ) = OrdMap.insert p [] s.queues in
    let s1 : RunQueues = record s { queues = q1; threads = before ++ popped p ∷ after } in
    let s2 = push_back p m s1 in
    let s3 = continue_push s2.pusher s2 in
    let s4 : RunQueues = record s3 {
      threads = before ++ popped p ∷ after ++ starting p ∷ [];
      pusher = idle;
    } in
    let late = after ++ starting p ∷ [] in
    let early = λ (m' : ℕ). (before ++ handling p m' ∷ after) in
    let emptied = queue-inserted p [] s.queues in
    let tested = queue-inserted p (queue p s1) q1 in
    let pushed : queue p s4 ≡ m ∷ [] =
      ground (arith, emptied, tested, queue-inserted p (queue p s2 ++ m ∷ []) s2.queues) in
    let spawned : continue_push s3.pusher s3 ≡ s4 = ground (arith, emptied) in
    let s5 : RunQueues = record s4 { threads = before ++ starting p ∷ late } in
    let s6 : RunQueues = record s4 { threads = before ++ asserted p ∷ late } in
    let s7 : RunQueues = record s4 { threads = before ++ handling p m ∷ late } in
    let s8 : RunQueues = record s4 { threads = early m ++ asserted p ∷ [] } in
    let assoc = λ (w : Worker). (append_assoc before (w ∷ after) (starting p ∷ [])) in
    (
      record s4 { threads = early m ++ handling p m ∷ [] },
      next
          (work s before after (handling p last) q1 (popped p ∷ []) h.threads
            (ground (arith, h.queue)))
          (next (call s1 p m h.pusher) (
            next (push s2) (
              next (subst (λ u. Step s3 u) spawned (push s3)) (
                next
                  (work s4 before late (popped p) s4.queues (starting p ∷ []) (assoc (popped p))
                    (ground (arith, pushed)))
                  (next
                    (work s5 before late (starting p) s4.queues (asserted p ∷ []) refl
                      (ground (arith, pushed)))
                    (next
                      (work s6 before late (asserted p) s4.queues (handling p m ∷ []) refl
                        (ground (arith, pushed)))
                      (next
                        (work s7 (early m) [] (starting p) s4.queues (asserted p ∷ [])
                          (sym (assoc (handling p m))) (ground (arith, pushed)))
                        (next
                          (work s8 (early m) [] (asserted p) s4.queues (handling p m ∷ []) refl
                            (ground (arith, pushed)))
                          (here _))))))))),
      pushed,
      refl,
    )
