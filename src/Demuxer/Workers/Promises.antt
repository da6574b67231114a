-- ===== src/Demuxer/Workers/Promises.antt =====
-- libpager/demuxer.c: what the comments on the worker pool promise.
use hurd.Base.{
  ℕ, zero, suc, ◌≡◌, ◌≢◌, ◌<◌, refl, sym, ap, ◌∙◌, subst, false, some, List, [], ◌∷◌, ◌++◌, arith,
  length, get_or, inl, inr,
}
use hurd.Demuxer.Workers.{Request, serving, WorkerThread, new_worker}
use hurd.Demuxer.Workers.System.{System, inhibited, Action, start, execute}
use hurd.Demuxer.Workers.Tags.{tags, positions, of, IsFor, IsPlaced, Avoids}
use hurd.Demuxer.Workers.Threads.{AreDistinct, AreDistinct-ne, held-avoided, get_or-map}
use hurd.Demuxer.Workers.Sleeping.{sleeps, all_waiting}
use hurd.Demuxer.Workers.Settling.{IsIdle, IsCoherent-at}
use hurd.Demuxer.Workers.Critical.{pending}
use hurd.Demuxer.Workers.Sections.{IsIdle-asleep}
use hurd.Demuxer.Workers.Invariant.{incoming, IsQuiet, Inv, sleeps_inhibited}
use hurd.Demuxer.Workers.Reachable.{reached}

-- The system that a sequence of actions reaches keeps the invariant.
reached-Inv :
    (n : ℕ) (actions : List Action) (z : System) → execute actions (start (suc n)) ≡ some z → Inv z
reached-Inv n actions z e =
    let (y, ey, h) = reached n actions in subst Inv (ground (arith, e, ey)) h

-- The asserts of pager_inhibit_workers and pager_resume_workers never fail if one caller calls them in
-- turn, and the requests to each object are started in the order in which they were received: with at
-- least one worker, whatever the threads do and in whatever order, the requests received for an object,
-- whose port is not MACH_PORT_NULL, are those started, followed by those in the queue of the worker
-- with the object's tag, those in queue_out and those in queue_in while that is another queue.
pub execute-in_order :
    (n : ℕ) (actions : List Action)
    → (z : System) × (execute actions (start (suc n)) ≡ some z)
      × ((t : ℕ)
          → t ≢ 0
          → of t z.received
            ≡ of t z.started ++ (pending t z.requests ++ of t (incoming z.requests)))
execute-in_order n actions = let (z, e, h) = reached n actions in (z, e, h.order)

AreDistinct-same :
    (ts : List ℕ) (i j : ℕ)
    → AreDistinct ts
    → i ≢ j
    → get_or ts i 0 ≢ 0
    → get_or ts i 0 ≢ get_or ts j 0
AreDistinct-same [] i j h n e = absurd (e refl)
AreDistinct-same (t ∷ ts) zero zero h n e = absurd (n refl)
AreDistinct-same (t ∷ ts) zero (suc j) h n e =
    λ z. AreDistinct-ne t (get_or ts j 0) ts j (λ y. e (z ∙ y)) h refl z
AreDistinct-same (t ∷ ts) (suc i) zero h n e =
    λ z. AreDistinct-ne t (get_or ts i 0) ts i e h refl (sym z)
AreDistinct-same (t ∷ ts) (suc i) (suc j) h n e = AreDistinct-same ts i j h.1 (λ z. n (ap suc z)) e

-- No two workers serve requests to the same object at the same time, after any actions of the threads.
pub serving-distinct :
    (n : ℕ) (actions : List Action) (z : System) (i j : ℕ) (r q : Request)
    → execute actions (start (suc n)) ≡ some z
    → i ≢ j
    → (get_or z.requests.workers i new_worker).position ≡ serving r
    → (get_or z.requests.workers j new_worker).position ≡ serving q
    → r.object ≢ q.object
serving-distinct n actions z i j r q e ne pi pj =
    let ws = z.requests.workers in
    let h = (reached-Inv n actions z e).in_step.ordered in
    let mine : IsFor (get_or ws i new_worker).tag r =
      subst (λ p. IsPlaced (get_or ws i new_worker).tag p) pi (IsCoherent-at i ws h.coherent).1 in
    let other : IsFor (get_or ws j new_worker).tag q =
      subst (λ p. IsPlaced (get_or ws j new_worker).tag p) pj (IsCoherent-at j ws h.coherent).1 in
    let at_i : get_or (tags ws) i 0 ≡ (get_or ws i new_worker).tag =
      get_or-map (λ w. w.tag) ws i new_worker in
    let at_j : get_or (tags ws) j 0 ≡ (get_or ws j new_worker).tag =
      get_or-map (λ w. w.tag) ws j new_worker in
    λ same.
      AreDistinct-same (tags ws) i j h.distinct ne (λ y. mine.1 (sym at_i ∙ y))
        (at_i ∙ sym mine.0 ∙ same ∙ other.0 ∙ sym at_j)

-- No wakeup is lost: after any actions of the threads, while the workers' queue holds a request some
-- worker is at work or has been woken up.
pub all_waiting-nothing_queued :
    (n : ℕ) (actions : List Action) (z : System)
    → execute actions (start (suc n)) ≡ some z
    → z.requests.queue_out ≢ []
    → all_waiting (positions z.requests.workers) ≡ false
all_waiting-nothing_queued n actions z e q = elim (reached-Inv n actions z e).in_step.awake [
  | inl none_queued ↦ absurd (q none_queued)
  | inr awake ↦ awake
]

untagged_all :
    (ws : List WorkerThread) (t : ℕ)
    → t ≢ 0
    → ((i : ℕ) → i < length ws → (get_or ws i new_worker).tag ≡ 0)
    → Avoids t (tags ws)
untagged_all [] t e h = tt
untagged_all (w ∷ ws) t e h = (
  (λ z. e (sym z ∙ h 0 (omega arith))),
  untagged_all ws t e (λ i l. h (suc i) (omega (arith, l))),
)

-- When pager_inhibit_workers has returned, and until pager_resume_workers, after any actions of the
-- threads: the workers' queue is empty, each worker sleeps with an empty queue of its own, and of each
-- object the requests received are those started and those that came into the new queue.
pub inhibited-quiet :
    (n : ℕ) (actions : List Action) (z : System)
    → execute actions (start (suc n)) ≡ some z
    → z.caller ≡ inhibited
    → (z.requests.queue_out ≡ [])
      × ((i : ℕ)
          → i < length z.requests.workers
          → (sleeps (get_or z.requests.workers i new_worker).position ≡ 1)
            × ((get_or z.requests.workers i new_worker).queue ≡ []))
      × ((t : ℕ) → t ≢ 0 → of t z.received ≡ of t z.started ++ of t (incoming z.requests))
inhibited-quiet n actions z e c =
    let s = z.requests in
    let h = reached-Inv n actions z e in
    let q : IsQuiet inhibited s = subst (λ d. IsQuiet d s) c h.quiet in
    let asleep : (i : ℕ)
        → i < length s.workers
        → sleeps (get_or s.workers i new_worker).position ≡ 1 =
      λ i l. sleeps_inhibited i s h.in_step q.1 l in
    let idle : (i : ℕ) → i < length s.workers → IsIdle i s.workers =
      λ i l. IsIdle-asleep i s.workers h.in_step.ordered.coherent l (asleep i l) in
    (
      q.2,
      (λ i l. (asleep i l, (idle i l).no_requests)),
      (λ t ne.
          h.order t ne
          ∙ ap (λ rs. of t z.started ++ ((rs ++ of t s.queue_out) ++ of t (incoming s)))
              (held-avoided t s.workers (untagged_all s.workers t ne (λ i l. (idle i l).no_tag)))
          ∙ ap (λ rs. of t z.started ++ (of t rs ++ of t (incoming s))) q.2),
    )
