-- ===== src/Demuxer/Workers.antt =====
-- libpager/demuxer.c: the requests of a pager and the threads that serve them. Each stretch of a thread
-- that holds the lock is one function; Step puts them in any order. The queues of queue.h are lists.
pub mod Tags
mod Taking
mod Threads
pub mod Sleeping
mod Settling
pub mod Critical
mod Sections
pub mod Invariant
mod Arrivals
mod Inhibiting
pub mod Reachable
pub mod Promises
pub mod System
use hurd.Base.{
  ℕ, zero, suc, ◌≡◌, ◌+◌, ◌-◌, Bool, true, false, Option, none, some, List, [], ◌∷◌, ◌++◌, ◌==◌,
  ltb, not, ◌&&◌, if◌then◌else◌, length, get_or, set, is_empty, replicate,
}

-- A request: the message's msgh_local_port, which is the tag of the object, and which message it is.
pub record Request : Type 0 where
  pub object : ℕ
  pub message : ℕ

-- Where worker_func stands: before its critical section, serving a request, in pthread_cond_wait, or
-- woken from there and waiting for the lock.
pub data Position : Type 0 where
  at_loop : Position
  serving : Request → Position
  waiting woken : Position

pub record WorkerThread : Type 0 where
  pub queue : List Request
  pub tag : ℕ
  pub position : Position

-- `queue_in` is `none` while it is the same queue as `queue_out`.
pub record PagerRequests : Type 0 where
  pub queue_in : Option (List Request)
  pub queue_out : List Request
  pub asleep : ℕ
  pub workers : List WorkerThread

-- pager_start_workers, for a number of workers: the source has WORKER_COUNT.
abbrev pub new_worker : WorkerThread
new_worker = record { queue = []; tag = 0; position = at_loop }

unfoldable pub start_workers : ℕ → PagerRequests
start_workers count = record {
  queue_in = none;
  queue_out = [];
  asleep = 0;
  workers = replicate count new_worker;
}

abbrev pub is_waiting : Position → Bool
is_waiting waiting = true
is_waiting _ = false

-- pthread_cond_broadcast wakes all threads that wait.
abbrev pub wake_all : List WorkerThread → List WorkerThread
wake_all [] = []
wake_all (w ∷ ws) =
    (if is_waiting w.position then record w { position = woken } else w) ∷ wake_all ws

-- pthread_cond_signal wakes one thread that waits, if there is one: the one at `chosen` or, if that one
-- does not wait, the first.
abbrev pub wake_first : List WorkerThread → List WorkerThread
wake_first [] = []
wake_first (w ∷ ws) =
    let rest = wake_first ws in
    if is_waiting w.position then record w { position = woken } ∷ ws else w ∷ rest

abbrev pub wake_at : ℕ → List WorkerThread → List WorkerThread
wake_at i [] = []
wake_at zero (w ∷ ws) = record w { position = woken } ∷ ws
wake_at (suc i) (w ∷ ws) = w ∷ wake_at i ws

unfoldable pub signal : ℕ → List WorkerThread → List WorkerThread
signal chosen ws =
    if is_waiting (get_or ws chosen new_worker).position then wake_at chosen ws else wake_first ws

pub data Accepted : Type 0 where
  unknown_message no_memory queued : Accepted

-- pager_demuxer, by whether a routine is found for the message and whether malloc succeeds.
unfoldable pub pager_demuxer : Bool → Bool → ℕ → Request → PagerRequests → Accepted × PagerRequests
pager_demuxer false memory chosen r s = (unknown_message, s)
pager_demuxer true false chosen r s = (no_memory, s)
pager_demuxer true true chosen r s = (
  queued,
  elim s.queue_in [
    | some q ↦ record s { queue_in = some (q ++ r ∷ []) }
    | none ↦ record s {
      queue_out = s.queue_out ++ r ∷ [];
      workers = if ltb 0 s.asleep then signal chosen s.workers else s.workers;
    }
  ],
)

-- The loop over the workers in get_request_locked: the first that works on the request's object gets
-- the request.
unfoldable pub delegate : Request → List WorkerThread → Option (List WorkerThread)
delegate r [] = none
delegate r (w ∷ ws) =
    let rest = delegate r ws in
    if w.tag == r.object
    then some (record w { queue = w.queue ++ r ∷ [] } ∷ ws)
    else elim rest [ none ↦ none | some ws' ↦ some (w ∷ ws') ]

-- get_request_locked, up to a request that nobody works on or to the end of the queue: the request, the
-- rest of the queue and the workers.
unfoldable pub take_request :
    List Request → List WorkerThread → Option Request × List Request × List WorkerThread
take_request [] ws = (none, [], ws)
take_request (r ∷ rs) ws = elim (delegate r ws) [
  | none ↦ (some r, rs, ws)
  | some ws' ↦ take_request rs ws'
]

-- From get_request_locked until the thread `i` leaves the lock, for a request or in
-- pthread_cond_wait. The broadcast to inhibit_wakeup has no place here: the caller that waits for it
-- looks at any time.
unfoldable pub get_request : ℕ → PagerRequests → PagerRequests
get_request i s =
    let (found, rest, ws) = take_request s.queue_out s.workers in
    let w = get_or ws i new_worker in
    elim found [
      | some r ↦ record s {
        queue_out = rest;
        workers = set ws i (record w { tag = r.object; position = serving r });
      }
      | none ↦ record s {
        queue_out = rest;
        asleep = s.asleep + 1;
        workers = set ws i (record w { position = waiting });
      }
    ]

-- The critical section at the head of worker_func's loop.
unfoldable pub next_request : ℕ → PagerRequests → PagerRequests
next_request i s =
    let w = get_or s.workers i new_worker in
    elim w.queue [
      | r ∷ q ↦ record s {
        workers = set s.workers i (record w { queue = q; position = serving r });
      }
      | [] ↦ get_request i (record s { workers = set s.workers i (record w { tag = 0 }) })
    ]

-- The return from pthread_cond_wait.
unfoldable pub wake_up : ℕ → PagerRequests → PagerRequests
wake_up i s = get_request i (record s { asleep = s.asleep - 1 })

-- The server routine and the reply, without the lock.
unfoldable pub finish : ℕ → PagerRequests → PagerRequests
finish i s = record s {
  workers = set s.workers i (record (get_or s.workers i new_worker) { position = at_loop });
}

abbrev pub is_inhibited : PagerRequests → Bool
is_inhibited s = elim s.queue_in [ none ↦ false | some q ↦ true ]

-- pager_inhibit_workers up to its wait, by whether malloc succeeds; `none` is a failed assert. If malloc
-- fails it returns ENOMEM.
unfoldable pub inhibit : Bool → PagerRequests → Option PagerRequests
inhibit memory s =
    if is_inhibited s then none else some (if memory then record s { queue_in = some [] } else s)

-- The loop of pager_inhibit_workers ends.
abbrev pub is_drained : PagerRequests → Bool
is_drained s = not (ltb s.asleep (length s.workers)) && is_empty s.queue_out

-- pager_resume_workers; `none` is a failed assert.
unfoldable pub resume : PagerRequests → Option PagerRequests
resume s = elim s.queue_in [
  | none ↦ none
  | some q ↦
      if (s.asleep == length s.workers) && is_empty s.queue_out
      then some (record s { queue_out = q; queue_in = none; workers = wake_all s.workers })
      else none
]
