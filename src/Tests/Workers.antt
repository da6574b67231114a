-- ===== src/Tests/Workers.antt =====
-- Runs of the linked queue and of the worker pool.
use hurd.Base.{
  ℕ, ◌≡◌, ◌≢◌, ◌<◌, refl, true, false, some, none, List, [], ◌∷◌, ◌++◌, arith, is_empty, length,
  get_or,
}
use hurd.Demuxer.Queue.{QueueOp, enqueue, dequeue, run, queue_init, queue_empty}
use hurd.Demuxer.Queue.Refines.{Holds, run_list, run-Holds_list}
use hurd.Demuxer.Workers.{
  Request, serving, waiting, woken, new_worker, start_workers, signal, pager_demuxer, delegate,
  take_request, get_request, next_request, inhibit,
}
use hurd.Demuxer.Workers.System.{
  System, running, inhibited, Action, receive, enter, start_inhibit, return_inhibited, start,
  execute,
}
use hurd.Demuxer.Workers.Tags.{of, positions}
use hurd.Demuxer.Workers.Sleeping.{sleeps, all_waiting}
use hurd.Demuxer.Workers.Critical.{pending}
use hurd.Demuxer.Workers.Invariant.{incoming}
use hurd.Demuxer.Workers.Promises.{
  execute-in_order, serving-distinct, all_waiting-nothing_queued, inhibited-quiet,
}

abbrev ops : List QueueOp
ops = enqueue 5 ∷ enqueue 7 ∷ dequeue ∷ dequeue ∷ dequeue ∷ enqueue 5 ∷ []

run-Holds_list_example :
    ((run ops (queue_init (λ a. 9))).0 ≡ (run_list ops []).0)
    × Holds (run_list ops []).1 (run ops (queue_init (λ a. 9))).1
    × (queue_empty (run ops (queue_init (λ a. 9))).1 ≡ is_empty (run_list ops []).1)
run-Holds_list_example = run-Holds_list ops (λ a. 9) (ground arith)

abbrev first : Request
first = record { object = 7; message = 1 }

abbrev second : Request
second = record { object = 8; message = 2 }

abbrev two_served : List Action
two_served = receive true true 0 first ∷ receive true true 0 second ∷ enter 0 ∷ enter 1 ∷ []

execute-in_order_example :
    (z : System) × (execute two_served (start 2) ≡ some z)
    × ((t : ℕ)
        → t ≢ 0
        → of t z.received ≡ of t z.started ++ (pending t z.requests ++ of t (incoming z.requests)))
execute-in_order_example = execute-in_order 1 two_served

abbrev both_at_work : System
both_at_work = record {
  requests = record {
    queue_in = none;
    queue_out = [];
    asleep = 0;
    workers =
        record { queue = []; tag = 7; position = serving first }
        ∷ record { queue = []; tag = 8; position = serving second }
        ∷ [];
  };
  caller = running;
  received = first ∷ second ∷ [];
  started = first ∷ second ∷ [];
}

serving-distinct_example : first.object ≢ second.object
unfolding start_workers pager_demuxer delegate take_request get_request next_request
serving-distinct_example =
    serving-distinct 1 two_served both_at_work 0 1 first second refl (ground arith) refl refl

abbrev one_signalled : List Action
one_signalled = enter 0 ∷ receive true true 0 first ∷ []

abbrev one_woken : System
one_woken = record {
  requests = record {
    queue_in = none;
    queue_out = first ∷ [];
    asleep = 1;
    workers = record { queue = []; tag = 0; position = woken } ∷ [];
  };
  caller = running;
  received = first ∷ [];
  started = [];
}

all_waiting-nothing_queued_example : all_waiting (positions one_woken.requests.workers) ≡ false
unfolding start_workers pager_demuxer signal delegate take_request get_request next_request
all_waiting-nothing_queued_example =
    all_waiting-nothing_queued 0 one_signalled one_woken refl (ground arith)

abbrev one_inhibited : List Action
one_inhibited = enter 0 ∷ start_inhibit true ∷ receive true true 0 first ∷ return_inhibited ∷ []

abbrev one_asleep : System
one_asleep = record {
  requests = record {
    queue_in = some (first ∷ []);
    queue_out = [];
    asleep = 1;
    workers = record { queue = []; tag = 0; position = waiting } ∷ [];
  };
  caller = inhibited;
  received = first ∷ [];
  started = [];
}

inhibited-quiet_example :
    (one_asleep.requests.queue_out ≡ [])
    × ((i : ℕ)
        → i < length one_asleep.requests.workers
        → (sleeps (get_or one_asleep.requests.workers i new_worker).position ≡ 1)
          × ((get_or one_asleep.requests.workers i new_worker).queue ≡ []))
    × ((t : ℕ)
        → t ≢ 0
        → of t one_asleep.received ≡ of t one_asleep.started ++ of t (incoming one_asleep.requests))
unfolding start_workers pager_demuxer delegate take_request get_request next_request inhibit
inhibited-quiet_example = inhibited-quiet 0 one_inhibited one_asleep refl refl
