-- ===== src/Demuxer/Workers/Critical.antt =====
-- libpager/demuxer.c: a worker's critical sections keep the queues, the tags and the count of sleeping
-- threads in step.
use hurd.Base.{
  ℕ, ◌+◌, ◌≡◌, ◌≢◌, ◌<◌, ◌⊎◌, refl, sym, ap, ◌∙◌, false, Option, none, some, List, [], ◌++◌, arith,
  length, get_or, set, inl, inr,
}
use hurd.Demuxer.Workers.{
  Request, serving, waiting, WorkerThread, PagerRequests, new_worker, take_request, get_request,
}
use hurd.Demuxer.Workers.System.{started_at, just_started}
use hurd.Demuxer.Workers.Tags.{positions, of, held}
use hurd.Demuxer.Workers.Taking.{to_list, Taken, take_request-Taken}
use hurd.Demuxer.Workers.Threads.{get_or-set, length-set, map-set, get_or-map, length-map}
use hurd.Demuxer.Workers.Sleeping.{sleeps, sleepers, sleepers-set, all_waiting, all_waiting-set}
use hurd.Demuxer.Workers.Settling.{
  IsOrdered, IsIdle, settled, settled-IsOrdered, settled-order, length_kept, Taken-IsIdle,
}

-- The requests of an object that wait, but for those that came while the workers were inhibited.
abbrev pub pending : ℕ → PagerRequests → List Request
pending t s = held t s.workers ++ of t s.queue_out

-- `asleep` counts the threads that sleep, and not all wait while there is a request for them.
pub record IsInStep (s : PagerRequests) : Type 0 where
  pub some_worker : 0 < length s.workers
  pub ordered : IsOrdered s.queue_out s.workers
  pub count : s.asleep ≡ sleepers (positions s.workers)
  pub awake : (s.queue_out ≡ []) ⊎ (all_waiting (positions s.workers) ≡ false)

-- What a critical section of the worker `i` does.
pub record Served (i : ℕ) (s s' : PagerRequests) : Type 0 where
  pub in_step : IsInStep s'
  pub same_length : length s'.workers ≡ length s.workers
  pub same_in : s'.queue_in ≡ s.queue_in
  pub order : (t : ℕ) → t ≢ 0 → of t (just_started i s') ++ pending t s' ≡ pending t s

abbrev after : ℕ → PagerRequests → Option Request → List Request → List WorkerThread → PagerRequests
after i s none rest ws = record s {
  queue_out = rest;
  asleep = s.asleep + 1;
  workers = settled i none ws;
}
after i s (some r) rest ws = record s { queue_out = rest; workers = settled i (some r) ws }

get_request_lem :
    (i : ℕ) (s : PagerRequests)
    → let (found, rest, ws) = take_request s.queue_out s.workers in
      get_request i s ≡ after i s found rest ws
unfolding get_request
get_request_lem i s = ground arith

pub positions-set :
    (i : ℕ) (ws : List WorkerThread) (v : WorkerThread)
    → i < length ws
    → sleepers (positions (set ws i v)) + sleeps (get_or ws i new_worker).position
      ≡ sleepers (positions ws) + sleeps v.position
positions-set i ws v h =
    rw (map-set (λ w. w.position) ws i v, sym (get_or-map (λ w. w.position) ws i new_worker))
      (sleepers-set (positions ws) i v.position (omega (arith, h, length-map (λ w. w.position) ws)))

-- The count after the worker `i` has moved to a position.
count-moved :
    (i : ℕ) (q : List Request) (ws : List WorkerThread) (found : Option Request)
    (rest : List Request) (ws' : List WorkerThread) (v : WorkerThread) (n : ℕ)
    → IsIdle i ws
    → Taken q ws found rest ws'
    → n + sleeps (get_or ws i new_worker).position ≡ sleepers (positions ws)
    → n + sleeps v.position ≡ sleepers (positions (set ws' i v))
count-moved i q ws found rest ws' v n d t c = omega (
  arith,
  c,
  positions-set i ws' v (Taken-IsIdle i q ws found rest ws' d t).in_range,
  ap (λ ps. sleepers ps) t.kept_positions,
  ap (λ w. sleeps w.position) (t.untagged i d.no_tag),
)

-- What the worker starts is what it has found.
started-settled :
    (i : ℕ) (ws : List WorkerThread) (found : Option Request)
    → i < length ws
    → started_at (get_or (settled i found ws) i new_worker).position ≡ to_list found
started-settled i ws none h =
    ap (λ w. started_at w.position)
      (get_or-set ws i (record (get_or ws i new_worker) { position = waiting }) new_worker h)
started-settled i ws (some r) h =
    ap (λ w. started_at w.position)
      (get_or-set ws i (record (get_or ws i new_worker) { tag = r.object; position = serving r })
        new_worker h)

Served-after :
    (i : ℕ) (s : PagerRequests) (found : Option Request) (rest : List Request)
    (ws : List WorkerThread)
    → 0 < length s.workers
    → IsOrdered s.queue_out s.workers
    → IsIdle i s.workers
    → s.asleep + sleeps (get_or s.workers i new_worker).position ≡ sleepers (positions s.workers)
    → Taken s.queue_out s.workers found rest ws
    → Served i s (after i s found rest ws)
Served-after i s none rest ws l o d c t =
    let idle = Taken-IsIdle i s.queue_out s.workers none rest ws d t in
    let v : WorkerThread = record (get_or ws i new_worker) { position = waiting } in
    let len = length_kept s.workers ws t.kept_tags in
    record {
      in_step = record {
        some_worker = omega (arith, l, len, length-set ws i v);
        ordered = settled-IsOrdered i s.queue_out s.workers none rest ws o d t;
        count = count-moved i s.queue_out s.workers none rest ws v s.asleep d t c;
        awake = inl t.is_found;
      };
      same_length = length-set ws i v ∙ len;
      same_in = refl;
      order = λ object n.
          ap (λ rs. of object rs ++ (held object (settled i none ws) ++ of object rest))
            (started-settled i ws none idle.in_range)
          ∙ settled-order i s.queue_out s.workers none rest ws object n o d t;
    }
Served-after i s (some r) rest ws l o d c t =
    let idle = Taken-IsIdle i s.queue_out s.workers (some r) rest ws d t in
    let v : WorkerThread = record (get_or ws i new_worker) {
      tag = r.object;
      position = serving r;
    } in
    let len = length_kept s.workers ws t.kept_tags in
    record {
      in_step = record {
        some_worker = omega (arith, l, len, length-set ws i v);
        ordered = settled-IsOrdered i s.queue_out s.workers (some r) rest ws o d t;
        count =
            omega (arith, count-moved i s.queue_out s.workers (some r) rest ws v s.asleep d t c);
        awake = inr (
            rw (map-set (λ w. w.position) ws i v) (
              all_waiting-set (positions ws) i (serving r)
                (omega (arith, idle.in_range, length-map (λ w. w.position) ws)) refl));
      };
      same_length = length-set ws i v ∙ len;
      same_in = refl;
      order = λ object n.
          ap (λ rs. of object rs ++ (held object (settled i (some r) ws) ++ of object rest))
            (started-settled i ws (some r) idle.in_range)
          ∙ settled-order i s.queue_out s.workers (some r) rest ws object n o d t;
    }

pub get_request-Served :
    (i : ℕ) (s : PagerRequests)
    → 0 < length s.workers
    → IsOrdered s.queue_out s.workers
    → IsIdle i s.workers
    → s.asleep + sleeps (get_or s.workers i new_worker).position ≡ sleepers (positions s.workers)
    → Served i s (get_request i s)
get_request-Served i s l o d c =
    let (found, rest, ws) = take_request s.queue_out s.workers in
    rw (get_request_lem i s) (
      Served-after i s found rest ws l o d c
        (take_request-Taken s.queue_out s.workers o.objects o.coherent))
