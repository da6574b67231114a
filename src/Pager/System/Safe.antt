-- ===== src/Pager/System/Safe.antt =====
-- The invariant holds in every state that the threads of a pager reach together.
use hurd.Base.{ℕ, Bool, true, List, [], ◌∷◌, ◌++◌, All}
use hurd.Pager.State.{Pager, ReturnMode}
use hurd.Pager.Step.{M, pure, ◌>>◌, Step, Reply, Keeps}
use hurd.Pager.Rpc.{
  Request, memory_object_init, memory_object_terminate, memory_object_data_request,
  memory_object_data_unlock, memory_object_lock_completed, memory_object_data_return,
  dead_name_notification, call_flush, call_sync, call_return, call_flush_some, call_sync_some,
  call_return_some, call_change_attributes, call_shutdown, lock_extent, stub, success, eopnotsupp,
  pager_shutdown, serve, new_pager,
}
use hurd.Pager.System.{
  Thread, System, Stretch, finished, released, allocated, Move, enter, resume, Reachable, here,
  next,
}
use hurd.Pager.Invariant.Defs.{Inv}
use hurd.Pager.Invariant.Rules.{
  Safe, Any, pure-Safe, if-Safe, bind-Safe, then-Safe, outside-Safe, send-Safe,
}
use hurd.Pager.Invariant.Locks.{lock_completed-Safe}
use hurd.Pager.Invariant.Request.{data_request-Safe, data_unlock-Safe}
use hurd.Pager.Invariant.Writeback.{data_return-Safe}
use hurd.Pager.Invariant.Clients.{
  object_init-Safe, object_terminate-Safe, dead_name-Safe, lock_object-Safe, change_attributes-Safe,
  shutdown-Safe,
}

lock_extent-Safe : (mode : ReturnMode) (flush wait : Bool) → Safe Any (lock_extent mode flush wait)
unfolding lock_extent
lock_extent-Safe mode flush wait =
    bind-Safe (outside-Safe _) (λ r _. lock_object-Safe _ _ mode flush wait)

stub-Safe : (is_pager : Bool) {m : M (Unit {0})} → Safe Any m → Safe Any (stub is_pager m)
unfolding stub
stub-Safe is_pager h =
    if-Safe is_pager (λ _. then-Safe h (pure-Safe success tt)) (λ _. pure-Safe eopnotsupp tt)

served-Safe : {m : M (Unit {0})} → Safe Any m → Safe Any (stub true m >> pure tt)
served-Safe h = then-Safe (stub-Safe true h) (pure-Safe tt tt)

-- Every call of the library keeps the invariant at each release of the lock, provided that the
-- other threads do so while the lock is theirs.
pub serve-Safe : (fuel : ℕ) (q : Request) → Safe Any (serve fuel q)
unfolding serve pager_shutdown
serve-Safe fuel (memory_object_init c n p) = served-Safe (object_init-Safe c p)
serve-Safe fuel (memory_object_terminate c n) = served-Safe (object_terminate-Safe fuel c n)
serve-Safe fuel (memory_object_data_request c o l a) = served-Safe (data_request-Safe c o l a)
serve-Safe fuel (memory_object_data_unlock c o l a) = served-Safe (data_unlock-Safe c o l)
serve-Safe fuel (memory_object_lock_completed c o l) = served-Safe (lock_completed-Safe c o l)
serve-Safe fuel (memory_object_data_return c o a l d k) =
    served-Safe (data_return-Safe fuel c o a l d k)
serve-Safe fuel (dead_name_notification c) =
    if-Safe true (λ _. dead_name-Safe fuel c) (λ _. pure-Safe tt tt)
serve-Safe fuel (call_flush w) = lock_extent-Safe _ _ w
serve-Safe fuel (call_flush_some o l w) = lock_object-Safe o l _ _ w
serve-Safe fuel (call_sync w) = lock_extent-Safe _ _ w
serve-Safe fuel (call_sync_some o l w) = lock_object-Safe o l _ _ w
serve-Safe fuel (call_return w) = lock_extent-Safe _ _ w
serve-Safe fuel (call_return_some o l w) = lock_object-Safe o l _ _ w
serve-Safe fuel (call_change_attributes m c w) = change_attributes-Safe m c w
serve-Safe fuel call_shutdown = then-Safe shutdown-Safe (send-Safe _)

-- A thread that keeps the invariant from any state that has it.
abbrev pub IsSafeThread : Thread → Type 0
IsSafeThread k = (r : ℕ → Reply) (s : Pager) → Inv s → Keeps Inv (λ _ s'. Inv s' × Unit {0}) (k r s)

pub record IsSafe (y : System) : Type 0 where
  pub pager_inv : Inv y.pager
  pub threads_safe : All IsSafeThread y.threads

Stretch-Safe :
    {m : Step (Unit {0})} {s : Pager} {ts : List Thread}
    → Stretch m s ts
    → Keeps Inv (λ _ s'. Inv s' × Unit {0}) m
    → Inv s × All IsSafeThread ts
Stretch-Safe (finished s) h = (h.0, tt)
Stretch-Safe (released cs s k) h = (h.0, (h.1, tt))
Stretch-Safe (allocated port st) h = Stretch-Safe st (h port)

module _ (P : Thread → Type 0) where
  All-append : (xs ys : List Thread) → All P xs → All P ys → All P (xs ++ ys)
  All-append [] ys h k = k
  All-append (x ∷ xs) ys h k = (h.0, All-append xs ys h.1 k)

  All-take_out :
      (xs : List Thread) (k : Thread) (ys : List Thread)
      → All P (xs ++ k ∷ ys)
      → All P xs × P k × All P ys
  All-take_out [] k ys h = (tt, h.0, h.1)
  All-take_out (x ∷ xs) k ys h =
      let rest = All-take_out xs k ys h.1 in ((h.0, rest.0), rest.1, rest.2)

Move-IsSafe : {fuel : ℕ} {a b : System} → Move fuel a b → IsSafe a → IsSafe b
Move-IsSafe {fuel} (enter s s' threads new q st) h =
    let after = Stretch-Safe st ((serve-Safe fuel q).run s h.pager_inv) in
    record {
      pager_inv = after.0;
      threads_safe = All-append IsSafeThread _ _ h.threads_safe after.1;
    }
Move-IsSafe (resume s s' before after new k r st) h =
    let parts = All-take_out IsSafeThread before k after h.threads_safe in
    let done = Stretch-Safe st (parts.1 r s h.pager_inv) in
    record {
      pager_inv = done.0;
      threads_safe =
          All-append IsSafeThread before _ parts.0 (All-append IsSafeThread after _ parts.2 done.1);
    }

Reachable-IsSafe : {fuel : ℕ} {a b : System} → IsSafe a → Reachable fuel a b → IsSafe b
Reachable-IsSafe h here = h
Reachable-IsSafe h (next r m) = Move-IsSafe m (Reachable-IsSafe h r)

-- From a new pager on, whatever calls come in, whatever they are answered and however their
-- threads interleave, in every state in which the lock is free: a client is recorded as locked
-- only with a positive count, a range only with some client, and the ACCESSLIST of each page and
-- the set of clients are in ascending order without repetition.
pub Reachable-Inv :
    (fuel port page_size copy_strategy : ℕ) (may_cache notify : Bool) (y : System)
    → Reachable fuel
        (record { pager = new_pager port page_size may_cache copy_strategy notify; threads = [] })
        y
    → Inv y.pager
Reachable-Inv fuel port page_size copy_strategy may_cache notify y r =
    (Reachable-IsSafe start r).pager_inv
  where
    start :
        IsSafe
          (record { pager = new_pager port page_size may_cache copy_strategy notify; threads = [] })
    start = record {
      pager_inv = record { locks_awaited = tt; access_sorted = tt; clients_sorted = tt };
      threads_safe = tt;
    }
