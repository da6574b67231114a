-- ===== src/Pager/Invariant/Clients.antt =====
-- The arrival and departure of clients, locks asked for by the filesystem and attribute changes
-- keep the invariant.
use hurd.Base.{
  ℕ, zero, suc, ◌<◌, Bool, List, [], ◌∷◌, Option, none, some, arith, map, All, Bool-cases, inl, inr,
  insert-IsSorted, erase-IsSorted,
}
use hurd.Base.OrdMap.{Map, AllValues-erase, AllValues-lookup, nat_key, pair_key}
use hurd.Pagemap.Entry.{EntryData, is_client_on_access_list}
use hurd.Pager.State.{Pager, ClientLock, ReturnMode}
use hurd.Pager.Clients.{
  object_init, drop_locks, drop_from_page, answer_changes, drop_client, object_terminate, dead_name,
  drop_clients, destroy,
}
use hurd.Pager.Control.{
  count_request, request_async, request_sync, lock_object, allocate, change_async, change_sync,
  await_changes, change_attributes, shutdown,
}
use hurd.Pager.Invariant.Defs.{IsAwaited, HasSortedAccess}
use hurd.Pager.Invariant.Rules.{
  Safe, Any, pure-Safe, bind-Safe, then-Safe, get-Safe, gets-Safe, modify-Safe, send-Safe, if-Safe,
  when-Safe, assert-Safe, outside-Safe, on_option-Safe, fail-Safe,
}
use hurd.Pager.Invariant.Waitlist.{insert-IsAwaited, at_locks-Inv}
use hurd.Pager.Invariant.Locks.{settle-Safe, internal_lock_completed-Safe}

pub object_init-Safe : (control pagesize : ℕ) → Safe Any (object_init control pagesize)
unfolding object_init
object_init-Safe control pagesize = bind-Safe get-Safe (λ s _. assert-Safe _ (λ _.
    if-Safe s.terminating (λ _. pure-Safe tt tt)
      (λ _.
        then-Safe
          (modify-Safe _ (λ t i. record {
            locks_awaited = i.locks_awaited;
            access_sorted = i.access_sorted;
            clients_sorted = insert-IsSorted control t.clients i.clients_sorted;
          }))
          (then-Safe (send-Safe _) (send-Safe _)))))

pub drop_locks-Safe :
    (fuel control : ℕ) (it : Option (ℕ × ℕ)) → Safe Any (drop_locks fuel control it)
unfolding drop_locks
drop_locks-Safe zero control it = fail-Safe _
drop_locks-Safe (suc fuel) control none = pure-Safe tt tt
drop_locks-Safe (suc fuel) control (some (offset, length)) = bind-Safe get-Safe (λ s i.
    on_option-Safe _ (λ _. fail-Safe _)
      (λ locks e.
        then-Safe
          (settle-Safe _ _ (
            AllValues-erase (λ (l : ClientLock). 0 < l.count) control locks
              (AllValues-lookup IsAwaited (offset, length) s.outstanding_locks i.locks_awaited
                e).1))
          (bind-Safe (gets-Safe {Q = Any} _ (λ _ _. tt)) (λ it _.
            then-Safe (when-Safe _ (internal_lock_completed-Safe control offset length))
              (drop_locks-Safe fuel control it)))))

drop_from_page-HasSortedAccess :
    (control : ℕ) (e : EntryData) → HasSortedAccess e → HasSortedAccess (drop_from_page control e)
drop_from_page-HasSortedAccess control e h =
    elim (Bool-cases (is_client_on_access_list control e)) [
      | inl on ↦ rw on (erase-IsSorted control e.access_list h)
      | inr off ↦ rw off h
    ]

pub map-drop_from_page :
    (control : ℕ) (es : List EntryData)
    → All HasSortedAccess es
    → All HasSortedAccess (map (drop_from_page control) es)
map-drop_from_page control [] h = tt
map-drop_from_page control (e ∷ es) h =
    (drop_from_page-HasSortedAccess control e h.0, map-drop_from_page control es h.1)

pub answer_changes-Safe :
    (control : ℕ) (requests : List ((ℕ × ℕ) × Unit {0}))
    → Safe Any (answer_changes control requests)
unfolding answer_changes
answer_changes-Safe control [] = pure-Safe tt tt
answer_changes-Safe control (((client, reply), _) ∷ requests) =
    then-Safe (when-Safe _ (send-Safe _)) (answer_changes-Safe control requests)

pub drop_client-Safe : (fuel control : ℕ) → Safe Any (drop_client fuel control)
unfolding drop_client
drop_client-Safe fuel control = bind-Safe get-Safe (λ s _.
    then-Safe (drop_locks-Safe fuel control _) (
      then-Safe
        (modify-Safe _ (λ t i. record {
          locks_awaited = i.locks_awaited;
          access_sorted = map-drop_from_page control t.pagemap i.access_sorted;
          clients_sorted = i.clients_sorted;
        }))
        (bind-Safe get-Safe (λ t _. then-Safe (answer_changes-Safe control _) (
          then-Safe (send-Safe _) (
            modify-Safe _ (λ u i. record {
              locks_awaited = i.locks_awaited;
              access_sorted = i.access_sorted;
              clients_sorted = erase-IsSorted control u.clients i.clients_sorted;
            })))))))

pub object_terminate-Safe : (fuel control name : ℕ) → Safe Any (object_terminate fuel control name)
unfolding object_terminate
object_terminate-Safe fuel control name =
    then-Safe (drop_client-Safe fuel control) (then-Safe (send-Safe _) (send-Safe _))

pub dead_name-Safe : (fuel control : ℕ) → Safe Any (dead_name fuel control)
unfolding dead_name
dead_name-Safe fuel control = drop_client-Safe fuel control

drop_clients-Safe : (fuel : ℕ) (cls : List ℕ) → Safe Any (drop_clients fuel cls)
unfolding drop_clients
drop_clients-Safe fuel [] = pure-Safe tt tt
drop_clients-Safe fuel (cl ∷ cls) =
    then-Safe (drop_client-Safe fuel cl)
      (bind-Safe get-Safe (λ t _. if-Safe _ (λ _. drop_clients-Safe fuel cls) (λ _. fail-Safe _)))

pub destroy-Safe : (fuel : ℕ) → Safe Any (destroy fuel)
unfolding destroy
destroy-Safe fuel = bind-Safe get-Safe (λ s _. then-Safe (drop_clients-Safe fuel s.clients) (
    bind-Safe get-Safe (λ t _.
      then-Safe
        (on_option-Safe _ (λ _. pure-Safe tt tt)
          (λ w _. then-Safe (outside-Safe _) (pure-Safe tt tt)))
        (bind-Safe get-Safe (λ u _. assert-Safe _ (λ _. assert-Safe _ (λ _. send-Safe _)))))))

module _ (offset length : ℕ) (mode : ReturnMode) (flush : Bool) where
  request_async-Safe : (cs : List ℕ) → Safe Any (request_async offset length mode flush cs)
  unfolding request_async
  request_async-Safe [] = pure-Safe tt tt
  request_async-Safe (c ∷ cs) = then-Safe (send-Safe _) (request_async-Safe cs)

  request_sync-Safe : (cs : List ℕ) → Safe Any (request_sync offset length mode flush cs)
  unfolding request_sync
  request_sync-Safe [] = pure-Safe tt tt
  request_sync-Safe (c ∷ cs) = bind-Safe get-Safe (λ s _. then-Safe (send-Safe _) (
      then-Safe
        (modify-Safe _ (λ t i.
          at_locks-Inv (offset, length) (count_request c) t
            (λ m h. insert-IsAwaited c _ m (omega arith) h) i))
        (request_sync-Safe cs)))

  pub lock_object-Safe : (sync : Bool) → Safe Any (lock_object offset length mode flush sync)
  unfolding lock_object
  lock_object-Safe sync = bind-Safe get-Safe (λ s _.
      if-Safe _ (λ _. pure-Safe tt tt)
        (λ _.
          if-Safe _ (λ _. request_async-Safe _)
            (λ _. then-Safe (request_sync-Safe _) (
              then-Safe (outside-Safe _) (
                bind-Safe get-Safe (λ t _.
                  on_option-Safe _ (λ _. pure-Safe tt tt)
                    (λ w _. then-Safe (outside-Safe _) (pure-Safe tt tt))))))))

allocate-Safe : Safe Any allocate
unfolding allocate
allocate-Safe = record { run = λ s i p. (i, tt) }

-- A change of the outstanding attribute changes alone.
changes-Safe :
    (f : Pager → Map (ℕ × ℕ) (Unit {0}))
    → Safe Any (hurd.Pager.Step.modify λ s. record s { outstanding_change_requests = f s })
changes-Safe f = modify-Safe _ (λ s i. record {
  locks_awaited = i.locks_awaited;
  access_sorted = i.access_sorted;
  clients_sorted = i.clients_sorted;
})

module _ (may_cache : Bool) (copy_strategy : ℕ) where
  change_async-Safe : (cs : List ℕ) → Safe Any (change_async may_cache copy_strategy cs)
  unfolding change_async
  change_async-Safe [] = pure-Safe tt tt
  change_async-Safe (c ∷ cs) = then-Safe (send-Safe _) (change_async-Safe cs)

  change_sync-Safe : (p : ℕ) (cs : List ℕ) → Safe Any (change_sync may_cache copy_strategy p cs)
  unfolding change_sync
  change_sync-Safe p [] = pure-Safe tt tt
  change_sync-Safe p (c ∷ cs) = bind-Safe allocate-Safe (λ reply _.
      then-Safe (send-Safe _)
        (then-Safe (send-Safe _) (then-Safe (changes-Safe _) (change_sync-Safe p cs))))

await_changes-Safe : (p : ℕ) (cs : List ℕ) → Safe Any (await_changes p cs)
unfolding await_changes
await_changes-Safe p [] = pure-Safe tt tt
await_changes-Safe p (c ∷ cs) = bind-Safe (outside-Safe _) (λ r _.
    assert-Safe _
      (λ _. then-Safe (changes-Safe _) (then-Safe (send-Safe _) (await_changes-Safe p cs))))

pub change_attributes-Safe :
    (may_cache : Bool) (copy_strategy : ℕ) (sync : Bool)
    → Safe Any (change_attributes may_cache copy_strategy sync)
unfolding change_attributes
change_attributes-Safe may_cache copy_strategy sync = bind-Safe get-Safe (λ s _.
    if-Safe _ (λ _. change_async-Safe may_cache copy_strategy _)
      (λ _. bind-Safe allocate-Safe (λ portset _.
        then-Safe (change_sync-Safe may_cache copy_strategy portset _)
          (then-Safe (await_changes-Safe portset _) (send-Safe _)))))

pub shutdown-Safe : Safe Any shutdown
unfolding shutdown
shutdown-Safe =
    then-Safe
      (modify-Safe _ (λ s i. record {
        locks_awaited = i.locks_awaited;
        access_sorted = i.access_sorted;
        clients_sorted = i.clients_sorted;
      }))
      (bind-Safe (outside-Safe _) (λ r _. then-Safe (lock_object-Safe _ _ _ _ _) (send-Safe _)))
