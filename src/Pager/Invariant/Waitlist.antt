-- ===== src/Pager/Invariant/Waitlist.antt =====
-- The helpers of libpager/pagemap.cc that run with the lock held keep the invariant.
use hurd.Base.{
  ℕ, ◌<◌, ◌≡◌, refl, Bool, false, List, [], ◌∷◌, Option, none, some, arith, is_empty,
  insert-IsSorted,
}
use hurd.Base.OrdMap
use hurd.Base.OrdMap.{Map, AllValues, AllValues-insert, AllValues-lookup, nat_key, pair_key}
use hurd.Pagemap.Entry.{WaitlistClient, EntryData, pop_first_wait_list_client}
use hurd.Pager.State.{Pager, ClientLock, NexterrorEntry}
use hurd.Pager.Step.{modify}
use hurd.Pager.Waitlist.{
  count_internal, at_locks, internal_flush_request, flush_all, supply, serve_readers, grant,
  service_wait_list, report_errors, send_error_to_wait_list, finalize_unlock,
}
use hurd.Pager.Invariant.Defs.{Inv, IsCounted, IsAwaited, HasSortedAccess}
use hurd.Pager.Invariant.Rules.{
  Safe, Any, pure-Safe, bind-Safe, then-Safe, get-Safe, modify-Safe, send-Safe, if-Safe, when-Safe,
  or_throw-Safe,
}

insert_ne_empty :
    (c : ℕ) (l : ClientLock) (m : Map ℕ ClientLock) → is_empty (OrdMap.insert c l m) ≡ false
insert_ne_empty c l [] = refl
insert_ne_empty c l (x ∷ m) = ground arith

-- A client's lock, changed to one with a positive count.
pub insert-IsAwaited :
    (c : ℕ) (l : ClientLock) (m : Map ℕ ClientLock)
    → 0 < l.count
    → IsCounted m
    → IsAwaited (OrdMap.insert c l m)
insert-IsAwaited c l m p h =
    (insert_ne_empty c l m, AllValues-insert (λ (k : ClientLock). 0 < k.count) c l m p h)

-- Locks changed in place by a function that leaves a client recorded.
pub at_locks-Inv :
    (key : ℕ × ℕ) (f : Map ℕ ClientLock → Map ℕ ClientLock) (s : Pager)
    → ((m : Map ℕ ClientLock) → IsCounted m → IsAwaited (f m))
    → Inv s
    → Inv (at_locks key f s)
at_locks-Inv key f s h i = record {
  locks_awaited =
      AllValues-insert IsAwaited key _ s.outstanding_locks
        (h _ (found (OrdMap.lookup key s.outstanding_locks) refl)) i.locks_awaited;
  access_sorted = i.access_sorted;
  clients_sorted = i.clients_sorted;
}
  where
    found :
        (o : Option (Map ℕ ClientLock))
        → OrdMap.lookup key s.outstanding_locks ≡ o
        → IsCounted (mathlib.Core.Option.get_or o [])
    found none e = tt
    found (some m) e = (AllValues-lookup IsAwaited key s.outstanding_locks i.locks_awaited e).1

pub internal_flush_request-Safe : (c offset : ℕ) → Safe Any (internal_flush_request c offset)
unfolding internal_flush_request
internal_flush_request-Safe c offset = bind-Safe get-Safe (λ s _.
    then-Safe
      (modify-Safe _ (λ t i.
        at_locks-Inv (offset, s.page_size) (count_internal c) t
          (λ m h. insert-IsAwaited c _ m (omega arith) h) i))
      (send-Safe _))

pub flush_all-Safe : (cs : List ℕ) (offset : ℕ) → Safe Any (flush_all cs offset)
unfolding flush_all
flush_all-Safe [] offset = pure-Safe tt tt
flush_all-Safe (c ∷ cs) offset =
    then-Safe (internal_flush_request-Safe c offset) (flush_all-Safe cs offset)

supply-Safe : (c offset address : ℕ) (d w : Bool) → Safe Any (supply c offset address d w)
unfolding supply
supply-Safe c offset address d w = bind-Safe get-Safe (λ s _. send-Safe _)

serve_readers-Safe :
    (offset address : ℕ) (d : Bool) (first : WaitlistClient) (ws : List WaitlistClient)
    (e : EntryData)
    → HasSortedAccess e
    → Safe HasSortedAccess (serve_readers offset address d first ws e)
unfolding serve_readers
serve_readers-Safe offset address d first [] e h =
    then-Safe (supply-Safe _ _ _ _ _) (pure-Safe _ (insert-IsSorted first.client e.access_list h))
serve_readers-Safe offset address d first (next ∷ rest) e h =
    let h' = insert-IsSorted first.client e.access_list h in
    then-Safe (supply-Safe _ _ _ _ _) (
      if-Safe next.write_access_requested (λ _. pure-Safe _ h')
        (λ _. serve_readers-Safe offset address d next rest _ h'))

pop_first-HasSortedAccess :
    (e e' : EntryData)
    → HasSortedAccess e
    → pop_first_wait_list_client e ≡ some e'
    → HasSortedAccess e'
pop_first-HasSortedAccess e e' h q = ground arith

grant-Safe :
    (offset address : ℕ) (d allow : Bool) (e : EntryData)
    → HasSortedAccess e
    → Safe HasSortedAccess (grant offset address d allow e)
unfolding grant
grant-Safe offset address d allow e h =
    bind-Safe (or_throw-Safe {Q = Any} _ (λ _ _. tt)) (λ first _.
      if-Safe _
        (λ _. then-Safe (supply-Safe _ _ _ _ _) (
          bind-Safe
            (or_throw-Safe {Q = HasSortedAccess} _ (λ e' q.
              pop_first-HasSortedAccess _ e' (insert-IsSorted first.client e.access_list h) q))
            (λ e' h'. pure-Safe _ h')))
        (λ _. bind-Safe (or_throw-Safe {Q = Any} _ (λ _ _. tt)) (λ rest _.
          bind-Safe (serve_readers-Safe offset address d first rest.wait_list e h)
            (λ e' h'. pure-Safe _ h'))))

pub service_wait_list-Safe :
    (offset address : ℕ) (allow d : Bool) (e : EntryData)
    → HasSortedAccess e
    → Safe HasSortedAccess (service_wait_list offset address allow d e)
unfolding service_wait_list
service_wait_list-Safe offset address allow d e h = bind-Safe get-Safe (λ s _.
    if-Safe s.terminating (λ _. pure-Safe e h)
      (λ _.
        bind-Safe (grant-Safe offset address d allow e h)
          (λ e' h'. then-Safe (when-Safe _ (flush_all-Safe _ offset)) (pure-Safe e' h'))))

-- A change of NEXTERROR alone.
pub nexterror-Safe :
    (f : Pager → List NexterrorEntry) → Safe Any (modify λ s. record s { nexterror = f s })
nexterror-Safe f = modify-Safe _ (λ s i. record {
  locks_awaited = i.locks_awaited;
  access_sorted = i.access_sorted;
  clients_sorted = i.clients_sorted;
})

report_errors-Safe :
    (offset : ℕ) (e : EntryData) (ws : List WaitlistClient) → Safe Any (report_errors offset e ws)
unfolding report_errors
report_errors-Safe offset e [] = pure-Safe tt tt
report_errors-Safe offset e (w ∷ ws) = bind-Safe get-Safe (λ s _.
    then-Safe
      (if-Safe _ (λ _. then-Safe (internal_flush_request-Safe w.client offset) (nexterror-Safe _))
        (λ _. send-Safe _))
      (report_errors-Safe offset e ws))

pub send_error_to_wait_list-Safe :
    (offset : ℕ) (e : EntryData)
    → HasSortedAccess e
    → Safe HasSortedAccess (send_error_to_wait_list offset e)
unfolding send_error_to_wait_list
send_error_to_wait_list-Safe offset e h =
    then-Safe (report_errors-Safe offset e e.wait_list) (pure-Safe _ h)

pub finalize_unlock-Safe :
    (offset error : ℕ) (e : EntryData)
    → HasSortedAccess e
    → Safe HasSortedAccess (finalize_unlock offset error e)
unfolding finalize_unlock
finalize_unlock-Safe offset error e h =
    bind-Safe (or_throw-Safe {Q = Any} _ (λ _ _. tt)) (λ first _.
      bind-Safe (or_throw-Safe {Q = HasSortedAccess} _ (λ e' q. pop_first-HasSortedAccess e e' h q))
        (λ e' h'. bind-Safe get-Safe (λ s _.
          if-Safe _
            (λ _. then-Safe (send-Safe _) (
              then-Safe (when-Safe _ (internal_flush_request-Safe first.client offset))
                (pure-Safe _ h')))
            (λ _.
              then-Safe (internal_flush_request-Safe first.client offset)
                (then-Safe (nexterror-Safe _) (pure-Safe e' h'))))))
