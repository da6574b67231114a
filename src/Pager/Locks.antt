-- ===== src/Pager/Locks.antt =====
-- libpager/pagemap.cc: internal_lock_completed and lock_completed.
pub mod Completed
use hurd.Base.{
  ℕ, zero, suc, ◌+◌, ◌-◌, ◌*◌, ◌/◌, ◌%◌, Bool, true, false, ◌&&◌, not, List, [], ◌∷◌, ◌++◌, Option,
  none, some, ltb, ◌==◌, is_empty, if◌then◌else◌,
}
use hurd.Base.OrdMap
use hurd.Base.OrdMap.{Map, nat_key, pair_key}
use mathlib.Core.Option.{get_or}
use hurd.Pagemap.Entry.{
  EntryData, kern_success, is_wait_list_empty, is_access_list_empty, access_list_num_clients,
  is_client_on_access_list, first_wait_list_client, remove_client_from_access_list, set_error,
}
use hurd.Pager.State.{Pager, ClientLock, no_lock, word, notify_locks}
use hurd.Pager.Step.{
  M, assertion, on_option, fail, Call, read_page, unlock_page, Reply, pure, ◌>>=◌, ◌>>◌, get,
  modify, send, assert, outside, load, store, when, do_if◌then◌else◌,
}
use hurd.Pager.Waitlist.{service_wait_list, send_error_to_wait_list, finalize_unlock}

-- `operation[i]`.
pub data Operation : Type 0 where
  no_operation pagein unlock : Operation

-- `is_client_on_ACCESSLIST(first_WAITLIST_client().client)`, asked only of a page with waiters.
abbrev pub first_waiter_has_access : EntryData → Bool
first_waiter_has_access e = elim (first_wait_list_client e) [
  | none ↦ false
  | some w ↦ is_client_on_access_list w.client e
]

-- The first client on WAITLIST is the only one left with access.
abbrev pub sole_client_waits_first : EntryData → Bool
sole_client_waits_first e = access_list_num_clients e == 1 && first_waiter_has_access e

-- The body of the first loop, once the client's access is taken from the page.
unfoldable pub plan_page : ℕ → EntryData → M Operation
plan_page page e = do
  s ← get
  do_if is_access_list_empty e
      then (do_if not e.invalid then (store page e >> pure pagein) else (do
        e' ← send_error_to_wait_list (word (page * s.page_size)) e
        store page e'
        pure no_operation))
      else (do store page e; pure (if sole_client_waits_first e then unlock else no_operation))

-- The first loop: the pages with their operations.
unfoldable pub plan : ℕ → ℕ → ℕ → M (List (ℕ × Operation))
plan control page zero = pure []
plan control page (suc k) = do
  e ← load page
  assert (not e.write_access_granted)
  op ←
      do_if is_client_on_access_list control e && not (is_wait_list_empty e)
      then plan_page page (remove_client_from_access_list control e)
      else pure no_operation
  rest ← plan control (page + 1) k
  pure ((page, op) ∷ rest)

-- The second loop, outside the lock.
abbrev pub operation_calls : ℕ → List (ℕ × Operation) → List Call
operation_calls ps [] = []
operation_calls ps ((page, no_operation) ∷ ops) = operation_calls ps ops
operation_calls ps ((page, pagein) ∷ ops) = read_page (word (page * ps)) ∷ operation_calls ps ops
operation_calls ps ((page, unlock) ∷ ops) = unlock_page (word (page * ps)) ∷ operation_calls ps ops

-- What a page read in the end does with its answer.
unfoldable pub finish_read : ℕ → Reply → EntryData → M EntryData
finish_read offset r e =
    do_if r.err == kern_success
    then service_wait_list offset r.buffer (not r.write_lock) true (set_error r.err e)
    else send_error_to_wait_list offset (set_error r.err e)

-- The third loop.
unfoldable pub finish_operations : (ℕ → Reply) → List (ℕ × Operation) → M (Unit {0})
finish_operations r [] = pure tt
finish_operations r ((page, no_operation) ∷ ops) = finish_operations r ops
finish_operations r ((page, pagein) ∷ ops) = do
  s ← get
  e ← load page
  e' ← finish_read (word (page * s.page_size)) (r page) e
  store page e'
  finish_operations r ops
finish_operations r ((page, unlock) ∷ ops) = do
  s ← get
  e ← load page
  e' ← finalize_unlock (word (page * s.page_size)) (r page).err e
  store page e'
  finish_operations r ops

unfoldable pub internal_lock_completed : ℕ → ℕ → ℕ → M (Unit {0})
internal_lock_completed control offset length = do
  s ← get
  assert (length % s.page_size == 0)
  assert (offset % s.page_size == 0)
  do_if s.terminating then pure tt else (do
    ops ← plan control (offset / s.page_size) (length / s.page_size)
    r ← outside (operation_calls s.page_size ops)
    finish_operations r ops)

-- The locks of one client after one completion: the remaining locks, and whether an internal lock
-- was outstanding when the last one completed.
abbrev pub complete_one : ℕ → ClientLock → Map ℕ ClientLock → Map ℕ ClientLock × Bool
complete_one control l locks =
    if l.count == 1
    then (OrdMap.erase control locks, l.internal_lock_outstanding)
    else (OrdMap.insert control (record l { count = l.count - 1 }) locks, false)

-- `outstanding_locks` once the locks of a key have changed: an empty record wakes the waiting
-- threads and goes.
unfoldable pub settle : ℕ × ℕ → Map ℕ ClientLock → M (Unit {0})
settle (offset, length) locks =
    do_if is_empty locks
    then (do
      send (notify_locks offset length)
      modify
          λ s. record s { outstanding_locks = OrdMap.erase (offset, length) s.outstanding_locks })
    else modify λ s. record s {
      outstanding_locks = OrdMap.insert (offset, length) locks s.outstanding_locks;
    }

unfoldable pub lock_completed : ℕ → ℕ → ℕ → M (Unit {0})
lock_completed control offset length = do
  s ← get
  on_option (OrdMap.lookup (offset, length) s.outstanding_locks) (fail assertion) (λ locks.
      let l : ClientLock = get_or (OrdMap.lookup control locks) no_lock in
      let (locks', required) = complete_one control l locks in
      do
        assert (ltb 0 l.count)
        settle (offset, length) locks'
        when required (internal_lock_completed control offset length))
