-- ===== src/Pager/Clients.antt =====
-- libpager/pagemap.cc: object_init, drop_client, object_terminate, dead_name, ~pager. The warnings
-- on stderr are not modelled.
pub mod Departure
use hurd.Base.{
  ℕ, zero, suc, ◌%◌, Bool, true, false, List, [], ◌∷◌, Option, none, some, contains, insert, erase,
  ◌==◌, is_empty, map, if◌then◌else◌,
}
use hurd.Base.OrdMap
use hurd.Base.OrdMap.{Map, nat_key, pair_key}
use hurd.Pagemap.Entry.{
  EntryData, is_client_on_access_list, remove_client_from_access_list, set_write_access_granted,
}
use hurd.Pager.State.{
  Pager, WritewaitEntry, mach_port_null, object_ready, change_completed, dead_name_notification,
  port_destroy, clear_user_data,
}
use hurd.Pager.Step.{
  M, on_option, fail, dangling, exhausted, wait_write, pure, ◌>>=◌, ◌>>◌, get, gets, modify, send,
  assert, outside, when, do_if◌then◌else◌,
}
use hurd.Pager.Locks.{settle, internal_lock_completed}

unfoldable pub object_init : ℕ → ℕ → M (Unit {0})
object_init control pagesize = do
  s ← get
  assert (pagesize == s.page_size)
  do_if s.terminating then pure tt else (do
    modify (λ t. record t { clients = insert control t.clients })
    send (dead_name_notification control s.port_right)
    send (object_ready control s.may_cache s.copy_strategy))

-- The iterator of a std::map, by the key it stands at; `none` is end().
abbrev pub first_key : {V : Type 0} → Map (ℕ × ℕ) V → Option (ℕ × ℕ)
first_key [] = none
first_key ((k, v) ∷ m) = some k

abbrev pub next_key : {V : Type 0} → ℕ × ℕ → Map (ℕ × ℕ) V → Option (ℕ × ℕ)
next_key k m = elim (OrdMap.next k m) [ none ↦ none | some (j, v) ↦ some j ]

-- The loop over outstanding_locks, from an iterator on. The next position is taken before
-- internal_lock_completed runs, which releases the lock: a position that another thread has erased
-- meanwhile is dangling. On fuel, since locks may be added behind the iterator.
unfoldable pub drop_locks : ℕ → ℕ → Option (ℕ × ℕ) → M (Unit {0})
drop_locks zero control it = fail exhausted
drop_locks (suc fuel) control none = pure tt
drop_locks (suc fuel) control (some (offset, length)) = do
  s ← get
  on_option (OrdMap.lookup (offset, length) s.outstanding_locks) (fail dangling) (λ locks.
      let required : Bool = elim (OrdMap.lookup control locks) [
        | none ↦ false
        | some l ↦ l.internal_lock_outstanding
      ] in
      do
        settle (offset, length) (OrdMap.erase control locks)
        it ← gets (λ t. next_key (offset, length) t.outstanding_locks)
        when required (internal_lock_completed control offset length)
        drop_locks fuel control it)

-- The body of the loop over the pagemap. The loop also removes the client from a copy of the
-- page's WAITLIST, `wl2`, and then stores the page with the WAITLIST that it had.
abbrev pub drop_from_page : ℕ → EntryData → EntryData
drop_from_page control e =
    if is_client_on_access_list control e
    then set_write_access_granted false (remove_client_from_access_list control e)
    else e

-- Every attribute change that waits for the client is answered in its place.
unfoldable pub answer_changes : ℕ → List ((ℕ × ℕ) × Unit {0}) → M (Unit {0})
answer_changes control [] = pure tt
answer_changes control (((client, reply), _) ∷ requests) = do
  when (client == control) (send (change_completed reply))
  answer_changes control requests

unfoldable pub drop_client : ℕ → ℕ → M (Unit {0})
drop_client fuel control = do
  s ← get
  drop_locks fuel control (first_key s.outstanding_locks)
  modify (λ t. record t { pagemap = map (drop_from_page control) t.pagemap })
  t ← get
  answer_changes control t.outstanding_change_requests
  send (dead_name_notification control mach_port_null)
  modify (λ u. record u { clients = erase control u.clients })

unfoldable pub object_terminate : ℕ → ℕ → ℕ → M (Unit {0})
object_terminate fuel control name = do
  drop_client fuel control
  send (port_destroy control)
  send (port_destroy name)

unfoldable pub dead_name : ℕ → ℕ → M (Unit {0})
dead_name fuel control = drop_client fuel control

-- `for (auto cl: clients) drop_client(cl, ...)`: to go on, the iterator's own element must still
-- be in the set. Each round moves to a larger name.
unfoldable pub drop_clients : ℕ → List ℕ → M (Unit {0})
drop_clients fuel [] = pure tt
drop_clients fuel (cl ∷ cls) = do
  drop_client fuel cl
  t ← get
  do_if contains cl t.clients then drop_clients fuel cls else fail dangling

abbrev pub last_entry : List WritewaitEntry → Option WritewaitEntry
last_entry [] = none
last_entry (w ∷ ws) = elim (last_entry ws) [ none ↦ some w | some v ↦ some v ]

-- ~pager.
unfoldable pub destroy : ℕ → M (Unit {0})
destroy fuel = do
  s ← get
  drop_clients fuel s.clients
  t ← get
  on_option (last_entry t.writewait) (pure tt) (λ w. outside (wait_write w ∷ []) >> pure tt)
  u ← get
  assert (is_empty u.outstanding_locks)
  assert (is_empty u.outstanding_change_requests)
  send clear_user_data
