-- ===== src/Pager/Waitlist.antt =====
-- libpager/pagemap.cc: internal_flush_request, service_WAITLIST, send_error_to_WAITLIST and
-- finalize_unlock. All run with the lock held, on the page data that the caller loaded.
pub mod Serve
pub mod Exclusive
pub mod Errors
use hurd.Base.{
  ℕ, ◌+◌, Bool, true, false, ◌&&◌, not, List, [], ◌∷◌, ◌++◌, insert, ◌==◌, if◌then◌else◌,
}
use hurd.Base.OrdMap
use hurd.Base.OrdMap.{Map, nat_key, pair_key}
use mathlib.Core.Option.{get_or}
use hurd.Pagemap.Entry.{
  WaitlistClient, EntryData, kern_success, is_wait_list_empty, is_client_on_access_list,
  first_wait_list_client, pop_first_wait_list_client, clear_wait_list, add_client_to_access_list,
  set_write_access_granted,
}
use hurd.Pager.State.{
  Pager, ClientLock, no_lock, return_none, return_all, prot_none, prot_write, prot_no_change,
  data_supply, data_error, lock_request, mach_port_null,
}
use hurd.Pager.Step.{M, pure, ◌>>=◌, ◌>>◌, get, modify, send, or_throw, when, do_if◌then◌else◌}

-- `locks[client]` with one more internal request.
abbrev pub count_internal : ℕ → Map ℕ ClientLock → Map ℕ ClientLock
count_internal c locks =
    let l : ClientLock = get_or (OrdMap.lookup c locks) no_lock in
    OrdMap.insert c (record { count = l.count + 1; internal_lock_outstanding = true }) locks

-- `outstanding_locks[key]`, changed in place.
abbrev pub at_locks : ℕ × ℕ → (Map ℕ ClientLock → Map ℕ ClientLock) → Pager → Pager
at_locks key f s =
    let locks : Map ℕ ClientLock = get_or (OrdMap.lookup key s.outstanding_locks) [] in
    record s { outstanding_locks = OrdMap.insert key (f locks) s.outstanding_locks }

unfoldable pub internal_flush_request : ℕ → ℕ → M (Unit {0})
internal_flush_request client offset = do
  s ← get
  modify (at_locks (offset, s.page_size) (count_internal client))
  send (lock_request client offset s.page_size return_all true prot_no_change s.port_right)

-- `for (auto client: ACCESSLIST_clients()) internal_flush_request(client, offset)`.
unfoldable pub flush_all : List ℕ → ℕ → M (Unit {0})
flush_all [] offset = pure tt
flush_all (c ∷ cs) offset = do internal_flush_request c offset; flush_all cs offset

-- memory_object_data_supply of one page.
unfoldable pub supply : ℕ → ℕ → ℕ → Bool → Bool → M (Unit {0})
supply client offset address deallocate write_locked = do
  s ← get
  send (
      data_supply client offset address deallocate (if write_locked then prot_write else prot_none)
        s.notify_on_evict)

module _ (offset address : ℕ) (deallocate : Bool) where
  -- The do-while loop: `first` is first_client, the list is WAITLIST behind it.
  unfoldable pub serve_readers : WaitlistClient → List WaitlistClient → EntryData → M EntryData
  serve_readers first [] e = do
    supply first.client offset address deallocate true
    pure (record e { access_list = insert first.client e.access_list; wait_list = [] })
  serve_readers first (next ∷ rest) e =
      let e' = record e {
        access_list = insert first.client e.access_list;
        wait_list = next ∷ rest;
      } in
      let more = serve_readers next rest e' in
      supply first.client offset address (if next.write_access_requested then deallocate else false)
        true
      >> (do_if next.write_access_requested then pure e' else more)

  -- The two ways to hand out the page, by the first client on WAITLIST.
  unfoldable pub grant : Bool → EntryData → M EntryData
  grant allow_write e = do
    first ← or_throw (first_wait_list_client e)
    do_if allow_write && first.write_access_requested
        then (do
          supply first.client offset address deallocate false
          e' ← or_throw (pop_first_wait_list_client (add_client_to_access_list first.client e))
          pure (set_write_access_granted true e'))
        else (do
          rest ← or_throw (pop_first_wait_list_client e)
          e' ← serve_readers first rest.wait_list e
          pure (set_write_access_granted false e'))

unfoldable pub service_wait_list : ℕ → ℕ → Bool → Bool → EntryData → M EntryData
service_wait_list offset address allow_write deallocate e = do
  s ← get
  do_if s.terminating then pure e else (do
    e' ← grant offset address deallocate allow_write e
    when (not (is_wait_list_empty e')) (flush_all e'.access_list offset)
    pure e')

-- The loop of send_error_to_WAITLIST over the waiting clients.
unfoldable pub report_errors : ℕ → EntryData → List WaitlistClient → M (Unit {0})
report_errors offset e [] = pure tt
report_errors offset e (w ∷ ws) = do
  s ← get
  (do_if is_client_on_access_list w.client e
      then (do
        internal_flush_request w.client offset
        modify (λ t. record t {
          nexterror =
              t.nexterror ++ record { client = w.client; offset = offset; error = e.error } ∷ [];
        }))
      else send (data_error w.client offset s.page_size e.error))
  report_errors offset e ws

unfoldable pub send_error_to_wait_list : ℕ → EntryData → M EntryData
send_error_to_wait_list offset e = do report_errors offset e e.wait_list; pure (clear_wait_list e)

unfoldable pub finalize_unlock : ℕ → ℕ → EntryData → M EntryData
finalize_unlock offset error e = do
  first ← or_throw (first_wait_list_client e)
  e' ← or_throw (pop_first_wait_list_client e)
  s ← get
  do_if error == kern_success
      then (do
        send (
            lock_request first.client offset s.page_size return_none false prot_none mach_port_null)
        let e'' = set_write_access_granted true e'
        when (not (is_wait_list_empty e'')) (internal_flush_request first.client offset)
        pure e'')
      else (do
        internal_flush_request first.client offset
        modify (λ t. record t {
          nexterror =
              t.nexterror ++ record { client = first.client; offset = offset; error = error } ∷ [];
        })
        pure e')
