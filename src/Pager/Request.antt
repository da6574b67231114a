-- ===== src/Pager/Request.antt =====
-- libpager/pagemap.cc: data_request, data_unlock and get_error.
pub mod Outcome
pub mod Unlock
pub mod Several
use hurd.Base.{
  ℕ, zero, suc, ◌+◌, ◌*◌, ◌/◌, ◌%◌, Bool, true, false, ◌&&◌, not, List, [], ◌∷◌, ◌++◌, Option, none,
  some, ltb, ◌==◌, if◌then◌else◌,
}
use hurd.Pagemap.Entry.{
  EntryData, is_wait_list_empty, is_access_list_empty, access_list_num_clients,
  is_client_on_access_list, is_any_client_waiting_for_write_access, add_client_to_wait_list,
  remove_client_from_access_list, set_write_access_granted,
}
use hurd.Pager.State.{Pager, NexterrorEntry, word, wants_write, data_error, page_data}
use hurd.Pager.Step.{
  M, on_option, Call, read_page, unlock_page, Reply, pure, ◌>>=◌, ◌>>◌, get, modify, send, assert,
  outside, load, store, when, do_if◌then◌else◌,
}
use hurd.Pager.Waitlist.{flush_all, finalize_unlock}
use hurd.Pager.Locks.{internal_lock_completed, finish_read}

-- The first NEXTERROR entry of a client at an offset, and the list without it.
abbrev pub take_nexterror :
    ℕ → ℕ → List NexterrorEntry → Option (NexterrorEntry × List NexterrorEntry)
take_nexterror control offset [] = none
take_nexterror control offset (ne ∷ nes) =
    if (ne.client == control) && (ne.offset == offset)
    then some (ne, nes)
    else elim (take_nexterror control offset nes) [
      | none ↦ none
      | some (found, rest) ↦ some (found, ne ∷ rest)
    ]

module _ (control offset length : ℕ) (write : Bool) where
  -- From the test of INVALID to the end: read the page for a request that nothing stands against.
  unfoldable pub page_in : EntryData → M (Unit {0})
  page_in e = do
    s ← get
    let page = offset / s.page_size
    when e.invalid (send (data_error control offset length e.error))
    store page (add_client_to_wait_list control write e)
    r ← outside (read_page offset ∷ [])
    e' ← load page
    e'' ← finish_read offset (r page) e'
    store page e''

  -- From the test of WAITLIST on, for a client that has no access.
  unfoldable pub request_new : EntryData → M (Unit {0})
  request_new e = do
    s ← get
    let waiting = store (offset / s.page_size) (add_client_to_wait_list control write e)
    do_if not (is_wait_list_empty e)
        then waiting
        else (do_if e.write_access_granted
            then (flush_all e.access_list offset >> waiting)
            else (do_if write && not (is_access_list_empty e)
                then (flush_all e.access_list offset >> waiting)
                else page_in e))

  -- From the test of PAGINGOUT on.
  unfoldable pub request_page : EntryData → M (Unit {0})
  request_page e = do
    s ← get
    let waiting = store (offset / s.page_size) (add_client_to_wait_list control write e)
    do_if e.paging_out
        then (do
          when (is_wait_list_empty e && not (is_access_list_empty e))
              (flush_all e.access_list offset)
          waiting)
        else (do_if is_client_on_access_list control e
            then (do_if not (is_wait_list_empty e)
                then (waiting >> internal_lock_completed control offset s.page_size)
                else request_new
                    (set_write_access_granted false (remove_client_from_access_list control e)))
            else request_new e)

unfoldable pub data_request : ℕ → ℕ → ℕ → ℕ → M (Unit {0})
data_request control offset length access = do
  s ← get
  assert (length == s.page_size)
  assert (offset % s.page_size == 0)
  do_if s.terminating then pure tt else (do
    e ← load (offset / s.page_size)
    -- the error found is set in the loaded copy only, which is not stored
    on_option (take_nexterror control offset s.nexterror)
        (request_page control offset length (wants_write access) e)
        (λ (ne, rest). do
          send (data_error control offset length ne.error)
          modify (λ t. record t { nexterror = rest })))

-- The first loop of data_unlock: the pages whose `do_unlock` is set. The flush requests carry
-- the offset of the message, whatever the page.
unfoldable pub unlock_pages : ℕ → ℕ → ℕ → ℕ → M (List ℕ)
unlock_pages control offset page zero = pure []
unlock_pages control offset page (suc k) = do
  e ← load page
  let waits = add_client_to_wait_list control true e
  assert (is_client_on_access_list control e)
  assert (not e.write_access_granted)
  assert (not e.paging_out)
  do_unlock ←
      do_if is_any_client_waiting_for_write_access e
      then (store page e >> pure false)
      else (do_if not (is_wait_list_empty e)
          then (store page waits >> pure false)
          else (do_if ltb 1 (access_list_num_clients e)
              then (do flush_all e.access_list offset; store page waits; pure false)
              else (store page waits >> pure true)))
  rest ← unlock_pages control offset (page + 1) k
  pure (if do_unlock then page ∷ rest else rest)

abbrev pub unlock_calls : ℕ → List ℕ → List Call
unlock_calls ps [] = []
unlock_calls ps (page ∷ pages) = unlock_page (word (page * ps)) ∷ unlock_calls ps pages

-- The last loop of data_unlock and of data_return.
unfoldable pub finalize_unlocks : (ℕ → Reply) → List ℕ → M (Unit {0})
finalize_unlocks r [] = pure tt
finalize_unlocks r (page ∷ pages) = do
  s ← get
  e ← load page
  e' ← finalize_unlock (word (page * s.page_size)) (r page).err e
  store page e'
  finalize_unlocks r pages

unfoldable pub data_unlock : ℕ → ℕ → ℕ → M (Unit {0})
data_unlock control offset length = do
  s ← get
  assert (length % s.page_size == 0)
  assert (offset % s.page_size == 0)
  do_if s.terminating then pure tt else (do
    pages ← unlock_pages control offset (offset / s.page_size) (length / s.page_size)
    r ← outside (unlock_calls s.page_size pages)
    finalize_unlocks r pages)

unfoldable pub get_error : ℕ → Pager → ℕ
get_error offset s = (page_data (offset / s.page_size) s).error
