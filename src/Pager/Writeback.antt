-- ===== src/Pager/Writeback.antt =====
-- libpager/pagemap.cc: service_first_WRITEWAIT_entry and data_return.
pub mod Handover
pub mod Alone
pub mod Drain
use hurd.Base.{
  ℕ, zero, suc, ◌+◌, ◌*◌, ◌/◌, ◌%◌, Bool, true, false, ◌&&◌, not, List, [], ◌∷◌, ◌++◌, leb, ◌==◌,
  is_empty, keep, if◌then◌else◌,
}
use hurd.Pagemap.Entry.{
  EntryData, kern_success, is_wait_list_empty, is_access_list_empty, access_list_num_clients,
  remove_client_from_access_list, set_error, set_invalid, set_paging_out,
}
use hurd.Pager.State.{
  Pager, WritewaitEntry, NexterrorEntry, word, mach_port_dead, munmap, notify_write,
}
use hurd.Pager.Step.{
  M, on_list, fail, dangling, exhausted, Call, write_page, unlock_page, notify_evict, Reply, pure,
  ◌>>=◌, ◌>>◌, get, gets, modify, send, assert, outside, load, store, when, do_if◌then◌else◌,
}
use hurd.Pager.Waitlist.{service_wait_list}
use hurd.Pager.Locks.{first_waiter_has_access}
use hurd.Pager.Request.{finalize_unlocks}

-- Whether a block covers a page: the test inside matching_page_count_on_WRITEWAIT.
abbrev pub covers : ℕ → ℕ → WritewaitEntry → Bool
covers ps page w =
    leb w.offset (word (page * ps)) && leb (word ((page + 1) * ps)) (word (w.offset + w.length))

-- matching_page_count_on_WRITEWAIT.
abbrev pub matching_page_count : ℕ → ℕ → List WritewaitEntry → ℕ
matching_page_count ps page [] = 0
matching_page_count ps page (w ∷ ws) =
    if covers ps page w
    then suc (matching_page_count ps page ws)
    else matching_page_count ps page ws

-- The pages of the block whose `do_pageout` is set, each with its place in the block.
abbrev pub pageouts : ℕ → List WritewaitEntry → ℕ → ℕ → ℕ → List (ℕ × ℕ)
pageouts ps queue page i zero = []
pageouts ps queue page i (suc k) =
    let rest = pageouts ps queue (page + 1) (i + 1) k in
    if matching_page_count ps page queue == 1 then (page, i) ∷ rest else rest

-- `current.DATA + i * page_size`.
abbrev pub page_address : ℕ → ℕ → ℕ → ℕ
page_address ps address i = word (address + i * ps)

abbrev pub write_calls : ℕ → WritewaitEntry → List (ℕ × ℕ) → List Call
write_calls ps current [] = []
write_calls ps current ((page, i) ∷ pages) =
    write_page (word (page * ps)) (page_address ps current.address i) ∷ write_calls ps current pages

abbrev pub evict_calls : ℕ → List ℕ → List Call
evict_calls ps [] = []
evict_calls ps (page ∷ pages) = notify_evict (word (page * ps)) ∷ evict_calls ps pages

-- INVALID and ERROR after a write.
abbrev pub record_write : ℕ → EntryData → EntryData
record_write err e =
    if err == kern_success then set_invalid false e else set_error err (set_invalid true e)

-- INVALID and ERROR cleared as a page leaves all memory.
abbrev pub clear_error : EntryData → EntryData
clear_error e = set_error kern_success (set_invalid false e)

-- The NEXTERROR entries of a page go.
unfoldable pub forget_nexterrors : ℕ → M (Unit {0})
forget_nexterrors offset =
    modify λ s. record s { nexterror = keep (λ ne. not (ne.offset == offset)) s.nexterror }

-- The body of the loop over the pages just written; tells whether `do_notify` is set.
unfoldable pub finish_pageout : WritewaitEntry → ℕ → ℕ → ℕ → EntryData → M Bool
finish_pageout current page i err e = do
  s ← get
  let written = record_write err e
  let offset = word (page * s.page_size)
  do_if matching_page_count s.page_size page s.writewait == 1
      then (do_if current.kernel_copy
          then (store page (set_paging_out false written) >> pure false)
          else (do_if is_wait_list_empty e
              then (do
                forget_nexterrors offset
                store page (clear_error (set_paging_out false written))
                pure true)
              else (do
                e' ←
                    service_wait_list offset (page_address s.page_size current.address i) true false
                      (set_paging_out false written)
                store page e'
                pure false)))
      else (do assert current.kernel_copy; store page written; pure false)

-- The loop itself: the pages whose `do_notify` is set.
unfoldable pub finish_pageouts : WritewaitEntry → (ℕ → Reply) → List (ℕ × ℕ) → M (List ℕ)
finish_pageouts current r [] = pure []
finish_pageouts current r ((page, i) ∷ pages) = do
  e ← load page
  notified ← finish_pageout current page i (r page).err e
  rest ← finish_pageouts current r pages
  pure (if notified then page ∷ rest else rest)

-- `WRITEWAIT.pop_front()`.
abbrev pub pop_front : Pager → Pager
pop_front s = record s { writewait = elim s.writewait [ [] ↦ [] | w ∷ ws ↦ ws ] }

abbrev pub no_reply : ℕ → Reply
no_reply _ = record {
  err = 0;
  buffer = 0;
  write_lock = false;
  msgh_id = 0;
  msgh_local_port = 0;
  offset = 0;
  size = 0;
}

unfoldable pub service_entry : WritewaitEntry → M (Unit {0})
service_entry current = do
  s ← get
  let ps = s.page_size
  let pages = pageouts ps s.writewait (current.offset / ps) 0 (current.length / ps)
  r ← (do_if is_empty pages then pure no_reply else outside (write_calls ps current pages))
  notified ← finish_pageouts current r pages
  send (munmap current.address current.length)
  when (s.notify_on_evict && not (is_empty notified)) (outside (evict_calls ps notified) >> pure tt)
  send (notify_write current)
  modify pop_front

-- `WRITEWAIT.front()` of an empty list is undefined.
unfoldable pub service_first_writewait_entry : M (Unit {0})
service_first_writewait_entry = do
  s ← get
  on_list s.writewait (fail dangling) (λ current _. service_entry current)

-- `while (! WRITEWAIT.empty()) service_first_WRITEWAIT_entry(pager_lock)`, on fuel: other threads
-- may queue further blocks while the lock is free.
unfoldable pub service_writewait : ℕ → M (Unit {0})
service_writewait zero = fail exhausted
service_writewait (suc fuel) = do
  s ← get
  on_list s.writewait (pure tt) (λ _ _. do service_first_writewait_entry; service_writewait fuel)

-- What the first loop of data_return leaves for a page: `do_unlock`, `do_notify`, or neither.
pub data Returned : Type 0 where
  nothing_more do_unlock do_notify : Returned

module _ (control address : ℕ) (dirty kernel_copy : Bool) where
  -- The body of the first loop after the client's access is taken from the page.
  unfoldable pub return_access : ℕ → ℕ → EntryData → M (EntryData × Returned)
  return_access page i e = do
    s ← get
    let offset = word (page * s.page_size)
    do_if is_access_list_empty e && not (is_wait_list_empty e)
        then (do
          e' ← service_wait_list offset (page_address s.page_size address i) true false e
          pure (e', nothing_more))
        else (do_if access_list_num_clients e == 1
              && (not e.write_access_granted && (first_waiter_has_access e && not s.terminating))
            then pure (e, do_unlock)
            else (do_if is_access_list_empty e && (is_wait_list_empty e && not dirty)
                then (forget_nexterrors offset >> pure (clear_error e, do_notify))
                else pure (e, nothing_more)))

  unfoldable pub return_page : ℕ → ℕ → M Returned
  return_page page i = do
    e ← load page
    (e', op) ←
        do_if kernel_copy
        then pure (e, nothing_more)
        else return_access page i
            (if control == mach_port_dead then e else remove_client_from_access_list control e)
    store page (if dirty then set_paging_out true e' else e')
    pure op

  unfoldable pub return_pages : ℕ → ℕ → ℕ → M (List (ℕ × Returned))
  return_pages page i zero = pure []
  return_pages page i (suc k) = do
    op ← return_page page i
    rest ← return_pages (page + 1) (i + 1) k
    pure ((page, op) ∷ rest)

abbrev pub return_calls : ℕ → List (ℕ × Returned) → List Call
return_calls ps [] = []
return_calls ps ((page, nothing_more) ∷ ops) = return_calls ps ops
return_calls ps ((page, do_unlock) ∷ ops) = unlock_page (word (page * ps)) ∷ return_calls ps ops
return_calls ps ((page, do_notify) ∷ ops) = notify_evict (word (page * ps)) ∷ return_calls ps ops

abbrev pub unlocked_pages : List (ℕ × Returned) → List ℕ
unlocked_pages [] = []
unlocked_pages ((page, nothing_more) ∷ ops) = unlocked_pages ops
unlocked_pages ((page, do_unlock) ∷ ops) = page ∷ unlocked_pages ops
unlocked_pages ((page, do_notify) ∷ ops) = unlocked_pages ops

-- The end of data_return: queue dirty data, and write the queue out if no other thread does.
unfoldable pub queue_or_unmap : ℕ → ℕ → ℕ → ℕ → Bool → Bool → M (Unit {0})
queue_or_unmap fuel offset address length dirty kernel_copy = do
  s ← get
  let entry : WritewaitEntry = record {
    offset = offset;
    address = address;
    length = length;
    kernel_copy = kernel_copy;
  }
  do_if dirty
      then (do
        modify (λ t. record t { writewait = t.writewait ++ entry ∷ [] })
        when (is_empty s.writewait) (service_writewait fuel))
      else send (munmap address length)

unfoldable pub data_return : ℕ → ℕ → ℕ → ℕ → ℕ → Bool → Bool → M (Unit {0})
data_return fuel control offset address length dirty kernel_copy = do
  s ← get
  let ps = s.page_size
  assert (length % ps == 0)
  assert (offset % ps == 0)
  ops ← return_pages control address dirty kernel_copy (offset / ps) 0 (length / ps)
  when (not (is_empty (return_calls ps ops))) (do
    assert (not dirty)
    r ← outside (return_calls ps ops)
    finalize_unlocks r (unlocked_pages ops))
  queue_or_unmap fuel offset address length dirty kernel_copy
