-- ===== src/Pager/Invariant/Writeback.antt =====
-- data_return and the writing out of WRITEWAIT keep the invariant.
use hurd.Base.{
  ℕ, zero, suc, ◌+◌, Bool, true, false, List, [], ◌∷◌, ◌==◌, if◌then◌else◌, erase-IsSorted,
}
use hurd.Pagemap.Entry.{EntryData}
use hurd.Pager.State.{WritewaitEntry, Pager}
use hurd.Pager.Step.{Reply, modify}
use hurd.Pager.Writeback.{
  finish_pageout, finish_pageouts, forget_nexterrors, service_entry, service_first_writewait_entry,
  service_writewait, return_access, return_page, return_pages, queue_or_unmap, data_return,
  Returned, nothing_more, no_reply, record_write,
}
use hurd.Pager.Invariant.Defs.{HasSortedAccess}
use hurd.Pager.Invariant.Rules.{
  Safe, Any, pure-Safe, bind-Safe, then-Safe, get-Safe, modify-Safe, send-Safe, if-Safe, when-Safe,
  load-Safe, store-Safe, assert-Safe, outside-Safe, on_list-Safe, fail-Safe,
}
use hurd.Pager.Invariant.Waitlist.{service_wait_list-Safe, nexterror-Safe}
use hurd.Pager.Invariant.Request.{finalize_unlocks-Safe}

forget_nexterrors-Safe : (offset : ℕ) → Safe Any (forget_nexterrors offset)
unfolding forget_nexterrors
forget_nexterrors-Safe offset = nexterror-Safe _

-- A page whose flags alone change keeps its clients.
if-HasSortedAccess :
    (b : Bool) (e e' : EntryData)
    → HasSortedAccess e
    → HasSortedAccess e'
    → HasSortedAccess (if b then e else e')
if-HasSortedAccess true e e' h h' = h
if-HasSortedAccess false e e' h h' = h'

finish_pageout-Safe :
    (current : WritewaitEntry) (page i err : ℕ) (e : EntryData)
    → HasSortedAccess e
    → Safe Any (finish_pageout current page i err e)
unfolding finish_pageout
finish_pageout-Safe current page i err e h =
    let h' : HasSortedAccess (record_write err e) = if-HasSortedAccess (err == 0) _ _ h h in
    bind-Safe get-Safe (λ s _.
      if-Safe _
        (λ _.
          if-Safe _ (λ _. then-Safe (store-Safe page _ h') (pure-Safe false tt))
            (λ _.
              if-Safe _
                (λ _.
                  then-Safe (forget_nexterrors-Safe _)
                    (then-Safe (store-Safe page _ h') (pure-Safe true tt)))
                (λ _.
                  bind-Safe (service_wait_list-Safe _ _ _ _ _ h')
                    (λ e' h''. then-Safe (store-Safe page e' h'') (pure-Safe false tt)))))
        (λ _. assert-Safe _ (λ _. then-Safe (store-Safe page _ h') (pure-Safe false tt))))

finish_pageouts-Safe :
    (current : WritewaitEntry) (r : ℕ → Reply) (pages : List (ℕ × ℕ))
    → Safe Any (finish_pageouts current r pages)
unfolding finish_pageouts
finish_pageouts-Safe current r [] = pure-Safe [] tt
finish_pageouts-Safe current r ((page, i) ∷ pages) = bind-Safe (load-Safe page) (λ e h.
    bind-Safe (finish_pageout-Safe current page i _ e h)
      (λ notified _. bind-Safe (finish_pageouts-Safe current r pages) (λ rest _. pure-Safe _ tt)))

-- A change of WRITEWAIT alone.
writewait-Safe :
    (f : Pager → List WritewaitEntry) → Safe Any (modify λ s. record s { writewait = f s })
writewait-Safe f = modify-Safe _ (λ s i. record {
  locks_awaited = i.locks_awaited;
  access_sorted = i.access_sorted;
  clients_sorted = i.clients_sorted;
})

service_entry-Safe : (current : WritewaitEntry) → Safe Any (service_entry current)
unfolding service_entry
service_entry-Safe current = bind-Safe get-Safe (λ s _.
    bind-Safe (if-Safe _ (λ _. pure-Safe no_reply tt) (λ _. outside-Safe _)) (λ r _.
      bind-Safe (finish_pageouts-Safe current r _) (λ notified _. then-Safe (send-Safe _) (
        then-Safe (when-Safe _ (then-Safe (outside-Safe _) (pure-Safe tt tt)))
          (then-Safe (send-Safe _) (writewait-Safe _))))))

service_first_writewait_entry-Safe : Safe Any service_first_writewait_entry
unfolding service_first_writewait_entry
service_first_writewait_entry-Safe =
    bind-Safe get-Safe
      (λ s _. on_list-Safe s.writewait (fail-Safe _) (λ current _. service_entry-Safe current))

service_writewait-Safe : (fuel : ℕ) → Safe Any (service_writewait fuel)
unfolding service_writewait
service_writewait-Safe zero = fail-Safe _
service_writewait-Safe (suc fuel) = bind-Safe get-Safe (λ s _.
    on_list-Safe s.writewait (pure-Safe tt tt)
      (λ _ _. then-Safe service_first_writewait_entry-Safe (service_writewait-Safe fuel)))

abbrev HasSortedResult : EntryData × Returned → Type 0
HasSortedResult (e, op) = HasSortedAccess e

module _ (control address : ℕ) (dirty kernel_copy : Bool) where
  return_access-Safe :
      (page i : ℕ) (e : EntryData)
      → HasSortedAccess e
      → Safe HasSortedResult (return_access control address dirty kernel_copy page i e)
  unfolding return_access
  return_access-Safe page i e h = bind-Safe get-Safe (λ s _.
      if-Safe _
        (λ _.
          bind-Safe (service_wait_list-Safe _ _ _ _ e h) (λ e' h'. pure-Safe (e', nothing_more) h'))
        (λ _.
          if-Safe _ (λ _. pure-Safe _ h)
            (λ _.
              if-Safe _ (λ _. then-Safe (forget_nexterrors-Safe _) (pure-Safe _ h))
                (λ _. pure-Safe _ h))))

  return_page-Safe : (page i : ℕ) → Safe Any (return_page control address dirty kernel_copy page i)
  unfolding return_page
  return_page-Safe page i = bind-Safe (load-Safe page) (λ e h.
      bind-Safe {Q = HasSortedResult}
        (if-Safe kernel_copy (λ _. pure-Safe (e, nothing_more) h)
          (λ _.
            return_access-Safe page i _
              (if-HasSortedAccess _ _ _ h (erase-IsSorted control e.access_list h))))
        (λ p h'.
          then-Safe (store-Safe page _ (if-HasSortedAccess dirty _ _ h' h')) (pure-Safe _ tt)))

  return_pages-Safe :
      (page i k : ℕ) → Safe Any (return_pages control address dirty kernel_copy page i k)
  unfolding return_pages
  return_pages-Safe page i zero = pure-Safe [] tt
  return_pages-Safe page i (suc k) =
      bind-Safe (return_page-Safe page i)
        (λ op _. bind-Safe (return_pages-Safe (page + 1) (i + 1) k) (λ rest _. pure-Safe _ tt))

queue_or_unmap-Safe :
    (fuel offset address length : ℕ) (dirty kernel_copy : Bool)
    → Safe Any (queue_or_unmap fuel offset address length dirty kernel_copy)
unfolding queue_or_unmap
queue_or_unmap-Safe fuel offset address length dirty kernel_copy = bind-Safe get-Safe (λ s _.
    if-Safe dirty (λ _. then-Safe (writewait-Safe _) (when-Safe _ (service_writewait-Safe fuel)))
      (λ _. send-Safe _))

pub data_return-Safe :
    (fuel control offset address length : ℕ) (dirty kernel_copy : Bool)
    → Safe Any (data_return fuel control offset address length dirty kernel_copy)
unfolding data_return
data_return-Safe fuel control offset address length dirty kernel_copy = bind-Safe get-Safe (λ s _.
    assert-Safe _ (λ _. assert-Safe _ (λ _.
      bind-Safe (return_pages-Safe control address dirty kernel_copy _ 0 _) (λ ops _.
        then-Safe
          (when-Safe _
            (assert-Safe _ (λ _. bind-Safe (outside-Safe _) (λ r _. finalize_unlocks-Safe r _))))
          (queue_or_unmap-Safe fuel offset address length dirty kernel_copy)))))
