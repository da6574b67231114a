-- ===== src/Pager/Invariant/Request.antt =====
-- data_request, data_unlock and the writing out of returned pages keep the invariant.
use hurd.Base.{ℕ, zero, suc, ◌+◌, Bool, true, false, List, [], ◌∷◌, erase-IsSorted}
use hurd.Pagemap.Entry.{EntryData}
use hurd.Pager.Step.{Reply}
use hurd.Pager.Request.{
  page_in, request_new, request_page, data_request, unlock_pages, finalize_unlocks, data_unlock,
}
use hurd.Pager.Invariant.Defs.{HasSortedAccess}
use hurd.Pager.Invariant.Rules.{
  Safe, Any, pure-Safe, bind-Safe, then-Safe, get-Safe, send-Safe, if-Safe, when-Safe, load-Safe,
  store-Safe, assert-Safe, outside-Safe, on_option-Safe,
}
use hurd.Pager.Invariant.Waitlist.{flush_all-Safe, finalize_unlock-Safe, nexterror-Safe}
use hurd.Pager.Invariant.Locks.{finish_read-Safe, internal_lock_completed-Safe}

module _ (control offset length : ℕ) (write : Bool) where
  page_in-Safe :
      (e : EntryData) → HasSortedAccess e → Safe Any (page_in control offset length write e)
  unfolding page_in
  page_in-Safe e h = bind-Safe get-Safe (λ s _. then-Safe (when-Safe _ (send-Safe _)) (
      then-Safe (store-Safe _ _ h) (
        bind-Safe (outside-Safe _) (λ r _. bind-Safe (load-Safe _) (λ e' h'.
          bind-Safe (finish_read-Safe offset _ e' h') (λ e'' h''. store-Safe _ e'' h''))))))

  request_new-Safe :
      (e : EntryData) → HasSortedAccess e → Safe Any (request_new control offset length write e)
  unfolding request_new
  request_new-Safe e h = bind-Safe get-Safe (λ s _.
      if-Safe _ (λ _. store-Safe _ _ h)
        (λ _.
          if-Safe _ (λ _. then-Safe (flush_all-Safe _ offset) (store-Safe _ _ h))
            (λ _.
              if-Safe _ (λ _. then-Safe (flush_all-Safe _ offset) (store-Safe _ _ h))
                (λ _. page_in-Safe e h))))

  request_page-Safe :
      (e : EntryData) → HasSortedAccess e → Safe Any (request_page control offset length write e)
  unfolding request_page
  request_page-Safe e h = bind-Safe get-Safe (λ s _.
      if-Safe _ (λ _. then-Safe (when-Safe _ (flush_all-Safe _ offset)) (store-Safe _ _ h))
        (λ _.
          if-Safe _
            (λ _.
              if-Safe _
                (λ _. then-Safe (store-Safe _ _ h) (internal_lock_completed-Safe control offset _))
                (λ _. request_new-Safe _ (erase-IsSorted control e.access_list h)))
            (λ _. request_new-Safe e h)))

pub data_request-Safe :
    (control offset length access : ℕ) → Safe Any (data_request control offset length access)
unfolding data_request
data_request-Safe control offset length access = bind-Safe get-Safe (λ s _. assert-Safe _ (λ _.
    assert-Safe _ (λ _.
      if-Safe s.terminating (λ _. pure-Safe tt tt)
        (λ _. bind-Safe (load-Safe _) (λ e h.
          on_option-Safe _ (λ _. request_page-Safe control offset length _ e h)
            (λ found _. then-Safe (send-Safe _) (nexterror-Safe (λ _. found.1))))))))

unlock_pages-Safe : (control offset page k : ℕ) → Safe Any (unlock_pages control offset page k)
unfolding unlock_pages
unlock_pages-Safe control offset page zero = pure-Safe [] tt
unlock_pages-Safe control offset page (suc k) = bind-Safe (load-Safe page) (λ e h.
    assert-Safe _ (λ _. assert-Safe _ (λ _. assert-Safe _ (λ _.
      bind-Safe {Q = Any}
        (if-Safe _ (λ _. then-Safe (store-Safe page e h) (pure-Safe false tt))
          (λ _.
            if-Safe _ (λ _. then-Safe (store-Safe page _ h) (pure-Safe false tt))
              (λ _.
                if-Safe _
                  (λ _.
                    then-Safe (flush_all-Safe _ offset)
                      (then-Safe (store-Safe page _ h) (pure-Safe false tt)))
                  (λ _. then-Safe (store-Safe page _ h) (pure-Safe true tt)))))
        (λ op _.
          bind-Safe (unlock_pages-Safe control offset (page + 1) k) (λ rest _. pure-Safe _ tt))))))

pub finalize_unlocks-Safe : (r : ℕ → Reply) (pages : List ℕ) → Safe Any (finalize_unlocks r pages)
unfolding finalize_unlocks
finalize_unlocks-Safe r [] = pure-Safe tt tt
finalize_unlocks-Safe r (page ∷ pages) = bind-Safe get-Safe (λ s _.
    bind-Safe (load-Safe page) (λ e h.
      bind-Safe (finalize_unlock-Safe _ _ e h)
        (λ e' h'. then-Safe (store-Safe page e' h') (finalize_unlocks-Safe r pages))))

pub data_unlock-Safe : (control offset length : ℕ) → Safe Any (data_unlock control offset length)
unfolding data_unlock
data_unlock-Safe control offset length = bind-Safe get-Safe (λ s _. assert-Safe _ (λ _.
    assert-Safe _ (λ _.
      if-Safe s.terminating (λ _. pure-Safe tt tt)
        (λ _.
          bind-Safe (unlock_pages-Safe control offset _ _)
            (λ pages _. bind-Safe (outside-Safe _) (λ r _. finalize_unlocks-Safe r pages))))))
