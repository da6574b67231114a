-- ===== src/Pager/Invariant/Locks.antt =====
-- internal_lock_completed, lock_completed, data_request and data_unlock keep the invariant.
use hurd.Base.{
  ℕ, zero, suc, ◌<◌, ◌+◌, ◌-◌, List, [], ◌∷◌, arith, is_empty, ◌==◌, Bool-cases, inl, inr,
  erase-IsSorted,
}
use hurd.Base.OrdMap.{Map, AllValues-insert, AllValues-erase, AllValues-lookup, nat_key, pair_key}
use hurd.Pagemap.Entry.{EntryData, remove_client_from_access_list}
use hurd.Pager.State.{ClientLock}
use hurd.Pager.Step.{Reply}
use hurd.Pager.Locks.{
  Operation, no_operation, pagein, unlock, plan_page, plan, finish_read, finish_operations,
  internal_lock_completed, complete_one, settle, lock_completed,
}
use hurd.Pager.Invariant.Defs.{IsCounted, IsAwaited, HasSortedAccess}
use hurd.Pager.Invariant.Rules.{
  Safe, Any, pure-Safe, bind-Safe, then-Safe, get-Safe, modify-Safe, send-Safe, if-Safe, when-Safe,
  load-Safe, store-Safe, assert-Safe, outside-Safe, on_option-Safe, fail-Safe,
}
use hurd.Pager.Invariant.Waitlist.{
  service_wait_list-Safe, send_error_to_wait_list-Safe, finalize_unlock-Safe, insert-IsAwaited,
}

plan_page-Safe : (page : ℕ) (e : EntryData) → HasSortedAccess e → Safe Any (plan_page page e)
unfolding plan_page
plan_page-Safe page e h = bind-Safe get-Safe (λ s _.
    if-Safe _
      (λ _.
        if-Safe _ (λ _. then-Safe (store-Safe page e h) (pure-Safe pagein tt))
          (λ _.
            bind-Safe (send_error_to_wait_list-Safe _ e h)
              (λ e' h'. then-Safe (store-Safe page e' h') (pure-Safe no_operation tt))))
      (λ _. then-Safe (store-Safe page e h) (pure-Safe _ tt)))

plan-Safe : (control page k : ℕ) → Safe Any (plan control page k)
unfolding plan
plan-Safe control page zero = pure-Safe [] tt
plan-Safe control page (suc k) = bind-Safe (load-Safe page) (λ e h. assert-Safe _ (λ _.
    bind-Safe
      (if-Safe _
        (λ _.
          plan_page-Safe page (remove_client_from_access_list control e)
            (erase-IsSorted control e.access_list h))
        (λ _. pure-Safe no_operation tt))
      (λ op _. bind-Safe (plan-Safe control (page + 1) k) (λ rest _. pure-Safe _ tt))))

pub finish_read-Safe :
    (offset : ℕ) (r : Reply) (e : EntryData)
    → HasSortedAccess e
    → Safe HasSortedAccess (finish_read offset r e)
unfolding finish_read
finish_read-Safe offset r e h =
    if-Safe _ (λ _. service_wait_list-Safe offset _ _ _ _ h)
      (λ _. send_error_to_wait_list-Safe offset _ h)

finish_operations-Safe :
    (r : ℕ → Reply) (ops : List (ℕ × Operation)) → Safe Any (finish_operations r ops)
unfolding finish_operations
finish_operations-Safe r [] = pure-Safe tt tt
finish_operations-Safe r ((page, no_operation) ∷ ops) = finish_operations-Safe r ops
finish_operations-Safe r ((page, pagein) ∷ ops) = bind-Safe get-Safe (λ s _.
    bind-Safe (load-Safe page) (λ e h.
      bind-Safe (finish_read-Safe _ (r page) e h)
        (λ e' h'. then-Safe (store-Safe page e' h') (finish_operations-Safe r ops))))
finish_operations-Safe r ((page, unlock) ∷ ops) = bind-Safe get-Safe (λ s _.
    bind-Safe (load-Safe page) (λ e h.
      bind-Safe (finalize_unlock-Safe _ _ e h)
        (λ e' h'. then-Safe (store-Safe page e' h') (finish_operations-Safe r ops))))

pub internal_lock_completed-Safe :
    (control offset length : ℕ) → Safe Any (internal_lock_completed control offset length)
unfolding internal_lock_completed
internal_lock_completed-Safe control offset length = bind-Safe get-Safe (λ s _. assert-Safe _ (λ _.
    assert-Safe _ (λ _.
      if-Safe s.terminating (λ _. pure-Safe tt tt)
        (λ _.
          bind-Safe (plan-Safe _ _ _)
            (λ ops _. bind-Safe (outside-Safe _) (λ r _. finish_operations-Safe r ops))))))

-- The locks that remain after a completion, or after a client is dropped.
pub settle-Safe :
    (key : ℕ × ℕ) (locks : Map ℕ ClientLock) → IsCounted locks → Safe Any (settle key locks)
unfolding settle
settle-Safe (offset, length) locks h =
    if-Safe (is_empty locks)
      (λ _. then-Safe (send-Safe _) (
        modify-Safe _ (λ s i. record {
          locks_awaited =
              AllValues-erase IsAwaited (offset, length) s.outstanding_locks i.locks_awaited;
          access_sorted = i.access_sorted;
          clients_sorted = i.clients_sorted;
        })))
      (λ some_left. modify-Safe _ (λ s i. record {
        locks_awaited =
            AllValues-insert IsAwaited (offset, length) locks s.outstanding_locks (some_left, h)
              i.locks_awaited;
        access_sorted = i.access_sorted;
        clients_sorted = i.clients_sorted;
      }))

complete_one-IsCounted :
    (control : ℕ) (l : ClientLock) (locks : Map ℕ ClientLock)
    → 0 < l.count
    → IsCounted locks
    → IsCounted (complete_one control l locks).0
complete_one-IsCounted control l locks p h = elim (Bool-cases (l.count == 1)) [
  | inl last ↦ rw last (AllValues-erase (λ (k : ClientLock). 0 < k.count) control locks h)
  | inr more ↦
      rw more (insert-IsAwaited control (record l { count = l.count - 1 }) locks (ground arith) h).1
]

pub lock_completed-Safe :
    (control offset length : ℕ) → Safe Any (lock_completed control offset length)
unfolding lock_completed
lock_completed-Safe control offset length = bind-Safe get-Safe (λ s i.
    on_option-Safe _ (λ _. fail-Safe _)
      (λ locks e. assert-Safe _ (λ positive.
        then-Safe
          (settle-Safe _ _ (
            complete_one-IsCounted control _ locks (ground arith)
              (AllValues-lookup IsAwaited (offset, length) s.outstanding_locks i.locks_awaited
                e).1))
          (when-Safe _ (internal_lock_completed-Safe control offset length)))))
