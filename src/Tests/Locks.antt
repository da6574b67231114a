-- ===== src/Tests/Locks.antt =====
-- Runs of lock_completed and of send_error_to_WAITLIST, of a returned page and of a client that leaves.
use hurd.Base.{contains, if◌then◌else◌, ◌==◌, ℕ, ◌≡◌, refl, true, false, List, [], ◌∷◌, arith}
use hurd.Base.OrdMap.{pair_key, nat_key}
use hurd.Pagemap.Entry.{WaitlistClient, EntryData, empty_page}
use hurd.Pager.State.{Pager, ClientLock, page_data}
use hurd.Pager.Step.{done, fault, assertion, Keeps, ◌>>=◌}
use hurd.Pager.Locks.{lock_completed}
use hurd.Pager.Locks.Completed.{IsOnePage}
use hurd.Pager.Writeback.{return_page, data_return, Returned}
use hurd.Pager.Writeback.Handover.{IsSoleWriter, return_page_leaves_granted, hand_over_aborts}
use hurd.Pager.Clients.{destroy, drop_client}
use hurd.Pager.Clients.Departure.{destroy-faults, drop_client-keeps_waiting}
use hurd.Pager.Invariant.Defs.{Inv}
use hurd.Tests.{writer, with_pages, contended_page}

abbrev lock : ℕ → ClientLock
lock n = record { count = n; internal_lock_outstanding = true }

-- A pager of one page, with locks of client 3 outstanding.
abbrev locked : ℕ → EntryData → Pager
locked n e = record (with_pages (e ∷ [])) { outstanding_locks = ((0, 4096), (3, lock n) ∷ []) ∷ [] }

abbrev written_page : EntryData
written_page = record empty_page { access_list = 3 ∷ []; write_access_granted = true }

abbrev wanted_page : EntryData
wanted_page = record written_page { wait_list = writer 5 ∷ [] }

one_page : (n : ℕ) (e : EntryData) → IsOnePage 0 4096 (locked n e)
one_page n e = record { aligned = refl; whole_pages = refl; one_page = refl }

sole_writer :
    (n : ℕ) (ws : List WaitlistClient)
    → IsSoleWriter 3 0 (locked n (record written_page { wait_list = ws }))
sole_writer n ws = record { alone_on_page = refl; granted = refl; alive = refl }

return_page_leaves_granted_example :
    (op : Returned) × (t : Pager) × (return_page 3 80 true false 0 0 (locked 1 written_page)
      ≡ done op t)
    × ((page_data 0 t).access_list ≡ [])
    × ((page_data 0 t).wait_list ≡ [])
    × ((page_data 0 t).write_access_granted ≡ true)
return_page_leaves_granted_example =
    return_page_leaves_granted 3 80 0 0 true (locked 1 written_page) (sole_writer 1 []) refl

-- The same page, while a block of another page is written out.
abbrev busy : Pager
busy = record (locked 1 wanted_page) {
  writewait = record { offset = 4096; address = 160; length = 4096; kernel_copy = false } ∷ [];
}

hand_over_aborts_example :
    (data_return 5 3 0 80 4096 true false >>= λ _. lock_completed 3 0 4096) busy ≡ fault assertion
hand_over_aborts_example =
    hand_over_aborts 5 3 80 0 4096 busy (writer 5)
      (record { offset = 4096; address = 160; length = 4096; kernel_copy = false }) []
      ((3, lock 1) ∷ []) (lock 1) (record { aligned = refl; whole_pages = refl; one_page = refl })
      (record { alone_on_page = refl; granted = refl; alive = refl }) refl refl refl refl refl refl
      refl refl

destroy-faults_example : Keeps Inv (λ _ _. ⊥) (destroy 10 (with_pages (contended_page ∷ [])))
destroy-faults_example =
    destroy-faults 10 (with_pages (contended_page ∷ []))
      (record { locks_awaited = tt; access_sorted = ground arith; clients_sorted = ground arith })
      refl

drop_client-keeps_waiting_example :
    (t : Pager) × (drop_client 1 5 (with_pages (contended_page ∷ [])) ≡ done tt t)
    × ((client : ℕ)
        → contains client (page_data 0 t).access_list
          ≡ (if client == 5 then false else contains client contended_page.access_list))
    × ((page_data 0 t).write_access_granted ≡ (
        if contains 5 contended_page.access_list
        then false
        else contended_page.write_access_granted))
    × ((page_data 0 t).wait_list ≡ writer 5 ∷ [])
drop_client-keeps_waiting_example =
    drop_client-keeps_waiting 0 5 0 (with_pages (contended_page ∷ [])) refl (ground arith)

abbrev failed_page : EntryData
failed_page = record empty_page { wait_list = writer 5 ∷ []; error = 28 }
