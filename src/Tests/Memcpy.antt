-- ===== src/Tests/Memcpy.antt =====
-- Runs of pager_memcpy at concrete inputs.
use hurd.Base.{
  ℕ, [], ◌∷◌, ◌+◌, ◌≡◌, ◌-◌, ◌&&◌, refl, none, some, true, false, arith, if◌then◌else◌, ltb, leb,
}
use hurd.Pager.Memcpy.{
  Copy, Outside, Result, returned, pager_memcpy, vm_copy_loop, do_vm_copy, memcpy_loop, do_memcpy,
  copy_window, fault_handler, tear, do_copy, copy_pages, conclude, after_pages, round_page, minus,
  move_on, transfer,
}
use hurd.Pager.Memcpy.Ends.{FaultsInside}
use hurd.Pager.Memcpy.Total.{Reports, IsReported, pager_memcpy-Reports, pager_memcpy-IsReported}
use hurd.Pager.Memcpy.Paged.{on_pager, IsExact, pager_memcpy-IsExact}
use hurd.Pager.State.{Pager, word}
use hurd.Pager.Request.{get_error}
use hurd.Pagemap.Entry.{empty_page}
use hurd.Tests.{with_pages}

-- A kernel without failures, and one whose object faults from the byte at 8300 on.
abbrev willing : Outside
willing = record {
  vm_map = λ _ _. 0;
  vm_copy = λ _ _. 0;
  fault = λ _ _. none;
  is_memory_error = λ _ _. true;
  is_torn = λ _ _ _. false;
  get_error = λ _. 0;
}

abbrev faulting : Outside
faulting = record {
  vm_map = λ _ _. 0;
  vm_copy = λ _ _. 0;
  fault = λ offset count.
      if leb offset 8300 && ltb 8300 (offset + count) then some (8300 - offset) else none;
  is_memory_error = λ _ _. true;
  is_torn = λ offset count a. ltb a 82000;
  get_error = λ offset. offset;
}

-- 40000 bytes from offset 100 of the object, to an address with the same offset in its page.
abbrev request : Copy
request = record {
  offset = 100;
  other = 81920 + 100;
  n = 40000;
  window_size = 0;
  memory = λ _. 0;
  contents = λ a. a;
}

abbrev outcome : Result → ℕ × ℕ
outcome (returned err size t) = (err, size)
outcome _ = (0, 0)

request_done : outcome (pager_memcpy willing 1 request) ≡ (0, 40000)
unfolding pager_memcpy vm_copy_loop do_vm_copy memcpy_loop do_memcpy copy_window fault_handler tear
    do_copy copy_pages conclude after_pages round_page minus move_on transfer word
request_done = refl

-- 9000 bytes from offset 8000 on: the object faults after 300 of them.
abbrev faulting_request : Copy
faulting_request = record {
  offset = 8000;
  other = 81927;
  n = 9000;
  window_size = 0;
  memory = λ _. 0;
  contents = λ a. a;
}

-- The error that is asked for, and the count reported, are 3904 bytes off.
faulting_request_done : outcome (pager_memcpy faulting 1 faulting_request) ≡ (12204, 4204)
unfolding pager_memcpy vm_copy_loop do_vm_copy memcpy_loop do_memcpy copy_window fault_handler tear
    do_copy copy_pages conclude after_pages round_page minus move_on transfer word
faulting_request_done = refl

pager_memcpy-IsReported_example : IsReported willing 1 request (pager_memcpy willing 1 request)
pager_memcpy-IsReported_example =
    pager_memcpy-IsReported willing 1 request
      (record { offsets = omega arith; addresses = omega arith; small = omega arith }) (λ _ _. refl)

faulting-FaultsInside : FaultsInside faulting
faulting-FaultsInside offset count at e = ground (arith, e)

pager_memcpy-Reports_example :
    Reports faulting 1 faulting_request (pager_memcpy faulting 1 faulting_request)
pager_memcpy-Reports_example =
    pager_memcpy-Reports faulting 1 faulting_request
      (record { offsets = omega arith; addresses = omega arith; small = omega arith })
      faulting-FaultsInside

-- A pager whose third page has the error 5, and 9000 bytes from its second page on: the copy faults in
-- the third page.
abbrev failing_pager : Pager
failing_pager = with_pages (empty_page ∷ empty_page ∷ record empty_page { error = 5 } ∷ [])

abbrev paged_request : Copy
paged_request = record faulting_request { offset = 4096 }

pager_memcpy-IsExact_example :
    IsExact failing_pager faulting 1 paged_request
      (pager_memcpy (on_pager failing_pager faulting) 1 paged_request)
pager_memcpy-IsExact_example =
    pager_memcpy-IsExact failing_pager faulting 1 paged_request
      (record { offsets = omega arith; addresses = omega arith; small = omega arith })
      faulting-FaultsInside refl refl

paged_request_done :
    outcome (pager_memcpy (on_pager failing_pager faulting) 1 paged_request) ≡ (5, 4204)
unfolding pager_memcpy vm_copy_loop do_vm_copy memcpy_loop do_memcpy copy_window fault_handler tear
    do_copy copy_pages conclude after_pages round_page minus move_on transfer word get_error
paged_request_done = refl
