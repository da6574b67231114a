-- ===== src/Pager/Memcpy.antt =====
-- libpager/pager-memcpy.c: pager_memcpy, which copies between this task's memory and a pager's object
-- through windows that it maps. The page size is that of i386; addresses and sizes have 32 bits.
-- vm_map, vm_copy, the faults of memcpy and pager_get_error are the record `Outside`.
pub mod Range
pub mod Ends
mod Loops
mod DoCopy
pub mod Total
pub mod Paged
use hurd.Base.{
  ℕ, zero, suc, ◌+◌, ◌-◌, ◌*◌, ◌%◌, ◌^◌, Bool, not, ◌&&◌, ◌||◌, Option, none, some, if◌then◌else◌,
  ltb, leb, ◌==◌,
}
use hurd.Pager.State.{word}

abbrev pub vm_page_size : ℕ
vm_page_size = 4096

abbrev pub vm_prot_read : ℕ
vm_prot_read = 1

-- VMCOPY_BETTER_THAN_MEMCPY.
abbrev pub vmcopy_better_than_memcpy : ℕ
vmcopy_better_than_memcpy = 8 * vm_page_size

-- VMCOPY_WINDOW_DEFAULT_SIZE and MEMCPY_WINDOW_DEFAULT_SIZE, which are the same.
abbrev pub window_default_size : ℕ
window_default_size = 32 * vm_page_size

-- Subtraction of machine words.
unfoldable pub minus : ℕ → ℕ → ℕ
unfolding word
minus a b = word (a + 2 ^ 32 - b)

unfoldable pub round_page : ℕ → ℕ
unfolding word
round_page size = let last = word (size + (vm_page_size - 1)) in last - last % vm_page_size

-- The variables that the nested functions share, the bytes of this task at each address, and the
-- bytes of the pager's object at each offset.
pub record Copy : Type 0 where
  pub offset : ℕ
  pub other : ℕ
  pub n : ℕ
  pub window_size : ℕ
  pub memory : ℕ → ℕ
  pub contents : ℕ → ℕ

-- What the calls out of the function answer: vm_map and vm_copy, on the offset and the size of the
-- window, an error or 0; on the offset of the first byte and the count that memcpy is to copy: `fault`,
-- which of these bytes faults, if one does, `is_memory_error`, whether the fault's sc_error is
-- EKERN_MEMORY_ERROR, and `is_torn`, whether the byte at an address or offset of the destination was
-- copied before the fault; and pager_get_error, on an offset.
pub record Outside : Type 0 where
  pub vm_map : ℕ → ℕ → ℕ
  pub vm_copy : ℕ → ℕ → ℕ
  pub fault : ℕ → ℕ → Option ℕ
  pub is_memory_error : ℕ → ℕ → Bool
  pub is_torn : ℕ → ℕ → ℕ → Bool
  pub get_error : ℕ → ℕ

-- How a nested function ends: it returns an error or 0, the fault handler jumps out of it, an assert
-- fails, or the model's fuel is used up.
pub data Outcome : Type 0 where
  returns : ℕ → Copy → Outcome
  jumps : ℕ → Copy → Outcome
  aborts : Outcome
  out_of_fuel : Outcome

-- How the function ends: the error and *SIZE.
pub data Result : Type 0 where
  returned : ℕ → ℕ → Copy → Result
  aborted : Result
  unfinished : Result

-- TO with COUNT bytes from START on taken from FROM, where they stand from BEGIN on.
unfoldable pub copied : (ℕ → ℕ) → ℕ → (ℕ → ℕ) → ℕ → ℕ → ℕ → ℕ
copied from begin to start count a =
    if leb start a && ltb a (start + count) then from (begin + (a - start)) else to a

-- `other += count; offset += count; n -= count`.
unfoldable pub move_on : ℕ → Copy → Copy
unfolding word minus
move_on count s = record s {
  offset = word (s.offset + count);
  other = word (s.other + count);
  n = minus s.n count;
}

-- The bytes that memcpy or vm_copy copies, whose direction PROT tells.
unfoldable pub transfer : ℕ → ℕ → Copy → Copy
unfolding copied
transfer prot count s =
    if prot == vm_prot_read
    then record s { memory = copied s.contents s.offset s.memory s.other count }
    else record s { contents = copied s.memory s.other s.contents s.offset count }

-- The size of do_vm_copy's next window.
abbrev pub vm_copy_window : ℕ → ℕ
vm_copy_window n = if ltb n window_default_size then n - n % vm_page_size else window_default_size

-- The number of bytes that do_memcpy copies next, to or from a window at OFFSET.
abbrev pub memcpy_count : ℕ → ℕ → ℕ → ℕ
memcpy_count offset to_copy window_size =
    let pageoff = offset % vm_page_size in
    if leb (round_page (word (pageoff + to_copy))) window_size
    then to_copy
    else minus window_size pageoff

-- What a memcpy of COUNT bytes that faults leaves: the bytes of its destination that were COPIED_YET
-- are the new ones.
unfoldable pub tear : (ℕ → Bool) → ℕ → ℕ → Copy → Copy
tear copied_yet prot count s =
    let whole = transfer prot count s in
    record s {
      memory = λ a. if copied_yet a then whole.memory a else s.memory a;
      contents = λ a. if copied_yet a then whole.contents a else s.contents a;
    }

-- The fault handler, for a fault at so many bytes above the beginning of the window; SC_ERROR tells
-- whether it is EKERN_MEMORY_ERROR.
unfoldable pub fault_handler : Outside → Bool → ℕ → Copy → Outcome
unfolding word minus
fault_handler k sc_error above s =
    if sc_error
    then jumps (k.get_error (word (above + s.offset))) (record s { n = minus s.n above })
    else aborts

-- memcpy from or to the window, PAGEOFF bytes above its beginning.
unfoldable pub copy_window : Outside → ℕ → ℕ → ℕ → Option ℕ → Copy → Outcome
unfolding fault_handler tear
copy_window k prot pageoff count (some at) s =
    fault_handler k (k.is_memory_error s.offset count) (pageoff + at)
      (tear (k.is_torn s.offset count) prot count s)
copy_window k prot pageoff count none s = returns 0 (move_on count (transfer prot count s))

-- What follows a nested function that returned 0, if something is left to copy.
abbrev pub go_on : Outcome → (Copy → Outcome) → Outcome
go_on (returns err s) rest = if not (err == 0) then returns err s else rest s
go_on (jumps err s) rest = jumps err s
go_on aborts rest = aborts
go_on out_of_fuel rest = out_of_fuel

-- From `if (sigsetjmp (buf, 1) == 0)` to the end; SIZE is *SIZE.
unfoldable pub conclude : ℕ → Outcome → Result
conclude size (returns err s) =
    if err == 0 && not (s.n == 0) then aborted else returned err (minus size s.n) s
conclude size (jumps err s) =
    if err == 0 && not (s.n == 0) then aborted else returned err (minus size s.n) s
conclude size aborts = aborted
conclude size out_of_fuel = unfinished

module _ (k : Outside) (prot : ℕ) where
  -- The loop of do_vm_copy.
  unfoldable pub vm_copy_loop : ℕ → Copy → Outcome
  vm_copy_loop zero s = out_of_fuel
  vm_copy_loop (suc fuel) s =
      let size = vm_copy_window s.n in
      let mapped = record s { window_size = size } in
      let next = move_on size (transfer prot size mapped) in
      let rest = vm_copy_loop fuel next in
      if not (leb vmcopy_better_than_memcpy size && size % vm_page_size == 0)
      then aborts
      else (if not (k.vm_map s.offset size == 0)
          then returns (k.vm_map s.offset size) mapped
          else (if not (k.vm_copy s.offset size == 0)
              then returns (k.vm_copy s.offset size) mapped
              else (if leb vmcopy_better_than_memcpy next.n then rest else returns 0 next)))

  unfoldable pub do_vm_copy : Copy → Outcome
  do_vm_copy s =
      if s.offset % vm_page_size == 0 && s.other % vm_page_size == 0 && leb vm_page_size s.n
      then vm_copy_loop (suc s.n) s
      else aborts

  -- The loop of do_memcpy. Its asserts, that an unsigned number is not negative, cannot fail.
  unfoldable pub memcpy_loop : ℕ → ℕ → Copy → Outcome
  memcpy_loop zero to_copy s = out_of_fuel
  memcpy_loop (suc fuel) to_copy s =
      let pageoff = s.offset % vm_page_size in
      let end = round_page (word (pageoff + to_copy)) in
      let count = memcpy_count s.offset to_copy s.window_size in
      let size = if leb end s.window_size then end else s.window_size in
      let mapped = record s { window_size = size } in
      let err = k.vm_map (minus s.offset pageoff) size in
      let left = minus to_copy count in
      let rest = memcpy_loop fuel left in
      if not (err == 0)
      then returns err mapped
      else go_on (copy_window k prot pageoff count (k.fault s.offset count) mapped)
          (λ next. if ltb 0 left then rest next else returns 0 next)

  unfoldable pub do_memcpy : ℕ → Copy → Outcome
  do_memcpy to_copy s =
      memcpy_loop (suc to_copy) to_copy (record s { window_size = window_default_size })

  -- After the first do_memcpy of do_copy.
  unfoldable pub copy_pages : Copy → Outcome
  copy_pages s =
      if leb vmcopy_better_than_memcpy s.n
      then go_on (do_vm_copy s) (λ t.
        if t.n == 0
        then returns 0 t
        else (if ltb t.n vmcopy_better_than_memcpy then do_memcpy t.n t else aborts))
      else aborts

  unfoldable pub do_copy : Copy → Outcome
  do_copy s =
      let to_page = vm_page_size - s.other % vm_page_size in
      if s.other % vm_page_size == s.offset % vm_page_size
        && leb (vmcopy_better_than_memcpy + to_page) s.n
      then go_on (do_memcpy to_page s) copy_pages
      else do_memcpy s.n s

  -- After do_vm_copy at an aligned start, which never jumps: vm_copy does not fault in this task.
  unfoldable pub after_pages : ℕ → Outcome → Result
  after_pages size (returns err s) =
      if not (err == 0) || s.n == 0
      then returned err (minus size s.n) s
      else (if ltb s.n vmcopy_better_than_memcpy
          then conclude size (do_copy (record s { window_size = 0 }))
          else aborted)
  after_pages size (jumps err s) = conclude size (jumps err s)
  after_pages size aborts = aborted
  after_pages size out_of_fuel = unfinished

  -- S.n is *SIZE.
  unfoldable pub pager_memcpy : Copy → Result
  pager_memcpy s =
      if s.n == 0
      then returned 0 0 s
      else (if s.other % vm_page_size == 0
            && s.offset % vm_page_size == 0
            && leb vmcopy_better_than_memcpy s.n
          then after_pages s.n (do_vm_copy s)
          else conclude s.n (do_copy (record s { window_size = 0 })))
