-- ===== src/Pager/Memcpy/Paged.antt =====
-- libpager/pager-memcpy.c with pager::get_error of libpager/pagemap.cc: the error that a copy of whole
-- pages reports.
use hurd.Base.{
  ℕ, zero, suc, sym, ◌+◌, ◌/◌, ◌%◌, ◌≤◌, ◌<◌, ◌≡◌, ◌^◌, ◌∙◌, ap, ◌⊎◌, inl, inr, some, arith,
}
use hurd.Pager.State.{Pager, word, page_data}
use hurd.Pager.Request.{get_error}
use hurd.Pager.Memcpy.{
  Copy, Outside, Result, returned, aborted, unfinished, vm_page_size, pager_memcpy,
}
use hurd.Pager.Memcpy.Range.{IsMoved}
use hurd.Pager.Memcpy.Ends.{HasRoom, HasOtherFault, IsTorn, FaultsInside}
use hurd.Pager.Memcpy.Total.{CopyReport, FaultReport, Reports, pager_memcpy-Reports}

-- The calls out of pager_memcpy, on a pager.
abbrev pub on_pager : Pager → Outside → Outside
on_pager pager k = record k { get_error = λ offset. get_error offset pager }

-- A fault at a byte of the object, so many bytes behind the start: those up to MIDDLE are copied, and
-- the next memcpy was to copy that byte; of the bytes that it was to copy any may be copied, and no
-- others.
pub record FaultAt (k : Outside) (prot : ℕ) (s : Copy) (size : ℕ) (t : Copy) : Type 0 where
  pub count : ℕ
  pub middle : Copy
  pub moved : IsMoved prot s count middle
  pub tried : ℕ
  pub at : ℕ
  pub fault : k.fault middle.offset tried ≡ some at
  pub position : middle.offset + at ≡ s.offset + size
  pub inside : at < tried
  pub fewer : size < s.n
  pub torn : IsTorn prot tried middle t

module _ (pager : Pager) (k : Outside) (prot : ℕ) (s : Copy) where
  -- *SIZE is where the copy ended, or where it faulted; then the error is that of the page there.
  abbrev pub IsExact : Result → Type 0
  IsExact (returned err size t) =
      CopyReport (on_pager pager k) prot s err size t
      ⊎ (FaultAt (on_pager pager k) prot s size t
          × (err ≡ (page_data ((s.offset + size) / vm_page_size) pager).error))
  IsExact aborted =
      HasOtherFault k
      ⊎ ((offset : ℕ) × (s.offset ≤ offset)
          × (offset < s.offset + s.n)
          × ((page_data (offset / vm_page_size) pager).error ≡ 0))
  IsExact unfinished = ⊥

  module _ (room : HasRoom s) (local : FaultsInside k) (aligned : s.offset % vm_page_size ≡ 0)
      (pages : pager.page_size ≡ vm_page_size) where
    -- Every memcpy begins with a page.
    on_page :
        (count middle : ℕ)
        → middle ≡ s.offset + count
        → (0 < count → middle % vm_page_size ≡ 0)
        → middle % vm_page_size ≡ 0
    on_page zero middle e h = omega (arith, e, aligned)
    on_page (suc count) middle e h = h (omega arith)

    -- The page of the byte that faulted.
    page_of_fault :
        (middle at : ℕ)
        → middle % vm_page_size ≡ 0
        → middle + at < 2 ^ 32
        → get_error (word (middle % vm_page_size + at + middle)) pager
          ≡ (page_data ((middle + at) / vm_page_size) pager).error
    unfolding get_error word
    page_of_fault middle at h small =
        let offset : word (middle % vm_page_size + at + middle) ≡ middle + at = omega (arith, h) in
        ap (λ (x : ℕ). (page_data (x / pager.page_size) pager).error) offset
        ∙ ap (λ (x : ℕ). (page_data ((middle + at) / x) pager).error) pages

    returned-FaultAt :
        (err size : ℕ) (t : Copy)
        → FaultReport (on_pager pager k) prot s err size t
        → FaultAt (on_pager pager k) prot s size t
          × (err ≡ (page_data ((s.offset + size) / vm_page_size) pager).error)
    returned-FaultAt err size t f =
        let start = on_page f.count f.middle.offset f.moved.offset f.aligned in
        let position : f.middle.offset + f.at ≡ s.offset + size =
          omega (arith, f.counted, f.moved.offset, start) in
        let fewer : size < s.n = omega (arith, f.counted, f.inside, start) in
        (
          record {
            count = f.count;
            middle = f.middle;
            moved = f.moved;
            tried = f.tried;
            at = f.at;
            fault = f.fault;
            position = position;
            inside = f.inside.0;
            fewer = fewer;
            torn = f.torn;
          },
          f.error
              ∙ page_of_fault f.middle.offset f.at start
                  (omega (arith, position, fewer, room.offsets))
              ∙ ap (λ (x : ℕ). (page_data (x / vm_page_size) pager).error) position,
        )

    Reports-IsExact : (o : Result) → Reports (on_pager pager k) prot s o → IsExact o
    Reports-IsExact (returned err size t) (inl c) = inl c
    Reports-IsExact (returned err size t) (inr f) = inr (returned-FaultAt err size t f)
    Reports-IsExact aborted (inl h) = inl h
    Reports-IsExact aborted (inr (t, f)) =
        let start = on_page f.count f.middle.offset f.moved.offset f.aligned in
        let inside : f.at < f.tried = local f.middle.offset f.tried f.at f.fault in
        inr (
          f.middle.offset + f.at,
          omega (arith, f.moved.offset),
          omega (arith, f.moved.offset, f.moved.n, f.tried_le, inside),
          sym (
              f.error
              ∙ page_of_fault f.middle.offset f.at start
                  (omega (arith, f.moved.offset, f.moved.n, f.tried_le, inside, room.offsets))),
        )
    Reports-IsExact unfinished h = h

    -- Where the offset is that of a page, the ranges lie in the address space and memcpy faults at bytes
    -- that it copies, pager_memcpy on a pager reports exactly: it returns with *SIZE many bytes copied
    -- as without a fault, or the byte at *SIZE from the start faulted, the error is that of this
    -- byte's page, and the bytes before the memcpy that faulted are copied, of its own any may be and
    -- no others are. An assert fails only if some fault of memcpy is no EKERN_MEMORY_ERROR or the error
    -- of some page of the range is 0.
    pub pager_memcpy-IsExact : IsExact (pager_memcpy (on_pager pager k) prot s)
    pager_memcpy-IsExact =
        Reports-IsExact (pager_memcpy (on_pager pager k) prot s)
          (pager_memcpy-Reports (on_pager pager k) prot s room local)
