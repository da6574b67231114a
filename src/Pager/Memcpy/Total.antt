-- ===== src/Pager/Memcpy/Total.antt =====
-- libpager/pager-memcpy.c: how pager_memcpy ends.
use hurd.Base.{
  ◌≢◌, ℕ, ◌+◌, ◌≤◌, ◌<◌, ◌≡◌, ◌%◌, ◌&&◌, ◌||◌, not, none, some, true, ◌==◌, leb, ltb, refl, subst,
  ◌∙◌, arith, Bool-cases, inl, inr, ◌⊎◌,
}
use hurd.Pager.State.{word}
use hurd.Pager.Memcpy.{
  Copy, Outside, Outcome, Result, returns, jumps, aborts, out_of_fuel, returned, aborted,
  unfinished, minus, vm_page_size, vmcopy_better_than_memcpy, do_vm_copy, do_copy, conclude,
  after_pages, pager_memcpy,
}
use hurd.Pager.Memcpy.Range.{IsMoved, IsMoved-refl}
use hurd.Pager.Memcpy.Ends.{
  IsWilling, HasRoom, HasOtherFault, IsTorn, FaultsInside, Progress, IsFaulted, Ends, Ends-trans,
  Ends-window,
}
use hurd.Pager.Memcpy.Loops.{HasRoom-moved, minus_lem, do_vm_copy-Ends}
use hurd.Pager.Memcpy.DoCopy.{HasRoom-window, do_copy-Ends}

ltb-true : (a b : ℕ) → a < b → ltb a b ≡ true
ltb-true a b h = ground arith

module _ (k : Outside) (prot : ℕ) where
  -- *SIZE on a return: so many bytes from the start are copied; all of them if the error is 0, and
  -- fewer otherwise, which happens only if vm_map or vm_copy fails.
  pub record CopyReport (s : Copy) (err size : ℕ) (t : Copy) : Type 0 where
    pub moved : IsMoved prot s size t
    pub complete : err ≡ 0 → size ≡ s.n
    pub partial : err ≢ 0 → size < s.n
    pub willing : IsWilling k → err ≡ 0

  -- *SIZE after a fault: the bytes up to MIDDLE were copied, and of those that the next memcpy tried
  -- byte AT faulted, of which any may be copied and no others. That memcpy was the first, or it began
  -- with a page.
  pub record FaultReport (s : Copy) (err size : ℕ) (t : Copy) : Type 0 where
    pub count : ℕ
    pub middle : Copy
    pub moved : IsMoved prot s count middle
    pub aligned : 0 < count → middle.offset % vm_page_size ≡ 0
    pub tried : ℕ
    pub at : ℕ
    pub inside : (at < tried) × (count + tried ≤ s.n)
    pub fault : k.fault middle.offset tried ≡ some at
    pub error : err ≡ k.get_error (word (middle.offset % vm_page_size + at + middle.offset))
    pub counted : size ≡ count + (middle.offset % vm_page_size + at)
    pub torn : IsTorn prot tried middle t

  -- An assert fails only at a fault that is no EKERN_MEMORY_ERROR, or after one for which
  -- pager_get_error answers 0.
  abbrev pub Reports : Copy → Result → Type 0
  Reports s (returned err size t) = CopyReport s err size t ⊎ FaultReport s err size t
  Reports s aborted = HasOtherFault k ⊎ ((t : Copy) × IsFaulted k prot s 0 t)
  Reports s unfinished = ⊥

  module _ (s : Copy) (r : HasRoom s) (local : FaultsInside k) where
    returned-CopyReport :
        (err : ℕ) (t : Copy)
        → Progress k prot s (λ u. u.n ≡ 0) err t
        → CopyReport s err (minus s.n t.n) t
    returned-CopyReport err t p =
        let size_is : minus s.n t.n ≡ p.count =
          minus_lem s.n t.n (omega (arith, p.moved.n)) (omega (arith, r.small))
          ∙ omega (arith, p.moved.n) in
        record {
          moved = rw size_is p.moved;
          complete = λ e. omega (arith, size_is, p.moved.n, p.goal e);
          partial = λ e. omega (arith, size_is, p.moved.n, p.remains e);
          willing = p.willing;
        }

    inside_lem : (err : ℕ) (t : Copy) (f : IsFaulted k prot s err t) → f.at < f.tried
    inside_lem err t f = local f.middle.offset f.tried f.at f.fault

    jumped-FaultReport :
        (err : ℕ) (t : Copy) → IsFaulted k prot s err t → FaultReport s err (minus s.n t.n) t
    unfolding minus word
    jumped-FaultReport err t f = record {
      count = f.count;
      middle = f.middle;
      moved = f.moved;
      aligned = f.aligned;
      tried = f.tried;
      at = f.at;
      inside = (inside_lem err t f, omega (arith, f.tried_le, f.moved.n));
      fault = f.fault;
      error = f.error;
      counted = omega (arith, f.n, f.moved.n, r.small, f.tried_le, inside_lem err t f);
      torn = f.torn;
    }

    jumped_without_error :
        (err : ℕ) (t : Copy) → err ≡ 0 → IsFaulted k prot s err t → IsFaulted k prot s 0 t
    jumped_without_error err t e f = subst (λ x. IsFaulted k prot s x t) e f

    conclude-Reports : (o : Outcome) → Ends k prot s (λ u. u.n ≡ 0) o → Reports s (conclude s.n o)
    unfolding conclude
    conclude-Reports (returns err t) p = elim (Bool-cases (err == 0 && not (t.n == 0))) [
      | inl e ↦ ground (arith, p.goal)
      | inr e ↦ rw e (inl (returned-CopyReport err t p))
    ]
    conclude-Reports (jumps err t) f = elim (Bool-cases (err == 0 && not (t.n == 0))) [
      | inl e ↦ rw e (inr (t, jumped_without_error err t (ground arith) f))
      | inr e ↦ rw e (inr (jumped-FaultReport err t f))
    ]
    conclude-Reports aborts h = inl h
    conclude-Reports out_of_fuel h = h

    after_pages-Reports :
        (o : Outcome)
        → Ends k prot s (λ u. (u.n < vmcopy_better_than_memcpy) × (u.offset % vm_page_size ≡ 0)) o
        → Reports s (after_pages k prot s.n o)
    unfolding after_pages
    after_pages-Reports (returns err t) p = elim (Bool-cases (not (err == 0) || t.n == 0)) [
      | inl e ↦ rw e (
          inl (
            returned-CopyReport err t (record {
              count = p.count;
              moved = p.moved;
              goal = ground arith;
              remains = p.remains;
              willing = p.willing;
            })))
      | inr e ↦
          rw (e, ltb-true t.n vmcopy_better_than_memcpy (p.goal (ground arith)).0)
            (conclude-Reports (do_copy k prot (record t { window_size = 0 })) (
              Ends-trans k prot s t p.count p.moved (λ _. (p.goal (ground arith)).1) _ _
                (Ends-window k prot t 0 _ _ (
                  do_copy-Ends k prot (record t { window_size = 0 }) (ground arith)
                    (HasRoom-window t 0 (HasRoom-moved k prot s t p.count r p.moved))))))
    ]
    after_pages-Reports (jumps err t) f = conclude-Reports (jumps err t) f
    after_pages-Reports aborts h = inl h
    after_pages-Reports out_of_fuel h = h

    -- Where the ranges lie in the address space and a fault of memcpy is at a byte that it copies,
    -- pager_memcpy ends, whatever the kernel answers. It returns so that *SIZE many bytes are copied
    -- from the start on and no others (all of them with error 0, fewer with an error of vm_map or
    -- vm_copy); or, after a fault, so that the bytes before that memcpy are copied, of its own any may
    -- be and no others are, *SIZE counts, beside the bytes up to the faulting one, the bytes of the page
    -- before the first byte of that memcpy, and the error is that which pager_get_error gives as far
    -- above the faulting byte (only the first memcpy may begin in the middle of a page, so that both
    -- are exact where the offset is that of a page); or an assert fails, which only happens where some
    -- fault of memcpy is no EKERN_MEMORY_ERROR or pager_get_error gives 0 after a fault.
    pub pager_memcpy-Reports : Reports s (pager_memcpy k prot s)
    unfolding pager_memcpy
    pager_memcpy-Reports = elim (Bool-cases (s.n == 0)) [
      | inl e ↦ rw e (
          inl (record {
            moved = IsMoved-refl prot s;
            complete = λ _. ground arith;
            partial = λ z. absurd (z refl);
            willing = λ _. refl;
          }))
      | inr e ↦
          elim (Bool-cases (
            s.other % vm_page_size == 0
            && s.offset % vm_page_size == 0
            && leb vmcopy_better_than_memcpy s.n)) [
              | inl f ↦
                  rw (e, f)
                    (after_pages-Reports (do_vm_copy k prot s)
                      (do_vm_copy-Ends k prot s (ground arith) (ground arith) (ground arith) r))
              | inr f ↦
                  rw (e, f)
                    (conclude-Reports (do_copy k prot (record s { window_size = 0 })) (
                      Ends-window k prot s 0 _ _ (
                        do_copy-Ends k prot (record s { window_size = 0 }) (ground arith)
                          (HasRoom-window s 0 r))))
            ]
    ]

  -- The call returns, with such a report.
  abbrev pub IsReported : Copy → Result → Type 0
  IsReported s (returned err size t) = CopyReport s err size t
  IsReported s aborted = ⊥
  IsReported s unfinished = ⊥

  module _ (s : Copy) (r : HasRoom s)
      (faultless : (offset count : ℕ) → k.fault offset count ≡ none) where
    Reports-IsReported : (o : Result) → Reports s o → IsReported s o
    Reports-IsReported (returned err size t) (inl c) = c
    Reports-IsReported (returned err size t) (inr f) =
        ground (arith, f.fault, faultless f.middle.offset f.tried)
    Reports-IsReported aborted (inl (offset, count, at, e, _)) =
        ground (arith, e, faultless offset count)
    Reports-IsReported aborted (inr (t, f)) =
        ground (arith, f.fault, faultless f.middle.offset f.tried)
    Reports-IsReported unfinished h = h

    -- Where the ranges lie in the address space and no memcpy faults, pager_memcpy returns, and
    -- exactly *SIZE many bytes are copied, from the start on, in the direction that PROT tells: all of
    -- them if it returns 0, as it does if vm_map and vm_copy succeed, and fewer otherwise.
    pub pager_memcpy-IsReported : IsReported s (pager_memcpy k prot s)
    pager_memcpy-IsReported =
        Reports-IsReported (pager_memcpy k prot s) (
          pager_memcpy-Reports s r (λ offset count at e. ground (arith, e, faultless offset count)))
