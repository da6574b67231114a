-- ===== src/Pager/Memcpy/Loops.antt =====
-- libpager/pager-memcpy.c: the loops of do_vm_copy and do_memcpy.
use hurd.Base.{
  ◌≢◌, ℕ, zero, suc, ◌+◌, ◌-◌, ◌≤◌, ◌<◌, ◌≡◌, ◌%◌, ◌^◌, ◌&&◌, not, Bool, Bool-cases, inl, inr,
  Option, none, some, true, false, ◌==◌, leb, ltb, if◌then◌else◌, refl, ◌∙◌, arith,
}
use hurd.Pager.State.{word}
use hurd.Pager.Memcpy.{
  Copy, Outside, minus, round_page, vm_page_size, vmcopy_better_than_memcpy, window_default_size,
  vm_copy_window, move_on, transfer, fault_handler, tear, copy_window, vm_copy_loop, do_vm_copy,
  memcpy_loop, do_memcpy, memcpy_count,
}
use hurd.Pager.Memcpy.Range.{IsMoved, IsMoved-refl, IsMoved-window, move_on-IsMoved}
use hurd.Pager.Memcpy.Ends.{
  HasRoom, IsTorn, Ends, Ends-trans, if-Ends, done-Ends, Ends-window, go_on-Ends, Progress-refused,
}

vm_copy_window_bounds :
    (n : ℕ)
    → vmcopy_better_than_memcpy ≤ n
    → (vmcopy_better_than_memcpy ≤ vm_copy_window n)
      × (vm_copy_window n % vm_page_size ≡ 0)
      × (vm_copy_window n ≤ n)
vm_copy_window_bounds n h = ground arith

module _ (k : Outside) (prot : ℕ) where
  -- A step of a loop.
  next-IsMoved :
      (s : Copy) (w count : ℕ)
      → HasRoom s
      → count ≤ s.n
      → IsMoved prot s count (move_on count (transfer prot count (record s { window_size = w })))
  next-IsMoved s w count r c =
      IsMoved-window prot s _ count w
        (move_on-IsMoved prot (record s { window_size = w }) count c r.offsets r.addresses)

  pub HasRoom-moved : (s t : Copy) (count : ℕ) → HasRoom s → IsMoved prot s count t → HasRoom t
  HasRoom-moved s t count r m =
      ground (arith, r.offsets, r.addresses, r.small, m.offset, m.other, m.n)

  vm_copy_loop-Ends :
      (fuel : ℕ) (s : Copy)
      → s.n < fuel
      → s.offset % vm_page_size ≡ 0
      → vmcopy_better_than_memcpy ≤ s.n
      → HasRoom s
      → Ends k prot s
          (λ t. (t.n < vmcopy_better_than_memcpy) × (t.offset % vm_page_size ≡ 0))
          (vm_copy_loop k prot fuel s)
  unfolding vm_copy_loop
  vm_copy_loop-Ends zero s f o b r = absurd (omega arith)
  vm_copy_loop-Ends (suc fuel) s f o b r =
      let size : ℕ = vm_copy_window s.n in
      let bounds = vm_copy_window_bounds s.n b in
      let next : Copy = move_on size (transfer prot size (record s { window_size = size })) in
      let moved : IsMoved prot s size next = next-IsMoved s size size r bounds.2 in
      let mapped : Copy = record s { window_size = size } in
      let on_page : next.offset % vm_page_size ≡ 0 = omega (arith, moved.offset, o, bounds.1) in
      if-Ends k prot s _ (not (leb vmcopy_better_than_memcpy size && size % vm_page_size == 0)) _ _
        (λ e. ground (arith, bounds.0, bounds.1))
        (λ _.
          if-Ends k prot s _ (not (k.vm_map s.offset size == 0)) _ _
            (λ e. Progress-refused k prot s _ _ size (ground arith) (omega arith) (λ w. w.maps _ _))
            (λ _.
              if-Ends k prot s _ (not (k.vm_copy s.offset size == 0)) _ _
                (λ e.
                  Progress-refused k prot s _ _ size (ground arith) (omega arith)
                    (λ w. w.copies _ _))
                (λ _.
                  if-Ends k prot s _ (leb vmcopy_better_than_memcpy next.n) _ _
                    (λ e.
                      Ends-trans k prot s next size moved (λ _. on_page) _ _
                        (vm_copy_loop-Ends fuel next (ground (arith, moved.n, bounds.0)) on_page
                          (ground arith) (HasRoom-moved s next size r moved)))
                    (λ e. done-Ends k prot s next size _ moved (ground arith, on_page)))))

  pub do_vm_copy-Ends :
      (s : Copy)
      → s.offset % vm_page_size ≡ 0
      → s.other % vm_page_size ≡ 0
      → vmcopy_better_than_memcpy ≤ s.n
      → HasRoom s
      → Ends k prot s
          (λ t. (t.n < vmcopy_better_than_memcpy) × (t.offset % vm_page_size ≡ 0))
          (do_vm_copy k prot s)
  unfolding do_vm_copy
  do_vm_copy-Ends s o a b r =
      if-Ends k prot s _
        (s.offset % vm_page_size == 0 && s.other % vm_page_size == 0 && leb vm_page_size s.n) _ _
        (λ _. vm_copy_loop-Ends (suc s.n) s (omega arith) o b r) (λ e. ground (arith, o, a, b))

  tear-IsTorn :
      (s : Copy) (w count : ℕ) (copied_yet : ℕ → Bool)
      → IsTorn prot count s (tear copied_yet prot count (record s { window_size = w }))
  unfolding tear transfer
  tear-IsTorn s w count copied_yet = record {
    memory = λ a. elim (Bool-cases (copied_yet a)) [
      | inl e ↦ rw e (inr (ground arith))
      | inr e ↦ rw e (inl refl)
    ];
    contents = λ a. elim (Bool-cases (copied_yet a)) [
      | inl e ↦ rw e (inr (ground arith))
      | inr e ↦ rw e (inl refl)
    ];
  }

  copy_window-Ends :
      (s : Copy) (w count : ℕ) (o : Option ℕ)
      → k.fault s.offset count ≡ o
      → count ≤ s.n
      → HasRoom s
      → Ends k prot s
          (λ t. (t.n + count ≡ s.n) × (t.window_size ≡ w))
          (copy_window k prot (s.offset % vm_page_size) count o (record s { window_size = w }))
  unfolding copy_window fault_handler move_on transfer tear
  copy_window-Ends s w count (some at) e c r =
      let torn = tear-IsTorn s w count (k.is_torn s.offset count) in
      elim (Bool-cases (k.is_memory_error s.offset count)) [
        | inl m ↦ rw m (record {
          count = 0;
          middle = s;
          moved = IsMoved-refl prot s;
          aligned = λ c. absurd (omega arith);
          tried = count;
          tried_le = c;
          at = at;
          fault = e;
          error = refl;
          n = refl;
          torn = record { memory = torn.memory; contents = torn.contents };
        })
        | inr m ↦ rw m (s.offset, count, at, e, m)
      ]
  copy_window-Ends s w count none e c r =
      let m = next-IsMoved s w count r c in done-Ends k prot s _ count _ m (m.n, ground arith)

pub minus_lem : (a b : ℕ) → b ≤ a → a < 2 ^ 32 → minus a b ≡ a - b
unfolding minus word
minus_lem a b h l = omega arith

memcpy_count_bounds :
    (off to_copy w : ℕ)
    → to_copy + 8192 ≤ 2 ^ 32
    → 0 < to_copy
    → w ≡ window_default_size
    → (memcpy_count off to_copy w ≤ to_copy)
      × (0 < memcpy_count off to_copy w)
      × (memcpy_count off to_copy w ≢ to_copy
          → leb (round_page (word (off % vm_page_size + to_copy))) w ≡ false)
unfolding round_page minus word
memcpy_count_bounds off to_copy w h p e = ground arith

-- A copy that does not finish ends with a page.
page_reached :
    (off to_copy w a next : ℕ)
    → to_copy + 8192 ≤ 2 ^ 32
    → 0 < to_copy
    → w ≡ window_default_size
    → next ≡ off + a
    → a ≡ memcpy_count off to_copy w
    → memcpy_count off to_copy w ≢ to_copy
    → next % vm_page_size ≡ 0
unfolding round_page minus word
page_reached off to_copy w a next h p e n c l = ground arith

module _ (k : Outside) (prot : ℕ) where
  memcpy_loop-Ends :
      (fuel to_copy rest : ℕ) (s : Copy)
      → to_copy < fuel
      → 0 < to_copy
      → rest + to_copy ≡ s.n
      → s.window_size ≡ window_default_size
      → HasRoom s
      → Ends k prot s (λ t. t.n ≡ rest) (memcpy_loop k prot fuel to_copy s)
  unfolding memcpy_loop
  memcpy_loop-Ends zero to_copy rest s f p c w r = absurd (omega arith)
  memcpy_loop-Ends (suc fuel) to_copy rest s f p c w r =
      let count : ℕ = memcpy_count s.offset to_copy s.window_size in
      let bounds =
        memcpy_count_bounds s.offset to_copy s.window_size (omega (arith, r.small)) p w in
      let left : ℕ = minus to_copy count in
      let left_is : left ≡ to_copy - count =
        minus_lem to_copy count bounds.0 (omega (arith, r.small)) in
      let end : ℕ = round_page (word (s.offset % vm_page_size + to_copy)) in
      let size : ℕ = if leb end s.window_size then end else s.window_size in
      let mapped : Copy = record s { window_size = size } in
      let same_window : ltb 0 left ≡ true → size ≡ window_default_size =
        λ e. ground (arith, bounds.2 (ground (arith, left_is)), w) in
      let on_page : (next : Copy) (a : ℕ)
          → IsMoved prot s a next
          → next.n + count ≡ s.n
          → ltb 0 left ≡ true
          → next.offset % vm_page_size ≡ 0 =
        λ next a m g e.
          page_reached s.offset to_copy s.window_size a next.offset (omega (arith, r.small)) p w
            m.offset (omega (arith, m.n, g)) (ground (arith, e, left_is)) in
      if-Ends k prot s _ (not (k.vm_map (minus s.offset (s.offset % vm_page_size)) size == 0)) _ _
        (λ e. Progress-refused k prot s _ _ size (ground arith) (omega arith) (λ v. v.maps _ _))
        (λ _.
          go_on-Ends k prot s _ _ _
            (copy_window k prot (s.offset % vm_page_size) count (k.fault s.offset count) mapped)
            (copy_window-Ends k prot s size count (k.fault s.offset count) refl
              (omega (arith, bounds.0)) r)
            (λ next a m g.
              if-Ends k prot s _ (ltb 0 left) _ _
                (λ e.
                  Ends-trans k prot s next a m (λ _. on_page next a m g.0 e) _ _
                    (memcpy_loop-Ends fuel left rest next
                      (omega (arith, bounds.0, bounds.1, left_is)) (ground arith)
                      (omega (arith, bounds.0, left_is, g.0, c)) (g.1 ∙ same_window e)
                      (HasRoom-moved k prot s next a r m)))
                (λ e. done-Ends k prot s next a _ m (ground (arith, bounds.0, left_is, g.0, c)))))

  pub do_memcpy-Ends :
      (to_copy rest : ℕ) (s : Copy)
      → 0 < to_copy
      → rest + to_copy ≡ s.n
      → HasRoom s
      → Ends k prot s (λ t. t.n ≡ rest) (do_memcpy k prot to_copy s)
  unfolding do_memcpy
  do_memcpy-Ends to_copy rest s p e r =
      let mapped : Copy = record s { window_size = window_default_size } in
      Ends-window k prot s window_default_size _ _ (
        memcpy_loop-Ends (suc to_copy) to_copy rest mapped (omega arith) p e refl
          (ground (arith, r.offsets, r.addresses, r.small)))
