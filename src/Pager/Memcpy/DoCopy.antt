-- ===== src/Pager/Memcpy/DoCopy.antt =====
-- libpager/pager-memcpy.c: do_copy, which joins the loops.
use hurd.Base.{ℕ, ◌+◌, ◌-◌, ◌≤◌, ◌<◌, ◌≡◌, ◌%◌, ◌&&◌, ◌==◌, leb, ltb, arith}
use hurd.Pager.Memcpy.{
  Copy, Outside, vm_page_size, vmcopy_better_than_memcpy, do_vm_copy, do_memcpy, copy_pages,
  do_copy,
}
use hurd.Pager.Memcpy.Ends.{HasRoom, Ends, Ends-trans, if-Ends, done-Ends, go_on-Ends}
use hurd.Pager.Memcpy.Loops.{HasRoom-moved, do_vm_copy-Ends, do_memcpy-Ends}

pub HasRoom-window : (s : Copy) (w : ℕ) → HasRoom s → HasRoom (record s { window_size = w })
HasRoom-window s w r = record { offsets = r.offsets; addresses = r.addresses; small = r.small }

module _ (k : Outside) (prot : ℕ) where
  copy_pages-Ends :
      (s : Copy)
      → s.offset % vm_page_size ≡ 0
      → s.other % vm_page_size ≡ 0
      → vmcopy_better_than_memcpy ≤ s.n
      → HasRoom s
      → Ends k prot s (λ t. t.n ≡ 0) (copy_pages k prot s)
  unfolding copy_pages
  copy_pages-Ends s o a b r =
      if-Ends k prot s _ (leb vmcopy_better_than_memcpy s.n) _ _
        (λ _.
          go_on-Ends k prot s _ _ _ (do_vm_copy k prot s) (do_vm_copy-Ends k prot s o a b r)
            (λ t c m g.
              if-Ends k prot s _ (t.n == 0) _ _ (λ e. done-Ends k prot s t c _ m (ground arith))
                (λ e.
                  if-Ends k prot s _ (ltb t.n vmcopy_better_than_memcpy) _ _
                    (λ _.
                      Ends-trans k prot s t c m (λ _. g.1) _ _
                        (do_memcpy-Ends k prot t.n 0 t (ground arith) (omega arith)
                          (HasRoom-moved k prot s t c r m)))
                    (λ f. ground (arith, g.0)))))
        (λ e. ground arith)

  pub do_copy-Ends :
      (s : Copy) → 0 < s.n → HasRoom s → Ends k prot s (λ t. t.n ≡ 0) (do_copy k prot s)
  unfolding do_copy
  do_copy-Ends s p r =
      let to_page : ℕ = vm_page_size - s.other % vm_page_size in
      if-Ends k prot s _
        (s.other % vm_page_size == s.offset % vm_page_size
          && leb (vmcopy_better_than_memcpy + to_page) s.n)
        _ _
        (λ e.
          let facts : (s.other % vm_page_size ≡ s.offset % vm_page_size)
              × (vmcopy_better_than_memcpy + to_page ≤ s.n) =
            ground arith in
          go_on-Ends k prot s _ _ (copy_pages k prot) (do_memcpy k prot to_page s)
            (do_memcpy-Ends k prot to_page (s.n - to_page) s (omega arith) (omega (arith, facts.1))
              r)
            (λ t c m g.
              let on_page : t.offset % vm_page_size ≡ 0 =
                omega (arith, facts.0, facts.1, m.offset, m.n, g) in
              Ends-trans k prot s t c m (λ _. on_page) _ _
                (copy_pages-Ends t on_page (omega (arith, facts.0, facts.1, m.other, m.n, g))
                  (omega (arith, facts.1, g)) (HasRoom-moved k prot s t c r m))))
        (λ _. do_memcpy-Ends k prot s.n 0 s p (omega arith) r)
