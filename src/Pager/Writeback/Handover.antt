-- ===== src/Pager/Writeback/Handover.antt =====
-- data_return of libpager/pagemap.cc when the client that has write access returns its page.
use hurd.Base.{
  ℕ, ◌*◌, ◌/◌, ◌≡◌, Bool, true, false, List, [], ◌∷◌, ◌++◌, some, arith, ◌==◌, ap, ◌∙◌, keep, not,
}
use hurd.Base.OrdMap
use hurd.Base.OrdMap.{Map, nat_key, pair_key}
use hurd.Pagemap.Entry.{WaitlistClient, remove_client_from_access_list}
use hurd.Pager.State.{
  Pager, ClientLock, WritewaitEntry, word, mach_port_dead, data_supply, prot_none, page_data,
  put_page,
}
use hurd.Pager.State.Pages.{page_data-put_page}
use hurd.Pager.Step.{done, fault, assertion, ◌>>=◌, primitives}
use hurd.Pager.Waitlist.Serve.{service_wait_list_lem, logged}
use hurd.Pager.Locks.{lock_completed}
use hurd.Pager.Locks.Completed.{IsOnePage, lock_completed_aborts}
use hurd.Pager.Writeback.{
  page_address, forget_nexterrors, clear_error, return_access, return_page, Returned, nothing_more,
  do_notify, return_pages, queue_or_unmap, data_return,
}

-- The writer of a page, alone with access.
pub record IsSoleWriter (control page : ℕ) (s : Pager) : Type 0 where
  pub alone_on_page : (page_data page s).access_list ≡ control ∷ []
  pub granted : (page_data page s).write_access_granted ≡ true
  pub alive : (control == mach_port_dead) ≡ false

-- When a writer, alone with its page, returns it for good, dirty or clean, and nobody waits, nobody has
-- access to the page and nobody waits for it any more, but write access still counts as granted.
pub return_page_leaves_granted :
    (control address page i : ℕ) (dirty : Bool) (s : Pager)
    → IsSoleWriter control page s
    → (page_data page s).wait_list ≡ []
    → (op : Returned) × (t : Pager) × (return_page control address dirty false page i s ≡ done op t)
      × ((page_data page t).access_list ≡ [])
      × ((page_data page t).wait_list ≡ [])
      × ((page_data page t).write_access_granted ≡ true)
unfolding return_page return_access forget_nexterrors primitives
return_page_leaves_granted control address page i true s p nobody =
    let e = record (page_data page s) {
      access_list = [];
      wait_list = [];
      write_access_granted = true;
      paging_out = true;
    } in
    let got = page_data-put_page page e s in
    (
      nothing_more,
      put_page page e s,
      ground arith,
      ap (λ x. x.access_list) got,
      ap (λ x. x.wait_list) got,
      ap (λ x. x.write_access_granted) got,
    )
return_page_leaves_granted control address page i false s p nobody =
    let e = clear_error (record (page_data page s) {
      access_list = [];
      wait_list = [];
      write_access_granted = true;
    }) in
    let t = record s {
      nexterror = keep (λ ne. not (ne.offset == word (page * s.page_size))) s.nexterror;
    } in
    let got = page_data-put_page page e t in
    (
      do_notify,
      put_page page e t,
      ground arith,
      ap (λ x. x.access_list) got,
      ap (λ x. x.wait_list) got,
      ap (λ x. x.write_access_granted) got,
    )

-- When the writer of a page returns it dirty while one writer waits, the page goes to the latter.
return_page_hands_over :
    (control address page i : ℕ) (s : Pager) (w : WaitlistClient)
    → IsSoleWriter control page s
    → s.terminating ≡ false
    → (page_data page s).wait_list ≡ w ∷ []
    → w.write_access_requested ≡ true
    → let e = page_data page s in
      return_page control address true false page i s
      ≡ done nothing_more (
          put_page page
            (record e { access_list = w.client ∷ []; wait_list = []; paging_out = true })
            (logged
              (data_supply w.client
                  (word (page * s.page_size))
                  (page_address s.page_size address i)
                  false
                  prot_none
                  s.notify_on_evict
                ∷ [])
              s))
unfolding return_page return_access primitives
return_page_hands_over control address page i s w p running waiting write = ground (
  arith,
  service_wait_list_lem (word (page * s.page_size)) (page_address s.page_size address i) true false
      (remove_client_from_access_list control (page_data page s)) s w [],
)

-- While another thread writes WRITEWAIT out, such a return of one page ends there, with its block
-- queued.
data_return-hands_over :
    (fuel control address offset length : ℕ) (s : Pager) (w : WaitlistClient) (v : WritewaitEntry)
    (vs : List WritewaitEntry)
    → IsOnePage offset length s
    → IsSoleWriter control (offset / s.page_size) s
    → s.terminating ≡ false
    → s.writewait ≡ v ∷ vs
    → (page_data (offset / s.page_size) s).wait_list ≡ w ∷ []
    → w.write_access_requested ≡ true
    → let page = offset / s.page_size in
      let t =
        put_page page
          (record (page_data page s) {
            access_list = w.client ∷ [];
            wait_list = [];
            paging_out = true;
          })
          (logged
            (data_supply w.client
                (word (page * s.page_size))
                (page_address s.page_size address 0)
                false
                prot_none
                s.notify_on_evict
              ∷ [])
            s) in
      data_return fuel control offset address length true false s
      ≡ done tt (record t {
        writewait =
            s.writewait
            ++ record { offset = offset; address = address; length = length; kernel_copy = false }
              ∷ [];
      })
unfolding data_return return_pages queue_or_unmap primitives
data_return-hands_over fuel control address offset length s w v vs one p running busy waiting
      write =
    rw (one.aligned, one.whole_pages, one.one_page)
      (rw
        (return_page_hands_over control address (offset / s.page_size) 0 s w p running waiting
          write)
        (ground (arith, busy)))

-- The defect of the hand-over from writer to writer: in a running pager the writer of a page, alone
-- with it, returns it dirty and for good while one client waits for write access and WRITEWAIT is not
-- empty, another thread writing it out. When it then completes the pager's lock request, its last one on this page,
-- the pager aborts.
pub hand_over_aborts :
    (fuel control address offset length : ℕ) (s : Pager) (w : WaitlistClient) (v : WritewaitEntry)
    (vs : List WritewaitEntry) (locks : Map ℕ ClientLock) (l : ClientLock)
    → IsOnePage offset length s
    → IsSoleWriter control (offset / s.page_size) s
    → s.terminating ≡ false
    → s.writewait ≡ v ∷ vs
    → (page_data (offset / s.page_size) s).wait_list ≡ w ∷ []
    → w.write_access_requested ≡ true
    → OrdMap.lookup (offset, length) s.outstanding_locks ≡ some locks
    → OrdMap.lookup control locks ≡ some l
    → l.count ≡ 1
    → l.internal_lock_outstanding ≡ true
    → (data_return fuel control offset address length true false >>= λ _.
          lock_completed control offset length)
        s
      ≡ fault assertion
unfolding ◌>>=◌
hand_over_aborts fuel control address offset length s w v vs locks l one p running busy waiting
      write range client last internal =
    let page = offset / s.page_size in
    let e = record (page_data page s) {
      access_list = w.client ∷ [];
      wait_list = [];
      paging_out = true;
    } in
    let supplied =
      logged
        (data_supply w.client (word (page * s.page_size)) (page_address s.page_size address 0) false
            prot_none s.notify_on_evict
          ∷ [])
        s in
    let block : WritewaitEntry = record {
      offset = offset;
      address = address;
      length = length;
      kernel_copy = false;
    } in
    rw
      (data_return-hands_over fuel control address offset length s w v vs one p running busy waiting
        write)
      (lock_completed_aborts control offset length
        (record (put_page page e supplied) { writewait = s.writewait ++ block ∷ [] }) locks l
        (record { aligned = one.aligned; whole_pages = one.whole_pages; one_page = one.one_page })
        running range client last internal
        (ap (λ x. x.write_access_granted) (page_data-put_page page e supplied) ∙ p.granted))
