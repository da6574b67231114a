-- ===== src/Pager/Request/Unlock.antt =====
-- data_unlock of libpager/pagemap.cc for one page: what a client that reads a page alone gets when it
-- asks to write, and how an error reaches it.
use hurd.Base.{
  ℕ, ◌*◌, ◌/◌, ◌%◌, ◌≡◌, refl, true, false, List, [], ◌∷◌, ◌++◌, some, none, arith, ◌==◌,
}
use hurd.Pagemap.Entry.{EntryData, WaitlistClient, kern_success, add_client_to_wait_list}
use hurd.Pager.State.{
  Pager, NexterrorEntry, word, page_data, put_page, lock_request, data_error, return_none,
  prot_none, mach_port_null,
}
use hurd.Pager.State.Pages.{page_data-put_page}
use hurd.Pager.Step.{Reply, done, alone, primitives}
use hurd.Pager.Waitlist.{finalize_unlock, internal_flush_request}
use hurd.Pager.Waitlist.Serve.{logged, flushed}
use hurd.Pager.Locks.Completed.{IsOnePage}
use hurd.Pager.Request.{take_nexterror, data_request, unlock_pages, finalize_unlocks, data_unlock}

-- A client that has a page alone, to read, while nobody waits for it and it is not written out.
pub record IsSoleReader (control page : ℕ) (s : Pager) : Type 0 where
  pub running : s.terminating ≡ false
  pub alone_on_page : (page_data page s).access_list ≡ control ∷ []
  pub nobody : (page_data page s).wait_list ≡ []
  pub idle : (page_data page s).paging_out ≡ false
  pub read_only : (page_data page s).write_access_granted ≡ false

unlock_pages-sole :
    (control offset page : ℕ) (s : Pager)
    → IsSoleReader control page s
    → unlock_pages control offset page 1 s
      ≡ done (page ∷ []) (put_page page (add_client_to_wait_list control true (page_data page s)) s)
unfolding unlock_pages primitives
unlock_pages-sole control offset page s p = ground arith

-- A client of a running pager that reads one page alone, which nobody waits for and which is not
-- being written out, asks to write it. If the filesystem unlocks the page and no other thread
-- interferes, the client is told that it may write, write access is granted, nobody waits, and
-- nobody is asked to flush.
pub data_unlock_grants :
    (control offset length : ℕ) (s : Pager) (r : ℕ → Reply) (port : ℕ)
    → IsOnePage offset length s
    → let page = offset / s.page_size in
      let e = page_data page s in
      IsSoleReader control page s
      → (r page).err ≡ kern_success
      → alone r port (data_unlock control offset length s)
        ≡ some (
          tt,
          put_page page
              (record e { wait_list = []; write_access_granted = true })
              (logged
                (lock_request control
                    (word (page * s.page_size))
                    s.page_size
                    return_none
                    false
                    prot_none
                    mach_port_null
                  ∷ [])
                (put_page page (add_client_to_wait_list control true e) s)),
        )
unfolding data_unlock finalize_unlocks finalize_unlock primitives
data_unlock_grants control offset length s r port one p ok =
    let page = offset / s.page_size in
    ground (
      arith,
      unlock_pages-sole control offset page s p,
      page_data-put_page page (add_client_to_wait_list control true (page_data page s)) s,
    )

-- The state after an unlock that the filesystem refuses with an error.
abbrev pub refused : ℕ → ℕ → ℕ → Pager → Pager
refused control page error s =
    let e = page_data page s in
    let offset = word (page * s.page_size) in
    let t =
      flushed (control ∷ []) offset (put_page page (add_client_to_wait_list control true e) s) in
    put_page page (record e { wait_list = [] })
      (record t {
        nexterror = s.nexterror ++ record { client = control; offset = offset; error = error } ∷ [];
      })

finalize_unlock-refused :
    (offset error : ℕ) (e : EntryData) (w : WaitlistClient) (ws : List WaitlistClient) (s : Pager)
    → e.wait_list ≡ w ∷ ws
    → (error == kern_success) ≡ false
    → finalize_unlock offset error e s
      ≡ done
          (record e { wait_list = ws })
          (record (flushed (w.client ∷ []) offset s) {
            nexterror =
                s.nexterror ++ record { client = w.client; offset = offset; error = error } ∷ [];
          })
unfolding finalize_unlock internal_flush_request primitives
finalize_unlock-refused offset error e w ws s waiting failed = rw waiting (rw failed refl)

-- If the filesystem of a running pager refuses to unlock the one page that a client reads alone, which
-- nobody waits for and which is not being written out, and no other thread interferes, then the client is asked to flush
-- the page, an entry for it is put at the end of NEXTERROR, and nobody waits for the page.
pub data_unlock_refuses :
    (control offset length : ℕ) (s : Pager) (r : ℕ → Reply) (port : ℕ)
    → IsOnePage offset length s
    → let page = offset / s.page_size in
      IsSoleReader control page s
      → ((r page).err == kern_success) ≡ false
      → alone r port (data_unlock control offset length s)
        ≡ some (tt, refused control page (r page).err s)
unfolding data_unlock finalize_unlocks primitives
data_unlock_refuses control offset length s r port one p failed =
    let page = offset / s.page_size in
    let e = add_client_to_wait_list control true (page_data page s) in
    let w : WaitlistClient = record { client = control; write_access_requested = true } in
    ground (
      arith,
      unlock_pages-sole control offset page s p,
      page_data-put_page page e s,
      finalize_unlock-refused (word (page * s.page_size)) (r page).err e w [] (put_page page e s),
    )

take_nexterror-append :
    (control offset error : ℕ) (nes : List NexterrorEntry)
    → take_nexterror control offset nes ≡ none
    → let ne : NexterrorEntry = record { client = control; offset = offset; error = error } in
      take_nexterror control offset (nes ++ ne ∷ []) ≡ some (ne, nes)
take_nexterror-append control offset error [] h = ground arith
take_nexterror-append control offset error (ne ∷ nes) h =
    ground (arith, take_nexterror-append control offset error nes)

-- In a running pager, the client's next request for that page, aligned and with no earlier error
-- kept for the two, is answered with the error of the refused unlock and nothing else, and the error is
-- forgotten, whatever access the request asks for, where the NOTES have the error sent only if write
-- access is requested.
pub data_request-refused :
    (control page error access : ℕ) (s : Pager)
    → let offset = word (page * s.page_size) in
      let t = refused control page error s in
      s.terminating ≡ false
      → (offset % s.page_size == 0) ≡ true
      → take_nexterror control offset s.nexterror ≡ none
      → data_request control offset s.page_size access t
        ≡ done tt (record (logged (data_error control offset s.page_size error ∷ []) t) {
          nexterror = s.nexterror;
        })
unfolding data_request primitives
data_request-refused control page error access s running aligned fresh =
    ground
      (arith, take_nexterror-append control (word (page * s.page_size)) error s.nexterror fresh)
