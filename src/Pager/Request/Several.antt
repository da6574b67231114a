-- ===== src/Pager/Request/Several.antt =====
-- data_unlock of libpager/pagemap.cc for any number of pages that other clients have too.
use hurd.Base.{
  ℕ, zero, suc, ◌+◌, ◌/◌, ◌%◌, ◌≤◌, ◌<◌, ◌≡◌, ◌≢◌, refl, ◌∙◌, true, false, List, [], ◌∷◌, arith,
  ◌==◌, some,
}
use hurd.Pagemap.Entry.{
  EntryData, access_list_num_clients, is_client_on_access_list, add_client_to_wait_list,
}
use hurd.Pager.State.{Pager, page_data, put_page}
use hurd.Pager.State.Pages.{page_data-put_page_ne}
use hurd.Pager.Step.{Reply, done, alone, primitives}
use hurd.Pager.Waitlist.Serve.{flushed, flush_all-eq-flushed}
use hurd.Pager.Request.{unlock_pages, finalize_unlocks, data_unlock}

-- A page that a client has, to read, as others do, while nobody waits for it and it is not written out.
pub record IsShared (control page : ℕ) (s : Pager) : Type 0 where
  pub member : is_client_on_access_list control (page_data page s) ≡ true
  pub others : 1 < access_list_num_clients (page_data page s)
  pub nobody : (page_data page s).wait_list ≡ []
  pub idle : (page_data page s).paging_out ≡ false
  pub read_only : (page_data page s).write_access_granted ≡ false

-- So many pages from one on, whose clients have been asked to flush the page at OFFSET; the client
-- waits for each of the pages.
abbrev pub asked : ℕ → ℕ → ℕ → ℕ → Pager → Pager
asked control offset page zero s = s
asked control offset page (suc k) s =
    let e = page_data page s in
    asked control offset (page + 1) k
      (put_page page (add_client_to_wait_list control true e) (flushed e.access_list offset s))

page_data-flushed :
    (j : ℕ) (cs : List ℕ) (offset : ℕ) (s : Pager)
    → page_data j (flushed cs offset s) ≡ page_data j s
page_data-flushed j [] offset s = refl
page_data-flushed j (c ∷ cs) offset s = page_data-flushed j cs offset _

IsShared-put_page :
    (control page j offset : ℕ) (e : EntryData) (cs : List ℕ) (s : Pager)
    → page ≢ j
    → IsShared control j s
    → IsShared control j (put_page page e (flushed cs offset s))
IsShared-put_page control page j offset e cs s ne p =
    let same =
      page_data-put_page_ne page j e (flushed cs offset s) ne ∙ page_data-flushed j cs offset s in
    ground (arith, same, p.member, p.others, p.nobody, p.idle, p.read_only)

unlock_pages-asked :
    (control offset page k : ℕ) (s : Pager)
    → ((j : ℕ) → page ≤ j → j < page + k → IsShared control j s)
    → unlock_pages control offset page k s ≡ done [] (asked control offset page k s)
unfolding unlock_pages primitives
unlock_pages-asked control offset page zero s p = refl
unlock_pages-asked control offset page (suc k) s p =
    let e = page_data page s in
    let this = p page (omega arith) (omega arith) in
    let t =
      put_page page (add_client_to_wait_list control true e) (flushed e.access_list offset s) in
    ground (
      arith,
      this.member,
      this.others,
      this.nobody,
      this.idle,
      this.read_only,
      flush_all-eq-flushed e.access_list offset s,
      unlock_pages-asked control offset (page + 1) k t (λ j l h.
          IsShared-put_page control page j offset _ e.access_list s (omega arith)
            (p j (omega arith) (omega arith))),
    )

-- The defect of data_unlock on several pages: a client of a running pager asks to write whole pages,
-- each of which it has to read, as others do, while nobody waits for it and it is not being written
-- out. Then, alone and whatever the filesystem answers, the client waits for each page, and for every
-- one of the pages its clients, this one included, are asked to flush the first of the pages, whichever
-- it is; the NOTES have the other clients asked only, and for the page at hand.
pub data_unlock_asks :
    (control offset length : ℕ) (s : Pager) (r : ℕ → Reply) (port : ℕ)
    → s.terminating ≡ false
    → (length % s.page_size == 0) ≡ true
    → (offset % s.page_size == 0) ≡ true
    → ((page : ℕ)
        → offset / s.page_size ≤ page
        → page < offset / s.page_size + length / s.page_size
        → IsShared control page s)
    → alone r port (data_unlock control offset length s)
      ≡ some (tt, asked control offset (offset / s.page_size) (length / s.page_size) s)
unfolding data_unlock finalize_unlocks primitives
data_unlock_asks control offset length s r port running whole aligned p =
    let k = length / s.page_size in
    let page = offset / s.page_size in
    ground (arith, running, whole, aligned, unlock_pages-asked control offset page k s p)
