-- ===== src/Pager/Request/Outcome.antt =====
-- What a data_request of libpager/pagemap.cc does to one page.
use hurd.Base.{ℕ, ◌/◌, ◌%◌, ◌≡◌, ◌≢◌, true, false, List, [], ◌∷◌, none, arith, ◌==◌, if◌then◌else◌}
use hurd.Pagemap.Entry.{
  WaitlistClient, EntryData, add_client_to_wait_list, is_client_on_access_list,
}
use hurd.Pager.State.{Pager, page_data, put_page, wants_write}
use hurd.Pager.Step.{done, primitives}
use hurd.Pager.Waitlist.{flush_all}
use hurd.Pager.Waitlist.Serve.{flushed, flush_all-eq-flushed}
use hurd.Pager.Request.{take_nexterror, request_new, request_page, data_request}

-- A well-formed request for a page of a pager that runs, from a client that no NEXTERROR entry
-- is kept for.
pub record IsPlain (control offset length : ℕ) (s : Pager) : Type 0 where
  pub whole_page : (length == s.page_size) ≡ true
  pub aligned : (offset % s.page_size == 0) ≡ true
  pub running : s.terminating ≡ false
  pub no_error : take_nexterror control offset s.nexterror ≡ none

abbrev pub requested : ℕ → Pager → EntryData
requested offset s = page_data (offset / s.page_size) s

-- The request only joins the queue of its page.
abbrev pub queued : ℕ → ℕ → ℕ → Pager → Pager
queued control offset access s =
    put_page (offset / s.page_size)
      (add_client_to_wait_list control (wants_write access) (requested offset s)) s

data_request-plain :
    (control offset length access : ℕ) (s : Pager)
    → IsPlain control offset length s
    → data_request control offset length access s
      ≡ request_page control offset length (wants_write access) (requested offset s) s
unfolding data_request primitives
data_request-plain control offset length access s p =
    rw (p.whole_page, p.aligned, p.running, p.no_error)

-- A well-formed request of a client without access, for a page that other clients wait for and that
-- is not being written out, joins the queue, and no message is sent.
data_request_queues :
    (control offset length access : ℕ) (s : Pager) (w : WaitlistClient) (ws : List WaitlistClient)
    → IsPlain control offset length s
    → (requested offset s).wait_list ≡ w ∷ ws
    → (requested offset s).paging_out ≡ false
    → is_client_on_access_list control (requested offset s) ≡ false
    → data_request control offset length access s ≡ done tt (queued control offset access s)
unfolding request_page request_new primitives
data_request_queues control offset length access s w ws p waiting idle absent =
    ground (arith, data_request-plain control offset length access s p)

-- The defect of a page whose writer has returned it: nobody has access and nobody waits, the page is
-- not being written out, yet write access counts as granted. A well-formed request for such a page
-- joins the queue, and no message is sent and no page is read.
data_request_hangs :
    (control offset length access : ℕ) (s : Pager)
    → IsPlain control offset length s
    → (requested offset s).wait_list ≡ []
    → (requested offset s).access_list ≡ []
    → (requested offset s).paging_out ≡ false
    → (requested offset s).write_access_granted ≡ true
    → data_request control offset length access s ≡ done tt (queued control offset access s)
unfolding request_page request_new flush_all primitives
data_request_hangs control offset length access s p nobody free idle granted =
    ground (arith, data_request-plain control offset length access s p)

-- A conflicting request, of a client without access: clients have the page, which nobody waits for
-- and which is not being written out, and one of them writes or the request is to write. All
-- clients with access are asked to flush the page, and the request waits.
data_request_conflicts :
    (control offset length access : ℕ) (s : Pager)
    → IsPlain control offset length s
    → let e = requested offset s in
      e.wait_list ≡ []
      → e.paging_out ≡ false
      → is_client_on_access_list control e ≡ false
      → e.access_list ≢ []
      → (if e.write_access_granted then true else wants_write access) ≡ true
      → data_request control offset length access s
        ≡ done tt (
            put_page
              (offset / s.page_size)
              (add_client_to_wait_list control (wants_write access) e)
              (flushed e.access_list offset s))
unfolding request_page request_new primitives
data_request_conflicts control offset length access s p nobody idle absent taken conflict = ground (
  arith,
  data_request-plain control offset length access s p,
  flush_all-eq-flushed (requested offset s).access_list offset s,
)
