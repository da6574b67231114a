-- ===== src/Pager/Waitlist/Errors.antt =====
-- send_error_to_WAITLIST of libpager/pagemap.cc, for clients that do not have the page.
use hurd.Base.{ℕ, ◌≡◌, sym, ap, false, List, [], ◌∷◌, map, All, arith, append-nil, append_assoc}
use hurd.Pagemap.Entry.{WaitlistClient, EntryData, is_client_on_access_list, clear_wait_list}
use hurd.Pager.State.{Pager, Event, data_error}
use hurd.Pager.Step.{done, primitives}
use hurd.Pager.Waitlist.{report_errors, send_error_to_wait_list}
use hurd.Pager.Waitlist.Serve.{logged}

-- One message for each waiting client.
abbrev pub errors : ℕ → ℕ → ℕ → List WaitlistClient → List Event
errors offset size error = map λ w. data_error w.client offset size error

report_errors_lem :
    (offset : ℕ) (e : EntryData) (ws : List WaitlistClient) (s : Pager)
    → All (λ w. is_client_on_access_list w.client e ≡ false) ws
    → report_errors offset e ws s ≡ done tt (logged (errors offset s.page_size e.error ws) s)
unfolding report_errors primitives
report_errors_lem offset e [] s absent =
    ap (λ l. done tt (record s { log = l })) (sym (append-nil s.log))
report_errors_lem offset e (w ∷ ws) s absent =
    let event = data_error w.client offset s.page_size e.error in
    ground (
      arith,
      absent.0,
      report_errors_lem offset e ws (logged (event ∷ []) s) absent.1,
      append_assoc s.log (event ∷ []) (errors offset s.page_size e.error ws),
    )

-- If no waiting client has the page, each of them is sent the page's error, in the order in which
-- they wait, then nobody waits, and nothing else changes.
send_error_to_wait_list_lem :
    (offset : ℕ) (e : EntryData) (s : Pager)
    → All (λ w. is_client_on_access_list w.client e ≡ false) e.wait_list
    → send_error_to_wait_list offset e s
      ≡ done (clear_wait_list e) (logged (errors offset s.page_size e.error e.wait_list) s)
unfolding send_error_to_wait_list primitives
send_error_to_wait_list_lem offset e s absent =
    ground (arith, report_errors_lem offset e e.wait_list s absent)
