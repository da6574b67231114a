-- ===== src/Tests.antt =====
-- Runs of the model at concrete inputs: a pager's pages and its clients' queues.
pub mod Interning
pub mod Requests
pub mod Locks
pub mod Walk
pub mod Ports
pub mod Queues
pub mod Workers
pub mod Memcpy
pub mod Stream
pub mod MsgIds
pub mod Audit
use hurd.Base.{ℕ, ◌≡◌, refl, Bool, true, false, List, [], ◌∷◌, ◌++◌, inl, inr, some, none, arith}
use hurd.Base.OrdMap.{is_eq}
use hurd.Pagemap.Entry.{WaitlistClient, EntryData, empty_page}
use hurd.Pager.State.{Pager, ClientLock, NexterrorEntry, Event, prot_none, prot_write, page_data}
use hurd.Pager.Step.{done, fault, assertion, out_of_range, primitives}
use hurd.Pager.Waitlist.{service_wait_list}
use hurd.Pager.Waitlist.Serve.{
  served_page, logged, flushed, service_wait_list_lem, service_wait_list-nil,
}
use hurd.Pager.Waitlist.Exclusive.{IsExclusive, Gives, service_wait_list-IsExclusive}
use hurd.Pager.Invariant.Defs.{Inv}
use hurd.Pager.Rpc.{memory_object_init, stub, serve}
use hurd.Pager.Clients.{object_init}
use hurd.Pager.System.{here, next, enter, finished}
use hurd.Pager.System.Safe.{Reachable-Inv}

abbrev pub reader : ℕ → WaitlistClient
reader c = record { client = c; write_access_requested = false }

abbrev pub writer : ℕ → WaitlistClient
writer c = record { client = c; write_access_requested = true }

abbrev pub with_pages : List EntryData → Pager
with_pages pages = record {
  page_size = 4096;
  may_cache = true;
  copy_strategy = 0;
  notify_on_evict = false;
  terminating = false;
  port_right = 9;
  clients = 3 ∷ 5 ∷ [];
  writewait = [];
  nexterror = [];
  outstanding_locks = [];
  outstanding_change_requests = [];
  pagemap = pages;
  log = [];
}

abbrev after_init : Pager
after_init = record (with_pages []) {
  clients = 3 ∷ [];
  log = Event.dead_name_notification 3 9 ∷ Event.object_ready 3 true 0 ∷ [];
}

Reachable-Inv_example : Inv after_init
unfolding serve stub object_init primitives
Reachable-Inv_example =
    Reachable-Inv 10 9 4096 0 true false (record { pager = after_init; threads = [] })
      (next here (enter _ after_init [] [] (memory_object_init 3 8 4096) (finished after_init)))

abbrev pub waiting_page : EntryData
waiting_page = record empty_page { wait_list = reader 3 ∷ reader 5 ∷ writer 7 ∷ [] }

abbrev served_log : List Event
served_log =
    Event.data_supply 3 0 80 false prot_write false
    ∷ Event.data_supply 5 0 80 true prot_write false
    ∷ []

service_wait_list_lem_example :
    service_wait_list 0 80 true true waiting_page (with_pages [])
    ≡ done
        (served_page true waiting_page)
        (flushed (3 ∷ 5 ∷ []) 0 (logged served_log (with_pages [])))
service_wait_list_lem_example =
    service_wait_list_lem 0 80 true true waiting_page (with_pages []) (reader 3)
      (reader 5 ∷ writer 7 ∷ []) refl refl

service_wait_list-IsExclusive_example :
    Gives IsExclusive (service_wait_list 0 80 true true waiting_page (with_pages []))
service_wait_list-IsExclusive_example =
    service_wait_list-IsExclusive 0 80 true true waiting_page (with_pages []) (reader 3)
      (reader 5 ∷ writer 7 ∷ []) refl refl (inl refl)

abbrev pub contended_page : EntryData
contended_page = record empty_page { access_list = 3 ∷ []; wait_list = writer 5 ∷ [] }

service_wait_list-nil_example :
    service_wait_list 0 80 true true empty_page (with_pages []) ≡ fault out_of_range
service_wait_list-nil_example =
    service_wait_list-nil 0 80 true true empty_page (with_pages []) refl refl
