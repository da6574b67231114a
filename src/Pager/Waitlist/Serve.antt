-- ===== src/Pager/Waitlist/Serve.antt =====
-- service_WAITLIST of libpager/pagemap.cc against a description of whom it serves.
use hurd.Base.{
  ℕ, ◌≡◌, refl, Bool, true, false, ◌&&◌, List, [], ◌∷◌, ◌++◌, append_assoc, map, arith, is_empty,
  insert, insert_all, if◌then◌else◌,
}
use hurd.Pagemap.Entry.{WaitlistClient, EntryData}
use hurd.Pager.State.{
  Pager, Event, data_supply, lock_request, return_all, prot_none, prot_write, prot_no_change,
}
use hurd.Pager.Step.{done, fault, out_of_range, primitives}
use hurd.Pager.Waitlist.{
  count_internal, at_locks, internal_flush_request, flush_all, supply, serve_readers, grant,
  service_wait_list,
}

-- The readers at the head of a queue, and what is behind them.
abbrev pub readers : List WaitlistClient → List WaitlistClient
readers [] = []
readers (w ∷ ws) = if w.write_access_requested then [] else w ∷ readers ws

abbrev pub behind : List WaitlistClient → List WaitlistClient
behind [] = []
behind (w ∷ ws) = if w.write_access_requested then w ∷ ws else behind ws

-- Whom one service reaches: the first client alone, if it gets write access, or the first client
-- and the readers that follow it; and who goes on waiting.
abbrev pub served : Bool → List WaitlistClient → List WaitlistClient
served allow_write [] = []
served allow_write (w ∷ ws) =
    if allow_write && w.write_access_requested then w ∷ [] else w ∷ readers ws

abbrev pub left_waiting : Bool → List WaitlistClient → List WaitlistClient
left_waiting allow_write [] = []
left_waiting allow_write (w ∷ ws) =
    if allow_write && w.write_access_requested then ws else behind ws

-- Whether the service gives write access.
abbrev pub gives_write : Bool → List WaitlistClient → Bool
gives_write allow_write [] = false
gives_write allow_write (w ∷ ws) = allow_write && w.write_access_requested

abbrev pub clients_of : List WaitlistClient → List ℕ
clients_of = map λ w. w.client

-- One message for each client that is served: the last one carries the deallocate flag.
abbrev pub supplies : ℕ → ℕ → Bool → Bool → Bool → List WaitlistClient → List Event
supplies offset address deallocate write precious [] = []
supplies offset address deallocate write precious (w ∷ []) =
    data_supply w.client offset address deallocate (if write then prot_none else prot_write)
      precious
    ∷ []
supplies offset address deallocate write precious (w ∷ v ∷ ws) =
    data_supply w.client offset address false (if write then prot_none else prot_write) precious
    ∷ supplies offset address deallocate write precious (v ∷ ws)

-- The queue splits into those served and those left, in order.
pub served-append-left_waiting :
    (allow : Bool) (ws : List WaitlistClient) → served allow ws ++ left_waiting allow ws ≡ ws
served-append-left_waiting allow [] = refl
served-append-left_waiting allow (w ∷ ws) = ground (arith, split ws)
  where
    split : (vs : List WaitlistClient) → readers vs ++ behind vs ≡ vs
    split [] = refl
    split (v ∷ vs) = ground (arith, split vs)

-- The page data after a service.
abbrev pub served_page : Bool → EntryData → EntryData
served_page allow_write e = record e {
  access_list = insert_all (clients_of (served allow_write e.wait_list)) e.access_list;
  wait_list = left_waiting allow_write e.wait_list;
  write_access_granted = gives_write allow_write e.wait_list;
}

abbrev pub logged : List Event → Pager → Pager
logged es s = record s { log = s.log ++ es }

-- A page's clients asked, in order, to flush it.
abbrev pub flushed : List ℕ → ℕ → Pager → Pager
flushed [] offset s = s
flushed (c ∷ cs) offset s = flushed cs offset (
    logged (lock_request c offset s.page_size return_all true prot_no_change s.port_right ∷ [])
      (at_locks (offset, s.page_size) (count_internal c) s))

pub flush_all-eq-flushed :
    (cs : List ℕ) (offset : ℕ) (s : Pager) → flush_all cs offset s ≡ done tt (flushed cs offset s)
unfolding flush_all internal_flush_request primitives
flush_all-eq-flushed [] offset s = refl
flush_all-eq-flushed (c ∷ cs) offset s = flush_all-eq-flushed cs offset _

serve_readers_lem :
    (offset address : ℕ) (d : Bool) (first : WaitlistClient) (ws : List WaitlistClient)
    (e : EntryData) (s : Pager)
    → serve_readers offset address d first ws e s
      ≡ done
          (record e {
            access_list = insert_all (clients_of (first ∷ readers ws)) e.access_list;
            wait_list = behind ws;
          })
          (logged (supplies offset address d false s.notify_on_evict (first ∷ readers ws)) s)
unfolding serve_readers supply primitives
serve_readers_lem offset address d first [] e s = refl
serve_readers_lem offset address d first (next ∷ rest) e s =
    let e' = record e {
      access_list = insert first.client e.access_list;
      wait_list = next ∷ rest;
    } in
    let event =
      data_supply first.client offset address (if next.write_access_requested then d else false)
        prot_write s.notify_on_evict in
    ground (
      arith,
      serve_readers_lem offset address d next rest e' (logged (event ∷ []) s),
      append_assoc s.log (event ∷ [])
          (supplies offset address d false s.notify_on_evict (next ∷ readers rest)),
    )

grant_lem :
    (offset address : ℕ) (d allow : Bool) (e : EntryData) (s : Pager) (w : WaitlistClient)
    (ws : List WaitlistClient)
    → e.wait_list ≡ w ∷ ws
    → grant offset address d allow e s
      ≡ done (served_page allow e) (
          logged
            (supplies offset address d
              (gives_write allow e.wait_list)
              s.notify_on_evict
              (served allow e.wait_list))
            s)
unfolding grant supply primitives
grant_lem offset address d allow e s w ws waiting =
    ground (arith, serve_readers_lem offset address d w ws e s)

-- With a client on WAITLIST and no shutdown, service_WAITLIST supplies the page to the first
-- client alone, with write access, if that is asked for and allowed; else to the first client and
-- all readers up to the next writer, read-only. It moves these from WAITLIST to ACCESSLIST in
-- order, records whether write access is out, and, if clients go on waiting, asks every client
-- that now has access to flush the page. Nothing else of the page or of the pager changes.
pub service_wait_list_lem :
    (offset address : ℕ) (allow d : Bool) (e : EntryData) (s : Pager) (w : WaitlistClient)
    (ws : List WaitlistClient)
    → s.terminating ≡ false
    → e.wait_list ≡ w ∷ ws
    → let e' = served_page allow e in
      let t =
        logged
          (supplies offset address d
            (gives_write allow e.wait_list)
            s.notify_on_evict
            (served allow e.wait_list))
          s in
      service_wait_list offset address allow d e s
      ≡ done e' (if is_empty e'.wait_list then t else flushed e'.access_list offset t)
unfolding service_wait_list primitives
service_wait_list_lem offset address allow d e s w ws running waiting =
    let e' = served_page allow e in
    let t =
      logged
        (supplies offset address d (gives_write allow e.wait_list) s.notify_on_evict
          (served allow e.wait_list))
        s in
    ground (
      arith,
      grant_lem offset address d allow e s w ws waiting,
      flush_all-eq-flushed e'.access_list offset t,
    )

-- Called for a page without waiting clients, service_WAITLIST throws std::out_of_range.
pub service_wait_list-nil :
    (offset address : ℕ) (allow d : Bool) (e : EntryData) (s : Pager)
    → s.terminating ≡ false
    → e.wait_list ≡ []
    → service_wait_list offset address allow d e s ≡ fault out_of_range
unfolding service_wait_list grant primitives
service_wait_list-nil offset address allow d e s running nobody = ground arith
