-- ===== src/Pager/Control.antt =====
-- libpager/pagemap.cc: lock_object, change_attributes and shutdown, the methods that the filesystem
-- calls.
pub mod Locking
use hurd.Base.{
  ℕ, zero, suc, ◌+◌, ◌/◌, Bool, true, false, ◌&&◌, ◌||◌, not, List, [], ◌∷◌, Option, none, some,
  leb, ◌==◌, insert_all, is_empty, if◌then◌else◌,
}
use hurd.Base.OrdMap
use hurd.Base.OrdMap.{Map, nat_key, pair_key}
use mathlib.Core.Option.{get_or}
use hurd.Pager.State.{
  Pager, WritewaitEntry, ClientLock, no_lock, ReturnMode, return_none, return_dirty, return_all,
  prot_no_change, word, mach_port_null, page_data, lock_request,
  change_attributes as change_message, move_member, port_destroy, ports_destroy_right,
}
use hurd.Pager.Step.{
  M, on_option, alloc, done, wait_locks, wait_write, receive, report_extent, pure, ◌>>=◌, ◌>>◌, get,
  modify, send, assert, outside, do_if◌then◌else◌,
}
use hurd.Pager.Waitlist.{at_locks}

abbrev pub is_return_all : ReturnMode → Bool
is_return_all return_all = true
is_return_all return_none = false
is_return_all return_dirty = false

-- The clients that a lock of some pages concerns.
abbrev pub concerned : Bool → Pager → ℕ → ℕ → List ℕ → List ℕ
concerned only_write s page zero set = set
concerned only_write s page (suc k) set =
    let e = page_data page s in
    concerned only_write s (page + 1) k
      (if not only_write || e.write_access_granted then insert_all e.access_list set else set)

-- `record.locks[client].count ++`.
abbrev pub count_request : ℕ → Map ℕ ClientLock → Map ℕ ClientLock
count_request c locks =
    let l : ClientLock = get_or (OrdMap.lookup c locks) no_lock in
    OrdMap.insert c (record l { count = l.count + 1 }) locks

module _ (offset length : ℕ) (mode : ReturnMode) (flush : Bool) where
  unfoldable pub request_async : List ℕ → M (Unit {0})
  request_async [] = pure tt
  request_async (c ∷ cs) = do
    send (lock_request c offset length mode flush prot_no_change mach_port_null)
    request_async cs

  unfoldable pub request_sync : List ℕ → M (Unit {0})
  request_sync [] = pure tt
  request_sync (c ∷ cs) = do
    s ← get
    send (lock_request c offset length mode flush prot_no_change s.port_right)
    modify (at_locks (offset, length) (count_request c))
    request_sync cs

-- The last block on WRITEWAIT that overlaps the range.
abbrev pub last_overlap : ℕ → ℕ → List WritewaitEntry → Option WritewaitEntry
last_overlap offset length [] = none
last_overlap offset length (w ∷ ws) = elim (last_overlap offset length ws) [
  | some v ↦ some v
  | none ↦
      if leb w.offset (word (offset + length)) && leb offset (word (w.offset + w.length))
      then some w
      else none
]

unfoldable pub lock_object : ℕ → ℕ → ReturnMode → Bool → Bool → M (Unit {0})
lock_object offset length mode flush sync = do
  s ← get
  let only_write = not flush && not (is_return_all mode)
  let clients = concerned only_write s (offset / s.page_size) (length / s.page_size) []
  do_if is_empty clients
      then pure tt
      else (do_if not sync then request_async offset length mode flush clients else (do
        request_sync offset length mode flush clients
        outside (wait_locks offset length ∷ [])
        t ← get
        on_option (last_overlap offset length t.writewait) (pure tt)
            (λ w. outside (wait_write w ∷ []) >> pure tt)))

-- mach_port_allocate.
unfoldable pub allocate : M ℕ
allocate s = alloc (λ p. done p s)

-- The message id of memory_object_change_completed.
abbrev pub msgid_change_completed : ℕ
msgid_change_completed = 2209

module _ (may_cache : Bool) (copy_strategy : ℕ) where
  unfoldable pub change_async : List ℕ → M (Unit {0})
  change_async [] = pure tt
  change_async (c ∷ cs) = do
    send (change_message c may_cache copy_strategy mach_port_null)
    change_async cs

  unfoldable pub change_sync : ℕ → List ℕ → M (Unit {0})
  change_sync portset [] = pure tt
  change_sync portset (c ∷ cs) = do
    reply ← allocate
    send (change_message c may_cache copy_strategy reply)
    send (move_member reply portset)
    modify (λ s. record s {
      outstanding_change_requests = OrdMap.insert (c, reply) tt s.outstanding_change_requests;
    })
    change_sync portset cs

-- The first request with a reply port goes.
abbrev pub erase_reply : ℕ → Map (ℕ × ℕ) (Unit {0}) → Map (ℕ × ℕ) (Unit {0})
erase_reply port [] = []
erase_reply port (((c, reply), u) ∷ m) =
    if reply == port then m else ((c, reply), u) ∷ erase_reply port m

-- The loop over the replies, as many as requests were sent.
unfoldable pub await_changes : ℕ → List ℕ → M (Unit {0})
await_changes portset [] = pure tt
await_changes portset (_ ∷ cs) = do
  r ← outside (receive portset ∷ [])
  assert ((r 0).msgh_id == msgid_change_completed)
  modify (λ s. record s {
    outstanding_change_requests = erase_reply (r 0).msgh_local_port s.outstanding_change_requests;
  })
  send (port_destroy (r 0).msgh_local_port)
  await_changes portset cs

unfoldable pub change_attributes : Bool → ℕ → Bool → M (Unit {0})
change_attributes may_cache copy_strategy sync = do
  s ← get
  do_if not sync then change_async may_cache copy_strategy s.clients else (do
    portset ← allocate
    change_sync may_cache copy_strategy portset s.clients
    await_changes portset s.clients
    send (port_destroy portset))

-- shutdown, with pager_return: flush and fetch all pages that pager_report_extent names, which is
-- called without the lock.
unfoldable pub shutdown : M (Unit {0})
shutdown = do
  modify (λ s. record s { terminating = true })
  r ← outside (report_extent ∷ [])
  lock_object (r 0).offset (r 0).size return_all true true
  send ports_destroy_right
