-- ===== src/Pager/State.antt =====
-- libpager/pagemap.h: struct pager and the records it keeps, and the messages that leave it.
-- Offsets, addresses, sizes and port names are natural numbers below 2 ^ 32; `word` is the wrap of
-- the machine's arithmetic. `tmp_pagemap_entry` has no field: every method loads it before use, so
-- the methods below pass it along as a value.
pub mod Pages
use hurd.Base.{ℕ, ◌+◌, ◌%◌, ◌^◌, ◌≡◌, Bool, false, List, [], get_or, set, not, ◌==◌}
use hurd.Base.OrdMap.{Map}
use hurd.Pagemap.Entry.{EntryData, empty_page}
use hurd.Pagemap.Intern.{grow}
use Prim.Native.Nat.{bit_and}

unfoldable pub word : ℕ → ℕ
word n = n % 2 ^ 32

pub record WritewaitEntry : Type 0 where
  pub offset : ℕ
  pub address : ℕ
  pub length : ℕ
  pub kernel_copy : Bool

pub record NexterrorEntry : Type 0 where
  pub client : ℕ
  pub offset : ℕ
  pub error : ℕ

-- outstanding_client_lock.
pub record ClientLock : Type 0 where
  pub count : ℕ
  pub internal_lock_outstanding : Bool

abbrev pub no_lock : ClientLock
no_lock = record { count = 0; internal_lock_outstanding = false }

-- memory_object_return_t and vm_prot_t, as far as the pager uses them.
pub data ReturnMode : Type 0 where
  return_none return_dirty return_all : ReturnMode

pub data Prot : Type 0 where
  prot_none prot_write prot_no_change : Prot

abbrev pub vm_prot_write : ℕ
vm_prot_write = 2

-- `DESIRED_ACCESS & VM_PROT_WRITE`, as a truth value.
abbrev pub wants_write : ℕ → Bool
wants_write access = not (bit_and access vm_prot_write == 0)

abbrev pub mach_port_null : ℕ
mach_port_null = 0

abbrev pub mach_port_dead : ℕ
mach_port_dead = 0xffffffff

-- The remote calls that send a message to a client, and the other effects outside the pager.
pub data Event : Type 0 where
  -- client, offset, data, deallocate, lock value, precious
  data_supply : ℕ → ℕ → ℕ → Bool → Prot → Bool → Event
  -- client, offset, length, error
  data_error : ℕ → ℕ → ℕ → ℕ → Event
  -- client, offset, length, return mode, flush, protection, reply port
  lock_request : ℕ → ℕ → ℕ → ReturnMode → Bool → Prot → ℕ → Event
  -- client, may_cache, copy_strategy
  object_ready : ℕ → Bool → ℕ → Event
  -- client, may_cache, copy_strategy, reply port
  change_attributes : ℕ → Bool → ℕ → ℕ → Event
  -- reply port
  change_completed : ℕ → Event
  -- port, notify port
  dead_name_notification : ℕ → ℕ → Event
  -- port, port set
  move_member : ℕ → ℕ → Event
  port_destroy : ℕ → Event
  -- address, length
  munmap : ℕ → ℕ → Event
  -- notify_all on the condition variable of a lock (offset, length) or of a WRITEWAIT entry
  notify_locks : ℕ → ℕ → Event
  notify_write : WritewaitEntry → Event
  ports_destroy_right : Event
  clear_user_data : Event

pub record Pager : Type 0 where
  pub page_size : ℕ
  pub may_cache : Bool
  pub copy_strategy : ℕ
  -- PRECIOUS is a reference to this field
  pub notify_on_evict : Bool
  pub terminating : Bool
  pub port_right : ℕ
  pub clients : List ℕ
  pub writewait : List WritewaitEntry
  pub nexterror : List NexterrorEntry
  -- by offset and length, then by client
  pub outstanding_locks : Map (ℕ × ℕ) (Map ℕ ClientLock)
  -- by client and reply port
  pub outstanding_change_requests : Map (ℕ × ℕ) (Unit {0})
  pub pagemap : List EntryData
  -- all events so far, oldest first
  pub log : List Event

-- `pagemap[n]` as a value: beyond the end it is the empty page, which `operator[]` would append.
abbrev pub page_data : ℕ → Pager → EntryData
page_data n s = get_or s.pagemap n empty_page

-- `pagemap[n] = data`.
abbrev pub put_page : ℕ → EntryData → Pager → Pager
put_page n e s = record s { pagemap = set (grow empty_page n s.pagemap) n e }
