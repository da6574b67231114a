-- ===== src/Pager.antt =====
-- libpager/pagemap.cc and pagemap.h: struct pager and its methods.
pub mod State
pub mod Step
pub mod Waitlist
pub mod Locks
pub mod Request
pub mod Writeback
pub mod Clients
pub mod Control
pub mod Rpc
pub mod Invariant
pub mod System
pub mod Memcpy
