-- ===== src/Pager/Invariant.antt =====
-- An invariant of the pager's own bookkeeping that every method of libpager/pagemap.cc keeps, at
-- each point where the lock is free, whatever the other threads do meanwhile.
pub mod Defs
pub mod Rules
pub mod Waitlist
pub mod Clients
pub mod Request
pub mod Writeback
pub mod Locks
