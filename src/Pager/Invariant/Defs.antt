-- ===== src/Pager/Invariant/Defs.antt =====
-- The invariant: lock counts, and ordered sets.
use hurd.Base.{ℕ, ◌<◌, ◌≡◌, false, All, IsSorted, is_empty}
use hurd.Base.OrdMap.{Map, AllValues}
use hurd.Pagemap.Entry.{EntryData}
use hurd.Pager.State.{Pager, ClientLock}

-- A client is recorded only while some of its locks are outstanding.
abbrev pub IsCounted : Map ℕ ClientLock → Type 0
IsCounted = AllValues (λ l. 0 < l.count)

-- A range is recorded only while some client is.
abbrev pub IsAwaited : Map ℕ ClientLock → Type 0
IsAwaited locks = (is_empty locks ≡ false) × IsCounted locks

abbrev pub HasSortedAccess : EntryData → Type 0
HasSortedAccess e = IsSorted e.access_list

pub record Inv (s : Pager) : Type 0 where
  pub locks_awaited : AllValues IsAwaited s.outstanding_locks
  pub access_sorted : All HasSortedAccess s.pagemap
  pub clients_sorted : IsSorted s.clients
