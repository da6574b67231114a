-- ===== src/Pager/Locks/Completed.antt =====
-- lock_completed of libpager/pagemap.cc: the count of outstanding locks, and the assertion that it
-- runs into.
use hurd.Base.{ℕ, suc, ◌+◌, ◌/◌, ◌%◌, ◌≡◌, refl, true, false, [], some, arith, ◌==◌, if◌then◌else◌}
use hurd.Base.OrdMap
use hurd.Base.OrdMap.{
  Map, same, lookup-insert, is_empty-insert, pair_cmp_eq, nat_cmp_eq, nat_key, pair_key,
}
use mathlib.Core.Option.{get_or}
use hurd.Pager.State.{Pager, ClientLock, no_lock, page_data}
use hurd.Pager.Step.{done, fault, assertion, primitives}
use hurd.Pager.Waitlist.{count_internal, internal_flush_request}
use hurd.Pager.Locks.{plan, internal_lock_completed, settle, lock_completed}

-- How many locks of a range a client has not yet completed.
abbrev pub locks_of : ℕ × ℕ → Pager → Map ℕ ClientLock
locks_of key s = get_or (OrdMap.lookup key s.outstanding_locks) []

abbrev pub outstanding : ℕ → ℕ × ℕ → Pager → ℕ
outstanding c key s =
    let l : ClientLock = get_or (OrdMap.lookup c (locks_of key s)) no_lock in l.count

-- A flush request of the pager adds one to the locks that its client has outstanding for that page,
-- and changes no other count.
outstanding-internal_flush_request :
    (c offset j : ℕ) (key : ℕ × ℕ) (s : Pager)
    → (t : Pager) × (internal_flush_request c offset s ≡ done tt t)
      × (outstanding j key t ≡ (
          if same key (offset, s.page_size)
          then (if same j c then outstanding j key s + 1 else outstanding j key s)
          else outstanding j key s))
unfolding internal_flush_request primitives
outstanding-internal_flush_request c offset j key s = (
  _,
  refl,
  ground (
    arith,
    lookup-insert key (offset, s.page_size) (count_internal c (locks_of (offset, s.page_size) s))
        s.outstanding_locks,
    lookup-insert j c
        (record {
          count = outstanding c (offset, s.page_size) s + 1;
          internal_lock_outstanding = true;
        })
        (locks_of (offset, s.page_size) s),
    pair_cmp_eq key (offset, s.page_size),
    nat_cmp_eq j c,
  ),
)

-- A range of one page, aligned.
pub record IsOnePage (offset length : ℕ) (s : Pager) : Type 0 where
  pub aligned : (offset % s.page_size == 0) ≡ true
  pub whole_pages : (length % s.page_size == 0) ≡ true
  pub one_page : length / s.page_size ≡ 1

-- The defect of the assertion on WRITE_ACCESS_GRANTED: when a client of a running pager completes its
-- last lock on one page, the pager having asked for it, and write access to the page is granted by
-- then, the pager aborts.
pub lock_completed_aborts :
    (control offset length : ℕ) (s : Pager) (locks : Map ℕ ClientLock) (l : ClientLock)
    → IsOnePage offset length s
    → s.terminating ≡ false
    → OrdMap.lookup (offset, length) s.outstanding_locks ≡ some locks
    → OrdMap.lookup control locks ≡ some l
    → l.count ≡ 1
    → l.internal_lock_outstanding ≡ true
    → (page_data (offset / s.page_size) s).write_access_granted ≡ true
    → lock_completed control offset length s ≡ fault assertion
unfolding lock_completed settle internal_lock_completed plan primitives
lock_completed_aborts control offset length s locks l p running range client last internal granted =
    ground arith

-- A completion that is not the client's last on the range lowers its count and does nothing else.
lock_completed_counts :
    (control offset length : ℕ) (s : Pager) (locks : Map ℕ ClientLock) (l : ClientLock) (n : ℕ)
    → OrdMap.lookup (offset, length) s.outstanding_locks ≡ some locks
    → OrdMap.lookup control locks ≡ some l
    → l.count ≡ suc (suc n)
    → lock_completed control offset length s
      ≡ done tt (record s {
        outstanding_locks =
            OrdMap.insert
              (offset, length)
              (OrdMap.insert control (record l { count = suc n }) locks)
              s.outstanding_locks;
      })
unfolding lock_completed settle primitives
lock_completed_counts control offset length s locks l n range client more =
    ground (arith, is_empty-insert control (record l { count = suc n }) locks)

-- A completion from a client that has no lock outstanding on the range aborts the pager.
lock_completed_unknown :
    (control offset length : ℕ) (s : Pager)
    → outstanding control (offset, length) s ≡ 0
    → lock_completed control offset length s ≡ fault assertion
unfolding lock_completed primitives
lock_completed_unknown control offset length s nothing = ground arith
