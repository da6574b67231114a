-- ===== src/Pager/Step.antt =====
-- A pager method as a computation that may release the pager's lock. `away` is a stretch outside
-- the lock: the calls that the method makes there, the state it leaves behind, and how it goes on
-- with the answers and with the state that it finds when it has the lock again. `Keeps` is the
-- rely-guarantee reading of an invariant over such a computation.
use hurd.Base.{ℕ, Bool, true, false, List, [], ◌∷◌, ◌++◌, Option, none, some, if◌then◌else◌}
use hurd.Pagemap.Entry.{EntryData}
use hurd.Pager.State.{Pager, Event, WritewaitEntry, page_data, put_page}

-- A failed assert, std::out_of_range, the use of an erased element, a loop out of fuel.
pub data Fault : Type 0 where
  assertion out_of_range dangling exhausted : Fault

-- What a method does while the lock is free: calls of the filesystem's functions, the waits on a
-- condition variable, a message awaited on a port set.
pub data Call : Type 0 where
  read_page unlock_page notify_evict : ℕ → Call
  write_page : ℕ → ℕ → Call
  wait_locks : ℕ → ℕ → Call
  wait_write : WritewaitEntry → Call
  receive : ℕ → Call
  report_extent : Call

-- The answer to a call, of which each kind of call uses its part.
pub record Reply : Type 0 where
  pub err : ℕ
  pub buffer : ℕ
  pub write_lock : Bool
  pub msgh_id : ℕ
  pub msgh_local_port : ℕ
  pub offset : ℕ
  pub size : ℕ

-- `alloc` is mach_port_allocate, whose answer is a port name that the kernel chooses.
-- The answers of a stretch outside the lock are indexed by page number, as the source's arrays are
-- by the page's place; a call that is about no page answers at 0.
pub data Step (A : Type 0) : Type 0 where
  done : A → Pager → Step A
  fault : Fault → Step A
  alloc : (ℕ → Step A) → Step A
  away : List Call → Pager → ((ℕ → Reply) → Pager → Step A) → Step A

abbrev pub M : Type 0 → Type 0
M A = Pager → Step A

abbrev pub bind : {A B : Type 0} → Step A → (A → Pager → Step B) → Step B
bind (done a s) f = f a s
bind (fault e) f = fault e
bind (alloc k) f = alloc (λ p. bind (k p) f)
bind (away cs s k) f = away cs s (λ r s'. bind (k r s') f)

unfoldable pub pure : {A : Type 0} → A → M A
pure a s = done a s

infixl 5 ◌>>=◌ ◌>>◌
unfoldable pub ◌>>=◌ : {A B : Type 0} → M A → (A → M B) → M B
◌>>=◌ m f s = bind (m s) f

unfoldable pub ◌>>◌ : {A B : Type 0} → M A → M B → M B
unfolding ◌>>=◌
m >> k = m >>= λ _. k

-- A branch of a method.
infix 1 do_if◌then◌else◌
unfoldable pub do_if◌then◌else◌ : {A : Type 0} → Bool → M A → M A → M A
do_if b then m else n = λ s. if b then m s else n s

-- A branch on an optional value, or on a list.
unfoldable pub on_option : {A B : Type 0} → Option A → M B → (A → M B) → M B
on_option none m n = m
on_option (some a) m n = n a

unfoldable pub on_list : {A B : Type 0} → List A → M B → (A → List A → M B) → M B
on_list [] m n = m
on_list (x ∷ xs) m n = n x xs

unfoldable pub fail : {A : Type 0} → Fault → M A
fail e s = fault e

unfoldable pub get : M Pager
get s = done s s

unfoldable pub gets : {A : Type 0} → (Pager → A) → M A
gets f s = done (f s) s

unfoldable pub modify : (Pager → Pager) → M (Unit {0})
modify f s = done tt (f s)

unfoldable pub send : Event → M (Unit {0})
unfolding modify
send e = modify (λ s. record s { log = s.log ++ e ∷ [] })

unfoldable pub assert : Bool → M (Unit {0})
assert true s = done tt s
assert false s = fault assertion

unfoldable pub or_throw : {A : Type 0} → Option A → M A
or_throw none s = fault out_of_range
or_throw (some a) s = done a s

-- Release the lock, make the calls, take the lock again.
unfoldable pub outside : List Call → M (ℕ → Reply)
outside cs s = away cs s done

unfoldable pub load : ℕ → M EntryData
unfolding gets
load n = gets (page_data n)

unfoldable pub store : ℕ → EntryData → M (Unit {0})
unfolding modify
store n e = modify (put_page n e)

unfoldable pub when : Bool → M (Unit {0}) → M (Unit {0})
unfolding pure do_if◌then◌else◌
when b m = do_if b then m else pure tt

-- Names all of the above on its line, for proofs that run a method.
unfoldable pub primitives : Unit {0}
unfolding pure do_if◌then◌else◌ on_option on_list fail ◌>>=◌ ◌>>◌ get gets modify send assert
    or_throw outside load store when
primitives = tt

-- `I` holds whenever the lock is released, provided that it holds whenever the lock is taken, and
-- `Q` holds of the result.
abbrev pub Keeps : {A : Type 0} → (Pager → Type 0) → (A → Pager → Type 0) → Step A → Type 0
Keeps I Q (done a s) = Q a s
Keeps I Q (fault e) = Unit
Keeps I Q (alloc k) = (p : ℕ) → Keeps I Q (k p)
Keeps I Q (away cs s k) = I s × ((r : ℕ → Reply) (s' : Pager) → I s' → Keeps I Q (k r s'))

module _ (I : Pager → Type 0) {A : Type 0} where
  pub Keeps-bind :
      {B : Type 0} (Q : A → Pager → Type 0) (R : B → Pager → Type 0) (m : Step A)
      (f : A → Pager → Step B)
      → Keeps I Q m
      → ((a : A) (s : Pager) → Q a s → Keeps I R (f a s))
      → Keeps I R (bind m f)
  Keeps-bind Q R (done a s) f h k = k a s h
  Keeps-bind Q R (fault e) f h k = tt
  Keeps-bind Q R (alloc g) f h k = λ p. Keeps-bind Q R (g p) f (h p) k
  Keeps-bind Q R (away cs s g) f h k = (h.0, λ r s' i. Keeps-bind Q R (g r s') f (h.1 r s' i) k)

-- A method run while no other thread touches the pager, its calls answered by `r` and the kernel's
-- port names by `port`; `none` is a fault.
abbrev pub alone : {A : Type 0} → (ℕ → Reply) → ℕ → Step A → Option (A × Pager)
alone r port (done a s) = some (a, s)
alone r port (fault e) = none
alone r port (alloc k) = alone r port (k port)
alone r port (away cs s k) = alone r port (k r s)
