-- ===== src/Pager/Invariant/Rules.antt =====
-- Rules for a computation that keeps the invariant, one for each way to build a method.
use hurd.Base.{ℕ, ◌≡◌, refl, Bool, true, false, List, [], ◌∷◌, Option, none, some, if◌then◌else◌}
use hurd.Pagemap.Entry.{EntryData, empty_page}
use hurd.Pagemap.Intern.Refines.{All-grow, All-set, All-get_or}
use hurd.Pager.State.{Pager, Event}
use hurd.Pager.Step.{
  M, Fault, on_option, on_list, fail, Call, Keeps, Keeps-bind, pure, ◌>>=◌, ◌>>◌, get, gets, modify,
  send, assert, or_throw, outside, load, store, when, do_if◌then◌else◌, primitives,
}
use hurd.Pager.Invariant.Defs.{Inv, HasSortedAccess}

-- From a state with the invariant, the method keeps it, and its result satisfies `Q`.
pub record Safe {A : Type 0} (Q : A → Type 0) (m : M A) : Type 0 where
  pub run : (s : Pager) → Inv s → Keeps Inv (λ a s'. Inv s' × Q a) (m s)

abbrev pub Any : {A : Type 0} → A → Type 0
Any _ = Unit {0}

module _ {A : Type 0} where
  pub pure-Safe : {Q : A → Type 0} (a : A) → Q a → Safe Q (pure a)
  unfolding primitives
  pure-Safe a q = record { run = λ s i. (i, q) }

  pub on_option-Safe :
      {B : Type 0} {Q : B → Type 0} {m : M B} {n : A → M B} (o : Option A)
      → (o ≡ none → Safe Q m)
      → ((a : A) → o ≡ some a → Safe Q (n a))
      → Safe Q (on_option o m n)
  unfolding on_option
  on_option-Safe none h k = h refl
  on_option-Safe (some a) h k = k a refl

  pub on_list-Safe :
      {B : Type 0} {Q : B → Type 0} {m : M B} {n : A → List A → M B} (xs : List A)
      → Safe Q m
      → ((x : A) (rest : List A) → Safe Q (n x rest))
      → Safe Q (on_list xs m n)
  unfolding on_list
  on_list-Safe [] h k = h
  on_list-Safe (x ∷ xs) h k = k x xs

  pub fail-Safe : {Q : A → Type 0} (e : Fault) → Safe Q (fail e)
  unfolding fail
  fail-Safe e = record { run = λ s i. tt }

  pub bind-Safe :
      {B : Type 0} {Q : A → Type 0} {R : B → Type 0} {m : M A} {f : A → M B}
      → Safe Q m
      → ((a : A) → Q a → Safe R (f a))
      → Safe R (m >>= f)
  unfolding primitives
  bind-Safe {B} {Q} {R} {m} {f} h k = record {
    run = λ s i.
        Keeps-bind Inv (λ a s'. Inv s' × Q a) (λ b s'. Inv s' × R b) (m s) f (h.run s i)
          (λ a s' q. (k a q.1).run s' q.0);
  }

  pub if-Safe :
      {Q : A → Type 0} {m n : M A} (b : Bool)
      → (b ≡ true → Safe Q m)
      → (b ≡ false → Safe Q n)
      → Safe Q (do_if b then m else n)
  unfolding primitives
  if-Safe true h k = record { run = λ s i. (h refl).run s i }
  if-Safe false h k = record { run = λ s i. (k refl).run s i }

  pub gets-Safe :
      {Q : A → Type 0} (f : Pager → A) → ((s : Pager) → Inv s → Q (f s)) → Safe Q (gets f)
  unfolding primitives
  gets-Safe f h = record { run = λ s i. (i, h s i) }

  pub or_throw-Safe :
      {Q : A → Type 0} (o : Option A) → ((a : A) → o ≡ some a → Q a) → Safe Q (or_throw o)
  unfolding primitives
  or_throw-Safe none h = record { run = λ s i. tt }
  or_throw-Safe (some a) h = record { run = λ s i. (i, h a refl) }

pub then-Safe :
    {A B : Type 0} {R : B → Type 0} {m : M A} {n : M B} → Safe Any m → Safe R n → Safe R (m >> n)
unfolding primitives
then-Safe h k = bind-Safe h (λ a _. k)

pub get-Safe : Safe Inv get
unfolding primitives
get-Safe = record { run = λ s i. (i, i) }

pub modify-Safe : (f : Pager → Pager) → ((s : Pager) → Inv s → Inv (f s)) → Safe Any (modify f)
unfolding primitives
modify-Safe f h = record { run = λ s i. (h s i, tt) }

pub send-Safe : (e : Event) → Safe Any (send e)
unfolding primitives
send-Safe e = modify-Safe _ (λ s i. record {
  locks_awaited = i.locks_awaited;
  access_sorted = i.access_sorted;
  clients_sorted = i.clients_sorted;
})

pub assert-Safe :
    {A : Type 0} {Q : A → Type 0} {m : M A} (b : Bool)
    → (b ≡ true → Safe Q m)
    → Safe Q (assert b >> m)
unfolding primitives
assert-Safe true h = record { run = λ s i. (h refl).run s i }
assert-Safe false h = record { run = λ s i. tt }

pub when-Safe : (b : Bool) {m : M (Unit {0})} → Safe Any m → Safe Any (when b m)
unfolding primitives
when-Safe b h = if-Safe b (λ _. h) (λ _. pure-Safe tt tt)

pub outside-Safe : (cs : List Call) → Safe Any (outside cs)
unfolding primitives
outside-Safe cs = record { run = λ s i. (i, λ r s' i'. (i', tt)) }

pub load-Safe : (n : ℕ) → Safe HasSortedAccess (load n)
unfolding primitives
load-Safe n =
    gets-Safe _ (λ s i. All-get_or HasSortedAccess empty_page n s.pagemap tt i.access_sorted)

pub store-Safe : (n : ℕ) (e : EntryData) → HasSortedAccess e → Safe Any (store n e)
unfolding primitives
store-Safe n e h = modify-Safe _ (λ s i. record {
  locks_awaited = i.locks_awaited;
  access_sorted =
      All-set HasSortedAccess _ n e h
        (All-grow HasSortedAccess empty_page n s.pagemap tt i.access_sorted);
  clients_sorted = i.clients_sorted;
})
