-- ===== src/Netmsg/Rely.antt =====
-- netmsg/netmsg.cc: predicates that the methods of class netmsg preserve, whatever the kernel answers
-- within its documented behaviour.
use hurd.Base.{◌≡◌, ◌≢◌, Bool, true, false, Option, none, some, Option-cases, inl, inr}
use hurd.Base.OrdMap
use hurd.Base.OrdMap.{nat_key}
use hurd.Netmsg.Session.{
  Session, KernelCall, allocate, Answer, Stop, Run, done, stop, kernel, M, bind, pure, ◌>>=◌, ◌>>◌,
  do_if◌then◌else◌, on_option, fail, get, modify, assert, or_throw, call, primitives,
}

-- mach_port_allocate answers a name that is not MACH_PORT_NULL and not in use: none that the session
-- holds a right for.
abbrev pub IsDocumented : KernelCall → Session → Answer → Type 0
IsDocumented allocate s r =
    (r.port ≢ 0)
    × (OrdMap.lookup r.port s.remote_ports_by_local ≡ none)
    × (OrdMap.lookup r.port s.send_once_ports_by_local ≡ none)
IsDocumented _ s r = Unit

-- Every run that ends, ends in a session with the property.
abbrev pub Keeps : {A : Type 0} → (A → Session → Type 0) → Run A → Type 0
Keeps P (done a s) = P a s
Keeps P (stop e) = Unit
Keeps P (kernel c s k) = (r : Answer) → IsDocumented c s r → Keeps P (k r)

pub Keeps-bind :
    {A B : Type 0} (P : A → Session → Type 0) (Q : B → Session → Type 0) (m : Run A)
    (f : A → Session → Run B)
    → Keeps P m
    → ((a : A) (s : Session) → P a s → Keeps Q (f a s))
    → Keeps Q (bind m f)
Keeps-bind P Q (done a s) f h k = k a s h
Keeps-bind P Q (stop e) f h k = tt
Keeps-bind P Q (kernel c s g) f h k = λ r doc. Keeps-bind P Q (g r) f (h r doc) k

pub Keeps-assert :
    {A : Type 0} (P : A → Session → Type 0) (b : Bool) (f : Unit {0} → M A) (s : Session)
    → Keeps P (f tt s)
    → Keeps P (bind (assert b s) f)
unfolding primitives
Keeps-assert P true f s h = h
Keeps-assert P false f s h = tt

-- The method preserves the predicate.
pub record Preserves (P : Session → Type 0) {A : Type 0} (m : M A) : Type 0 where
  pub at : (s : Session) → P s → Keeps (λ a t. P t) (m s)

module _ {P : Session → Type 0} where
  pub Preserves-bind :
      {A B : Type 0} {m : M A} {f : A → M B}
      → Preserves P m
      → ((a : A) → Preserves P (f a))
      → Preserves P (m >>= f)
  unfolding primitives
  Preserves-bind {m = m} {f} h k = record {
    at = λ s p. Keeps-bind (λ a t. P t) (λ b t. P t) (m s) f (h.at s p) (λ a. (k a).at);
  }

  pub Preserves-then :
      {A B : Type 0} {m : M A} {n : M B} → Preserves P m → Preserves P n → Preserves P (m >> n)
  unfolding primitives
  Preserves-then {m = m} {n} h k = record {
    at = λ s p. Keeps-bind (λ a t. P t) (λ b t. P t) (m s) (λ a. n) (h.at s p) (λ a. k.at);
  }

  pub Preserves-do_if :
      {A : Type 0} (b : Bool) {m n : M A}
      → Preserves P m
      → Preserves P n
      → Preserves P (do_if b then m else n)
  unfolding primitives
  Preserves-do_if true h k = record { at = h.at }
  Preserves-do_if false h k = record { at = k.at }

  pub Preserves-on_option :
      {A B : Type 0} (o : Option A) {m : M B} {n : A → M B}
      → Preserves P m
      → ((a : A) → Preserves P (n a))
      → Preserves P (on_option o m n)
  unfolding primitives
  Preserves-on_option none h k = h
  Preserves-on_option (some a) h k = k a

  pub Preserves-pure : {A : Type 0} (a : A) → Preserves P (pure a)
  unfolding primitives
  Preserves-pure a = record { at = λ s p. p }

  pub Preserves-get : Preserves P get
  unfolding primitives
  Preserves-get = record { at = λ s p. p }

  pub Preserves-modify :
      (f : Session → Session) → ((s : Session) → P s → P (f s)) → Preserves P (modify f)
  unfolding primitives
  Preserves-modify f h = record { at = h }

  pub Preserves-fail : {A : Type 0} (e : Stop) → Preserves P {A = A} (fail e)
  unfolding primitives
  Preserves-fail e = record { at = λ s p. tt }

  pub Preserves-assert : (b : Bool) → Preserves P (assert b)
  unfolding primitives
  Preserves-assert true = record { at = λ s p. p }
  Preserves-assert false = record { at = λ s p. tt }

  pub Preserves-or_throw : {A : Type 0} (o : Option A) → Preserves P (or_throw o)
  unfolding primitives
  Preserves-or_throw none = record { at = λ s p. tt }
  Preserves-or_throw (some a) = record { at = λ s p. p }

  pub Preserves-call : (c : KernelCall) → Preserves P (call c)
  unfolding primitives
  Preserves-call c = record { at = λ s p r doc. p }

  -- What follows a call may use what the call is documented to answer, in the session of the call.
  pub Preserves-answered :
      {A : Type 0} (c : KernelCall) (f : Answer → M A)
      → ((r : Answer) (s : Session) → IsDocumented c s r → P s → Keeps (λ a t. P t) (f r s))
      → Preserves P (call c >>= f)
  unfolding primitives
  Preserves-answered c f k = record { at = λ s p r doc. k r s doc p }

  -- What follows a failed look-up may use that it failed.
  pub Preserves-found :
      {A B : Type 0} (g : Session → Option A) (m : M B) (n : A → M B)
      → ((s : Session) → P s → g s ≡ none → Keeps (λ a t. P t) (m s))
      → ((a : A) → Preserves P (n a))
      → Preserves P (get >>= λ s. on_option (g s) m n)
  unfolding primitives
  Preserves-found g m n h k = record {
    at = λ s p. elim (Option-cases (g s)) [
      | inl e ↦ rw e (h s p e)
      | inr (a, e) ↦ rw e ((k a).at s p)
    ];
  }

pub ruleset preserves_rules = (
  Preserves-bind, Preserves-then, Preserves-do_if, Preserves-on_option, Preserves-pure,
  Preserves-get, Preserves-fail, Preserves-assert, Preserves-or_throw, Preserves-call,
)
