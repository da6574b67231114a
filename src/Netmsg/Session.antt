-- ===== src/Netmsg/Session.antt =====
-- netmsg/netmsg.cc: the state of one session, class netmsg, and its methods as computations that call
-- the kernel. `kernel` is one call: the call, the session at that time, and how the method goes on
-- with the kernel's answer. `mach_call` goes on whatever the call returns.
use hurd.Base.{
  ℕ, ◌-◌, Bool, true, false, List, [], ◌∷◌, Option, none, some, leb, ◌==◌, ◌||◌, if◌then◌else◌,
}
use hurd.Base.OrdMap
use hurd.Base.OrdMap.{Map, nat_key}
use hurd.Message.Value.{TypeName}

-- A value of local_port_type: `unknown` is the 0 that `operator[]` inserts for a missing key.
pub data PortType : Type 0 where
  unknown receive send : PortType

pub record Session : Type 0 where
  pub first_port : ℕ
  pub portset : ℕ
  pub notification_port : ℕ
  -- the program's global `control`
  pub control : ℕ
  pub local_ports_by_remote : Map ℕ ℕ
  pub remote_ports_by_local : Map ℕ ℕ
  pub local_port_type : Map ℕ PortType
  pub send_once_ports_by_remote : Map ℕ ℕ
  pub send_once_ports_by_local : Map ℕ ℕ

-- The fields of a message's header, with the parts of msgh_bits that the program uses.
pub record Header : Type 0 where
  pub local_type : Option TypeName
  pub remote_type : Option TypeName
  pub complex : Bool
  -- MACH_MSGH_BITS_REMOTE_TRANSLATE
  pub remote_translate : Bool
  pub msgh_local_port : ℕ
  pub msgh_remote_port : ℕ
  pub msgh_id : ℕ

-- A data item: the elements of an item of ports are port names.
pub record Item : Type 0 where
  pub name : TypeName
  pub elements : List ℕ

pub data Notification : Type 0 where
  no_senders dead_name : Notification

pub data Right : Type 0 where
  send_right receive_right send_once_right dead_name_right : Right

pub data Disposition : Type 0 where
  make_send copy_send : Disposition

pub data KernelCall : Type 0 where
  -- mach_port_allocate of a receive right
  allocate : KernelCall
  allocate_portset : KernelCall
  -- the port, and how the send right is made
  insert_right : ℕ → Disposition → KernelCall
  -- the port, the notification, and the port to notify
  request_notification : ℕ → Notification → ℕ → KernelCall
  -- the port, the right, and how many references go
  drop_refs : ℕ → Right → ℕ → KernelCall
  move_member : ℕ → ℕ → KernelCall
  -- mach_port_extract_right with MAKE_SEND_ONCE
  extract_send_once : ℕ → KernelCall
  -- a message written to the network, and one sent by mach_msg
  transmit deliver : Header → List Item → KernelCall

-- The kernel's answer: a port name, and whether a right that was acquired is of the expected type.
pub record Answer : Type 0 where
  pub port : ℕ
  pub is_send_once : Bool

-- A failed assert, std::out_of_range, error (1, ...).
pub data Stop : Type 0 where
  assertion out_of_range exit : Stop

pub data Run (A : Type 0) : Type 0 where
  done : A → Session → Run A
  stop : Stop → Run A
  kernel : KernelCall → Session → (Answer → Run A) → Run A

abbrev pub M : Type 0 → Type 0
M A = Session → Run A

abbrev pub bind : {A B : Type 0} → Run A → (A → Session → Run B) → Run B
bind (done a s) f = f a s
bind (stop e) f = stop e
bind (kernel c s k) f = kernel c s (λ r. bind (k r) f)

unfoldable pub pure : {A : Type 0} → A → M A
pure a s = done a s

infixl 5 ◌>>=◌ ◌>>◌
unfoldable pub ◌>>=◌ : {A B : Type 0} → M A → (A → M B) → M B
◌>>=◌ m f s = bind (m s) f

unfoldable pub ◌>>◌ : {A B : Type 0} → M A → M B → M B
unfolding ◌>>=◌
m >> k = m >>= λ _. k

infix 1 do_if◌then◌else◌
unfoldable pub do_if◌then◌else◌ : {A : Type 0} → Bool → M A → M A → M A
do_if b then m else n = λ s. if b then m s else n s

unfoldable pub on_option : {A B : Type 0} → Option A → M B → (A → M B) → M B
on_option none m n = m
on_option (some a) m n = n a

unfoldable pub fail : {A : Type 0} → Stop → M A
fail e s = stop e

unfoldable pub get : M Session
get s = done s s

unfoldable pub modify : (Session → Session) → M (Unit {0})
modify f s = done tt (f s)

unfoldable pub assert : Bool → M (Unit {0})
assert true s = done tt s
assert false s = stop assertion

unfoldable pub or_throw : {A : Type 0} → Option A → M A
or_throw none s = stop out_of_range
or_throw (some a) s = done a s

unfoldable pub call : KernelCall → M Answer
call c s = kernel c s (λ r. done r s)

unfoldable pub primitives : Unit {0}
unfolding pure ◌>>=◌ ◌>>◌ do_if◌then◌else◌ on_option fail get modify assert or_throw call
primitives = tt

abbrev pub mach_port_null : ℕ
mach_port_null = 0

abbrev pub mach_port_dead : ℕ
mach_port_dead = 0xffffffff

-- `~ 1`, of 32 bits.
abbrev pub mach_port_control : ℕ
mach_port_control = 0xfffffffe

abbrev pub is_null_or_dead : ℕ → Bool
is_null_or_dead port = port == mach_port_null || port == mach_port_dead

-- `port & 0x80000000` and `~ port`.
abbrev pub is_flagged : ℕ → Bool
is_flagged port = leb 0x80000000 port

abbrev pub complement : ℕ → ℕ
complement port = 0xffffffff - port

abbrev pub is_receive : PortType → Bool
is_receive receive = true
is_receive send = false
is_receive unknown = false

abbrev pub is_send : PortType → Bool
is_send send = true
is_send receive = false
is_send unknown = false

-- `local_port_type.at(port)`, `local_port_type[port]` as a value, and as the target of `=`.
unfoldable pub type_at : ℕ → M PortType
type_at port = do s ← get; or_throw (OrdMap.lookup port s.local_port_type)

unfoldable pub set_type : ℕ → PortType → M (Unit {0})
set_type port type =
    modify λ s. record s { local_port_type = OrdMap.insert port type s.local_port_type }

unfoldable pub type_ref : ℕ → M PortType
type_ref port = do
  s ← get
  on_option (OrdMap.lookup port s.local_port_type) (do set_type port unknown; pure unknown)
      (λ type. pure type)

-- A run in which the kernel's answers are given in order; the calls are listed in order.
abbrev pub run_with : {A : Type 0} → List Answer → Run A → Option (A × Session × List KernelCall)
run_with answers (done a s) = some (a, s, [])
run_with answers (stop e) = none
run_with [] (kernel c s k) = none
run_with (r ∷ answers) (kernel c s k) = elim (run_with answers (k r)) [
  | none ↦ none
  | some (a, t, calls) ↦ some (a, t, c ∷ calls)
]
