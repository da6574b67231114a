-- ===== src/Netmsg/Ports/RoundTrip.antt =====
-- netmsg/netmsg.cc: rights that cross the network and come back.
use hurd.Base.{ℕ, ◌≡◌, ◌≢◌, ◌<◌, false, none, some, List, [], ◌∷◌, arith}
use hurd.Base.OrdMap
use hurd.Base.OrdMap.{nat_key, lookup-insert, lookup-erase, nat_cmp_eq}
use hurd.Message.Value.{TypeName, move_send}
use hurd.Netmsg.Session.{
  PortType, send, receive, Session, Answer, KernelCall, insert_right, request_notification,
  drop_refs, allocate, move_member, primitives, complement, type_at, type_ref, set_type, run_with,
  no_senders, dead_name, send_right, Disposition,
}
use hurd.Netmsg.Translate.{
  request_dead_name, translate_flagged, remember, new_send_right, translate_send, translate_remote,
  translate_port,
}
use hurd.Netmsg.Transmit.{transmit_send}

-- An answer whose port is used.
abbrev pub named : ℕ → Answer
named port = record { port = port; is_send_once = false }

-- A name of a right of the task: neither MACH_PORT_NULL nor one that the sign bit makes a flag or
-- MACH_PORT_DEAD.
abbrev pub IsName : ℕ → Type 0
IsName port = (port ≢ 0) × (port < 0x80000000)

abbrev pub learnt : ℕ → ℕ → PortType → Session → Session
learnt port newport type s = record s {
  local_ports_by_remote = OrdMap.insert port newport s.local_ports_by_remote;
  remote_ports_by_local = OrdMap.insert newport port s.remote_ports_by_local;
  local_port_type = OrdMap.insert newport type s.local_port_type;
}

abbrev pub noted : ℕ → PortType → Session → Session
noted port type s = record s { local_port_type = OrdMap.insert port type s.local_port_type }

pub lookup-inserted {ℓ} :
    {V : Type ℓ} (k : ℕ) (v : V) (m : OrdMap.Map ℕ V)
    → OrdMap.lookup k (OrdMap.insert k v m) ≡ some v
lookup-inserted k v m = ground (arith, lookup-insert k k v m, nat_cmp_eq k k)

complement_twice : (r : ℕ) → r < 0x80000000 → complement (complement r) ≡ r
complement_twice r h = omega (arith, h)

-- A right's name in the other task's name space stands for the right there.
pub translate_port-flagged :
    (r : ℕ) (type : TypeName) (s : Session)
    → IsName r
    → translate_port (complement r) type s ≡ translate_flagged r type s
unfolding translate_port primitives
translate_port-flagged r type s n = ground (arith, n.0, n.1, complement_twice r n.1)

-- The answers to a session that relays a right it has not seen, and the calls that it makes.
abbrev pub new_send_calls : ℕ → ℕ → List KernelCall
new_send_calls p portset =
    allocate
    ∷ insert_right p Disposition.make_send
    ∷ request_notification p no_senders p
    ∷ move_member p portset
    ∷ []

translate_port-new_send :
    (r p : ℕ) (s : Session)
    → IsName r
    → OrdMap.lookup r s.local_ports_by_remote ≡ none
    → run_with (named p ∷ named 0 ∷ named 0 ∷ named 0 ∷ []) (translate_port r move_send s)
      ≡ some (p, learnt r p receive s, new_send_calls p s.portset)
unfolding translate_port translate_remote translate_send new_send_right remember primitives
translate_port-new_send r p s n e = ground (arith, n.0, n.1, e)

transmit_send-mapped :
    (r p : ℕ) (s : Session)
    → IsName p
    → run_with (named 0 ∷ []) (transmit_send p (learnt r p receive s))
      ≡ some (complement r, learnt r p receive s, drop_refs p send_right 1 ∷ [])
unfolding transmit_send type_at primitives
transmit_send-mapped r p s n = ground (
  arith,
  n.0,
  n.1,
  lookup-inserted p r s.remote_ports_by_local,
  lookup-inserted p receive s.local_port_type,
)

transmit_send-own :
    (r : ℕ) (c : Session)
    → IsName r
    → OrdMap.lookup r c.remote_ports_by_local ≡ none
    → run_with (named 0 ∷ []) (transmit_send r c)
      ≡ some (r, noted r send c, request_notification r dead_name c.notification_port ∷ [])
unfolding transmit_send request_dead_name set_type primitives
transmit_send-own r c n e = ground (arith, n.0, n.1, e)

translate_flagged-own_send :
    (r : ℕ) (c : Session)
    → run_with (named 0 ∷ []) (translate_flagged r move_send (noted r send c))
      ≡ some (r, noted r send c, insert_right r Disposition.copy_send ∷ [])
unfolding translate_flagged type_ref primitives
translate_flagged-own_send r c = ground (arith, lookup-inserted r send c.local_port_type)

-- A send right that crosses the network and comes back is the right that was sent. Session `c`
-- transmits the right `r`, which it does not know from the other side; session `s` has no port for
-- `r`, makes the port `p` that the kernel allocates and passes a send right for it on; when that
-- right comes back to `s` to be transmitted, it goes out as the complement of `r`, and `c` translates
-- the complement to `r`. On the way `c` notes that it holds a send right for `r`, `s` enters the
-- mapping, and the send right that came back to `s` goes.
pub send_right-round_trip :
    (r p : ℕ) (c s : Session)
    → IsName r
    → IsName p
    → OrdMap.lookup r c.remote_ports_by_local ≡ none
    → OrdMap.lookup r s.local_ports_by_remote ≡ none
    → (run_with (named 0 ∷ []) (transmit_send r c)
        ≡ some (r, noted r send c, request_notification r dead_name c.notification_port ∷ []))
      × (run_with (named p ∷ named 0 ∷ named 0 ∷ named 0 ∷ []) (translate_port r move_send s)
          ≡ some (p, learnt r p receive s, new_send_calls p s.portset))
      × (run_with (named 0 ∷ []) (transmit_send p (learnt r p receive s))
          ≡ some (complement r, learnt r p receive s, drop_refs p send_right 1 ∷ []))
      × (run_with (named 0 ∷ []) (translate_port (complement r) move_send (noted r send c))
          ≡ some (r, noted r send c, insert_right r Disposition.copy_send ∷ []))
send_right-round_trip r p c s nr np ec es = (
  transmit_send-own r c nr ec,
  translate_port-new_send r p s nr es,
  transmit_send-mapped r p s np,
  rw (translate_port-flagged r move_send (noted r send c) nr) (translate_flagged-own_send r c),
)
