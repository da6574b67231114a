-- ===== src/Netmsg/Ports/Untyped.antt =====
-- netmsg/netmsg.cc: the identifier of a NO SENDERS notification at a port without a type.
use hurd.Base.{ℕ, ◌≡◌, ◌⊎◌, true, false, none, some, List, arith, ◌==◌, Bool-cases, inl, inr}
use hurd.Base.OrdMap
use hurd.Base.OrdMap.{nat_key}
use hurd.Netmsg.Session.{
  Session, Header, Item, Answer, Stop, Run, done, stop, kernel, out_of_range, primitives, type_at,
}
use hurd.Netmsg.Translate.{msgid_no_senders}
use hurd.Netmsg.Transmit.{port_destination, local_destination, local_no_senders, ipc_buffer_handler}

-- Whatever the kernel answers, the run ends in the stop.
abbrev pub EndsIn : {A : Type 0} → Stop → Run A → Type 0
EndsIn e (done a s) = ⊥
EndsIn e (stop e') = e' ≡ e
EndsIn e (kernel c s k) = (r : Answer) → EndsIn e (k r)

-- A message with the identifier of a NO SENDERS notification that arrives at the control port, or at
-- a port made for a send-once right, ends the program with std::out_of_range, whatever its items and
-- whatever the kernel answers. The port is not the notification port, no mapped port, and has no type.
pub ipc_buffer_handler-no_senders_untyped :
    (h : Header) (items : List Item) (s : Session)
    → h.msgh_id ≡ msgid_no_senders
    → (h.msgh_local_port == s.notification_port) ≡ false
    → OrdMap.lookup h.msgh_local_port s.remote_ports_by_local ≡ none
    → OrdMap.lookup h.msgh_local_port s.local_port_type ≡ none
    → ((h.msgh_local_port == s.control) ≡ true)
      ⊎ ((remote : ℕ) × (OrdMap.lookup h.msgh_local_port s.send_once_ports_by_local ≡ some remote))
    → EndsIn out_of_range (ipc_buffer_handler h items s)
unfolding ipc_buffer_handler local_destination port_destination type_at local_no_senders primitives
ipc_buffer_handler-no_senders_untyped h items s ei en em et (inl ec) =
    ground (arith, ei, en, em, et, ec)
ipc_buffer_handler-no_senders_untyped h items s ei en em et (inr (remote, eo)) =
    elim (Bool-cases (h.msgh_local_port == s.control)) [
      | inl ec ↦ ground (arith, ei, en, em, et, ec)
      | inr ec ↦ ground (arith, ei, en, em, et, eo, ec)
    ]
