-- ===== src/Netmsg/Ports/Relays.antt =====
-- netmsg/netmsg.cc: the notifications of one side, relayed to the other.
use hurd.Base.{ℕ, ◌≡◌, ◌≢◌, refl, true, false, none, some, List, [], ◌∷◌, arith, ==_iff}
use hurd.Base.OrdMap
use hurd.Base.OrdMap.{nat_key}
use hurd.Message.Value.{TypeName, port_name}
use hurd.Netmsg.Session.{
  send, receive, Session, Header, Item, request_notification, drop_refs, transmit, primitives,
  complement, type_at, run_with, mach_port_control, dead_name, dead_name_right, send_right,
  send_once_right, receive_right,
}
use hurd.Netmsg.Translate.{msgid_no_senders, msgid_dead_name, translate_flagged, translate_port}
use hurd.Netmsg.Deliver.{
  forget_mapping, forget_type, remote_no_senders, sole_port_name, remote_dead_name, is_send_or_once,
  translate_destination, translate_header, translate_ports, translate_message, tcp_buffer_handler,
}
use hurd.Netmsg.Transmit.{
  transmit_names, transmit_elements, translate_for_transmission, local_notification,
  port_destination, local_destination, erase_mapping, local_no_senders, ipc_buffer_handler,
}
use hurd.Netmsg.Ports.RoundTrip.{named, IsName}

abbrev pub name_item : ℕ → List Item
name_item port = record { name = port_name; elements = port ∷ [] } ∷ []

-- The session without a port, and without its mapping to a remote port.
abbrev pub without : ℕ → ℕ → Session → Session
without r p s = record s {
  local_ports_by_remote = OrdMap.erase r s.local_ports_by_remote;
  remote_ports_by_local = OrdMap.erase p s.remote_ports_by_local;
  local_port_type = OrdMap.erase p s.local_port_type;
}

abbrev pub untyped : ℕ → Session → Session
untyped port c = record c { local_port_type = OrdMap.erase port c.local_port_type }

ipc_buffer_handler-dead_name :
    (r p : ℕ) (h : Header) (s : Session)
    → IsName p
    → h.msgh_local_port ≡ s.notification_port
    → h.msgh_id ≡ msgid_dead_name
    → s.control ≢ s.notification_port
    → OrdMap.lookup p s.remote_ports_by_local ≡ some r
    → OrdMap.lookup p s.local_port_type ≡ some send
    → run_with (named 0 ∷ named 0 ∷ []) (ipc_buffer_handler h (name_item p) s)
      ≡ some (
        tt,
        without r p s,
        drop_refs p dead_name_right 2
            ∷ transmit (record h { msgh_local_port = mach_port_control }) (name_item (complement r))
            ∷ [],
      )
unfolding ipc_buffer_handler local_destination local_notification sole_port_name forget_type
    translate_for_transmission transmit_elements transmit_names forget_mapping primitives
ipc_buffer_handler-dead_name r p h s n el ei ec er et =
    ground (arith, n.0, el, ei, ec, er, et, ==_iff s.notification_port s.control)

tcp_buffer_handler-dead_name :
    (r : ℕ) (h : Header) (c : Session)
    → IsName r
    → is_send_or_once h.local_type ≡ true
    → h.msgh_local_port ≡ mach_port_control
    → h.msgh_id ≡ msgid_dead_name
    → OrdMap.lookup r c.local_port_type ≡ some receive
    → OrdMap.lookup r c.remote_ports_by_local ≡ none
    → run_with (named 0 ∷ []) (tcp_buffer_handler h (name_item (complement r)) c)
      ≡ some (tt, untyped r c, drop_refs r receive_right 1 ∷ [])
unfolding tcp_buffer_handler translate_message translate_ports translate_port translate_flagged
    translate_header translate_destination remote_dead_name sole_port_name forget_type
    forget_mapping primitives
tcp_buffer_handler-dead_name r h c n eb el ei et er = ground (arith, n.0, n.1, eb, el, ei, et, er)

-- The death of a port, relayed. Session `s` is notified, at its notification port, that the port `p`
-- is dead, for which it holds a send right and which stands for the receive right `r` of session `c`:
-- it drops its two references to the dead name, forgets the port and its mapping, and transmits the
-- notification for the control port with the name of `p` replaced by the complement of `r`. Session
-- `c`, which holds the receive right `r` as its own, drops it, forgets it, and delivers nothing.
pub dead_name-relayed :
    (r p : ℕ) (h : Header) (s c : Session)
    → IsName r
    → IsName p
    → is_send_or_once h.local_type ≡ true
    → h.msgh_local_port ≡ s.notification_port
    → h.msgh_id ≡ msgid_dead_name
    → s.control ≢ s.notification_port
    → OrdMap.lookup p s.remote_ports_by_local ≡ some r
    → OrdMap.lookup p s.local_port_type ≡ some send
    → OrdMap.lookup r c.local_port_type ≡ some receive
    → OrdMap.lookup r c.remote_ports_by_local ≡ none
    → (run_with (named 0 ∷ named 0 ∷ []) (ipc_buffer_handler h (name_item p) s)
        ≡ some (
          tt,
          without r p s,
          drop_refs p dead_name_right 2
              ∷ transmit
                  (record h { msgh_local_port = mach_port_control })
                  (name_item (complement r))
              ∷ [],
        ))
      × (run_with (named 0 ∷ []) (
            tcp_buffer_handler
              (record h { msgh_local_port = mach_port_control })
              (name_item (complement r))
              c)
          ≡ some (tt, untyped r c, drop_refs r receive_right 1 ∷ []))
dead_name-relayed r p h s c nr np eb el ei ec er et cr cm = (
  ipc_buffer_handler-dead_name r p h s np el ei ec er et,
  tcp_buffer_handler-dead_name r (record h { msgh_local_port = mach_port_control }) c nr eb refl ei
      cr cm,
)

-- A NO SENDERS notification carries one integer.
abbrev pub count_item : ℕ → List Item
count_item n = record { name = TypeName.integer_32; elements = n ∷ [] } ∷ []

ipc_buffer_handler-no_senders :
    (r p n : ℕ) (h : Header) (s : Session)
    → h.msgh_local_port ≡ p
    → h.msgh_id ≡ msgid_no_senders
    → p ≢ s.control
    → p ≢ s.notification_port
    → OrdMap.lookup p s.remote_ports_by_local ≡ some r
    → OrdMap.lookup p s.local_port_type ≡ some receive
    → run_with (named 0 ∷ named 0 ∷ []) (ipc_buffer_handler h (count_item n) s)
      ≡ some (
        tt,
        without r p s,
        drop_refs p receive_right 1
            ∷ transmit (record h { msgh_local_port = r }) (count_item n)
            ∷ [],
      )
unfolding ipc_buffer_handler local_destination port_destination type_at forget_type local_no_senders
    erase_mapping translate_for_transmission transmit_elements primitives
ipc_buffer_handler-no_senders r p n h s el ei ec en er et =
    ground (arith, el, ei, er, et, ==_iff p s.control, ==_iff p s.notification_port, ec, en)

tcp_buffer_handler-no_senders :
    (r n x : ℕ) (h : Header) (c : Session)
    → IsName r
    → is_send_or_once h.local_type ≡ true
    → h.remote_translate ≡ false
    → h.msgh_local_port ≡ r
    → h.msgh_id ≡ msgid_no_senders
    → x ≢ 0
    → OrdMap.lookup r c.local_port_type ≡ some send
    → OrdMap.lookup r c.remote_ports_by_local ≡ none
    → run_with (named x ∷ named 0 ∷ named 0 ∷ []) (tcp_buffer_handler h (count_item n) c)
      ≡ some (
        tt,
        untyped r c,
        request_notification r dead_name 0
            ∷ drop_refs x send_once_right 1
            ∷ drop_refs r send_right 1
            ∷ [],
      )
unfolding tcp_buffer_handler translate_message translate_header translate_destination
    remote_no_senders forget_type forget_mapping primitives
tcp_buffer_handler-no_senders r n x h c nr eb et el ei ex er em =
    ground (arith, nr.0, nr.1, eb, et, el, ei, ex, er, em, ==_iff x 0)

-- The loss of a port's last sender, relayed. A NO SENDERS notification with any count reaches session
-- `s` at the port `p`, whose receive right it holds and which stands for the send right `r` of session
-- `c`: it drops `p`, forgets the port and its mapping, and transmits the notification to `r`. Session
-- `c`, which holds the send right `r` and has asked to be notified of its death, cancels that request,
-- drops the send right, forgets it, and delivers nothing.
pub no_senders-relayed :
    (r p n x : ℕ) (h : Header) (s c : Session)
    → IsName r
    → is_send_or_once h.local_type ≡ true
    → h.remote_translate ≡ false
    → h.msgh_local_port ≡ p
    → h.msgh_id ≡ msgid_no_senders
    → p ≢ s.control
    → p ≢ s.notification_port
    → OrdMap.lookup p s.remote_ports_by_local ≡ some r
    → OrdMap.lookup p s.local_port_type ≡ some receive
    → x ≢ 0
    → OrdMap.lookup r c.local_port_type ≡ some send
    → OrdMap.lookup r c.remote_ports_by_local ≡ none
    → (run_with (named 0 ∷ named 0 ∷ []) (ipc_buffer_handler h (count_item n) s)
        ≡ some (
          tt,
          without r p s,
          drop_refs p receive_right 1
              ∷ transmit (record h { msgh_local_port = r }) (count_item n)
              ∷ [],
        ))
      × (run_with
            (named x ∷ named 0 ∷ named 0 ∷ [])
            (tcp_buffer_handler (record h { msgh_local_port = r }) (count_item n) c)
          ≡ some (
            tt,
            untyped r c,
            request_notification r dead_name 0
                ∷ drop_refs x send_once_right 1
                ∷ drop_refs r send_right 1
                ∷ [],
          ))
no_senders-relayed r p n x h s c nr eb ert el ei ec en er et ex cr cm = (
  ipc_buffer_handler-no_senders r p n h s el ei ec en er et,
  tcp_buffer_handler-no_senders r n x (record h { msgh_local_port = r }) c nr eb ert refl ei ex cr
      cm,
)
