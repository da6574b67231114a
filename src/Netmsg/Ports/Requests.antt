-- ===== src/Netmsg/Ports/Requests.antt =====
-- netmsg/netmsg.cc: a request from a program on one side to a server on the other.
use hurd.Base.{ℕ, ◌≡◌, ◌≢◌, refl, ap, true, false, none, some, [], ◌∷◌, arith, ◌==◌, ==_iff}
use hurd.Base.OrdMap
use hurd.Base.OrdMap.{nat_key}
use hurd.Message.Value.{move_send, move_send_once, copy_send}
use hurd.Netmsg.Session.{
  send, receive, Session, Header, drop_refs, transmit, primitives, type_at, run_with, allocate,
  deliver, extract_send_once, move_member, receive_right,
}
use hurd.Netmsg.Translate.{
  msgid_no_senders, msgid_dead_name, translate_remote, translate_send_once, translate_port,
}
use hurd.Netmsg.Deliver.{
  is_send_or_once, translate_destination, translate_header, translate_message, tcp_buffer_handler,
  swap_header, translate_reply,
}
use hurd.Netmsg.Transmit.{
  transmit_elements, translate_for_transmission, port_destination, local_destination,
  ipc_buffer_handler,
}
use hurd.Netmsg.Ports.RoundTrip.{named, IsName, lookup-inserted}
use hurd.Netmsg.Ports.SendOnce.{extracted, once_learnt, once_used}
use hurd.Netmsg.Ports.Relays.{count_item}

-- The header of a request that goes out to the remote port `r`, as it is delivered there, with the
-- reply port `reply`.
abbrev pub delivered : ℕ → ℕ → Header → Header
delivered r reply h = record h {
  local_type = h.remote_type;
  remote_type = some copy_send;
  remote_translate = false;
  msgh_local_port = reply;
  msgh_remote_port = r;
}

ipc_buffer_handler-request :
    (r n : ℕ) (h : Header) (s : Session)
    → h.msgh_id ≢ msgid_no_senders
    → (h.msgh_local_port == s.control) ≡ false
    → (h.msgh_local_port == s.notification_port) ≡ false
    → OrdMap.lookup h.msgh_local_port s.remote_ports_by_local ≡ some r
    → OrdMap.lookup h.msgh_local_port s.local_port_type ≡ some receive
    → run_with (named 0 ∷ []) (ipc_buffer_handler h (count_item n) s)
      ≡ some (tt, s, transmit (record h { msgh_local_port = r }) (count_item n) ∷ [])
unfolding ipc_buffer_handler local_destination port_destination type_at translate_for_transmission
    transmit_elements primitives
ipc_buffer_handler-request r n h s ei ec en er et =
    ground (arith, ei, ec, en, er, et, ==_iff h.msgh_id msgid_no_senders)

tcp_buffer_handler-request :
    (r q x n : ℕ) (h : Header) (c : Session)
    → IsName h.msgh_remote_port
    → IsName r
    → is_send_or_once h.local_type ≡ true
    → h.remote_type ≡ some move_send_once
    → h.remote_translate ≡ false
    → h.msgh_id ≢ msgid_no_senders
    → h.msgh_id ≢ msgid_dead_name
    → h.msgh_local_port ≡ r
    → OrdMap.lookup r c.local_port_type ≡ some send
    → OrdMap.lookup h.msgh_remote_port c.send_once_ports_by_remote ≡ none
    → run_with
        (named q ∷ extracted x ∷ named 0 ∷ named 0 ∷ [])
        (tcp_buffer_handler h (count_item n) c)
      ≡ some (
        tt,
        once_learnt h.msgh_remote_port q c,
        allocate
            ∷ extract_send_once q
            ∷ move_member q c.portset
            ∷ deliver (delivered r x h) (count_item n)
            ∷ [],
      )
unfolding tcp_buffer_handler translate_message translate_header translate_destination
    translate_reply translate_port translate_remote translate_send_once swap_header primitives
tcp_buffer_handler-request r q x n h c nm nr eb eo et ei ed el er em = ground (
  arith,
  nm.0,
  nm.1,
  nr.0,
  nr.1,
  eb,
  eo,
  et,
  ei,
  ed,
  el,
  er,
  em,
  ==_iff h.msgh_id msgid_no_senders,
  ==_iff h.msgh_id msgid_dead_name,
)

ipc_buffer_handler-reply :
    (m q n : ℕ) (h : Header) (c : Session)
    → h.msgh_id ≢ msgid_no_senders
    → h.msgh_local_port ≡ q
    → (q == c.control) ≡ false
    → (q == c.notification_port) ≡ false
    → OrdMap.lookup q c.remote_ports_by_local ≡ none
    → run_with (named 0 ∷ named 0 ∷ []) (ipc_buffer_handler h (count_item n) (once_learnt m q c))
      ≡ some (
        tt,
        once_used m q (once_learnt m q c),
        drop_refs q receive_right 1
            ∷ transmit (record h { msgh_local_port = m }) (count_item n)
            ∷ [],
      )
unfolding ipc_buffer_handler local_destination port_destination translate_for_transmission
    transmit_elements primitives
ipc_buffer_handler-reply m q n h c ei el ec en em = ground (
  arith,
  ei,
  el,
  ec,
  en,
  em,
  lookup-inserted q m c.send_once_ports_by_local,
  ==_iff h.msgh_id msgid_no_senders,
)

-- The header of a reply to the send-once right `m`, as it is delivered.
abbrev pub answered : ℕ → Header → Header
answered m h = record h {
  local_type = none;
  remote_type = some move_send_once;
  remote_translate = false;
  msgh_local_port = 0;
  msgh_remote_port = m;
}

tcp_buffer_handler-reply :
    (m n : ℕ) (h : Header) (s : Session)
    → IsName m
    → h.local_type ≡ some move_send_once
    → h.remote_type ≡ none
    → h.msgh_remote_port ≡ 0
    → h.remote_translate ≡ false
    → h.msgh_id ≢ msgid_no_senders
    → h.msgh_id ≢ msgid_dead_name
    → h.msgh_local_port ≡ m
    → OrdMap.lookup m s.local_port_type ≡ none
    → run_with (named 0 ∷ []) (tcp_buffer_handler h (count_item n) s)
      ≡ some (tt, s, deliver (answered m h) (count_item n) ∷ [])
unfolding tcp_buffer_handler translate_message translate_header translate_destination
    translate_reply swap_header primitives
tcp_buffer_handler-reply m n h s nm eb eo ez et ei ed el em = ground (
  arith,
  nm.0,
  nm.1,
  eb,
  eo,
  ez,
  et,
  ei,
  ed,
  el,
  em,
  ==_iff h.msgh_id msgid_no_senders,
  ==_iff h.msgh_id msgid_dead_name,
)

-- A request with one integer: it comes from IPC to a port of session `s` that stands for the port `r`
-- of session `c`, and asks for a reply to a send-once right.
pub record IsRequest (r : ℕ) (h : Header) (s : Session) : Type 0 where
  pub ordinary : (h.msgh_id ≢ msgid_no_senders) × (h.msgh_id ≢ msgid_dead_name)
  pub to_send_right : h.local_type ≡ some move_send
  pub asks_reply : h.remote_type ≡ some move_send_once
  pub not_marked : h.remote_translate ≡ false
  pub reply_port : IsName h.msgh_remote_port
  pub not_control : (h.msgh_local_port == s.control) ≡ false
  pub not_notification : (h.msgh_local_port == s.notification_port) ≡ false
  pub mapped : OrdMap.lookup h.msgh_local_port s.remote_ports_by_local ≡ some r
  pub held : OrdMap.lookup h.msgh_local_port s.local_port_type ≡ some receive

-- A reply to the port `q` that asks for none.
pub record IsReply (q : ℕ) (h : Header) : Type 0 where
  pub ordinary : (h.msgh_id ≢ msgid_no_senders) × (h.msgh_id ≢ msgid_dead_name)
  pub to_send_once : h.local_type ≡ some move_send_once
  pub asks_none : (h.remote_type ≡ none) × (h.msgh_remote_port ≡ 0)
  pub not_marked : h.remote_translate ≡ false
  pub to_port : h.msgh_local_port ≡ q

-- A remote call, there and back. A request with one integer that arrives at a port of session `s`
-- that stands for `r` is transmitted to `r` with the rest unchanged; session `c`, which holds a send
-- right for `r`, delivers it to `r` with a new send-once right `x` as reply port, extracted from the
-- port `q` that the kernel allocates. The reply with one integer that arrives at `q` is transmitted to
-- the send-once right that the request named, `q` goes, and `s`, which has no type for that right,
-- delivers the reply to it and keeps its tables. The port `q` is not the control or the notification
-- port of `c`, nor mapped there, and `c` has no entry for the reply port.
pub rpc-relayed :
    (r q x n k : ℕ) (h h' : Header) (s c : Session)
    → IsRequest r h s
    → IsReply q h'
    → IsName r
    → OrdMap.lookup r c.local_port_type ≡ some send
    → OrdMap.lookup h.msgh_remote_port c.send_once_ports_by_remote ≡ none
    → (q == c.control) ≡ false
    → (q == c.notification_port) ≡ false
    → OrdMap.lookup q c.remote_ports_by_local ≡ none
    → OrdMap.lookup h.msgh_remote_port s.local_port_type ≡ none
    → (run_with (named 0 ∷ []) (ipc_buffer_handler h (count_item n) s)
        ≡ some (tt, s, transmit (record h { msgh_local_port = r }) (count_item n) ∷ []))
      × (run_with
            (named q ∷ extracted x ∷ named 0 ∷ named 0 ∷ [])
            (tcp_buffer_handler (record h { msgh_local_port = r }) (count_item n) c)
          ≡ some (
            tt,
            once_learnt h.msgh_remote_port q c,
            allocate
                ∷ extract_send_once q
                ∷ move_member q c.portset
                ∷ deliver (delivered r x h) (count_item n)
                ∷ [],
          ))
      × (run_with
            (named 0 ∷ named 0 ∷ [])
            (ipc_buffer_handler h' (count_item k) (once_learnt h.msgh_remote_port q c))
          ≡ some (
            tt,
            once_used h.msgh_remote_port q (once_learnt h.msgh_remote_port q c),
            drop_refs q receive_right 1
                ∷ transmit (record h' { msgh_local_port = h.msgh_remote_port }) (count_item k)
                ∷ [],
          ))
      × (run_with (named 0 ∷ []) (
            tcp_buffer_handler
              (record h' { msgh_local_port = h.msgh_remote_port })
              (count_item k)
              s)
          ≡ some (tt, s, deliver (answered h.msgh_remote_port h') (count_item k) ∷ []))
rpc-relayed r q x n k h h' s c req rep nr er em ec en eq et = (
  ipc_buffer_handler-request r n h s req.ordinary.0 req.not_control req.not_notification req.mapped
      req.held,
  tcp_buffer_handler-request r q x n (record h { msgh_local_port = r }) c req.reply_port nr
      (ap is_send_or_once req.to_send_right) req.asks_reply req.not_marked req.ordinary.0
      req.ordinary.1 refl er em,
  ipc_buffer_handler-reply h.msgh_remote_port q k h' c rep.ordinary.0 rep.to_port ec en eq,
  tcp_buffer_handler-reply h.msgh_remote_port k (record h' { msgh_local_port = h.msgh_remote_port })
      s req.reply_port rep.to_send_once rep.asks_none.0 rep.asks_none.1 rep.not_marked
      rep.ordinary.0 rep.ordinary.1 refl et,
)
