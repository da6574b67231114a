-- ===== src/Netmsg/Ports/SendOnce.antt =====
-- netmsg/netmsg.cc: the replies to send-once rights.
use hurd.Base.{
  ℕ, ◌≡◌, ◌≢◌, Bool, true, false, none, some, List, [], ◌∷◌, All, ◌==◌, ==_iff, refl, arith,
}
use hurd.Base.OrdMap
use hurd.Base.OrdMap.{nat_key, lookup-insert, lookup-erase, nat_cmp_eq}
use hurd.Message.Value.{TypeName, port_name, move_send, move_receive, move_send_once}
use hurd.Netmsg.Session.{
  Session, Header, Item, Answer, done, drop_refs, transmit, allocate, move_member, primitives,
  run_with, receive_right, extract_send_once,
}
use hurd.Netmsg.Translate.{msgid_no_senders, translate_send_once, translate_remote, translate_port}
use hurd.Netmsg.Transmit.{
  transmit_elements, translate_for_transmission, port_destination, local_destination,
  ipc_buffer_handler,
}
use hurd.Netmsg.Ports.RoundTrip.{named, IsName, lookup-inserted}

-- The kernel's answer to mach_port_extract_right.
abbrev pub extracted : ℕ → Answer
extracted port = record { port = port; is_send_once = true }

abbrev pub once_learnt : ℕ → ℕ → Session → Session
once_learnt r p s = record s {
  send_once_ports_by_remote = OrdMap.insert r p s.send_once_ports_by_remote;
  send_once_ports_by_local = OrdMap.insert p r s.send_once_ports_by_local;
}

abbrev pub once_used : ℕ → ℕ → Session → Session
once_used r p s = record s {
  send_once_ports_by_remote = OrdMap.erase r s.send_once_ports_by_remote;
  send_once_ports_by_local = OrdMap.erase p s.send_once_ports_by_local;
}

-- An entry that is made and erased leaves no trace.
lookup-restored :
    (r p k : ℕ) (m : OrdMap.Map ℕ ℕ)
    → OrdMap.lookup r m ≡ none
    → OrdMap.lookup k (OrdMap.erase r (OrdMap.insert r p m)) ≡ OrdMap.lookup k m
lookup-restored r p k m e =
    ground (arith, lookup-erase k r (OrdMap.insert r p m), lookup-insert k r p m, nat_cmp_eq k r, e)

translate_port-send_once :
    (r p q : ℕ) (s : Session)
    → IsName r
    → OrdMap.lookup r s.send_once_ports_by_remote ≡ none
    → run_with (named p ∷ extracted q ∷ named 0 ∷ []) (translate_port r move_send_once s)
      ≡ some (q, once_learnt r p s, allocate ∷ extract_send_once p ∷ move_member p s.portset ∷ [])
unfolding translate_port translate_remote translate_send_once primitives
translate_port-send_once r p q s n e = ground (arith, n.0, n.1, e)

-- The type of an item that carries no port.
abbrev IsPlain : TypeName → Type 0
IsPlain move_send = ⊥
IsPlain move_receive = ⊥
IsPlain port_name = ⊥
IsPlain _ = Unit

transmit_elements-IsPlain :
    (names : Bool) (type : TypeName) (ports : List ℕ) (s : Session)
    → IsPlain type
    → transmit_elements names type ports s ≡ done ports s
unfolding transmit_elements primitives
transmit_elements-IsPlain names move_send ports s h = absurd h
transmit_elements-IsPlain names move_receive ports s h = absurd h
transmit_elements-IsPlain names port_name ports s h = absurd h
transmit_elements-IsPlain names _ ports s h = refl

-- No item carries a port.
abbrev pub ArePlain : List Item → Type 0
ArePlain items = All (λ item. IsPlain item.name) items

translate_for_transmission-ArePlain :
    (names : Bool) (items : List Item) (s : Session)
    → ArePlain items
    → translate_for_transmission names items s ≡ done items s
unfolding translate_for_transmission primitives
translate_for_transmission-ArePlain names [] s h = refl
translate_for_transmission-ArePlain names (item ∷ items) s h =
    rw
      (
        transmit_elements-IsPlain names item.name item.elements s h.0,
        translate_for_transmission-ArePlain names items s h.1,
      )
      refl

ipc_buffer_handler-send_once :
    (r p : ℕ) (h : Header) (items : List Item) (s : Session)
    → h.msgh_local_port ≡ p
    → h.msgh_id ≢ msgid_no_senders
    → (p == s.control) ≡ false
    → (p == s.notification_port) ≡ false
    → OrdMap.lookup p s.remote_ports_by_local ≡ none
    → ArePlain items
    → run_with (named 0 ∷ named 0 ∷ []) (ipc_buffer_handler h items (once_learnt r p s))
      ≡ some (
        tt,
        once_used r p (once_learnt r p s),
        drop_refs p receive_right 1 ∷ transmit (record h { msgh_local_port = r }) items ∷ [],
      )
unfolding ipc_buffer_handler local_destination port_destination primitives
ipc_buffer_handler-send_once r p h items s el ei ec en em plain = ground (
  arith,
  ei,
  el,
  ec,
  en,
  em,
  lookup-inserted p r s.send_once_ports_by_local,
  ==_iff h.msgh_id msgid_no_senders,
  translate_for_transmission-ArePlain false items (once_used r p (once_learnt r p s)) plain,
)

-- A message to a send-once right of the network reaches the port that the right was for. A session
-- that has no entry for the remote port `r` translates a send-once right for it to the right that is
-- extracted from a new port `p`. A message that arrives at `p`, is no NO SENDERS notification and
-- carries no ports is then handled by sending it out to `r` with its header else and its items
-- unchanged; `p` goes, and the tables of send-once rights answer every look-up as before the right
-- arrived. The port `p` is neither the control nor the notification port and none of the mapped ports,
-- and had no entry.
pub send_once-round_trip :
    (r p q : ℕ) (h : Header) (items : List Item) (s : Session)
    → IsName r
    → OrdMap.lookup r s.send_once_ports_by_remote ≡ none
    → OrdMap.lookup p s.send_once_ports_by_local ≡ none
    → OrdMap.lookup p s.remote_ports_by_local ≡ none
    → (p == s.control) ≡ false
    → (p == s.notification_port) ≡ false
    → h.msgh_local_port ≡ p
    → h.msgh_id ≢ msgid_no_senders
    → ArePlain items
    → (run_with (named p ∷ extracted q ∷ named 0 ∷ []) (translate_port r move_send_once s)
        ≡ some
            (q, once_learnt r p s, allocate ∷ extract_send_once p ∷ move_member p s.portset ∷ []))
      × (run_with (named 0 ∷ named 0 ∷ []) (ipc_buffer_handler h items (once_learnt r p s))
          ≡ some (
            tt,
            once_used r p (once_learnt r p s),
            drop_refs p receive_right 1 ∷ transmit (record h { msgh_local_port = r }) items ∷ [],
          ))
      × ((k : ℕ)
          → (OrdMap.lookup k (once_used r p (once_learnt r p s)).send_once_ports_by_remote
              ≡ OrdMap.lookup k s.send_once_ports_by_remote)
            × (OrdMap.lookup k (once_used r p (once_learnt r p s)).send_once_ports_by_local
                ≡ OrdMap.lookup k s.send_once_ports_by_local))
send_once-round_trip r p q h items s n er ep em ec en el ei plain = (
  translate_port-send_once r p q s n er,
  ipc_buffer_handler-send_once r p h items s el ei ec en em plain,
  λ k. (
    lookup-restored r p k s.send_once_ports_by_remote er,
    lookup-restored p r k s.send_once_ports_by_local ep,
  ),
)
