-- ===== src/Netmsg/Ports/Delivering.antt =====
-- netmsg/netmsg.cc: tcpBufferHandler keeps the tables consistent.
use hurd.Base.{ℕ, ◌≡◌, Bool, inl, inr, Option, none, some, List, [], ◌∷◌, arith, Option-cases}
use hurd.Base.OrdMap
use hurd.Base.OrdMap.{nat_key}
use hurd.Message.Value.{TypeName}
use hurd.Netmsg.Session.{Session, Header, Item, primitives}
use hurd.Netmsg.Rely.{Preserves, Preserves-modify, preserves_rules}
use hurd.Netmsg.Ports.{lookup_null-erase, IsConsistent, AreInverse-erase}
use hurd.Netmsg.Ports.Translating.{translating_rules, translate_port-IsConsistent}
use hurd.Netmsg.Deliver.{
  swap_header, forget_mapping, forget_type, remote_no_senders, sole_port_name, remote_dead_name,
  translate_destination, translate_reply, translate_header, translate_ports, translate_message,
  tcp_buffer_handler,
}

pub forget_type-IsConsistent : (port : ℕ) → Preserves IsConsistent (forget_type port)
unfolding forget_type
forget_type-IsConsistent port =
    Preserves-modify _
      (λ s h. record { mappings = h.mappings; send_once = h.send_once; no_null = h.no_null })

pub forgotten-IsConsistent :
    (port remote : ℕ) (s : Session)
    → IsConsistent s
    → OrdMap.lookup port s.remote_ports_by_local ≡ some remote
    → IsConsistent (record s {
      local_ports_by_remote = OrdMap.erase remote s.local_ports_by_remote;
      remote_ports_by_local = OrdMap.erase port s.remote_ports_by_local;
    })
forgotten-IsConsistent port remote s h e = record {
  mappings =
      AreInverse-erase s.local_ports_by_remote s.remote_ports_by_local remote port h.mappings e;
  send_once = h.send_once;
  no_null = (
    lookup_null-erase remote s.local_ports_by_remote h.no_null.0,
    lookup_null-erase port s.remote_ports_by_local h.no_null.1,
    h.no_null.2,
    h.no_null.3,
  );
}

pub forget_mapping-IsConsistent : (port : ℕ) → Preserves IsConsistent (forget_mapping port)
unfolding forget_mapping primitives
forget_mapping-IsConsistent port = record {
  at = λ s h. elim (Option-cases (OrdMap.lookup port s.remote_ports_by_local)) [
    | inl e ↦ rw e h
    | inr (remote, e) ↦ rw e (forgotten-IsConsistent port remote s h e)
  ];
}

pub ruleset forgetting_rules =
    (translating_rules, forget_type-IsConsistent, forget_mapping-IsConsistent)

remote_no_senders-IsConsistent : (port : ℕ) → Preserves IsConsistent (remote_no_senders port)
unfolding remote_no_senders
remote_no_senders-IsConsistent port = search forgetting_rules depth 20

pub sole_port_name-IsConsistent :
    (items : List Item) → Preserves IsConsistent (sole_port_name items)
unfolding sole_port_name primitives
sole_port_name-IsConsistent [] = record { at = λ s h. tt }
sole_port_name-IsConsistent (item ∷ items) = ground arith

remote_dead_name-IsConsistent :
    (items : List Item) → Preserves IsConsistent (remote_dead_name items)
unfolding remote_dead_name
remote_dead_name-IsConsistent items =
    search (forgetting_rules, sole_port_name-IsConsistent) depth 20

translate_destination-IsConsistent : (h : Header) → Preserves IsConsistent (translate_destination h)
unfolding translate_destination
translate_destination-IsConsistent h = search translating_rules depth 20

translate_reply-IsConsistent :
    (h : Header) (type : Option TypeName) → Preserves IsConsistent (translate_reply h type)
unfolding translate_reply
translate_reply-IsConsistent h none = search preserves_rules
translate_reply-IsConsistent h (some TypeName.move_send) =
    search (preserves_rules, translate_port-IsConsistent)
translate_reply-IsConsistent h (some TypeName.move_send_once) =
    search (preserves_rules, translate_port-IsConsistent)
translate_reply-IsConsistent h (some _) = search preserves_rules

translate_header-IsConsistent :
    (header : Header) (items : List Item) → Preserves IsConsistent (translate_header header items)
unfolding translate_header
translate_header-IsConsistent header items =
    search
      (
        preserves_rules, translate_destination-IsConsistent, remote_no_senders-IsConsistent,
        remote_dead_name-IsConsistent, translate_reply-IsConsistent,
      )
      depth 20

translate_ports-IsConsistent :
    (ports : List ℕ) (type : TypeName) → Preserves IsConsistent (translate_ports ports type)
unfolding translate_ports
translate_ports-IsConsistent [] type = search preserves_rules
translate_ports-IsConsistent (port ∷ ports) type =
    let rest : Preserves IsConsistent (translate_ports ports type) =
      translate_ports-IsConsistent ports type in
    search (preserves_rules, translate_port-IsConsistent)

translate_message-IsConsistent :
    (names : Bool) (items : List Item) → Preserves IsConsistent (translate_message names items)
unfolding translate_message
translate_message-IsConsistent names [] = search preserves_rules
translate_message-IsConsistent names (item ∷ items) =
    let rest : Preserves IsConsistent (translate_message names items) =
      translate_message-IsConsistent names items in
    search (preserves_rules, translate_ports-IsConsistent)

swap_header-IsConsistent : (h : Header) → Preserves IsConsistent (swap_header h)
unfolding swap_header
swap_header-IsConsistent h = search preserves_rules

-- A message from the network, of whatever header and items, is handled with the tables of the session
-- left consistent, whatever names mach_port_allocate answers that the tables do not use yet.
pub tcp_buffer_handler-IsConsistent :
    (header : Header) (items : List Item) → Preserves IsConsistent (tcp_buffer_handler header items)
unfolding tcp_buffer_handler
tcp_buffer_handler-IsConsistent header items =
    search
      (
        preserves_rules, translate_message-IsConsistent, translate_header-IsConsistent,
        swap_header-IsConsistent,
      )
      depth 20
