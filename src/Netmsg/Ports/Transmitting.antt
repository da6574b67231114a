-- ===== src/Netmsg/Ports/Transmitting.antt =====
-- netmsg/netmsg.cc: ipcBufferHandler keeps the tables consistent.
use hurd.Base.{ℕ, ◌≡◌, Bool, inl, inr, Option, some, List, [], ◌∷◌, arith, Option-cases}
use hurd.Base.OrdMap
use hurd.Base.OrdMap.{nat_key}
use hurd.Message.Value.{TypeName}
use hurd.Netmsg.Session.{
  Session, Header, Item, M, ◌>>=◌, ◌>>◌, pure, assert, is_receive, type_at, primitives,
}
use hurd.Netmsg.Rely.{Preserves, Preserves-bind, Preserves-modify, preserves_rules}
use hurd.Netmsg.Ports.{IsConsistent, lookup_null-erase, AreInverse-erase, AreInverse-erase_missing}
use hurd.Netmsg.Ports.Translating.{translating_rules}
use hurd.Netmsg.Ports.Delivering.{
  forgetting_rules, forgotten-IsConsistent, sole_port_name-IsConsistent,
}
use hurd.Netmsg.Transmit.{
  transmit_send, transmit_receive, transmit_each, transmit_names, transmit_elements,
  translate_for_transmission, local_notification, port_destination, local_destination,
  remote_or_null, erase_mapping, local_no_senders, ipc_buffer_handler,
}

transmit_send-IsConsistent : (port : ℕ) → Preserves IsConsistent (transmit_send port)
unfolding transmit_send
transmit_send-IsConsistent port = search translating_rules depth 20

transmit_receive-IsConsistent : (port : ℕ) → Preserves IsConsistent (transmit_receive port)
unfolding transmit_receive
transmit_receive-IsConsistent port = search translating_rules depth 20

transmit_each-IsConsistent :
    (f : ℕ → M ℕ) (ports : List ℕ)
    → ((port : ℕ) → Preserves IsConsistent (f port))
    → Preserves IsConsistent (transmit_each f ports)
unfolding transmit_each
transmit_each-IsConsistent f [] h = search preserves_rules
transmit_each-IsConsistent f (port ∷ ports) h =
    let rest : Preserves IsConsistent (transmit_each f ports) =
      transmit_each-IsConsistent f ports h in
    search preserves_rules

transmit_names-IsConsistent :
    (names : Bool) (ports : List ℕ) → Preserves IsConsistent (transmit_names names ports)
unfolding transmit_names
transmit_names-IsConsistent names ports = search preserves_rules

transmit_elements-IsConsistent :
    (names : Bool) (type : TypeName) (ports : List ℕ)
    → Preserves IsConsistent (transmit_elements names type ports)
unfolding transmit_elements
transmit_elements-IsConsistent names TypeName.move_send ports =
    transmit_each-IsConsistent transmit_send ports transmit_send-IsConsistent
transmit_elements-IsConsistent names TypeName.move_receive ports =
    Preserves-bind (transmit_each-IsConsistent transmit_receive ports transmit_receive-IsConsistent)
      (transmit_names-IsConsistent names)
transmit_elements-IsConsistent names TypeName.port_name ports =
    transmit_names-IsConsistent names ports
transmit_elements-IsConsistent names _ ports = search preserves_rules

translate_for_transmission-IsConsistent :
    (names : Bool) (items : List Item)
    → Preserves IsConsistent (translate_for_transmission names items)
unfolding translate_for_transmission
translate_for_transmission-IsConsistent names [] = search preserves_rules
translate_for_transmission-IsConsistent names (item ∷ items) =
    let rest : Preserves IsConsistent (translate_for_transmission names items) =
      translate_for_transmission-IsConsistent names items in
    search (preserves_rules, transmit_elements-IsConsistent)

local_notification-IsConsistent :
    (h : Header) (items : List Item) → Preserves IsConsistent (local_notification h items)
unfolding local_notification
local_notification-IsConsistent h items =
    search (forgetting_rules, sole_port_name-IsConsistent) depth 20

send_once_used-IsConsistent :
    (port remote : ℕ) (s : Session)
    → IsConsistent s
    → OrdMap.lookup port s.send_once_ports_by_local ≡ some remote
    → IsConsistent (record s {
      send_once_ports_by_local = OrdMap.erase port s.send_once_ports_by_local;
      send_once_ports_by_remote = OrdMap.erase remote s.send_once_ports_by_remote;
    })
send_once_used-IsConsistent port remote s h e = record {
  mappings = h.mappings;
  send_once =
      AreInverse-erase s.send_once_ports_by_remote s.send_once_ports_by_local remote port
        h.send_once e;
  no_null = (
    h.no_null.0,
    h.no_null.1,
    lookup_null-erase remote s.send_once_ports_by_remote h.no_null.2,
    lookup_null-erase port s.send_once_ports_by_local h.no_null.3,
  );
}

receiver-IsConsistent :
    (port : ℕ) (h : Option Header)
    → Preserves IsConsistent (do type ← type_at port; assert (is_receive type); pure h)
receiver-IsConsistent port h = search translating_rules depth 12

port_destination-IsConsistent : (h : Header) → Preserves IsConsistent (port_destination h)
unfolding port_destination primitives
port_destination-IsConsistent h = record {
  at = λ s c. elim (Option-cases (OrdMap.lookup h.msgh_local_port s.remote_ports_by_local)) [
    | inl e ↦
        rw e (elim (Option-cases (OrdMap.lookup h.msgh_local_port s.send_once_ports_by_local)) [
          | inl n ↦ rw n (ground (arith, c))
          | inr (remote, n) ↦
              rw n (λ r doc. send_once_used-IsConsistent h.msgh_local_port remote s c n)
        ])
    | inr (remote, e) ↦ rw e ((receiver-IsConsistent h.msgh_local_port _).at s c)
  ];
}

local_destination-IsConsistent :
    (h : Header) (items : List Item) → Preserves IsConsistent (local_destination h items)
unfolding local_destination
local_destination-IsConsistent h items =
    search (preserves_rules, local_notification-IsConsistent, port_destination-IsConsistent) depth
      20

erase_mapping-IsConsistent : (port : ℕ) → Preserves IsConsistent (erase_mapping port)
unfolding erase_mapping
erase_mapping-IsConsistent port = Preserves-modify _ (λ s h.
    elim (Option-cases (OrdMap.lookup port s.remote_ports_by_local)) [
      | inl e ↦
          rw (e, remote_or_null)
            (record {
              mappings =
                  AreInverse-erase_missing s.local_ports_by_remote s.remote_ports_by_local 0 port
                    h.mappings h.no_null.0 e;
              send_once = h.send_once;
              no_null = (
                lookup_null-erase 0 s.local_ports_by_remote h.no_null.0,
                lookup_null-erase port s.remote_ports_by_local h.no_null.1,
                h.no_null.2,
                h.no_null.3,
              );
            })
      | inr (remote, e) ↦ rw (e, remote_or_null) (forgotten-IsConsistent port remote s h e)
    ])

local_no_senders-IsConsistent : (port : ℕ) → Preserves IsConsistent (local_no_senders port)
unfolding local_no_senders
local_no_senders-IsConsistent port = search (forgetting_rules, erase_mapping-IsConsistent) depth 20

-- A message from IPC, of whatever header and items, is handled with the tables of the session left
-- consistent.
pub ipc_buffer_handler-IsConsistent :
    (header : Header) (items : List Item) → Preserves IsConsistent (ipc_buffer_handler header items)
unfolding ipc_buffer_handler
ipc_buffer_handler-IsConsistent header items =
    search
      (
        forgetting_rules, local_destination-IsConsistent, local_no_senders-IsConsistent,
        translate_for_transmission-IsConsistent,
      )
      depth 20
