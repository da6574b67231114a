-- ===== src/Netmsg/Ports/Translating.antt =====
-- netmsg/netmsg.cc: translatePort2 keeps the tables consistent.
use hurd.Base.{ℕ, ◌≡◌, ◌≢◌, inl, inr, none, arith, ◌==◌, Bool-cases, Option-cases}
use hurd.Base.OrdMap
use hurd.Base.OrdMap.{nat_key}
use hurd.Message.Value.{TypeName}
use hurd.Netmsg.Session.{
  Session, PortType, primitives, type_at, set_type, type_ref, assert, pure, do_if◌then◌else◌, ◌>>=◌,
  ◌>>◌, is_null_or_dead, is_flagged, complement,
}
use hurd.Netmsg.Rely.{
  Keeps, Keeps-assert, Preserves, Preserves-do_if, Preserves-found, preserves_rules,
  Preserves-modify, Preserves-answered,
}
use hurd.Netmsg.Ports.{IsConsistent, lookup_null-insert, AreInverse-insert}
use hurd.Netmsg.Translate.{
  request_dead_name, keep_send_right, translate_flagged, remember, new_receive_right,
  new_send_right, translate_receive, translate_send, translate_send_once, translate_name,
  translate_remote, translate_port,
}

pub set_type-IsConsistent :
    (port : ℕ) (type : PortType) → Preserves IsConsistent (set_type port type)
unfolding set_type
set_type-IsConsistent port type =
    Preserves-modify _
      (λ s h. record { mappings = h.mappings; send_once = h.send_once; no_null = h.no_null })

pub type_at-IsConsistent : (port : ℕ) → Preserves IsConsistent (type_at port)
unfolding type_at
type_at-IsConsistent port = search preserves_rules

pub type_ref-IsConsistent : (port : ℕ) → Preserves IsConsistent (type_ref port)
unfolding type_ref
type_ref-IsConsistent port = search (preserves_rules, set_type-IsConsistent)

pub request_dead_name-IsConsistent : (port : ℕ) → Preserves IsConsistent (request_dead_name port)
unfolding request_dead_name
request_dead_name-IsConsistent port = search preserves_rules

pub keep_send_right-IsConsistent : (port : ℕ) → Preserves IsConsistent (keep_send_right port)
unfolding keep_send_right
keep_send_right-IsConsistent port =
    search (preserves_rules, set_type-IsConsistent, request_dead_name-IsConsistent) depth 20

pub ruleset translating_rules = (
  preserves_rules, set_type-IsConsistent, type_at-IsConsistent, type_ref-IsConsistent,
  request_dead_name-IsConsistent, keep_send_right-IsConsistent,
)

translate_flagged-IsConsistent :
    (port : ℕ) (type : TypeName) → Preserves IsConsistent (translate_flagged port type)
unfolding translate_flagged
translate_flagged-IsConsistent port TypeName.move_send = search translating_rules depth 12
translate_flagged-IsConsistent port TypeName.move_receive = search translating_rules depth 12
translate_flagged-IsConsistent port _ = search translating_rules depth 12

remembered-IsConsistent :
    (port newport : ℕ) (type : PortType) (s : Session)
    → IsConsistent s
    → port ≢ 0
    → newport ≢ 0
    → OrdMap.lookup port s.local_ports_by_remote ≡ none
    → OrdMap.lookup newport s.remote_ports_by_local ≡ none
    → IsConsistent (record s {
      local_ports_by_remote = OrdMap.insert port newport s.local_ports_by_remote;
      remote_ports_by_local = OrdMap.insert newport port s.remote_ports_by_local;
      local_port_type = OrdMap.insert newport type s.local_port_type;
    })
remembered-IsConsistent port newport type s h e ne nl nr = record {
  mappings =
      AreInverse-insert s.local_ports_by_remote s.remote_ports_by_local port newport h.mappings nl
        nr;
  send_once = h.send_once;
  no_null = (
    lookup_null-insert port newport s.local_ports_by_remote e h.no_null.0,
    lookup_null-insert newport port s.remote_ports_by_local ne h.no_null.1,
    h.no_null.2,
    h.no_null.3,
  );
}

watch-IsConsistent :
    (port : ℕ)
    → Preserves IsConsistent (do old ← request_dead_name port; assert (old.port == 0); pure port)
watch-IsConsistent port = search translating_rules depth 12

new_receive_right-IsConsistent :
    (port : ℕ) (s : Session)
    → IsConsistent s
    → port ≢ 0
    → OrdMap.lookup port s.local_ports_by_remote ≡ none
    → Keeps (λ a t. IsConsistent t) (new_receive_right port s)
unfolding new_receive_right remember primitives
new_receive_right-IsConsistent port s h e n = λ r doc r1 doc1.
    (watch-IsConsistent r.port).at _
      (remembered-IsConsistent port r.port PortType.send s h e doc.0 n doc.1)

new_send_right-IsConsistent :
    (port : ℕ) (s : Session)
    → IsConsistent s
    → port ≢ 0
    → OrdMap.lookup port s.local_ports_by_remote ≡ none
    → Keeps (λ a t. IsConsistent t) (new_send_right port s)
unfolding new_send_right remember primitives
new_send_right-IsConsistent port s h e n = λ r doc r1 doc1 old doc2.
    Keeps-assert _ (old.port == 0) _ s
      (λ r3 doc3. remembered-IsConsistent port r.port PortType.receive s h e doc.0 n doc.1)

translate_receive-IsConsistent :
    (port : ℕ) → port ≢ 0 → Preserves IsConsistent (translate_receive port)
unfolding translate_receive
translate_receive-IsConsistent port e =
    Preserves-found {P = IsConsistent} (λ s. OrdMap.lookup port s.local_ports_by_remote)
      (new_receive_right port) _ (λ s h. new_receive_right-IsConsistent port s h e)
      (λ p. search translating_rules depth 12)

translate_send-IsConsistent : (port : ℕ) → port ≢ 0 → Preserves IsConsistent (translate_send port)
unfolding translate_send
translate_send-IsConsistent port e =
    Preserves-found {P = IsConsistent} (λ s. OrdMap.lookup port s.local_ports_by_remote)
      (new_send_right port) _ (λ s h. new_send_right-IsConsistent port s h e)
      (λ p. search translating_rules depth 12)

translate_send_once-IsConsistent :
    (port : ℕ) → port ≢ 0 → Preserves IsConsistent (translate_send_once port)
unfolding translate_send_once primitives
translate_send_once-IsConsistent port e = record {
  at = λ s h. elim (Option-cases (OrdMap.lookup port s.send_once_ports_by_remote)) [
    | inl n ↦ rw n (λ r doc sendonce doc1. Keeps-assert _ sendonce.is_send_once _ s (λ r2 doc2.
        record {
          mappings = h.mappings;
          send_once =
              AreInverse-insert s.send_once_ports_by_remote s.send_once_ports_by_local port r.port
                h.send_once n doc.2;
          no_null = (
            h.no_null.0,
            h.no_null.1,
            lookup_null-insert port r.port s.send_once_ports_by_remote e h.no_null.2,
            lookup_null-insert r.port port s.send_once_ports_by_local doc.0 h.no_null.3,
          );
        }))
    | inr (p, q) ↦ rw q tt
  ];
}

translate_name-IsConsistent : (port : ℕ) → Preserves IsConsistent (translate_name port)
unfolding translate_name
translate_name-IsConsistent port = search preserves_rules

translate_remote-IsConsistent :
    (port : ℕ) (type : TypeName) → port ≢ 0 → Preserves IsConsistent (translate_remote port type)
unfolding translate_remote
translate_remote-IsConsistent port TypeName.move_receive e = translate_receive-IsConsistent port e
translate_remote-IsConsistent port TypeName.copy_send e = translate_send-IsConsistent port e
translate_remote-IsConsistent port TypeName.make_send e = translate_send-IsConsistent port e
translate_remote-IsConsistent port TypeName.move_send e = translate_send-IsConsistent port e
translate_remote-IsConsistent port TypeName.make_send_once e =
    translate_send_once-IsConsistent port e
translate_remote-IsConsistent port TypeName.move_send_once e =
    translate_send_once-IsConsistent port e
translate_remote-IsConsistent port TypeName.port_name e = translate_name-IsConsistent port
translate_remote-IsConsistent port _ e = search preserves_rules

-- Translating a port of any type keeps the tables of the session consistent, on every answer that
-- mach_port_allocate is documented to give.
pub translate_port-IsConsistent :
    (port : ℕ) (type : TypeName) → Preserves IsConsistent (translate_port port type)
unfolding translate_port do_if◌then◌else◌ pure
translate_port-IsConsistent port type = elim (Bool-cases (port == 0)) [
  | inl e ↦ rw e (search preserves_rules)
  | inr e ↦ Preserves-do_if (is_null_or_dead port) (search preserves_rules) (
      Preserves-do_if (is_flagged port) (translate_flagged-IsConsistent (complement port) type)
        (translate_remote-IsConsistent port type (ground (arith, e))))
]
