-- ===== src/Netmsg/Ports/Sessions.antt =====
-- netmsg/netmsg.cc: the tables of a session are consistent after any messages.
use hurd.Base.{ℕ, Bool, List, [], ◌∷◌, arith, refl}
use hurd.Netmsg.Rely.{Keeps, Preserves, Preserves-modify, Preserves-then, preserves_rules}
use hurd.Netmsg.Ports.{IsConsistent}
use hurd.Netmsg.Ports.Translating.{set_type-IsConsistent}
use hurd.Netmsg.Ports.Delivering.{tcp_buffer_handler-IsConsistent}
use hurd.Netmsg.Ports.Transmitting.{ipc_buffer_handler-IsConsistent}
use hurd.Netmsg.Serve.{
  fresh_session, set_first_port, set_portset, set_notification_port, construct, listen,
  SessionEvent, ipc_handler_starts, from_network, from_ipc, handle, handle_all, run_session,
}

set_first_port-IsConsistent : (port : ℕ) → Preserves IsConsistent (set_first_port port)
unfolding set_first_port
set_first_port-IsConsistent port =
    Preserves-modify _
      (λ s h. record { mappings = h.mappings; send_once = h.send_once; no_null = h.no_null })

set_portset-IsConsistent : (port : ℕ) → Preserves IsConsistent (set_portset port)
unfolding set_portset
set_portset-IsConsistent port =
    Preserves-modify _
      (λ s h. record { mappings = h.mappings; send_once = h.send_once; no_null = h.no_null })

set_notification_port-IsConsistent :
    (port : ℕ) → Preserves IsConsistent (set_notification_port port)
unfolding set_notification_port
set_notification_port-IsConsistent port =
    Preserves-modify _
      (λ s h. record { mappings = h.mappings; send_once = h.send_once; no_null = h.no_null })

construct-IsConsistent : (server_mode : Bool) → Preserves IsConsistent (construct server_mode)
unfolding construct
construct-IsConsistent server_mode =
    search (preserves_rules, set_type-IsConsistent, set_first_port-IsConsistent) depth 12

listen-IsConsistent : Preserves IsConsistent listen
unfolding listen
listen-IsConsistent =
    search (preserves_rules, set_portset-IsConsistent, set_notification_port-IsConsistent) depth 20

handle-IsConsistent : (event : SessionEvent) → Preserves IsConsistent (handle event)
handle-IsConsistent ipc_handler_starts = listen-IsConsistent
handle-IsConsistent (from_network header items) = tcp_buffer_handler-IsConsistent header items
handle-IsConsistent (from_ipc header items) = ipc_buffer_handler-IsConsistent header items

handle_all-IsConsistent : (events : List SessionEvent) → Preserves IsConsistent (handle_all events)
unfolding handle_all
handle_all-IsConsistent [] = search preserves_rules
handle_all-IsConsistent (event ∷ events) =
    Preserves-then (handle-IsConsistent event) (handle_all-IsConsistent events)

run_session_from-IsConsistent :
    (server_mode : Bool) (events : List SessionEvent)
    → Preserves IsConsistent (run_session server_mode events)
unfolding run_session
run_session_from-IsConsistent server_mode events =
    Preserves-then (construct-IsConsistent server_mode) (handle_all-IsConsistent events)

-- Whatever messages the two threads of a session hand to the handlers, one at a time and before or
-- after ipcHandler has set itself up, and whatever unused names other than the null port mach_port_allocate
-- answers: if no assertion fails and nothing else stops the program, the maps of remote and local ports
-- invert each other afterwards, so do the two maps of send-once rights, and the null port is a key of
-- none of the four. In server mode and not.
pub run_session-IsConsistent :
    (server_mode : Bool) (control : ℕ) (events : List SessionEvent)
    → Keeps (λ a t. IsConsistent t) (run_session server_mode events (fresh_session control))
run_session-IsConsistent server_mode control events =
    (run_session_from-IsConsistent server_mode events).at (fresh_session control) (record {
      mappings = λ r p. ground arith;
      send_once = λ r p. ground arith;
      no_null = (refl, refl, refl, refl);
    })
