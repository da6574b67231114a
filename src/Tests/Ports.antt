-- ===== src/Tests/Ports.antt =====
-- Runs of the handlers of class netmsg.
use hurd.Base.{ℕ, ◌≡◌, refl, true, false, none, some, List, [], ◌∷◌, arith, inl}
use hurd.Base.OrdMap
use hurd.Base.OrdMap.{nat_key}
use hurd.Message.Value.{move_send, move_send_once, move_receive}
use hurd.Netmsg.Session.{
  PortType, send, receive, Session, Header, Item, insert_right, request_notification, drop_refs,
  transmit, deliver, allocate, extract_send_once, move_member, out_of_range, run_with,
  mach_port_control, complement, dead_name, dead_name_right, send_right, send_once_right,
  receive_right, Disposition,
}
use hurd.Netmsg.Translate.{translate_port}
use hurd.Netmsg.Deliver.{tcp_buffer_handler}
use hurd.Netmsg.Transmit.{transmit_send, transmit_receive, ipc_buffer_handler}
use hurd.Netmsg.Serve.{
  fresh_session, SessionEvent, ipc_handler_starts, from_network, from_ipc, run_session,
}
use hurd.Netmsg.Rely.{Keeps}
use hurd.Netmsg.OutOfLine.{DataItem}
use hurd.Netmsg.Ports.{IsConsistent}
use hurd.Netmsg.Ports.Sessions.{run_session-IsConsistent}
use hurd.Netmsg.Ports.RoundTrip.{
  named, IsName, noted, learnt, new_send_calls, send_right-round_trip,
}
use hurd.Netmsg.Ports.Replies.{
  own_receive_calls, new_receive_calls, mapped_receive_calls, own_again_calls,
  receive_right-round_trip,
}
use hurd.Netmsg.Ports.SendOnce.{extracted, once_learnt, once_used, send_once-round_trip}
use hurd.Netmsg.Ports.Relays.{
  name_item, count_item, without, untyped, dead_name-relayed, no_senders-relayed,
}
use hurd.Netmsg.Ports.Requests.{delivered, answered, rpc-relayed}
use hurd.Netmsg.Ports.Untyped.{EndsIn, ipc_buffer_handler-no_senders_untyped}

-- A message with a send right for port 40 as its reply port and in its item.
abbrev open_request : Header
open_request = record {
  local_type = some move_send;
  remote_type = some move_send;
  complex = true;
  remote_translate = false;
  msgh_local_port = mach_port_control;
  msgh_remote_port = 40;
  msgh_id = 20000;
}

abbrev send_item : List Item
send_item = record { name = move_send; elements = 40 ∷ [] } ∷ []

abbrev busy_events : List SessionEvent
busy_events =
    ipc_handler_starts
    ∷ from_network open_request send_item
    ∷ from_ipc (record open_request { msgh_local_port = 50 }) send_item
    ∷ []

run_session-IsConsistent_example :
    Keeps (λ a t. IsConsistent t) (run_session true busy_events (fresh_session 7))
run_session-IsConsistent_example = run_session-IsConsistent true 7 busy_events

IsName-40 : IsName 40
IsName-40 = ground arith

IsName-50 : IsName 50
IsName-50 = ground arith

-- A session whose port 50 stands for the remote port 40, and one that holds rights of type `type` for
-- its own port 40.
abbrev proxy : PortType → Session
proxy type = record (learnt 40 50 type (fresh_session 7)) { notification_port = 8; portset = 9 }

abbrev owner : PortType → Session
owner type = record (noted 40 type (fresh_session 7)) { notification_port = 8; portset = 9 }

send_right-round_trip_example :
    (run_with (named 0 ∷ []) (transmit_send 40 (owner send))
      ≡ some (40, noted 40 send (owner send), request_notification 40 dead_name 8 ∷ []))
    × (run_with
          (named 50 ∷ named 0 ∷ named 0 ∷ named 0 ∷ [])
          (translate_port 40 move_send (fresh_session 7))
        ≡ some (50, learnt 40 50 receive (fresh_session 7), new_send_calls 50 0))
    × (run_with (named 0 ∷ []) (transmit_send 50 (learnt 40 50 receive (fresh_session 7)))
        ≡ some
            (complement 40, learnt 40 50 receive (fresh_session 7), drop_refs 50 send_right 1 ∷ []))
    × (run_with
          (named 0 ∷ [])
          (translate_port (complement 40) move_send (noted 40 send (owner send)))
        ≡ some (40, noted 40 send (owner send), insert_right 40 Disposition.copy_send ∷ []))
send_right-round_trip_example =
    send_right-round_trip 40 50 (owner send) (fresh_session 7) IsName-40 IsName-50 refl refl

receive_right-round_trip_example :
    (run_with (named 0 ∷ named 0 ∷ []) (transmit_receive 40 (owner send))
      ≡ some (40, noted 40 receive (owner send), own_receive_calls 40 9))
    × (run_with
          (named 50 ∷ named 0 ∷ named 0 ∷ [])
          (translate_port 40 move_receive (fresh_session 7))
        ≡ some (50, learnt 40 50 send (fresh_session 7), new_receive_calls 50 0))
    × (run_with
          (named 0 ∷ named 0 ∷ named 61 ∷ named 0 ∷ named 0 ∷ [])
          (transmit_receive 50 (learnt 40 50 send (fresh_session 7)))
        ≡ some (
          complement 40,
          noted 50 receive (learnt 40 50 send (fresh_session 7)),
          mapped_receive_calls 50 61 0,
        ))
    × (run_with
          (named 62 ∷ named 0 ∷ named 0 ∷ named 0 ∷ [])
          (translate_port (complement 40) move_receive (noted 40 receive (owner send)))
        ≡ some (40, noted 40 send (noted 40 receive (owner send)), own_again_calls 40 62 8))
receive_right-round_trip_example =
    receive_right-round_trip 40 50 61 62 (owner send) (fresh_session 7) IsName-40 IsName-50 refl
      refl

send_once-round_trip_example :
    (run_with
        (named 50 ∷ extracted 51 ∷ named 0 ∷ [])
        (translate_port 40 move_send_once (owner send))
      ≡ some (
        51,
        once_learnt 40 50 (owner send),
        allocate ∷ extract_send_once 50 ∷ move_member 50 9 ∷ [],
      ))
    × (run_with (named 0 ∷ named 0 ∷ []) (
          ipc_buffer_handler
            (record open_request { msgh_local_port = 50 })
            (count_item 5)
            (once_learnt 40 50 (owner send)))
        ≡ some (
          tt,
          once_used 40 50 (once_learnt 40 50 (owner send)),
          drop_refs 50 receive_right 1
              ∷ transmit (record open_request { msgh_local_port = 40 }) (count_item 5)
              ∷ [],
        ))
    × ((k : ℕ)
        → (OrdMap.lookup k
              (once_used 40 50 (once_learnt 40 50 (owner send))).send_once_ports_by_remote
            ≡ OrdMap.lookup k (owner send).send_once_ports_by_remote)
          × (OrdMap.lookup k
                (once_used 40 50 (once_learnt 40 50 (owner send))).send_once_ports_by_local
              ≡ OrdMap.lookup k (owner send).send_once_ports_by_local))
send_once-round_trip_example =
    send_once-round_trip 40 50 51 (record open_request { msgh_local_port = 50 }) (count_item 5)
      (owner send) IsName-40 refl refl refl refl refl refl (omega arith) (tt, tt)

abbrev notification : ℕ → ℕ → Header
notification port id = record {
  local_type = some move_send_once;
  remote_type = none;
  complex = false;
  remote_translate = false;
  msgh_local_port = port;
  msgh_remote_port = 0;
  msgh_id = id;
}

dead_name-relayed_example :
    (run_with
        (named 0 ∷ named 0 ∷ [])
        (ipc_buffer_handler (notification 8 72) (name_item 50) (proxy send))
      ≡ some (
        tt,
        without 40 50 (proxy send),
        drop_refs 50 dead_name_right 2
            ∷ transmit (notification mach_port_control 72) (name_item (complement 40))
            ∷ [],
      ))
    × (run_with (named 0 ∷ []) (
          tcp_buffer_handler
            (notification mach_port_control 72)
            (name_item (complement 40))
            (owner receive))
        ≡ some (tt, untyped 40 (owner receive), drop_refs 40 receive_right 1 ∷ []))
dead_name-relayed_example =
    dead_name-relayed 40 50 (notification 8 72) (proxy send) (owner receive) IsName-40 IsName-50
      refl refl refl (ground arith) refl refl refl refl

no_senders-relayed_example :
    (run_with
        (named 0 ∷ named 0 ∷ [])
        (ipc_buffer_handler (notification 50 70) (count_item 3) (proxy receive))
      ≡ some (
        tt,
        without 40 50 (proxy receive),
        drop_refs 50 receive_right 1 ∷ transmit (notification 40 70) (count_item 3) ∷ [],
      ))
    × (run_with
          (named 61 ∷ named 0 ∷ named 0 ∷ [])
          (tcp_buffer_handler (notification 40 70) (count_item 3) (owner send))
        ≡ some (
          tt,
          untyped 40 (owner send),
          request_notification 40 dead_name 0
              ∷ drop_refs 61 send_once_right 1
              ∷ drop_refs 40 send_right 1
              ∷ [],
        ))
no_senders-relayed_example =
    no_senders-relayed 40 50 3 61 (notification 50 70) (proxy receive) (owner send) IsName-40 refl
      refl refl refl (ground arith) (ground arith) refl refl (ground arith) refl refl

-- A request on port 50 whose reply port is 44, and the reply on port 52.
abbrev request : Header
request = record open_request {
  remote_type = some move_send_once;
  msgh_local_port = 50;
  msgh_remote_port = 44;
}

rpc-relayed_example :
    (run_with (named 0 ∷ []) (ipc_buffer_handler request (count_item 3) (proxy receive))
      ≡ some (
        tt,
        proxy receive,
        transmit (record request { msgh_local_port = 40 }) (count_item 3) ∷ [],
      ))
    × (run_with
          (named 52 ∷ extracted 53 ∷ named 0 ∷ named 0 ∷ [])
          (tcp_buffer_handler (record request { msgh_local_port = 40 }) (count_item 3) (owner send))
        ≡ some (
          tt,
          once_learnt 44 52 (owner send),
          allocate
              ∷ extract_send_once 52
              ∷ move_member 52 9
              ∷ deliver (delivered 40 53 request) (count_item 3)
              ∷ [],
        ))
    × (run_with (named 0 ∷ named 0 ∷ []) (
          ipc_buffer_handler
            (notification 52 20100)
            (count_item 4)
            (once_learnt 44 52 (owner send)))
        ≡ some (
          tt,
          once_used 44 52 (once_learnt 44 52 (owner send)),
          drop_refs 52 receive_right 1 ∷ transmit (notification 44 20100) (count_item 4) ∷ [],
        ))
    × (run_with
          (named 0 ∷ [])
          (tcp_buffer_handler (notification 44 20100) (count_item 4) (proxy receive))
        ≡ some
            (tt, proxy receive, deliver (answered 44 (notification 52 20100)) (count_item 4) ∷ []))
rpc-relayed_example =
    rpc-relayed 40 52 53 3 4 request (notification 52 20100) (proxy receive) (owner send)
      (record {
        ordinary = ground arith;
        to_send_right = refl;
        asks_reply = refl;
        not_marked = refl;
        reply_port = ground arith;
        not_control = refl;
        not_notification = refl;
        mapped = refl;
        held = refl;
      })
      (record {
        ordinary = ground arith;
        to_send_once = refl;
        asks_none = (refl, refl);
        not_marked = refl;
        to_port = refl;
      })
      IsName-40 refl refl refl refl refl refl

ipc_buffer_handler-no_senders_untyped_example :
    EndsIn out_of_range (ipc_buffer_handler (notification 7 70) (count_item 3) (owner send))
ipc_buffer_handler-no_senders_untyped_example =
    ipc_buffer_handler-no_senders_untyped (notification 7 70) (count_item 3) (owner send) refl refl
      refl refl (inl refl)

abbrev two_items : List DataItem
two_items =
    record { is_inline = false; contents = 1 ∷ 2 ∷ [] }
    ∷ record { is_inline = true; contents = 3 ∷ [] }
    ∷ []

abbrev two_stale : List DataItem
two_stale =
    record { is_inline = false; contents = 8 ∷ 9 ∷ [] }
    ∷ record { is_inline = true; contents = 3 ∷ [] }
    ∷ []
