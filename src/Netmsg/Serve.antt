-- ===== src/Netmsg/Serve.antt =====
-- netmsg/netmsg.cc: the start of a session, in the constructor of class netmsg and in ipcHandler
-- before its loop, and the messages that the threads of a session hand to the handlers, one handler
-- at a time.
use hurd.Base.{ℕ, Bool, List, [], ◌∷◌, not, ◌==◌}
use hurd.Netmsg.Session.{
  send, Session, Header, Item, allocate, allocate_portset, insert_right, move_member, M, pure,
  ◌>>=◌, ◌>>◌, do_if◌then◌else◌, get, modify, call, mach_port_null, set_type, Disposition,
}
use hurd.Netmsg.Deliver.{tcp_buffer_handler}
use hurd.Netmsg.Transmit.{ipc_buffer_handler}

-- The members' initialisers.
abbrev pub fresh_session : ℕ → Session
fresh_session control = record {
  first_port = mach_port_null;
  portset = mach_port_null;
  notification_port = mach_port_null;
  control = control;
  local_ports_by_remote = [];
  remote_ports_by_local = [];
  local_port_type = [];
  send_once_ports_by_remote = [];
  send_once_ports_by_local = [];
}

unfoldable pub set_first_port : ℕ → M (Unit {0})
set_first_port port = modify λ s. record s { first_port = port }

unfoldable pub set_portset : ℕ → M (Unit {0})
set_portset port = modify λ s. record s { portset = port }

unfoldable pub set_notification_port : ℕ → M (Unit {0})
set_notification_port port = modify λ s. record s { notification_port = port }

-- The constructor, in server mode or not.
unfoldable pub construct : Bool → M (Unit {0})
construct server_mode = do_if not server_mode then pure tt else (do
  r ← call allocate
  set_first_port r.port
  call (insert_right r.port Disposition.make_send)
  set_type r.port send)

-- ipcHandler, before its loop.
unfoldable pub listen : M (Unit {0})
listen = do
  r ← call allocate_portset
  set_portset r.port
  n ← call allocate
  set_notification_port n.port
  s ← get
  call (move_member n.port s.portset)
  do_if s.control == mach_port_null
      then pure tt
      else (call (move_member s.control s.portset) >> pure tt)

pub data SessionEvent : Type 0 where
  ipc_handler_starts : SessionEvent
  from_network from_ipc : Header → List Item → SessionEvent

abbrev pub handle : SessionEvent → M (Unit {0})
handle ipc_handler_starts = listen
handle (from_network header items) = tcp_buffer_handler header items
handle (from_ipc header items) = ipc_buffer_handler header items

unfoldable pub handle_all : List SessionEvent → M (Unit {0})
handle_all [] = pure tt
handle_all (event ∷ events) = do handle event; handle_all events

-- A session: the network's thread may handle messages before ipcHandler starts.
unfoldable pub run_session : Bool → List SessionEvent → M (Unit {0})
run_session server_mode events = do construct server_mode; handle_all events
