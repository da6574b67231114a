-- ===== src/Netmsg/Translate.antt =====
-- netmsg/netmsg.cc, from the network to IPC: translatePort2, translatePort. MACH_MSG_TYPE_PORT_SEND is the kernel's other
-- name of MOVE_SEND, and MACH_MSG_TYPE_PORT_SEND_ONCE of MOVE_SEND_ONCE.
use hurd.Base.{ℕ, true, false, none, some, ◌==◌, if◌then◌else◌}
use hurd.Base.OrdMap
use hurd.Base.OrdMap.{Map, nat_key}
use hurd.Message.Value.{
  TypeName, port_name, move_receive, move_send, move_send_once, copy_send, make_send,
  make_send_once,
}
use hurd.Netmsg.Session.{
  PortType, receive, send, no_senders, dead_name, send_once_right, Disposition, allocate,
  insert_right, request_notification, drop_refs, move_member, extract_send_once, Answer, exit, M,
  pure, ◌>>=◌, ◌>>◌, do_if◌then◌else◌, on_option, fail, get, modify, assert, call, mach_port_null,
  is_null_or_dead, is_flagged, complement, is_receive, is_send, type_at, set_type, type_ref,
}

abbrev pub msgid_no_senders : ℕ
msgid_no_senders = 70

abbrev pub msgid_dead_name : ℕ
msgid_dead_name = 72

unfoldable pub request_dead_name : ℕ → M Answer
request_dead_name port = do s ← get; call (request_notification port dead_name s.notification_port)

-- A port whose receive right is relayed: cancel its NO SENDERS notification, keep a send right, and
-- ask for a DEAD NAME notification.
unfoldable pub keep_send_right : ℕ → M ℕ
keep_send_right port = do
  old ← call (request_notification port no_senders mach_port_null)
  call (drop_refs old.port send_once_right 1)
  call (insert_right port Disposition.make_send)
  set_type port send
  previous ← request_dead_name port
  assert (previous.port == mach_port_null)
  pure port

-- A port that the sender has translated to our name space.
unfoldable pub translate_flagged : ℕ → TypeName → M ℕ
translate_flagged newport move_send = do
  type ← type_ref newport
  call (
      insert_right newport
        (if is_receive type then Disposition.make_send else Disposition.copy_send))
  pure newport
translate_flagged newport move_receive = do
  type ← type_at newport
  assert (is_receive type)
  keep_send_right newport
translate_flagged newport port_name = pure newport
translate_flagged newport _ = fail exit

-- Both ways of a mapping between a remote port and a local one.
unfoldable pub remember : ℕ → ℕ → PortType → M (Unit {0})
remember port newport type = modify λ s. record s {
  local_ports_by_remote = OrdMap.insert port newport s.local_ports_by_remote;
  remote_ports_by_local = OrdMap.insert newport port s.remote_ports_by_local;
  local_port_type = OrdMap.insert newport type s.local_port_type;
}

-- A receive right for a remote port that has no local one.
unfoldable pub new_receive_right : ℕ → M ℕ
new_receive_right port = do
  r ← call allocate
  call (insert_right r.port Disposition.make_send)
  remember port r.port send
  old ← request_dead_name r.port
  assert (old.port == mach_port_null)
  pure r.port

-- A send right for a remote port that has no local one.
unfoldable pub new_send_right : ℕ → M ℕ
new_send_right port = do
  r ← call allocate
  call (insert_right r.port Disposition.make_send)
  old ← call (request_notification r.port no_senders r.port)
  assert (old.port == mach_port_null)
  s ← get
  call (move_member r.port s.portset)
  remember port r.port receive
  pure r.port

unfoldable pub translate_receive : ℕ → M ℕ
translate_receive port = do
  s ← get
  on_option (OrdMap.lookup port s.local_ports_by_remote) (new_receive_right port) (λ localport. do
    type ← type_ref localport
    do_if is_send type then fail exit else keep_send_right localport)

unfoldable pub translate_send : ℕ → M ℕ
translate_send port = do
  s ← get
  on_option (OrdMap.lookup port s.local_ports_by_remote) (new_send_right port) (λ newport. do
    type ← type_at newport
    assert (is_receive type)
    call (insert_right newport Disposition.make_send)
    pure newport)

unfoldable pub translate_send_once : ℕ → M ℕ
translate_send_once port = do
  s ← get
  assert (elim (OrdMap.lookup port s.send_once_ports_by_remote) [ none ↦ true | some p ↦ false ])
  r ← call allocate
  sendonce ← call (extract_send_once r.port)
  assert sendonce.is_send_once
  call (move_member r.port s.portset)
  modify λ t. record t {
    send_once_ports_by_remote = OrdMap.insert port r.port t.send_once_ports_by_remote;
    send_once_ports_by_local = OrdMap.insert r.port port t.send_once_ports_by_local;
  }
  pure sendonce.port

unfoldable pub translate_name : ℕ → M ℕ
translate_name port = do
  s ← get
  pure (elim (OrdMap.lookup port s.local_ports_by_remote) [ none ↦ mach_port_null | some p ↦ p ])

-- The switch on the type of a port in the remote's name space.
unfoldable pub translate_remote : ℕ → TypeName → M ℕ
translate_remote port move_receive = translate_receive port
translate_remote port copy_send = translate_send port
translate_remote port make_send = translate_send port
translate_remote port move_send = translate_send port
translate_remote port make_send_once = translate_send_once port
translate_remote port move_send_once = translate_send_once port
translate_remote port port_name = translate_name port
translate_remote port _ = fail exit

-- translatePort2; translatePort adds a debugging message.
unfoldable pub translate_port : ℕ → TypeName → M ℕ
translate_port port type =
    do_if is_null_or_dead port
    then pure port
    else (do_if is_flagged port
        then translate_flagged (complement port) type
        else translate_remote port type)
