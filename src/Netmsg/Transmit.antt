-- ===== src/Netmsg/Transmit.antt =====
-- netmsg/netmsg.cc, from IPC to the network: translateForTransmission and ipcBufferHandler.
use hurd.Base.{ℕ, Bool, true, not, List, [], ◌∷◌, Option, none, some, ◌==◌, if◌then◌else◌, map}
use hurd.Base.OrdMap
use hurd.Base.OrdMap.{Map, nat_key}
use hurd.Message.Value.{TypeName, port_name, move_receive, move_send}
use hurd.Netmsg.Session.{
  receive, send, Session, Header, Item, no_senders, dead_name, send_right, receive_right,
  send_once_right, dead_name_right, request_notification, drop_refs, move_member, transmit, exit, M,
  pure, ◌>>=◌, ◌>>◌, do_if◌then◌else◌, on_option, fail, get, modify, assert, call, mach_port_null,
  mach_port_control, is_null_or_dead, complement, is_receive, is_send, type_at, set_type,
}
use hurd.Netmsg.Translate.{msgid_no_senders, msgid_dead_name, request_dead_name}
use hurd.Netmsg.Deliver.{forget_mapping, forget_type, sole_port_name}

-- A send right.
unfoldable pub transmit_send : ℕ → M ℕ
transmit_send port = do_if is_null_or_dead port then pure port else (do
  s ← get
  on_option (OrdMap.lookup port s.remote_ports_by_local)
      (do set_type port send; request_dead_name port; pure port)
      (λ remote. do
        type ← type_at port
        assert (is_receive type)
        call (drop_refs port send_right 1)
        pure (complement remote)))

-- A receive right.
unfoldable pub transmit_receive : ℕ → M ℕ
transmit_receive port = do_if is_null_or_dead port then pure port else (do
  s ← get
  call (move_member port s.portset)
  old ← call (request_notification port no_senders port)
  do_if old.port == mach_port_null
      then pure tt
      else (call (drop_refs old.port send_once_right 1) >> pure tt)
  on_option (OrdMap.lookup port s.remote_ports_by_local) (do set_type port receive; pure port)
      (λ remote. do
        type ← type_at port
        assert (is_send type)
        request ← call (request_notification port dead_name mach_port_null)
        call (drop_refs request.port send_once_right 1)
        call (drop_refs port send_right 1)
        set_type port receive
        pure (complement remote)))

-- A port name.
abbrev pub transmit_name : Session → ℕ → ℕ
transmit_name s port = elim (OrdMap.lookup port s.remote_ports_by_local) [
  | none ↦ port
  | some remote ↦ complement remote
]

unfoldable pub transmit_each : (ℕ → M ℕ) → List ℕ → M (List ℕ)
transmit_each f [] = pure []
transmit_each f (port ∷ ports) = do p ← f port; ps ← transmit_each f ports; pure (p ∷ ps)

unfoldable pub transmit_names : Bool → List ℕ → M (List ℕ)
transmit_names names ports =
    do_if names then (do s ← get; pure (map (transmit_name s) ports)) else pure ports

-- The switch on an item's type: the case of MOVE_RECEIVE falls through to that of PORT_NAME.
unfoldable pub transmit_elements : Bool → TypeName → List ℕ → M (List ℕ)
transmit_elements names move_send ports = transmit_each transmit_send ports
transmit_elements names move_receive ports = do
  ports' ← transmit_each transmit_receive ports
  transmit_names names ports'
transmit_elements names port_name ports = transmit_names names ports
transmit_elements names _ ports = pure ports

-- translateForTransmission.
unfoldable pub translate_for_transmission : Bool → List Item → M (List Item)
translate_for_transmission names [] = pure []
translate_for_transmission names (item ∷ items) = do
  elements ← transmit_elements names item.name item.elements
  rest ← translate_for_transmission names items
  pure (record item { elements = elements } ∷ rest)

-- MSGID_PORT_DELETED and MSGID_SEND_ONCE: notifications that need no work.
abbrev pub is_quiet : ℕ → Bool
is_quiet id = if id == 65 then true else id == 71

-- The switch on a notification's id: the dead name, or MACH_PORT_NULL.
unfoldable pub local_notification : Header → List Item → M ℕ
local_notification h items =
    do_if h.msgh_id == msgid_dead_name
    then (do
      port ← sole_port_name items
      call (drop_refs port dead_name_right 2)
      s ← get
      on_option (OrdMap.lookup port s.local_port_type) (pure port)
          (λ type. do assert (is_send type); forget_type port; pure port))
    else (do_if is_quiet h.msgh_id then pure mach_port_null else fail exit)

-- A message on a port that belongs to neither the control port nor notifications.
unfoldable pub port_destination : Header → M (Option Header)
port_destination h = do
  s ← get
  on_option (OrdMap.lookup h.msgh_local_port s.remote_ports_by_local)
      (on_option (OrdMap.lookup h.msgh_local_port s.send_once_ports_by_local)
        (on_option (OrdMap.lookup h.msgh_local_port s.local_port_type) (pure none) (λ type.
          pure (some (if is_receive type then record h { remote_translate = true } else h))))
        (λ remote. do
          modify λ t. record t {
            send_once_ports_by_local = OrdMap.erase h.msgh_local_port t.send_once_ports_by_local;
            send_once_ports_by_remote = OrdMap.erase remote t.send_once_ports_by_remote;
          }
          call (drop_refs h.msgh_local_port receive_right 1)
          pure (some (record h { msgh_local_port = remote }))))
      (λ remote. do
        type ← type_at h.msgh_local_port
        assert (is_receive type)
        pure (some (record h { msgh_local_port = remote })))

-- The destination in the remote's name space, with the dead name of a DEAD NAME notification; `none`
-- if the message is to be discarded.
unfoldable pub local_destination : Header → List Item → M (Option (Header × ℕ))
local_destination h items = do
  s ← get
  do_if h.msgh_local_port == s.control
      then pure (some (record h { msgh_local_port = mach_port_control }, mach_port_null))
      else (do_if h.msgh_local_port == s.notification_port
          then (do
            dead ← local_notification h items
            pure (some (record h { msgh_local_port = mach_port_control }, dead)))
          else (do
            found ← port_destination h
            on_option found (pure none) (λ h'. pure (some (h', mach_port_null)))))

-- `remote_ports_by_local[port]` as a value: 0 for a missing key.
abbrev pub remote_or_null : ℕ → Map ℕ ℕ → ℕ
remote_or_null port m = elim (OrdMap.lookup port m) [ none ↦ 0 | some remote ↦ remote ]

-- `local_ports_by_remote.erase(remote_ports_by_local[port])`, `remote_ports_by_local.erase(port)`.
unfoldable pub erase_mapping : ℕ → M (Unit {0})
erase_mapping port = modify λ s. record s {
  local_ports_by_remote =
      OrdMap.erase (remote_or_null port s.remote_ports_by_local) s.local_ports_by_remote;
  remote_ports_by_local = OrdMap.erase port s.remote_ports_by_local;
}

-- A NO SENDERS notification for a receive right of ours, which goes.
unfoldable pub local_no_senders : ℕ → M (Unit {0})
local_no_senders port = do
  type ← type_at port
  assert (is_receive type)
  call (drop_refs port receive_right 1)
  forget_type port
  erase_mapping port

-- ipcBufferHandler.
unfoldable pub ipc_buffer_handler : Header → List Item → M (Unit {0})
ipc_buffer_handler header items = do
  destination ← local_destination header items
  on_option destination (pure tt) (λ (h, dead). do
    do_if h.msgh_id == msgid_no_senders then local_no_senders header.msgh_local_port else pure tt
    items' ← translate_for_transmission (not (dead == mach_port_null)) items
    do_if dead == mach_port_null then pure tt else forget_mapping dead
    call (transmit h items')
    pure tt)
