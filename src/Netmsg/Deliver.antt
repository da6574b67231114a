-- ===== src/Netmsg/Deliver.antt =====
-- netmsg/netmsg.cc, from the network to IPC: swapHeader, translateHeader, translateMessage,
-- tcpBufferHandler.
use hurd.Base.{
  ℕ, Bool, true, false, ◌&&◌, not, List, [], ◌∷◌, Option, none, some, ◌==◌, if◌then◌else◌,
}
use hurd.Base.OrdMap
use hurd.Base.OrdMap.{Map, nat_key}
use hurd.Message.Value.{
  TypeName, port_name, move_receive, move_send, move_send_once, copy_send, make_send,
  make_send_once,
}
use hurd.Netmsg.Translate.{msgid_no_senders, msgid_dead_name, translate_port}
use hurd.Netmsg.Session.{
  Header, Item, dead_name, send_right, receive_right, send_once_right, request_notification,
  drop_refs, deliver, assertion, exit, M, pure, ◌>>=◌, ◌>>◌, do_if◌then◌else◌, on_option, fail, get,
  modify, assert, call, mach_port_null, mach_port_control, is_receive, is_send, type_at,
}

unfoldable pub swap_header : Header → M Header
swap_header h = do
  s ← get
  let this_type : Option TypeName = elim (OrdMap.lookup h.msgh_local_port s.local_port_type) [
    | none ↦ h.local_type
    | some t ↦ some copy_send
  ]
  pure (record h {
    local_type = h.remote_type;
    remote_type = this_type;
    remote_translate = false;
    msgh_local_port = h.msgh_remote_port;
    msgh_remote_port = h.msgh_local_port;
  })

-- The remote-local mapping of a port, if there is one, goes.
unfoldable pub forget_mapping : ℕ → M (Unit {0})
forget_mapping port = do
  s ← get
  on_option (OrdMap.lookup port s.remote_ports_by_local) (pure tt) (λ remote. modify λ t. record t {
    local_ports_by_remote = OrdMap.erase remote t.local_ports_by_remote;
    remote_ports_by_local = OrdMap.erase port t.remote_ports_by_local;
  })

unfoldable pub forget_type : ℕ → M (Unit {0})
forget_type port = modify λ s. record s { local_port_type = OrdMap.erase port s.local_port_type }

-- A NO SENDERS notification from the network: our send right goes.
unfoldable pub remote_no_senders : ℕ → M (Unit {0})
remote_no_senders port = do
  s ← get
  on_option (OrdMap.lookup port s.local_port_type) (pure tt) (λ type. do
    assert (is_send type)
    old ← call (request_notification port dead_name mach_port_null)
    do_if old.port == mach_port_null
        then pure tt
        else (call (drop_refs old.port send_once_right 1) >> pure tt)
    call (drop_refs port send_right 1)
    forget_type port
    forget_mapping port)

-- `assert(data.name() == MACH_MSG_TYPE_PORT_NAME)`, `assert(data.nelems() == 1)`, `data[0]`, on the
-- first item. Past the end of the message the iterator reads what stands in the buffer.
unfoldable pub sole_port_name : List Item → M ℕ
sole_port_name [] = fail assertion
sole_port_name (item ∷ items) = elim item.name [
  | port_name ↦ elim item.elements [
    | [] ↦ fail assertion
    | p ∷ ps ↦ elim ps [ [] ↦ pure p | q ∷ qs ↦ fail assertion ]
  ]
  | _ ↦ fail assertion
]

-- A DEAD NAME notification from the network: our receive right goes.
unfoldable pub remote_dead_name : List Item → M (Unit {0})
remote_dead_name items = do
  port ← sole_port_name items
  s ← get
  on_option (OrdMap.lookup port s.local_port_type) (pure tt) (λ type. do
    assert (is_receive type)
    call (drop_refs port receive_right 1)
    forget_type port
    forget_mapping port)

abbrev pub is_send_or_once : Option TypeName → Bool
is_send_or_once (some move_send) = true
is_send_or_once (some move_send_once) = true
is_send_or_once _ = false

-- The destination: the control port, or a port of the remote's name space; `none` if the message is
-- to be discarded.
unfoldable pub translate_destination : Header → M (Option Header)
translate_destination h =
    do_if h.msgh_local_port == mach_port_control
    then (do s ← get; pure (some (record h { msgh_local_port = s.first_port })))
    else (do_if h.remote_translate
        then (do
          s ← get
          on_option (OrdMap.lookup h.msgh_local_port s.local_ports_by_remote) (pure none) (λ port.
              do
                type ← type_at port
                assert (is_send type)
                pure (some (record h { msgh_local_port = port; remote_translate = false }))))
        else pure (some h))

-- The reply port.
unfoldable pub translate_reply : Header → Option TypeName → M Header
translate_reply h (some move_send) = do
  port ← translate_port h.msgh_remote_port move_send
  pure (record h { msgh_remote_port = port })
translate_reply h (some move_send_once) = do
  port ← translate_port h.msgh_remote_port move_send_once
  pure (record h { msgh_remote_port = port })
translate_reply h none = do assert (h.msgh_remote_port == mach_port_null); pure h
translate_reply h _ = fail exit

-- translateHeader; `none` is its result false.
unfoldable pub translate_header : Header → List Item → M (Option Header)
translate_header header items =
    do_if not (is_send_or_once header.local_type) then fail exit else (do
      destination ← translate_destination header
      on_option destination (pure none) (λ h. do
        s ← get
        do_if h.msgh_id == msgid_no_senders
            then (do remote_no_senders h.msgh_local_port; pure none)
            else (do_if h.msgh_id == msgid_dead_name && h.msgh_local_port == s.first_port
                then (do remote_dead_name items; pure none)
                else (do h' ← translate_reply h h.remote_type; pure (some h')))))

unfoldable pub translate_ports : List ℕ → TypeName → M (List ℕ)
translate_ports [] type = pure []
translate_ports (port ∷ ports) type = do
  p ← translate_port port type
  ps ← translate_ports ports type
  pure (p ∷ ps)

-- Whether translateMessage translates the elements of an item.
abbrev pub is_translated : Bool → TypeName → Bool
is_translated names port_name = names
is_translated names move_receive = true
is_translated names move_send = true
is_translated names move_send_once = true
is_translated names copy_send = true
is_translated names make_send = true
is_translated names make_send_once = true
is_translated names _ = false

unfoldable pub translate_message : Bool → List Item → M (List Item)
translate_message names [] = pure []
translate_message names (item ∷ items) = do
  elements ←
      do_if is_translated names item.name
      then translate_ports item.elements item.name
      else pure item.elements
  rest ← translate_message names items
  pure (record item { elements = elements } ∷ rest)

-- tcpBufferHandler.
unfoldable pub tcp_buffer_handler : Header → List Item → M (Unit {0})
tcp_buffer_handler header items = do
  items' ←
      translate_message
        (header.msgh_local_port == mach_port_control && header.msgh_id == msgid_dead_name) items
  translated ← translate_header header items'
  on_option translated (pure tt) (λ h. do h' ← swap_header h; call (deliver h' items'); pure tt)
