-- ===== src/Netmsg/Stream.antt =====
-- netmsg/netmsg.cc: tcpHandler, which reads messages from the network stream and hands them on, and
-- the lines of ipcBufferHandler that write one. The stream is the list of its bytes, up to the end of
-- the connection. The layout of a header is the kernel's: how long it is, and where msgh_size stands in
-- it; what the items of a message are, its descriptors tell: both are parameters.
pub mod RoundTrip
pub mod Bounds
use hurd.Base.{
  ℕ, zero, suc, ◌+◌, ◌-◌, ◌≤◌, ◌<◌, ◌≡◌, ◌≢◌, refl, Bool, Option, none, some, List, [], ◌∷◌, ◌++◌,
  if◌then◌else◌, length, not, All, ltb, leb, arith, Bool-cases, inl, inr, append_assoc,
}
use hurd.Netmsg.OutOfLine.{
  DataItem, is_out_of_line, transmit_ool_data, receive_ool_data, AreAlike, read,
  receive_ool_data-transmit_ool_data,
}

pub record NetworkMessage : Type 0 where
  -- the buffer, of msgh_size bytes
  pub buffer : List ℕ
  pub items : List DataItem

-- How the thread ends: it returns, the program exits, the assert on msgh_size fails, or a message says
-- that it is shorter than its header (istream::read is then called with a negative count); or the
-- model's fuel is used up.
pub data End : Type 0 where
  thread_returns program_exits assertion negative_count out_of_fuel : End

-- `os.write (msg.buffer, msg->msgh_size); transmitOOLdata (msg)`.
abbrev pub send_message : NetworkMessage → List ℕ
send_message msg = msg.buffer ++ transmit_ool_data msg.items

abbrev pub send_messages : List NetworkMessage → List ℕ
send_messages [] = []
send_messages (msg ∷ msgs) = send_message msg ++ send_messages msgs

-- `is.read` of so many bytes, if there are so many.
unfoldable pub read_all : ℕ → List ℕ → Option (List ℕ × List ℕ)
read_all zero stream = some ([], stream)
read_all (suc n) [] = none
read_all (suc n) (byte ∷ stream) = elim (read_all n stream) [
  | none ↦ none
  | some (bytes, left) ↦ some (byte ∷ bytes, left)
]

-- `! is`: the stream has ended.
abbrev pub on_end : Bool → End
on_end server_mode = if server_mode then thread_returns else program_exits

module _ (sizeof_header max_size : ℕ) (msgh_size : List ℕ → ℕ) (items_of : List ℕ → List DataItem)
    (server_mode : Bool) where
  -- The body of the loop from the second `is.read` on; REST is what follows in the loop.
  unfoldable pub receive_body :
      (List ℕ → List NetworkMessage × End)
      → List ℕ
      → Option (List ℕ × List ℕ)
      → List NetworkMessage × End
  receive_body rest header none = ([], on_end server_mode)
  receive_body rest header (some (body, after)) =
      let (items, left) = receive_ool_data (items_of (header ++ body)) after in
      let (msgs, end) = rest left in (record { buffer = header ++ body; items = items } ∷ msgs, end)

  -- From the assert on.
  unfoldable pub receive_message :
      (List ℕ → List NetworkMessage × End) → Option (List ℕ × List ℕ) → List NetworkMessage × End
  receive_message rest none = ([], on_end server_mode)
  receive_message rest (some (header, after)) =
      if not (leb (msgh_size header) max_size)
      then ([], assertion)
      else (if ltb (msgh_size header) sizeof_header
          then ([], negative_count)
          else receive_body rest header (read_all (msgh_size header - sizeof_header) after))

  -- The messages that are handed on, to the run queues or to tcpBufferHandler, in their order.
  unfoldable pub tcp_handler : ℕ → List ℕ → List NetworkMessage × End
  tcp_handler zero stream = ([], out_of_fuel)
  tcp_handler (suc fuel) stream = receive_message (tcp_handler fuel) (read_all sizeof_header stream)
