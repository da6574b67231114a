-- ===== src/Netmsg/Stream/RoundTrip.antt =====
-- netmsg/netmsg.cc: what is written to the network stream is what tcpHandler reads from it.
use hurd.Base.{
  ℕ, zero, suc, ◌+◌, ◌-◌, ◌≤◌, ◌<◌, ◌≡◌, refl, ap, Bool, none, some, List, [], ◌∷◌, ◌++◌, length,
  length-append, All, arith, append_assoc, append-nil,
}
use hurd.Netmsg.OutOfLine.{
  DataItem, transmit_ool_data, receive_ool_data, AreAlike, receive_ool_data-transmit_ool_data,
  length-transmit_ool_data, length-receive_ool_data,
}
use hurd.Netmsg.Stream.{
  NetworkMessage, End, send_messages, read_all, on_end, receive_body, receive_message, tcp_handler,
}

nil_of_length : (bytes : List ℕ) → length bytes ≡ 0 → bytes ≡ []
nil_of_length [] h = refl
nil_of_length (byte ∷ bytes) h = absurd (omega arith)

read_all-append :
    (bytes stream : List ℕ) → read_all (length bytes) (bytes ++ stream) ≡ some (bytes, stream)
unfolding read_all
read_all-append [] stream = refl
read_all-append (byte ∷ bytes) stream = rw (read_all-append bytes stream) refl

read_all-none : (n : ℕ) (stream : List ℕ) → length stream < n → read_all n stream ≡ none
unfolding read_all
read_all-none zero stream h = absurd (omega arith)
read_all-none (suc n) [] h = refl
read_all-none (suc n) (byte ∷ stream) h = rw (read_all-none n stream (omega arith)) refl

module _ (sizeof_header max_size : ℕ) (msgh_size : List ℕ → ℕ)
    (items_of : List ℕ → List DataItem) where
  -- A message as the kernel delivers it to ipcHandler: its buffer begins with a header that tells the
  -- buffer's length, and its items are those that its descriptors tell, with their data.
  pub record IsWhole (msg : NetworkMessage) : Type 0 where
    pub header : List ℕ
    pub body : List ℕ
    pub buffer : msg.buffer ≡ header ++ body
    pub header_length : length header ≡ sizeof_header
    pub size : msgh_size header ≡ length msg.buffer
    pub fits : length msg.buffer ≤ max_size
    pub alike : AreAlike msg.items (items_of msg.buffer)

module _ (sizeof_header max_size : ℕ) (msgh_size : List ℕ → ℕ) (items_of : List ℕ → List DataItem)
    (server_mode : Bool) where
  -- The thread's run on a stream.
  abbrev run : ℕ → List ℕ → List NetworkMessage × End
  run = tcp_handler sizeof_header max_size msgh_size items_of server_mode

  -- What the thread makes of a message's buffer, whatever follows.
  tcp_handler-buffer :
      (fuel : ℕ) (msg : NetworkMessage) (after : List ℕ) (items : List DataItem) (left : List ℕ)
      → IsWhole sizeof_header max_size msgh_size items_of msg
      → receive_ool_data (items_of msg.buffer) after ≡ (items, left)
      → run (suc fuel) (msg.buffer ++ after)
        ≡ (record { buffer = msg.buffer; items = items } ∷ (run fuel left).0, (run fuel left).1)
  unfolding tcp_handler receive_message receive_body
  tcp_handler-buffer fuel msg after items left w e =
      let split : msg.buffer ++ after ≡ w.header ++ (w.body ++ after) =
        rw w.buffer (append_assoc w.header w.body after) in
      let first : read_all sizeof_header (msg.buffer ++ after) ≡ some (w.header, w.body ++ after) =
        rw (split, ← w.header_length) (read_all-append w.header (w.body ++ after)) in
      let count : msgh_size w.header - sizeof_header ≡ length w.body =
        omega (arith, w.size, w.header_length, ap length w.buffer, length-append w.header w.body) in
      let second : read_all (msgh_size w.header - sizeof_header) (w.body ++ after)
          ≡ some (w.body, after) =
        rw count (read_all-append w.body after) in
      ground (
        arith,
        first,
        second,
        w.fits,
        w.size,
        w.buffer,
        w.header_length,
        ap length w.buffer,
        length-append w.header w.body,
        e,
      )

  tcp_handler-whole :
      (msgs : List NetworkMessage) (after : List ℕ) (fuel left : ℕ)
      → All (IsWhole sizeof_header max_size msgh_size items_of) msgs
      → fuel ≡ length msgs + left
      → run fuel (send_messages msgs ++ after) ≡ (msgs ++ (run left after).0, (run left after).1)
  tcp_handler-whole [] after fuel left w e =
      let same : fuel ≡ left = omega (arith, e) in rw same refl
  tcp_handler-whole (msg ∷ msgs) after zero left w e = absurd (omega arith)
  tcp_handler-whole (msg ∷ msgs) after (suc fuel) left w e =
      let ool : List ℕ = transmit_ool_data msg.items in
      let stream : (msg.buffer ++ ool) ++ send_messages msgs ++ after
          ≡ msg.buffer ++ (ool ++ (send_messages msgs ++ after)) =
        simp append_assoc in
      let received =
        receive_ool_data-transmit_ool_data msg.items (items_of msg.buffer)
          (send_messages msgs ++ after) w.0.alike in
      let rest = tcp_handler-whole msgs after fuel left w.1 (omega arith) in
      rw
        (
          stream,
          tcp_handler-buffer fuel msg _ msg.items (send_messages msgs ++ after) w.0 received,
          rest,
        )
        refl

  tcp_handler-end :
      (fuel : ℕ) (tail : List ℕ)
      → length tail < sizeof_header
      → run (suc fuel) tail ≡ ([], on_end server_mode)
  unfolding tcp_handler receive_message
  tcp_handler-end fuel tail h = rw (read_all-none sizeof_header tail h) refl

  -- The network stream loses, adds and reorders nothing: from a stream on which messages as the kernel
  -- delivers them have been written, in an order, followed by fewer bytes than a header has, the thread
  -- hands on these messages, in that order, their out-of-line data included, and then returns or, in
  -- a client, exits; with fuel above the number of messages.
  pub tcp_handler-send_messages :
      (msgs : List NetworkMessage) (tail : List ℕ) (fuel : ℕ)
      → All (IsWhole sizeof_header max_size msgh_size items_of) msgs
      → length tail < sizeof_header
      → length msgs < fuel
      → run fuel (send_messages msgs ++ tail) ≡ (msgs, on_end server_mode)
  tcp_handler-send_messages msgs tail fuel w t f =
      let whole = tcp_handler-whole msgs tail fuel (suc (fuel - length msgs - 1)) w (omega arith) in
      rw (whole, tcp_handler-end (fuel - length msgs - 1) tail t, append-nil msgs) refl

  -- Where the connection ends in the out-of-line data of a message, or before them or after them, the
  -- message is handed on all the same, after the whole messages before it, with what receiveOOLdata
  -- makes of the part of its data that arrived; a header is not empty, and the fuel is above the number
  -- of messages.
  pub tcp_handler-cut :
      (msgs : List NetworkMessage) (msg : NetworkMessage) (part missing : List ℕ) (fuel : ℕ)
      → All (IsWhole sizeof_header max_size msgh_size items_of) msgs
      → IsWhole sizeof_header max_size msgh_size items_of msg
      → part ++ missing ≡ transmit_ool_data msg.items
      → 0 < sizeof_header
      → length msgs + 1 < fuel
      → run fuel (send_messages msgs ++ (msg.buffer ++ part)) ≡ (
        msgs
            ++ (record {
              buffer = msg.buffer;
              items = (receive_ool_data (items_of msg.buffer) part).0;
            }
                ∷ []),
        on_end server_mode,
      )
  tcp_handler-cut msgs msg part missing fuel w v e p f =
      let left = suc (fuel - length msgs - 2) in
      let whole = tcp_handler-whole msgs (msg.buffer ++ part) fuel (suc left) w (omega arith) in
      let spent : (receive_ool_data (items_of msg.buffer) part).1 ≡ [] = nil_of_length _ (
        omega (
          arith,
          length-receive_ool_data (items_of msg.buffer) part,
          length-transmit_ool_data msg.items (items_of msg.buffer) v.alike,
          ap length e,
          length-append part missing,
        )) in
      let last = tcp_handler-buffer left msg part _ _ v refl in
      rw (whole, last, spent, tcp_handler-end (fuel - length msgs - 2) [] p) refl
