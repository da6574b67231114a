-- ===== src/Tests/Stream.antt =====
-- Runs of tcpHandler on concrete streams: a header of two bytes, the first of which is msgh_size, and
-- one item in each message.
use hurd.Base.{ℕ, ◌≡◌, refl, true, false, List, [], ◌∷◌, ◌++◌, arith}
use hurd.Netmsg.OutOfLine.{DataItem}
use hurd.Netmsg.Stream.{
  NetworkMessage, thread_returns, program_exits, negative_count, send_messages, read_all,
  receive_body, receive_message, tcp_handler,
}
use hurd.Netmsg.Stream.RoundTrip.{IsWhole, tcp_handler-send_messages, tcp_handler-cut}
use hurd.Netmsg.Stream.Bounds.{IsBounded, tcp_handler-IsBounded}

abbrev size_of : List ℕ → ℕ
size_of [] = 0
size_of (size ∷ _) = size

-- Three bytes out of line, that are not there yet.
abbrev stale_items : List ℕ → List DataItem
stale_items _ = record { is_inline = false; contents = 0 ∷ 0 ∷ 0 ∷ [] } ∷ []

abbrev message : ℕ → NetworkMessage
message id = record {
  buffer = 3 ∷ id ∷ 40 ∷ [];
  items = record { is_inline = false; contents = 50 ∷ 60 ∷ id ∷ [] } ∷ [];
}

message-IsWhole : (id : ℕ) → IsWhole 2 10 size_of stale_items (message id)
message-IsWhole id = record {
  header = 3 ∷ id ∷ [];
  body = 40 ∷ [];
  buffer = refl;
  header_length = refl;
  size = refl;
  fits = omega arith;
  alike = (refl, refl, λ e. ground (arith, e), tt);
}

short_message : tcp_handler 2 10 size_of stale_items false 9 (1 ∷ 7 ∷ []) ≡ ([], negative_count)
unfolding tcp_handler receive_message receive_body read_all
short_message = refl

tcp_handler-send_messages_example :
    tcp_handler 2 10 size_of stale_items false 9
      (send_messages (message 7 ∷ message 8 ∷ []) ++ 3 ∷ [])
    ≡ (message 7 ∷ message 8 ∷ [], program_exits)
tcp_handler-send_messages_example =
    tcp_handler-send_messages 2 10 size_of stale_items false (message 7 ∷ message 8 ∷ []) (3 ∷ []) 9
      (message-IsWhole 7, (message-IsWhole 8, tt)) (omega arith) (omega arith)

abbrev half_message : NetworkMessage
half_message = record {
  buffer = 3 ∷ 8 ∷ 40 ∷ [];
  items = record { is_inline = false; contents = 50 ∷ 0 ∷ 0 ∷ [] } ∷ [];
}

tcp_handler-cut_example :
    tcp_handler 2 10 size_of stale_items true 9
      (send_messages (message 7 ∷ []) ++ ((3 ∷ 8 ∷ 40 ∷ []) ++ 50 ∷ []))
    ≡ (message 7 ∷ half_message ∷ [], thread_returns)
tcp_handler-cut_example =
    tcp_handler-cut 2 10 size_of stale_items true (message 7 ∷ []) (message 8) (50 ∷ [])
      (60 ∷ 8 ∷ []) 9 (message-IsWhole 7, tt) (message-IsWhole 8) refl (omega arith) (omega arith)

tcp_handler-IsBounded_example :
    IsBounded 2 10 (tcp_handler 2 10 size_of stale_items true 9 (3 ∷ 7 ∷ 40 ∷ 50 ∷ []))
tcp_handler-IsBounded_example =
    tcp_handler-IsBounded 2 10 size_of stale_items true (omega arith) 9 (3 ∷ 7 ∷ 40 ∷ 50 ∷ [])
      (omega arith)
