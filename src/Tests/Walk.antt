-- ===== src/Tests/Walk.antt =====
-- Runs of the message iterator and of the typed reading of elements.
use hurd.Base.{ℕ, List, if◌then◌else◌, ◌==◌, ◌↔◌, ◌≢◌, ◌≡◌, refl, true, false, [], arith}
use hurd.Message.{TypeDescriptor, Message, item, has_item, name}
use hurd.Message.Value.{TypeName, integer_8, other}
use hurd.Netmsg.Debug.{Token, dprint_message, printed, out_of_fuel}
use hurd.Netmsg.Debug.Items.{IsPrintable}
use hurd.Netmsg.Debug.Printable.{dprint_message-IsPrintable}

-- Seven inline bytes in every item.
abbrev seven_bytes : TypeDescriptor
seven_bytes = record {
  msgt_inline = true;
  msgt_longform = false;
  msgt_name = 9;
  msgt_number = 7;
  msgt_size = 8;
  msgtl_name = 0;
  msgtl_number = 0;
  msgtl_size = 0;
}

-- Two items of four bytes of descriptor and eight of data.
abbrev two_items : Message
two_items = record {
  msgh_size = 48;
  descriptor_at = λ _. seven_bytes;
  pointer_at = λ _. 0;
  sizeof_header = 24;
  sizeof_type = 4;
  sizeof_type_long = 12;
}

-- The type number 9 is that of 8-bit numbers.
abbrev type_of_number : ℕ → TypeName
type_of_number n = if n == 9 then integer_8 else other

dprint_message-IsPrintable_example :
    let out = dprint_message (λ _. 7) type_of_number (λ _. false) two_items 1 [] 30 0 2000 in
    (((tokens : List Token) × (out ≡ printed tokens)) ↔ (
      (i : ℕ)
      → has_item two_items (item two_items i) ≡ true
      → IsPrintable two_items
          (item two_items i)
          (type_of_number (name two_items (item two_items i)))))
    × (out ≢ out_of_fuel)
dprint_message-IsPrintable_example =
    dprint_message-IsPrintable (λ _. 7) type_of_number (λ _. false) two_items (omega arith)
      (omega arith) 1 [] 30 0 2000 refl
