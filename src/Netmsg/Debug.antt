-- ===== src/Netmsg/Debug.antt =====
-- netmsg/netmsg.cc: dprintMessage, what the program prints of a message if debugLevel is not 0. The
-- output is a list of tokens; msgid_name, whose result is one of them, has its own file.
pub mod Items
pub mod Printable
use hurd.Base.{
  ℕ, zero, suc, ◌+◌, ◌%◌, Bool, true, false, not, ◌&&◌, ◌||◌, Option, none, some, List, [], ◌∷◌,
  ◌++◌, ltb, leb, ◌==◌, if◌then◌else◌,
}
use hurd.Message.{Message, first_item, has_item, is_inline, header_size, name, nelems, advance}
use hurd.Message.Value.{
  TypeName, bit, char, integer_8, integer_16, integer_32, port_name, integer_64, real, string,
  other, move_receive, move_send, move_send_once, copy_send, make_send, make_send_once, int32_at,
  element,
}

pub data Token : Type 0 where
  -- a number in decimal, and one in hexadecimal
  dec hex : ℕ → Token
  -- the characters at an address, up to a NUL
  c_string : ℕ → Token
  -- a character as it is, and as \x and two digits
  plain escape : ℕ → Token
  -- pn, r, s, so, cs, ms, mso
  label : TypeName → Token
  -- msgid_name of a message number
  message_name : ℕ → Token
  space quote open_paren close_paren open_brace close_brace dots newline : Token

-- Two parts of the output; an assert that fails in one is a failure of both.
abbrev pub joined : Option (List Token) → Option (List Token) → Option (List Token)
joined none ys = none
joined (some xs) none = none
joined (some xs) (some ys) = some (xs ++ ys)

abbrev pub if_so : Bool → List Token → List Token
if_so b tokens = if b then tokens else []

-- The labels of the first switch.
abbrev pub type_label : TypeName → List Token
type_label port_name = label port_name ∷ []
type_label move_receive = label move_receive ∷ []
type_label move_send = label move_send ∷ []
type_label move_send_once = label move_send_once ∷ []
type_label copy_send = label copy_send ∷ []
type_label make_send = label make_send ∷ []
type_label make_send_once = label make_send_once ∷ []
type_label _ = []

-- MACH_MSG_TYPE_PORT_ANY, or MACH_MSG_TYPE_PORT_NAME.
abbrev pub is_port : TypeName → Bool
is_port port_name = true
is_port move_receive = true
is_port move_send = true
is_port move_send_once = true
is_port copy_send = true
is_port make_send = true
is_port make_send_once = true
is_port _ = false

abbrev pub is_char : TypeName → Bool
is_char char = true
is_char _ = false

-- The program prints, an assert fails, or the model's fuel is used up.
pub data Printed : Type 0 where
  printed : List Token → Printed
  aborted : Printed
  out_of_fuel : Printed

abbrev pub followed : Option (List Token) → Printed → Printed
followed none rest = aborted
followed (some tokens) (printed more) = printed (tokens ++ more)
followed (some tokens) aborted = aborted
followed (some tokens) out_of_fuel = out_of_fuel

-- BYTE_AT is the memory, TYPE_OF gives the kernel's numbers for types their names, IS_PRINT is isprint.
module _ (byte_at : ℕ → ℕ) (type_of : ℕ → TypeName) (is_print : ℕ → Bool) where
  abbrev pub print_char : ℕ → List Token
  print_char v = if is_print (v % 0x100) then plain (v % 0x100) ∷ [] else escape (v % 0x100) ∷ []

  -- The second switch, on the element that `ptr[i]` reads.
  unfoldable pub print_element : TypeName → Option ℕ → Option (List Token)
  print_element bit v = none
  print_element string v = none
  print_element real v = none
  print_element other v = some []
  print_element t none = none
  print_element char (some v) = some (print_char v)
  print_element t (some v) = some (dec v ∷ [])

  module _ (m : Message) where
    abbrev pub item_type : ℕ → TypeName
    item_type ptr = type_of (name m ptr)

    -- Where `ptr.data()` leads.
    abbrev pub data_address : ℕ → ℕ
    data_address ptr =
        if is_inline m ptr then ptr + header_size m ptr else m.pointer_at (ptr + header_size m ptr)

    -- So many elements from the I-th on.
    unfoldable pub print_elements : ℕ → ℕ → ℕ → Option (List Token)
    unfolding print_element
    print_elements ptr i zero = some []
    print_elements ptr i (suc count) =
        joined (some (if_so (ltb 0 i && not (is_char (item_type ptr))) (space ∷ []))) (
          joined (print_element (item_type ptr) (element byte_at type_of m ptr i))
            (print_elements ptr (i + 1) count))

    -- From the test of `ptr.nelems() > 32` on.
    unfoldable pub print_typed : ℕ → Option (List Token)
    unfolding print_elements
    print_typed ptr =
        let n = nelems m ptr in
        let t = item_type ptr in
        let braces = is_port t || ltb 1 n in
        joined
          (some (if_so (ltb 32 n) (dec n ∷ []) ++ (type_label t ++ if_so braces (open_brace ∷ []))))
          (joined (print_elements ptr 0 (if ltb n 32 then n else 32))
            (some (if_so (ltb 32 n) (dots ∷ []) ++ if_so braces (close_brace ∷ []))))

    -- The body of the loop.
    unfoldable pub print_item : ℕ → TypeName → Option (List Token)
    unfolding print_typed
    print_item ptr string = some (space ∷ quote ∷ c_string (data_address ptr) ∷ quote ∷ space ∷ [])
    print_item ptr bit =
        if leb (nelems m ptr) 32
        then some (space ∷ hex (int32_at byte_at (data_address ptr)) ∷ [])
        else none
    print_item ptr _ = joined (some (space ∷ [])) (print_typed ptr)

    unfoldable pub print_items : ℕ → ℕ → Printed
    unfolding print_item
    print_items zero ptr = out_of_fuel
    print_items (suc fuel) ptr =
        let rest = print_items fuel (advance m ptr) in
        if has_item m ptr
        then followed (print_item ptr (item_type ptr)) rest
        else printed (newline ∷ [])

    -- PREFIX is printed first; the ports and the number are the header's.
    unfoldable pub dprint_message : ℕ → List Token → ℕ → ℕ → ℕ → Printed
    unfolding print_items
    dprint_message debug_level prefix local_port remote_port id =
        if debug_level == 0
        then printed []
        else followed
            (some (
              prefix
              ++ (dec local_port
                    ∷ if_so (not (remote_port == 0))
                        (open_paren ∷ dec remote_port ∷ close_paren ∷ [])
                  ++ (space ∷ message_name id ∷ []))))
            (print_items (suc m.msgh_size) (first_item m))
