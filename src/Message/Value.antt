-- ===== src/Message/Value.antt =====
-- machMessage.h: mach_msg_data_ptr, the elements of an item, and mach_call.
pub mod Read
use hurd.Base.{
  ℕ, ◌+◌, ◌-◌, ◌*◌, ◌/◌, ◌%◌, ◌^◌, Bool, true, false, ◌&&◌, not, List, [], ◌∷◌, Option, none, some,
  ltb, ◌==◌, contains, if◌then◌else◌,
}
use hurd.Pager.State.{word}
use hurd.Message.{Message, is_inline, header_size, name, elemsize_bits}

-- The cases of the switch on a type name.
pub data TypeName : Type 0 where
  bit char integer_8 integer_16 integer_32 port_name integer_64 real string other : TypeName
  move_receive move_send move_send_once copy_send make_send make_send_once : TypeName

-- A signed number of 8 or 16 bits converted to `unsigned int`.
abbrev pub extend_8 : ℕ → ℕ
extend_8 n = if ltb n 0x80 then n else n + 0xffffff00

abbrev pub extend_16 : ℕ → ℕ
extend_16 n = if ltb n 0x8000 then n else n + 0xffff0000

-- The memory that pointers lead to, by bytes, lowest first.
module _ (byte_at : ℕ → ℕ) where
  abbrev pub int16_at : ℕ → ℕ
  int16_at ptr = byte_at ptr + 0x100 * byte_at (ptr + 1)

  abbrev pub int32_at : ℕ → ℕ
  int32_at ptr = int16_at ptr + 0x10000 * int16_at (ptr + 2)

  -- `operator*` of mach_msg_data_ptr; `none` is its failed assertion. A 64-bit number is cut to its
  -- low 32 bits, and a string is its address.
  unfoldable pub read_data : ℕ → TypeName → Option ℕ
  read_data ptr bit = some (byte_at ptr % 2)
  read_data ptr char = some (extend_8 (byte_at ptr))
  read_data ptr integer_8 = some (extend_8 (byte_at ptr))
  read_data ptr integer_16 = some (extend_16 (int16_at ptr))
  read_data ptr integer_32 = some (int32_at ptr)
  read_data ptr port_name = some (int32_at ptr)
  read_data ptr move_receive = some (int32_at ptr)
  read_data ptr move_send = some (int32_at ptr)
  read_data ptr move_send_once = some (int32_at ptr)
  read_data ptr copy_send = some (int32_at ptr)
  read_data ptr make_send = some (int32_at ptr)
  read_data ptr make_send_once = some (int32_at ptr)
  read_data ptr integer_64 = some (int32_at ptr)
  read_data ptr real = none
  read_data ptr string = some (word ptr)
  read_data ptr other = none

  -- `operator[]` of mach_msg_iterator, by the meaning of the kernel's numbers for types.
  unfoldable pub element : (ℕ → TypeName) → Message → ℕ → ℕ → Option ℕ
  element type_of m ptr i =
      let base =
        if is_inline m ptr
        then ptr + header_size m ptr
        else m.pointer_at (ptr + header_size m ptr) in
      let address = base + word (i * elemsize_bits m ptr) / 8 in
      if elemsize_bits m ptr % 8 == 0 then read_data address (type_of (name m ptr)) else none

-- `_mach_call`: the error, and whether a warning is printed.
abbrev pub mach_call : ℕ → List ℕ → ℕ × Bool
mach_call err ignores = (err, not (err == 0) && not (contains err ignores))
