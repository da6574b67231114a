-- ===== src/Message.antt =====
-- machMessage.h: mach_msg_iterator and machMessage on a 32-bit machine. A pointer into a message is
-- its distance from the message's header. What a type descriptor holds, and how long descriptors
-- and the header are, is the kernel's: parameters here.
pub mod Walk
pub mod Value
use hurd.Base.{
  ℕ, zero, suc, ◌+◌, ◌-◌, ◌*◌, ◌/◌, ◌%◌, Bool, Option, none, some, ltb, ◌==◌, if◌then◌else◌,
}
use hurd.Pager.State.{word}

-- mach_msg_type_t and mach_msg_type_long_t at one place.
pub record TypeDescriptor : Type 0 where
  pub msgt_inline : Bool
  pub msgt_longform : Bool
  pub msgt_name : ℕ
  pub msgt_number : ℕ
  pub msgt_size : ℕ
  pub msgtl_name : ℕ
  pub msgtl_number : ℕ
  pub msgtl_size : ℕ

-- A received message, and the sizes of the kernel's types.
pub record Message : Type 0 where
  pub msgh_size : ℕ
  -- the descriptor, and the out-of-line pointer, that stand at a distance from the header
  pub descriptor_at : ℕ → TypeDescriptor
  pub pointer_at : ℕ → ℕ
  pub sizeof_header : ℕ
  pub sizeof_type : ℕ
  pub sizeof_type_long : ℕ

abbrev pub sizeof_long : ℕ
sizeof_long = 4

abbrev pub sizeof_pointer : ℕ
sizeof_pointer = 4

-- The iterator's constructor.
abbrev pub first_item : Message → ℕ
first_item m = m.sizeof_header

module _ (m : Message) where
  -- `operator bool`.
  abbrev pub has_item : ℕ → Bool
  has_item ptr = ltb ptr m.msgh_size

  abbrev pub is_inline : ℕ → Bool
  is_inline ptr = (m.descriptor_at ptr).msgt_inline

  abbrev pub header_size : ℕ → ℕ
  header_size ptr =
      if (m.descriptor_at ptr).msgt_longform then m.sizeof_type_long else m.sizeof_type

  abbrev pub name : ℕ → ℕ
  name ptr = let d = m.descriptor_at ptr in if d.msgt_longform then d.msgtl_name else d.msgt_name

  abbrev pub nelems : ℕ → ℕ
  nelems ptr =
      let d = m.descriptor_at ptr in if d.msgt_longform then d.msgtl_number else d.msgt_number

  abbrev pub elemsize_bits : ℕ → ℕ
  elemsize_bits ptr =
      let d = m.descriptor_at ptr in if d.msgt_longform then d.msgtl_size else d.msgt_size

  -- Bits to bytes, rounded up to whole long words.
  unfoldable pub data_size : ℕ → ℕ
  data_size ptr =
      let data_length = word (nelems ptr * elemsize_bits ptr + 7) / 8 in
      word (data_length + sizeof_long - 1) / sizeof_long * sizeof_long

  -- `operator++`.
  unfoldable pub advance : ℕ → ℕ
  advance ptr = ptr + (header_size ptr + (if is_inline ptr then data_size ptr else sizeof_pointer))

  -- `operator[]` of a message, by its loop.
  unfoldable pub skip : ℕ → ℕ → ℕ
  skip zero ptr = ptr
  skip (suc i) ptr = skip i (advance ptr)

  unfoldable pub item : ℕ → ℕ
  item i = skip i (first_item m)
