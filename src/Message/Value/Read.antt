-- ===== src/Message/Value/Read.antt =====
-- What mach_msg_data_ptr of machMessage.h reads.
use hurd.Base.{ℕ, ◌+◌, ◌%◌, ◌^◌, ◌<◌, ◌≡◌, some, arith}
use hurd.Pager.State.{word}
use hurd.Message.Value.{
  TypeName, bit, char, integer_8, integer_16, string, int16_at, int32_at, read_data,
}

module _ (byte_at : ℕ → ℕ) where
  -- The bits of an element that its type says are there, as an unsigned number.
  abbrev pub stored : ℕ → TypeName → (ℕ × ℕ)
  stored ptr bit = (byte_at ptr % 2, 2)
  stored ptr char = (byte_at ptr, 0x100)
  stored ptr integer_8 = (byte_at ptr, 0x100)
  stored ptr integer_16 = (int16_at byte_at ptr, 0x10000)
  stored ptr string = (word ptr, 0x100000000)
  stored ptr _ = (int32_at byte_at ptr, 0x100000000)

  -- If memory holds bytes, then what is read of an element of any type but the two that fail is a
  -- 32-bit number that agrees with the stored one in all the bits that the type has, up to 32.
  read_data_lem :
      (ptr : ℕ) (t : TypeName) (v : ℕ)
      → ((p : ℕ) → byte_at p < 0x100)
      → read_data byte_at ptr t ≡ some v
      → (v < 2 ^ 32) × (v % (stored ptr t).1 ≡ (stored ptr t).0)
  unfolding read_data word
  read_data_lem ptr _ v bytes h =
      ground (arith, bytes ptr, bytes (ptr + 1), bytes (ptr + 2), bytes (ptr + 3))
