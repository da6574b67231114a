-- ===== src/Message/Walk.antt =====
-- Walking through the items of a Mach message with the iterator of machMessage.h.
use hurd.Base.{
  ℕ, zero, suc, ◌+◌, ◌*◌, ◌%◌, ◌^◌, ◌<◌, ◌≤◌, ◌≡◌, false, List, [], ◌∷◌, ltb, length, arith,
  if◌then◌else◌,
}
use hurd.Pager.State.{word}
use hurd.Message.{
  Message, sizeof_long, sizeof_pointer, first_item, has_item, is_inline, header_size, nelems,
  elemsize_bits, data_size, advance, skip, item,
}

-- If the item's bits do not overflow the machine's arithmetic, its size is a number of whole
-- long words that holds all the bits, and one long word less would not hold them.
data_size-IsRoundedUp :
    (m : Message) (ptr : ℕ)
    → nelems m ptr * elemsize_bits m ptr + 39 < 2 ^ 32
    → (data_size m ptr % sizeof_long ≡ 0)
      × (nelems m ptr * elemsize_bits m ptr ≤ data_size m ptr * 8)
      × (data_size m ptr * 8 < nelems m ptr * elemsize_bits m ptr + sizeof_long * 8)
unfolding data_size word
data_size-IsRoundedUp m ptr small = (omega arith, omega arith, omega arith)

-- The distance between one item and the next, by the data it carries.
abbrev pub extent : Message → ℕ → ℕ
extent m ptr = header_size m ptr + (if is_inline m ptr then data_size m ptr else sizeof_pointer)

-- The items of the given extents follow one another from `ptr` to `stop`.
abbrev pub IsLaidOut : Message → List ℕ → ℕ → ℕ → Type 0
IsLaidOut m [] ptr stop = ptr ≡ stop
IsLaidOut m (n ∷ ns) ptr stop = (extent m ptr ≡ n) × (0 < n) × IsLaidOut m ns (ptr + n) stop

abbrev pub total : ℕ → List ℕ → ℕ
total zero ns = 0
total (suc i) [] = 0
total (suc i) (n ∷ ns) = n + total i ns

ahead : (m : Message) (ns : List ℕ) (ptr stop : ℕ) → IsLaidOut m ns ptr stop → ptr ≤ stop
ahead m [] ptr stop laid = omega arith
ahead m (n ∷ ns) ptr stop laid = grind (arith, ahead m ns (ptr + n) stop laid.2)

skip_lem :
    (m : Message) (ns : List ℕ) (ptr stop i : ℕ)
    → IsLaidOut m ns ptr stop
    → i ≤ length ns
    → (skip m i ptr ≡ ptr + total i ns) × (ltb (skip m i ptr) stop ≡ ltb i (length ns))
unfolding skip advance
skip_lem m [] ptr stop zero laid bound = ground arith
skip_lem m [] ptr stop (suc i) laid bound = absurd (omega arith)
skip_lem m (n ∷ ns) ptr stop zero laid bound = ground (arith, ahead m ns (ptr + n) stop laid.2)
skip_lem m (n ∷ ns) ptr stop (suc i) laid bound =
    ground (arith, skip_lem m ns (ptr + n) stop i laid.2 (omega arith))

-- In a message whose items follow one another from its header to its end, `message[i]` stands
-- behind the extents of the first `i` items, and tests as an item exactly for the `i` below the
-- number of items, so that stepping on ends right behind the last one.
item_lem :
    (m : Message) (ns : List ℕ) (i : ℕ)
    → IsLaidOut m ns (first_item m) m.msgh_size
    → i ≤ length ns
    → (item m i ≡ first_item m + total i ns) × (has_item m (item m i) ≡ ltb i (length ns))
unfolding item
item_lem m ns i laid bound = skip_lem m ns (first_item m) m.msgh_size i laid bound

pub skip-far :
    (m : Message) (i ptr : ℕ) → 0 < m.sizeof_type → 0 < m.sizeof_type_long → ptr + i ≤ skip m i ptr
unfolding skip advance
skip-far m zero ptr short long = omega arith
skip-far m (suc i) ptr short long = ground (arith, skip-far m i (advance m ptr) short long)

-- An iterator always ends, whatever the message holds: if descriptors are not empty, then after as
-- many steps as the message has bytes, it is past the message's end.
item-ends :
    (m : Message)
    → 0 < m.sizeof_type
    → 0 < m.sizeof_type_long
    → has_item m (item m m.msgh_size) ≡ false
unfolding item
item-ends m short long = ground (arith, skip-far m m.msgh_size (first_item m) short long)
