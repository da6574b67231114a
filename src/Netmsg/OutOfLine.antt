-- ===== src/Netmsg/OutOfLine.antt =====
-- netmsg/netmsg.cc: transmitOOLdata and receiveOOLdata, the out-of-line data that follow a message on
-- the network stream.
use hurd.Base.{
  ℕ, zero, suc, ◌≡◌, refl, Bool, false, not, ◌&&◌, List, [], ◌∷◌, ◌++◌, if◌then◌else◌, length,
  length-append, ◌-◌, ◌+◌, ltb, arith, Bool-cases, inl, inr, append_assoc,
}

-- An item of a message: whether its data are in the message, and the bytes of its data, data_size many.
pub record DataItem : Type 0 where
  pub is_inline : Bool
  pub contents : List ℕ

-- `! ptr.is_inline() && (ptr.data_size() > 0)`.
abbrev pub is_out_of_line : DataItem → Bool
is_out_of_line item = not item.is_inline && ltb 0 (length item.contents)

-- What is written to the stream.
abbrev pub transmit_ool_data : List DataItem → List ℕ
transmit_ool_data [] = []
transmit_ool_data (item ∷ items) =
    let rest = transmit_ool_data items in
    if is_out_of_line item then item.contents ++ rest else rest

-- `is.read` into memory that vm_allocate has filled with zeros: so many bytes, those of the stream as
-- far as it goes, and what is left of it.
abbrev pub read : ℕ → List ℕ → List ℕ × List ℕ
read zero stream = ([], stream)
read (suc n) [] = let (bytes, left) = read n [] in (0 ∷ bytes, left)
read (suc n) (byte ∷ stream) = let (bytes, left) = read n stream in (byte ∷ bytes, left)

-- The items with the data that are read from the stream, and what is left of it. Before, an
-- out-of-line item's pointer leads nowhere in this task: only the length of its contents counts.
abbrev pub receive_ool_data : List DataItem → List ℕ → List DataItem × List ℕ
receive_ool_data [] stream = ([], stream)
receive_ool_data (item ∷ items) stream =
    let (bytes, after) =
      if is_out_of_line item then read (length item.contents) stream else (item.contents, stream) in
    let (rest, left) = receive_ool_data items after in
    (record item { contents = bytes } ∷ rest, left)

-- The same message, but for what stands behind the pointers of its out-of-line items.
abbrev pub AreAlike : List DataItem → List DataItem → Type 0
AreAlike [] [] = Unit
AreAlike (item ∷ items) (stale ∷ others) =
    (stale.is_inline ≡ item.is_inline)
    × (length stale.contents ≡ length item.contents)
    × ((is_out_of_line item ≡ false) → stale.contents ≡ item.contents)
    × AreAlike items others
AreAlike _ _ = ⊥

pub read-append : (bytes stream : List ℕ) → read (length bytes) (bytes ++ stream) ≡ (bytes, stream)
read-append [] stream = refl
read-append (byte ∷ bytes) stream = rw (read-append bytes stream) refl

-- The out-of-line data of a message arrive: reading from a stream on which transmitOOLdata has written
-- the data of the items, followed by anything, gives the items with their data and leaves what follows,
-- whatever stands in the received message behind the pointers of its out-of-line items.
pub receive_ool_data-transmit_ool_data :
    (items stale : List DataItem) (after : List ℕ)
    → AreAlike items stale
    → receive_ool_data stale (transmit_ool_data items ++ after) ≡ (items, after)
receive_ool_data-transmit_ool_data [] [] after h = refl
receive_ool_data-transmit_ool_data (item ∷ items) (stale ∷ others) after h =
    let rest = receive_ool_data-transmit_ool_data items others after h.3 in
    elim (Bool-cases (is_out_of_line item)) [
      | inl e ↦ ground (
        arith,
        e,
        h.0,
        h.1,
        rest,
        append_assoc item.contents (transmit_ool_data items) after,
        read-append item.contents (transmit_ool_data items ++ after),
      )
      | inr e ↦ ground (arith, e, h.0, h.1, h.2 e, rest)
    ]
receive_ool_data-transmit_ool_data [] (stale ∷ others) after h = absurd h
receive_ool_data-transmit_ool_data (item ∷ items) [] after h = absurd h

-- How many bytes of out-of-line data a message has.
abbrev pub ool_size : List DataItem → ℕ
ool_size [] = 0
ool_size (item ∷ items) = (if is_out_of_line item then length item.contents else 0) + ool_size items

pub length-transmit_ool_data :
    (items stale : List DataItem)
    → AreAlike items stale
    → length (transmit_ool_data items) ≡ ool_size stale
length-transmit_ool_data [] [] h = refl
length-transmit_ool_data (item ∷ items) (stale ∷ others) h = ground (
  arith,
  h.0,
  h.1,
  length-append item.contents (transmit_ool_data items),
  length-transmit_ool_data items others h.3,
)
length-transmit_ool_data [] (stale ∷ others) h = absurd h
length-transmit_ool_data (item ∷ items) [] h = absurd h

-- A read takes what it asks for, and no less if there is so much.
length-read : (n : ℕ) (stream : List ℕ) → length (read n stream).1 ≡ length stream - n
length-read zero stream = omega arith
length-read (suc n) [] = omega (arith, length-read n [])
length-read (suc n) (byte ∷ stream) = omega (arith, length-read n stream)

pub length-receive_ool_data :
    (stale : List DataItem) (stream : List ℕ)
    → length (receive_ool_data stale stream).1 ≡ length stream - ool_size stale
length-receive_ool_data [] stream = omega arith
length-receive_ool_data (item ∷ items) stream =
    let after : List ℕ =
      (if is_out_of_line item
        then read (length item.contents) stream
        else (item.contents, stream)).1 in
    ground (arith, length-read (length item.contents) stream, length-receive_ool_data items after)
