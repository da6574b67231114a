-- ===== src/Netmsg/Debug/Items.antt =====
-- netmsg/netmsg.cc: which items dprintMessage can print.
use hurd.Base.{
  ℕ, zero, suc, ◌+◌, ◌%◌, ◌≤◌, ◌≡◌, refl, ◌∙◌, ◌↔◌, ◌⊎◌, inl, inr, Bool, true, false, not, ◌&&◌,
  ◌||◌, Option, none, some, List, [], ◌∷◌, ◌++◌, ltb, ◌==◌, if◌then◌else◌, Bool-cases, arith,
}
use hurd.Message.{Message, name, nelems, elemsize_bits}
use hurd.Message.Value.{TypeName, bit, real, string, other, read_data, element}
use hurd.Netmsg.Debug.{
  Token, dec, space, dots, open_brace, close_brace, if_so, is_char, is_port, type_label, joined,
  print_element, print_elements, print_typed, print_item,
}

-- An item that dprintMessage can print: any string, at most 32 bits, no real numbers, elements of an
-- unknown type, and characters, numbers and ports if an element has whole bytes.
abbrev pub IsPrintable : Message → ℕ → TypeName → Type 0
IsPrintable m ptr string = Unit
IsPrintable m ptr other = Unit
IsPrintable m ptr bit = nelems m ptr ≤ 32
IsPrintable m ptr real = nelems m ptr ≡ 0
IsPrintable m ptr _ = (nelems m ptr ≡ 0) ⊎ (elemsize_bits m ptr % 8 ≡ 0)

abbrev pub is_some {ℓ} : {A : Type ℓ} → Option A → Bool
is_some none = false
is_some (some a) = true

abbrev is_readable : TypeName → Bool
is_readable real = false
is_readable other = false
is_readable _ = true

joined-is_some : (xs ys : Option (List Token)) → is_some (joined xs ys) ≡ (is_some xs && is_some ys)
joined-is_some none ys = refl
joined-is_some (some xs) none = refl
joined-is_some (some xs) (some ys) = refl

joined-after :
    (xs : List Token) (ys : Option (List Token)) → is_some (joined (some xs) ys) ≡ is_some ys
joined-after xs none = refl
joined-after xs (some ys) = refl

joined-before :
    (xs : Option (List Token)) (ys : List Token) → is_some (joined xs (some ys)) ≡ is_some xs
joined-before none ys = refl
joined-before (some xs) ys = refl

module _ (byte_at : ℕ → ℕ) (type_of : ℕ → TypeName) (is_print : ℕ → Bool) where
  read_data-is_some : (ptr : ℕ) (t : TypeName) → is_some (read_data byte_at ptr t) ≡ is_readable t
  unfolding read_data
  read_data-is_some ptr bit = refl
  read_data-is_some ptr real = refl
  read_data-is_some ptr other = refl
  read_data-is_some ptr t = ground arith

  module _ (m : Message) (ptr : ℕ) where
    -- An element of the item can be printed.
    can_print : TypeName → Bool
    can_print bit = false
    can_print string = false
    can_print real = false
    can_print other = true
    can_print _ = elemsize_bits m ptr % 8 == 0

    element-is_some :
        (i : ℕ)
        → is_some (element byte_at type_of m ptr i)
          ≡ ((elemsize_bits m ptr % 8 == 0) && is_readable (type_of (name m ptr)))
    unfolding element
    element-is_some i = elim (Bool-cases (elemsize_bits m ptr % 8 == 0)) [
      | inl e ↦ rw e (read_data-is_some _ _)
      | inr e ↦ rw e refl
    ]

    print_element-is_some :
        (t : TypeName) (v : Option ℕ)
        → is_some v ≡ ((elemsize_bits m ptr % 8 == 0) && is_readable t)
        → is_some (print_element byte_at type_of is_print t v) ≡ can_print t
    unfolding print_element can_print
    print_element-is_some t none e = ground (arith, e)
    print_element-is_some t (some x) e = ground (arith, e)

    print_elements-is_some :
        (i count : ℕ)
        → is_some (print_elements byte_at type_of is_print m ptr i count)
          ≡ ((count == 0) || can_print (type_of (name m ptr)))
    unfolding print_elements
    print_elements-is_some i zero = refl
    print_elements-is_some i (suc count) =
        let t = type_of (name m ptr) in
        let this = print_element byte_at type_of is_print t (element byte_at type_of m ptr i) in
        let rest = print_elements byte_at type_of is_print m ptr (i + 1) count in
        joined-after (if_so (ltb 0 i && not (is_char t)) (space ∷ [])) (joined this rest)
        ∙ joined-is_some this rest
        ∙ ground (
          arith,
          print_elements-is_some (i + 1) count,
          print_element-is_some t (element byte_at type_of m ptr i) (element-is_some i),
        )

    print_typed-is_some :
        is_some (print_typed byte_at type_of is_print m ptr)
        ≡ ((nelems m ptr == 0) || can_print (type_of (name m ptr)))
    unfolding print_typed
    print_typed-is_some =
        let count : ℕ = if ltb (nelems m ptr) 32 then nelems m ptr else 32 in
        let elements = print_elements byte_at type_of is_print m ptr 0 count in
        let n = nelems m ptr in
        let t = type_of (name m ptr) in
        let braces = is_port t || ltb 1 n in
        joined-after
          (if_so (ltb 32 n) (dec n ∷ []) ++ (type_label t ++ if_so braces (open_brace ∷ [])))
          (joined elements (some (if_so (ltb 32 n) (dots ∷ []) ++ if_so braces (close_brace ∷ []))))
        ∙ joined-before elements (if_so (ltb 32 n) (dots ∷ []) ++ if_so braces (close_brace ∷ []))
        ∙ ground (arith, print_elements-is_some 0 count)

    pub print_item-IsPrintable :
        (t : TypeName)
        → t ≡ type_of (name m ptr)
        → (is_some (print_item byte_at type_of is_print m ptr t) ≡ true) ↔ IsPrintable m ptr t
    unfolding print_item can_print
    print_item-IsPrintable string e = (λ _. tt, λ _. refl)
    print_item-IsPrintable bit e = ground arith
    print_item-IsPrintable t e =
        let typed = print_typed byte_at type_of is_print m ptr in
        ground (arith, e, joined-is_some (some (space ∷ [])) typed, print_typed-is_some)
