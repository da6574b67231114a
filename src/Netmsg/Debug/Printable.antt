-- ===== src/Netmsg/Debug/Printable.antt =====
-- netmsg/netmsg.cc: which messages dprintMessage can print.
use hurd.Base.{
  ℕ, zero, suc, ◌+◌, ◌≤◌, ◌<◌, ◌≡◌, refl, ◌≢◌, ◌∙◌, sym, ap, ◌↔◌, inl, inr, Bool, true, false, not,
  ◌&&◌, Option, none, some, List, [], ◌∷◌, ◌++◌, ◌==◌, Bool-cases, arith,
}
use hurd.Message.{Message, first_item, has_item, name, advance, skip, item}
use hurd.Message.Walk.{skip-far}
use hurd.Message.Value.{TypeName}
use hurd.Netmsg.Debug.{
  Token, dec, space, open_paren, close_paren, message_name, if_so, Printed, printed, aborted,
  out_of_fuel, followed, print_item, print_items, dprint_message,
}
use hurd.Netmsg.Debug.Items.{IsPrintable, is_some, print_item-IsPrintable}

followed-out_of_fuel :
    (tokens : Option (List Token)) (rest : Printed)
    → followed tokens rest ≡ out_of_fuel
    → rest ≡ out_of_fuel
followed-out_of_fuel none rest h = cc
followed-out_of_fuel (some tokens) (printed more) h = cc
followed-out_of_fuel (some tokens) aborted h = h
followed-out_of_fuel (some tokens) out_of_fuel h = refl

module _ (byte_at : ℕ → ℕ) (type_of : ℕ → TypeName) (is_print : ℕ → Bool) where
  module _ (m : Message) (short : 0 < m.sizeof_type) (long : 0 < m.sizeof_type_long) where
    is_printed : Printed → Bool
    is_printed (printed tokens) = true
    is_printed aborted = false
    is_printed out_of_fuel = false

    followed-is_printed :
        (tokens : Option (List Token)) (rest : Printed)
        → is_printed (followed tokens rest) ≡ (is_some tokens && is_printed rest)
    unfolding is_printed
    followed-is_printed none rest = refl
    followed-is_printed (some tokens) (printed more) = refl
    followed-is_printed (some tokens) aborted = refl
    followed-is_printed (some tokens) out_of_fuel = refl

    -- The items from one on can be printed.
    abbrev ArePrintable : ℕ → Type 0
    ArePrintable ptr =
        (i : ℕ)
        → has_item m (skip m i ptr) ≡ true
        → IsPrintable m (skip m i ptr) (type_of (name m (skip m i ptr)))

    skip-le : (i ptr : ℕ) → ptr ≤ skip m i ptr
    skip-le i ptr = omega (arith, skip-far m i ptr short long)

    advance-lt : (ptr : ℕ) → ptr < advance m ptr
    unfolding advance
    advance-lt ptr = ground (arith, short, long)

    print_items-step :
        (fuel ptr : ℕ)
        → (ptr < m.msgh_size
            → (is_printed (print_items byte_at type_of is_print m fuel (advance m ptr)) ≡ true)
              ↔ ArePrintable (advance m ptr))
        → (is_printed (print_items byte_at type_of is_print m (suc fuel) ptr) ≡ true)
          ↔ ArePrintable ptr
    unfolding print_items skip is_printed
    print_items-step fuel ptr later = elim (Bool-cases (has_item m ptr)) [
      | inr e ↦ rw e (λ _ i h. ground (arith, e, h, skip-le i ptr), λ _. refl)
      | inl e ↦
          let this =
            print_item-IsPrintable byte_at type_of is_print m ptr (type_of (name m ptr)) refl in
          let tokens = print_item byte_at type_of is_print m ptr (type_of (name m ptr)) in
          let more = print_items byte_at type_of is_print m fuel (advance m ptr) in
          let rest = later (ground (arith, e)) in
          let both = followed-is_printed tokens more in
          rw e (
            (λ h.
                let parts : (is_some tokens ≡ true) × (is_printed more ≡ true) =
                  ground (arith, h, both) in
                (λ i.
                  elim i
                    as (λ k.
                      has_item m (skip m k ptr) ≡ true
                      → IsPrintable m (skip m k ptr) (type_of (name m (skip m k ptr)))) [
                        | zero ↦ λ _. this.0 parts.0
                        | suc j ↦ rest.0 parts.1 j
                      ])),
            (λ h. ground (arith, both, this.1 (h 0 e), rest.1 (λ j. h (suc j)))),
          )
    ]

    print_items-ArePrintable :
        (fuel ptr : ℕ)
        → m.msgh_size < ptr + suc fuel
        → (is_printed (print_items byte_at type_of is_print m (suc fuel) ptr) ≡ true)
          ↔ ArePrintable ptr
    print_items-ArePrintable zero ptr f = print_items-step zero ptr (λ l. absurd (omega arith))
    print_items-ArePrintable (suc fuel) ptr f =
        print_items-step (suc fuel) ptr
          (λ l. print_items-ArePrintable fuel (advance m ptr) (omega (arith, advance-lt ptr)))

    print_items-ends :
        (fuel ptr : ℕ)
        → m.msgh_size < ptr + suc fuel
        → print_items byte_at type_of is_print m (suc fuel) ptr ≢ out_of_fuel
    unfolding print_items
    print_items-ends zero ptr f = ground (arith, f)
    print_items-ends (suc fuel) ptr f =
        let next = advance m ptr in
        ground (
          arith,
          advance-lt ptr,
          followed-out_of_fuel (print_item byte_at type_of is_print m ptr (type_of (name m ptr)))
              (print_items byte_at type_of is_print m (suc fuel) next),
          print_items-ends fuel next,
        )

    is_printed_lem : (tokens : List Token) → is_printed (printed tokens) ≡ true
    unfolding is_printed
    is_printed_lem tokens = refl

    printed-is_printed :
        (out : Printed) → is_printed out ≡ true → (tokens : List Token) × (out ≡ printed tokens)
    unfolding is_printed
    printed-is_printed (printed tokens) h = (tokens, refl)
    printed-is_printed aborted h = cc
    printed-is_printed out_of_fuel h = cc

    -- With debugging on, and where type descriptors are not empty, dprintMessage prints a message
    -- exactly when each of its items is a string, has at most 32 bits, has no real numbers, is of an
    -- unknown type, or has elements of whole bytes or none. Otherwise an assert fails: the loop ends on
    -- any message.
    pub dprint_message-IsPrintable :
        (debug_level : ℕ) (prefix : List Token) (local_port remote_port id : ℕ)
        → (debug_level == 0) ≡ false
        → let out =
            dprint_message byte_at type_of is_print m debug_level prefix local_port remote_port
              id in
          (((tokens : List Token) × (out ≡ printed tokens)) ↔ (
            (i : ℕ)
            → has_item m (item m i) ≡ true
            → IsPrintable m (item m i) (type_of (name m (item m i)))))
          × (out ≢ out_of_fuel)
    unfolding dprint_message item
    dprint_message-IsPrintable debug_level prefix local_port remote_port id on =
        let items = print_items byte_at type_of is_print m (suc m.msgh_size) (first_item m) in
        let all = print_items-ArePrintable m.msgh_size (first_item m) (omega arith) in
        let ends : items ≢ out_of_fuel =
          print_items-ends m.msgh_size (first_item m) (omega arith) in
        let before : List Token =
          prefix
          ++ (dec local_port
                ∷ if_so (not (remote_port == 0)) (open_paren ∷ dec remote_port ∷ close_paren ∷ [])
              ++ (space ∷ message_name id ∷ [])) in
        let whole = followed-is_printed (some before) items in
        rw on (
          (
            (λ h. all.0 (sym whole ∙ ap is_printed h.1 ∙ is_printed_lem h.0)),
            (λ h. printed-is_printed (followed (some before) items) (whole ∙ all.1 h)),
          ),
          (λ h. ends (followed-out_of_fuel (some before) items h)),
        )
