-- ===== src/Netmsg/Stream/Bounds.antt =====
-- netmsg/netmsg.cc: what tcpHandler does on any stream, whoever wrote it.
use hurd.Base.{
  ℕ, zero, suc, ◌+◌, ◌-◌, ◌≤◌, ◌<◌, ◌≡◌, ◌≢◌, refl, Bool, Option, none, some, List, [], ◌∷◌, ◌++◌,
  length, length-append, not, All, ltb, leb, arith, Bool-cases, Option-cases, inl, inr,
}
use hurd.Netmsg.OutOfLine.{DataItem, receive_ool_data, length-receive_ool_data}
use hurd.Netmsg.Stream.{
  NetworkMessage, End, out_of_fuel, read_all, on_end, receive_body, receive_message, tcp_handler,
}

read_all_lengths :
    (n : ℕ) (stream bytes left : List ℕ)
    → read_all n stream ≡ some (bytes, left)
    → (length bytes ≡ n) × (length left + n ≡ length stream)
unfolding read_all
read_all_lengths zero stream bytes left e = ground (arith, e)
read_all_lengths (suc n) [] bytes left e = ground (arith, e)
read_all_lengths (suc n) (byte ∷ stream) bytes left e = elim (Option-cases (read_all n stream)) [
  | inl f ↦ ground (arith, e, f)
  | inr ((b, l), f) ↦ ground (arith, e, f, read_all_lengths n stream b l f)
]

module _ (sizeof_header max_size : ℕ) where
  -- A message that fits its buffer.
  abbrev pub Fits : NetworkMessage → Type 0
  Fits msg = (sizeof_header ≤ length msg.buffer) × (length msg.buffer ≤ max_size)

  -- A run that hands on such messages only, and has an end.
  abbrev pub IsBounded : List NetworkMessage × End → Type 0
  IsBounded run = All Fits run.0 × (run.1 ≢ out_of_fuel)

module _ (sizeof_header max_size : ℕ) (msgh_size : List ℕ → ℕ) (items_of : List ℕ → List DataItem)
    (server_mode : Bool) (positive : 0 < sizeof_header) where
  on_end_lem : on_end server_mode ≢ out_of_fuel
  on_end_lem = elim (Bool-cases server_mode) [
    | inl e ↦ ground (arith, e)
    | inr e ↦ ground (arith, e)
  ]

  module _ (rest : List ℕ → List NetworkMessage × End) (size : ℕ) where
    receive_body-IsBounded :
        (header : List ℕ) (got : Option (List ℕ × List ℕ))
        → ((body after : List ℕ)
            → got ≡ some (body, after)
            → Fits sizeof_header max_size (record { buffer = header ++ body; items = [] })
              × (length after < size))
        → ((left : List ℕ) → length left < size → IsBounded sizeof_header max_size (rest left))
        → IsBounded sizeof_header max_size
            (receive_body sizeof_header max_size msgh_size items_of server_mode rest header got)
    unfolding receive_body
    receive_body-IsBounded header none g r = (tt, on_end_lem)
    receive_body-IsBounded header (some (body, after)) g r =
        let h = g body after refl in
        let b =
          r (receive_ool_data (items_of (header ++ body)) after).1
            (omega (arith, length-receive_ool_data (items_of (header ++ body)) after, h.1)) in
        ((h.0, b.0), b.1)

    receive_message-IsBounded :
        (got : Option (List ℕ × List ℕ))
        → ((header after : List ℕ)
            → got ≡ some (header, after)
            → (length header ≡ sizeof_header) × (length after < size))
        → ((left : List ℕ) → length left < size → IsBounded sizeof_header max_size (rest left))
        → IsBounded sizeof_header max_size
            (receive_message sizeof_header max_size msgh_size items_of server_mode rest got)
    unfolding receive_message
    receive_message-IsBounded none g r = (tt, on_end_lem)
    receive_message-IsBounded (some (header, after)) g r =
        let h = g header after refl in
        elim (Bool-cases (not (leb (msgh_size header) max_size))) [
          | inl e ↦ rw e (tt, ground arith)
          | inr e ↦ elim (Bool-cases (ltb (msgh_size header) sizeof_header)) [
            | inl f ↦ rw (e, f) (tt, ground arith)
            | inr f ↦
                rw (e, f)
                  (receive_body-IsBounded header (read_all (msgh_size header - sizeof_header) after)
                    (λ body left q.
                      let l =
                        read_all_lengths (msgh_size header - sizeof_header) after body left q in
                      (ground (arith, l, h.0, length-append header body), omega (arith, l.1, h.1)))
                    r)
          ]
        ]

  -- Whatever stands in the stream, tcpHandler comes to an end (it returns, exits, or stops at the
  -- assert or at a message that is shorter than its header), with fuel above the stream's length; and
  -- each message that it hands on has at least a header's bytes and at most those of its buffer.
  pub tcp_handler-IsBounded :
      (fuel : ℕ) (stream : List ℕ)
      → length stream < fuel
      → IsBounded sizeof_header max_size
          (tcp_handler sizeof_header max_size msgh_size items_of server_mode fuel stream)
  unfolding tcp_handler
  tcp_handler-IsBounded zero stream f = absurd (omega arith)
  tcp_handler-IsBounded (suc fuel) stream f =
      receive_message-IsBounded
        (tcp_handler sizeof_header max_size msgh_size items_of server_mode fuel) fuel
        (read_all sizeof_header stream)
        (λ header after e.
          let l = read_all_lengths sizeof_header stream header after e in
          (l.0, omega (arith, l.1, f, positive)))
        (tcp_handler-IsBounded fuel)
