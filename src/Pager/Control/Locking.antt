-- ===== src/Pager/Control/Locking.antt =====
-- lock_object of libpager/pagemap.cc: which clients a lock concerns, what they are sent, and which
-- block it waits for.
use hurd.Base.{
  ℕ, zero, suc, ◌+◌, ◌≤◌, ◌<◌, ◌/◌, ◌≡◌, refl, ◌↔◌, ◌⊎◌, inl, inr, Bool, true, false, ◌||◌, ◌&&◌,
  not, List, [], ◌∷◌, ◌++◌, none, some, arith, map, contains, insert, insert_all, contains-insert,
  ◌==◌, ==_iff, if◌then◌else◌, Bool-cases, List-cases, Option-cases, subst, leb, All, append-nil,
  append_assoc, sym, ap,
}
use hurd.Pagemap.Entry.{EntryData}
use hurd.Pager.State.{
  Pager, WritewaitEntry, ReturnMode, lock_request, prot_no_change, mach_port_null, page_data, word,
}
use hurd.Pager.Step.{done, primitives}
use hurd.Pager.Waitlist.Serve.{logged}
use hurd.Pager.Control.{is_return_all, concerned, request_async, last_overlap, lock_object}

contains-insert_all :
    (c : ℕ) (cs xs : List ℕ) → contains c (insert_all cs xs) ≡ (contains c cs || contains c xs)
contains-insert_all c [] xs = refl
contains-insert_all c (d ∷ cs) xs =
    ground (arith, contains-insert_all c cs (insert d xs), contains-insert c d xs)

-- The client has the page, and the lock concerns such a page.
abbrev pub IsConcerned : Bool → ℕ → EntryData → Type 0
IsConcerned only_write c e =
    (contains c e.access_list ≡ true) × ((not only_write || e.write_access_granted) ≡ true)

-- Some page of a range concerns the client.
abbrev pub IsConcernedIn : Bool → ℕ → Pager → ℕ → ℕ → Type 0
IsConcernedIn only_write c s page k =
    (n : ℕ) × (page ≤ n) × (n < page + k) × IsConcerned only_write c (page_data n s)

-- What one page adds to the set.
page_step :
    (b : Bool) (c : ℕ) (cs set : List ℕ)
    → (contains c (if b then insert_all cs set else set) ≡ true)
      ↔ ((contains c set ≡ true) ⊎ ((contains c cs ≡ true) × (b ≡ true)))
page_step b c cs set = ground (arith, contains-insert_all c cs set)

concerned_set :
    (only_write : Bool) (c : ℕ) (s : Pager) (page k : ℕ) (set : List ℕ)
    → (contains c set ≡ true) ⊎ IsConcernedIn only_write c s page k
    → contains c (concerned only_write s page k set) ≡ true
concerned_set ow c s page zero set (inl h) = h
concerned_set ow c s page zero set (inr (n, low, high, h)) = absurd (omega arith)
concerned_set ow c s page (suc k) set h =
    let e = page_data page s in
    let step = page_step (not ow || e.write_access_granted) c e.access_list set in
    concerned_set ow c s (page + 1) k _ (elim h [
      | inl old ↦ inl (step.1 (inl old))
      | inr (n, low, high, p) ↦ elim (Bool-cases (n == page)) [
        | inl same ↦ inl (
            step.1 (inr (subst (λ m. IsConcerned ow c (page_data m s)) ((==_iff n page).0 same) p)))
        | inr other ↦ inr (n, ground arith, omega arith, p)
      ]
    ])

concerned_only :
    (only_write : Bool) (c : ℕ) (s : Pager) (page k : ℕ) (set : List ℕ)
    → contains c (concerned only_write s page k set) ≡ true
    → (contains c set ≡ true) ⊎ IsConcernedIn only_write c s page k
concerned_only ow c s page zero set h = inl h
concerned_only ow c s page (suc k) set h =
    let e = page_data page s in
    let step = page_step (not ow || e.write_access_granted) c e.access_list set in
    elim (concerned_only ow c s (page + 1) k _ h) [
      | inl new ↦ elim (step.0 new) [
        | inl old ↦ inl old
        | inr p ↦ inr (page, omega arith, omega arith, p)
      ]
      | inr (n, low, high, p) ↦ inr (n, omega arith, omega arith, p)
    ]

-- The clients that a lock of some pages concerns are exactly those that have one of the pages, or,
-- if only writers are concerned, one of the pages that write access is granted to.
concerned_iff :
    (only_write : Bool) (c : ℕ) (s : Pager) (page k : ℕ)
    → (contains c (concerned only_write s page k []) ≡ true) ↔ IsConcernedIn only_write c s page k
concerned_iff ow c s page k = (
  (λ h. elim (concerned_only ow c s page k [] h) [ inl e ↦ cc | inr p ↦ p ]),
  (λ p. concerned_set ow c s page k [] (inr p)),
)

request_async_lem :
    (offset length : ℕ) (mode : ReturnMode) (flush : Bool) (cs : List ℕ) (s : Pager)
    → request_async offset length mode flush cs s
      ≡ done tt (
          logged
            (map (λ c. lock_request c offset length mode flush prot_no_change mach_port_null) cs)
            s)
unfolding request_async primitives
request_async_lem offset length mode flush [] s =
    ap (λ l. done tt (record s { log = l })) (sym (append-nil s.log))
request_async_lem offset length mode flush (c ∷ cs) s =
    let event = lock_request c offset length mode flush prot_no_change mach_port_null in
    ground (
      arith,
      request_async_lem offset length mode flush cs (logged (event ∷ []) s),
      append_assoc s.log (event ∷ [])
          (map (λ c. lock_request c offset length mode flush prot_no_change mach_port_null) cs),
    )

-- An asynchronous lock of a range sends one lock request to each client that it concerns, in
-- ascending order, asks for no reply, and changes nothing else.
lock_object-async :
    (offset length : ℕ) (mode : ReturnMode) (flush : Bool) (s : Pager)
    → let only_write = not flush && not (is_return_all mode) in
      lock_object offset length mode flush false s
      ≡ done tt (
          logged
            (map
              (λ c. lock_request c offset length mode flush prot_no_change mach_port_null)
              (concerned only_write s (offset / s.page_size) (length / s.page_size) []))
            s)
unfolding lock_object primitives
lock_object-async offset length mode flush s =
    let only_write = not flush && not (is_return_all mode) in
    let cs = concerned only_write s (offset / s.page_size) (length / s.page_size) [] in
    elim (List-cases cs) [
      | inl nobody ↦ rw nobody (ap (λ l. done tt (record s { log = l })) (sym (append-nil s.log)))
      | inr (d, ds, somebody) ↦ rw somebody (request_async_lem offset length mode flush (d ∷ ds) s)
    ]

-- The block overlaps the range, by the test of the code.
abbrev pub overlaps : ℕ → ℕ → WritewaitEntry → Bool
overlaps offset length w =
    leb w.offset (word (offset + length)) && leb offset (word (w.offset + w.length))

last_overlap-none :
    (offset length : ℕ) (ws : List WritewaitEntry)
    → last_overlap offset length ws ≡ none
    → All (λ v. overlaps offset length v ≡ false) ws
last_overlap-none offset length [] h = tt
last_overlap-none offset length (w ∷ ws) h =
    (ground arith, last_overlap-none offset length ws (ground arith))

-- The block that a synchronous lock waits for is on WRITEWAIT, overlaps the range, and no block
-- behind it does.
last_overlap_lem :
    (offset length : ℕ) (ws : List WritewaitEntry) (w : WritewaitEntry)
    → last_overlap offset length ws ≡ some w
    → (before after : List WritewaitEntry) × (ws ≡ before ++ w ∷ after)
      × (overlaps offset length w ≡ true)
      × All (λ v. overlaps offset length v ≡ false) after
last_overlap_lem offset length [] w h = cc
last_overlap_lem offset length (v ∷ ws) w h = elim (Option-cases (last_overlap offset length ws)) [
  | inl none_behind ↦
      ([], ws, ground arith, ground arith, last_overlap-none offset length ws none_behind)
  | inr (u, e) ↦
      let (before, after, split, this, others) =
        last_overlap_lem offset length ws w (ground arith) in
      (v ∷ before, after, ap (λ xs. v ∷ xs) split, this, others)
]
