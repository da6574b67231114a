-- ===== src/Pager/Memcpy/Ends.antt =====
-- libpager/pager-memcpy.c: what the nested functions may end with, and how the ends of one that follows
-- another compose.
use hurd.Base.{
  ◌≢◌, ℕ, zero, suc, ◌+◌, ◌≤◌, ◌<◌, ◌≡◌, ◌%◌, ◌^◌, ◌⊎◌, Bool, true, false, ◌==◌, if◌then◌else◌,
  refl, arith, Bool-cases, inl, inr, some,
}
use hurd.Pager.State.{word}
use hurd.Pager.Memcpy.{
  Copy, Outside, Outcome, returns, jumps, aborts, out_of_fuel, minus, go_on, vm_page_size, transfer,
}
use hurd.Pager.Memcpy.Range.{IsMoved, IsMoved-trans, IsMoved-refl}

-- vm_map and vm_copy fail nowhere.
pub record IsWilling (k : Outside) : Type 0 where
  pub maps : (offset size : ℕ) → k.vm_map offset size ≡ 0
  pub copies : (offset size : ℕ) → k.vm_copy offset size ≡ 0

-- A fault of memcpy is at one of the bytes that it is to copy.
abbrev pub FaultsInside : Outside → Type 0
FaultsInside k = (offset count at : ℕ) → k.fault offset count ≡ some at → at < count

-- Some fault of memcpy is another than EKERN_MEMORY_ERROR.
abbrev pub HasOtherFault : Outside → Type 0
HasOtherFault k =
    (offset count at : ℕ) × (k.fault offset count ≡ some at)
    × (k.is_memory_error offset count ≡ false)

-- Byte for byte, what was there before a memcpy of COUNT bytes, or what it copies.
pub record IsTorn (prot count : ℕ) (s t : Copy) : Type 0 where
  pub memory : (a : ℕ) → (t.memory a ≡ s.memory a) ⊎ (t.memory a ≡ (transfer prot count s).memory a)
  pub contents :
      (a : ℕ) → (t.contents a ≡ s.contents a) ⊎ (t.contents a ≡ (transfer prot count s).contents a)

-- The ranges to copy lie in the address space; its last two pages are free, as the kernel's are.
pub record HasRoom (s : Copy) : Type 0 where
  pub offsets : s.offset + s.n < 2 ^ 32
  pub addresses : s.other + s.n < 2 ^ 32
  pub small : s.n + 8192 ≤ 2 ^ 32

module _ (k : Outside) (prot : ℕ) where
  -- A return of ERR in T: some bytes from the start on are copied; with 0, the goal is reached,
  -- with an error something is left.
  pub record Progress (s : Copy) (Goal : Copy → Type 0) (err : ℕ) (t : Copy) : Type 0 where
    pub count : ℕ
    pub moved : IsMoved prot s count t
    pub goal : err ≡ 0 → Goal t
    pub remains : err ≢ 0 → 0 < t.n
    pub willing : IsWilling k → err ≡ 0

  -- A jump with ERR in T: the bytes up to MIDDLE are copied, and of those copied next byte AT faulted;
  -- any of these bytes may be copied, and no others.
  -- But for the first, a copy begins with a page.
  -- The error is asked for, and N reckoned, from the beginning of the page in which the window begins.
  pub record IsFaulted (s : Copy) (err : ℕ) (t : Copy) : Type 0 where
    pub count : ℕ
    pub middle : Copy
    pub moved : IsMoved prot s count middle
    pub aligned : 0 < count → middle.offset % vm_page_size ≡ 0
    pub tried : ℕ
    pub tried_le : tried ≤ middle.n
    pub at : ℕ
    pub fault : k.fault middle.offset tried ≡ some at
    pub error : err ≡ k.get_error (word (middle.offset % vm_page_size + at + middle.offset))
    pub n : t.n ≡ minus middle.n (middle.offset % vm_page_size + at)
    pub torn : IsTorn prot tried middle t

  abbrev pub Ends : Copy → (Copy → Type 0) → Outcome → Type 0
  Ends s Goal (returns err t) = Progress s Goal err t
  Ends s Goal (jumps err t) = IsFaulted s err t
  Ends s Goal aborts = HasOtherFault k
  Ends s Goal out_of_fuel = ⊥

  module _ (s m : Copy) (a : ℕ) (before : IsMoved prot s a m)
      (on_page : 0 < a → m.offset % vm_page_size ≡ 0) (Goal : Copy → Type 0) where
    Progress-trans : (err : ℕ) (t : Copy) → Progress m Goal err t → Progress s Goal err t
    Progress-trans err t p = record {
      count = a + p.count;
      moved = IsMoved-trans prot s m t a p.count before p.moved;
      goal = p.goal;
      remains = p.remains;
      willing = p.willing;
    }

    aligned_after :
        (b : ℕ) (u : Copy)
        → IsMoved prot m b u
        → (0 < b → u.offset % vm_page_size ≡ 0)
        → 0 < a + b
        → u.offset % vm_page_size ≡ 0
    aligned_after zero u moved aligned c = ground (arith, moved.offset, on_page (omega arith))
    aligned_after (suc b) u moved aligned c = aligned (omega arith)

    IsFaulted-trans : (err : ℕ) (t : Copy) → IsFaulted m err t → IsFaulted s err t
    IsFaulted-trans err t f = record {
      count = a + f.count;
      middle = f.middle;
      moved = IsMoved-trans prot s m f.middle a f.count before f.moved;
      aligned = λ c. aligned_after f.count f.middle f.moved f.aligned c;
      tried = f.tried;
      tried_le = f.tried_le;
      at = f.at;
      fault = f.fault;
      error = f.error;
      n = f.n;
      torn = f.torn;
    }

    pub Ends-trans : (o : Outcome) → Ends m Goal o → Ends s Goal o
    Ends-trans (returns err t) p = Progress-trans err t p
    Ends-trans (jumps err t) f = IsFaulted-trans err t f
    Ends-trans aborts h = h
    Ends-trans out_of_fuel h = h

  -- The window before is no part of it.
  pub Ends-window :
      (s : Copy) (w : ℕ) (Goal : Copy → Type 0) (o : Outcome)
      → Ends (record s { window_size = w }) Goal o
      → Ends s Goal o
  Ends-window s w Goal =
      Ends-trans s (record s { window_size = w }) 0
        (record {
          offset = omega arith;
          other = omega arith;
          n = omega arith;
          memory = (IsMoved-refl prot s).memory;
          contents = (IsMoved-refl prot s).contents;
        })
        (λ c. absurd (omega arith)) Goal

  -- A return of 0 with the goal reached.
  pub done-Ends :
      (s t : Copy) (a : ℕ) (Goal : Copy → Type 0)
      → IsMoved prot s a t
      → Goal t
      → Ends s Goal (returns 0 t)
  done-Ends s t a Goal moved goal = record {
    count = a;
    moved = moved;
    goal = λ _. goal;
    remains = λ z. absurd (z refl);
    willing = λ _. refl;
  }

  -- A branch.
  pub if-Ends :
      (s : Copy) (Goal : Copy → Type 0) (b : Bool) (x y : Outcome)
      → (b ≡ true → Ends s Goal x)
      → (b ≡ false → Ends s Goal y)
      → Ends s Goal (if b then x else y)
  if-Ends s Goal true x y p q = p refl
  if-Ends s Goal false x y p q = q refl

  module _ (s : Copy) (Goal Next : Copy → Type 0) (rest : Copy → Outcome) where
    pub go_on-Ends :
        (o : Outcome)
        → Ends s Goal o
        → ((t : Copy) (a : ℕ) → IsMoved prot s a t → Goal t → Ends s Next (rest t))
        → Ends s Next (go_on o rest)
    go_on-Ends (returns err t) p then_rest = elim (Bool-cases (err == 0)) [
      | inl e ↦ rw e (then_rest t p.count p.moved (p.goal (ground arith)))
      | inr e ↦ rw e (record {
        count = p.count;
        moved = p.moved;
        goal = λ z. ground arith;
        remains = p.remains;
        willing = p.willing;
      })
    ]
    go_on-Ends (jumps err t) f then_rest = f
    go_on-Ends aborts h then_rest = h
    go_on-Ends out_of_fuel h then_rest = h

  -- A return of an error before anything is copied.
  pub Progress-refused :
      (s : Copy) (Goal : Copy → Type 0) (err w : ℕ)
      → (err == 0) ≡ false
      → 0 < s.n
      → (IsWilling k → err ≡ 0)
      → Progress s Goal err (record s { window_size = w })
  Progress-refused s Goal err w e p h = record {
    count = 0;
    moved = ground (arith, IsMoved-refl prot s);
    goal = λ z. ground arith;
    remains = λ _. p;
    willing = h;
  }
