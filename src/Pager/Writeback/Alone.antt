-- ===== src/Pager/Writeback/Alone.antt =====
-- Threads that write WRITEWAIT out alone: what they call while the lock is free, and what calls are due.
use hurd.Base.{
  ℕ, zero, suc, ◌+◌, ◌*◌, ◌/◌, ◌≡◌, refl, Bool, true, false, List, [], ◌∷◌, ◌==◌, ◌++◌, keep, ap,
  if◌then◌else◌, Bool-cases, inl, inr,
}
use hurd.Pager.State.{Pager, WritewaitEntry, word}
use hurd.Pager.Step.{
  Step, done, fault, alloc, away, Call, write_page, Reply, bind, do_if◌then◌else◌,
}
use hurd.Pager.Writeback.{matching_page_count, pageouts, write_calls, evict_calls}

abbrev pub is_write : Call → Bool
is_write (write_page offset address) = true
is_write _ = false

-- A thread that runs alone, having made these calls of pager_write_page before, ends without a fault,
-- in such a state and with such calls made, whatever its calls answer.
abbrev pub Ends : {A : Type 0} → (List Call → Pager → Type 0) → List Call → Step A → Type 0
Ends P ws (done a s) = P ws s
Ends P ws (fault e) = ⊥
Ends P ws (alloc k) = (port : ℕ) → Ends P ws (k port)
Ends P ws (away cs s k) = (r : ℕ → Reply) → Ends P (ws ++ keep is_write cs) (k r s)

pub Ends-bind :
    {A B : Type 0} (P Q : List Call → Pager → Type 0) (ws : List Call) (m : Step A)
    (f : A → Pager → Step B)
    → Ends P ws m
    → ((a : A) (vs : List Call) (s : Pager) → P vs s → Ends Q vs (f a s))
    → Ends Q ws (bind m f)
Ends-bind P Q ws (done a s) f h k = k a ws s h
Ends-bind P Q ws (fault e) f h k = absurd h
Ends-bind P Q ws (alloc g) f h k = λ port. Ends-bind P Q ws (g port) f (h port) k
Ends-bind P Q ws (away cs s g) f h k = λ r. Ends-bind P Q (ws ++ keep is_write cs) (g r s) f (h r) k

-- The calls that are due for K pages of a block from PAGE on, the I-th of the block and those behind:
-- for each page of which the queue has no other copy.
abbrev pub due_pages : ℕ → WritewaitEntry → List WritewaitEntry → ℕ → ℕ → ℕ → List Call
due_pages ps w queue page i zero = []
due_pages ps w queue page i (suc k) =
    let rest = due_pages ps w queue (page + 1) (i + 1) k in
    if matching_page_count ps page queue == 1
    then write_page (word (page * ps)) (word (w.address + i * ps)) ∷ rest
    else rest

-- The calls that are due for a queue: of several copies of a page only the last is written.
abbrev pub due : ℕ → List WritewaitEntry → List Call
due ps [] = []
due ps (w ∷ ws) = due_pages ps w (w ∷ ws) (w.offset / ps) 0 (w.length / ps) ++ due ps ws

pub write_calls-pageouts :
    (ps : ℕ) (w : WritewaitEntry) (q : List WritewaitEntry) (page i k : ℕ)
    → keep is_write (write_calls ps w (pageouts ps q page i k)) ≡ due_pages ps w q page i k
write_calls-pageouts ps w q page i zero = refl
write_calls-pageouts ps w q page i (suc k) =
    elim (Bool-cases (matching_page_count ps page q == 1)) [
      | inl one ↦ rw one (
          ap (λ cs. write_page (word (page * ps)) (word (w.address + i * ps)) ∷ cs)
            (write_calls-pageouts ps w q (page + 1) (i + 1) k))
      | inr other ↦ rw other (write_calls-pageouts ps w q (page + 1) (i + 1) k)
    ]

pub keep-evict_calls : (ps : ℕ) (pages : List ℕ) → keep is_write (evict_calls ps pages) ≡ []
keep-evict_calls ps [] = refl
keep-evict_calls ps (page ∷ pages) = keep-evict_calls ps pages

pub Ends-imp :
    {A : Type 0} (P Q : List Call → Pager → Type 0) (ws : List Call) (m : Step A)
    → Ends P ws m
    → ((vs : List Call) (s : Pager) → P vs s → Q vs s)
    → Ends Q ws m
Ends-imp P Q ws (done a s) h k = k ws s h
Ends-imp P Q ws (fault e) h k = h
Ends-imp P Q ws (alloc g) h k = λ port. Ends-imp P Q ws (g port) (h port) k
Ends-imp P Q ws (away cs s g) h k = λ r. Ends-imp P Q (ws ++ keep is_write cs) (g r s) (h r) k
