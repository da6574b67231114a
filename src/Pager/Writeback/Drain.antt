-- ===== src/Pager/Writeback/Drain.antt =====
-- The loop of data_return over WRITEWAIT, in a thread that no other thread interferes with.
use hurd.Base.{ℕ, ◌/◌, ◌≡◌, true, List, ◌∷◌, length, ◌==◌, ◌++◌}
use hurd.Pager.State.{Pager, WritewaitEntry}
use hurd.Pager.Step.{Call}
use hurd.Pager.Writeback.{matching_page_count}
use hurd.Pager.Writeback.Alone.{due_pages}

-- The queue and the page size are these.
record Has (q : List WritewaitEntry) (ps : ℕ) (s : Pager) : Type 0 where
  pub queue : s.writewait ≡ q
  pub size : s.page_size ≡ ps

-- The calls made are these, and so are the queue and the page size.
abbrev At : List Call → List WritewaitEntry → ℕ → List Call → Pager → Type 0
At ws q ps vs s = (vs ≡ ws) × Has q ps s

-- The page has one copy in the queue.
abbrev IsSingle : ℕ → List WritewaitEntry → ℕ × ℕ → Type 0
IsSingle ps q (page, i) = (matching_page_count ps page q == 1) ≡ true

-- The first block is off the queue, and the calls that are due for it are made.
abbrev IsFirstDone :
    List Call → WritewaitEntry → List WritewaitEntry → ℕ → List Call → Pager → Type 0
IsFirstDone cs w ws ps vs t =
    (vs ≡ cs ++ due_pages ps w (w ∷ ws) (w.offset / ps) 0 (w.length / ps)) × Has ws ps t
