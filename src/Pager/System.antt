-- ===== src/Pager/System.antt =====
-- All threads of a pager together: libpager/demuxer.c and libports run each call in a thread of its
-- own, and the pager's lock lets one thread run at a time. A thread stands outside the lock between
-- two of its stretches; a condition variable may wake it at any time.
pub mod Safe
use hurd.Base.{ℕ, ◌≡◌, Bool, false, List, [], ◌∷◌, ◌++◌, Option, some, All}
use hurd.Pager.State.{Pager}
use hurd.Pager.Step.{Step, done, fault, alloc, away, Reply, Call}
use hurd.Pager.Rpc.{Request, serve, pager_create}

-- A thread outside the lock: how it goes on with the answers and the pager that it then finds.
abbrev pub Thread : Type 0
Thread = (ℕ → Reply) → Pager → Step (Unit {0})

pub record System : Type 0 where
  pub pager : Pager
  pub threads : List Thread

-- Up to its next release of the lock a computation leaves a pager, and perhaps a thread outside.
-- A computation that faults has no such state: the program is gone.
pub data Stretch : Step (Unit {0}) → Pager → List Thread → Type 0 where
  finished : (s : Pager) → Stretch (done tt s) s []
  released : (cs : List Call) (s : Pager) (k : Thread) → Stretch (away cs s k) s (k ∷ [])
  allocated :
      {k : ℕ → Step (Unit {0})} {s : Pager} {ts : List Thread} (port : ℕ)
      → Stretch (k port) s ts
      → Stretch (alloc k) s ts

-- A new call enters, or some thread outside the lock takes it again, with any answers.
pub data Move (fuel : ℕ) : System → System → Type 0 where
  enter :
      (s s' : Pager) (threads new : List Thread) (q : Request)
      → Stretch (serve fuel q s) s' new
      → Move fuel
          (record { pager = s; threads = threads })
          (record { pager = s'; threads = threads ++ new })
  resume :
      (s s' : Pager) (before after new : List Thread) (k : Thread) (r : ℕ → Reply)
      → Stretch (k r s) s' new
      → Move fuel
          (record { pager = s; threads = before ++ k ∷ after })
          (record { pager = s'; threads = before ++ (after ++ new) })

pub data Reachable (fuel : ℕ) (start : System) : System → Type 0 where
  here : Reachable fuel start start
  next : {a b : System} → Reachable fuel start a → Move fuel a b → Reachable fuel start b
