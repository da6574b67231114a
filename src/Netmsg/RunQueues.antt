-- ===== src/Netmsg/RunQueues.antt =====
-- netmsg/netmsg.cc: RunQueues, queues of messages with threads that handle them. A message is named by
-- its address. Neither `run` nor `push_back` locks anything, so each of their statements that looks at
-- a queue or changes it is a step of its own. An object has one thread that calls push_back.
pub mod Races
use hurd.Base.{ℕ, ◌≡◌, Bool, List, [], ◌∷◌, ◌++◌, Option, none, some, is_empty, if◌then◌else◌}
use hurd.Base.OrdMap
use hurd.Base.OrdMap.{Map, nat_key}
use mathlib.Core.Option.{get_or}

-- A thread of a port in `run`: before the assertion of the loop, before it takes the front of its
-- queue, with a message that is handled, or before the test that ends the loop.
pub data Worker : Type 0 where
  starting asserted popped : ℕ → Worker
  handling : ℕ → ℕ → Worker

-- The thread that calls `push_back`: outside of it, before it pushes the message, or before the test
-- of `empty`, whose value it has.
pub data Pusher : Type 0 where
  idle : Pusher
  pushing : ℕ → ℕ → Bool → Pusher
  spawning : ℕ → Bool → Pusher

pub record RunQueues : Type 0 where
  pub queues : Map ℕ (List ℕ)
  pub threads : List Worker
  pub pusher : Pusher

-- `(*this)[port]`.
abbrev pub queue : ℕ → RunQueues → List ℕ
queue port s = get_or (OrdMap.lookup port s.queues) []

abbrev pub empty_queues : RunQueues
empty_queues = record { queues = []; threads = []; pusher = idle }

-- `push_back` is called: the value of `empty`.
unfoldable pub push_back : ℕ → ℕ → RunQueues → RunQueues
push_back port message s = record s {
  queues = OrdMap.insert port (queue port s) s.queues;
  pusher = pushing port message (is_empty (queue port s));
}

-- The next statement of `push_back`.
unfoldable pub continue_push : Pusher → RunQueues → RunQueues
continue_push idle s = s
continue_push (pushing port message empty) s = record s {
  queues = OrdMap.insert port (queue port s ++ message ∷ []) s.queues;
  pusher = spawning port empty;
}
continue_push (spawning port empty) s = record s {
  threads = if empty then s.threads ++ starting port ∷ [] else s.threads;
  pusher = idle;
}

-- The next statement of `run`: the queues, and what becomes of the thread; `none` is the failed
-- assertion, or the use of the front of an empty queue.
unfoldable pub continue_run : Worker → RunQueues → Option (Map ℕ (List ℕ) × List Worker)
continue_run (starting port) s =
    if is_empty (queue port s) then none else some (s.queues, asserted port ∷ [])
continue_run (asserted port) s = elim (queue port s) [
  | [] ↦ none
  | m ∷ ms ↦ some (s.queues, handling port m ∷ [])
]
continue_run (handling port message) s = elim (queue port s) [
  | [] ↦ none
  | m ∷ ms ↦ some (OrdMap.insert port ms s.queues, popped port ∷ [])
]
continue_run (popped port) s =
    some (s.queues, if is_empty (queue port s) then [] else starting port ∷ [])

-- One statement of one thread.
pub data Step : RunQueues → RunQueues → Type 0 where
  call : (s : RunQueues) (port message : ℕ) → s.pusher ≡ idle → Step s (push_back port message s)
  push : (s : RunQueues) → Step s (continue_push s.pusher s)
  work :
      (s : RunQueues) (before after : List Worker) (w : Worker) (queues : Map ℕ (List ℕ))
      (ws : List Worker)
      → s.threads ≡ before ++ w ∷ after
      → continue_run w s ≡ some (queues, ws)
      → Step s (record s { queues = queues; threads = before ++ (ws ++ after) })

pub data Steps : RunQueues → RunQueues → Type 0 where
  here : (s : RunQueues) → Steps s s
  next : {s t u : RunQueues} → Step s t → Steps t u → Steps s u
