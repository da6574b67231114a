-- ===== src/Demuxer/Workers/System.antt =====
-- libpager/demuxer.c: the thread that receives messages, the workers, and a caller of
-- pager_inhibit_workers and pager_resume_workers, in any order.
use hurd.Base.{
  ℕ, Bool, Option, none, some, List, [], ◌∷◌, ◌++◌, ◌==◌, ltb, if◌then◌else◌, length, get_or,
}
use hurd.Demuxer.Workers.{
  Request, Position, at_loop, serving, waiting, woken, PagerRequests, new_worker, start_workers,
  Accepted, queued, pager_demuxer, next_request, wake_up, finish, inhibit, is_drained, resume,
}

-- Where the caller stands: it has not inhibited the workers, waits in pager_inhibit_workers, or has
-- returned from it.
pub data Caller : Type 0 where
  running draining inhibited : Caller

-- `received` lists the requests that were queued, `started` those whose routine was called.
pub record System : Type 0 where
  pub requests : PagerRequests
  pub caller : Caller
  pub received : List Request
  pub started : List Request

-- `wake` is a return from pthread_cond_wait, which may come without a signal.
pub data Action : Type 0 where
  receive : Bool → Bool → ℕ → Request → Action
  enter wake served : ℕ → Action
  start_inhibit : Bool → Action
  return_inhibited start_resume : Action

-- An action that is not enabled, a failed assert, and the system afterwards.
pub data Outcome : Type 0 where
  disabled failed : Outcome
  ok : System → Outcome

abbrev pub position_of : ℕ → PagerRequests → Option Position
position_of i s =
    if ltb i (length s.workers) then some (get_or s.workers i new_worker).position else none

-- The request that a thread has just started.
abbrev pub started_at : Position → List Request
started_at (serving r) = r ∷ []
started_at _ = []

abbrev pub just_started : ℕ → PagerRequests → List Request
just_started i s = started_at (get_or s.workers i new_worker).position

abbrev pub started_by : ℕ → PagerRequests → System → System
started_by i s y = record y { requests = s; started = y.started ++ just_started i s }

abbrev pub accept : Request → Accepted × PagerRequests → System → System
accept r (queued, s) y = record y { requests = s; received = y.received ++ r ∷ [] }
accept r (a, s) y = record y { requests = s }

abbrev pub asserted : Caller → Option PagerRequests → System → Outcome
asserted caller none y = failed
asserted caller (some s) y = ok (record y { requests = s; caller = caller })

-- What a thread does at its position, and a caller at its own.
abbrev pub enter_at : Option Position → ℕ → System → Outcome
enter_at (some at_loop) i y = ok (started_by i (next_request i y.requests) y)
enter_at _ i y = disabled

abbrev pub wake_at_position : Option Position → ℕ → System → Outcome
wake_at_position (some waiting) i y = ok (started_by i (wake_up i y.requests) y)
wake_at_position (some woken) i y = ok (started_by i (wake_up i y.requests) y)
wake_at_position _ i y = disabled

abbrev pub finish_at : Option Position → ℕ → System → Outcome
finish_at (some (serving r)) i y = ok (record y { requests = finish i y.requests })
finish_at _ i y = disabled

abbrev pub inhibit_by : Bool → Caller → System → Outcome
inhibit_by memory running y =
    asserted (if memory then draining else running) (inhibit memory y.requests) y
inhibit_by memory _ y = disabled

abbrev pub return_by : Caller → System → Outcome
return_by draining y =
    if is_drained y.requests then ok (record y { caller = inhibited }) else disabled
return_by _ y = disabled

abbrev pub resume_by : Caller → System → Outcome
resume_by inhibited y = asserted running (resume y.requests) y
resume_by _ y = disabled

-- A message's port is not MACH_PORT_NULL.
abbrev pub act : Action → System → Outcome
act (receive routine memory chosen r) y =
    if r.object == 0
    then disabled
    else ok (accept r (pager_demuxer routine memory chosen r y.requests) y)
act (enter i) y = enter_at (position_of i y.requests) i y
act (wake i) y = wake_at_position (position_of i y.requests) i y
act (served i) y = finish_at (position_of i y.requests) i y
act (start_inhibit memory) y = inhibit_by memory y.caller y
act return_inhibited y = return_by y.caller y
act start_resume y = resume_by y.caller y

abbrev pub start : ℕ → System
start count = record {
  requests = start_workers count;
  caller = running;
  received = [];
  started = [];
}

-- The actions in order, those that are not enabled left out; `none` after a failed assert.
abbrev pub execute : List Action → System → Option System
execute [] y = some y
execute (a ∷ actions) y = elim (act a y) [
  | disabled ↦ execute actions y
  | failed ↦ none
  | ok z ↦ execute actions z
]
