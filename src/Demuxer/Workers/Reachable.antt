-- ===== src/Demuxer/Workers/Reachable.antt =====
-- libpager/demuxer.c: what holds after any actions of the threads.
use hurd.Base.{
  ℕ, zero, suc, ◌≡◌, ◌≢◌, ◌<◌, ◌≤◌, refl, ap, subst, Bool, true, Option, none, some, List, [], ◌∷◌,
  arith, All, length, replicate, get_or, inl, inr, Bool-cases, List-cases, ◌==◌, ==_iff,
}
use hurd.Demuxer.Workers.{
  Position, at_loop, serving, waiting, woken, PagerRequests, new_worker, start_workers, is_drained,
  wake_up, next_request,
}
use hurd.Demuxer.Workers.System.{
  System, Caller, running, draining, inhibited, Action, receive, enter, wake, served, start_inhibit,
  return_inhibited, start_resume, Outcome, disabled, failed, ok, started_by, enter_at,
  wake_at_position, finish_at, inhibit_by, return_by, resume_by, position_of, act, start, execute,
}
use hurd.Demuxer.Workers.Tags.{tags, positions, held, IsCoherent}
use hurd.Demuxer.Workers.Threads.{AreDistinct, length-map}
use hurd.Demuxer.Workers.Sleeping.{sleeps, sleepers, sleepers-le}
use hurd.Demuxer.Workers.Critical.{IsInStep}
use hurd.Demuxer.Workers.Sections.{wake_up-Served, next_request-Served}
use hurd.Demuxer.Workers.Invariant.{
  IsQuiet, Inv, Served-Inv, IsQuiet-at_work, IsQuiet-wake_up, finish-Inv,
}
use hurd.Demuxer.Workers.Arrivals.{pager_demuxer-Inv}
use hurd.Demuxer.Workers.Inhibiting.{inhibit-Inv, resume-Inv, Holds}

-- An action that is not enabled changes nothing.
abbrev Keeps : Outcome → Type 0
Keeps disabled = Unit
Keeps failed = ⊥
Keeps (ok z) = Inv z

position_of_lem :
    (i : ℕ) (s : PagerRequests) (p : Position)
    → position_of i s ≡ some p
    → (i < length s.workers) × ((get_or s.workers i new_worker).position ≡ p)
position_of_lem i s p e = ground (arith, e)

enter-Keeps :
    (p : Option Position) (i : ℕ) (y : System)
    → Inv y
    → position_of i y.requests ≡ p
    → Keeps (enter_at p i y)
enter-Keeps none i y h e = tt
enter-Keeps (some at_loop) i y h e =
    let (l, pos) = position_of_lem i y.requests at_loop e in
    let v = next_request-Served i y.requests h.in_step l pos in
    Served-Inv i y (next_request i y.requests) h v (
      IsQuiet-at_work y.caller i y.requests (next_request i y.requests) h.in_step l
        (ap (λ q. sleeps q) pos) v.same_in h.quiet)
enter-Keeps (some (serving r)) i y h e = tt
enter-Keeps (some waiting) i y h e = tt
enter-Keeps (some woken) i y h e = tt

woken-Inv :
    (i : ℕ) (y : System)
    → Inv y
    → i < length y.requests.workers
    → sleeps (get_or y.requests.workers i new_worker).position ≡ 1
    → Inv (started_by i (wake_up i y.requests) y)
woken-Inv i y h l e =
    let v = wake_up-Served i y.requests h.in_step l e in
    Served-Inv i y (wake_up i y.requests) h v
      (IsQuiet-wake_up y.caller i y.requests h.in_step v h.quiet)

wake-Keeps :
    (p : Option Position) (i : ℕ) (y : System)
    → Inv y
    → position_of i y.requests ≡ p
    → Keeps (wake_at_position p i y)
wake-Keeps none i y h e = tt
wake-Keeps (some at_loop) i y h e = tt
wake-Keeps (some (serving r)) i y h e = tt
wake-Keeps (some waiting) i y h e =
    let (l, pos) = position_of_lem i y.requests waiting e in
    woken-Inv i y h l (ap (λ q. sleeps q) pos)
wake-Keeps (some woken) i y h e =
    let (l, pos) = position_of_lem i y.requests woken e in
    woken-Inv i y h l (ap (λ q. sleeps q) pos)

finish-Keeps :
    (p : Option Position) (i : ℕ) (y : System)
    → Inv y
    → position_of i y.requests ≡ p
    → Keeps (finish_at p i y)
finish-Keeps none i y h e = tt
finish-Keeps (some at_loop) i y h e = tt
finish-Keeps (some (serving r)) i y h e =
    let (l, pos) = position_of_lem i y.requests (serving r) e in finish-Inv i y r h l pos
finish-Keeps (some waiting) i y h e = tt
finish-Keeps (some woken) i y h e = tt

Holds-Keeps : (o : Outcome) → Holds o → Keeps o
Holds-Keeps disabled h = tt
Holds-Keeps failed h = h
Holds-Keeps (ok z) h = h

inhibit-Keeps :
    (memory : Bool) (c : Caller) (y : System) → Inv y → y.caller ≡ c → Keeps (inhibit_by memory c y)
inhibit-Keeps memory running y h e =
    Holds-Keeps (inhibit_by memory running y)
      (inhibit-Inv memory y h (subst (λ c. IsQuiet c y.requests) e h.quiet))
inhibit-Keeps memory draining y h e = tt
inhibit-Keeps memory inhibited y h e = tt

drained-IsQuiet :
    (s : PagerRequests)
    → IsInStep s
    → is_drained s ≡ true
    → IsQuiet draining s
    → IsQuiet inhibited s
drained-IsQuiet s h e q = elim (List-cases s.queue_out) [
  | inl n ↦
      let enough : length s.workers ≤ s.asleep = ground (arith, e, n) in
      (
        q,
        omega (
          arith,
          enough,
          h.count,
          sleepers-le (positions s.workers),
          length-map (λ w. w.position) s.workers,
        ),
        n,
      )
  | inr (r, rs, n) ↦ ground (arith, e, n)
]

return-Keeps : (c : Caller) (y : System) → Inv y → y.caller ≡ c → Keeps (return_by c y)
return-Keeps running y h e = tt
return-Keeps inhibited y h e = tt
return-Keeps draining y h e = elim (Bool-cases (is_drained y.requests)) [
  | inl d ↦ rw d (record {
    in_step = h.in_step;
    objects_in = h.objects_in;
    quiet = drained-IsQuiet y.requests h.in_step d (subst (λ c. IsQuiet c y.requests) e h.quiet);
    order = h.order;
  })
  | inr d ↦ rw d tt
]

resume-Keeps : (c : Caller) (y : System) → Inv y → y.caller ≡ c → Keeps (resume_by c y)
resume-Keeps running y h e = tt
resume-Keeps draining y h e = tt
resume-Keeps inhibited y h e =
    Holds-Keeps (resume_by inhibited y)
      (resume-Inv y h (subst (λ c. IsQuiet c y.requests) e h.quiet))

act-Keeps : (a : Action) (y : System) → Inv y → Keeps (act a y)
act-Keeps (receive routine memory chosen r) y h = elim (Bool-cases (r.object == 0)) [
  | inl e ↦ rw e tt
  | inr e ↦ rw e (pager_demuxer-Inv routine memory chosen r y (ground (arith, e)) h)
]
act-Keeps (enter i) y h = enter-Keeps (position_of i y.requests) i y h refl
act-Keeps (wake i) y h = wake-Keeps (position_of i y.requests) i y h refl
act-Keeps (served i) y h = finish-Keeps (position_of i y.requests) i y h refl
act-Keeps (start_inhibit memory) y h = inhibit-Keeps memory y.caller y h refl
act-Keeps return_inhibited y h = return-Keeps y.caller y h refl
act-Keeps start_resume y h = resume-Keeps y.caller y h refl

start_workers-IsInStep : (n : ℕ) → IsInStep (start_workers (suc n))
unfolding start_workers
start_workers-IsInStep n = record {
  some_worker = omega arith;
  ordered = record { coherent = coherent n; distinct = distinct n; objects = tt };
  count = count n;
  awake = inl refl;
}
  where
    coherent : (n : ℕ) → All IsCoherent (replicate (suc n) new_worker)
    coherent zero = ((tt, tt), tt)
    coherent (suc n) = ((tt, tt), coherent n)

    distinct : (n : ℕ) → AreDistinct (tags (replicate (suc n) new_worker))
    distinct zero = ((λ e. tt), tt)
    distinct (suc n) = ((λ e. absurd (e refl)), distinct n)

    count : (n : ℕ) → 0 ≡ sleepers (positions (replicate (suc n) new_worker))
    count zero = refl
    count (suc n) = omega (arith, count n)

held_new : (t n : ℕ) → t ≢ 0 → held t (replicate n new_worker) ≡ []
held_new t zero e = refl
held_new t (suc n) e = ground (arith, e, held_new t n e, ==_iff 0 t)

start-Inv : (n : ℕ) → Inv (start (suc n))
unfolding start_workers
start-Inv n = record {
  in_step = start_workers-IsInStep n;
  objects_in = tt;
  quiet = refl;
  order = λ t e. rw (held_new t (suc n) e) refl;
}

abbrev pub Reaches : List Action → System → Type 0
Reaches actions y = (z : System) × (execute actions y ≡ some z) × Inv z

Reaches-act :
    (a : Action) (actions : List Action) (y : System) (o : Outcome)
    → ((z : System) → Inv z → Reaches actions z)
    → Inv y
    → Keeps o
    → act a y ≡ o
    → Reaches (a ∷ actions) y
Reaches-act a actions y disabled rest h k e =
    let (v, ev, hv) = rest y h in (v, rw (e, execute) ev, hv)
Reaches-act a actions y failed rest h k e = absurd k
Reaches-act a actions y (ok z) rest h k e =
    let (v, ev, hv) = rest z k in (v, rw (e, execute) ev, hv)

execute-Inv : (actions : List Action) (y : System) → Inv y → Reaches actions y
execute-Inv [] y h = (y, refl, h)
execute-Inv (a ∷ actions) y h =
    Reaches-act a actions y (act a y) (execute-Inv actions) h (act-Keeps a y h) refl

-- Any actions of `suc n` workers.
pub reached :
    (n : ℕ) (actions : List Action)
    → (z : System) × (execute actions (start (suc n)) ≡ some z) × Inv z
reached n actions = execute-Inv actions (start (suc n)) (start-Inv n)
