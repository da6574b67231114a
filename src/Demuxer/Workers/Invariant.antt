-- ===== src/Demuxer/Workers/Invariant.antt =====
-- libpager/demuxer.c: the invariant of the requests, the workers and the caller that inhibits them.
use hurd.Base.{
  ℕ, ◌+◌, ◌-◌, ◌≡◌, ◌≢◌, ◌<◌, refl, sym, ap, ◌∙◌, true, false, none, some, List, [], ◌∷◌, ◌++◌,
  arith, All, length, get_or, set, inr, append_assoc,
}
use hurd.Demuxer.Workers.{
  Request, at_loop, serving, WorkerThread, PagerRequests, new_worker, take_request, get_request,
  wake_up, finish, is_inhibited,
}
use hurd.Demuxer.Workers.System.{
  just_started, System, Caller, running, draining, inhibited, started_by,
}
use hurd.Demuxer.Workers.Tags.{positions, of, IsCoherent}
use hurd.Demuxer.Workers.Taking.{IsObject}
use hurd.Demuxer.Workers.Threads.{
  length-set, All-set, map-set, get_or-map, length-map, tags_unchanged,
}
use hurd.Demuxer.Workers.Sleeping.{sleeps, sleepers_all, all_waiting-set}
use hurd.Demuxer.Workers.Settling.{held_moved, IsCoherent-at}
use hurd.Demuxer.Workers.Critical.{pending, IsInStep, Served, positions-set}

-- The requests that came while the workers were inhibited.
abbrev pub incoming : PagerRequests → List Request
incoming s = elim s.queue_in [ none ↦ [] | some q ↦ q ]

-- What a caller of pager_inhibit_workers finds.
abbrev pub IsQuiet : Caller → PagerRequests → Type 0
IsQuiet running s = is_inhibited s ≡ false
IsQuiet draining s = is_inhibited s ≡ true
IsQuiet inhibited s = (is_inhibited s ≡ true) × (s.asleep ≡ length s.workers) × (s.queue_out ≡ [])

pub record Inv (y : System) : Type 0 where
  pub in_step : IsInStep y.requests
  pub objects_in : All IsObject (incoming y.requests)
  pub quiet : IsQuiet y.caller y.requests
  pub order :
      (t : ℕ)
      → t ≢ 0
      → of t y.received ≡ of t y.started ++ (pending t y.requests ++ of t (incoming y.requests))

pub of-append : (t : ℕ) (rs qs : List Request) → of t (rs ++ qs) ≡ of t rs ++ of t qs
of-append t [] qs = refl
of-append t (r ∷ rs) qs = ground (arith, of-append t rs qs)

regrouped {ℓ} : {A : Type ℓ} (a b c d : List A) → a ++ ((b ++ c) ++ d) ≡ (a ++ b) ++ (c ++ d)
regrouped a b c d = simp (append_assoc)

-- A worker's critical section.
pub Served-Inv :
    (i : ℕ) (y : System) (s : PagerRequests)
    → Inv y
    → Served i y.requests s
    → IsQuiet y.caller s
    → Inv (started_by i s y)
Served-Inv i y s h v q = record {
  in_step = v.in_step;
  objects_in = rw v.same_in h.objects_in;
  quiet = q;
  order = λ t n.
      h.order t n
      ∙ ap (λ rs. of t y.started ++ (rs ++ of t (incoming y.requests))) (sym (v.order t n))
      ∙ ap (λ rs. of t y.started ++ ((of t (just_started i s) ++ pending t s) ++ of t rs))
          (same_incoming v)
      ∙ regrouped (of t y.started) (of t (just_started i s)) (pending t s) (of t (incoming s))
      ∙ ap (λ rs. rs ++ (pending t s ++ of t (incoming s)))
          (sym (of-append t y.started (just_started i s)));
}
  where
    same_incoming : Served i y.requests s → incoming y.requests ≡ incoming s
    same_incoming w = rw w.same_in refl

-- While the workers are inhibited, each of them sleeps.
pub sleeps_inhibited :
    (i : ℕ) (s : PagerRequests)
    → IsInStep s
    → s.asleep ≡ length s.workers
    → i < length s.workers
    → sleeps (get_or s.workers i new_worker).position ≡ 1
sleeps_inhibited i s h e l =
    let len = length-map (λ w. w.position) s.workers in
    rw (sym (get_or-map (λ w. w.position) s.workers i new_worker))
      (sleepers_all (positions s.workers) i (sym h.count ∙ e ∙ sym len) (omega (arith, l, len)))

-- A thread at work keeps the caller where it is, whatever the thread does to the queues.
pub IsQuiet-at_work :
    (caller : Caller) (i : ℕ) (s s' : PagerRequests)
    → IsInStep s
    → i < length s.workers
    → sleeps (get_or s.workers i new_worker).position ≡ 0
    → s'.queue_in ≡ s.queue_in
    → IsQuiet caller s
    → IsQuiet caller s'
IsQuiet-at_work running i s s' h l e eq q = rw eq q
IsQuiet-at_work draining i s s' h l e eq q = rw eq q
IsQuiet-at_work inhibited i s s' h l e eq q =
    absurd (omega (arith, e, sleeps_inhibited i s h q.1 l))

-- A thread that wakes up with nothing to do sleeps again.
wake_up-drained :
    (i : ℕ) (s : PagerRequests)
    → s.queue_out ≡ []
    → ((wake_up i s).queue_out ≡ []) × ((wake_up i s).asleep ≡ (s.asleep - 1) + 1)
unfolding wake_up get_request take_request
wake_up-drained i s e = ground (arith, e)

pub IsQuiet-wake_up :
    (caller : Caller) (i : ℕ) (s : PagerRequests)
    → IsInStep s
    → Served i s (wake_up i s)
    → IsQuiet caller s
    → IsQuiet caller (wake_up i s)
IsQuiet-wake_up running i s h v q = rw v.same_in q
IsQuiet-wake_up draining i s h v q = rw v.same_in q
IsQuiet-wake_up inhibited i s h v q =
    let again = wake_up-drained i s q.2 in
    (rw v.same_in q.0, omega (arith, again.1, q.1, v.same_length, h.some_worker), again.0)

-- The end of a server routine.
pub finish-Inv :
    (i : ℕ) (y : System) (r : Request)
    → Inv y
    → i < length y.requests.workers
    → (get_or y.requests.workers i new_worker).position ≡ serving r
    → Inv (record y { requests = finish i y.requests })
unfolding finish
finish-Inv i y r h l e =
    let s = y.requests in
    let v : WorkerThread = record (get_or s.workers i new_worker) { position = at_loop } in
    let awake_now : sleeps (get_or s.workers i new_worker).position ≡ 0 = ap (λ p. sleeps p) e in
    record {
      in_step = record {
        some_worker = omega (arith, h.in_step.some_worker, length-set s.workers i v);
        ordered = record {
          coherent =
              All-set IsCoherent s.workers i v h.in_step.ordered.coherent
                ((IsCoherent-at i s.workers h.in_step.ordered.coherent).0, tt);
          distinct = rw (tags_unchanged s.workers i v refl) h.in_step.ordered.distinct;
          objects = h.in_step.ordered.objects;
        };
        count = omega (arith, h.in_step.count, awake_now, positions-set i s.workers v l);
        awake = inr (
            rw (map-set (λ u. u.position) s.workers i v) (
              all_waiting-set (positions s.workers) i at_loop
                (omega (arith, l, length-map (λ u. u.position) s.workers)) refl));
      };
      objects_in = h.objects_in;
      quiet =
          IsQuiet-at_work y.caller i s (record s { workers = set s.workers i v }) h.in_step l
            awake_now refl h.quiet;
      order = λ t n.
          h.order t n
          ∙ ap (λ rs. of t y.started ++ ((rs ++ of t s.queue_out) ++ of t (incoming s)))
              (sym (held_moved t s.workers i at_loop));
    }
