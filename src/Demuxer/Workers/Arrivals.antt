-- ===== src/Demuxer/Workers/Arrivals.antt =====
-- libpager/demuxer.c: pager_demuxer keeps the invariant.
use hurd.Base.{
  ℕ, ◌≡◌, refl, sym, ap, subst, ◌∙◌, Bool, true, false, none, some, List, [], ◌∷◌, ◌++◌, arith, All,
  inl, inr, Bool-cases, Option-cases, append_assoc, append-nil, if◌then◌else◌, ltb,
}
use hurd.Demuxer.Workers.{
  Request, WorkerThread, PagerRequests, pager_demuxer, unknown_message, no_memory, queued, signal,
}
use hurd.Demuxer.Workers.System.{System, Caller, running, draining, inhibited, accept}
use hurd.Demuxer.Workers.Tags.{positions, of, held, All-append}
use hurd.Demuxer.Workers.Taking.{IsObject}
use hurd.Demuxer.Workers.Sleeping.{
  sleepers, all_waiting, all_waiting_awake, AreWoken, AreWoken-refl, signal-AreWoken, signal_wakes,
}
use hurd.Demuxer.Workers.Threads.{length-map}
use hurd.Demuxer.Workers.Critical.{pending, IsInStep}
use hurd.Demuxer.Workers.Invariant.{incoming, IsQuiet, Inv, of-append}

-- Threads are woken while the queue that they take from is replaced.
pub IsInStep-woken :
    (s : PagerRequests) (q : List Request) (vs : List WorkerThread)
    → IsInStep s
    → AreWoken s.workers vs
    → All IsObject q
    → all_waiting (positions vs) ≡ false
    → IsInStep (record s { queue_in = none; queue_out = q; workers = vs })
IsInStep-woken s q vs h w o a = record {
  some_worker = omega (arith, h.some_worker, w.same_length);
  ordered = record {
    coherent = w.coherent h.ordered.coherent;
    distinct = rw w.same_tags h.ordered.distinct;
    objects = o;
  };
  count = h.count ∙ sym w.same_sleepers;
  awake = inr a;
}

-- The workers after a request has come in.
abbrev alerted : ℕ → PagerRequests → List WorkerThread
alerted chosen s = if ltb 0 s.asleep then signal chosen s.workers else s.workers

alerted-AreWoken : (chosen : ℕ) (s : PagerRequests) → AreWoken s.workers (alerted chosen s)
alerted-AreWoken chosen s = elim (Bool-cases (ltb 0 s.asleep)) [
  | inl e ↦ rw e (signal-AreWoken chosen s.workers)
  | inr e ↦ rw e (AreWoken-refl s.workers)
]

alerted_wakes :
    (chosen : ℕ) (s : PagerRequests)
    → IsInStep s
    → all_waiting (positions (alerted chosen s)) ≡ false
alerted_wakes chosen s h = elim (Bool-cases (ltb 0 s.asleep)) [
  | inl e ↦ rw e (signal_wakes chosen s.workers h.some_worker)
  | inr e ↦
      let none_sleeps : sleepers (positions s.workers) ≡ 0 = ground (arith, e, h.count) in
      rw e (
        all_waiting_awake (positions s.workers) none_sleeps
          (omega (arith, h.some_worker, length-map (λ w. w.position) s.workers)))
]

regrouped_end {ℓ} :
    {A : Type ℓ} (a b c d : List A) → (a ++ ((b ++ c) ++ [])) ++ d ≡ a ++ ((b ++ (c ++ d)) ++ [])
regrouped_end a b c d = simp (append_assoc, append-nil)

regrouped_in {ℓ} : {A : Type ℓ} (a b c d : List A) → (a ++ (b ++ c)) ++ d ≡ a ++ (b ++ (c ++ d))
regrouped_in a b c d = simp (append_assoc)

pub incoming_free : (s : PagerRequests) → s.queue_in ≡ none → incoming s ≡ []
incoming_free s e = rw e refl

pub incoming_kept : (s : PagerRequests) (q : List Request) → s.queue_in ≡ some q → incoming s ≡ q
incoming_kept s q e = rw e refl

IsQuiet-free :
    (caller : Caller) (s s' : PagerRequests)
    → s.queue_in ≡ none
    → s'.queue_in ≡ none
    → IsQuiet caller s
    → IsQuiet caller s'
IsQuiet-free running s s' e e' q = rw e' refl
IsQuiet-free draining s s' e e' q = ground (arith, e, q)
IsQuiet-free inhibited s s' e e' q = ground (arith, e, q.0)

IsQuiet-kept :
    (caller : Caller) (s : PagerRequests) (q q' : List Request)
    → s.queue_in ≡ some q
    → IsQuiet caller s
    → IsQuiet caller (record s { queue_in = some q' })
IsQuiet-kept running s q q' e h = ground (arith, e, h)
IsQuiet-kept draining s q q' e h = refl
IsQuiet-kept inhibited s q q' e h = (refl, h.1, h.2)

-- A request while the workers are not inhibited.
received-Inv :
    (chosen : ℕ) (r : Request) (y : System)
    → IsObject r
    → Inv y
    → y.requests.queue_in ≡ none
    → Inv (record y {
      requests = record y.requests {
        queue_in = none;
        queue_out = y.requests.queue_out ++ r ∷ [];
        workers = alerted chosen y.requests;
      };
      received = y.received ++ r ∷ [];
    })
received-Inv chosen r y o h e =
    let s = y.requests in
    let woken = alerted-AreWoken chosen s in
    record {
      in_step =
          IsInStep-woken s (s.queue_out ++ r ∷ []) (alerted chosen s) h.in_step woken
            (All-append IsObject s.queue_out (r ∷ []) h.in_step.ordered.objects (o, tt))
            (alerted_wakes chosen s h.in_step);
      objects_in = tt;
      quiet =
          IsQuiet-free y.caller s
            (record s {
              queue_in = none;
              queue_out = s.queue_out ++ r ∷ [];
              workers = alerted chosen s;
            })
            e refl h.quiet;
      order = λ t n.
          of-append t y.received (r ∷ [])
          ∙ ap (λ rs. rs ++ of t (r ∷ [])) (h.order t n)
          ∙ ap (λ rs. (of t y.started ++ (pending t s ++ of t rs)) ++ of t (r ∷ []))
              (incoming_free s e)
          ∙ regrouped_end (of t y.started) (held t s.workers) (of t s.queue_out) (of t (r ∷ []))
          ∙ ap (λ rs. of t y.started ++ ((held t s.workers ++ rs) ++ []))
              (sym (of-append t s.queue_out (r ∷ [])))
          ∙ ap (λ rs. of t y.started ++ ((rs ++ of t (s.queue_out ++ r ∷ [])) ++ []))
              (sym (woken.same_held t));
    }

-- A request while they are.
kept-Inv :
    (r : Request) (q : List Request) (y : System)
    → IsObject r
    → Inv y
    → y.requests.queue_in ≡ some q
    → Inv (record y {
      requests = record y.requests { queue_in = some (q ++ r ∷ []) };
      received = y.received ++ r ∷ [];
    })
kept-Inv r q y o h e =
    let s = y.requests in
    record {
      in_step = record {
        some_worker = h.in_step.some_worker;
        ordered = h.in_step.ordered;
        count = h.in_step.count;
        awake = h.in_step.awake;
      };
      objects_in =
          All-append IsObject q (r ∷ [])
            (subst (λ rs. All IsObject rs) (incoming_kept s q e) h.objects_in) (o, tt);
      quiet = IsQuiet-kept y.caller s q (q ++ r ∷ []) e h.quiet;
      order = λ t n.
          of-append t y.received (r ∷ [])
          ∙ ap (λ rs. rs ++ of t (r ∷ [])) (h.order t n)
          ∙ ap (λ rs. (of t y.started ++ (pending t s ++ of t rs)) ++ of t (r ∷ []))
              (incoming_kept s q e)
          ∙ regrouped_in (of t y.started) (pending t s) (of t q) (of t (r ∷ []))
          ∙ ap (λ rs. of t y.started ++ (pending t s ++ rs)) (sym (of-append t q (r ∷ [])));
    }

pager_demuxer_free :
    (chosen : ℕ) (r : Request) (s : PagerRequests)
    → s.queue_in ≡ none
    → pager_demuxer true true chosen r s ≡ (
      queued,
      record s { queue_in = none; queue_out = s.queue_out ++ r ∷ []; workers = alerted chosen s },
    )
unfolding pager_demuxer
pager_demuxer_free chosen r s e = ground (arith, e)

pager_demuxer_inhibited :
    (chosen : ℕ) (r : Request) (s : PagerRequests) (q : List Request)
    → s.queue_in ≡ some q
    → pager_demuxer true true chosen r s ≡ (queued, record s { queue_in = some (q ++ r ∷ []) })
unfolding pager_demuxer
pager_demuxer_inhibited chosen r s q e = ground (arith, e)

pager_demuxer_unknown :
    (memory : Bool) (chosen : ℕ) (r : Request) (s : PagerRequests)
    → pager_demuxer false memory chosen r s ≡ (unknown_message, s)
unfolding pager_demuxer
pager_demuxer_unknown memory chosen r s = refl

pager_demuxer_full :
    (chosen : ℕ) (r : Request) (s : PagerRequests)
    → pager_demuxer true false chosen r s ≡ (no_memory, s)
unfolding pager_demuxer
pager_demuxer_full chosen r s = refl

pub pager_demuxer-Inv :
    (routine memory : Bool) (chosen : ℕ) (r : Request) (y : System)
    → IsObject r
    → Inv y
    → Inv (accept r (pager_demuxer routine memory chosen r y.requests) y)
pager_demuxer-Inv false memory chosen r y o h =
    rw (pager_demuxer_unknown memory chosen r y.requests) h
pager_demuxer-Inv true false chosen r y o h = rw (pager_demuxer_full chosen r y.requests) h
pager_demuxer-Inv true true chosen r y o h = elim (Option-cases y.requests.queue_in) [
  | inl e ↦ rw (pager_demuxer_free chosen r y.requests e) (received-Inv chosen r y o h e)
  | inr (q, e) ↦ rw (pager_demuxer_inhibited chosen r y.requests q e) (kept-Inv r q y o h e)
]
