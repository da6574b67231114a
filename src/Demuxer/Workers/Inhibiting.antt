-- ===== src/Demuxer/Workers/Inhibiting.antt =====
-- libpager/demuxer.c: pager_inhibit_workers and pager_resume_workers keep the invariant, and their
-- asserts hold.
use hurd.Base.{
  ◌≡◌, refl, sym, ap, subst, ◌∙◌, Bool, true, false, none, some, List, [], ◌++◌, arith, All, length,
  inl, inr, Option-cases, append_assoc, append-nil, if◌then◌else◌,
}
use hurd.Demuxer.Workers.{Request, PagerRequests, is_inhibited, wake_all, inhibit, resume}
use hurd.Demuxer.Workers.System.{System, running, draining, inhibited, Outcome, ok, asserted}
use hurd.Demuxer.Workers.Tags.{of, held}
use hurd.Demuxer.Workers.Taking.{IsObject}
use hurd.Demuxer.Workers.Sleeping.{wake_all-AreWoken, wake_all_wakes}
use hurd.Demuxer.Workers.Critical.{pending}
use hurd.Demuxer.Workers.Arrivals.{IsInStep-woken, incoming_free, incoming_kept}
use hurd.Demuxer.Workers.Invariant.{incoming, IsQuiet, Inv}

regrouped_resumed {ℓ} :
    {A : Type ℓ} (a b c : List A) → a ++ ((b ++ []) ++ c) ≡ a ++ ((b ++ c) ++ [])
regrouped_resumed a b c = simp (append_assoc, append-nil)

-- What an asserted call keeps, if its assert holds.
abbrev pub Holds : Outcome → Type 0
Holds (ok z) = Inv z
Holds _ = ⊥

not_inhibited : (s : PagerRequests) → is_inhibited s ≡ false → s.queue_in ≡ none
not_inhibited s e = elim (Option-cases s.queue_in) [ inl n ↦ n | inr (q, n) ↦ ground (arith, e, n) ]

inhibit_lem :
    (memory : Bool) (s : PagerRequests)
    → is_inhibited s ≡ false
    → inhibit memory s ≡ some (if memory then record s { queue_in = some [] } else s)
unfolding inhibit
inhibit_lem memory s e = rw e refl

pub inhibit-Inv :
    (memory : Bool) (y : System)
    → Inv y
    → is_inhibited y.requests ≡ false
    → Holds (asserted (if memory then draining else running) (inhibit memory y.requests) y)
inhibit-Inv false y h e =
    rw (inhibit_lem false y.requests e)
      (record { in_step = h.in_step; objects_in = h.objects_in; quiet = e; order = h.order })
inhibit-Inv true y h e = rw (inhibit_lem true y.requests e) (record {
  in_step = record {
    some_worker = h.in_step.some_worker;
    ordered = h.in_step.ordered;
    count = h.in_step.count;
    awake = h.in_step.awake;
  };
  objects_in = tt;
  quiet = refl;
  order = λ t n.
      h.order t n
      ∙ ap (λ rs. of t y.started ++ (pending t y.requests ++ of t rs))
          (incoming_free y.requests (not_inhibited y.requests e));
})

resume_lem :
    (s : PagerRequests) (q : List Request)
    → s.queue_in ≡ some q
    → s.asleep ≡ length s.workers
    → s.queue_out ≡ []
    → resume s ≡ some (record s { queue_in = none; queue_out = q; workers = wake_all s.workers })
unfolding resume
resume_lem s q e a o = ground (arith, e, a, o)

-- The asserts of pager_resume_workers hold, and the new queue becomes the queue.
resume_kept :
    (y : System) (q : List Request)
    → Inv y
    → y.requests.queue_in ≡ some q
    → y.requests.asleep ≡ length y.requests.workers
    → y.requests.queue_out ≡ []
    → Holds (asserted running (resume y.requests) y)
resume_kept y q h e a o =
    let s = y.requests in
    let woken = wake_all-AreWoken s.workers in
    rw (resume_lem s q e a o) (record {
      in_step =
          IsInStep-woken s q (wake_all s.workers) h.in_step woken
            (subst (λ rs. All IsObject rs) (incoming_kept s q e) h.objects_in)
            (wake_all_wakes s.workers h.in_step.some_worker);
      objects_in = tt;
      quiet = refl;
      order = λ t n.
          h.order t n
          ∙ ap (λ rs. of t y.started ++ ((held t s.workers ++ of t rs) ++ of t (incoming s))) o
          ∙ ap (λ rs. of t y.started ++ ((held t s.workers ++ []) ++ of t rs)) (incoming_kept s q e)
          ∙ regrouped_resumed (of t y.started) (held t s.workers) (of t q)
          ∙ ap (λ rs. of t y.started ++ ((rs ++ of t q) ++ [])) (sym (woken.same_held t));
    })

pub resume-Inv :
    (y : System)
    → Inv y
    → IsQuiet inhibited y.requests
    → Holds (asserted running (resume y.requests) y)
resume-Inv y h e = elim (Option-cases y.requests.queue_in) [
  | inl n ↦ ground (arith, e.0, n)
  | inr (q, n) ↦ resume_kept y q h n e.1 e.2
]
