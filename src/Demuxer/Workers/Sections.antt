-- ===== src/Demuxer/Workers/Sections.antt =====
-- libpager/demuxer.c: the two ways into get_request_locked, and a request from the worker's own queue.
use hurd.Base.{
  ℕ, ◌-◌, ◌≡◌, ◌≢◌, ◌<◌, refl, sym, ap, ◌∙◌, subst, List, [], ◌∷◌, ◌++◌, arith, All, length, get_or,
  set, inl, inr, Bool-cases, List-cases, append_assoc, ◌==◌, ==_iff,
}
use hurd.Demuxer.Workers.{
  Request, Position, at_loop, serving, waiting, woken, WorkerThread, PagerRequests, new_worker,
  get_request, next_request, wake_up,
}
use hurd.Demuxer.Workers.System.{started_at}
use hurd.Demuxer.Workers.Tags.{tags, positions, of, held, IsFor, IsPlaced, IsCoherent}
use hurd.Demuxer.Workers.Threads.{
  get_or-set, length-set, All-set, map-set, length-map, AreDistinct, AreDistinct-set_free, held-own,
  held-released, held-kept, tags_unchanged,
}
use hurd.Demuxer.Workers.Sleeping.{sleeps, all_waiting-set}
use hurd.Demuxer.Workers.Critical.{IsInStep, Served, positions-set, get_request-Served}
use hurd.Demuxer.Workers.Settling.{IsIdle, IsCoherent-at}

no_tag_asleep : (tag : ℕ) (p : Position) → IsPlaced tag p → sleeps p ≡ 1 → tag ≡ 0
no_tag_asleep tag at_loop h e = absurd (omega (arith, e))
no_tag_asleep tag (serving r) h e = absurd (omega (arith, e))
no_tag_asleep tag waiting h e = h
no_tag_asleep tag woken h e = h

no_requests_untagged : (tag : ℕ) (q : List Request) → All (IsFor tag) q → tag ≡ 0 → q ≡ []
no_requests_untagged tag [] h e = refl
no_requests_untagged tag (r ∷ q) h e = absurd (h.0.1 e)

pub IsIdle-asleep :
    (i : ℕ) (ws : List WorkerThread)
    → All IsCoherent ws
    → i < length ws
    → sleeps (get_or ws i new_worker).position ≡ 1
    → IsIdle i ws
IsIdle-asleep i ws c l e =
    let w = get_or ws i new_worker in
    let h = IsCoherent-at i ws c in
    let z = no_tag_asleep w.tag w.position h.1 e in
    record { in_range = l; no_tag = z; no_requests = no_requests_untagged w.tag w.queue h.0 z }

-- A return from pthread_cond_wait.
pub wake_up-Served :
    (i : ℕ) (s : PagerRequests)
    → IsInStep s
    → i < length s.workers
    → sleeps (get_or s.workers i new_worker).position ≡ 1
    → Served i s (wake_up i s)
unfolding wake_up
wake_up-Served i s h l e =
    let counted =
      positions-set i s.workers (record (get_or s.workers i new_worker) { position = at_loop }) l in
    let got =
      get_request-Served i (record s { asleep = s.asleep - 1 }) h.some_worker h.ordered
        (IsIdle-asleep i s.workers h.ordered.coherent l e) (omega (arith, h.count, e, counted)) in
    record {
      in_step = got.in_step;
      same_length = got.same_length;
      same_in = got.same_in;
      order = got.order;
    }

own-order :
    (t i : ℕ) (ws : List WorkerThread) (r : Request) (q : List Request) (v : WorkerThread)
    → t ≢ 0
    → i < length ws
    → AreDistinct (tags ws)
    → v.tag ≡ (get_or ws i new_worker).tag
    → v.queue ≡ q
    → r.object ≡ (get_or ws i new_worker).tag
    → (get_or ws i new_worker).queue ≡ r ∷ q
    → of t (r ∷ []) ++ held t (set ws i v) ≡ held t ws
own-order t i ws r q v n l d e eq o own =
    let kept = held-kept t ws i v n l d e in
    elim (Bool-cases ((get_or ws i new_worker).tag == t)) [
      | inl x ↦
          let all = held-own t ws i n d ((==_iff (get_or ws i new_worker).tag t).0 x) in
          ground (arith, x, kept, eq, o, own, all)
      | inr x ↦ ground (arith, x, kept, eq, o, own)
    ]

-- A request from the worker's own queue.
own-Served :
    (i : ℕ) (s : PagerRequests) (r : Request) (q : List Request)
    → IsInStep s
    → i < length s.workers
    → sleeps (get_or s.workers i new_worker).position ≡ 0
    → (get_or s.workers i new_worker).queue ≡ r ∷ q
    → Served i s (record s {
      workers =
          set s.workers i
            (record (get_or s.workers i new_worker) { queue = q; position = serving r });
    })
own-Served i s r q h l e eq =
    let w = get_or s.workers i new_worker in
    let v : WorkerThread = record w { queue = q; position = serving r } in
    let mine : All (IsFor w.tag) (r ∷ q) =
      subst (λ rs. All (IsFor w.tag) rs) eq (IsCoherent-at i s.workers h.ordered.coherent).0 in
    record {
      in_step = record {
        some_worker = omega (arith, h.some_worker, length-set s.workers i v);
        ordered = record {
          coherent = All-set IsCoherent s.workers i v h.ordered.coherent (mine.1, mine.0);
          distinct = rw (tags_unchanged s.workers i v refl) h.ordered.distinct;
          objects = h.ordered.objects;
        };
        count = omega (arith, h.count, e, positions-set i s.workers v l);
        awake = inr (
            rw (map-set (λ u. u.position) s.workers i v) (
              all_waiting-set (positions s.workers) i (serving r)
                (omega (arith, l, length-map (λ u. u.position) s.workers)) refl));
      };
      same_length = length-set s.workers i v;
      same_in = refl;
      order = λ t n.
          let this = own-order t i s.workers r q v n l h.ordered.distinct refl refl mine.0.0 eq in
          ap
            (λ w'.
              of t (started_at w'.position) ++ (held t (set s.workers i v) ++ of t s.queue_out))
            (get_or-set s.workers i v new_worker l)
          ∙ (sym (append_assoc (of t (r ∷ [])) (held t (set s.workers i v)) (of t s.queue_out))
              ∙ ap (λ rs. rs ++ of t s.queue_out) this);
    }

next_request_nil :
    (i : ℕ) (s : PagerRequests)
    → (get_or s.workers i new_worker).queue ≡ []
    → next_request i s
      ≡ get_request i (record s {
        workers = set s.workers i (record (get_or s.workers i new_worker) { tag = 0 });
      })
unfolding next_request
next_request_nil i s eq = ground (arith, eq)

next_request_cons :
    (i : ℕ) (s : PagerRequests) (r : Request) (q : List Request)
    → (get_or s.workers i new_worker).queue ≡ r ∷ q
    → next_request i s ≡ record s {
      workers =
          set s.workers i
            (record (get_or s.workers i new_worker) { queue = q; position = serving r });
    }
unfolding next_request
next_request_cons i s r q eq = ground (arith, eq)

-- A worker whose queue is empty gives its tag up and looks for a request.
cleared-Served :
    (i : ℕ) (s : PagerRequests)
    → IsInStep s
    → i < length s.workers
    → sleeps (get_or s.workers i new_worker).position ≡ 0
    → (get_or s.workers i new_worker).position ≡ at_loop
    → (get_or s.workers i new_worker).queue ≡ []
    → Served i s (
        get_request i (record s {
          workers = set s.workers i (record (get_or s.workers i new_worker) { tag = 0 });
        }))
cleared-Served i s h l e pos eq =
    let w = get_or s.workers i new_worker in
    let v : WorkerThread = record w { tag = 0 } in
    let ws : List WorkerThread = set s.workers i v in
    let same : get_or ws i new_worker ≡ v = get_or-set s.workers i v new_worker l in
    let len = length-set s.workers i v in
    let coherent : IsCoherent v = (rw eq tt, rw pos tt) in
    let got =
      get_request-Served i (record s { workers = ws }) (omega (arith, h.some_worker, len))
        (record {
          coherent = All-set IsCoherent s.workers i v h.ordered.coherent coherent;
          distinct =
              rw (map-set (λ u. u.tag) s.workers i v)
                (AreDistinct-set_free (tags s.workers) i h.ordered.distinct);
          objects = h.ordered.objects;
        })
        (record {
          in_range = omega (arith, l, len);
          no_tag = ap (λ u. u.tag) same;
          no_requests = ap (λ u. u.queue) same ∙ eq;
        })
        (omega
          (arith, h.count, positions-set i s.workers v l, e, ap (λ u. sleeps u.position) same)) in
    record {
      in_step = got.in_step;
      same_length = got.same_length ∙ len;
      same_in = got.same_in;
      order = λ t n.
          got.order t n
          ∙ ap (λ rs. rs ++ of t s.queue_out) (held-released t s.workers i n h.ordered.distinct eq);
    }

pub next_request-Served :
    (i : ℕ) (s : PagerRequests)
    → IsInStep s
    → i < length s.workers
    → (get_or s.workers i new_worker).position ≡ at_loop
    → Served i s (next_request i s)
next_request-Served i s h l e = elim (List-cases (get_or s.workers i new_worker).queue) [
  | inl eq ↦ rw (next_request_nil i s eq) (cleared-Served i s h l (ap (λ p. sleeps p) e) e eq)
  | inr (r, q, eq) ↦
      rw (next_request_cons i s r q eq) (own-Served i s r q h l (ap (λ p. sleeps p) e) eq)
]
