-- ===== src/Demuxer/Workers/Settling.antt =====
-- libpager/demuxer.c: a worker that finds a request for an object that nobody works on, or none.
use hurd.Base.{
  ℕ, zero, suc, ◌≡◌, ◌≢◌, ◌<◌, refl, sym, ap, ◌∙◌, subst, Option, none, some, List, [], ◌∷◌, ◌++◌,
  arith, All, length, get_or, set, inl, inr, ◌==◌, ==_iff, Bool-cases, append-nil,
}
use hurd.Demuxer.Workers.{Request, Position, serving, waiting, WorkerThread, new_worker}
use hurd.Demuxer.Workers.Tags.{tags, of, held, IsCoherent, Avoids}
use hurd.Demuxer.Workers.Taking.{IsObject, to_list, Taken}
use hurd.Demuxer.Workers.Threads.{
  All-set, All-get_or, length-map, AreDistinct, held-avoided, AreDistinct-changed, held-claimed,
  tags_unchanged,
}

-- Of the workers: each has requests for the object of its tag only, no two have the same tag, and none
-- has NULL for an object.
pub record IsOrdered (q : List Request) (ws : List WorkerThread) : Type 0 where
  pub coherent : All IsCoherent ws
  pub distinct : AreDistinct (tags ws)
  pub objects : All IsObject q

-- A worker without a tag and without requests, which is about to look for one.
pub record IsIdle (i : ℕ) (ws : List WorkerThread) : Type 0 where
  pub in_range : i < length ws
  pub no_tag : (get_or ws i new_worker).tag ≡ 0
  pub no_requests : (get_or ws i new_worker).queue ≡ []

-- The workers after the request that is found, or none, has gone to the worker `i`.
abbrev pub settled : ℕ → Option Request → List WorkerThread → List WorkerThread
settled i none ws = set ws i (record (get_or ws i new_worker) { position = waiting })
settled i (some r) ws =
    set ws i (record (get_or ws i new_worker) { tag = r.object; position = serving r })

pub held_moved :
    (t : ℕ) (ws : List WorkerThread) (i : ℕ) (p : Position)
    → held t (set ws i (record (get_or ws i new_worker) { position = p })) ≡ held t ws
held_moved t [] i p = refl
held_moved t (w ∷ ws) zero p = refl
held_moved t (w ∷ ws) (suc i) p = ground (arith, held_moved t ws i p)

pub IsCoherent-at :
    (i : ℕ) (ws : List WorkerThread) → All IsCoherent ws → IsCoherent (get_or ws i new_worker)
IsCoherent-at i ws c = All-get_or IsCoherent ws i new_worker c (tt, tt)

pub length_kept : (ws vs : List WorkerThread) → tags vs ≡ tags ws → length vs ≡ length ws
length_kept ws vs e =
    sym (length-map (λ w. w.tag) vs) ∙ ap (λ ts. length ts) e ∙ length-map (λ w. w.tag) ws

pub Taken-IsIdle :
    (i : ℕ) (q : List Request) (ws : List WorkerThread) (found : Option Request)
    (rest : List Request) (ws' : List WorkerThread)
    → IsIdle i ws
    → Taken q ws found rest ws'
    → IsIdle i ws'
Taken-IsIdle i q ws found rest ws' d t =
    let same = t.untagged i d.no_tag in
    record {
      in_range = omega (arith, d.in_range, length_kept ws ws' t.kept_tags);
      no_tag = ap (λ w. w.tag) same ∙ d.no_tag;
      no_requests = ap (λ w. w.queue) same ∙ d.no_requests;
    }

pub settled-IsOrdered :
    (i : ℕ) (q : List Request) (ws : List WorkerThread) (found : Option Request)
    (rest : List Request) (ws' : List WorkerThread)
    → IsOrdered q ws
    → IsIdle i ws
    → Taken q ws found rest ws'
    → IsOrdered rest (settled i found ws')
settled-IsOrdered i q ws none rest ws' o d t =
    let w = get_or ws' i new_worker in
    record {
      coherent =
          All-set IsCoherent ws' i (record w { position = waiting }) t.coherent
            ((IsCoherent-at i ws' t.coherent).0, (Taken-IsIdle i q ws none rest ws' d t).no_tag);
      distinct =
          rw (tags_unchanged ws' i (record w { position = waiting }) refl, t.kept_tags) o.distinct;
      objects = t.objects;
    }
settled-IsOrdered i q ws (some r) rest ws' o d t =
    let w = get_or ws' i new_worker in
    let idle = Taken-IsIdle i q ws (some r) rest ws' d t in
    let v : WorkerThread = record w { tag = r.object; position = serving r } in
    record {
      coherent =
          All-set IsCoherent ws' i v t.coherent (rw idle.no_requests tt, (refl, t.is_found.0));
      distinct = AreDistinct-changed ws' i v t.is_found.1 (rw t.kept_tags o.distinct);
      objects = t.objects;
    }

pub settled-order :
    (i : ℕ) (q : List Request) (ws : List WorkerThread) (found : Option Request)
    (rest : List Request) (ws' : List WorkerThread) (object : ℕ)
    → object ≢ 0
    → IsOrdered q ws
    → IsIdle i ws
    → Taken q ws found rest ws'
    → of object (to_list found) ++ (held object (settled i found ws') ++ of object rest)
      ≡ held object ws ++ of object q
settled-order i q ws none rest ws' object n o d t =
    rw (held_moved object ws' i waiting)
      (ap (λ xs. xs ++ of object rest) (sym (append-nil (held object ws'))) ∙ t.order object)
settled-order i q ws (some r) rest ws' object n o d t =
    let w = get_or ws' i new_worker in
    let idle = Taken-IsIdle i q ws (some r) rest ws' d t in
    let v : WorkerThread = record w { tag = r.object; position = serving r } in
    let same =
      held-claimed object ws' i v n idle.in_range (rw t.kept_tags o.distinct) t.is_found.1
        idle.no_tag idle.no_requests in
    elim (Bool-cases (r.object == object)) [
      | inl e ↦
          let none_held =
            held-avoided object ws'
              (subst (λ u. Avoids u (tags ws')) ((==_iff r.object object).0 e) t.is_found.1) in
          ground (arith, e, same, none_held, t.order object)
      | inr e ↦ ground (arith, e, same, append-nil (held object ws'), t.order object)
    ]
