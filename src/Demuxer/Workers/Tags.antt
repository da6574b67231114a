-- ===== src/Demuxer/Workers/Tags.antt =====
-- libpager/demuxer.c: what the loops over the workers leave as it was.
use hurd.Base.{
  ℕ, zero, suc, ◌≡◌, ◌≢◌, refl, sym, ap, subst, true, false, none, some, List, [], ◌∷◌, ◌++◌, ◌==◌,
  if◌then◌else◌, arith, All, ==_iff, Bool-cases, Option-cases, inl, inr, map, get_or, keep, ◌∙◌,
}
use hurd.Demuxer.Workers.{
  Request, Position, at_loop, serving, waiting, woken, WorkerThread, new_worker, delegate,
}

abbrev pub tags : List WorkerThread → List ℕ
tags ws = map (λ w. w.tag) ws

abbrev pub positions : List WorkerThread → List Position
positions ws = map (λ w. w.position) ws

-- The requests of an object.
abbrev pub of : ℕ → List Request → List Request
of object rs = keep (λ r. r.object == object) rs

-- The requests that wait in the queue of the worker with the object's tag.
abbrev pub held : ℕ → List WorkerThread → List Request
held object [] = []
held object (w ∷ ws) = if w.tag == object then w.queue else held object ws

-- A request is for the object with the tag, and no object's tag is 0.
abbrev pub IsFor : ℕ → Request → Type 0
IsFor tag r = (r.object ≡ tag) × (tag ≢ 0)

-- A worker's queue holds requests for the object of its tag; so is the request that it serves. A
-- worker that waits has no tag.
abbrev pub IsPlaced : ℕ → Position → Type 0
IsPlaced tag at_loop = Unit
IsPlaced tag (serving r) = IsFor tag r
IsPlaced tag waiting = tag ≡ 0
IsPlaced tag woken = tag ≡ 0

abbrev pub IsCoherent : WorkerThread → Type 0
IsCoherent w = All (IsFor w.tag) w.queue × IsPlaced w.tag w.position

pub All-append {ℓ κ} :
    {A : Type ℓ} (P : A → Type κ) (xs ys : List A) → All P xs → All P ys → All P (xs ++ ys)
All-append P [] ys h k = k
All-append P (x ∷ xs) ys h k = (h.0, All-append P xs ys h.1 k)

-- The two ends of `delegate` on a worker and the others.
delegate-hit :
    (r : Request) (w : WorkerThread) (ws ws' : List WorkerThread)
    → (w.tag == r.object) ≡ true
    → delegate r (w ∷ ws) ≡ some ws'
    → (record w { queue = w.queue ++ r ∷ [] } ∷ ws) ≡ ws'
unfolding delegate
delegate-hit r w ws ws' t e = ground (arith, e, t)

delegate-miss :
    (r : Request) (w : WorkerThread) (ws ws' : List WorkerThread)
    → (w.tag == r.object) ≡ false
    → delegate r (w ∷ ws) ≡ some ws'
    → (vs : List WorkerThread) × (delegate r ws ≡ some vs) × ((w ∷ vs) ≡ ws')
unfolding delegate
delegate-miss r w ws ws' t e = elim (Option-cases (delegate r ws)) [
  | inl n ↦ ground (arith, e, t, n)
  | inr (vs, n) ↦ (vs, n, ground (arith, e, t, n))
]

delegate-nil : (r : Request) (ws' : List WorkerThread) → delegate r [] ≡ some ws' → ⊥
unfolding delegate
delegate-nil r ws' e = cc

-- What holds of the workers however a request is delegated, by the worker that gets it.
delegate-ind :
    (P : List WorkerThread → List WorkerThread → Type 0) (r : Request)
    → ((w : WorkerThread) (ws : List WorkerThread)
        → w.tag ≡ r.object
        → P (w ∷ ws) (record w { queue = w.queue ++ r ∷ [] } ∷ ws))
    → ((w : WorkerThread) (ws vs : List WorkerThread)
        → (w.tag == r.object) ≡ false
        → P ws vs
        → P (w ∷ ws) (w ∷ vs))
    → (ws ws' : List WorkerThread) → delegate r ws ≡ some ws'
    → P ws ws'
delegate-ind P r hit miss [] ws' e = absurd (delegate-nil r ws' e)
delegate-ind P r hit miss (w ∷ ws) ws' e = elim (Bool-cases (w.tag == r.object)) [
  | inl t ↦
      subst (λ vs. P (w ∷ ws) vs) (delegate-hit r w ws ws' t e)
        (hit w ws ((==_iff w.tag r.object).0 t))
  | inr t ↦
      let (vs, n, eq) = delegate-miss r w ws ws' t e in
      subst (λ us. P (w ∷ ws) us) eq (miss w ws vs t (delegate-ind P r hit miss ws vs n))
]

pub delegate-kept :
    (r : Request) (ws ws' : List WorkerThread)
    → delegate r ws ≡ some ws'
    → (tags ws' ≡ tags ws) × (positions ws' ≡ positions ws)
delegate-kept r =
    delegate-ind (λ ws vs. (tags vs ≡ tags ws) × (positions vs ≡ positions ws)) r
      (λ w ws t. (refl, refl))
      (λ w ws vs t h. (ap (λ ts. w.tag ∷ ts) h.0, ap (λ ps. w.position ∷ ps) h.1))

pub delegate-IsCoherent :
    (r : Request)
    → r.object ≢ 0
    → (ws ws' : List WorkerThread) → delegate r ws ≡ some ws'
    → All IsCoherent ws
    → All IsCoherent ws'
delegate-IsCoherent r o =
    delegate-ind (λ ws vs. All IsCoherent ws → All IsCoherent vs) r
      (λ w ws t h. (
        (All-append (IsFor w.tag) w.queue (r ∷ []) h.0.0 ((sym t, λ e. o (sym t ∙ e)), tt), h.0.1),
        h.1,
      ))
      (λ w ws vs t k h. (h.0, k h.1))

-- A delegated request goes behind those that wait for its object.
pub delegate-held :
    (object : ℕ) (r : Request) (ws ws' : List WorkerThread)
    → delegate r ws ≡ some ws'
    → held object ws' ≡ (if r.object == object then held object ws ++ r ∷ [] else held object ws)
delegate-held object r =
    delegate-ind
      (λ ws vs.
        held object vs ≡ (if r.object == object then held object ws ++ r ∷ [] else held object ws))
      r
      (λ w ws t. elim (Bool-cases (r.object == object)) [
        | inl e ↦ ground (arith, e, t)
        | inr e ↦ ground (arith, e, t)
      ])
      (λ w ws vs t h. elim (Bool-cases (w.tag == object)) [
        | inl e ↦
            ground (arith, e, t, ==_iff w.tag object, ==_iff r.object object, ==_iff w.tag r.object)
        | inr e ↦ rw e h
      ])

untagged-hit :
    (r : Request) (w : WorkerThread) (ws : List WorkerThread) (i : ℕ)
    → r.object ≢ 0
    → w.tag ≡ r.object
    → (get_or (w ∷ ws) i new_worker).tag ≡ 0
    → get_or (record w { queue = w.queue ++ r ∷ [] } ∷ ws) i new_worker
      ≡ get_or (w ∷ ws) i new_worker
untagged-hit r w ws zero o t e = absurd (o (sym t ∙ e))
untagged-hit r w ws (suc i) o t e = refl

untagged-miss :
    (w : WorkerThread) (ws vs : List WorkerThread) (i : ℕ)
    → ((j : ℕ) → (get_or ws j new_worker).tag ≡ 0 → get_or vs j new_worker ≡ get_or ws j new_worker)
    → (get_or (w ∷ ws) i new_worker).tag ≡ 0
    → get_or (w ∷ vs) i new_worker ≡ get_or (w ∷ ws) i new_worker
untagged-miss w ws vs zero h e = refl
untagged-miss w ws vs (suc i) h e = h i e

-- The worker at an index, if it has no tag, is not the one that gets the request.
pub delegate-untagged :
    (r : Request)
    → r.object ≢ 0
    → (ws ws' : List WorkerThread) → delegate r ws ≡ some ws'
    → (i : ℕ) → (get_or ws i new_worker).tag ≡ 0
    → get_or ws' i new_worker ≡ get_or ws i new_worker
delegate-untagged r o =
    delegate-ind
      (λ ws vs.
        (i : ℕ)
        → (get_or ws i new_worker).tag ≡ 0
        → get_or vs i new_worker ≡ get_or ws i new_worker)
      r (λ w ws t i e. untagged-hit r w ws i o t e) (λ w ws vs t h i e. untagged-miss w ws vs i h e)

-- Nobody works on the object of a request that is not delegated.
abbrev pub Avoids : ℕ → List ℕ → Type 0
Avoids t ts = All (λ u. u ≢ t) ts

pub delegate-none :
    (r : Request) (ws : List WorkerThread) → delegate r ws ≡ none → Avoids r.object (tags ws)
unfolding delegate
delegate-none r [] e = tt
delegate-none r (w ∷ ws) e = elim (Bool-cases (w.tag == r.object)) [
  | inl t ↦ ground (arith, e, t)
  | inr t ↦ elim (Option-cases (delegate r ws)) [
    | inl n ↦ (ground (arith, t, ==_iff w.tag r.object), delegate-none r ws n)
    | inr (vs, n) ↦ ground (arith, e, t, n)
  ]
]
