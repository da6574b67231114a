-- ===== src/Demuxer/Workers/Taking.antt =====
-- libpager/demuxer.c: what get_request_locked's loop over the queue does to the requests.
use hurd.Base.{
  ℕ, ◌≡◌, ◌≢◌, refl, ap, ◌∙◌, Option, none, some, List, [], ◌∷◌, ◌++◌, ◌==◌, arith, All, Bool-cases,
  Option-cases, inl, inr, get_or, append_assoc, append-nil,
}
use hurd.Demuxer.Workers.{Request, WorkerThread, new_worker, delegate, take_request}
use hurd.Demuxer.Workers.Tags.{
  tags, positions, of, held, IsCoherent, Avoids, delegate-kept, delegate-IsCoherent, delegate-held,
  delegate-untagged, delegate-none,
}

abbrev pub IsObject : Request → Type 0
IsObject r = r.object ≢ 0

abbrev pub to_list : Option Request → List Request
to_list none = []
to_list (some r) = r ∷ []

-- The request that is found is for an object that nobody works on, and the queue is empty if there is
-- none.
abbrev pub IsFound : Option Request → List Request → List WorkerThread → Type 0
IsFound none rest ws = rest ≡ []
IsFound (some r) rest ws = IsObject r × Avoids r.object (tags ws)

-- A queue and workers before, and what is found, the queue and the workers afterwards.
pub record Taken (q : List Request) (ws : List WorkerThread) (found : Option Request)
    (rest : List Request) (ws' : List WorkerThread) : Type 0 where
  pub kept_tags : tags ws' ≡ tags ws
  pub kept_positions : positions ws' ≡ positions ws
  pub coherent : All IsCoherent ws'
  pub objects : All IsObject rest
  pub is_found : IsFound found rest ws'
  pub untagged :
      (i : ℕ) → (get_or ws i new_worker).tag ≡ 0 → get_or ws' i new_worker ≡ get_or ws i new_worker
  pub order :
      (object : ℕ)
      → held object ws' ++ of object (to_list found) ++ of object rest
        ≡ held object ws ++ of object q

order-delegated :
    (object : ℕ) (r : Request) (q : List Request) (ws vs : List WorkerThread)
    → delegate r ws ≡ some vs
    → held object vs ++ of object q ≡ held object ws ++ of object (r ∷ q)
order-delegated object r q ws vs e = elim (Bool-cases (r.object == object)) [
  | inl t ↦ ground (
    arith,
    t,
    delegate-held object r ws vs e,
    append_assoc (held object ws) (r ∷ []) (of object q),
  )
  | inr t ↦ ground (arith, t, delegate-held object r ws vs e)
]

Taken-delegated :
    (r : Request) (q : List Request) (ws vs : List WorkerThread) (found : Option Request)
    (rest : List Request) (ws' : List WorkerThread)
    → IsObject r
    → delegate r ws ≡ some vs
    → Taken q vs found rest ws'
    → Taken (r ∷ q) ws found rest ws'
Taken-delegated r q ws vs found rest ws' o e t = record {
  kept_tags = t.kept_tags ∙ (delegate-kept r ws vs e).0;
  kept_positions = t.kept_positions ∙ (delegate-kept r ws vs e).1;
  coherent = t.coherent;
  objects = t.objects;
  is_found = t.is_found;
  untagged = λ i z.
      let same = delegate-untagged r o ws vs e i z in
      t.untagged i (ap (λ w. w.tag) same ∙ z) ∙ same;
  order = λ object. t.order object ∙ order-delegated object r q ws vs e;
}

pub take_request-Taken :
    (q : List Request) (ws : List WorkerThread)
    → All IsObject q
    → All IsCoherent ws
    → let (found, rest, ws') = take_request q ws in Taken q ws found rest ws'
unfolding take_request
take_request-Taken [] ws o c = record {
  kept_tags = refl;
  kept_positions = refl;
  coherent = c;
  objects = tt;
  is_found = refl;
  untagged = λ i z. refl;
  order = λ object. append-nil (held object ws ++ []);
}
take_request-Taken (r ∷ q) ws o c = elim (Option-cases (delegate r ws)) [
  | inl n ↦
      rw (n, take_request)
        (record {
          kept_tags = refl;
          kept_positions = refl;
          coherent = c;
          objects = o.1;
          is_found = (o.0, delegate-none r ws n);
          untagged = λ i z. refl;
          order = λ object. elim (Bool-cases (r.object == object)) [
            | inl t ↦ rw t (append_assoc (held object ws) (r ∷ []) (of object q))
            | inr t ↦ rw t (ap (λ xs. xs ++ of object q) (append-nil (held object ws)))
          ];
        })
  | inr (vs, e) ↦
      rw (e, take_request)
        (let c' = delegate-IsCoherent r o.0 ws vs e c in
          let (found, rest, ws') = take_request q vs in
          Taken-delegated r q ws vs found rest ws' o.0 e (take_request-Taken q vs o.1 c'))
]
