-- ===== src/Demuxer/Workers/Threads.antt =====
-- libpager/demuxer.c: one worker's fields replaced, among the others.
use hurd.Base.{
  ℕ, zero, suc, ◌≡◌, ◌≢◌, ◌<◌, refl, sym, ap, ◌∙◌, subst, List, [], ◌∷◌, ◌==◌, if◌then◌else◌, arith,
  All, ==_iff, Bool-cases, inl, inr, map, length, get_or, set,
}
use hurd.Demuxer.Workers.{WorkerThread, new_worker}
use hurd.Demuxer.Workers.Tags.{tags, held, Avoids}

module _ {ℓ} {A : Type ℓ} where
  pub get_or-set : (xs : List A) (i : ℕ) (a d : A) → i < length xs → get_or (set xs i a) i d ≡ a
  get_or-set [] i a d h = absurd (omega (arith, h))
  get_or-set (x ∷ xs) zero a d h = refl
  get_or-set (x ∷ xs) (suc i) a d h = get_or-set xs i a d (omega (arith, h))

  pub length-set : (xs : List A) (i : ℕ) (a : A) → length (set xs i a) ≡ length xs
  length-set [] i a = refl
  length-set (x ∷ xs) zero a = refl
  length-set (x ∷ xs) (suc i) a = ap suc (length-set xs i a)

  pub All-set {κ} :
      (P : A → Type κ) (xs : List A) (i : ℕ) (a : A) → All P xs → P a → All P (set xs i a)
  All-set P [] i a h p = tt
  All-set P (x ∷ xs) zero a h p = (p, h.1)
  All-set P (x ∷ xs) (suc i) a h p = (h.0, All-set P xs i a h.1 p)

  pub All-get_or {κ} :
      (P : A → Type κ) (xs : List A) (i : ℕ) (d : A) → All P xs → P d → P (get_or xs i d)
  All-get_or P [] i d h p = p
  All-get_or P (x ∷ xs) zero d h p = h.0
  All-get_or P (x ∷ xs) (suc i) d h p = All-get_or P xs i d h.1 p

  pub map-set {κ} :
      {B : Type κ} (f : A → B) (xs : List A) (i : ℕ) (a : A)
      → map f (set xs i a) ≡ set (map f xs) i (f a)
  map-set f [] i a = refl
  map-set f (x ∷ xs) zero a = refl
  map-set f (x ∷ xs) (suc i) a = ap (λ ys. f x ∷ ys) (map-set f xs i a)

  pub get_or-map {κ} :
      {B : Type κ} (f : A → B) (xs : List A) (i : ℕ) (d : A)
      → get_or (map f xs) i (f d) ≡ f (get_or xs i d)
  get_or-map f [] i d = refl
  get_or-map f (x ∷ xs) zero d = refl
  get_or-map f (x ∷ xs) (suc i) d = get_or-map f xs i d

  pub length-map {κ} : {B : Type κ} (f : A → B) (xs : List A) → length (map f xs) ≡ length xs
  length-map f [] = refl
  length-map f (x ∷ xs) = ap suc (length-map f xs)

  pub set_same : (xs : List A) (i : ℕ) (d : A) → set xs i (get_or xs i d) ≡ xs
  set_same [] i d = refl
  set_same (x ∷ xs) zero d = refl
  set_same (x ∷ xs) (suc i) d = ap (λ ys. x ∷ ys) (set_same xs i d)

-- No two workers have the same tag, but for 0.
abbrev pub AreDistinct : List ℕ → Type 0
AreDistinct [] = Unit
AreDistinct (t ∷ ts) = (t ≢ 0 → Avoids t ts) × AreDistinct ts

pub AreDistinct-set_free : (ts : List ℕ) (i : ℕ) → AreDistinct ts → AreDistinct (set ts i 0)
AreDistinct-set_free [] i h = tt
AreDistinct-set_free (t ∷ ts) zero h = ((λ e. absurd (e refl)), h.1)
AreDistinct-set_free (t ∷ ts) (suc i) h =
    ((λ e. All-set (λ u. u ≢ t) ts i 0 (h.0 e) (λ z. e (sym z))), AreDistinct-set_free ts i h.1)

AreDistinct-set : (ts : List ℕ) (i t : ℕ) → Avoids t ts → AreDistinct ts → AreDistinct (set ts i t)
AreDistinct-set [] i t a h = tt
AreDistinct-set (u ∷ ts) zero t a h = ((λ e. a.1), h.1)
AreDistinct-set (u ∷ ts) (suc i) t a h =
    ((λ e. All-set (λ v. v ≢ u) ts i t (h.0 e) (λ z. a.0 (sym z))), AreDistinct-set ts i t a.1 h.1)

-- Nobody else has the tag of the worker at an index.
pub AreDistinct-ne :
    (u t : ℕ) (ts : List ℕ) (i : ℕ) → t ≢ 0 → AreDistinct (u ∷ ts) → get_or ts i 0 ≡ t → u ≢ t
AreDistinct-ne u t ts i e h g = λ z.
    All-get_or (λ v. v ≢ u) ts i 0 (h.0 (λ y. e (sym z ∙ y))) (λ y. e (sym z ∙ sym y)) (g ∙ sym z)

Avoids-freed :
    (ts : List ℕ) (i t : ℕ) → t ≢ 0 → AreDistinct ts → get_or ts i 0 ≡ t → Avoids t (set ts i 0)
Avoids-freed [] i t e h g = tt
Avoids-freed (u ∷ ts) zero t e h g =
    ((λ z. e (sym z)), subst (λ v. Avoids v ts) g (h.0 (λ z. e (sym g ∙ z))))
Avoids-freed (u ∷ ts) (suc i) t e h g = (AreDistinct-ne u t ts i e h g, Avoids-freed ts i t e h.1 g)

pub held-avoided : (t : ℕ) (ws : List WorkerThread) → Avoids t (tags ws) → held t ws ≡ []
held-avoided t [] h = refl
held-avoided t (w ∷ ws) h = ground (arith, h.0, held-avoided t ws h.1, ==_iff w.tag t)

pub held-own :
    (t : ℕ) (ws : List WorkerThread) (i : ℕ)
    → t ≢ 0
    → AreDistinct (tags ws)
    → (get_or ws i new_worker).tag ≡ t
    → held t ws ≡ (get_or ws i new_worker).queue
held-own t [] i e h g = absurd (e (sym g))
held-own t (w ∷ ws) zero e h g = ground (arith, g, ==_iff w.tag t)
held-own t (w ∷ ws) (suc i) e h g = elim (Bool-cases (w.tag == t)) [
  | inl x ↦ absurd (
      AreDistinct-ne w.tag t (tags ws) i e h (get_or-map (λ v. v.tag) ws i new_worker ∙ g)
        ((==_iff w.tag t).0 x))
  | inr x ↦ rw x (held-own t ws i e h.1 g)
]

held-other :
    (t : ℕ) (ws : List WorkerThread) (i : ℕ) (v : WorkerThread)
    → (get_or ws i new_worker).tag ≢ t
    → v.tag ≢ t
    → held t (set ws i v) ≡ held t ws
held-other t [] i v e n = refl
held-other t (w ∷ ws) zero v e n = ground (arith, e, n, ==_iff w.tag t, ==_iff v.tag t)
held-other t (w ∷ ws) (suc i) v e n = ground (arith, held-other t ws i v e n)

-- The changes that a worker makes to itself: it gives its tag up, it takes the tag of an object that
-- nobody works on, it takes the first request of its queue, it moves.
pub held-released :
    (t : ℕ) (ws : List WorkerThread) (i : ℕ)
    → t ≢ 0
    → AreDistinct (tags ws)
    → (get_or ws i new_worker).queue ≡ []
    → held t (set ws i (record (get_or ws i new_worker) { tag = 0 })) ≡ held t ws
held-released t ws i e h q = elim (Bool-cases ((get_or ws i new_worker).tag == t)) [
  | inl x ↦
      let own = (==_iff (get_or ws i new_worker).tag t).0 x in
      held-avoided t (set ws i (record (get_or ws i new_worker) { tag = 0 })) (
        rw (map-set (λ w. w.tag) ws i (record (get_or ws i new_worker) { tag = 0 }))
          (Avoids-freed (tags ws) i t e h (get_or-map (λ v. v.tag) ws i new_worker ∙ own)))
      ∙ sym (held-own t ws i e h own ∙ q)
  | inr x ↦
      held-other t ws i (record (get_or ws i new_worker) { tag = 0 })
        (ground (arith, x, ==_iff (get_or ws i new_worker).tag t)) (λ z. e (sym z))
]

pub AreDistinct-changed :
    (ws : List WorkerThread) (i : ℕ) (v : WorkerThread)
    → Avoids v.tag (tags ws)
    → AreDistinct (tags ws)
    → AreDistinct (tags (set ws i v))
AreDistinct-changed ws i v a h =
    rw (map-set (λ w. w.tag) ws i v) (AreDistinct-set (tags ws) i v.tag a h)

pub held-claimed :
    (t : ℕ) (ws : List WorkerThread) (i : ℕ) (v : WorkerThread)
    → t ≢ 0
    → i < length ws
    → AreDistinct (tags ws)
    → Avoids v.tag (tags ws)
    → (get_or ws i new_worker).tag ≡ 0
    → v.queue ≡ []
    → held t (set ws i v) ≡ held t ws
held-claimed t ws i v e l h a z q = elim (Bool-cases (v.tag == t)) [
  | inl x ↦
      let own = (==_iff v.tag t).0 x in
      let same = get_or-set ws i v new_worker l in
      held-own t (set ws i v) i e (AreDistinct-changed ws i v a h) (ap (λ w. w.tag) same ∙ own)
      ∙ (ap (λ w. w.queue) same ∙ q)
      ∙ sym (held-avoided t ws (subst (λ u. Avoids u (tags ws)) own a))
  | inr x ↦ held-other t ws i v (λ y. e (sym y ∙ z)) (ground (arith, x, ==_iff v.tag t))
]

pub tags_unchanged :
    (ws : List WorkerThread) (i : ℕ) (v : WorkerThread)
    → v.tag ≡ (get_or ws i new_worker).tag
    → tags (set ws i v) ≡ tags ws
tags_unchanged ws i v e =
    map-set (λ w. w.tag) ws i v
    ∙ ap (λ t. set (tags ws) i t) (e ∙ sym (get_or-map (λ w. w.tag) ws i new_worker))
    ∙ set_same (tags ws) i 0

-- A worker that keeps its tag: its queue is what waits for its object.
pub held-kept :
    (t : ℕ) (ws : List WorkerThread) (i : ℕ) (v : WorkerThread)
    → t ≢ 0
    → i < length ws
    → AreDistinct (tags ws)
    → v.tag ≡ (get_or ws i new_worker).tag
    → (if (get_or ws i new_worker).tag == t then v.queue else held t ws) ≡ held t (set ws i v)
held-kept t ws i v e l h s = elim (Bool-cases ((get_or ws i new_worker).tag == t)) [
  | inl x ↦
      let own = (==_iff (get_or ws i new_worker).tag t).0 x in
      let same = get_or-set ws i v new_worker l in
      rw x (
        sym (
          held-own t (set ws i v) i e (rw (tags_unchanged ws i v s) h)
            (ap (λ w. w.tag) same ∙ s ∙ own)
          ∙ ap (λ w. w.queue) same))
  | inr x ↦
      let other : (get_or ws i new_worker).tag ≢ t =
        ground (arith, x, ==_iff (get_or ws i new_worker).tag t) in
      rw x (sym (held-other t ws i v other (λ y. other (sym s ∙ y))))
]
