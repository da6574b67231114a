-- ===== src/Demuxer/Workers/Sleeping.antt =====
-- libpager/demuxer.c: threads in pthread_cond_wait, and what wakes them.
use hurd.Base.{
  ℕ, zero, suc, ◌+◌, ◌≡◌, ◌<◌, ◌≤◌, refl, ap, subst, Bool, true, false, ◌&&◌, List, [], ◌∷◌, arith,
  All, length, get_or, set, inl, inr, Bool-cases,
}
use hurd.Demuxer.Workers.{
  Position, at_loop, serving, waiting, woken, WorkerThread, new_worker, is_waiting, wake_first,
  wake_all, wake_at, signal,
}
use hurd.Demuxer.Workers.Tags.{tags, positions, held, IsPlaced, IsCoherent}

-- Whether `asleep` counts the thread.
abbrev pub sleeps : Position → ℕ
sleeps at_loop = 0
sleeps (serving r) = 0
sleeps waiting = 1
sleeps woken = 1

abbrev pub sleepers : List Position → ℕ
sleepers [] = 0
sleepers (p ∷ ps) = sleeps p + sleepers ps

abbrev pub all_waiting : List Position → Bool
all_waiting [] = true
all_waiting (p ∷ ps) = is_waiting p && all_waiting ps

pub sleepers-set :
    (ps : List Position) (i : ℕ) (p : Position)
    → i < length ps
    → sleepers (set ps i p) + sleeps (get_or ps i at_loop) ≡ sleepers ps + sleeps p
sleepers-set [] i p h = omega (arith, h)
sleepers-set (q ∷ ps) zero p h = omega arith
sleepers-set (q ∷ ps) (suc i) p h =
    let below : i < length ps = omega (arith, h) in omega (arith, sleepers-set ps i p below)

pub sleeps_le : (p : Position) → sleeps p ≤ 1
sleeps_le at_loop = omega arith
sleeps_le (serving r) = omega arith
sleeps_le waiting = omega arith
sleeps_le woken = omega arith

pub sleepers-le : (ps : List Position) → sleepers ps ≤ length ps
sleepers-le [] = omega arith
sleepers-le (p ∷ ps) = omega (arith, sleeps_le p, sleepers-le ps)

-- If as many sleep as there are threads, each does.
pub sleepers_all :
    (ps : List Position) (i : ℕ)
    → sleepers ps ≡ length ps
    → i < length ps
    → sleeps (get_or ps i at_loop) ≡ 1
sleepers_all [] i e h = omega (arith, h)
sleepers_all (p ∷ ps) zero e h = omega (arith, e, sleeps_le p, sleepers-le ps)
sleepers_all (p ∷ ps) (suc i) e h =
    sleepers_all ps i (omega (arith, e, sleeps_le p, sleepers-le ps)) (omega (arith, h))

pub all_waiting-set :
    (ps : List Position) (i : ℕ) (p : Position)
    → i < length ps
    → is_waiting p ≡ false
    → all_waiting (set ps i p) ≡ false
all_waiting-set [] i p h e = absurd (omega (arith, h))
all_waiting-set (q ∷ ps) zero p h e = rw e refl
all_waiting-set (q ∷ ps) (suc i) p h e =
    let below : i < length ps = omega (arith, h) in ground (arith, all_waiting-set ps i p below e)

pub all_waiting_awake :
    (ps : List Position) → sleepers ps ≡ 0 → 0 < length ps → all_waiting ps ≡ false
all_waiting_awake [] e h = absurd (omega (arith, h))
all_waiting_awake (at_loop ∷ ps) e h = refl
all_waiting_awake (serving r ∷ ps) e h = refl
all_waiting_awake (waiting ∷ ps) e h = absurd (omega (arith, e))
all_waiting_awake (woken ∷ ps) e h = refl

-- What threads that are woken up keep.
pub record AreWoken (ws vs : List WorkerThread) : Type 0 where
  pub same_tags : tags vs ≡ tags ws
  pub same_length : length vs ≡ length ws
  pub same_held : (t : ℕ) → held t vs ≡ held t ws
  pub same_sleepers : sleepers (positions vs) ≡ sleepers (positions ws)
  pub coherent : All IsCoherent ws → All IsCoherent vs

pub AreWoken-refl : (ws : List WorkerThread) → AreWoken ws ws
AreWoken-refl ws = record {
  same_tags = refl;
  same_length = refl;
  same_held = λ t. refl;
  same_sleepers = refl;
  coherent = λ h. h;
}

AreWoken-one :
    (w : WorkerThread) (ws vs : List WorkerThread)
    → w.position ≡ waiting
    → AreWoken ws vs
    → AreWoken (w ∷ ws) (record w { position = woken } ∷ vs)
AreWoken-one w ws vs e h = record {
  same_tags = ap (λ ts. w.tag ∷ ts) h.same_tags;
  same_length = ap suc h.same_length;
  same_held = λ t. ground (arith, h.same_held t);
  same_sleepers = ground (arith, e, h.same_sleepers);
  coherent = λ c. ((c.0.0, subst (λ p. IsPlaced w.tag p) e c.0.1), h.coherent c.1);
}

AreWoken-other :
    (w : WorkerThread) (ws vs : List WorkerThread) → AreWoken ws vs → AreWoken (w ∷ ws) (w ∷ vs)
AreWoken-other w ws vs h = record {
  same_tags = ap (λ ts. w.tag ∷ ts) h.same_tags;
  same_length = ap suc h.same_length;
  same_held = λ t. ground (arith, h.same_held t);
  same_sleepers = omega (arith, h.same_sleepers);
  coherent = λ c. (c.0, h.coherent c.1);
}

is_waiting_iff : (p : Position) → is_waiting p ≡ true → p ≡ waiting
is_waiting_iff waiting e = refl
is_waiting_iff at_loop e = cc
is_waiting_iff (serving r) e = cc
is_waiting_iff woken e = cc

wake_first-AreWoken : (ws : List WorkerThread) → AreWoken ws (wake_first ws)
wake_first-AreWoken [] = AreWoken-refl []
wake_first-AreWoken (w ∷ ws) = elim (Bool-cases (is_waiting w.position)) [
  | inl e ↦ rw e (AreWoken-one w ws ws (is_waiting_iff w.position e) (AreWoken-refl ws))
  | inr e ↦ rw e (AreWoken-other w ws (wake_first ws) (wake_first-AreWoken ws))
]

wake_at-AreWoken :
    (i : ℕ) (ws : List WorkerThread)
    → is_waiting (get_or ws i new_worker).position ≡ true
    → AreWoken ws (wake_at i ws)
wake_at-AreWoken i [] e = AreWoken-refl []
wake_at-AreWoken zero (w ∷ ws) e =
    AreWoken-one w ws ws (is_waiting_iff w.position e) (AreWoken-refl ws)
wake_at-AreWoken (suc i) (w ∷ ws) e = AreWoken-other w ws (wake_at i ws) (wake_at-AreWoken i ws e)

pub wake_all-AreWoken : (ws : List WorkerThread) → AreWoken ws (wake_all ws)
wake_all-AreWoken [] = AreWoken-refl []
wake_all-AreWoken (w ∷ ws) = elim (Bool-cases (is_waiting w.position)) [
  | inl e ↦
      rw e (AreWoken-one w ws (wake_all ws) (is_waiting_iff w.position e) (wake_all-AreWoken ws))
  | inr e ↦ rw e (AreWoken-other w ws (wake_all ws) (wake_all-AreWoken ws))
]

pub signal-AreWoken : (chosen : ℕ) (ws : List WorkerThread) → AreWoken ws (signal chosen ws)
unfolding signal
signal-AreWoken chosen ws = elim (Bool-cases (is_waiting (get_or ws chosen new_worker).position)) [
  | inl e ↦ rw e (wake_at-AreWoken chosen ws e)
  | inr e ↦ rw e (wake_first-AreWoken ws)
]

-- After a signal, not all wait.
wake_first_wakes :
    (ws : List WorkerThread) → 0 < length ws → all_waiting (positions (wake_first ws)) ≡ false
wake_first_wakes [] h = absurd (omega (arith, h))
wake_first_wakes (w ∷ ws) h = ground arith

wake_at_wakes :
    (i : ℕ) (ws : List WorkerThread)
    → is_waiting (get_or ws i new_worker).position ≡ true
    → all_waiting (positions (wake_at i ws)) ≡ false
wake_at_wakes i [] e = cc
wake_at_wakes zero (w ∷ ws) e = refl
wake_at_wakes (suc i) (w ∷ ws) e = ground (arith, wake_at_wakes i ws e)

pub signal_wakes :
    (chosen : ℕ) (ws : List WorkerThread)
    → 0 < length ws
    → all_waiting (positions (signal chosen ws)) ≡ false
unfolding signal
signal_wakes chosen ws h = elim (Bool-cases (is_waiting (get_or ws chosen new_worker).position)) [
  | inl e ↦ rw e (wake_at_wakes chosen ws e)
  | inr e ↦ rw e (wake_first_wakes ws h)
]

pub wake_all_wakes :
    (ws : List WorkerThread) → 0 < length ws → all_waiting (positions (wake_all ws)) ≡ false
wake_all_wakes [] h = absurd (omega (arith, h))
wake_all_wakes (w ∷ ws) h = ground arith
