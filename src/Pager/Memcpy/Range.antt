-- ===== src/Pager/Memcpy/Range.antt =====
-- libpager/pager-memcpy.c: ranges of bytes that are copied piece by piece.
use hurd.Base.{ℕ, ◌+◌, ◌-◌, ◌≤◌, ◌<◌, ◌≡◌, ◌^◌, if◌then◌else◌, ◌==◌, ap, arith}
use mathlib.Core.Path.{fun_ext}
use hurd.Pager.State.{word}
use hurd.Pager.Memcpy.{Copy, copied, transfer, move_on, minus, vm_prot_read}

same_source :
    (from : ℕ → ℕ) (begin start a x : ℕ)
    → start + a ≤ x
    → from (begin + a + (x - (start + a))) ≡ from (begin + (x - start))
same_source from begin start a x h = ap from (omega arith)

pub copied-copied :
    (from : ℕ → ℕ) (begin : ℕ) (to : ℕ → ℕ) (start a b : ℕ)
    → copied from (begin + a) (copied from begin to start a) (start + a) b
      ≡ copied from begin to start (a + b)
unfolding copied
copied-copied from begin to start a b =
    fun_ext (λ x. ground (arith, same_source from begin start a x))

pub copied-zero :
    (from : ℕ → ℕ) (begin : ℕ) (to : ℕ → ℕ) (start : ℕ) → copied from begin to start 0 ≡ to
unfolding copied
copied-zero from begin to start = fun_ext (λ x. ground arith)

-- T is S after COUNT bytes have been copied.
pub record IsMoved (prot : ℕ) (s : Copy) (count : ℕ) (t : Copy) : Type 0 where
  pub offset : t.offset ≡ s.offset + count
  pub other : t.other ≡ s.other + count
  pub n : t.n + count ≡ s.n
  pub memory : t.memory ≡ (
      if prot == vm_prot_read then copied s.contents s.offset s.memory s.other count else s.memory)
  pub contents : t.contents ≡ (
      if prot == vm_prot_read
      then s.contents
      else copied s.memory s.other s.contents s.offset count)

module _ (prot : ℕ) where
  pub IsMoved-trans :
      (s t u : Copy) (a b : ℕ) → IsMoved prot s a t → IsMoved prot t b u → IsMoved prot s (a + b) u
  IsMoved-trans s t u a b p q = ground (
    arith,
    p.offset,
    p.other,
    p.n,
    p.memory,
    p.contents,
    q.offset,
    q.other,
    q.n,
    q.memory,
    q.contents,
    copied-copied s.contents s.offset s.memory s.other a b,
    copied-copied s.memory s.other s.contents s.offset a b,
  )

  pub IsMoved-refl : (s : Copy) → IsMoved prot s 0 s
  IsMoved-refl s = ground (
    arith,
    copied-zero s.contents s.offset s.memory s.other,
    copied-zero s.memory s.other s.contents s.offset,
  )

  -- The window is no part of it.
  pub IsMoved-window :
      (s t : Copy) (a w : ℕ) → IsMoved prot (record s { window_size = w }) a t → IsMoved prot s a t
  IsMoved-window s t a w p = ground (arith, p.offset, p.other, p.n, p.memory, p.contents)

  pub move_on-IsMoved :
      (s : Copy) (count : ℕ)
      → count ≤ s.n
      → s.offset + s.n < 2 ^ 32
      → s.other + s.n < 2 ^ 32
      → IsMoved prot s count (move_on count (transfer prot count s))
  unfolding move_on transfer minus word
  move_on-IsMoved s count c f o = ground arith
