-- ===== src/Pager/State/Pages.antt =====
-- `pagemap[n] = data` and then `pagemap[m]`: libpager/pagemap.h.
use hurd.Base.{
  ℕ, zero, suc, ◌<◌, ◌≡◌, ◌≢◌, refl, ap, List, [], ◌∷◌, arith, length, get_or, set, leb, Bool-cases,
  inl, inr,
}
use hurd.Pagemap.Entry.{EntryData, empty_page}
use hurd.Pagemap.Intern.{resize, grow}
use hurd.Pagemap.Intern.Refines.{get_or-grow}
use hurd.Pager.State.{Pager, page_data, put_page}

module _ {ℓ} {A : Type ℓ} (d : A) where
  length-resize : (n : ℕ) (xs : List A) → length (resize d n xs) ≡ n
  length-resize zero xs = refl
  length-resize (suc n) [] = ap suc (length-resize n [])
  length-resize (suc n) (x ∷ xs) = ap suc (length-resize n xs)

  lt-length-grow : (n : ℕ) (xs : List A) → n < length (grow d n xs)
  lt-length-grow n xs = elim (Bool-cases (leb (length xs) n)) [
    | inl e ↦ rw e (omega (arith, length-resize (suc n) xs))
    | inr e ↦ rw e (ground arith)
  ]

  get_or-set_self : (xs : List A) (n : ℕ) (v : A) → n < length xs → get_or (set xs n v) n d ≡ v
  get_or-set_self [] n v h = elim h [ ]
  get_or-set_self (x ∷ xs) zero v h = refl
  get_or-set_self (x ∷ xs) (suc n) v h = get_or-set_self xs n v (omega arith)

  get_or-set_ne : (xs : List A) (n j : ℕ) (v : A) → n ≢ j → get_or (set xs n v) j d ≡ get_or xs j d
  get_or-set_ne [] n j v h = refl
  get_or-set_ne (x ∷ xs) zero zero v h = absurd (h refl)
  get_or-set_ne (x ∷ xs) zero (suc j) v h = refl
  get_or-set_ne (x ∷ xs) (suc n) zero v h = refl
  get_or-set_ne (x ∷ xs) (suc n) (suc j) v h = get_or-set_ne xs n j v (λ e. h (ap suc e))

  get_or-set-grow : (n : ℕ) (xs : List A) (v : A) → get_or (set (grow d n xs) n v) n d ≡ v
  get_or-set-grow n xs v = get_or-set_self (grow d n xs) n v (lt-length-grow n xs)

pub page_data-put_page : (n : ℕ) (e : EntryData) (s : Pager) → page_data n (put_page n e s) ≡ e
page_data-put_page n e s = get_or-set-grow empty_page n s.pagemap e

pub page_data-put_page_ne :
    (n m : ℕ) (e : EntryData) (s : Pager) → n ≢ m → page_data m (put_page n e s) ≡ page_data m s
page_data-put_page_ne n m e s h =
    rw (get_or-set_ne empty_page (grow empty_page n s.pagemap) n m e h)
      (get_or-grow empty_page n m s.pagemap)
