-- ===== src/Pagemap/Intern/Refines.antt =====
-- The shared set refines a plain vector of page data: libpager/pagemap.h, `operator=` and
-- `operator[]`.
use hurd.Base.{
  ℕ, zero, suc, ◌≤◌, ◌<◌, ◌≡◌, ◌≢◌, refl, sym, ap, ◌∙◌, ◌↔◌, inl, inr, List, [], ◌∷◌, map, arith,
  length, get_or, set, leb, All, Bool-cases,
}
use hurd.Base.OrdMap.{is_eq}
use hurd.Pagemap.Entry.{EntryData, empty_page}
use hurd.Pagemap.Order.{entry_compare, entry_compare_eq}
use hurd.Pagemap.Intern.{Interned, empty_page_ptr, insert_data, deref, resize, grow, fetch, assign}

-- The vector that the pointers stand for.
abbrev pub values : Interned → List EntryData
values s = map (deref s.pagemap_set) s.entries

-- No element of the set stands twice.
abbrev pub Distinct : List EntryData → Type 0
Distinct [] = Unit {0}
Distinct (x ∷ xs) = All (λ y. x ≢ y) xs × Distinct xs

pub record IsValid (s : Interned) : Type 0 where
  pub distinct : Distinct s.pagemap_set
  pub has_empty : (0 < length s.pagemap_set) × (deref s.pagemap_set empty_page_ptr ≡ empty_page)
  pub in_set : All (λ p. p < length s.pagemap_set) s.entries

-- What an insertion gives: the position holds the data, older positions keep theirs.
pub insert_data-deref :
    (d : EntryData) (pool : List EntryData)
    → deref (insert_data d pool).1 (insert_data d pool).0 ≡ d
unfolding insert_data
insert_data-deref d [] = refl
insert_data-deref d (x ∷ xs) = ground (arith, entry_compare_eq d x, insert_data-deref d xs)

pub insert_data-lt :
    (d : EntryData) (pool : List EntryData) → (insert_data d pool).0 < length (insert_data d pool).1
unfolding insert_data
insert_data-lt d [] = omega arith
insert_data-lt d (x ∷ xs) = ground (arith, insert_data-lt d xs)

pub insert_data-old :
    (d : EntryData) (p : ℕ) (pool : List EntryData)
    → p < length pool
    → deref (insert_data d pool).1 p ≡ deref pool p
unfolding insert_data
insert_data-old d p [] h = elim h [ ]
insert_data-old d zero (x ∷ xs) h = ground arith
insert_data-old d (suc p) (x ∷ xs) h = ground (arith, insert_data-old d p xs)

pub insert_data-grows :
    (d : EntryData) (pool : List EntryData) → length pool ≤ length (insert_data d pool).1
unfolding insert_data
insert_data-grows d [] = omega arith
insert_data-grows d (x ∷ xs) = ground (arith, insert_data-grows d xs)

insert_data-All :
    (x d : EntryData) (pool : List EntryData)
    → x ≢ d
    → All (λ y. x ≢ y) pool
    → All (λ y. x ≢ y) (insert_data d pool).1
unfolding insert_data
insert_data-All x d [] ne h = (ne, tt)
insert_data-All x d (y ∷ ys) ne h = elim (Bool-cases (is_eq (entry_compare d y))) [
  | inl e ↦ rw e h
  | inr e ↦ rw e (h.0, insert_data-All x d ys ne h.1)
]

insert_data-Distinct :
    (d : EntryData) (pool : List EntryData) → Distinct pool → Distinct (insert_data d pool).1
unfolding insert_data
insert_data-Distinct d [] h = (tt, tt)
insert_data-Distinct d (x ∷ xs) h = elim (Bool-cases (is_eq (entry_compare d x))) [
  | inl e ↦ rw e h
  | inr e ↦ rw e (
    insert_data-All x d xs (λ q. ground (arith, entry_compare_eq d x)) h.0,
    insert_data-Distinct d xs h.1,
  )
]

module _ {ℓ κ} {A : Type ℓ} {B : Type κ} (f : A → B) (d : A) where
  map-resize : (n : ℕ) (xs : List A) → map f (resize d n xs) ≡ resize (f d) n (map f xs)
  map-resize zero xs = refl
  map-resize (suc n) [] = ap (◌∷◌ (f d)) (map-resize n [])
  map-resize (suc n) (x ∷ xs) = ap (◌∷◌ (f x)) (map-resize n xs)

  length-map : (xs : List A) → length (map f xs) ≡ length xs
  length-map [] = refl
  length-map (x ∷ xs) = ap suc (length-map xs)

  map-grow : (n : ℕ) (xs : List A) → map f (grow d n xs) ≡ grow (f d) n (map f xs)
  map-grow n xs = elim (Bool-cases (leb (length xs) n)) [
    | inl e ↦ rw (length-map xs, e) (map-resize (suc n) xs)
    | inr e ↦ rw (length-map xs, e)
  ]

  map-set : (xs : List A) (n : ℕ) (a : A) → map f (set xs n a) ≡ set (map f xs) n (f a)
  map-set [] n a = refl
  map-set (x ∷ xs) zero a = refl
  map-set (x ∷ xs) (suc n) a = ap (◌∷◌ (f x)) (map-set xs n a)

  get_or-map : (xs : List A) (n : ℕ) → get_or (map f xs) n (f d) ≡ f (get_or xs n d)
  get_or-map [] n = refl
  get_or-map (x ∷ xs) zero = refl
  get_or-map (x ∷ xs) (suc n) = get_or-map xs n

module _ {ℓ} {A : Type ℓ} (d : A) where
  get_or-resize :
      (n j : ℕ) (xs : List A) → length xs ≤ n → get_or (resize d n xs) j d ≡ get_or xs j d
  get_or-resize zero j [] h = refl
  get_or-resize zero j (x ∷ xs) h = absurd (omega arith)
  get_or-resize (suc n) zero [] h = refl
  get_or-resize (suc n) (suc j) [] h = get_or-resize n j [] (omega arith)
  get_or-resize (suc n) zero (x ∷ xs) h = refl
  get_or-resize (suc n) (suc j) (x ∷ xs) h = get_or-resize n j xs (omega arith)

  pub get_or-grow : (n j : ℕ) (xs : List A) → get_or (grow d n xs) j d ≡ get_or xs j d
  get_or-grow n j xs = elim (Bool-cases (leb (length xs) n)) [
    | inl e ↦ rw e (get_or-resize (suc n) j xs (ground arith))
    | inr e ↦ rw e
  ]

module _ {A : Type 0} (P : A → Type 0) where
  All-resize : (d : A) (n : ℕ) (xs : List A) → P d → All P xs → All P (resize d n xs)
  All-resize d zero xs p h = tt
  All-resize d (suc n) [] p h = (p, All-resize d n [] p tt)
  All-resize d (suc n) (x ∷ xs) p h = (h.0, All-resize d n xs p h.1)

  pub All-grow : (d : A) (n : ℕ) (xs : List A) → P d → All P xs → All P (grow d n xs)
  All-grow d n xs p h = elim (Bool-cases (leb (length xs) n)) [
    | inl e ↦ rw e (All-resize d (suc n) xs p h)
    | inr e ↦ rw e h
  ]

  pub All-set : (xs : List A) (n : ℕ) (a : A) → P a → All P xs → All P (set xs n a)
  All-set [] n a p h = tt
  All-set (x ∷ xs) zero a p h = (p, h.1)
  All-set (x ∷ xs) (suc n) a p h = (h.0, All-set xs n a p h.1)

  pub All-get_or : (d : A) (n : ℕ) (xs : List A) → P d → All P xs → P (get_or xs n d)
  All-get_or d n [] p h = p
  All-get_or d zero (x ∷ xs) p h = h.0
  All-get_or d (suc n) (x ∷ xs) p h = All-get_or d n xs p h.1

-- Elements that the pool had keep their meaning for every pointer in range.
values-insert :
    (d : EntryData) (pool : List EntryData) (ps : List ℕ)
    → All (λ p. p < length pool) ps
    → map (deref (insert_data d pool).1) ps ≡ map (deref pool) ps
values-insert d pool [] h = refl
values-insert d pool (p ∷ ps) h = cc (insert_data-old d p pool h.0, values-insert d pool ps h.1)

All-lt_mono : {m n : ℕ} (ps : List ℕ) → m ≤ n → All (λ p. p < m) ps → All (λ p. p < n) ps
All-lt_mono [] h a = tt
All-lt_mono (p ∷ ps) h a = (omega arith, All-lt_mono ps h a.1)

-- In a well-formed set no element stands twice, the empty page is first, and the pointers stand for
-- elements of the set. An assignment keeps it so.
pub assign-IsValid : (n : ℕ) (d : EntryData) (s : Interned) → IsValid s → IsValid (assign n d s)
unfolding assign
assign-IsValid n d s v = record {
  distinct = insert_data-Distinct d s.pagemap_set v.distinct;
  has_empty = (
    omega (arith, insert_data-grows d s.pagemap_set, v.has_empty.0),
    insert_data-old d 0 s.pagemap_set v.has_empty.0 ∙ v.has_empty.1,
  );
  in_set = All-set _ _ n _ (insert_data-lt d s.pagemap_set) (
      All-lt_mono _ (insert_data-grows d s.pagemap_set)
        (All-grow _ 0 n s.entries v.has_empty.0 v.in_set));
}

-- On a well-formed set, `pagemap[n] = data` writes the value at index `n` of the vector, extended by
-- empty pages if it is too short, and changes no other page.
pub values-assign :
    (n : ℕ) (d : EntryData) (s : Interned)
    → IsValid s
    → values (assign n d s) ≡ set (grow empty_page n (values s)) n d
unfolding assign
values-assign n d s v =
    let (p, pool) = insert_data d s.pagemap_set in
    let in_range = All-grow (λ q. q < length s.pagemap_set) 0 n s.entries v.has_empty.0 v.in_set in
    map-set (deref pool) 0 (grow 0 n s.entries) n p
    ∙ (rw (insert_data-deref d s.pagemap_set, values-insert d s.pagemap_set _ in_range)
        (rw (map-grow (deref s.pagemap_set) 0 n s.entries, v.has_empty.1)))

-- On a well-formed set, `pagemap[n]` is the value at index `n`, or the empty page beyond the end, and
-- the vector is extended by empty pages only, and only if `n` is beyond its end.
fetch_value :
    (n : ℕ) (s : Interned)
    → IsValid s
    → ((fetch n s).0 ≡ get_or (values s) n empty_page)
      × (values (fetch n s).1 ≡ grow empty_page n (values s))
unfolding fetch
fetch_value n s v =
    let f = deref s.pagemap_set in
    (
      sym (get_or-map f 0 (grow 0 n s.entries) n)
          ∙ (rw (map-grow f 0 n s.entries, v.has_empty.1) (get_or-grow empty_page n n (values s))),
      map-grow f 0 n s.entries ∙ ap (λ e. grow e n (values s)) v.has_empty.1,
    )

All-deref :
    (x : EntryData) (p : ℕ) (pool : List EntryData)
    → All (λ y. x ≢ y) pool
    → p < length pool
    → x ≢ deref pool p
All-deref x p [] h l = elim l [ ]
All-deref x zero (y ∷ ys) h l = h.0
All-deref x (suc p) (y ∷ ys) h l = All-deref x p ys h.1 (omega arith)

deref_injective :
    (p q : ℕ) (pool : List EntryData)
    → Distinct pool
    → p < length pool
    → q < length pool
    → deref pool p ≡ deref pool q
    → p ≡ q
deref_injective p q [] d l m e = elim l [ ]
deref_injective zero zero (x ∷ xs) d l m e = refl
deref_injective zero (suc q) (x ∷ xs) d l m e = absurd (All-deref x q xs d.0 (omega arith) e)
deref_injective (suc p) zero (x ∷ xs) d l m e = absurd (All-deref x p xs d.0 (omega arith) (sym e))
deref_injective (suc p) (suc q) (x ∷ xs) d l m e =
    ap suc (deref_injective p q xs d.1 (omega arith) (omega arith) e)

-- Pages in the same state share one element of the set: two pointers of a well-formed vector are
-- equal exactly when the page data behind them are.
entries_shared :
    (i j : ℕ) (s : Interned)
    → IsValid s
    → (get_or s.entries i empty_page_ptr ≡ get_or s.entries j empty_page_ptr)
      ↔ (get_or (values s) i empty_page ≡ get_or (values s) j empty_page)
entries_shared i j s v =
    let value = λ (k : ℕ). get_or-map (deref s.pagemap_set) 0 s.entries k in
    let bound =
      λ (k : ℕ). All-get_or (λ p. p < length s.pagemap_set) 0 k s.entries v.has_empty.0 v.in_set in
    rw (sym v.has_empty.1, value i, value j)
      (
        (λ e. ap (deref s.pagemap_set) e),
        deref_injective _ _ s.pagemap_set v.distinct (bound i) (bound j),
      )
