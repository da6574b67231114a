-- ===== src/Base/PortSet.antt =====
-- `std::set<mach_port_t>`: a list of port names in ascending order, without repetition.
use Prim.Native.Nat.{ℕ, ◌≤◌, ◌<◌, compare, Ordering}
use mathlib.Core.Path.{◌≡◌, refl}
use mathlib.Core.Bool.{Bool, true, false}
use mathlib.Core.List.{List, [], ◌∷◌}
use native.Mathlib.Omega.{arith}
use hurd.Base.Tests.{◌==◌, if◌then◌else◌}

-- `std::set::count`, as a test.
abbrev pub contains : ℕ → List ℕ → Bool
contains a [] = false
contains a (x ∷ xs) = if a == x then true else contains a xs

-- `std::set::insert`.
abbrev pub insert : ℕ → List ℕ → List ℕ
insert a [] = a ∷ []
insert a (x ∷ xs) = elim (compare a x) [
  | Ordering.lt ↦ a ∷ x ∷ xs
  | Ordering.eq ↦ x ∷ xs
  | Ordering.gt ↦ x ∷ insert a xs
]

-- The items of a list inserted in turn.
abbrev pub insert_all : List ℕ → List ℕ → List ℕ
insert_all [] set = set
insert_all (a ∷ as') set = insert_all as' (insert a set)

-- `std::set::erase`.
abbrev pub erase : ℕ → List ℕ → List ℕ
erase a [] = []
erase a (x ∷ xs) = if a == x then xs else x ∷ erase a xs

-- Ascending, every item above a bound.
abbrev pub Above : ℕ → List ℕ → Type 0
Above n [] = Unit {0}
Above n (x ∷ xs) = (n < x) × Above x xs

abbrev pub IsSorted : List ℕ → Type 0
IsSorted [] = Unit {0}
IsSorted (x ∷ xs) = Above x xs

Above-mono : {m n : ℕ} (xs : List ℕ) → m ≤ n → Above n xs → Above m xs
Above-mono [] h s = tt
Above-mono (x ∷ xs) h s = (omega arith, s.1)

contains-Above : (a n : ℕ) (xs : List ℕ) → Above n xs → a ≤ n → contains a xs ≡ false
contains-Above a n [] s h = refl
contains-Above a n (x ∷ xs) s h = ground (arith, contains-Above a x xs s.1)

pub contains-insert :
    (j a : ℕ) (xs : List ℕ) → contains j (insert a xs) ≡ (if j == a then true else contains j xs)
contains-insert j a [] = refl
contains-insert j a (x ∷ xs) = ground (arith, contains-insert j a xs)

insert-Above : (n a : ℕ) (xs : List ℕ) → n < a → Above n xs → Above n (insert a xs)
insert-Above n a [] h s = (h, tt)
insert-Above n a (x ∷ xs) h s = ground (arith, insert-Above x a xs, s)

pub insert-IsSorted : (a : ℕ) (xs : List ℕ) → IsSorted xs → IsSorted (insert a xs)
insert-IsSorted a [] s = tt
insert-IsSorted a (x ∷ xs) s = ground (arith, insert-Above x a xs)

erase-Above : (n a : ℕ) (xs : List ℕ) → Above n xs → Above n (erase a xs)
erase-Above n a [] s = tt
erase-Above n a (x ∷ xs) s = ground (arith, erase-Above x a xs s.1, Above-mono {m = n} {n = x} xs)

pub erase-IsSorted : (a : ℕ) (xs : List ℕ) → IsSorted xs → IsSorted (erase a xs)
erase-IsSorted a [] s = tt
erase-IsSorted a (x ∷ []) s = ground arith
erase-IsSorted a (x ∷ y ∷ ys) s = ground (arith, erase-Above x a (y ∷ ys) s)

contains-erase-Above :
    (j a n : ℕ) (xs : List ℕ)
    → Above n xs
    → contains j (erase a xs) ≡ (if j == a then false else contains j xs)
contains-erase-Above j a n [] s = ground arith
contains-erase-Above j a n (x ∷ xs) s =
    ground (arith, contains-erase-Above j a x xs s.1, contains-Above j x xs s.1)

pub contains-erase :
    (j a : ℕ) (xs : List ℕ)
    → IsSorted xs
    → contains j (erase a xs) ≡ (if j == a then false else contains j xs)
contains-erase j a [] s = ground arith
contains-erase j a (x ∷ xs) s =
    ground (arith, contains-erase-Above j a x xs s, contains-Above j x xs s)
