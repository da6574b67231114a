-- ===== src/Base/OrdMap.antt =====
-- `std::map`: an association list in the order of its keys, over keys with a total comparison.
use Prim.Native.Nat.{ℕ, compare, Ordering}
use mathlib.Core.Path.{◌≡◌, refl, subst}
use mathlib.Core.Logic.{◌↔◌, inl, inr}
use mathlib.Core.Bool.{Bool, true, false}
use mathlib.Core.Option.{Option, none, some}
use mathlib.Core.List.{List, [], ◌∷◌}
use native.Mathlib.Omega.{arith}
use hurd.Base.Tests.{if◌then◌else◌, Bool-cases}
use hurd.Base.Lists.{is_empty}

abbrev pub is_eq : Ordering → Bool
is_eq Ordering.eq = true
is_eq Ordering.lt = false
is_eq Ordering.gt = false

-- What a map asks of its keys.
pub record Key {ℓ} (K : Type ℓ) : Type ℓ where
  pub cmp : K → K → Ordering
  pub cmp_eq : (a b : K) → (is_eq (cmp a b) ≡ true) ↔ (a ≡ b)

pub nat_cmp_eq : (a b : ℕ) → (is_eq (compare a b) ≡ true) ↔ (a ≡ b)
nat_cmp_eq a b = ground arith

instance abbrev pub nat_key : Key ℕ
nat_key = record { cmp = compare; cmp_eq = nat_cmp_eq }

-- `std::pair` is compared lexicographically.
abbrev pub pair_cmp : ℕ × ℕ → ℕ × ℕ → Ordering
pair_cmp (a, b) (c, d) = elim (compare a c) [ Ordering.eq ↦ compare b d | o ↦ o ]

pub pair_cmp_eq : (p q : ℕ × ℕ) → (is_eq (pair_cmp p q) ≡ true) ↔ (p ≡ q)
pair_cmp_eq (a, b) (c, d) = ground arith

instance abbrev pub pair_key : Key (ℕ × ℕ)
pair_key = record { cmp = pair_cmp; cmp_eq = pair_cmp_eq }

abbrev pub Map {ℓ κ} : Type ℓ → Type κ → Type (ℓ ⊔ κ)
Map K V = List (K × V)

abbrev pub same {ℓ} : {K : Type ℓ} ⦃o : Key K⦄ → K → K → Bool
same ⦃o⦄ a b = is_eq (o.cmp a b)

-- Every value has the property.
module _ {ℓ κ} {K : Type ℓ} {V : Type κ} where
  abbrev pub AllValues {μ} : (V → Type μ) → Map K V → Type μ
  AllValues P [] = Unit
  AllValues P ((k, v) ∷ m) = P v × AllValues P m

module _ {ℓ κ} {K : Type ℓ} {V : Type κ} ⦃o : Key K⦄ where
  -- `std::map::find`.
  abbrev pub lookup : K → Map K V → Option V
  lookup k [] = none
  lookup k ((j, v) ∷ m) = if same k j then some v else lookup k m

  -- `m[k] = v`, at the key's place in the order.
  abbrev pub insert : K → V → Map K V → Map K V
  insert k v [] = (k, v) ∷ []
  insert k v ((j, w) ∷ m) = elim (o.cmp k j) [
    | Ordering.lt ↦ (k, v) ∷ (j, w) ∷ m
    | Ordering.eq ↦ (k, v) ∷ m
    | Ordering.gt ↦ (j, w) ∷ insert k v m
  ]

  -- `std::map::erase`: no key stands twice, so all that match are one.
  abbrev pub erase : K → Map K V → Map K V
  erase k [] = []
  erase k ((j, w) ∷ m) = if same k j then erase k m else (j, w) ∷ erase k m

  -- The first entry behind a key, where `++ it` goes.
  abbrev pub next : K → Map K V → Option (K × V)
  next k [] = none
  next k ((j, w) ∷ m) = elim (o.cmp k j) [ Ordering.lt ↦ some (j, w) | _ ↦ next k m ]

  pub AllValues-insert {μ} :
      (P : V → Type μ) (k : K) (v : V) (m : Map K V)
      → P v
      → AllValues P m
      → AllValues P (insert k v m)
  AllValues-insert P k v [] p h = (p, tt)
  AllValues-insert P k v ((j, w) ∷ m) p h =
      elim (o.cmp k j)
        as (λ c. AllValues P (elim c [
          | Ordering.lt ↦ (k, v) ∷ (j, w) ∷ m
          | Ordering.eq ↦ (k, v) ∷ m
          | Ordering.gt ↦ (j, w) ∷ insert k v m
        ])) [
          | Ordering.lt ↦ (p, h)
          | Ordering.eq ↦ (p, h.1)
          | Ordering.gt ↦ (h.0, AllValues-insert P k v m p h.1)
        ]

  pub AllValues-erase {μ} :
      (P : V → Type μ) (k : K) (m : Map K V) → AllValues P m → AllValues P (erase k m)
  AllValues-erase P k [] h = tt
  AllValues-erase P k ((j, w) ∷ m) h = elim (Bool-cases (same k j)) [
    | inl e ↦ rw e (AllValues-erase P k m h.1)
    | inr e ↦ rw e (h.0, AllValues-erase P k m h.1)
  ]

  pub AllValues-lookup {μ} :
      (P : V → Type μ) (k : K) (m : Map K V) {v : V} → AllValues P m → lookup k m ≡ some v → P v
  AllValues-lookup P k [] h e = cc
  AllValues-lookup P k ((j, w) ∷ m) {v} h e = elim (Bool-cases (same k j)) [
    | inl hit ↦ subst P (ground arith) h.0
    | inr miss ↦ AllValues-lookup P k m h.1 (ground arith)
  ]

  pub lookup-insert :
      (j k : K) (v : V) (m : Map K V)
      → lookup j (insert k v m) ≡ (if same j k then some v else lookup j m)
  lookup-insert j k v [] = refl
  lookup-insert j k v ((i, w) ∷ m) =
      ground (arith, o.cmp_eq k i, o.cmp_eq j k, o.cmp_eq j i, lookup-insert j k v m)

  pub is_empty-insert : (k : K) (v : V) (m : Map K V) → is_empty (insert k v m) ≡ false
  is_empty-insert k v [] = refl
  is_empty-insert k v ((j, w) ∷ m) = ground arith

  pub lookup-erase :
      (j k : K) (m : Map K V) → lookup j (erase k m) ≡ (if same j k then none else lookup j m)
  lookup-erase j k [] = ground arith
  lookup-erase j k ((i, w) ∷ m) =
      ground (arith, o.cmp_eq k i, o.cmp_eq j k, o.cmp_eq j i, lookup-erase j k m)
