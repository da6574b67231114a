-- ===== src/Pagemap/Order.antt =====
-- libpager/pagemap.h, the two `operator<`: `std::tie` compares field by field, containers compare
-- item by item. Each comparison answers `eq` where neither side is less, which is what std::set
-- takes for the same element.
use hurd.Base.{compare, Ordering, ◌≡◌, refl, ◌↔◌, Bool, true, false, List, [], ◌∷◌, arith}
use hurd.Base.OrdMap.{is_eq, nat_cmp_eq}
use hurd.Pagemap.Entry.{WaitlistClient, EntryData}

-- The next field decides where this one is equal.
abbrev pub then_compare : Ordering → Ordering → Ordering
then_compare Ordering.eq o = o
then_compare Ordering.lt o = Ordering.lt
then_compare Ordering.gt o = Ordering.gt

abbrev pub bool_compare : Bool → Bool → Ordering
bool_compare false true = Ordering.lt
bool_compare true false = Ordering.gt
bool_compare _ _ = Ordering.eq

abbrev pub client_compare : WaitlistClient → WaitlistClient → Ordering
client_compare a b =
    then_compare (compare a.client b.client)
      (bool_compare a.write_access_requested b.write_access_requested)

module _ {ℓ} {A : Type ℓ} (cmp : A → A → Ordering) where
  pub list_compare : List A → List A → Ordering
  list_compare [] [] = Ordering.eq
  list_compare [] (y ∷ ys) = Ordering.lt
  list_compare (x ∷ xs) [] = Ordering.gt
  list_compare (x ∷ xs) (y ∷ ys) = then_compare (cmp x y) (list_compare xs ys)

  list_compare_eq :
      ((a b : A) → (is_eq (cmp a b) ≡ true) ↔ (a ≡ b))
      → (xs ys : List A) → (is_eq (list_compare xs ys) ≡ true) ↔ (xs ≡ ys)
  unfolding list_compare
  list_compare_eq h [] [] = ((λ _. refl), (λ _. refl))
  list_compare_eq h [] (y ∷ ys) = ground arith
  list_compare_eq h (x ∷ xs) [] = ground arith
  list_compare_eq h (x ∷ xs) (y ∷ ys) = ground (arith, h x y, list_compare_eq h xs ys)

client_compare_eq : (a b : WaitlistClient) → (is_eq (client_compare a b) ≡ true) ↔ (a ≡ b)
client_compare_eq a b = ground arith

-- `operator<` of pagemap_entry_data.
pub entry_compare : EntryData → EntryData → Ordering
entry_compare a b = then_compare (list_compare compare a.access_list b.access_list) (
    then_compare (list_compare client_compare a.wait_list b.wait_list) (
      then_compare (bool_compare a.paging_out b.paging_out) (
        then_compare (bool_compare a.write_access_granted b.write_access_granted)
          (then_compare (bool_compare a.invalid b.invalid) (compare a.error b.error)))))

-- Two page data are the same element of the set exactly when all six fields agree, so sharing one
-- never confuses pages in different states.
pub entry_compare_eq : (a b : EntryData) → (is_eq (entry_compare a b) ≡ true) ↔ (a ≡ b)
unfolding entry_compare
entry_compare_eq a b = ground (
  arith,
  list_compare_eq compare nat_cmp_eq a.access_list b.access_list,
  list_compare_eq client_compare client_compare_eq a.wait_list b.wait_list,
)
