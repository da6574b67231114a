-- ===== src/Pagemap/Intern.antt =====
-- libpager/pagemap.h and pagemap.cc: pagemap_set, the global set of page data; pagemap_entry, a
-- pointer into it; pagemap_vector, the pointers of one pager. A pointer is the position at which
-- its page data entered the set: the set only grows, and std::set never moves an element.
pub mod Refines
use hurd.Base.{
  ℕ, suc, ◌+◌, Bool, true, false, List, [], ◌∷◌, ◌++◌, Option, none, some, length, leb, get_or, set,
  if◌then◌else◌,
}
use hurd.Base.OrdMap.{is_eq}
use hurd.Pagemap.Entry.{EntryData, empty_page}
use hurd.Pagemap.Order.{entry_compare}

pub record Interned : Type 0 where
  -- pagemap_set, oldest first.
  pub pagemap_set : List EntryData
  -- the vector's pagemap_entry pointers.
  pub entries : List ℕ

-- empty_page_ptr: the element that pagemap_set is initialised with.
abbrev pub empty_page_ptr : ℕ
empty_page_ptr = 0

abbrev pub initial : Interned
initial = record { pagemap_set = empty_page ∷ []; entries = [] }

-- `std::set::insert`: the position of an equivalent element, or of a new one.
pub insert_data : EntryData → List EntryData → ℕ × List EntryData
insert_data d [] = (0, d ∷ [])
insert_data d (x ∷ xs) =
    if is_eq (entry_compare d x)
    then (0, x ∷ xs)
    else let (p, ys) = insert_data d xs in (suc p, x ∷ ys)

-- `* entry`.
abbrev pub deref : List EntryData → ℕ → EntryData
deref pool p = get_or pool p empty_page

-- `std::vector::resize`.
abbrev pub resize {ℓ} : {A : Type ℓ} → A → ℕ → List A → List A
resize d ℕ.zero xs = []
resize d (suc n) [] = d ∷ resize d n []
resize d (suc n) (x ∷ xs) = x ∷ resize d n xs

-- The test of `operator[]`: the vector reaches beyond index `n`.
abbrev pub grow {ℓ} : {A : Type ℓ} → A → ℕ → List A → List A
grow d n xs = if leb (length xs) n then resize d (suc n) xs else xs

-- `pagemap[n]` as a value: the vector is extended by pointers to the empty page.
pub fetch : ℕ → Interned → EntryData × Interned
fetch n s =
    let entries = grow empty_page_ptr n s.entries in
    (deref s.pagemap_set (get_or entries n empty_page_ptr), record s { entries = entries })

-- `pagemap[n] = data`, by `operator=`.
pub assign : ℕ → EntryData → Interned → Interned
assign n d s =
    let (p, pool) = insert_data d s.pagemap_set in
    record { pagemap_set = pool; entries = set (grow empty_page_ptr n s.entries) n p }
