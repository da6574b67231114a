-- ===== src/Tests/Interning.antt =====
-- Runs of the shared set of page data.
use hurd.Base.{◌≡◌, refl, [], ◌∷◌, arith}
use hurd.Pagemap.Entry.{empty_page}
use hurd.Pagemap.Intern.{Interned, assign, initial}
use hurd.Pagemap.Intern.Refines.{values, IsValid, assign-IsValid, values-assign}
use hurd.Tests.{waiting_page}

-- A set with the empty page alone, and pointers to it.
abbrev two_pages : Interned
two_pages = record initial { entries = 0 ∷ 0 ∷ [] }

two_pages-IsValid : IsValid two_pages
two_pages-IsValid = record {
  distinct = (tt, tt);
  has_empty = (ground arith, refl);
  in_set = ground arith;
}

assign-IsValid_example : IsValid (assign 3 waiting_page two_pages)
assign-IsValid_example = assign-IsValid 3 waiting_page two_pages two_pages-IsValid

values-assign_example :
    values (assign 3 waiting_page two_pages)
    ≡ empty_page ∷ empty_page ∷ empty_page ∷ waiting_page ∷ []
values-assign_example = values-assign 3 waiting_page two_pages two_pages-IsValid
