-- ===== src/Pagemap/Entry.antt =====
-- libpager/pagemap.h, classes WAITLIST_client and pagemap_entry_data: the data of one page and its
-- methods. A method that throws std::out_of_range gives `none`.
use hurd.Base.{
  ℕ, Bool, true, false, List, [], ◌∷◌, ◌++◌, Option, none, some, length, is_empty, contains, insert,
  erase, if◌then◌else◌,
}

pub record WaitlistClient : Type 0 where
  pub client : ℕ
  pub write_access_requested : Bool

pub record EntryData : Type 0 where
  pub access_list : List ℕ
  pub wait_list : List WaitlistClient
  pub paging_out : Bool
  pub write_access_granted : Bool
  pub invalid : Bool
  pub error : ℕ

-- KERN_SUCCESS.
abbrev pub kern_success : ℕ
kern_success = 0

-- The member initialisers.
abbrev pub empty_page : EntryData
empty_page = record {
  access_list = [];
  wait_list = [];
  paging_out = false;
  write_access_granted = false;
  invalid = false;
  error = kern_success;
}

abbrev pub is_access_list_empty : EntryData → Bool
is_access_list_empty e = is_empty e.access_list

abbrev pub access_list_num_clients : EntryData → ℕ
access_list_num_clients e = length e.access_list

abbrev pub is_client_on_access_list : ℕ → EntryData → Bool
is_client_on_access_list c e = contains c e.access_list

abbrev pub add_client_to_access_list : ℕ → EntryData → EntryData
add_client_to_access_list c e = record e { access_list = insert c e.access_list }

abbrev pub remove_client_from_access_list : ℕ → EntryData → EntryData
remove_client_from_access_list c e = record e { access_list = erase c e.access_list }

abbrev pub is_wait_list_empty : EntryData → Bool
is_wait_list_empty e = is_empty e.wait_list

abbrev pub any_write : List WaitlistClient → Bool
any_write [] = false
any_write (w ∷ ws) = if w.write_access_requested then true else any_write ws

abbrev pub is_any_client_waiting_for_write_access : EntryData → Bool
is_any_client_waiting_for_write_access e = any_write e.wait_list

abbrev pub clear_wait_list : EntryData → EntryData
clear_wait_list e = record e { wait_list = [] }

abbrev pub add_client_to_wait_list : ℕ → Bool → EntryData → EntryData
add_client_to_wait_list c w e = record e {
  wait_list = e.wait_list ++ record { client = c; write_access_requested = w } ∷ [];
}

abbrev pub pop_first_wait_list_client : EntryData → Option EntryData
pop_first_wait_list_client e = elim e.wait_list [
  | [] ↦ none
  | w ∷ ws ↦ some (record e { wait_list = ws })
]

abbrev pub first_wait_list_client : EntryData → Option WaitlistClient
first_wait_list_client e = elim e.wait_list [ [] ↦ none | w ∷ ws ↦ some w ]

abbrev pub set_error : ℕ → EntryData → EntryData
set_error v e = record e { error = v }

abbrev pub set_invalid : Bool → EntryData → EntryData
set_invalid v e = record e { invalid = v }

abbrev pub set_paging_out : Bool → EntryData → EntryData
set_paging_out v e = record e { paging_out = v }

abbrev pub set_write_access_granted : Bool → EntryData → EntryData
set_write_access_granted v e = record e { write_access_granted = v }
