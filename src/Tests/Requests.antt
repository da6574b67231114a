-- ===== src/Tests/Requests.antt =====
-- Runs of data_request, data_unlock and lock_object.
use hurd.Base.{zero, suc, ◌≤◌, ◌<◌, ℕ, ◌≡◌, refl, true, false, [], ◌∷◌, some, arith}
use hurd.Pagemap.Entry.{EntryData, empty_page}
use hurd.Pager.State.{Pager, WritewaitEntry, Event, prot_none, return_none, word, put_page}
use hurd.Pager.Step.{done, Reply, alone}
use hurd.Pager.Waitlist.Serve.{logged}
use hurd.Pager.Request.{data_request, data_unlock}
use hurd.Pager.Locks.Completed.{IsOnePage}
use hurd.Pager.Request.Unlock.{
  IsSoleReader, refused, data_unlock_grants, data_unlock_refuses, data_request-refused,
}
use hurd.Pager.Request.Several.{IsShared, asked, data_unlock_asks}
use hurd.Tests.{writer, with_pages}

abbrev shared_page : EntryData
shared_page = record empty_page { access_list = 3 ∷ 5 ∷ [] }

abbrev read_at_80 : ℕ → Reply
read_at_80 _ = record {
  err = 0;
  buffer = 80;
  write_lock = false;
  msgh_id = 0;
  msgh_local_port = 0;
  offset = 0;
  size = 0;
}

abbrev refused_at : ℕ → Reply
refused_at n = record (read_at_80 n) { err = 28 }

abbrev read_page : EntryData
read_page = record empty_page { access_list = 8 ∷ [] }

one_page : IsOnePage 0 4096 (with_pages (read_page ∷ []))
one_page = record { aligned = refl; whole_pages = refl; one_page = refl }

sole_reader : IsSoleReader 8 0 (with_pages (read_page ∷ []))
sole_reader = record {
  running = refl;
  alone_on_page = refl;
  nobody = refl;
  idle = refl;
  read_only = refl;
}

data_unlock_grants_example :
    alone read_at_80 0 (data_unlock 8 0 4096 (with_pages (read_page ∷ [])))
    ≡ some (
      tt,
      put_page 0
          (record read_page { write_access_granted = true })
          (logged (Event.lock_request 8 0 4096 return_none false prot_none 0 ∷ []) (
            put_page 0
              (record read_page { wait_list = writer 8 ∷ [] })
              (with_pages (read_page ∷ [])))),
    )
unfolding word
data_unlock_grants_example =
    data_unlock_grants 8 0 4096 (with_pages (read_page ∷ [])) read_at_80 0 one_page sole_reader refl

data_unlock_refuses_example :
    alone refused_at 0 (data_unlock 8 0 4096 (with_pages (read_page ∷ [])))
    ≡ some (tt, refused 8 0 28 (with_pages (read_page ∷ [])))
data_unlock_refuses_example =
    data_unlock_refuses 8 0 4096 (with_pages (read_page ∷ [])) refused_at 0 one_page sole_reader
      refl

data_request-refused_example :
    data_request 8 0 4096 3 (refused 8 0 28 (with_pages (read_page ∷ [])))
    ≡ done tt
        (record (logged
          (Event.data_error 8 0 4096 28 ∷ [])
          (refused 8 0 28 (with_pages (read_page ∷ [])))) { nexterror = [] })
unfolding word
data_request-refused_example =
    data_request-refused 8 0 28 3 (with_pages (read_page ∷ [])) refl refl refl

abbrev block : ℕ → WritewaitEntry
block offset = record { offset = offset; address = 80; length = 4096; kernel_copy = false }

abbrev queued_blocks : Pager
queued_blocks = record (with_pages []) { writewait = block 0 ∷ block 4096 ∷ [] }

abbrev two_shared : Pager
two_shared = with_pages (shared_page ∷ shared_page ∷ [])

both-IsShared : (page : ℕ) → 0 ≤ page → page < 2 → IsShared 3 page two_shared
both-IsShared zero l h = record {
  member = refl;
  others = omega arith;
  nobody = refl;
  idle = refl;
  read_only = refl;
}
both-IsShared (suc zero) l h = record {
  member = refl;
  others = omega arith;
  nobody = refl;
  idle = refl;
  read_only = refl;
}
both-IsShared (suc (suc page)) l h = absurd (omega arith)

data_unlock_asks_example :
    alone read_at_80 0 (data_unlock 3 0 8192 two_shared) ≡ some (tt, asked 3 0 0 2 two_shared)
data_unlock_asks_example =
    data_unlock_asks 3 0 8192 two_shared read_at_80 0 refl refl refl both-IsShared
