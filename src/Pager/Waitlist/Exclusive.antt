-- ===== src/Pager/Waitlist/Exclusive.antt =====
-- Coherence of a page: who may have it at the same time.
use hurd.Base.{ℕ, ◌≡◌, ◌≤◌, Bool, true, false, ◌&&◌, List, [], ◌∷◌, arith, length, ◌==◌, ◌⊎◌}
use hurd.Pagemap.Entry.{WaitlistClient, EntryData}
use hurd.Pager.State.{Pager}
use hurd.Pager.Step.{Step, done}
use hurd.Pager.Waitlist.{service_wait_list}
use hurd.Pager.Waitlist.Serve.{service_wait_list_lem}

-- While write access is out, at most one client has the page.
abbrev pub IsExclusive : EntryData → Type 0
IsExclusive e = e.write_access_granted ≡ true → length e.access_list ≤ 1

-- The method ends without a fault and without releasing the lock, with such page data.
abbrev pub Gives : (EntryData → Type 0) → Step EntryData → Type 0
Gives P (done e s) = P e
Gives P _ = ⊥

-- With a client waiting and no shutdown, a service of a page that no client has leaves at most one
-- client with the page if write access is granted. So does a service of a page that clients have, if
-- the first client in the queue asks to read or may not write.
pub service_wait_list-IsExclusive :
    (offset address : ℕ) (allow d : Bool) (e : EntryData) (s : Pager) (w : WaitlistClient)
    (ws : List WaitlistClient)
    → s.terminating ≡ false
    → e.wait_list ≡ w ∷ ws
    → (e.access_list ≡ []) ⊎ ((allow && w.write_access_requested) ≡ false)
    → Gives IsExclusive (service_wait_list offset address allow d e s)
service_wait_list-IsExclusive offset address allow d e s w ws running waiting free =
    ground (arith, service_wait_list_lem offset address allow d e s w ws running waiting)

-- With no shutdown, a page that one client has, served to another that asks to write and may, ends
-- with write access granted and more than one client.
service_wait_list_shares :
    (offset address : ℕ) (d : Bool) (e : EntryData) (s : Pager) (w : WaitlistClient) (a : ℕ)
    (ws : List WaitlistClient)
    → s.terminating ≡ false
    → e.wait_list ≡ w ∷ ws
    → w.write_access_requested ≡ true
    → e.access_list ≡ a ∷ []
    → (a == w.client) ≡ false
    → Gives (λ e'. ¬ IsExclusive e') (service_wait_list offset address true d e s)
service_wait_list_shares offset address d e s w a ws running waiting writes has other =
    ground (arith, service_wait_list_lem offset address true d e s w ws running waiting)
