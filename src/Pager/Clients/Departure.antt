-- ===== src/Pager/Clients/Departure.antt =====
-- A client that leaves, by drop_client, and what this means for the destructor.
use hurd.Base.{
  zero, suc, ◌++◌, map, get_or, if◌then◌else◌, ◌==◌, is_empty, ap, sym, append-nil, append_assoc, ℕ,
  ◌≡◌, refl, false, List, [], ◌∷◌, contains, contains-erase, IsSorted, Bool-cases, inl, inr, erase,
  arith,
}
use hurd.Pagemap.Entry.{EntryData, empty_page}
use hurd.Pager.State.{
  Pager, Event, change_completed, dead_name_notification, mach_port_null, page_data,
}
use hurd.Pager.Step.{done, M, Keeps, Keeps-bind, ◌>>=◌, ◌>>◌, modify, do_if◌then◌else◌, primitives}
use hurd.Pager.Clients.{
  drop_client, drop_clients, destroy, drop_from_page, drop_locks, answer_changes,
}
use hurd.Pager.Invariant.Defs.{Inv}
use hurd.Pager.Invariant.Rules.{Safe, Any, get-Safe, modify-Safe, send-Safe}
use hurd.Pager.Invariant.Clients.{map-drop_from_page, drop_locks-Safe, answer_changes-Safe}

-- From a state with the invariant, whatever the other threads do meanwhile, the method ends, if it
-- does, in a state with the property.
record Leaves {A : Type 0} (P : Pager → Type 0) (m : M A) : Type 0 where
  pub run : (s : Pager) → Inv s → Keeps Inv (λ _ t. P t) (m s)

module _ {A B : Type 0} {P : Pager → Type 0} where
  bind-Leaves :
      {Q : A → Type 0} {m : M A} {f : A → M B}
      → Safe Q m
      → ((a : A) → Leaves P (f a))
      → Leaves P (m >>= f)
  unfolding primitives
  bind-Leaves {Q} {m} {f} h k = record {
    run = λ s i.
        Keeps-bind Inv (λ a t. Inv t × Q a) (λ _. P) (m s) f (h.run s i) (λ a t q. (k a).run t q.0);
  }

  then-Leaves : {m : M A} {n : M B} → Safe Any m → Leaves P n → Leaves P (m >> n)
  unfolding primitives
  then-Leaves h k = bind-Leaves h (λ _. k)

modify-Leaves :
    {P : Pager → Type 0} (f : Pager → Pager) → ((s : Pager) → Inv s → P (f s)) → Leaves P (modify f)
unfolding primitives
modify-Leaves f h = record { run = h }

abbrev pub IsGone : ℕ → Pager → Type 0
IsGone c s = contains c s.clients ≡ false

drop_client-IsGone : (fuel control : ℕ) → Leaves (IsGone control) (drop_client fuel control)
unfolding drop_client
drop_client-IsGone fuel control = bind-Leaves get-Safe (λ s.
    then-Leaves (drop_locks-Safe fuel control _) (
      then-Leaves
        (modify-Safe _ (λ t i. record {
          locks_awaited = i.locks_awaited;
          access_sorted = map-drop_from_page control t.pagemap i.access_sorted;
          clients_sorted = i.clients_sorted;
        }))
        (bind-Leaves get-Safe (λ t. then-Leaves (answer_changes-Safe control _) (
          then-Leaves (send-Safe _) (
            modify-Leaves _ (λ u i.
              ground (arith, contains-erase control control u.clients i.clients_sorted))))))))

drop_clients-faults :
    (fuel : ℕ) (cls : List ℕ) (s : Pager)
    → Inv s
    → is_empty cls ≡ false
    → Keeps Inv (λ _ _. ⊥) (drop_clients fuel cls s)
unfolding drop_clients primitives
drop_clients-faults fuel [] s i nonempty = cc
drop_clients-faults fuel (c ∷ cls) s i nonempty =
    Keeps-bind Inv (λ _ t. IsGone c t) (λ _ _. ⊥) (drop_client fuel c s) _
      ((drop_client-IsGone fuel c).run s i) (λ _ t gone. rw gone tt)

-- The defect of the destructor's loop: from a state with the invariant and a client left, ~pager
-- never ends normally, whatever other threads do that keeps the invariant while the lock is free.
pub destroy-faults :
    (fuel : ℕ) (s : Pager)
    → Inv s
    → is_empty s.clients ≡ false
    → Keeps Inv (λ _ _. ⊥) (destroy fuel s)
unfolding destroy primitives
destroy-faults fuel s i nonempty =
    Keeps-bind Inv (λ _ _. ⊥) (λ _ _. ⊥) (drop_clients fuel s.clients s) _
      (drop_clients-faults fuel s.clients s i nonempty) (λ _ t gone. absurd gone)

-- The events that answer_changes adds.
answers : ℕ → List ((ℕ × ℕ) × Unit {0}) → List Event
answers control [] = []
answers control (((client, reply), _) ∷ requests) =
    if client == control
    then change_completed reply ∷ answers control requests
    else answers control requests

answer_changes_lem :
    (control : ℕ) (requests : List ((ℕ × ℕ) × Unit {0})) (s : Pager)
    → answer_changes control requests s
      ≡ done tt (record s { log = s.log ++ answers control requests })
unfolding answer_changes answers primitives
answer_changes_lem control [] s = ap (λ l. done tt (record s { log = l })) (sym (append-nil s.log))
answer_changes_lem control (((client, reply), u) ∷ requests) s = ground (
  arith,
  answer_changes_lem control requests s,
  answer_changes_lem control requests (record s { log = s.log ++ change_completed reply ∷ [] }),
  append_assoc s.log (change_completed reply ∷ []) (answers control requests),
)

page-map :
    (f : EntryData → EntryData) (n : ℕ) (es : List EntryData)
    → f empty_page ≡ empty_page
    → get_or (map f es) n empty_page ≡ f (get_or es n empty_page)
page-map f n [] h = ground arith
page-map f zero (e ∷ es) h = refl
page-map f (suc n) (e ∷ es) h = page-map f n es h

contains-drop_from_page :
    (client control : ℕ) (e : EntryData)
    → IsSorted e.access_list
    → contains client (drop_from_page control e).access_list
      ≡ (if client == control then false else contains client e.access_list)
contains-drop_from_page client control e sorted =
    elim (Bool-cases (contains control e.access_list)) [
      | inl there ↦ rw there (contains-erase client control e.access_list sorted)
      | inr absent ↦ elim (Bool-cases (client == control)) [
        | inl same ↦ ground (arith, same, absent)
        | inr other ↦ rw (absent, other) refl
      ]
    ]

-- The defect of drop_client on WAITLIST: with no lock outstanding on any client, it ends; of any page
-- whose ACCESSLIST is sorted, it takes this client from ACCESSLIST and no other, clears
-- WRITE_ACCESS_GRANTED if the client was there and leaves it otherwise, and it leaves WAITLIST as it
-- was, the dead client's entries included.
pub drop_client-keeps_waiting :
    (fuel control n : ℕ) (s : Pager)
    → s.outstanding_locks ≡ []
    → IsSorted (page_data n s).access_list
    → (t : Pager) × (drop_client (suc fuel) control s ≡ done tt t)
      × ((client : ℕ)
          → contains client (page_data n t).access_list
            ≡ (if client == control then false else contains client (page_data n s).access_list))
      × ((page_data n t).write_access_granted ≡ (
          if contains control (page_data n s).access_list
          then false
          else (page_data n s).write_access_granted))
      × ((page_data n t).wait_list ≡ (page_data n s).wait_list)
unfolding drop_client drop_locks primitives
drop_client-keeps_waiting fuel control n s idle sorted =
    let s1 = record s { pagemap = map (drop_from_page control) s.pagemap } in
    let s2 = record s1 { log = s.log ++ answers control s.outstanding_change_requests } in
    let s3 = record s2 { log = s2.log ++ dead_name_notification control mach_port_null ∷ [] } in
    (
      record s3 { clients = erase control s.clients },
      ground (arith, answer_changes_lem control s.outstanding_change_requests s1),
      λ client.
          rw (page-map (drop_from_page control) n s.pagemap refl)
            (contains-drop_from_page client control (page_data n s) sorted),
      rw (page-map (drop_from_page control) n s.pagemap refl) (ground arith),
      ground (arith, page-map (drop_from_page control) n s.pagemap refl),
    )
