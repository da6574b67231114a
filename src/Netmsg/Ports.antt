-- ===== src/Netmsg/Ports.antt =====
-- netmsg/netmsg.cc: what the four maps of class netmsg owe each other.
use hurd.Base.{
  ℕ, ◌≡◌, ◌≢◌, ◌↔◌, ◌⊎◌, inl, inr, true, false, Option, none, some, arith, Bool-cases, ==_iff,
}
use hurd.Base.OrdMap
use hurd.Base.OrdMap.{Map, nat_key, nat_cmp_eq, lookup-insert, lookup-erase}
use hurd.Netmsg.Session.{Session, PortType}
pub mod Translating
pub mod Delivering
pub mod Transmitting
pub mod Sessions
pub mod RoundTrip
pub mod Replies
pub mod SendOnce
pub mod Relays
pub mod Requests
pub mod Untyped

-- Each of two maps inverts the other.
abbrev pub AreInverse : Map ℕ ℕ → Map ℕ ℕ → Type 0
AreInverse m n = (r p : ℕ) → (OrdMap.lookup r m ≡ some p) ↔ (OrdMap.lookup p n ≡ some r)

pub AreInverse-insert :
    (m n : Map ℕ ℕ) (r p : ℕ)
    → AreInverse m n
    → OrdMap.lookup r m ≡ none
    → OrdMap.lookup p n ≡ none
    → AreInverse (OrdMap.insert r p m) (OrdMap.insert p r n)
AreInverse-insert m n r p h er ep a b = ground (
  arith,
  h a b,
  h a p,
  h r b,
  lookup-insert a r p m,
  lookup-insert b p r n,
  nat_cmp_eq a r,
  nat_cmp_eq b p,
)

pub AreInverse-erase :
    (m n : Map ℕ ℕ) (r p : ℕ)
    → AreInverse m n
    → OrdMap.lookup p n ≡ some r
    → AreInverse (OrdMap.erase r m) (OrdMap.erase p n)
AreInverse-erase m n r p h e a b = ground (
  arith,
  h a b,
  h a p,
  h r b,
  h r p,
  lookup-erase a r m,
  lookup-erase b p n,
  nat_cmp_eq a r,
  nat_cmp_eq b p,
)

-- Nothing goes with a key that neither map has.
pub AreInverse-erase_missing :
    (m n : Map ℕ ℕ) (r p : ℕ)
    → AreInverse m n
    → OrdMap.lookup r m ≡ none
    → OrdMap.lookup p n ≡ none
    → AreInverse (OrdMap.erase r m) (OrdMap.erase p n)
AreInverse-erase_missing m n r p h er ep a b = ground (
  arith,
  h a b,
  h a p,
  h r b,
  lookup-erase a r m,
  lookup-erase b p n,
  nat_cmp_eq a r,
  nat_cmp_eq b p,
)

-- The null port is in no mapping: it is no key of the four maps.
abbrev pub HasNoNull : Session → Type 0
HasNoNull s =
    (OrdMap.lookup 0 s.local_ports_by_remote ≡ none)
    × (OrdMap.lookup 0 s.remote_ports_by_local ≡ none)
    × (OrdMap.lookup 0 s.send_once_ports_by_remote ≡ none)
    × (OrdMap.lookup 0 s.send_once_ports_by_local ≡ none)

pub lookup_null-erase :
    (p : ℕ) (m : Map ℕ ℕ) → OrdMap.lookup 0 m ≡ none → OrdMap.lookup 0 (OrdMap.erase p m) ≡ none
lookup_null-erase p m e = ground (arith, e, lookup-erase 0 p m)

pub lookup_null-insert :
    (p r : ℕ) (m : Map ℕ ℕ)
    → p ≢ 0
    → OrdMap.lookup 0 m ≡ none
    → OrdMap.lookup 0 (OrdMap.insert p r m) ≡ none
lookup_null-insert p r m e n = ground (arith, e, n, lookup-insert 0 p r m, nat_cmp_eq 0 p)

-- The tables of a session: the null port is in no mapping, and the maps of ports, and those of
-- send-once rights, invert each other.
pub record IsConsistent (s : Session) : Type 0 where
  pub mappings : AreInverse s.local_ports_by_remote s.remote_ports_by_local
  pub send_once : AreInverse s.send_once_ports_by_remote s.send_once_ports_by_local
  pub no_null : HasNoNull s
