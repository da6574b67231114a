-- ===== src/Netmsg/Audit.antt =====
-- netmsg/netmsg.cc: auditPorts, which compares the maps of each session with the rights that this task
-- has. The names and the types of the rights are mach_port_names' answer.
pub mod Silent
use hurd.Base.{
  ℕ, zero, suc, ◌+◌, ◌≡◌, refl, ◌↔◌, ◌⊎◌, inl, inr, Bool, true, false, not, ◌&&◌, ◌||◌, Option,
  none, some, List, [], ◌∷◌, ◌++◌, if◌then◌else◌, ◌==◌, length, is_empty, arith, Bool-cases,
  Option-cases, All,
}
use hurd.Base.OrdMap
use hurd.Base.OrdMap.{Map, nat_key}
use hurd.Netmsg.Session.{Session, PortType, unknown, receive, send}

-- mach_port_type_t, of the types and requests that the audit looks for.
abbrev pub port_type_send : ℕ
port_type_send = 0x10000

abbrev pub port_type_receive : ℕ
port_type_receive = 0x20000

abbrev pub port_type_port_set : ℕ
port_type_port_set = 0x80000

abbrev pub port_type_dead_name : ℕ
port_type_dead_name = 0x100000

abbrev pub port_type_dnrequest : ℕ
port_type_dnrequest = 0x80000000

-- The lines that the audit prints.
pub data Complaint : Type 0 where
  -- the port, and what it is recorded as
  missing : ℕ → PortType → Complaint
  -- the port, and what it is
  not_receive not_receive_send not_send_dnrequest : ℕ → ℕ → Complaint

-- `ports[names[i]] = types[i]`, for all of them.
unfoldable pub collect : List (ℕ × ℕ) → Map ℕ ℕ → Map ℕ ℕ
collect [] ports = ports
collect ((name, type) ∷ rest) ports = collect rest (OrdMap.insert name type ports)

abbrev pub unless : Bool → Complaint → List Complaint
unless b c = if b then [] else c ∷ []

module _ (first_port : ℕ) where
  -- An entry of local_port_type whose port exists.
  unfoldable pub audit_type : ℕ → PortType → ℕ → List Complaint
  audit_type port receive type = unless (type == port_type_receive) (not_receive port type)
  audit_type port recorded type =
      if port == first_port
      then unless (type == port_type_receive + port_type_send) (not_receive_send port type)
      else unless (type == port_type_send + port_type_dnrequest || type == port_type_dead_name)
          (not_send_dnrequest port type)

  unfoldable pub audit_entries : Map ℕ ℕ → Map ℕ PortType → List Complaint
  unfolding audit_type
  audit_entries ports [] = []
  audit_entries ports ((port, recorded) ∷ rest) =
      (elim (OrdMap.lookup port ports) [
        | none ↦ missing port recorded ∷ []
        | some type ↦ audit_type port recorded type
      ])
      ++ audit_entries ports rest

-- The sessions, in order; none if the assert on a port set fails. For a missing key `operator[]`
-- gives 0, which is no port set.
unfoldable pub audit_sessions : Map ℕ ℕ → List Session → Option (List Complaint)
unfolding audit_entries
audit_sessions ports [] = some []
audit_sessions ports (s ∷ sessions) =
    let rest = audit_sessions ports sessions in
    if (elim (OrdMap.lookup s.portset ports) [
      | none ↦ false
      | some type ↦ type == port_type_port_set
    ])
    then (elim rest [
      | none ↦ none
      | some complaints ↦ some (audit_entries s.first_port ports s.local_port_type ++ complaints)
    ])
    else none

unfoldable pub audit_ports : Bool → List (ℕ × ℕ) → List Session → Option (List Complaint)
unfolding audit_sessions collect
audit_ports multi_threaded rights sessions =
    if multi_threaded then some [] else audit_sessions (collect rights []) sessions
