-- ===== src/Netmsg/Audit/Silent.antt =====
-- netmsg/netmsg.cc: what it means that auditPorts prints nothing.
use hurd.Base.{ℕ, ◌+◌, ◌≡◌, ◌≢◌, ◌⊎◌, some, [], ◌∷◌}
use hurd.Base.OrdMap
use hurd.Base.OrdMap.{Map, nat_key}
use hurd.Netmsg.Session.{Session, PortType, receive}
use hurd.Netmsg.Audit.{
  port_type_send, port_type_receive, port_type_port_set, port_type_dead_name, port_type_dnrequest,
}

-- The rights that a session needs for an entry of local_port_type, as the program's comments say: a
-- receive right for RECEIVE; for SEND a send right with a dead name request, or by now a dead name; for
-- the first port a receive and a send right.
abbrev pub IsRightFor : ℕ → ℕ → PortType → ℕ → Type 0
IsRightFor first_port port receive type = type ≡ port_type_receive
IsRightFor first_port port recorded type =
    ((port ≡ first_port) × (type ≡ port_type_receive + port_type_send))
    ⊎ ((port ≢ first_port)
        × ((type ≡ port_type_send + port_type_dnrequest) ⊎ (type ≡ port_type_dead_name)))

-- Every entry of a session's local_port_type has its right.
abbrev pub AreRights : ℕ → Map ℕ ℕ → Map ℕ PortType → Type 0
AreRights first_port ports [] = Unit
AreRights first_port ports ((port, recorded) ∷ rest) =
    ((type : ℕ) × (OrdMap.lookup port ports ≡ some type) × IsRightFor first_port port recorded type)
    × AreRights first_port ports rest

-- What a session's maps say of this task's rights is so.
abbrev pub IsAccounted : Map ℕ ℕ → Session → Type 0
IsAccounted ports s =
    (OrdMap.lookup s.portset ports ≡ some port_type_port_set)
    × AreRights s.first_port ports s.local_port_type
