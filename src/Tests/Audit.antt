-- ===== src/Tests/Audit.antt =====
-- An audit of the ports of one session.
use hurd.Base.{ℕ, ◌≡◌, refl, false, some, List, [], ◌∷◌}
use hurd.Netmsg.Session.{Session, receive, send}
use hurd.Netmsg.Audit.{
  audit_ports, audit_sessions, audit_entries, audit_type, collect, missing, not_send_dnrequest,
}

abbrev session : Session
session = record {
  first_port = 0;
  portset = 4;
  notification_port = 6;
  control = 1;
  local_ports_by_remote = [];
  remote_ports_by_local = [];
  local_port_type = (7, receive) ∷ (8, send) ∷ (9, send) ∷ [];
  send_once_ports_by_remote = [];
  send_once_ports_by_local = [];
}

abbrev rights : List (ℕ × ℕ)
rights = (8, 0x80010000) ∷ (4, 0x80000) ∷ (7, 0x20000) ∷ (9, 0x100000) ∷ []

audit_silent : audit_ports false rights (session ∷ []) ≡ some []
unfolding audit_ports audit_sessions audit_entries audit_type collect
audit_silent = refl

-- The port 8 has lost its notification, and 7 is gone.
audit_not_silent :
    audit_ports false ((8, 0x10000) ∷ (4, 0x80000) ∷ (9, 0x100000) ∷ []) (session ∷ [])
    ≡ some (missing 7 receive ∷ not_send_dnrequest 8 0x10000 ∷ [])
unfolding audit_ports audit_sessions audit_entries audit_type collect
audit_not_silent = refl
