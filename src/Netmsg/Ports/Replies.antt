-- ===== src/Netmsg/Ports/Replies.antt =====
-- netmsg/netmsg.cc: receive rights that cross the network and come back.
use hurd.Base.{ℕ, ◌≡◌, none, some, List, [], ◌∷◌, arith}
use hurd.Base.OrdMap
use hurd.Base.OrdMap.{nat_key, lookup-insert, lookup-erase, nat_cmp_eq}
use hurd.Message.Value.{move_receive}
use hurd.Netmsg.Session.{
  send, receive, Session, KernelCall, insert_right, request_notification, drop_refs, allocate,
  move_member, primitives, complement, type_at, set_type, run_with, no_senders, dead_name,
  send_right, send_once_right, Disposition,
}
use hurd.Netmsg.Translate.{
  request_dead_name, keep_send_right, translate_flagged, remember, new_receive_right,
  translate_receive, translate_remote, translate_port,
}
use hurd.Netmsg.Transmit.{transmit_receive}
use hurd.Netmsg.Ports.RoundTrip.{
  named, IsName, learnt, noted, lookup-inserted, translate_port-flagged,
}

-- The answers of the kernel when no notification was requested before, and the calls.
abbrev pub own_receive_calls : ℕ → ℕ → List KernelCall
own_receive_calls r portset = move_member r portset ∷ request_notification r no_senders r ∷ []

transmit_receive-own :
    (r : ℕ) (c : Session)
    → IsName r
    → OrdMap.lookup r c.remote_ports_by_local ≡ none
    → run_with (named 0 ∷ named 0 ∷ []) (transmit_receive r c)
      ≡ some (r, noted r receive c, own_receive_calls r c.portset)
unfolding transmit_receive set_type primitives
transmit_receive-own r c n e = ground (arith, n.0, n.1, e)

abbrev pub new_receive_calls : ℕ → ℕ → List KernelCall
new_receive_calls p notification_port =
    allocate
    ∷ insert_right p Disposition.make_send
    ∷ request_notification p dead_name notification_port
    ∷ []

translate_port-new_receive :
    (r p : ℕ) (s : Session)
    → IsName r
    → OrdMap.lookup r s.local_ports_by_remote ≡ none
    → run_with (named p ∷ named 0 ∷ named 0 ∷ []) (translate_port r move_receive s)
      ≡ some (p, learnt r p send s, new_receive_calls p s.notification_port)
unfolding translate_port translate_remote translate_receive new_receive_right remember
    request_dead_name primitives
translate_port-new_receive r p s n e = ground (arith, n.0, n.1, e)

abbrev pub mapped_receive_calls : ℕ → ℕ → ℕ → List KernelCall
mapped_receive_calls p request portset =
    move_member p portset
    ∷ request_notification p no_senders p
    ∷ request_notification p dead_name 0
    ∷ drop_refs request send_once_right 1
    ∷ drop_refs p send_right 1
    ∷ []

transmit_receive-mapped :
    (r p request : ℕ) (s : Session)
    → IsName p
    → run_with
        (named 0 ∷ named 0 ∷ named request ∷ named 0 ∷ named 0 ∷ [])
        (transmit_receive p (learnt r p send s))
      ≡ some (
        complement r,
        noted p receive (learnt r p send s),
        mapped_receive_calls p request s.portset,
      )
unfolding transmit_receive type_at set_type primitives
transmit_receive-mapped r p request s n = ground (
  arith,
  n.0,
  n.1,
  lookup-inserted p r s.remote_ports_by_local,
  lookup-inserted p send s.local_port_type,
)

abbrev pub own_again_calls : ℕ → ℕ → ℕ → List KernelCall
own_again_calls r request notification_port =
    request_notification r no_senders 0
    ∷ drop_refs request send_once_right 1
    ∷ insert_right r Disposition.make_send
    ∷ request_notification r dead_name notification_port
    ∷ []

translate_flagged-own_receive :
    (r request : ℕ) (c : Session)
    → run_with
        (named request ∷ named 0 ∷ named 0 ∷ named 0 ∷ [])
        (translate_flagged r move_receive (noted r receive c))
      ≡ some (r, noted r send (noted r receive c), own_again_calls r request c.notification_port)
unfolding translate_flagged keep_send_right request_dead_name type_at set_type primitives
translate_flagged-own_receive r request c =
    ground (arith, lookup-inserted r receive c.local_port_type)

-- A receive right that crosses the network and comes back is the right that was sent. Session `c`
-- transmits the receive right `r`, which it does not know from the other side; session `s` has no
-- port for `r` and passes on the receive right of the port `p` that the kernel allocates; when that
-- right comes back to `s`, it goes out as the complement of `r`, and `c` translates the complement to
-- `r`. At each step the session notes the right that it keeps, a send right where the receive right
-- went to IPC and the receive right where it went to the network, and cancels the request for the
-- notification that no longer applies. The kernel reports no request before the first one.
pub receive_right-round_trip :
    (r p x y : ℕ) (c s : Session)
    → IsName r
    → IsName p
    → OrdMap.lookup r c.remote_ports_by_local ≡ none
    → OrdMap.lookup r s.local_ports_by_remote ≡ none
    → (run_with (named 0 ∷ named 0 ∷ []) (transmit_receive r c)
        ≡ some (r, noted r receive c, own_receive_calls r c.portset))
      × (run_with (named p ∷ named 0 ∷ named 0 ∷ []) (translate_port r move_receive s)
          ≡ some (p, learnt r p send s, new_receive_calls p s.notification_port))
      × (run_with
            (named 0 ∷ named 0 ∷ named x ∷ named 0 ∷ named 0 ∷ [])
            (transmit_receive p (learnt r p send s))
          ≡ some (
            complement r,
            noted p receive (learnt r p send s),
            mapped_receive_calls p x s.portset,
          ))
      × (run_with
            (named y ∷ named 0 ∷ named 0 ∷ named 0 ∷ [])
            (translate_port (complement r) move_receive (noted r receive c))
          ≡ some (r, noted r send (noted r receive c), own_again_calls r y c.notification_port))
receive_right-round_trip r p x y c s nr np ec es = (
  transmit_receive-own r c nr ec,
  translate_port-new_receive r p s nr es,
  transmit_receive-mapped r p x s np,
  rw (translate_port-flagged r move_receive (noted r receive c) nr)
      (translate_flagged-own_receive r y c),
)
