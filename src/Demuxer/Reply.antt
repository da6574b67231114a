-- ===== src/Demuxer/Reply.antt =====
-- libpager/demuxer.c: the reply of a server routine, from mig_reply_setup to the end of worker_func's
-- loop. What the routine leaves in the reply and what mach_msg returns are inputs.
use hurd.Base.{ℕ, ◌+◌, Bool, false, List, [], ◌∷◌, ◌==◌, if◌then◌else◌}

-- RetCode: KERN_SUCCESS, MIG_NO_REPLY, and the rest, of which MIG_BAD_ID is one.
pub data RetCode : Type 0 where
  kern_success mig_no_reply mig_bad_id other_error : RetCode

pub record MessageHeader : Type 0 where
  pub remote_type : ℕ
  pub local_type : ℕ
  pub is_complex : Bool
  pub remote_port : ℕ
  pub local_port : ℕ
  pub id : ℕ

pub record MigReply : Type 0 where
  pub head : MessageHeader
  pub ret_code : RetCode

unfoldable pub mig_reply_setup : MessageHeader → MigReply
mig_reply_setup inp = record {
  head = record {
    remote_type = inp.remote_type;
    local_type = 0;
    is_complex = false;
    remote_port = inp.remote_port;
    local_port = 0;
    id = inp.id + 100;
  };
  ret_code = mig_bad_id;
}

-- What mach_msg returns.
pub data SendResult : Type 0 where
  mach_msg_success mach_send_invalid_dest other_loss : SendResult

-- `destroy_request` keeps the reply port's right, whose name is cleared before.
pub data ReplyCall : Type 0 where
  destroy_request destroy_reply send_reply : ReplyCall
  report : SendResult → ReplyCall

abbrev pub after_send : SendResult → List ReplyCall
after_send mach_send_invalid_dest = destroy_reply ∷ []
after_send sent = report sent ∷ []

-- From the test for a reply port on.
unfoldable pub send_or_destroy : MigReply → SendResult → List ReplyCall
send_or_destroy reply sent =
    if reply.head.remote_port == 0
    then (if reply.head.is_complex then destroy_reply ∷ [] else [])
    else send_reply ∷ after_send sent

-- The switch on the routine's RetCode, and what follows.
abbrev pub reply_calls : RetCode → MigReply → SendResult → List ReplyCall
reply_calls kern_success reply sent = send_or_destroy reply sent
reply_calls mig_no_reply reply sent = []
reply_calls _ reply sent = destroy_request ∷ send_or_destroy reply sent

-- A request is served: the routine turns the reply that was set up into another.
unfoldable pub serve_request : (MigReply → MigReply) → SendResult → MessageHeader → List ReplyCall
serve_request routine sent request =
    let reply = routine (mig_reply_setup request) in reply_calls reply.ret_code reply sent
