-- ===== src/AuthProtocol.antt =====
-- libschnee/schnee/p2p/channels/AuthProtocol.cpp and AuthProtocol.h: the three messages by which two
-- hosts make sure who is at the other end of a new channel. Commands are written and read by the
-- serialization library and by generated code, so what comes in is a `Header` that was read already.
pub mod Wire
pub mod Handshake
pub mod Exchange
pub mod Run
pub mod Branches
pub mod Validity
pub mod Outcome
mod Tests
use schneeflocke.Authentication.{
  Authentication, Certificate, CertType, fingerprint, update_cert, get_cert,
}
use schneeflocke.Base.{
  Bool, true, false, not, ◌&&◌, ◌||◌, Option, none, some, List, [], ◌∷◌, ◌++◌, if◌then◌else◌, Bytes,
  codes, same,
}
use schneeflocke.Error.{Error, is_error}

pub data Command : Type 0 where
  create_channel : (from to version to_cert_fp : Bytes) → Command
  create_channel_accept : (from to version cert to_cert_fp : Bytes) → Command
  channel_accept : (from to cert : Bytes) → Command
  channel_fail : (error : Error) (msg : Bytes) → Command

-- What the deserialization of a header gives: each field that is there, and in `failure`
-- the error of a `ChannelFail`, if the fields of one can be read.
pub record Header : Type 0 where
  pub malformed : Bool
  pub cmd : Bytes
  pub from : Option Bytes
  pub to : Option Bytes
  pub to_cert_fp : Option Bytes
  pub cert : Option Bytes
  pub failure : Option Error

pub data State : Type 0 where
  sent_create_channel wait_for_create_channel sent_create_channel_accept : State
  finished timeout auth_error : State

-- The calls that `xcall` queues.
pub data Posted : Type 0 where
  failure look : Posted

-- `listening` and `handler`: whether the channel's and the own delegate are set. `told` are the
-- calls of the own one, which are queued too. The authentication is a shared object: here it is what
-- it is when a call begins.
pub record AuthProtocol : Type 0 where
  pub me : Bytes
  pub other : Bytes
  pub other_cert_fp : Bytes
  pub other_cert : Bytes
  pub was_active : Bool
  pub state : State
  pub timer : Bool
  pub listening : Bool
  pub handler : Bool
  pub authentication : Option Authentication
  pub sent : List Command
  pub posted : List Posted
  pub told : List Error

-- What the surroundings answer during one call: the channel's reader, the channel, GnuTLS, and the
-- version that the build sets.
pub record Answers : Type 0 where
  pub err : Error
  pub header : Header
  pub authenticated : Bool
  pub channel_error : Error
  pub send_error : Error
  pub text_import : Bytes → Option Certificate
  pub version : Bytes

-- `init` cancels a timer; nobody listens to the channel that it is given.
unfoldable pub init : Bytes → AuthProtocol → AuthProtocol
init me p = record p { me = me; timer = false; listening = false; was_active = false }

unfoldable pub set_authentication : Option Authentication → AuthProtocol → AuthProtocol
set_authentication a p = record p { authentication = a }

unfoldable pub send : Answers → Command → AuthProtocol → AuthProtocol
send w c p = if is_error w.send_error then p else record p { sent = p.sent ++ (c ∷ []) }

-- The authentication, where keys are exchanged.
unfoldable pub key_exchange : Answers → AuthProtocol → Option Authentication
key_exchange w p = if w.authenticated then p.authentication else none

unfoldable pub connect : Answers → Bytes → AuthProtocol → AuthProtocol
unfolding key_exchange send
connect w other p =
    let fp : Bytes = elim (key_exchange w p) [
      | none ↦ []
      | some a ↦ fingerprint (get_cert other a)
    ] in
    let p' =
      send w (Command.create_channel p.me other w.version fp)
        (record p { timer = false; other = other; listening = true }) in
    if is_error w.send_error
    then record p' { state = State.auth_error; posted = p'.posted ++ (Posted.failure ∷ []) }
    else record p' { state = State.sent_create_channel; timer = true; was_active = true }

unfoldable pub passive : Bytes → AuthProtocol → AuthProtocol
passive other p = record p {
  other = other;
  listening = true;
  posted = p.posted ++ (Posted.look ∷ []);
  state = State.wait_for_create_channel;
  timer = true;
  was_active = false;
}

unfoldable pub on_time_out : AuthProtocol → AuthProtocol
on_time_out p = elim p.state [
  | State.finished ↦ p
  | _ ↦ record p {
    listening = false;
    state = State.timeout;
    timer = false;
    told = p.told ++ (Error.time_out ∷ []);
  }
]

-- The error that is told: the channel's, if it has one.
unfoldable pub final_error : Answers → Error → Error
final_error w e =
    if is_error w.channel_error
    then w.channel_error
    else if is_error e
    then e
    else Error.connection_error

unfoldable pub on_error : Answers → Error → AuthProtocol → AuthProtocol
unfolding final_error
on_error w e p =
    let p' = record p { state = State.auth_error; listening = false; timer = false } in
    if p.handler then record p' { told = p.told ++ (final_error w e ∷ []) } else p'

unfoldable pub on_finish : AuthProtocol → AuthProtocol
on_finish p = record p {
  state = State.finished;
  timer = false;
  listening = false;
  told = p.told ++ (Error.no_error ∷ []);
}

-- A field that is not there leaves the variable as it is.
abbrev field_or : Option Bytes → Bytes → Bytes
field_or none old = old
field_or (some new) old = new

abbrev noted : Header → AuthProtocol → AuthProtocol
noted h p = record p {
  other_cert_fp = field_or h.to_cert_fp p.other_cert_fp;
  other_cert = field_or h.cert p.other_cert;
}

unfoldable pub check_params : Header → Bytes → Bool → AuthProtocol → Bool × AuthProtocol
check_params h desired set_other p =
    if h.malformed || not (same h.cmd desired) then (false, p) else elim h.from [
      | none ↦ (false, noted h p)
      | some from ↦ elim h.to [
        | none ↦ (false, noted h p)
        | some to ↦
            if set_other
            then (same to p.me, record (noted h p) { other = from })
            else (same from p.other && same to p.me, noted h p)
      ]
    ]

-- Stores the certificate that the peer sent, if it sent one and this can be read.
unfoldable pub learn : Answers → Bytes → Bytes → Authentication → Authentication
learn w identity text a = if same text [] then a else elim (w.text_import text) [
  | none ↦ a
  | some c ↦ update_cert identity (record { type = CertType.peer; cert = some c }) a
]

unfoldable pub update_other_cert : Answers → AuthProtocol → AuthProtocol
unfolding learn
update_other_cert w p = record p {
  authentication = elim p.authentication [
    | none ↦ none
    | some a ↦ some (learn w p.other p.other_cert a)
  ];
}

-- The text of the own certificate, where the peer has to be sent it; `none`: a null pointer followed.
unfoldable pub own_cert : Option Authentication → Bytes → Option Bytes
own_cert none fp = some []
own_cert (some a) fp =
    if same fp a.cert_fingerprint
    then some []
    else elim a.certificate [ none ↦ none | some c ↦ some c.text ]

-- The error that the other side says it failed with.
unfoldable pub failure_of : Header → Option Error
failure_of h = if same h.cmd (codes "channelFail") then h.failure else none

-- The branch that three cases share: the other side said that it failed, or said something wrong.
unfoldable pub reject : Answers → AuthProtocol → AuthProtocol
unfolding send on_error
reject w p = elim (failure_of w.header) [
  | some e ↦ on_error w e p
  | none ↦ on_error w Error.bad_protocol (send w (Command.channel_fail Error.bad_protocol []) p)
]

-- The three cases, from what `checkParams` returned and left behind.
pub after_answer : Answers → Bool × AuthProtocol → Option AuthProtocol
unfolding key_exchange update_other_cert send on_error on_finish reject
after_answer w r =
    let keys = key_exchange w r.1 in
    let q = elim keys as (λ _. AuthProtocol) [ none ↦ r.1 | some _ ↦ update_other_cert w r.1 ] in
    if r.0
    then elim (own_cert keys r.1.other_cert_fp) [
      | none ↦ none
      | some cert ↦ some (
          if is_error w.send_error
          then on_error w Error.connection_error q
          else on_finish (send w (Command.channel_accept q.me q.other cert) q))
    ]
    else some (reject w r.1)

pub after_request : Answers → Bool × AuthProtocol → Option AuthProtocol
unfolding key_exchange send on_error reject
after_request w r =
    if r.0
    then elim (own_cert (key_exchange w r.1) r.1.other_cert_fp) [
      | none ↦ none
      | some cert ↦
          let q = send w (Command.create_channel_accept r.1.me r.1.other w.version cert []) r.1 in
          some (
            if is_error w.send_error
            then on_error w Error.connection_error q
            else record q { state = State.sent_create_channel_accept })
    ]
    else some (reject w r.1)

pub after_acceptance : Answers → Bool × AuthProtocol → AuthProtocol
unfolding key_exchange update_other_cert on_finish reject
after_acceptance w r =
    if r.0
    then on_finish (elim (key_exchange w r.1) [ none ↦ r.1 | some _ ↦ update_other_cert w r.1 ])
    else reject w r.1

pub by_state : State → Answers → AuthProtocol → Option AuthProtocol
unfolding after_answer after_request after_acceptance
by_state State.sent_create_channel w p =
    after_answer w (check_params w.header (codes "createChannelAccept") false p)
by_state State.wait_for_create_channel w p =
    after_request w (check_params w.header (codes "createChannel") (same p.other []) p)
by_state State.sent_create_channel_accept w p =
    some (after_acceptance w (check_params w.header (codes "channelAccept") false p))
by_state _ w p = some p

pub is_over : State → Bool
is_over State.finished = true
is_over State.timeout = true
is_over State.auth_error = true
is_over _ = false

pub is_not_enough : Error → Bool
is_not_enough Error.not_enough = true
is_not_enough _ = false

-- `none`: a null pointer followed.
unfoldable pub on_channel_change : Answers → AuthProtocol → Option AuthProtocol
unfolding on_error is_over is_not_enough
on_channel_change w p =
    if is_over p.state || is_not_enough w.err
    then some p
    else if is_error w.err
    then some (on_error w Error.bad_protocol p)
    else by_state p.state w p
