-- ===== src/AuthProtocol/Tests.antt =====
-- Runs of the protocol between two hosts named a and b, and the theorems there.
use schneeflocke.AuthProtocol.{
  Command, Header, State, Posted, AuthProtocol, Answers, on_channel_change, passive, by_state,
  after_request, after_acceptance, check_params, own_cert, key_exchange, send, on_finish, is_over,
  is_not_enough,
}
use schneeflocke.AuthProtocol.Exchange.{exchange-finished, exchange-certificates}
use schneeflocke.AuthProtocol.Outcome.{finished-Proven, Run-outcome}
use schneeflocke.AuthProtocol.Run.{Run, Proven}
use schneeflocke.AuthProtocol.Wire.{Wire, reading, new_protocol, answers, exchange}
use schneeflocke.Authentication.{
  Authentication, Certificate, CertType, set_identity, update_cert, get_cert, fingerprint,
  new_authentication,
}
use schneeflocke.Base.{
  ◌≡◌, ◌≢◌, ◌⊎◌, refl, true, false, Option, none, some, [], ◌∷◌, Bytes, codes, same, inl, inr,
  lookup, insert, erase,
}
use schneeflocke.Error.{Error, is_error}

wire_header : Command → Header
wire_header (Command.create_channel from to v fp) =
    reading (codes "createChannel") from to (some fp) none
wire_header (Command.create_channel_accept from to v cert fp) =
    reading (codes "createChannelAccept") from to (some fp) (some cert)
wire_header (Command.channel_accept from to cert) =
    reading (codes "channelAccept") from to none (some cert)
wire_header (Command.channel_fail e msg) = record {
  malformed = false;
  cmd = codes "channelFail";
  from = none;
  to = none;
  to_cert_fp = none;
  cert = none;
  failure = some e;
}

abbrev wire : Wire
unfolding wire_header
wire = record {
  header = wire_header;
  reads_create_channel = λ _ _ _ _. refl;
  reads_create_channel_accept = λ _ _ _ _ _. refl;
  reads_channel_accept = λ _ _ _. refl;
}

-- A certificate whose text is its name.
abbrev certificate_of : Bytes → Certificate
certificate_of name = record { text = name; fingerprint = b'#' ∷ name; common_name = name }

abbrev text_import : Bytes → Option Certificate
text_import t = some (certificate_of t)

abbrev a : Bytes
a = codes "a"

abbrev b : Bytes
b = codes "b"

abbrev identity_of : Bytes → Authentication
identity_of name = record new_authentication {
  key_set = true;
  identity = name;
  certificate = some (certificate_of name);
  cert_fingerprint = b'#' ∷ name;
}

identity_test : set_identity certificate_of a new_authentication ≡ identity_of a
unfolding set_identity
identity_test = refl

-- A second call with the same name keeps the key.
identity_kept : set_identity (λ _. certificate_of b) a (identity_of a) ≡ identity_of a
unfolding set_identity same
identity_kept = refl

forget_test :
    get_cert a (
      update_cert a
        (record { type = CertType.error; cert = some (certificate_of a) })
        (update_cert a
          (record { type = CertType.peer; cert = some (certificate_of a) })
          (identity_of b)))
    ≡ record { type = CertType.error; cert = none }
unfolding get_cert update_cert lookup insert erase same
forget_test = refl

exchange-finished_example :
    (p q : AuthProtocol) × (exchange wire
        (answers false text_import [])
        []
        (new_protocol a State.timeout none)
        (new_protocol b State.timeout none)
      ≡ some (p, q))
    × (p.state ≡ State.finished)
    × (q.state ≡ State.finished)
    × (p.other ≡ b)
    × (q.other ≡ a)
    × (p.told ≡ Error.no_error ∷ [])
    × (q.told ≡ Error.no_error ∷ [])
    × (p.was_active ≡ true)
    × (q.was_active ≡ false)
exchange-finished_example =
    exchange-finished wire false text_import [] a b [] State.timeout State.timeout none none
      (inl refl) tt tt

exchange-certificates_example :
    (p q : AuthProtocol) × (a' b' : Authentication) × (exchange wire
        (answers true text_import [])
        a
        (new_protocol a State.timeout (some (identity_of a)))
        (new_protocol b State.timeout (some (identity_of b)))
      ≡ some (p, q))
    × (p.authentication ≡ some a')
    × (q.authentication ≡ some b')
    × (fingerprint (get_cert b a') ≡ codes "#b")
    × (fingerprint (get_cert a b') ≡ codes "#a")
exchange-certificates_example =
    exchange-certificates wire text_import [] a b a State.timeout State.timeout (identity_of a)
      (identity_of b) (certificate_of a) (certificate_of b) (inr refl) (refl, refl) (refl, refl)
      refl refl (λ e. cc) (λ e. cc) (λ e. cc)

abbrev hears : Header → Answers
hears = answers false text_import []

abbrev request : Header
request = reading (codes "createChannel") a b (some []) none

abbrev acceptance : Header
acceptance = reading (codes "channelAccept") a b none (some [])

abbrev waiting : AuthProtocol
waiting = record (new_protocol b State.timeout none) {
  listening = true;
  posted = Posted.look ∷ [];
  state = State.wait_for_create_channel;
  timer = true;
}

abbrev answered : AuthProtocol
answered = record waiting {
  other = a;
  state = State.sent_create_channel_accept;
  sent = Command.create_channel_accept b a [] [] [] ∷ [];
}

abbrev ended : AuthProtocol
ended = record answered {
  listening = false;
  timer = false;
  state = State.finished;
  told = Error.no_error ∷ [];
}

answers_request : on_channel_change (hears request) waiting ≡ some answered
unfolding on_channel_change by_state after_request check_params own_cert key_exchange send is_over
    is_not_enough same
answers_request = refl

takes_acceptance : on_channel_change (hears acceptance) answered ≡ some ended
unfolding on_channel_change by_state after_acceptance check_params key_exchange on_finish is_over
    is_not_enough same
takes_acceptance = refl

ended_reached : Run ended (acceptance ∷ request ∷ [])
unfolding passive
ended_reached =
    Run.changes (hears acceptance) answered ended _
      (Run.changes (hears request) waiting answered _ (Run.waits b [] State.timeout none) refl
        answers_request)
      refl takes_acceptance

finished-Proven_example : Proven ended (acceptance ∷ request ∷ [])
finished-Proven_example = finished-Proven ended (acceptance ∷ request ∷ []) ended_reached refl

Run-outcome_example :
    ((ended.told ≡ []) × (ended.state ≢ State.finished))
    ⊎ ((ended.told ≡ Error.no_error ∷ []) × (ended.state ≡ State.finished))
    ⊎ ((e : Error) × (ended.told ≡ e ∷ []) × (is_error e ≡ true) × (ended.state ≢ State.finished))
Run-outcome_example = Run-outcome ended (acceptance ∷ request ∷ []) ended_reached
