-- ===== src/AuthProtocol/Handshake.antt =====
-- The three messages of a run that goes well, step by step.
use schneeflocke.AuthProtocol.{
  Command, Header, State, Posted, AuthProtocol, Answers, send, key_exchange, connect, passive,
  on_finish, check_params, learn, update_other_cert, own_cert, by_state, after_answer,
  after_request, after_acceptance, is_over, is_not_enough, on_channel_change,
}
use schneeflocke.Authentication.{Authentication, Certificate, fingerprint, get_cert}
use schneeflocke.Base.{
  ◌≡◌, ◌⊎◌, refl, sym, subst, ap, ◌∙◌, Bool, true, false, Option, none, some, [], ◌∷◌,
  if◌then◌else◌, Bytes, codes, same, same_refl, Bool-cases, inl, inr,
}
use schneeflocke.Error.{Error}
use schneeflocke.AuthProtocol.Wire.{
  reading, Wire, new_protocol, answers, some->>=, deliver, nothing, exchange,
}

module _ (imp : Bytes → Option Certificate) (version x y : Bytes) where
  abbrev pub quiet : Bool → Header → Answers
  quiet keys = answers keys imp version

  abbrev pub used : Bool → Option Authentication → Option Authentication
  used keys a = if keys then a else none

  -- The peer that was asked, and after its answer.
  abbrev pub waiting : Bytes → State → Option Authentication → AuthProtocol
  waiting expected st b = record (new_protocol y st b) {
    other = expected;
    listening = true;
    posted = Posted.look ∷ [];
    state = State.wait_for_create_channel;
    timer = true;
    was_active = false;
  }

  abbrev pub answered : Bytes → Bytes → State → Option Authentication → AuthProtocol
  answered fp cert st b = record (waiting x st b) {
    other_cert_fp = fp;
    state = State.sent_create_channel_accept;
    sent = Command.create_channel_accept y x version cert [] ∷ [];
  }

  -- The host that asked.
  abbrev pub asking : Bytes → State → Option Authentication → AuthProtocol
  asking fp st a = record (new_protocol x st a) {
    other = y;
    listening = true;
    state = State.sent_create_channel;
    timer = true;
    was_active = true;
    sent = Command.create_channel x y version fp ∷ [];
  }

  abbrev request_header : Bytes → Header
  request_header fp = reading (codes "createChannel") x y (some fp) none

  abbrev answer_header : Bytes → Header
  answer_header cert = reading (codes "createChannelAccept") y x (some []) (some cert)

  abbrev acceptance_header : Bytes → Header
  acceptance_header cert = reading (codes "channelAccept") x y none (some cert)

  -- The fingerprint that the asking host knows of the other.
  abbrev pub known : Bool → Option Authentication → Bytes
  known keys a = elim (used keys a) [ none ↦ [] | some k ↦ fingerprint (get_cert y k) ]

  connects :
      (keys : Bool) (st : State) (a : Option Authentication)
      → connect (quiet keys nothing) y (new_protocol x st a) ≡ asking (known keys a) st a
  unfolding connect key_exchange send
  connects keys st a = refl

  check_request :
      (expected fp : Bytes) (st : State) (b : Option Authentication)
      → (expected ≡ []) ⊎ (expected ≡ x)
      → check_params
          (request_header fp)
          (codes "createChannel")
          (same expected [])
          (waiting expected st b)
        ≡ (true, record (waiting x st b) { other_cert_fp = fp })
  unfolding check_params same
  check_request expected fp st b (inl e) = rw (e, same_refl y) refl
  check_request expected fp st b (inr e) = elim (Bool-cases (same x [])) [
    | inl empty ↦ rw (e, empty, same_refl y) refl
    | inr full ↦ rw (e, full, same_refl x, same_refl y) refl
  ]

  requested :
      (keys : Bool) (expected fp cert : Bytes) (st : State) (b : Option Authentication)
      → (expected ≡ []) ⊎ (expected ≡ x)
      → own_cert (used keys b) fp ≡ some cert
      → on_channel_change (quiet keys (request_header fp)) (waiting expected st b)
        ≡ some (answered fp cert st b)
  unfolding on_channel_change by_state after_request key_exchange send is_over is_not_enough
  requested keys expected fp cert st b e own =
      ap (after_request (quiet keys (request_header fp))) (check_request expected fp st b e)
      ∙ rw own refl

  -- The authentication after a message with a certificate from `z`.
  abbrev pub learnt : Bool → Bytes → Bytes → Option Authentication → Option Authentication
  learnt keys z cert none = none
  learnt keys z cert (some a) = if keys then some (learn (quiet keys nothing) z cert a) else some a

  check_answer :
      (fp cert : Bytes) (st : State) (a : Option Authentication)
      → check_params (answer_header cert) (codes "createChannelAccept") false (asking fp st a)
        ≡ (true, record (asking fp st a) { other_cert_fp = []; other_cert = cert })
  unfolding check_params same
  check_answer fp cert st a = rw (same_refl x, same_refl y) refl

  abbrev pub asker_end : Bool → Bytes → Bytes → Bytes → State → Option Authentication → AuthProtocol
  asker_end keys fp cert own st a = record (asking fp st a) {
    other_cert_fp = [];
    other_cert = cert;
    state = State.finished;
    timer = false;
    listening = false;
    authentication = learnt keys y cert a;
    sent = Command.create_channel x y version fp ∷ Command.channel_accept x y own ∷ [];
    told = Error.no_error ∷ [];
  }

  accepted :
      (keys : Bool) (fp cert own : Bytes) (st : State) (a : Option Authentication)
      → own_cert (used keys a) [] ≡ some own
      → on_channel_change (quiet keys (answer_header cert)) (asking fp st a)
        ≡ some (asker_end keys fp cert own st a)
  unfolding on_channel_change by_state after_answer key_exchange is_over is_not_enough send
      on_finish update_other_cert
  accepted false fp cert own st none e =
      ap (after_answer (quiet false (answer_header cert))) (check_answer fp cert st none)
      ∙ rw e refl
  accepted false fp cert own st (some a) e =
      ap (after_answer (quiet false (answer_header cert))) (check_answer fp cert st (some a))
      ∙ rw e refl
  accepted true fp cert own st none e =
      ap (after_answer (quiet true (answer_header cert))) (check_answer fp cert st none) ∙ rw e refl
  accepted true fp cert own st (some a) e =
      ap (after_answer (quiet true (answer_header cert))) (check_answer fp cert st (some a))
      ∙ rw e refl

  check_acceptance :
      (fp mine cert : Bytes) (st : State) (b : Option Authentication)
      → check_params (acceptance_header cert) (codes "channelAccept") false (answered fp mine st b)
        ≡ (true, record (answered fp mine st b) { other_cert = cert })
  unfolding check_params same
  check_acceptance fp mine cert st b = rw (same_refl x, same_refl y) refl

  abbrev pub answerer_end :
      Bool → Bytes → Bytes → Bytes → State → Option Authentication → AuthProtocol
  answerer_end keys fp mine cert st b = record (answered fp mine st b) {
    other_cert = cert;
    state = State.finished;
    timer = false;
    listening = false;
    authentication = learnt keys x cert b;
    told = Error.no_error ∷ [];
  }

  completed :
      (keys : Bool) (fp mine cert : Bytes) (st : State) (b : Option Authentication)
      → on_channel_change (quiet keys (acceptance_header cert)) (answered fp mine st b)
        ≡ some (answerer_end keys fp mine cert st b)
  unfolding on_channel_change by_state after_acceptance key_exchange is_over is_not_enough on_finish
      update_other_cert
  completed keys fp mine cert st b =
      ap
        (λ (r : Bool × AuthProtocol).
          some (after_acceptance (quiet keys (acceptance_header cert)) r))
        (check_acceptance fp mine cert st b)
      ∙ finish keys b
    where
      finish :
          (k : Bool) (c : Option Authentication)
          → some (
              after_acceptance
                (quiet k (acceptance_header cert))
                (true, record (answered fp mine st c) { other_cert = cert }))
            ≡ some (answerer_end k fp mine cert st c)
      finish false none = refl
      finish false (some _) = refl
      finish true none = refl
      finish true (some _) = refl

  reads :
      (v : Wire) (w : Header → Answers) (c : Command) (h : Header) (p : AuthProtocol)
      {q : AuthProtocol}
      → v.header c ≡ h
      → on_channel_change (w h) p ≡ some q
      → deliver v w (some c) p ≡ some q
  reads v w c h p {q} e f = subst (λ (k : Header). on_channel_change (w k) p ≡ some q) (sym e) f

  pub exchange_ends :
      (v : Wire) (keys : Bool) (expected mine his : Bytes) (sa sb : State)
      (a b : Option Authentication)
      → (expected ≡ []) ⊎ (expected ≡ x)
      → own_cert (used keys b) (known keys a) ≡ some mine
      → own_cert (used keys a) [] ≡ some his
      → exchange v (quiet keys) expected (new_protocol x sa a) (new_protocol y sb b)
        ≡ some (
          asker_end keys (known keys a) mine his sa a,
          answerer_end keys (known keys a) mine his sb b,
        )
  unfolding exchange connect passive
  exchange_ends v keys expected mine his sa sb a b e f g =
      let fp = known keys a in
      let w = quiet keys in
      let first =
        reads v w _ (request_header fp) (waiting expected sb b)
          (v.reads_create_channel x y version fp) (requested keys expected fp mine sb b e f) in
      let second =
        reads v w _ (answer_header mine) (asking fp sa a)
          (v.reads_create_channel_accept y x version mine []) (accepted keys fp mine his sa a g) in
      let third =
        reads v w _ (acceptance_header his) (answered fp mine sb b) (v.reads_channel_accept x y his)
          (completed keys fp mine his sb b) in
      some->>= _ _ first ∙ some->>= _ _ second ∙ some->>= _ _ third
