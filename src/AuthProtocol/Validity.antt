-- ===== src/AuthProtocol/Validity.antt =====
-- `onChannelChange` keeps what holds of a side of the protocol.
use schneeflocke.AuthProtocol.{
  Header, State, AuthProtocol, Answers, on_error, final_error, check_params, by_state,
  after_acceptance, is_over, is_not_enough, on_channel_change,
}
use schneeflocke.Base.{
  ◌≡◌, sym, ap, subst, ◌∙◌, Bool, true, false, ◌||◌, some, List, [], ◌∷◌, ◌++◌, Bytes, codes, same,
  Bool-cases, inl, inr, arith,
}
use schneeflocke.Error.{Error, is_error}
use schneeflocke.AuthProtocol.Run.{
  read_of, heard, calm, Proven, ValidIn, IsValid, heard_now, heard_later, active_side, passive_side,
  ValidIn-read_of,
}
use schneeflocke.AuthProtocol.Branches.{
  check_params-says, check_params-Kept, check_params-other, final_error-is_error, Failed,
  on_error-FailedWith, Done, after_acceptance-cases, after_answer-cases, after_request-cases,
}

pub Failed-IsValid :
    (w : Answers) (p q : AuthProtocol) (l : List Header)
    → Failed w p q
    → p.told ≡ []
    → calm p.posted ≡ true
    → IsValid q l
Failed-IsValid w p q l (e, (h, st, t, po, to)) empty quiet = (
  h,
  subst (λ (s : State). ValidIn s q l) (sym st)
      (
        t,
        inr (
          ap calm po ∙ quiet,
          (
            final_error w e,
            to ∙ ap (λ (x : List Error). x ++ (final_error w e ∷ [])) empty,
            final_error-is_error w e,
          ),
        ),
      ),
)

pub Done-IsValid :
    (p q : AuthProtocol) (l : List Header)
    → Done p q
    → p.handler ≡ true
    → p.told ≡ []
    → calm p.posted ≡ true
    → Proven p l
    → IsValid q l
Done-IsValid p q l (h, st, t, po, to, o, m, a) set empty quiet proven = (
  h ∙ set,
  subst (λ (s : State). ValidIn s q l) (sym st)
      (
        to ∙ ap (λ (x : List Error). x ++ (Error.no_error ∷ [])) empty,
        ap calm po ∙ quiet,
        t,
        rw (o, m, a) proven,
      ),
)

-- A message that passed the check was heard from `other`.
pub heard_checked :
    (h : Header) (cmd : Bytes) (any : Bool) (p : AuthProtocol) (l : List Header)
    → (check_params h cmd any p).0 ≡ true
    → heard cmd (check_params h cmd any p).1.other (check_params h cmd any p).1.me (h ∷ l) ≡ true
heard_checked h cmd any p l good =
    let r = check_params h cmd any p in
    subst (λ (m : Bytes). heard cmd r.1.other m (h ∷ l) ≡ true)
      (sym (check_params-Kept h cmd any p).0)
      (heard_now cmd r.1.other p.me h l (check_params-says h cmd any p good))

module _ (w : Answers) (p : AuthProtocol) (l : List Header) (set : p.handler ≡ true)
    (fine : is_error w.err ≡ false) where
  answer-IsValid :
      (q : AuthProtocol)
      → ValidIn State.sent_create_channel p l
      → by_state State.sent_create_channel w p ≡ some q
      → IsValid q (w.header ∷ l)
  unfolding by_state
  answer-IsValid q (empty, quiet, active) run =
      let r = check_params w.header (codes "createChannelAccept") false p in
      let k = check_params-Kept w.header (codes "createChannelAccept") false p in
      elim (after_answer-cases w r (k.2 ∙ set) q run) [
        | inl failed ↦ Failed-IsValid w r.1 q _ failed (k.4 ∙ empty) (ap calm k.3 ∙ quiet)
        | inr (good, done) ↦
            Done-IsValid r.1 q _ done (k.2 ∙ set) (k.4 ∙ empty) (ap calm k.3 ∙ quiet)
              (active_side r.1 _ (k.1 ∙ active) (heard_checked w.header _ false p l good))
      ]

  pub request-IsValid :
      (q : AuthProtocol)
      → ValidIn State.wait_for_create_channel p l
      → by_state State.wait_for_create_channel w p ≡ some q
      → IsValid q (w.header ∷ l)
  unfolding by_state
  request-IsValid q (empty, quiet, inactive) run =
      let r = check_params w.header (codes "createChannel") (same p.other []) p in
      let k = check_params-Kept w.header (codes "createChannel") (same p.other []) p in
      elim (after_request-cases w r (k.2 ∙ set) q run) [
        | inl failed ↦ Failed-IsValid w r.1 q _ failed (k.4 ∙ empty) (ap calm k.3 ∙ quiet)
        | inr (good, (st, o, (m, a, h, po, to))) ↦ (
          h ∙ k.2 ∙ set,
          subst (λ (s : State). ValidIn s q (w.header ∷ l)) (sym st)
              (
                to ∙ k.4 ∙ empty,
                ap calm (po ∙ k.3) ∙ quiet,
                a ∙ k.1 ∙ inactive,
                rw (o, m) (heard_checked w.header _ (same p.other []) p l good),
              ),
        )
      ]

  pub acceptance-IsValid :
      (q : AuthProtocol)
      → ValidIn State.sent_create_channel_accept p l
      → by_state State.sent_create_channel_accept w p ≡ some q
      → IsValid q (w.header ∷ l)
  unfolding by_state
  acceptance-IsValid q (empty, quiet, inactive, before) run =
      let r = check_params w.header (codes "channelAccept") false p in
      let k = check_params-Kept w.header (codes "channelAccept") false p in
      let o = check_params-other w.header (codes "channelAccept") p in
      subst (λ (z : AuthProtocol). IsValid z (w.header ∷ l)) {x = after_acceptance w r} {y = q}
        (ground (arith, run))
        (elim (after_acceptance-cases w r (k.2 ∙ set)) [
          | inl failed ↦ Failed-IsValid w r.1 _ _ failed (k.4 ∙ empty) (ap calm k.3 ∙ quiet)
          | inr (good, done) ↦
              Done-IsValid r.1 _ _ done (k.2 ∙ set) (k.4 ∙ empty) (ap calm k.3 ∙ quiet) (
                passive_side r.1 _ (k.1 ∙ inactive)
                  (rw (o, k.0) (heard_later _ _ _ w.header l before))
                  (heard_checked w.header _ false p l good))
        ])

pub running-told :
    (st : State) (p : AuthProtocol) (l : List Header)
    → is_over st ≡ false
    → ValidIn st p l
    → (p.told ≡ []) × (calm p.posted ≡ true)
unfolding is_over
running-told State.sent_create_channel p l e v = (v.0, v.1)
running-told State.wait_for_create_channel p l e v = (v.0, v.1)
running-told State.sent_create_channel_accept p l e v = (v.0, v.1)
running-told _ p l e v = cc

pub by_state-IsValid :
    (st : State) (w : Answers) (p q : AuthProtocol) (l : List Header)
    → p.handler ≡ true
    → is_error w.err ≡ false
    → is_over st ≡ false
    → ValidIn st p l
    → by_state st w p ≡ some q
    → IsValid q (w.header ∷ l)
unfolding is_over
by_state-IsValid State.sent_create_channel w p q l set fine e v run =
    answer-IsValid w p l set fine q v run
by_state-IsValid State.wait_for_create_channel w p q l set fine e v run =
    request-IsValid w p l set fine q v run
by_state-IsValid State.sent_create_channel_accept w p q l set fine e v run =
    acceptance-IsValid w p l set fine q v run
by_state-IsValid _ w p q l set fine e v run = cc

pub change-IsValid :
    (w : Answers) (p q : AuthProtocol) (l : List Header)
    → IsValid p l
    → on_channel_change w p ≡ some q
    → IsValid q (read_of w l)
unfolding on_channel_change
change-IsValid w p q l (set, v) run = elim (Bool-cases (is_over p.state || is_not_enough w.err)) [
  | inl idle ↦
      subst (λ (z : AuthProtocol). IsValid z (read_of w l)) {x = p} {y = q}
        (ground (arith, idle, run)) (set, ValidIn-read_of p.state p w l v)
  | inr busy ↦
      let on : is_over p.state ≡ false = ground (arith, busy) in
      let (empty, quiet) = running-told p.state p l on v in
      elim (Bool-cases (is_error w.err)) [
        | inl broken ↦
            subst (λ (z : AuthProtocol). IsValid z (read_of w l))
              {x = on_error w Error.bad_protocol p} {y = q} (ground (arith, busy, broken, run))
              (Failed-IsValid w p _ _
                (Error.bad_protocol, on_error-FailedWith w Error.bad_protocol p set) empty quiet)
        | inr fine ↦
            rw fine
              (by_state-IsValid p.state w p q l set fine on v (ground (arith, busy, fine, run)))
      ]
]
