-- ===== src/AuthProtocol/Outcome.antt =====
-- Every run of the protocol on one side, whatever the other side sends: what the host is told, and
-- what it has heard when it is told that all went well.
use schneeflocke.AuthProtocol.{
  Header, State, Posted, AuthProtocol, Answers, connect, passive, on_time_out, is_over,
}
use schneeflocke.AuthProtocol.Wire.{new_protocol}
use schneeflocke.Authentication.{Authentication}
use schneeflocke.Base.{
  ◌≡◌, ◌≢◌, ◌⊎◌, refl, sym, ap, subst, ◌∙◌, true, false, Option, List, [], ◌∷◌, ◌++◌, Bytes,
  Bool-cases, inl, inr, arith,
}
use schneeflocke.Error.{Error, is_error}
use schneeflocke.AuthProtocol.Run.{Run, calm, Proven, ValidIn, IsValid}
use schneeflocke.AuthProtocol.Branches.{on_error-FailedWith}
use schneeflocke.AuthProtocol.Validity.{Failed-IsValid, running-told, change-IsValid}

connect-IsValid :
    (w : Answers) (me other : Bytes) (st : State) (a : Option Authentication)
    → IsValid (connect w other (new_protocol me st a)) []
unfolding connect calm
connect-IsValid w me other st a = elim (Bool-cases (is_error w.send_error)) [
  | inl lost ↦ rw lost (refl, (refl, inl (refl, refl)))
  | inr sent ↦ rw sent (refl, (refl, refl, refl))
]

-- The queue less its first call.
posted-IsValid :
    (st : State) (p : AuthProtocol) (l : List Header) (rest : List Posted)
    → p.posted ≡ Posted.look ∷ rest
    → ValidIn st p l
    → ValidIn st (record p { posted = rest }) l
unfolding calm
posted-IsValid State.sent_create_channel p l rest e (a, b, c) = (a, sym (ap calm e) ∙ b, c)
posted-IsValid State.wait_for_create_channel p l rest e (a, b, c) = (a, sym (ap calm e) ∙ b, c)
posted-IsValid State.sent_create_channel_accept p l rest e (a, b, c, d) =
    (a, sym (ap calm e) ∙ b, c, d)
posted-IsValid State.finished p l rest e (a, b, c, d) = (a, sym (ap calm e) ∙ b, c, d)
posted-IsValid State.timeout p l rest e (a, b, c) = (a, sym (ap calm e) ∙ b, c)
posted-IsValid State.auth_error p l rest e (a, inl (b, c)) = absurd (cc)
posted-IsValid State.auth_error p l rest e (a, inr (b, c)) = (a, inr (sym (ap calm e) ∙ b, c))

-- A queued failure is there only once, after a `connect` that could not send.
failure_first :
    (st : State) (p : AuthProtocol) (l : List Header) (rest : List Posted)
    → p.posted ≡ Posted.failure ∷ rest
    → ValidIn st p l
    → (p.told ≡ []) × (calm rest ≡ true)
unfolding calm
failure_first State.sent_create_channel p l rest e (a, b, c) = ground (arith, ap calm e)
failure_first State.wait_for_create_channel p l rest e (a, b, c) = ground (arith, ap calm e)
failure_first State.sent_create_channel_accept p l rest e (a, b, c, d) = ground (arith, ap calm e)
failure_first State.finished p l rest e (a, b, c, d) = ground (arith, ap calm e)
failure_first State.timeout p l rest e (a, b, c) = ground (arith, ap calm e)
failure_first State.auth_error p l rest e (a, inl (b, c)) = ground (arith, ap calm e)
failure_first State.auth_error p l rest e (a, inr (b, c)) = ground (arith, ap calm e)

abbrev timed_out : AuthProtocol → AuthProtocol
timed_out p = record p {
  listening = false;
  state = State.timeout;
  timer = false;
  told = p.told ++ (Error.time_out ∷ []);
}

-- The timer is set in no state that ends the protocol.
timer-running :
    (st : State) (p : AuthProtocol) (l : List Header)
    → p.timer ≡ true
    → ValidIn st p l
    → is_over st ≡ false
unfolding is_over
timer-running State.finished p l t (a, b, c, d) = cc
timer-running State.timeout p l t (a, b, c) = cc
timer-running State.auth_error p l t (a, b) = cc
timer-running State.sent_create_channel p l t v = refl
timer-running State.wait_for_create_channel p l t v = refl
timer-running State.sent_create_channel_accept p l t v = refl

time_out-IsValid :
    (p : AuthProtocol) (l : List Header) → p.timer ≡ true → IsValid p l → IsValid (on_time_out p) l
unfolding on_time_out
time_out-IsValid p l t (set, v) =
    let on = timer-running p.state p l t v in
    let (empty, quiet) = running-told p.state p l on v in
    subst (λ (z : AuthProtocol). IsValid z l) {x = timed_out p} {y = on_time_out p}
      (unfold is_over in ground (arith, on))
      (set, (ap (λ (x : List Error). x ++ (Error.time_out ∷ [])) empty, quiet, refl))

Run-IsValid : (p : AuthProtocol) (l : List Header) → Run p l → IsValid p l
unfolding passive calm
Run-IsValid p l (Run.connects w me other st a) = connect-IsValid w me other st a
Run-IsValid p l (Run.waits me other st a) = (refl, (refl, refl, refl))
Run-IsValid p l (Run.changes w q _ k r on run) = change-IsValid w q p k (Run-IsValid q k r) run
Run-IsValid p l (Run.looks w q _ k rest r e run) =
    let (set, v) = Run-IsValid q k r in
    change-IsValid w (record q { posted = rest }) p k (set, posted-IsValid q.state q k rest e v) run
Run-IsValid p l (Run.fails w q k rest r e) =
    let (set, v) = Run-IsValid q k r in
    let (empty, quiet) = failure_first q.state q k rest e v in
    Failed-IsValid w (record q { posted = rest }) _ k
      (
        Error.connection_error,
        on_error-FailedWith w Error.connection_error (record q { posted = rest }) set,
      )
      empty quiet
Run-IsValid p l (Run.times_out q k r t) = time_out-IsValid q k t (Run-IsValid q k r)

-- A host is told that the protocol is done only after it heard, in well-formed headers from `other`
-- to itself, the answer to its request, if it is the one that connected, or else a request and an
-- acceptance, whatever anybody sends on the channel and whatever fails.
pub finished-Proven :
    (p : AuthProtocol) (l : List Header) → Run p l → p.state ≡ State.finished → Proven p l
finished-Proven p l r e =
    let (set, v) = Run-IsValid p l r in (subst (λ (s : State). ValidIn s p l) e v).3

outcome :
    (st : State) (p : AuthProtocol) (l : List Header)
    → ValidIn st p l
    → ((p.told ≡ []) × (st ≢ State.finished))
      ⊎ ((p.told ≡ Error.no_error ∷ []) × (st ≡ State.finished))
      ⊎ ((e : Error) × (p.told ≡ e ∷ []) × (is_error e ≡ true) × (st ≢ State.finished))
outcome State.sent_create_channel p l v = inl (v.0, λ e. cc)
outcome State.wait_for_create_channel p l v = inl (v.0, λ e. cc)
outcome State.sent_create_channel_accept p l v = inl (v.0, λ e. cc)
outcome State.finished p l v = inr (inl (v.0, refl))
outcome State.timeout p l v = inr (inr (_, v.0, refl, λ e. cc))
outcome State.auth_error p l (t, inl w) = inl (w.0, λ e. cc)
outcome State.auth_error p l (t, inr (q, (e, told, bad))) = inr (inr (e, told, bad, λ x. cc))

-- The delegate is called at most once in a run, with `NoError` exactly in the state FINISHED and
-- with an error only in another.
pub Run-outcome :
    (p : AuthProtocol) (l : List Header)
    → Run p l
    → ((p.told ≡ []) × (p.state ≢ State.finished))
      ⊎ ((p.told ≡ Error.no_error ∷ []) × (p.state ≡ State.finished))
      ⊎ ((e : Error) × (p.told ≡ e ∷ []) × (is_error e ≡ true) × (p.state ≢ State.finished))
Run-outcome p l r = outcome p.state p l (Run-IsValid p l r).1
