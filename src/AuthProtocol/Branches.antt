-- ===== src/AuthProtocol/Branches.antt =====
-- What each case of `onChannelChange` comes to.
use schneeflocke.AuthProtocol.{
  Header, State, AuthProtocol, Answers, on_error, final_error, check_params, failure_of, reject,
  after_answer, after_request, after_acceptance,
}
use schneeflocke.Base.{
  ◌≡◌, ◌⊎◌, subst, Bool, true, false, some, Option-cases, [], ◌∷◌, ◌++◌, Bytes, same_refl,
  Bool-cases, inl, inr, arith,
}
use schneeflocke.Error.{Error, is_error}
use schneeflocke.AuthProtocol.Run.{says}

pub check_params-says :
    (h : Header) (cmd : Bytes) (set : Bool) (p : AuthProtocol)
    → (check_params h cmd set p).0 ≡ true
    → says cmd (check_params h cmd set p).1.other p.me h ≡ true
unfolding check_params says
check_params-says h cmd set p e = elim (Option-cases h.from) [
  | inl missing ↦ ground (arith, missing, e)
  | inr (from, there) ↦ ground (arith, there, e, same_refl from)
]

-- What the reading of a message leaves alone.
abbrev pub Kept : AuthProtocol → AuthProtocol → Type 0
Kept p q =
    (q.me ≡ p.me)
    × (q.was_active ≡ p.was_active)
    × (q.handler ≡ p.handler)
    × (q.posted ≡ p.posted)
    × (q.told ≡ p.told)

pub check_params-Kept :
    (h : Header) (cmd : Bytes) (set : Bool) (p : AuthProtocol) → Kept p (check_params h cmd set p).1
unfolding check_params
check_params-Kept h cmd set p = ground arith

pub check_params-other :
    (h : Header) (cmd : Bytes) (p : AuthProtocol) → (check_params h cmd false p).1.other ≡ p.other
unfolding check_params
check_params-other h cmd p = ground arith

pub final_error-is_error : (w : Answers) (e : Error) → is_error (final_error w e) ≡ true
unfolding final_error
final_error-is_error w e = ground arith

-- A call that ends the protocol with an error.
abbrev pub FailedWith : Answers → Error → AuthProtocol → AuthProtocol → Type 0
FailedWith w e p q =
    (q.handler ≡ true)
    × (q.state ≡ State.auth_error)
    × (q.timer ≡ false)
    × (q.posted ≡ p.posted)
    × (q.told ≡ p.told ++ (final_error w e ∷ []))

abbrev pub Failed : Answers → AuthProtocol → AuthProtocol → Type 0
Failed w p q = (e : Error) × FailedWith w e p q

pub on_error-FailedWith :
    (w : Answers) (e : Error) (p : AuthProtocol)
    → p.handler ≡ true
    → FailedWith w e p (on_error w e p)
unfolding on_error
on_error-FailedWith w e p h = ground arith

pub reject-Failed : (w : Answers) (p : AuthProtocol) → p.handler ≡ true → Failed w p (reject w p)
unfolding reject
reject-Failed w p h = elim (Option-cases (failure_of w.header)) [
  | inr (e, said) ↦ (e, ground (arith, said))
  | inl wrong ↦ (Error.bad_protocol, ground (arith, wrong))
]

-- A call that ends the protocol well.
abbrev pub Done : AuthProtocol → AuthProtocol → Type 0
Done p q =
    (q.handler ≡ p.handler)
    × (q.state ≡ State.finished)
    × (q.timer ≡ false)
    × (q.posted ≡ p.posted)
    × (q.told ≡ p.told ++ (Error.no_error ∷ []))
    × (q.other ≡ p.other)
    × (q.me ≡ p.me)
    × (q.was_active ≡ p.was_active)

pub after_acceptance-cases :
    (w : Answers) (r : Bool × AuthProtocol)
    → r.1.handler ≡ true
    → Failed w r.1 (after_acceptance w r) ⊎ ((r.0 ≡ true) × Done r.1 (after_acceptance w r))
unfolding after_acceptance
after_acceptance-cases w r h = elim (Bool-cases r.0) [
  | inr bad ↦ inl (
      subst (Failed w r.1) {x = reject w r.1} {y = after_acceptance w r} (ground (arith, bad))
        (reject-Failed w r.1 h))
  | inl good ↦ inr (good, ground (arith, good))
]

module _ (w : Answers) (r : Bool × AuthProtocol) (h : r.1.handler ≡ true) where
  pub after_answer-cases :
      (q : AuthProtocol) → after_answer w r ≡ some q → Failed w r.1 q ⊎ ((r.0 ≡ true) × Done r.1 q)
  unfolding after_answer
  after_answer-cases q run = elim (Bool-cases r.0) [
    | inr bad ↦ inl (
        subst (Failed w r.1) {x = reject w r.1} {y = q} (ground (arith, bad, run))
          (reject-Failed w r.1 h))
    | inl good ↦ elim (Bool-cases (is_error w.send_error)) [
      | inl lost ↦ inl (Error.connection_error, ground (arith, good, lost, run))
      | inr sent ↦ inr (good, ground (arith, good, sent, run))
    ]
  ]

  -- A request that was taken.
  abbrev pub Taken : AuthProtocol → AuthProtocol → Type 0
  Taken p q = (q.state ≡ State.sent_create_channel_accept) × (q.other ≡ p.other) × Kept p q

  pub after_request-cases :
      (q : AuthProtocol)
      → after_request w r ≡ some q
      → Failed w r.1 q ⊎ ((r.0 ≡ true) × Taken r.1 q)
  unfolding after_request
  after_request-cases q run = elim (Bool-cases r.0) [
    | inr bad ↦ inl (
        subst (Failed w r.1) {x = reject w r.1} {y = q} (ground (arith, bad, run))
          (reject-Failed w r.1 h))
    | inl good ↦ elim (Bool-cases (is_error w.send_error)) [
      | inl lost ↦ inl (Error.connection_error, ground (arith, good, lost, run))
      | inr sent ↦ inr (good, ground (arith, good, sent, run))
    ]
  ]
