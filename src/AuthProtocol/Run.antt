-- ===== src/AuthProtocol/Run.antt =====
-- One side of the protocol in every order of calls, what it has heard, and what holds of it.
use schneeflocke.AuthProtocol.{
  Header, State, Posted, AuthProtocol, Answers, connect, passive, on_time_out, on_error,
  on_channel_change,
}
use schneeflocke.AuthProtocol.Wire.{new_protocol}
use schneeflocke.Authentication.{Authentication}
use schneeflocke.Base.{
  ◌≡◌, ◌⊎◌, Bool, true, false, not, ◌&&◌, ◌||◌, Option, none, some, List, [], ◌∷◌, if◌then◌else◌,
  Bytes, codes, same, Bool-cases, inl, inr, arith,
}
use schneeflocke.Error.{Error, is_error}

-- The headers that were read, the newest first; one whose datagram is broken is none.
abbrev pub read_of : Answers → List Header → List Header
read_of w l = if is_error w.err then l else w.header ∷ l

-- One side of the protocol from its beginning: the channel changes while it is listened to, the
-- queued calls run and the timer fires while it is set.
pub data Run : AuthProtocol → List Header → Type 0 where
  connects :
      (w : Answers) (me other : Bytes) (st : State) (a : Option Authentication)
      → Run (connect w other (new_protocol me st a)) []
  waits :
      (me other : Bytes) (st : State) (a : Option Authentication)
      → Run (passive other (new_protocol me st a)) []
  changes :
      (w : Answers) (p q : AuthProtocol) (l : List Header)
      → Run p l
      → p.listening ≡ true
      → on_channel_change w p ≡ some q
      → Run q (read_of w l)
  looks :
      (w : Answers) (p q : AuthProtocol) (l : List Header) (rest : List Posted)
      → Run p l
      → p.posted ≡ Posted.look ∷ rest
      → on_channel_change w (record p { posted = rest }) ≡ some q
      → Run q (read_of w l)
  fails :
      (w : Answers) (p : AuthProtocol) (l : List Header) (rest : List Posted)
      → Run p l
      → p.posted ≡ Posted.failure ∷ rest
      → Run (on_error w Error.connection_error (record p { posted = rest })) l
  times_out :
      (p : AuthProtocol) (l : List Header) → Run p l → p.timer ≡ true → Run (on_time_out p) l

unfoldable pub same_option : Option Bytes → Bytes → Bool
same_option none b = false
same_option (some a) b = same a b

-- A well-formed command from one host to another.
unfoldable pub says : Bytes → Bytes → Bytes → Header → Bool
unfolding same_option
says cmd from to h =
    not h.malformed && (same h.cmd cmd && (same_option h.from from && same_option h.to to))

unfoldable pub heard : Bytes → Bytes → Bytes → List Header → Bool
unfolding says
heard cmd from to [] = false
heard cmd from to (h ∷ l) = says cmd from to h || heard cmd from to l

unfoldable pub calm : List Posted → Bool
calm [] = true
calm (Posted.look ∷ l) = calm l
calm (Posted.failure ∷ l) = false

-- What a host that is done must have heard from the other.
abbrev pub Proven : AuthProtocol → List Header → Type 0
Proven p l =
    if p.was_active
    then heard (codes "createChannelAccept") p.other p.me l ≡ true
    else (heard (codes "createChannel") p.other p.me l ≡ true)
      × (heard (codes "channelAccept") p.other p.me l ≡ true)

abbrev pub ValidIn : State → AuthProtocol → List Header → Type 0
ValidIn State.sent_create_channel p l =
    (p.told ≡ []) × (calm p.posted ≡ true) × (p.was_active ≡ true)
ValidIn State.wait_for_create_channel p l =
    (p.told ≡ []) × (calm p.posted ≡ true) × (p.was_active ≡ false)
ValidIn State.sent_create_channel_accept p l =
    (p.told ≡ [])
    × (calm p.posted ≡ true)
    × (p.was_active ≡ false)
    × (heard (codes "createChannel") p.other p.me l ≡ true)
ValidIn State.finished p l =
    (p.told ≡ Error.no_error ∷ []) × (calm p.posted ≡ true) × (p.timer ≡ false) × Proven p l
ValidIn State.timeout p l =
    (p.told ≡ Error.time_out ∷ []) × (calm p.posted ≡ true) × (p.timer ≡ false)
ValidIn State.auth_error p l =
    (p.timer ≡ false)
    × (((p.told ≡ []) × (p.posted ≡ Posted.failure ∷ []))
        ⊎ ((calm p.posted ≡ true) × ((e : Error) × (p.told ≡ e ∷ []) × (is_error e ≡ true))))

abbrev pub IsValid : AuthProtocol → List Header → Type 0
IsValid p l = (p.handler ≡ true) × ValidIn p.state p l

pub heard_now :
    (cmd from to : Bytes) (h : Header) (l : List Header)
    → says cmd from to h ≡ true
    → heard cmd from to (h ∷ l) ≡ true
unfolding heard
heard_now cmd from to h l e = ground (arith, e)

pub heard_later :
    (cmd from to : Bytes) (h : Header) (l : List Header)
    → heard cmd from to l ≡ true
    → heard cmd from to (h ∷ l) ≡ true
unfolding heard
heard_later cmd from to h l e = ground (arith, e)

pub heard-read_of :
    (cmd from to : Bytes) (w : Answers) (l : List Header)
    → heard cmd from to l ≡ true
    → heard cmd from to (read_of w l) ≡ true
unfolding heard
heard-read_of cmd from to w l e = elim (Bool-cases (is_error w.err)) [
  | inl broken ↦ rw broken e
  | inr fine ↦ rw fine (ground (arith, e))
]

pub Proven-read_of :
    (p : AuthProtocol) (w : Answers) (l : List Header) → Proven p l → Proven p (read_of w l)
Proven-read_of p w l = elim (Bool-cases p.was_active) [
  | inl e ↦ rw e (heard-read_of _ _ _ w l)
  | inr e ↦ rw e (λ (a, b). (heard-read_of _ _ _ w l a, heard-read_of _ _ _ w l b))
]

pub active_side :
    (p : AuthProtocol) (l : List Header)
    → p.was_active ≡ true
    → heard (codes "createChannelAccept") p.other p.me l ≡ true
    → Proven p l
active_side p l e h = rw e h

pub passive_side :
    (p : AuthProtocol) (l : List Header)
    → p.was_active ≡ false
    → heard (codes "createChannel") p.other p.me l ≡ true
    → heard (codes "channelAccept") p.other p.me l ≡ true
    → Proven p l
passive_side p l e h k = rw e (h, k)

pub ValidIn-read_of :
    (st : State) (p : AuthProtocol) (w : Answers) (l : List Header)
    → ValidIn st p l
    → ValidIn st p (read_of w l)
ValidIn-read_of State.sent_create_channel p w l v = v
ValidIn-read_of State.wait_for_create_channel p w l v = v
ValidIn-read_of State.sent_create_channel_accept p w l (a, b, c, d) =
    (a, b, c, heard-read_of _ _ _ w l d)
ValidIn-read_of State.finished p w l (a, b, c, d) = (a, b, c, Proven-read_of p w l d)
ValidIn-read_of State.timeout p w l v = v
ValidIn-read_of State.auth_error p w l v = v
