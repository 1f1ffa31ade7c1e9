-- ===== src/AuthProtocol/Wire.antt =====
-- Two hosts that run the protocol with each other over a channel that works.
use schneeflocke.AuthProtocol.{
  Command, Header, State, AuthProtocol, Answers, connect, passive, on_channel_change,
}
use schneeflocke.Authentication.{Authentication, Certificate}
use schneeflocke.Base.{◌≡◌, ap, Bool, true, false, Option, none, some, List, [], ◌∷◌, Bytes, codes}
use schneeflocke.Error.{Error}

-- A header that was read without an error.
abbrev pub reading : Bytes → Bytes → Bytes → Option Bytes → Option Bytes → Header
reading cmd from to fp cert = record {
  malformed = false;
  cmd = cmd;
  from = some from;
  to = some to;
  to_cert_fp = fp;
  cert = cert;
  failure = none;
}

-- Writing a command and reading it again: the generated serialization gives back every field.
pub record Wire : Type 0 where
  pub header : Command → Header
  pub reads_create_channel :
      (from to v fp : Bytes)
      → header (Command.create_channel from to v fp)
        ≡ reading (codes "createChannel") from to (some fp) none
  pub reads_create_channel_accept :
      (from to v cert fp : Bytes)
      → header (Command.create_channel_accept from to v cert fp)
        ≡ reading (codes "createChannelAccept") from to (some fp) (some cert)
  pub reads_channel_accept :
      (from to cert : Bytes)
      → header (Command.channel_accept from to cert)
        ≡ reading (codes "channelAccept") from to none (some cert)

-- `init` and `setAuthentication` after the constructor, which leaves the state as it was in memory.
abbrev pub new_protocol : Bytes → State → Option Authentication → AuthProtocol
new_protocol me st a = record {
  me = me;
  other = [];
  other_cert_fp = [];
  other_cert = [];
  was_active = false;
  state = st;
  timer = false;
  listening = false;
  handler = true;
  authentication = a;
  sent = [];
  posted = [];
  told = [];
}

-- A channel that works, and what was read from it.
abbrev pub answers : Bool → (Bytes → Option Certificate) → Bytes → Header → Answers
answers authenticated text_import version h = record {
  err = Error.no_error;
  header = h;
  authenticated = authenticated;
  channel_error = Error.no_error;
  send_error = Error.no_error;
  text_import = text_import;
  version = version;
}

infixl 5 ◌>>=◌
abbrev pub ◌>>=◌ : {A B : Type 0} → Option A → (A → Option B) → Option B
none >>= f = none
some a >>= f = f a

pub some->>= :
    {A B : Type 0} (m : Option A) (f : A → Option B) {a : A} → m ≡ some a → (m >>= f) ≡ f a
some->>= m f e = ap (λ n. n >>= f) e

abbrev pub last_of : List Command → Option Command
last_of [] = none
last_of (c ∷ []) = some c
last_of (c ∷ d ∷ l) = last_of (d ∷ l)

abbrev pub deliver : Wire → (Header → Answers) → Option Command → AuthProtocol → Option AuthProtocol
deliver v w none p = some p
deliver v w (some c) p = on_channel_change (w (v.header c)) p

abbrev pub nothing : Header
nothing = reading [] [] [] none none

-- `a` connects to `b`, which expects `expected` or, if that is empty, anybody.
unfoldable pub exchange :
    Wire
    → (Header → Answers)
    → Bytes
    → AuthProtocol
    → AuthProtocol
    → Option (AuthProtocol × AuthProtocol)
exchange v w expected a b =
    let a1 = connect (w nothing) b.me a in
    do
      b1 ← deliver v w (last_of a1.sent) (passive expected b)
      a2 ← deliver v w (last_of b1.sent) a1
      b2 ← deliver v w (last_of a2.sent) b1
      some (a2, b2)
