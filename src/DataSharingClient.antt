-- ===== src/DataSharingClient.antt =====
-- libschnee/schnee/p2p/com/DataSharingClientImpl.cpp and .h, with the table of pending operations of
-- libschnee/schnee/tools/async/AsyncOpBase.cpp: requests and subscriptions of a host. Callbacks are
-- numbers, and calling one is an entry of `called`; a callback that calls the client in turn is a
-- later step.
pub mod Commands
pub mod Replies
pub mod Channels
pub mod Offline
pub mod Subscriptions
mod Tests
use schneeflocke.Base.{
  ℕ, zero, suc, ◌==◌, ◌&&◌, ◌||◌, Bool, true, false, not, Option, none, some, List, [], ◌∷◌, ◌++◌,
  if◌then◌else◌, Bytes, same, Map, lookup, insert,
}
use schneeflocke.Base.Int.{ℤ, pos, ltb_ℤ}
use schneeflocke.Elements.{
  Mark, NotifyMark, Notify, Request, RequestMark, RequestReply, Subscribe, SubscribeReply, Push,
  PushReply,
}
use schneeflocke.Error.{Error, is_error}
use schneeflocke.Range.{Range, is_default}

-- What the three kinds of operations keep.
pub data OpKind : Type 0 where
  request_op : Bool → Bytes → OpKind
  subscribe_op : Option ℕ → OpKind
  push_op : OpKind

pub record Op : Type 0 where
  pub id : ℕ
  pub key : ℕ
  pub cb : ℕ
  pub kind : OpKind

-- `mSubscriptions`, whose keys are URIs of a host and a path.
pub record Subscription : Type 0 where
  pub host : Bytes
  pub path : Bytes
  pub user : Bytes
  pub notification_delegate : Option ℕ

pub data Command : Type 0 where
  request_command : Request → Command
  subscribe_command : Subscribe → Command
  push_command : Push → Command

pub data Call : Type 0 where
  request_reply : ℕ → Bytes → RequestReply → Bytes → Call
  subscribe_reply : ℕ → Bytes → SubscribeReply → Call
  push_reply : ℕ → Bytes → PushReply → Call
  notified : ℕ → Bytes → Notify → Call

-- `called` has the calls of callbacks, made at once or queued, oldest first.
pub record Client : Type 0 where
  pub ops : List Op
  pub next_id : ℕ
  pub host_keys : Map ℕ
  pub next_host_key : ℕ
  pub subscriptions : List Subscription
  pub sent : List (Bytes × Command)
  pub called : List Call

abbrev pub new_client : Client
new_client = record {
  ops = [];
  next_id = 1;
  host_keys = [];
  next_host_key = 1;
  subscriptions = [];
  sent = [];
  called = [];
}

unfoldable pub send : Bytes → Command → Client → Client
send host c s = record s { sent = s.sent ++ ((host, c) ∷ []) }

unfoldable pub call : Call → Client → Client
call c s = record s { called = s.called ++ (c ∷ []) }

unfoldable pub host_key : Bytes → Client → ℕ × Client
host_key host s = elim (lookup host s.host_keys) [
  | some k ↦ (k, s)
  | none ↦ (
    s.next_host_key,
    record s {
      host_keys = insert host s.next_host_key s.host_keys;
      next_host_key = suc s.next_host_key;
    },
  )
]

unfoldable pub find_op : ℕ → List Op → Option Op
find_op id [] = none
find_op id (o ∷ os) = if o.id == id then some o else find_op id os

unfoldable pub without_op : ℕ → List Op → List Op
without_op id [] = []
without_op id (o ∷ os) = let rest = without_op id os in if o.id == id then rest else o ∷ rest

-- A subscription's place in `mSubscriptions`.
unfoldable pub is_at : Bytes → Bytes → Subscription → Bool
is_at host path i = same i.host host && same i.path path

unfoldable pub find_subscription : Bytes → Bytes → List Subscription → Option Subscription
unfolding is_at
find_subscription host path [] = none
find_subscription host path (i ∷ is) =
    if is_at host path i then some i else find_subscription host path is

unfoldable pub without_subscription : Bytes → Bytes → List Subscription → List Subscription
unfolding is_at
without_subscription host path [] = []
without_subscription host path (i ∷ is) =
    let rest = without_subscription host path is in if is_at host path i then rest else i ∷ rest

unfoldable pub cancel_command : Bytes → Command
cancel_command path = Command.subscribe_command (record { id = 0; path = path; cancels = true })
