-- ===== src/DataSharingClient/Replies.antt =====
-- DataSharingClientImpl.cpp: the handlers of what comes in.
use schneeflocke.Base.{◌&&◌, Bool, true, false, none, some, [], ◌∷◌, if◌then◌else◌, Bytes}
use schneeflocke.Elements.{Mark, NotifyMark, Notify, RequestReply, SubscribeReply, PushReply}
use schneeflocke.Error.{Error, is_error}
use schneeflocke.DataSharingClient.{
  OpKind, Call, Client, send, call, find_op, without_op, find_subscription, without_subscription,
  cancel_command,
}
use schneeflocke.DataSharingClient.Commands.{cancel_transmission}

is_cancel : NotifyMark → Bool
is_cancel NotifyMark.subscription_cancel = true
is_cancel NotifyMark.no_mark = false

unfoldable pub on_notify : Bytes → Notify → Client → Client
unfolding is_cancel cancel_command send call
on_notify sender n s = elim (find_subscription sender n.path s.subscriptions) [
  | none ↦ if is_cancel n.mark then s else send sender (cancel_command n.path) s
  | some i ↦ elim i.notification_delegate [ none ↦ s | some d ↦ call (Call.notified d sender n) s ]
]

-- The operation is taken out whatever its kind; one of another kind is dropped.
unfoldable pub on_subscribe_reply : Bytes → SubscribeReply → Client → Client
unfolding call
on_subscribe_reply sender r s = elim (find_op r.id s.ops) [
  | none ↦ s
  | some o ↦
      let t = record s { ops = without_op r.id s.ops } in
      elim o.kind [
        | OpKind.subscribe_op delegate ↦ call (Call.subscribe_reply o.cb sender r) (
            if is_error r.err then t else record t {
              subscriptions =
                  record {
                    host = sender;
                    path = r.path;
                    user = r.user;
                    notification_delegate = delegate;
                  }
                  ∷ without_subscription sender r.path t.subscriptions;
            })
        | OpKind.request_op transmission path ↦ t
        | OpKind.push_op ↦ t
      ]
]

unfoldable pub on_push_reply : Bytes → PushReply → Client → Client
unfolding call
on_push_reply sender r s = elim (find_op r.id s.ops) [
  | none ↦ s
  | some o ↦
      let t = record s { ops = without_op r.id s.ops } in
      elim o.kind [
        | OpKind.push_op ↦ call (Call.push_reply o.cb sender r) t
        | OpKind.request_op transmission path ↦ t
        | OpKind.subscribe_op delegate ↦ t
      ]
]

goes_on : Mark → Bool
goes_on Mark.transmission = true
goes_on Mark.transmission_start = true
goes_on _ = false

is_middle : Mark → Bool
is_middle Mark.transmission = true
is_middle _ = false

-- An answer without a request: a transmission that runs is stopped.
unasked : Bytes → RequestReply → Client → Client
unfolding is_middle cancel_transmission
unasked sender r s =
    if is_middle r.mark then (cancel_transmission Error.no_error sender r.id r.path s).1 else s

-- A reply may leave its path out.
unfoldable pub known_path : Bytes → Bytes → Bytes
known_path [] path = path
known_path (c ∷ p) path = c ∷ p

unfoldable pub on_request_reply : Bytes → RequestReply → Bytes → Client → Client
unfolding call goes_on unasked known_path
on_request_reply sender r content s = elim (find_op r.id s.ops) [
  | none ↦ unasked sender r s
  | some o ↦
      let t = record s { ops = without_op r.id s.ops } in
      elim o.kind [
        | OpKind.request_op transmission path ↦
            let u =
              call
                (Call.request_reply o.cb sender (record r { path = known_path r.path path })
                  content)
                t in
            if transmission && goes_on r.mark then record u { ops = o ∷ u.ops } else u
        | OpKind.subscribe_op delegate ↦ unasked sender r t
        | OpKind.push_op ↦ unasked sender r t
      ]
]
