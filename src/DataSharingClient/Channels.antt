-- ===== src/DataSharingClient/Channels.antt =====
-- DataSharingClientImpl::onChannelChange, and AsyncOpBase::cancelAsyncOps.
use schneeflocke.Base.{ℕ, ◌==◌, none, some, List, [], ◌∷◌, ◌++◌, if◌then◌else◌, Bytes, same}
use schneeflocke.Base.Int.{ℤ, pos, ltb_ℤ}
use schneeflocke.Elements.{Mark, NotifyMark}
use schneeflocke.Error.{Error}
use schneeflocke.DataSharingClient.{OpKind, Op, Subscription, Call, Client, host_key}

-- `onCancel` of the three kinds.
unfoldable pub on_cancel : Error → Op → Call
on_cancel e o = elim o.kind [
  | OpKind.request_op transmission path ↦
      Call.request_reply o.cb []
        (record {
          path = path;
          err = e;
          id = 0;
          user = [];
          revision = pos 0;
          range = record { from = pos 0; to = pos 0 };
          mark = Mark.no_mark;
        })
        []
  | OpKind.subscribe_op delegate ↦
      Call.subscribe_reply o.cb [] (record { path = []; err = e; id = 0; user = [] })
  | OpKind.push_op ↦ Call.push_reply o.cb [] (record { path = []; err = e; id = 0 })
]

-- `cancelAsyncOps`: the calls, and the operations that stay.
unfoldable pub cancelled : ℕ → Error → List Op → List Call
unfolding on_cancel
cancelled key e [] = []
cancelled key e (o ∷ os) =
    let rest = cancelled key e os in if o.key == key then on_cancel e o ∷ rest else rest

unfoldable pub not_cancelled : ℕ → List Op → List Op
not_cancelled key [] = []
not_cancelled key (o ∷ os) =
    let rest = not_cancelled key os in if o.key == key then rest else o ∷ rest

-- The loop over the subscriptions: the calls, and the subscriptions that stay.
unfoldable pub broken : Bytes → List Subscription → List Call
broken host [] = []
broken host (i ∷ is) =
    let rest = broken host is in
    if same i.host host
    then elim i.notification_delegate [
      | none ↦ rest
      | some d ↦
          Call.notified d host (record {
            path = i.path;
            revision = pos 0;
            size = pos 0;
            mark = NotifyMark.subscription_cancel;
          })
          ∷ rest
    ]
    else rest

unfoldable pub without_host : Bytes → List Subscription → List Subscription
without_host host [] = []
without_host host (i ∷ is) =
    let rest = without_host host is in if same i.host host then rest else i ∷ rest

unfoldable pub on_channel_change : ℤ → Bytes → Client → Client
unfolding host_key
on_channel_change level host s =
    if ltb_ℤ (pos 0) level
    then s
    else let (k, t) = host_key host s in
      record t {
        subscriptions = without_host host t.subscriptions;
        ops = not_cancelled k t.ops;
        called =
            t.called ++ (broken host t.subscriptions ++ cancelled k Error.target_offline t.ops);
      }
