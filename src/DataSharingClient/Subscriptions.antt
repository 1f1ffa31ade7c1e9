-- ===== src/DataSharingClient/Subscriptions.antt =====
-- What becomes of a request and of a subscription.
use schneeflocke.Base.{
  ℕ, suc, ◌≡◌, refl, sym, ap, ap₂, ◌∙◌, Bool, true, false, Option, none, some, List, [], ◌∷◌, ◌++◌,
  append_assoc, Bytes, same_refl, arith,
}
use schneeflocke.Elements.{NotifyMark, Notify, Request, RequestReply, Subscribe, SubscribeReply}
use schneeflocke.Error.{Error}
use schneeflocke.DataSharingClient.{
  Op, OpKind, Subscription, Command, Call, Client, send, call, host_key, find_op, without_op, is_at,
  find_subscription, without_subscription,
}
use schneeflocke.DataSharingClient.Commands.{
  start_op, asks_transmission, request_from, subscribe_to, cancel_transmission, cancel_subscription,
}
use schneeflocke.DataSharingClient.Replies.{
  known_path, on_notify, on_subscribe_reply, on_request_reply,
}

pub find_op-without_op : (id : ℕ) (os : List Op) → find_op id (without_op id os) ≡ none
unfolding find_op without_op
find_op-without_op id [] = refl
find_op-without_op id (o ∷ os) = ground (arith, find_op-without_op id os)

find_subscription-without_subscription :
    (host path : Bytes) (is : List Subscription)
    → find_subscription host path (without_subscription host path is) ≡ none
unfolding find_subscription without_subscription
find_subscription-without_subscription host path [] = refl
find_subscription-without_subscription host path (i ∷ is) =
    ground (arith, find_subscription-without_subscription host path is)

host_key-called : (host : Bytes) (s : Client) → (host_key host s).1.called ≡ s.called
unfolding host_key
host_key-called host s = ground arith

opened : (id : ℕ) (o : Op) (os : List Op) → o.id ≡ id → find_op id (o ∷ os) ≡ some o
unfolding find_op
opened id o os e = ground (arith, e)

abbrev sent_client : Bytes → Command → Client → Client
sent_client host c s = send host c (record s { next_id = suc s.next_id })

-- What `start_op` leaves when the command could be sent.
start_op_lem :
    (host : Bytes) (cb : ℕ) (kind : OpKind) (command : ℕ → Command) (s : Client)
    → (t : Client) × (o : Op) × (start_op Error.no_error host cb kind command s
        ≡ (Error.no_error, t))
      × (find_op s.next_id t.ops ≡ some o)
      × (o.cb ≡ cb)
      × (o.kind ≡ kind)
      × (t.called ≡ s.called)
unfolding start_op
start_op_lem host cb kind command s = (
  _,
  _,
  refl,
  opened s.next_id _ _ refl,
  refl,
  refl,
  host_key-called host (sent_client host (command s.next_id) s),
)

replied :
    (host path : Bytes) (r : RequestReply) (content : Bytes) (t : Client) (o : Op)
    → find_op r.id t.ops ≡ some o
    → o.kind ≡ OpKind.request_op false path
    → ((on_request_reply host r content t).called
        ≡ t.called
          ++ (Call.request_reply o.cb host (record r { path = known_path r.path path }) content
              ∷ []))
      × ((on_request_reply host r content t).ops ≡ without_op r.id t.ops)
unfolding on_request_reply call
replied host path r content t o found kind =
    (ground (arith, found, kind), ground (arith, found, kind))

unknown :
    (host : Bytes) (r : RequestReply) (content : Bytes) (t : Client)
    → find_op r.id t.ops ≡ none
    → (on_request_reply host r content t).called ≡ t.called
unfolding on_request_reply call cancel_transmission send
unknown host r content t gone = ground (arith, gone)

-- A request that could be sent, and is not one for a transmission, has its callback called with the
-- first reply to its id, and never with a second one.
pub request_from-on_request_reply :
    (host : Bytes) (q : Request) (cb : ℕ) (r again : RequestReply) (content : Bytes) (s : Client)
    → asks_transmission q.mark ≡ false
    → r.id ≡ s.next_id
    → again.id ≡ s.next_id
    → (t : Client) × (request_from Error.no_error host q cb s ≡ (Error.no_error, t))
      × ((on_request_reply host r content t).called
          ≡ s.called
            ++ (Call.request_reply cb host (record r { path = known_path r.path q.path }) content
                ∷ []))
      × ((on_request_reply host again content (on_request_reply host r content t)).called
          ≡ (on_request_reply host r content t).called)
unfolding request_from
request_from-on_request_reply host q cb r again content s mark id id2 =
    let (t, o, run, found, cb_is, kind, called) =
      start_op_lem host cb (OpKind.request_op (asks_transmission q.mark) q.path)
        (λ id. Command.request_command (record q { id = id })) s in
    let (told, left) =
      replied host q.path r content t o (rw id found)
        (kind ∙ ap (λ (b : Bool). OpKind.request_op b q.path) mark) in
    (
      t,
      run,
      told
          ∙ ap₂
              (λ (l : List Call) (k : ℕ).
                l
                ++ (Call.request_reply k host (record r { path = known_path r.path q.path }) content
                    ∷ []))
              called cb_is,
      unknown host again content (on_request_reply host r content t)
          (ap₂ find_op (id2 ∙ sym id) left ∙ find_op-without_op r.id t.ops),
    )

subscribed :
    (host : Bytes) (d : Option ℕ) (r : SubscribeReply) (t : Client) (o : Op)
    → find_op r.id t.ops ≡ some o
    → o.kind ≡ OpKind.subscribe_op d
    → r.err ≡ Error.no_error
    → ((on_subscribe_reply host r t).called ≡ t.called ++ (Call.subscribe_reply o.cb host r ∷ []))
      × (find_subscription host r.path (on_subscribe_reply host r t).subscriptions
          ≡ some (record { host = host; path = r.path; user = r.user; notification_delegate = d }))
unfolding on_subscribe_reply call find_subscription is_at
subscribed host d r t o found kind err = (
  ground (arith, found, kind, err),
  ground (arith, found, kind, err, same_refl host, same_refl r.path),
)

notified :
    (host : Bytes) (d : ℕ) (n : Notify) (s : Client) (i : Subscription)
    → find_subscription host n.path s.subscriptions ≡ some i
    → i.notification_delegate ≡ some d
    → (on_notify host n s).called ≡ s.called ++ (Call.notified d host n ∷ [])
unfolding on_notify call send
notified host d n s i found delegate = ground (arith, found, delegate)

-- A subscription that could be sent and is confirmed: its callback is called with the reply, and
-- its delegate with a notification of the path that comes after.
pub subscribe_to-on_notify :
    (host : Bytes) (c : Subscribe) (cb d : ℕ) (r : SubscribeReply) (n : Notify) (s : Client)
    → r.id ≡ s.next_id
    → r.err ≡ Error.no_error
    → n.path ≡ r.path
    → (t : Client) × (subscribe_to Error.no_error host c cb (some d) s ≡ (Error.no_error, t))
      × ((on_notify host n (on_subscribe_reply host r t)).called
          ≡ s.called ++ (Call.subscribe_reply cb host r ∷ (Call.notified d host n ∷ [])))
unfolding subscribe_to
subscribe_to-on_notify host c cb d r n s id err path =
    let (t, o, run, found, cb_is, kind, called) =
      start_op_lem host cb (OpKind.subscribe_op (some d))
        (λ id. Command.subscribe_command (record c { id = id })) s in
    let (told, there) = subscribed host (some d) r t o (rw id found) kind err in
    (
      t,
      run,
      notified host d n (on_subscribe_reply host r t)
            (record { host = host; path = r.path; user = r.user; notification_delegate = some d })
            (rw path there) refl
          ∙ ap (λ (l : List Call). l ++ (Call.notified d host n ∷ []))
              (told
                ∙ ap₂ (λ (l : List Call) (k : ℕ). l ++ (Call.subscribe_reply k host r ∷ [])) called
                    cb_is)
          ∙ append_assoc s.called (Call.subscribe_reply cb host r ∷ [])
              (Call.notified d host n ∷ []),
    )

left_subscription :
    (host path : Bytes) (s t : Client)
    → cancel_subscription host path s ≡ (Error.no_error, t)
    → find_subscription host path t.subscriptions ≡ none
unfolding cancel_subscription send
left_subscription host path s t e =
    ground (arith, e, find_subscription-without_subscription host path s.subscriptions)

unsubscribed :
    (host path : Bytes) (n : Notify) (t : Client)
    → find_subscription host path t.subscriptions ≡ none
    → n.path ≡ path
    → n.mark ≡ NotifyMark.no_mark
    → ((on_notify host n t).called ≡ t.called)
      × ((on_notify host n t).sent
          ≡ t.sent
            ++ ((host, Command.subscribe_command (record { id = 0; path = path; cancels = true }))
                ∷ []))
unfolding on_notify send call
unsubscribed host path n t gone here mark =
    (ground (arith, gone, here, mark), ground (arith, gone, here, mark))

-- After a subscription is cancelled, a regular notification of its path calls no delegate, and is
-- answered by a cancel.
pub cancel_subscription-on_notify :
    (host path : Bytes) (n : Notify) (s t : Client)
    → cancel_subscription host path s ≡ (Error.no_error, t)
    → n.path ≡ path
    → n.mark ≡ NotifyMark.no_mark
    → ((on_notify host n t).called ≡ t.called)
      × ((on_notify host n t).sent
          ≡ t.sent
            ++ ((host, Command.subscribe_command (record { id = 0; path = path; cancels = true }))
                ∷ []))
cancel_subscription-on_notify host path n s t e here mark =
    unsubscribed host path n t (left_subscription host path s t e) here mark
