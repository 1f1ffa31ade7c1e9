-- ===== src/DataSharingClient/Tests.antt =====
-- Tests of the data sharing client.
use schneeflocke.Base.{◌≡◌, refl, true, false, some, [], ◌∷◌, ◌++◌, Bytes, codes, same, lookup}
use schneeflocke.Base.Int.{pos}
use schneeflocke.Elements.{
  Mark, NotifyMark, Notify, Request, RequestMark, RequestReply, Subscribe, SubscribeReply,
}
use schneeflocke.Error.{Error}
use schneeflocke.DataSharingClient.{Command, Call, Client, new_client, find_subscription, is_at}
use schneeflocke.DataSharingClient.Commands.{
  asks_transmission, request_from, subscribe_to, cancel_subscription,
}
use schneeflocke.DataSharingClient.Replies.{
  known_path, on_notify, on_subscribe_reply, on_request_reply,
}
use schneeflocke.DataSharingClient.Offline.{IsKeyed}
use schneeflocke.DataSharingClient.Subscriptions.{
  request_from-on_request_reply, subscribe_to-on_notify, cancel_subscription-on_notify,
}

abbrev bob : Bytes
bob = codes "bob"

abbrev flake : Bytes
flake = codes "flake"

abbrev plain : Request
plain = record {
  id = 0;
  path = flake;
  user = [];
  revision = pos 0;
  range = record { from = pos 0; to = pos 0 };
  mark = RequestMark.no_mark;
}

abbrev reply : RequestReply
reply = record {
  path = [];
  err = Error.no_error;
  id = 1;
  user = [];
  revision = pos 1;
  range = record { from = pos 0; to = pos 0 };
  mark = Mark.no_mark;
}

abbrev wanted : Subscribe
wanted = record { id = 0; path = flake; cancels = false }

abbrev confirmed : SubscribeReply
confirmed = record { path = flake; err = Error.no_error; id = 1; user = [] }

abbrev news : Notify
news = record { path = flake; revision = pos 2; size = pos 4; mark = NotifyMark.no_mark }

abbrev subscriber : Client
subscriber = record new_client {
  subscriptions =
      record { host = bob; path = flake; user = []; notification_delegate = some 9 } ∷ [];
}

request_from-on_request_reply_example :
    (t : Client) × (request_from Error.no_error bob plain 5 new_client ≡ (Error.no_error, t))
    × ((on_request_reply bob reply [] t).called
        ≡ Call.request_reply 5 bob (record reply { path = known_path [] flake }) [] ∷ [])
    × ((on_request_reply bob reply [] (on_request_reply bob reply [] t)).called
        ≡ (on_request_reply bob reply [] t).called)
unfolding asks_transmission
request_from-on_request_reply_example =
    request_from-on_request_reply bob plain 5 reply reply [] new_client refl refl refl

subscribe_to-on_notify_example :
    (t : Client) × (subscribe_to Error.no_error bob wanted 5 (some 9) new_client
      ≡ (Error.no_error, t))
    × ((on_notify bob news (on_subscribe_reply bob confirmed t)).called
        ≡ Call.subscribe_reply 5 bob confirmed ∷ (Call.notified 9 bob news ∷ []))
subscribe_to-on_notify_example =
    subscribe_to-on_notify bob wanted 5 9 confirmed news new_client refl refl refl

cancelled_flake :
    cancel_subscription bob flake subscriber
    ≡ (Error.no_error, (cancel_subscription bob flake subscriber).1)
unfolding cancel_subscription find_subscription is_at same
cancelled_flake = refl

cancel_subscription-on_notify_example :
    ((on_notify bob news (cancel_subscription bob flake subscriber).1).called
      ≡ (cancel_subscription bob flake subscriber).1.called)
    × ((on_notify bob news (cancel_subscription bob flake subscriber).1).sent
        ≡ (cancel_subscription bob flake subscriber).1.sent
          ++ ((bob, Command.subscribe_command (record { id = 0; path = flake; cancels = true }))
              ∷ []))
cancel_subscription-on_notify_example =
    cancel_subscription-on_notify bob flake news subscriber
      (cancel_subscription bob flake subscriber).1 cancelled_flake refl refl

new-IsKeyed : IsKeyed new_client
unfolding lookup
new-IsKeyed = record { below = λ h k e. cc; differ = λ g h k e f. cc }
