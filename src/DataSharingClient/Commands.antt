-- ===== src/DataSharingClient/Commands.antt =====
-- DataSharingClientImpl.cpp: what the user of the client calls.
use schneeflocke.Base.{
  ℕ, suc, Bool, true, false, not, Option, none, some, List, [], ◌∷◌, if◌then◌else◌, Bytes,
}
use schneeflocke.Base.Int.{pos}
use schneeflocke.Elements.{Request, RequestMark, Subscribe, Push}
use schneeflocke.Error.{Error, is_error}
use schneeflocke.Range.{Range, is_default}
use schneeflocke.DataSharingClient.{
  OpKind, Subscription, Command, Client, send, host_key, find_subscription, without_subscription,
  cancel_command,
}

-- What is common to the three: the id is taken in any case, the operation only waits if the command
-- could be sent, of which `err` is the result.
unfoldable pub start_op : Error → Bytes → ℕ → OpKind → (ℕ → Command) → Client → Error × Client
unfolding send host_key
start_op err host cb kind command s =
    let t = send host (command s.next_id) (record s { next_id = suc s.next_id }) in
    let (k, u) = host_key host t in
    if is_error err
    then (err, t)
    else (err, record u { ops = record { id = s.next_id; key = k; cb = cb; kind = kind } ∷ u.ops })

unfoldable pub asks_transmission : RequestMark → Bool
asks_transmission RequestMark.transmission = true
asks_transmission _ = false

unfoldable pub request_from : Error → Bytes → Request → ℕ → Client → Error × Client
unfolding start_op asks_transmission
request_from err host q cb s =
    start_op err host cb (OpKind.request_op (asks_transmission q.mark) q.path)
      (λ id. Command.request_command (record q { id = id })) s

unfoldable pub subscribe_to : Error → Bytes → Subscribe → ℕ → Option ℕ → Client → Error × Client
unfolding start_op
subscribe_to err host c cb delegate s =
    start_op err host cb (OpKind.subscribe_op delegate)
      (λ id. Command.subscribe_command (record c { id = id })) s

-- The range is the command's, which `Push` of the model leaves out.
unfoldable pub push_to : Error → Bytes → Push → Range → ℕ → Client → Error × Client
unfolding start_op
push_to err host c range cb s =
    if not (is_default range)
    then (Error.not_supported, s)
    else start_op err host cb OpKind.push_op (λ id. Command.push_command (record c { id = id })) s

unfoldable pub cancel_transmission : Error → Bytes → ℕ → Bytes → Client → Error × Client
unfolding send
cancel_transmission err host id path s = (
  err,
  send host
      (Command.request_command (record {
        id = id;
        path = path;
        user = [];
        revision = pos 0;
        range = record { from = pos 0; to = pos 0 };
        mark = RequestMark.transmission_cancel;
      }))
      s,
)

unfoldable pub cancel_subscription : Bytes → Bytes → Client → Error × Client
unfolding send cancel_command
cancel_subscription host path s = elim (find_subscription host path s.subscriptions) [
  | none ↦ (Error.not_found, s)
  | some i ↦ (
    Error.no_error,
    record (send host (cancel_command path) s) {
      subscriptions = without_subscription host path s.subscriptions;
    },
  )
]

cancel_all : List Subscription → Client → Client
unfolding send cancel_command
cancel_all [] s = s
cancel_all (i ∷ is) s = cancel_all is (send i.host (cancel_command i.path) s)

unfoldable pub shutdown : Client → Error × Client
unfolding cancel_all
shutdown s = (Error.no_error, record (cancel_all s.subscriptions s) { subscriptions = [] })
