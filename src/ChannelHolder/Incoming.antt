-- ===== src/ChannelHolder/Incoming.antt =====
-- ChannelHolder::onChannelChange, onCheckForTimeoutedChannels and forceClear. What the channel's
-- reader gave, read by the deserialization, is a list of `Incoming`. The delegates' own calls of the
-- holder, which may come at once, are calls of their own here.
use schneeflocke.Base.{
  ℕ, ◌-◌, Bool, true, false, ◌&&◌, Option, none, some, List, [], ◌∷◌, ◌++◌, if◌then◌else◌, ltb,
  ◌==◌, Bytes,
}
use schneeflocke.Base.Ids.{IdMap, find, put}
use schneeflocke.ChannelHolder.{
  Receiver, CloseOp, Posted, Holder, World, Written, close, write, send, on_received_close_channel,
  on_close_channel_error,
}
use schneeflocke.Error.{Error}

-- `none` in a ping or pong: it could not be read.
pub data Incoming : Type 0 where
  corrupted : Incoming
  close_command : Incoming
  ping pong : Option ℕ → Incoming
  command : ℕ → Incoming

unfoldable pub touch : World → ℕ → Holder → Holder
touch w id s = elim (find id s.channels) [
  | none ↦ s
  | some r ↦ record s { channels = put id (record r { utime = w.now }) s.channels }
]

-- One round of the loop over what was received; the flag tells that the time was noted already.
unfoldable pub handle : World → ℕ → Bytes → Incoming → Bool × Holder → Bool × Holder
unfolding touch
handle w id sender Incoming.corrupted (noted, s) = (noted, (close w id s).1)
handle w id sender Incoming.close_command (noted, s) = (noted, on_received_close_channel w id s)
handle w id sender (Incoming.ping none) (noted, s) = (noted, s)
handle w id sender (Incoming.ping (some n)) (noted, s) =
    (noted, (send w id (Written.pong n) true false s).1)
handle w id sender (Incoming.pong none) (noted, s) = (noted, s)
handle w id sender (Incoming.pong (some n)) (noted, s) =
    (noted, record s { pongs = s.pongs ++ ((id, n) ∷ []) })
handle w id sender (Incoming.command c) (noted, s) =
    let t = if noted then s else touch w id s in
    (true, record t { received = t.received ++ ((id, sender, c) ∷ []) })

unfoldable pub handle_all : World → ℕ → Bytes → List Incoming → Bool × Holder → Bool × Holder
unfolding handle
handle_all w id sender [] s = s
handle_all w id sender (x ∷ l) s = handle_all w id sender l (handle w id sender x s)

unfoldable pub is_not_enough : Error → Bool
is_not_enough Error.not_enough = true
is_not_enough _ = false

-- `e` is the error that ended the reading. `none`: the channel's error is asked for after a `close`
-- that has destroyed the receiver.
unfoldable pub on_channel_change : World → ℕ → Error → List Incoming → Holder → Option Holder
unfolding handle_all is_not_enough
on_channel_change w id e l s = elim (find id s.channels) [
  | none ↦ some s
  | some r ↦
      let s1 = if is_not_enough e then s else (close w id s).1 in
      let s2 = if w.channel_error id then (close w id s1).1 else s1 in
      elim (find id s1.channels) [
        | none ↦ none
        | some _ ↦ some (handle_all w id r.target l (false, s2)).1
      ]
]

-- The channels that nobody has used for too long.
unfoldable pub overdue : World → ℕ → IdMap Receiver → List Posted
overdue w limit [] = []
overdue w limit (e ∷ m) =
    let rest = overdue w limit m in
    if e.value.closing == 0 && ltb limit (w.now - e.value.utime)
    then Posted.close_later e.key ∷ rest
    else rest

unfoldable pub on_check_for_timeouted_channels : World → Holder → Holder
unfolding overdue
on_check_for_timeouted_channels w s =
    if ltb 0 s.channel_timeout_ms
    then record s { posted = s.posted ++ overdue w s.channel_timeout_ms s.channels }
    else s

-- The loop of `forceClear`.
unfoldable pub throw_all : World → IdMap Receiver → Holder → Holder
unfolding write
throw_all w [] s = s
throw_all w (e ∷ m) s =
    let t = if e.value.closing == 0 then (write w (Written.close_channel e.key) e.key s).1 else s in
    throw_all w m (record t { posted = t.posted ++ (Posted.throw_away e.key ∷ []) })

-- The callbacks of the closing operations that are cancelled.
unfoldable pub cancel_ops : List CloseOp → Holder → Holder
cancel_ops [] s = s
cancel_ops (o ∷ l) s = cancel_ops l (on_close_channel_error o.channel_id s)

unfoldable pub force_clear : World → Holder → Error × Holder
unfolding throw_all cancel_ops
force_clear w s =
    let t = record (throw_all w s.channels s) { channels = []; peers = [] } in
    (Error.no_error, cancel_ops t.ops (record t { ops = [] }))
