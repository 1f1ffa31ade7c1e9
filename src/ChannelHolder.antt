-- ===== src/ChannelHolder.antt =====
-- libschnee/schnee/p2p/impl/ChannelHolder.cpp and ChannelHolder.h: the channels of a host, by id and
-- by peer and level. A channel is known by its id. Levels, which the channel providers give as small
-- positive ints, are numbers. `none` as the result of an operation is a reference that is followed
-- after its object is gone. The delegates' calls are recorded.
use schneeflocke.Base.{
  ℕ, zero, suc, ◌+◌, ◌-◌, Bool, true, false, ◌&&◌, ◌||◌, not, Option, none, some, List, [], ◌∷◌,
  ◌++◌, if◌then◌else◌, ltb, ◌==◌, Bytes, Map, lookup, insert, erase,
}
pub mod Peers
pub mod Invariant
pub mod Adding
pub mod Incoming
pub mod Handling
pub mod Reachable
pub mod Entries
pub mod Faults
mod Tests
use mathlib.Core.List.{reverse}
use schneeflocke.Base.Ids.{IdMap, Numbered, find, put, remove, highest}
use schneeflocke.Error.{Error, is_error}

-- `closing` is the id of the closing operation, or 0.
pub record Receiver : Type 0 where
  pub listening : Bool
  pub target : Bytes
  pub closing : ℕ
  pub requested : Bool
  pub level : ℕ
  pub utime : ℕ

pub record PeerInfo : Type 0 where
  pub best_channel : ℕ
  pub best_level : ℕ
  pub channels : IdMap ℕ

pub record CloseOp : Type 0 where
  pub id : ℕ
  pub channel_id : ℕ

-- The calls that `xcall` queues.
pub data Posted : Type 0 where
  change close_later throw_away : ℕ → Posted

pub record Changed : Type 0 where
  pub id : ℕ
  pub target : Bytes
  pub level : ℕ

-- What goes into a channel.
pub data Written : Type 0 where
  close_channel pong datagram : ℕ → Written

-- `told` are the calls of the delegate `channelChanged`, which are queued; `received` the datagrams
-- and pongs that the other two delegates got, with the channel and the sender.
pub record Holder : Type 0 where
  pub channels : IdMap Receiver
  pub next_channel_id : ℕ
  pub peers : Map PeerInfo
  pub host_id : Bytes
  pub channel_timeout_ms : ℕ
  pub ops : List CloseOp
  pub next_op_id : ℕ
  pub posted : List Posted
  pub told : List Changed
  pub written : List Written
  pub received : List (ℕ × Bytes × ℕ)
  pub pongs : List (ℕ × ℕ)

abbrev pub new_holder : Holder
new_holder = record {
  channels = [];
  next_channel_id = 1;
  peers = [];
  host_id = [];
  channel_timeout_ms = 600000;
  ops = [];
  next_op_id = 1;
  posted = [];
  told = [];
  written = [];
  received = [];
  pongs = [];
}

unfoldable pub set_host_id : Bytes → Holder → Holder
set_host_id id s = record s { host_id = id }

unfoldable pub set_channel_timeout : ℕ → Holder → Holder
set_channel_timeout ms s = record s { channel_timeout_ms = ms }

-- What the channels answer during one call, by id, and the time.
pub record World : Type 0 where
  pub write_error : ℕ → Error
  pub channel_error : ℕ → Bool
  pub now : ℕ

abbrev pub new_peer : PeerInfo
new_peer = record { best_channel = 0; best_level = 0; channels = [] }

-- `operator<` of two strings.
unfoldable pub less : Bytes → Bytes → Bool
less [] [] = false
less [] (d ∷ t) = true
less (c ∷ s) [] = false
less (c ∷ s) (d ∷ t) = if c == d then less s t else ltb c d

-- The peer without its channel at a level: none, if that was its last and best one.
unfoldable pub without_level : ℕ → ℕ → PeerInfo → Option PeerInfo
without_level id level info =
    let channels = remove level info.channels in
    if info.best_channel == id
    then elim (highest channels) [
      | none ↦ none
      | some e ↦ some (record { best_channel = e.value; best_level = e.key; channels = channels })
    ]
    else some (record info { channels = channels })

unfoldable pub remove_channel_peer_connection : Bytes → ℕ → ℕ → Holder → Error × Holder
remove_channel_peer_connection host id level s = elim (lookup host s.peers) [
  | none ↦ (Error.not_found, s)
  | some info ↦ elim (without_level id level info) [
    | none ↦ (Error.no_error, record s { peers = erase host s.peers })
    | some info' ↦ (Error.no_error, record s { peers = insert host info' s.peers })
  ]
]

-- The call of `channelChanged`, and the removal from the peer before it.
unfoldable pub detach : ℕ → Receiver → Holder → Holder
detach id r s =
    let t = (remove_channel_peer_connection r.target id r.level s).1 in
    record t { told = t.told ++ (record { id = id; target = r.target; level = r.level } ∷ []) }

unfoldable pub remove_channel : ℕ → Holder → Error × Holder
remove_channel id s = elim (find id s.channels) [
  | none ↦ (Error.not_found, s)
  | some r ↦
      let t = detach id r s in
      (
        Error.no_error,
        record t {
          channels = remove id t.channels;
          posted = t.posted ++ (Posted.throw_away id ∷ []);
        },
      )
]

unfoldable pub write : World → Written → ℕ → Holder → Error × Holder
write w what id s = (
  w.write_error id,
  if is_error (w.write_error id) then s else record s { written = s.written ++ (what ∷ []) },
)

unfoldable pub close : World → ℕ → Holder → Error × Holder
unfolding write
close w id s = elim (find id s.channels) [
  | none ↦ (Error.not_found, s)
  | some r ↦
      let t = write w (Written.close_channel id) id (detach id r s) in
      if not (r.closing == 0)
      then (Error.exists_already, s)
      else if is_error t.0
      then (t.0, (remove_channel id t.1).1)
      else (
        Error.no_error,
        record (t.1) {
          channels = put id (record r { closing = t.1.next_op_id }) t.1.channels;
          ops = t.1.ops ++ (record { id = t.1.next_op_id; channel_id = id } ∷ []);
          next_op_id = t.1.next_op_id + 1;
        },
      )
]

-- The end of `add`: the channel is known to its peer and listened to.
unfoldable pub register : ℕ → Receiver → PeerInfo → Holder → Holder
register id r info s =
    let channels = put r.level id info.channels in
    record s {
      channels = put id (record r { listening = true }) s.channels;
      peers =
          insert r.target
            (if ltb info.best_level r.level
              then record { best_channel = id; best_level = r.level; channels = channels }
              else record info { channels = channels })
            s.peers;
      posted = s.posted ++ (Posted.change id ∷ []);
    }

-- `mPeers[target]`.
unfoldable pub peer_at : Bytes → Holder → PeerInfo
peer_at target s = elim (lookup target s.peers) [ none ↦ new_peer | some info ↦ info ]

-- A new channel gives way, unless the old one is broken, by the order of the two hosts' ids. This is
-- the test that the code makes; the source's comment above it has the two orders the other way round.
unfoldable pub gives_way : World → ℕ → Bytes → Bytes → Bool → Bool
unfolding less
gives_way w old me target requested =
    not (w.channel_error old) && (if requested then less me target else less target me)

unfoldable pub add : World → Bytes → Bool → ℕ → Holder → Option (ℕ × Holder)
unfolding close register peer_at gives_way
add w target requested level s =
    let id = s.next_channel_id in
    let r : Receiver = record {
      listening = false;
      target = target;
      closing = 0;
      requested = requested;
      level = level;
      utime = w.now;
    } in
    let info = peer_at target s in
    let t = record s {
      channels = put id r s.channels;
      next_channel_id = id + 1;
      peers = insert target info s.peers;
    } in
    elim (find level info.channels) [
      | none ↦ some (id, register id r info t)
      | some old ↦ elim (find old t.channels) [
        | none ↦ none
        | some _ ↦
            if gives_way w old s.host_id target requested
            then some (id, (close w id t).1)
            else let u = (close w old t).1 in
              elim (lookup target u.peers) [
                | none ↦ none
                | some info' ↦ some (id, register id r info' u)
              ]
      ]
    ]

close_all : World → List (Numbered ℕ) → Holder → Holder
unfolding close
close_all w [] s = s
close_all w (e ∷ l) s = close_all w l (close w e.value s).1

unfoldable pub close_channels_to_host : World → Bytes → Holder → Error × Holder
unfolding close_all
close_channels_to_host w host s = elim (lookup host s.peers) [
  | none ↦ (Error.not_found, s)
  | some info ↦ (Error.no_error, close_all w info.channels s)
]

rest_of : List (Numbered ℕ) → List (Numbered ℕ)
rest_of [] = []
rest_of (e ∷ l) = l

unfoldable pub close_redundant_channels_to_host : World → Bytes → Holder → Error × Holder
unfolding close_all rest_of
close_redundant_channels_to_host w host s = elim (lookup host s.peers) [
  | none ↦ (Error.not_found, s)
  | some info ↦ (Error.no_error, close_all w (rest_of (reverse info.channels)) s)
]

unfoldable pub find_channel : Bytes → ℕ → Holder → ℕ
find_channel host level s = elim (lookup host s.peers) [
  | none ↦ 0
  | some info ↦ elim (find level info.channels) [ none ↦ 0 | some id ↦ id ]
]

unfoldable pub find_best_channel : Bytes → Holder → ℕ
find_best_channel host s = elim (lookup host s.peers) [ none ↦ 0 | some info ↦ info.best_channel ]

unfoldable pub find_best_channel_level : Bytes → Holder → ℕ
find_best_channel_level host s = elim (lookup host s.peers) [
  | none ↦ 0
  | some info ↦ info.best_level
]

-- `encoded` tells whether the datagram could be encoded.
unfoldable pub send : World → ℕ → Written → Bool → Bool → Holder → Error × Holder
unfolding write
send w id what encoded high_level s = elim (find id s.channels) [
  | none ↦ (Error.not_found, s)
  | some r ↦
      if not (r.closing == 0)
      then (Error.closed, s)
      else if not encoded
      then (Error.too_much, s)
      else write w what id (
          if high_level
          then record s { channels = put id (record r { utime = w.now }) s.channels }
          else s)
]

-- The closing operation's callback, when its time is out.
unfoldable pub on_close_channel_error : ℕ → Holder → Holder
on_close_channel_error id s = record s { channels = remove id s.channels }

unfoldable pub without_op : ℕ → List CloseOp → List CloseOp
without_op id [] = []
without_op id (o ∷ l) = let rest = without_op id l in if o.id == id then rest else o ∷ rest

unfoldable pub on_received_close_channel : World → ℕ → Holder → Holder
unfolding write
on_received_close_channel w id s = elim (find id s.channels) [
  | none ↦ s
  | some r ↦
      if r.closing == 0
      then (remove_channel id (write w (Written.close_channel id) id s).1).1
      else (remove_channel id (record s { ops = without_op r.closing s.ops })).1
]
