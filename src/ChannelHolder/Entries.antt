-- ===== src/ChannelHolder/Entries.antt =====
-- What is found for a host and a level when a channel is taken away.
use schneeflocke.Base.{
  ℕ, ◌≡◌, refl, ap, ◌∙◌, false, Option, none, some, Option-cases, inl, inr, [], ◌∷◌, ◌++◌, ◌==◌,
  Bytes, Map, same_refl, lookup, lookup-insert, lookup-erase, arith,
}
use schneeflocke.Base.Ids.{find, find-put, find-remove}
use schneeflocke.Error.{is_error}
use schneeflocke.ChannelHolder.{
  Receiver, PeerInfo, Holder, World, Written, close, write, detach, without_level, remove_channel,
  remove_channel_peer_connection, on_received_close_channel, find_channel, without_op,
}
use schneeflocke.ChannelHolder.Invariant.{detach-fields, find-remove_channel}

abbrev pub channel_in : ℕ → Option PeerInfo → ℕ
channel_in level none = 0
channel_in level (some info) = elim (find level info.channels) [ none ↦ 0 | some id ↦ id ]

pub find_channel_lem :
    (host : Bytes) (level : ℕ) (s : Holder)
    → find_channel host level s ≡ channel_in level (lookup host s.peers)
unfolding find_channel
find_channel_lem host level s = ground arith

pub without_level-empty :
    (id level : ℕ) (info info' : PeerInfo)
    → without_level id level info ≡ some info'
    → find level info'.channels ≡ none
unfolding without_level
without_level-empty id level info info' e = ground (arith, e, find-remove level level info.channels)

pub find_channel-removed :
    (host : Bytes) (id level : ℕ) (s : Holder)
    → channel_in level (lookup host (remove_channel_peer_connection host id level s).1.peers) ≡ 0
unfolding remove_channel_peer_connection
find_channel-removed host id level s = elim (Option-cases (lookup host s.peers)) [
  | inl unknown ↦ ground (arith, unknown)
  | inr (info, known) ↦ elim (Option-cases (without_level id level info)) [
    | inl last ↦ ground (arith, known, last, lookup-erase host host s.peers, same_refl host)
    | inr (info', rest) ↦ ground (
      arith,
      known,
      rest,
      lookup-insert host host info' s.peers,
      same_refl host,
      without_level-empty id level info info' rest,
    )
  ]
]

pub find_channel-detach :
    (id : ℕ) (r : Receiver) (s : Holder)
    → channel_in r.level (lookup r.target (detach id r s).peers) ≡ 0
find_channel-detach id r s =
    ap (λ (m : Map PeerInfo). channel_in r.level (lookup r.target m)) (detach-fields id r s).1
    ∙ find_channel-removed r.target id r.level s

pub find_channel-remove_channel :
    (id : ℕ) (r : Receiver) (s : Holder)
    → find id s.channels ≡ some r
    → channel_in r.level (lookup r.target (remove_channel id s).1.peers) ≡ 0
unfolding remove_channel
find_channel-remove_channel id r s there = ground (arith, there, find_channel-detach id r s)

pub find_channel-close :
    (w : World) (id : ℕ) (r : Receiver) (s : Holder)
    → find id s.channels ≡ some r
    → r.closing ≡ 0
    → channel_in r.level (lookup r.target (close w id s).1.peers) ≡ 0
unfolding close write
find_channel-close w id r s there works = ground (
  arith,
  there,
  works,
  find_channel-detach id r s,
  find_channel-remove_channel id r (detach id r s),
  (detach-fields id r s).0,
)

pub find_channel-received :
    (w : World) (id : ℕ) (r : Receiver) (s : Holder)
    → find id s.channels ≡ some r
    → channel_in r.level (lookup r.target (on_received_close_channel w id s).peers) ≡ 0
unfolding on_received_close_channel write
find_channel-received w id r s there = ground (
  arith,
  there,
  find_channel-remove_channel id r s there,
  find_channel-remove_channel id r
      (record s { written = s.written ++ (Written.close_channel id ∷ []) }) there,
  find_channel-remove_channel id r (record s { ops = without_op r.closing s.ops }) there,
)

pub find-received :
    (w : World) (id j : ℕ) (s : Holder)
    → (id == j) ≡ false
    → find j (on_received_close_channel w id s).channels ≡ find j s.channels
unfolding on_received_close_channel write
find-received w id j s other = elim (Option-cases (find id s.channels)) [
  | inl missing ↦ ground (arith, missing)
  | inr (r, there) ↦ ground (
    arith,
    there,
    find-remove_channel id j s other,
    find-remove_channel id j (record s { written = s.written ++ (Written.close_channel id ∷ []) })
        other,
    find-remove_channel id j (record s { ops = without_op r.closing s.ops }) other,
  )
]

pub lookup-removed :
    (host : Bytes) (id level : ℕ) (s : Holder) (info : PeerInfo)
    → lookup host s.peers ≡ some info
    → lookup host (remove_channel_peer_connection host id level s).1.peers
      ≡ without_level id level info
unfolding remove_channel_peer_connection
lookup-removed host id level s info known = elim (Option-cases (without_level id level info)) [
  | inl last ↦ ground (arith, known, last, lookup-erase host host s.peers, same_refl host)
  | inr (info', rest) ↦
      ground (arith, known, rest, lookup-insert host host info' s.peers, same_refl host)
]

-- What closing an open channel leaves of its peer.
pub lookup-close :
    (w : World) (id : ℕ) (r : Receiver) (s : Holder) (info : PeerInfo)
    → find id s.channels ≡ some r
    → r.closing ≡ 0
    → is_error (w.write_error id) ≡ false
    → lookup r.target s.peers ≡ some info
    → lookup r.target (close w id s).1.peers ≡ without_level id r.level info
unfolding close write
lookup-close w id r s info there works sent known =
    let peers : lookup r.target (detach id r s).peers ≡ without_level id r.level info =
      ap (lookup r.target) (detach-fields id r s).1
      ∙ lookup-removed r.target id r.level s info known in
    ground (arith, there, works, sent, peers)

pub find-close_self :
    (w : World) (id : ℕ) (r : Receiver) (s : Holder)
    → find id s.channels ≡ some r
    → r.closing ≡ 0
    → is_error (w.write_error id) ≡ false
    → (q : Receiver) × (find id (close w id s).1.channels ≡ some q)
      × (q.target ≡ r.target)
      × (q.level ≡ r.level)
unfolding close write
find-close_self w id r s there works sent =
    let q : Receiver = record r { closing = (detach id r s).next_op_id } in
    (q, ground (arith, there, works, sent, find-put id id q (detach id r s).channels), refl, refl)
