-- ===== src/ChannelHolder/Faults.antt =====
-- What becomes of the entry of a level when two channels meet there.
use schneeflocke.Base.{
  List, ℕ, ◌≡◌, refl, ◌∙◌, Bool, true, false, none, some, ◌==◌, Bytes, lookup, arith,
}
use schneeflocke.Base.Ids.{find, find-put, find-remove}
use schneeflocke.Error.{Error, is_error}
use schneeflocke.ChannelHolder.{
  Receiver, PeerInfo, Holder, World, close, write, add, detach, peer_at, gives_way, remove_channel,
  find_channel,
}
use schneeflocke.ChannelHolder.Adding.{entered, fresh_receiver}
use schneeflocke.ChannelHolder.Incoming.{Incoming, on_channel_change, is_not_enough}
use schneeflocke.ChannelHolder.Invariant.{IsSound, detach-fields, find-close}
use schneeflocke.ChannelHolder.Peers.{Live}
use schneeflocke.ChannelHolder.Entries.{channel_in, find_channel_lem, find_channel-close}

-- A second channel of a level gives way to the first one if the first has no error, and the second
-- was requested and the holder's own id is the lower one, or was not requested and it is the higher
-- one. Then it takes the first one's entry with it: the first is still open, but is not found by its
-- level any more.
pub add-rejected_fault :
    (w : World) (s : Holder) (host : Bytes) (requested : Bool) (level old : ℕ) (info : PeerInfo)
    → IsSound s
    → lookup host s.peers ≡ some info
    → find level info.channels ≡ some old
    → gives_way w old s.host_id host requested ≡ true
    → (id : ℕ) × (t : Holder) × (add w host requested level s ≡ some (id, t))
      × Live t.channels host level old
      × (find_channel host level s ≡ old)
      × (find_channel host level t ≡ 0)
unfolding add peer_at
add-rejected_fault w s host requested level old info h known there gives =
    let r = fresh_receiver w host requested level in
    let n = s.next_channel_id in
    let t0 = entered n r s in
    let (x, f, z, ta, l) = (h.peers_sound host info known).listed level old there in
    let fresh : (n == old) ≡ false = ground (arith, h.ids_used old x f) in
    let f0 : find old t0.channels ≡ some x =
      ground (arith, find-put n old r s.channels, fresh, f) in
    let mine : find n t0.channels ≡ some r = ground (arith, find-put n n r s.channels) in
    (
      n,
      (close w n t0).1,
      ground (arith, known, there, f0, gives),
      (x, find-close w n old t0 fresh ∙ f0, z, ta, l),
      find_channel_lem host level s ∙ rw (known, channel_in, there) refl,
      find_channel_lem host level _ ∙ find_channel-close w n r t0 mine refl,
    )

-- When what came in cannot be read, and the other host cannot be told so, `close` removes the open
-- channel at once, and `onChannelChange` then asks the removed channel for its error.
pub change-unreadable_fault :
    (w : World) (s : Holder) (id : ℕ) (r : Receiver) (e : Error) (l : List Incoming)
    → find id s.channels ≡ some r
    → r.closing ≡ 0
    → is_error (w.write_error id) ≡ true
    → is_not_enough e ≡ false
    → on_channel_change w id e l s ≡ none
unfolding on_channel_change close write remove_channel
change-unreadable_fault w s id r e l there works lost bad = ground (
  arith,
  there,
  works,
  lost,
  bad,
  (detach-fields id r s).0,
  (detach-fields id r (detach id r s)).0,
  find-remove id id s.channels,
  find-remove id id (detach id r s).channels,
)
