-- ===== src/ChannelHolder/Reachable.antt =====
-- The states of a channel holder under any calls, answers of the channels and messages.
use schneeflocke.Base.{
  ℕ, ◌≤◌, ◌≡◌, ◌⊎◌, refl, Bool, false, some, Option-cases, inl, inr, List, ◌==◌, Bytes, lookup,
  arith,
}
use schneeflocke.Base.Ids.{find}
use schneeflocke.ChannelHolder.{
  Receiver, Holder, World, Written, new_holder, close, add, send, close_channels_to_host,
  close_redundant_channels_to_host, on_close_channel_error, find_channel, find_best_channel,
  find_best_channel_level, set_host_id, set_channel_timeout,
}
use schneeflocke.ChannelHolder.Adding.{add-IsSound}
use schneeflocke.ChannelHolder.Incoming.{
  Incoming, on_channel_change, on_check_for_timeouted_channels, force_clear,
}
use schneeflocke.ChannelHolder.Invariant.{
  IsSound, Like-IsSound, close-IsSound, close_channels-IsSound, close_redundant-IsSound,
}
use schneeflocke.ChannelHolder.Handling.{
  send-IsSound, change-IsSound, time_out-IsSound, clear-IsSound,
}
use schneeflocke.ChannelHolder.Peers.{Live}
use schneeflocke.Error.{Error}

-- One call. The time of a closing operation runs out only while its channel is closing.
pub data Step (s : Holder) : Holder → Type 0 where
  sets_host : (host : Bytes) → Step s (set_host_id host s)
  sets_timeout : (ms : ℕ) → Step s (set_channel_timeout ms s)
  adds :
      (w : World) (target : Bytes) (requested : Bool) (level id : ℕ) (t : Holder)
      → add w target requested level s ≡ some (id, t)
      → Step s t
  closes : (w : World) (id : ℕ) → Step s (close w id s).1
  closes_host : (w : World) (host : Bytes) → Step s (close_channels_to_host w host s).1
  closes_redundant :
      (w : World) (host : Bytes) → Step s (close_redundant_channels_to_host w host s).1
  sends :
      (w : World) (id : ℕ) (d : Written) (encoded high_level : Bool)
      → Step s (send w id d encoded high_level s).1
  changes :
      (w : World) (id : ℕ) (e : Error) (l : List Incoming) (t : Holder)
      → on_channel_change w id e l s ≡ some t
      → Step s t
  checks : (w : World) → Step s (on_check_for_timeouted_channels w s)
  times_out :
      (id : ℕ) (r : Receiver)
      → find id s.channels ≡ some r
      → (r.closing == 0) ≡ false
      → Step s (on_close_channel_error id s)
  clears : (w : World) → Step s (force_clear w s).1

pub data Reach : Holder → Type 0 where
  fresh : Reach new_holder
  next : {s t : Holder} → Reach s → Step s t → Reach t

new_holder-IsSound : IsSound new_holder
unfolding lookup find
new_holder-IsSound = record { peers_sound = λ host info e. cc; ids_used = λ id r e. cc }

Step-IsSound : {s t : Holder} → Step s t → IsSound s → IsSound t
unfolding set_host_id set_channel_timeout on_check_for_timeouted_channels
Step-IsSound {s} (sets_host host) h = Like-IsSound s _ (refl, refl, refl) h
Step-IsSound {s} (sets_timeout ms) h = Like-IsSound s _ (refl, refl, refl) h
Step-IsSound {s} (adds w target requested level id t run) h =
    add-IsSound w target requested level s t id run h
Step-IsSound {s} (closes w id) h = close-IsSound w id s h
Step-IsSound {s} (closes_host w host) h = close_channels-IsSound w host s h
Step-IsSound {s} (closes_redundant w host) h = close_redundant-IsSound w host s h
Step-IsSound {s} (sends w id d encoded high_level) h = send-IsSound w id d encoded high_level s h
Step-IsSound {s} (changes w id e l t run) h = change-IsSound w id e l s t run h
Step-IsSound {s} (checks w) h = Like-IsSound s _ (ground arith) h
Step-IsSound {s} (times_out id r there closing) h = time_out-IsSound id r s there closing h
Step-IsSound {s} (clears w) h = clear-IsSound w s

pub Reach-IsSound : {s : Holder} → Reach s → IsSound s
Reach-IsSound fresh = new_holder-IsSound
Reach-IsSound (next r step) = Step-IsSound step (Reach-IsSound r)

-- In every reachable state, the channel that `findBestChannel` gives is 0 or an open channel to that
-- host of the level that `findBestChannelLevel` gives; the one that `findChannel` gives for a level
-- is 0 or an open channel to that host of this level, which is not above the best one.
pub Reach-find :
    (s : Holder) (host : Bytes) (level : ℕ)
    → Reach s
    → ((find_best_channel host s ≡ 0)
        ⊎ Live s.channels host (find_best_channel_level host s) (find_best_channel host s))
      × ((find_channel host level s ≡ 0)
          ⊎ (Live s.channels host level (find_channel host level s)
              × (level ≤ find_best_channel_level host s)))
unfolding find_best_channel find_best_channel_level find_channel
Reach-find s host level r =
    let h = Reach-IsSound r in
    elim (Option-cases (lookup host s.peers)) [
      | inl unknown ↦ rw (unknown, find_channel, find_best_channel) (inl refl, inl refl)
      | inr (info, known) ↦
          let p = h.peers_sound host info known in
          rw (known, find_channel, find_best_channel, find_best_channel_level)
            (
              p.best,
              elim (Option-cases (find level info.channels)) [
                | inl free ↦ inl (rw free refl)
                | inr (id, there) ↦
                    rw there (inr (p.listed level id there, p.highest_best level id there))
              ],
            )
    ]
