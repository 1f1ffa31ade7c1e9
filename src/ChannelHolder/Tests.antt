-- ===== src/ChannelHolder/Tests.antt =====
-- Two channels to one host, and the theorems there.
use schneeflocke.Base.{
  ℕ, ◌≤◌, ◌≡◌, ◌⊎◌, refl, true, false, none, some, [], ◌∷◌, Bytes, codes, same, lookup, insert,
  erase,
}
use schneeflocke.Base.Ids.{find, put, remove, highest}
use schneeflocke.ChannelHolder.{
  Receiver, PeerInfo, Posted, Holder, World, Written, new_holder, close, write, add, detach,
  gives_way, without_level, remove_channel_peer_connection, find_channel, find_best_channel, send,
  find_best_channel_level, on_received_close_channel, remove_channel,
}
use schneeflocke.ChannelHolder.Faults.{add-rejected_fault, change-unreadable_fault}
use schneeflocke.ChannelHolder.Incoming.{on_channel_change, is_not_enough}
use schneeflocke.ChannelHolder.Peers.{Live}
use schneeflocke.ChannelHolder.Reachable.{Step, Reach, Reach-IsSound, Reach-find}
use schneeflocke.Error.{Error}

abbrev calm : World
calm = record { write_error = λ _. Error.no_error; channel_error = λ _. false; now = 5 }

abbrev bob : Bytes
bob = codes "bob"

abbrev to_bob : ℕ → Receiver
to_bob level = record {
  listening = true;
  target = bob;
  closing = 0;
  requested = false;
  level = level;
  utime = 5;
}

abbrev slow : Holder
slow = record new_holder {
  channels = record { key = 1; value = to_bob 1 } ∷ [];
  next_channel_id = 2;
  peers =
      record {
        key = bob;
        value = record {
          best_channel = 1;
          best_level = 1;
          channels = record { key = 1; value = 1 } ∷ [];
        };
      }
      ∷ [];
  posted = Posted.change 1 ∷ [];
}

abbrev both_channels : PeerInfo
both_channels = record {
  best_channel = 2;
  best_level = 9;
  channels = record { key = 1; value = 1 } ∷ record { key = 9; value = 2 } ∷ [];
}

abbrev fast : Holder
fast = record slow {
  channels = record { key = 1; value = to_bob 1 } ∷ record { key = 2; value = to_bob 9 } ∷ [];
  next_channel_id = 3;
  peers = record { key = bob; value = both_channels } ∷ [];
  posted = Posted.change 1 ∷ Posted.change 2 ∷ [];
}

adds_slow : add calm bob false 1 new_holder ≡ some (1, slow)
unfolding add lookup insert find put same
adds_slow = refl

adds_fast : add calm bob false 9 slow ≡ some (2, fast)
unfolding add lookup insert find put same
adds_fast = refl

fast_reached : Reach fast
fast_reached =
    Reach.next (Reach.next Reach.fresh (Step.adds calm bob false 1 1 slow adds_slow))
      (Step.adds calm bob false 9 2 fast adds_fast)

finds_both : (find_channel bob 1 fast ≡ 1) × (find_best_channel bob fast ≡ 2)
unfolding find_channel find_best_channel lookup find same
finds_both = (refl, refl)

-- The channel that is closing is refused, and gone once the other host answers.
closing_refuses :
    ((send calm 2 (Written.datagram 2) true true (close calm 2 fast).1).0 ≡ Error.closed)
    × (find 2 (on_received_close_channel calm 2 (close calm 2 fast).1).channels ≡ none)
    × (find_best_channel bob (close calm 2 fast).1 ≡ 1)
unfolding close send write detach on_received_close_channel remove_channel find_best_channel
    without_level remove_channel_peer_connection lookup insert erase find put remove highest same
closing_refuses = (refl, refl, refl)

Reach-find_example :
    ((find_best_channel bob fast ≡ 0)
      ⊎ Live fast.channels bob (find_best_channel_level bob fast) (find_best_channel bob fast))
    × ((find_channel bob 1 fast ≡ 0)
        ⊎ (Live fast.channels bob 1 (find_channel bob 1 fast)
            × (1 ≤ find_best_channel_level bob fast)))
Reach-find_example = Reach-find fast bob 1 fast_reached

add-rejected_fault_example :
    (id : ℕ) × (t : Holder) × (add calm bob true 1 fast ≡ some (id, t))
    × Live t.channels bob 1 1
    × (find_channel bob 1 fast ≡ 1)
    × (find_channel bob 1 t ≡ 0)
unfolding lookup find same gives_way
add-rejected_fault_example =
    add-rejected_fault calm fast bob true 1 1 both_channels (Reach-IsSound fast_reached) refl refl
      refl

-- The connection is gone.
abbrev broken_world : World
broken_world = record {
  write_error = λ _. Error.connection_error;
  channel_error = λ _. true;
  now = 6;
}

change-unreadable_fault_example : on_channel_change broken_world 2 Error.bad_protocol [] fast ≡ none
unfolding find is_not_enough
change-unreadable_fault_example =
    change-unreadable_fault broken_world fast 2 (to_bob 9) Error.bad_protocol [] refl refl refl refl
