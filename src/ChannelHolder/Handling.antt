-- ===== src/ChannelHolder/Handling.antt =====
-- What comes in, what is sent and what is cleared keeps the entries of the peers true.
use schneeflocke.Base.{
  ℕ, ◌≡◌, refl, ap, subst, Bool, true, false, none, some, Option-cases, Bool-cases, inl, inr, List,
  [], ◌∷◌, if◌then◌else◌, ◌==◌, ==_iff, Bytes, lookup, arith,
}
use schneeflocke.Base.Ids.{find, put, remove, find-remove}
use schneeflocke.ChannelHolder.{
  Receiver, CloseOp, Holder, World, Written, close, write, send, on_close_channel_error,
}
use schneeflocke.ChannelHolder.Adding.{touched-IsSound}
use schneeflocke.ChannelHolder.Incoming.{
  Incoming, handle, handle_all, touch, on_channel_change, force_clear, throw_all, cancel_ops,
  is_not_enough,
}
use schneeflocke.ChannelHolder.Invariant.{
  IsSound, Like, Like-IsSound, close-IsSound, received_close-IsSound,
}
use schneeflocke.ChannelHolder.Peers.{IsSoundPeer-StayLive, StayLive}
use schneeflocke.Error.{Error}

touch-IsSound : (w : World) (id : ℕ) (s : Holder) → IsSound s → IsSound (touch w id s)
unfolding touch
touch-IsSound w id s h = elim (Option-cases (find id s.channels)) [
  | inl missing ↦ Like-IsSound s _ (ground (arith, missing)) h
  | inr (r, there) ↦
      let q : Receiver = record r { utime = w.now } in
      subst IsSound {x = record s { channels = put id q s.channels }} {y = touch w id s}
        (ground (arith, there)) (touched-IsSound id r q s there (refl, refl, refl) h)
]

written-IsSound :
    (w : World) (d : Written) (id : ℕ) (s : Holder) → IsSound s → IsSound (write w d id s).1
unfolding write
written-IsSound w d id s h = Like-IsSound s _ (ground arith) h

pub send-IsSound :
    (w : World) (id : ℕ) (d : Written) (encoded high_level : Bool) (s : Holder)
    → IsSound s
    → IsSound (send w id d encoded high_level s).1
unfolding send
send-IsSound w id d encoded high_level s h = elim (Option-cases (find id s.channels)) [
  | inl missing ↦ Like-IsSound s _ (ground (arith, missing)) h
  | inr (r, there) ↦ elim (Bool-cases (r.closing == 0)) [
    | inr closing ↦ Like-IsSound s _ (ground (arith, there, closing)) h
    | inl works ↦ elim (Bool-cases encoded) [
      | inr large ↦ Like-IsSound s _ (ground (arith, there, works, large)) h
      | inl fits ↦ elim (Bool-cases high_level) [
        | inr low ↦
            subst IsSound {x = (write w d id s).1} {y = (send w id d encoded high_level s).1}
              (unfold write in ground (arith, there, works, fits, low)) (written-IsSound w d id s h)
        | inl high ↦
            let q : Receiver = record r { utime = w.now } in
            let t = record s { channels = put id q s.channels } in
            subst IsSound {x = (write w d id t).1} {y = (send w id d encoded high_level s).1}
              (unfold write in ground (arith, there, works, fits, high))
              (written-IsSound w d id t (touched-IsSound id r q s there (refl, refl, refl) h))
      ]
    ]
  ]
]

handle-IsSound :
    (w : World) (id : ℕ) (sender : Bytes) (x : Incoming) (b : Bool) (s : Holder)
    → IsSound s
    → IsSound (handle w id sender x (b, s)).1
unfolding handle
handle-IsSound w id sender Incoming.corrupted b s h = close-IsSound w id s h
handle-IsSound w id sender Incoming.close_command b s h = received_close-IsSound w id s h
handle-IsSound w id sender (Incoming.ping none) b s h = h
handle-IsSound w id sender (Incoming.ping (some n)) b s h =
    send-IsSound w id (Written.pong n) true false s h
handle-IsSound w id sender (Incoming.pong none) b s h = h
handle-IsSound w id sender (Incoming.pong (some n)) b s h = Like-IsSound s _ (refl, refl, refl) h
handle-IsSound w id sender (Incoming.command c) true s h = Like-IsSound s _ (refl, refl, refl) h
handle-IsSound w id sender (Incoming.command c) false s h =
    Like-IsSound (touch w id s) _ (refl, refl, refl) (touch-IsSound w id s h)

handle_all-IsSound :
    (w : World) (id : ℕ) (sender : Bytes) (l : List Incoming) (b : Bool) (s : Holder)
    → IsSound s
    → IsSound (handle_all w id sender l (b, s)).1
unfolding handle_all
handle_all-IsSound w id sender [] b s h = h
handle_all-IsSound w id sender (x ∷ l) b s h =
    handle_all-IsSound w id sender l _ _ (handle-IsSound w id sender x b s h)

close_if-IsSound :
    (w : World) (id : ℕ) (b : Bool) (s : Holder)
    → IsSound s
    → IsSound (if b then (close w id s).1 else s)
close_if-IsSound w id true s h = close-IsSound w id s h
close_if-IsSound w id false s h = h

pub change-IsSound :
    (w : World) (id : ℕ) (e : Error) (l : List Incoming) (s t : Holder)
    → on_channel_change w id e l s ≡ some t
    → IsSound s
    → IsSound t
unfolding on_channel_change
change-IsSound w id e l s t run h = elim (Option-cases (find id s.channels)) [
  | inl missing ↦ subst IsSound {x = s} {y = t} (ground (arith, missing, run)) h
  | inr (r, there) ↦
      let s1 = if is_not_enough e then s else (close w id s).1 in
      let s2 = if w.channel_error id then (close w id s1).1 else s1 in
      let h1 : IsSound s1 = elim (Bool-cases (is_not_enough e)) [
        | inl x ↦ rw x h
        | inr x ↦ rw x (close-IsSound w id s h)
      ] in
      elim (Option-cases (find id s1.channels)) [
        | inl gone ↦ absurd (ground (arith, there, gone, run))
        | inr (q, still) ↦
            subst IsSound {x = (handle_all w id r.target l (false, s2)).1} {y = t}
              (ground (arith, there, still, run))
              (handle_all-IsSound w id r.target l false s2
                (close_if-IsSound w id (w.channel_error id) s1 h1))
      ]
]

pub time_out-IsSound :
    (id : ℕ) (r : Receiver) (s : Holder)
    → find id s.channels ≡ some r
    → (r.closing == 0) ≡ false
    → IsSound s
    → IsSound (on_close_channel_error id s)
unfolding on_close_channel_error
time_out-IsSound id r s there closing h = record {
  peers_sound =
      λ host info e. IsSoundPeer-StayLive s.channels _ host info stay (h.peers_sound host info e);
  ids_used = λ j x e. h.ids_used j x (ground (arith, find-remove id j s.channels, e));
}
  where
    stay : StayLive s.channels (remove id s.channels)
    stay host level j (x, f, z, t, l) = elim (Bool-cases (id == j)) [
      | inr other ↦ (x, ground (arith, find-remove id j s.channels, other, f), z, t, l)
      | inl here ↦ absurd (
          ground
            (arith, there, closing, z, f, ap (λ (k : ℕ). find k s.channels) ((==_iff id j).0 here)))
    ]

cancel_ops-Like :
    (l : List CloseOp) (s : Holder)
    → s.channels ≡ []
    → Like (cancel_ops l s) [] s.peers s.next_channel_id
unfolding cancel_ops on_close_channel_error remove
cancel_ops-Like [] s e = (e, refl, refl)
cancel_ops-Like (o ∷ l) s e =
    cancel_ops-Like l (on_close_channel_error o.channel_id s) (ap (remove o.channel_id) e)

pub clear-IsSound : (w : World) (s : Holder) → IsSound (force_clear w s).1
unfolding force_clear lookup find
clear-IsSound w s =
    let t = record (throw_all w s.channels s) { channels = []; peers = []; ops = [] } in
    Like-IsSound t _ (cancel_ops-Like (throw_all w s.channels s).ops t refl)
      (record { peers_sound = λ host info e. cc; ids_used = λ id r e. cc })
