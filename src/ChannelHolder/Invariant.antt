-- ===== src/ChannelHolder/Invariant.antt =====
-- Every operation keeps the entries of the peers true.
use mathlib.Core.List.{reverse}
use schneeflocke.Base.{
  ℕ, ◌<◌, ◌≡◌, refl, sym, ap, subst, ◌∙◌, false, some, Option-cases, Bool-cases, inl, inr, List, [],
  ◌∷◌, ◌==◌, ==_iff, Bytes, Map, lookup, arith,
}
use schneeflocke.Base.Ids.{IdMap, Numbered, find, put, remove, find-put, find-remove}
use schneeflocke.ChannelHolder.{
  Receiver, PeerInfo, Holder, World, Written, remove_channel_peer_connection, detach,
  remove_channel, write, close, close_all, rest_of, close_channels_to_host,
  close_redundant_channels_to_host, on_received_close_channel, without_op,
}
use schneeflocke.ChannelHolder.Peers.{IsSoundPeer, AreSound, AgreeBut, removed-AreSound}
use schneeflocke.Error.{is_error}

pub record IsSound (s : Holder) : Type 0 where
  pub peers_sound : AreSound s.channels s.peers
  pub ids_used : (id : ℕ) (r : Receiver) → find id s.channels ≡ some r → id < s.next_channel_id

-- The fields that the invariant speaks of.
abbrev pub Like : Holder → IdMap Receiver → Map PeerInfo → ℕ → Type 0
Like t channels peers next =
    (t.channels ≡ channels) × (t.peers ≡ peers) × (t.next_channel_id ≡ next)

pub Like-IsSound :
    (s t : Holder) → Like t s.channels s.peers s.next_channel_id → IsSound s → IsSound t
Like-IsSound s t (c, p, n) h = record {
  peers_sound = λ host info e.
      subst (λ (x : IdMap Receiver). IsSoundPeer x host info) (sym c)
        (h.peers_sound host info (ap (λ (m : Map PeerInfo). lookup host m) (sym p) ∙ e));
  ids_used = λ id r e.
      subst (λ (k : ℕ). id < k) (sym n)
        (h.ids_used id r (ap (λ (m : IdMap Receiver). find id m) (sym c) ∙ e));
}

agree-remove : (id : ℕ) (c : IdMap Receiver) → AgreeBut id c (remove id c)
agree-remove id c j other = ground (arith, find-remove id j c, other)

agree-put : (id : ℕ) (r : Receiver) (c : IdMap Receiver) → AgreeBut id c (put id r c)
agree-put id r c j other = ground (arith, find-put id j r c, other)

-- A channel that is taken away from its peer, and changed or removed.
detached-IsSound :
    (id : ℕ) (r : Receiver) (s t : Holder) (d : IdMap Receiver)
    → find id s.channels ≡ some r
    → AgreeBut id s.channels d
    → Like t d (remove_channel_peer_connection r.target id r.level s).1.peers s.next_channel_id
    → IsSound s
    → IsSound t
detached-IsSound id r s t d there agree like h =
    Like-IsSound
      (record s {
        channels = d;
        peers = (remove_channel_peer_connection r.target id r.level s).1.peers;
      })
      t like
      (record {
        peers_sound = removed-AreSound id r s.channels d there agree s h.peers_sound;
        ids_used = λ j q e. elim (Bool-cases (id == j)) [
          | inl same_id ↦
              subst (λ (k : ℕ). k < s.next_channel_id) ((==_iff id j).0 same_id)
                (h.ids_used id r there)
          | inr other ↦ h.ids_used j q (sym (agree j other) ∙ e)
        ];
      })

pub detach-fields :
    (id : ℕ) (r : Receiver) (s : Holder)
    → Like
        (detach id r s)
        s.channels
        (remove_channel_peer_connection r.target id r.level s).1.peers
        s.next_channel_id
unfolding detach remove_channel_peer_connection
detach-fields id r s = ground arith

pub remove_channel-IsSound : (id : ℕ) (s : Holder) → IsSound s → IsSound (remove_channel id s).1
unfolding remove_channel
remove_channel-IsSound id s h = elim (Option-cases (find id s.channels)) [
  | inl missing ↦ Like-IsSound s _ (ground (arith, missing)) h
  | inr (r, there) ↦
      let (c, p, n) = detach-fields id r s in
      detached-IsSound id r s _ (remove id s.channels) there (agree-remove id s.channels)
        (ground (arith, there, c, p, n)) h
]

-- The closing operation is noted in the channel.
closing-IsSound :
    (w : World) (id : ℕ) (s : Holder) (r : Receiver)
    → find id s.channels ≡ some r
    → IsSound s
    → IsSound (close w id s).1
unfolding close write
closing-IsSound w id s r there h = elim (Bool-cases (r.closing == 0)) [
  | inr twice ↦ Like-IsSound s _ (ground (arith, there, twice)) h
  | inl first ↦ elim (Bool-cases (is_error (w.write_error id))) [
    | inl lost ↦
        subst IsSound {x = (remove_channel id (detach id r s)).1} {y = (close w id s).1}
          (ground (arith, there, first, lost))
          (remove_channel-IsSound id (detach id r s) (
            detached-IsSound id r s (detach id r s) s.channels there (λ j other. refl)
              (detach-fields id r s) h))
    | inr sent ↦
        let (c, p, n) = detach-fields id r s in
        detached-IsSound id r s _
          (put id (record r { closing = (detach id r s).next_op_id }) s.channels) there
          (agree-put id _ s.channels) (ground (arith, there, first, sent, c, p, n)) h
  ]
]

pub close-IsSound : (w : World) (id : ℕ) (s : Holder) → IsSound s → IsSound (close w id s).1
close-IsSound w id s h = elim (Option-cases (find id s.channels)) [
  | inl missing ↦ Like-IsSound s _ (unfold close in ground (arith, missing)) h
  | inr (r, there) ↦ closing-IsSound w id s r there h
]

close_all-IsSound :
    (w : World) (l : List (Numbered ℕ)) (s : Holder) → IsSound s → IsSound (close_all w l s)
unfolding close_all
close_all-IsSound w [] s h = h
close_all-IsSound w (e ∷ l) s h = close_all-IsSound w l _ (close-IsSound w e.value s h)

pub close_channels-IsSound :
    (w : World) (host : Bytes) (s : Holder)
    → IsSound s
    → IsSound (close_channels_to_host w host s).1
unfolding close_channels_to_host
close_channels-IsSound w host s h = elim (Option-cases (lookup host s.peers)) [
  | inl missing ↦ Like-IsSound s _ (ground (arith, missing)) h
  | inr (info, there) ↦
      subst IsSound {x = close_all w info.channels s} {y = (close_channels_to_host w host s).1}
        (ground (arith, there)) (close_all-IsSound w info.channels s h)
]

pub close_redundant-IsSound :
    (w : World) (host : Bytes) (s : Holder)
    → IsSound s
    → IsSound (close_redundant_channels_to_host w host s).1
unfolding close_redundant_channels_to_host
close_redundant-IsSound w host s h = elim (Option-cases (lookup host s.peers)) [
  | inl missing ↦ Like-IsSound s _ (ground (arith, missing)) h
  | inr (info, there) ↦
      let l = rest_of (reverse info.channels) in
      subst IsSound {x = close_all w l s} {y = (close_redundant_channels_to_host w host s).1}
        (ground (arith, there)) (close_all-IsSound w l s h)
]

pub received_close-IsSound :
    (w : World) (id : ℕ) (s : Holder) → IsSound s → IsSound (on_received_close_channel w id s)
unfolding on_received_close_channel write
received_close-IsSound w id s h = elim (Option-cases (find id s.channels)) [
  | inl missing ↦ Like-IsSound s _ (ground (arith, missing)) h
  | inr (r, there) ↦ elim (Bool-cases (r.closing == 0)) [
    | inl asked ↦
        let t = (write w (Written.close_channel id) id s).1 in
        subst IsSound {x = (remove_channel id t).1} {y = on_received_close_channel w id s}
          (ground (arith, there, asked))
          (remove_channel-IsSound id t (Like-IsSound s t (ground arith) h))
    | inr answer ↦
        let t = record s { ops = without_op r.closing s.ops } in
        subst IsSound {x = (remove_channel id t).1} {y = on_received_close_channel w id s}
          (ground (arith, there, answer))
          (remove_channel-IsSound id t (Like-IsSound s t (refl, refl, refl) h))
  ]
]

pub find-remove_channel :
    (id j : ℕ) (s : Holder)
    → (id == j) ≡ false
    → find j (remove_channel id s).1.channels ≡ find j s.channels
unfolding remove_channel
find-remove_channel id j s other = elim (Option-cases (find id s.channels)) [
  | inl missing ↦ ground (arith, missing)
  | inr (r, there) ↦
      ground (arith, there, (detach-fields id r s).0, find-remove id j s.channels, other)
]

-- Closing a channel leaves every other one as it is.
pub find-close :
    (w : World) (id j : ℕ) (s : Holder)
    → (id == j) ≡ false
    → find j (close w id s).1.channels ≡ find j s.channels
unfolding close write
find-close w id j s other = elim (Option-cases (find id s.channels)) [
  | inl missing ↦ ground (arith, missing)
  | inr (r, there) ↦
      let q : Receiver = record r { closing = (detach id r s).next_op_id } in
      ground (
        arith,
        there,
        (detach-fields id r s).0,
        find-put id j q s.channels,
        find-remove_channel id j (detach id r s),
        other,
      )
]
