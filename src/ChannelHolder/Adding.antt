-- ===== src/ChannelHolder/Adding.antt =====
-- A new channel, and calls that leave the peers alone, keep the entries of the peers true.
use schneeflocke.Base.{
  ℕ, ◌+◌, ◌<◌, ◌≡◌, ◌⊎◌, refl, sym, ap, subst, ◌∙◌, Bool, true, false, some, Option-cases,
  Bool-cases, inl, inr, if◌then◌else◌, ltb, ◌==◌, ==_iff, Bytes, Map, same, same_iff, same_refl,
  lookup, insert, lookup-insert, arith,
}
use schneeflocke.Base.Ids.{IdMap, find, put, find-put}
use schneeflocke.ChannelHolder.{
  Receiver, PeerInfo, Holder, World, close, register, add, peer_at, gives_way,
}
use schneeflocke.ChannelHolder.Peers.{Live, IsSoundPeer, AreSound, StayLive, IsSoundPeer-StayLive}
use schneeflocke.ChannelHolder.Invariant.{IsSound, close-IsSound, find-close}

-- A channel that is changed but stays what it is for its peer.
put-StayLive :
    (id : ℕ) (r q : Receiver) (c : IdMap Receiver)
    → find id c ≡ some r
    → (q.closing ≡ r.closing) × (q.target ≡ r.target) × (q.level ≡ r.level)
    → StayLive c (put id q c)
put-StayLive id r q c there (z, t, l) host level j (x, f, xz, xt, xl) =
    elim (Bool-cases (id == j)) [
      | inr other ↦ (x, ground (arith, find-put id j q c, other, f), xz, xt, xl)
      | inl here ↦
          let is_x : x ≡ r =
            ground (arith, f, there, ap (λ (k : ℕ). find k c) ((==_iff id j).0 here)) in
          (
            q,
            ground (arith, find-put id j q c, here),
            z ∙ sym (ap (λ (y : Receiver). y.closing) is_x) ∙ xz,
            t ∙ sym (ap (λ (y : Receiver). y.target) is_x) ∙ xt,
            l ∙ sym (ap (λ (y : Receiver). y.level) is_x) ∙ xl,
          )
    ]

ids-put :
    (id n : ℕ) (q : Receiver) (c : IdMap Receiver)
    → id < n
    → ((j : ℕ) (x : Receiver) → find j c ≡ some x → j < n)
    → (j : ℕ) (x : Receiver) → find j (put id q c) ≡ some x
    → j < n
ids-put id n q c lt h j x e = elim (Bool-cases (id == j)) [
  | inl here ↦ subst (λ (k : ℕ). k < n) ((==_iff id j).0 here) lt
  | inr other ↦ h j x (ground (arith, find-put id j q c, other, e))
]

pub touched-IsSound :
    (id : ℕ) (r q : Receiver) (s : Holder)
    → find id s.channels ≡ some r
    → (q.closing ≡ r.closing) × (q.target ≡ r.target) × (q.level ≡ r.level)
    → IsSound s
    → IsSound (record s { channels = put id q s.channels })
touched-IsSound id r q s there like h = record {
  peers_sound = λ host info e.
      IsSoundPeer-StayLive s.channels (put id q s.channels) host info
        (put-StayLive id r q s.channels there like) (h.peers_sound host info e);
  ids_used = ids-put id s.next_channel_id q s.channels (h.ids_used id r there) h.ids_used;
}

insert-AreSound :
    (c : IdMap Receiver) (host : Bytes) (info : PeerInfo) (peers : Map PeerInfo)
    → AreSound c peers
    → IsSoundPeer c host info
    → AreSound c (insert host info peers)
insert-AreSound c host info peers h p other i e = elim (Bool-cases (same host other)) [
  | inr differs ↦ h other i (ground (arith, lookup-insert host other info peers, differs, e))
  | inl here ↦
      let is_info : info ≡ i = ground (arith, lookup-insert host other info peers, here, e) in
      subst (λ (x : PeerInfo). IsSoundPeer c other x) is_info
        (subst (λ (x : Bytes). IsSoundPeer c x info) ((same_iff host other).0 here) p)
]

peer_at-IsSoundPeer :
    (target : Bytes) (s : Holder) → IsSound s → IsSoundPeer s.channels target (peer_at target s)
unfolding peer_at find
peer_at-IsSoundPeer target s h = elim (Option-cases (lookup target s.peers)) [
  | inr (info, there) ↦ rw (there, peer_at) (h.peers_sound target info there)
  | inl new ↦
      rw (new, peer_at)
        (record { listed = λ level id e. cc; highest_best = λ level id e. cc; best = inl refl })
]

-- The holder once the new channel and its peer are in the maps.
abbrev pub entered : ℕ → Receiver → Holder → Holder
entered id r s = record s {
  channels = put id r s.channels;
  next_channel_id = id + 1;
  peers = insert r.target (peer_at r.target s) s.peers;
}

entered-IsSound : (r : Receiver) (s : Holder) → IsSound s → IsSound (entered s.next_channel_id r s)
entered-IsSound r s h =
    let id = s.next_channel_id in
    let stay : StayLive s.channels (put id r s.channels) = λ host level j (x, f, z, t, l).
      (x, ground (arith, find-put id j r s.channels, f, h.ids_used j x f), z, t, l) in
    record {
      peers_sound =
          insert-AreSound (put id r s.channels) r.target (peer_at r.target s) s.peers
            (λ host info e.
              IsSoundPeer-StayLive s.channels _ host info stay (h.peers_sound host info e))
            (IsSoundPeer-StayLive s.channels _ r.target _ stay (peer_at-IsSoundPeer r.target s h));
      ids_used =
          ids-put id (id + 1) r s.channels (omega arith) (λ j x e. omega (arith, h.ids_used j x e));
    }

abbrev pub listed_at : ℕ → ℕ → PeerInfo → PeerInfo
listed_at level id info =
    if ltb info.best_level level
    then record { best_channel = id; best_level = level; channels = put level id info.channels }
    else record info { channels = put level id info.channels }

listed_at-IsSoundPeer :
    (c : IdMap Receiver) (host : Bytes) (level id : ℕ) (info : PeerInfo)
    → IsSoundPeer c host info
    → Live c host level id
    → IsSoundPeer c host (listed_at level id info)
listed_at-IsSoundPeer c host level id info p live = elim (Bool-cases (ltb info.best_level level)) [
  | inl above ↦ rw above (record {
    listed = listed_one;
    highest_best = λ l j e. elim (found l j e) [
      | inl (here, _) ↦ omega (arith, here)
      | inr there ↦ ground (arith, above, p.highest_best l j there)
    ];
    best = inr live;
  })
  | inr below ↦ rw below (record {
    listed = listed_one;
    highest_best = λ l j e. elim (found l j e) [
      | inl (here, _) ↦ ground (arith, here, below)
      | inr there ↦ p.highest_best l j there
    ];
    best = p.best;
  })
]
  where
    found :
        (l j : ℕ)
        → find l (put level id info.channels) ≡ some j
        → ((level ≡ l) × (id ≡ j)) ⊎ (find l info.channels ≡ some j)
    found l j e = elim (Bool-cases (level == l)) [
      | inl here ↦
          inl ((==_iff level l).0 here, ground (arith, find-put level l id info.channels, here, e))
      | inr other ↦ inr (ground (arith, find-put level l id info.channels, other, e))
    ]

    listed_one : (l j : ℕ) → find l (put level id info.channels) ≡ some j → Live c host l j
    listed_one l j e = elim (found l j e) [
      | inl (here, me) ↦
          subst (λ (x : ℕ). Live c host x j) here (subst (λ (x : ℕ). Live c host level x) me live)
      | inr there ↦ p.listed l j there
    ]

register-IsSound :
    (id : ℕ) (r : Receiver) (info : PeerInfo) (s : Holder)
    → find id s.channels ≡ some r
    → r.closing ≡ 0
    → IsSoundPeer s.channels r.target info
    → IsSound s
    → IsSound (register id r info s)
unfolding register
register-IsSound id r info s there open_one p h =
    let q : Receiver = record r { listening = true } in
    let d = put id q s.channels in
    let stay = put-StayLive id r q s.channels there (refl, refl, refl) in
    let live : Live d r.target r.level id =
      (q, ground (arith, find-put id id q s.channels), open_one, refl, refl) in
    let t = touched-IsSound id r q s there (refl, refl, refl) h in
    record {
      peers_sound = insert-AreSound d r.target (listed_at r.level id info) s.peers t.peers_sound (
          listed_at-IsSoundPeer d r.target r.level id info
            (IsSoundPeer-StayLive s.channels d r.target info stay p) live);
      ids_used = t.ids_used;
    }

abbrev pub fresh_receiver : World → Bytes → Bool → ℕ → Receiver
fresh_receiver w target requested level = record {
  listening = false;
  target = target;
  closing = 0;
  requested = requested;
  level = level;
  utime = w.now;
}

pub add-IsSound :
    (w : World) (target : Bytes) (requested : Bool) (level : ℕ) (s t : Holder) (id : ℕ)
    → add w target requested level s ≡ some (id, t)
    → IsSound s
    → IsSound t
unfolding add
add-IsSound w target requested level s t id run h =
    let r = fresh_receiver w target requested level in
    let info = peer_at target s in
    let n = s.next_channel_id in
    let t0 = entered n r s in
    let h0 = entered-IsSound r s h in
    let p : IsSoundPeer t0.channels target info =
      h0.peers_sound target info
        (ground (arith, lookup-insert target target info s.peers, same_refl target)) in
    let there : find n t0.channels ≡ some r = ground (arith, find-put n n r s.channels) in
    elim (Option-cases (find level info.channels)) [
      | inl free ↦
          subst IsSound {x = register n r info t0} {y = t} (ground (arith, run, free))
            (register-IsSound n r info t0 there refl p h0)
      | inr (old, taken) ↦
          let (x, f, z, ta, l) = (peer_at-IsSoundPeer target s h).listed level old taken in
          let other : (old == n) ≡ false = ground (arith, h.ids_used old x f) in
          let f0 : find old t0.channels ≡ some x =
            ground (arith, find-put n old r s.channels, other, f) in
          elim (Bool-cases (gives_way w old s.host_id target requested)) [
            | inl gives ↦
                subst IsSound {x = (close w n t0).1} {y = t} (ground (arith, run, taken, f0, gives))
                  (close-IsSound w n t0 h0)
            | inr takes ↦
                let u = (close w old t0).1 in
                let hu = close-IsSound w old t0 h0 in
                elim (Option-cases (lookup target u.peers)) [
                  | inl gone ↦ absurd (ground (arith, run, taken, f0, takes, gone))
                  | inr (info', found) ↦
                      subst IsSound {x = register n r info' u} {y = t}
                        (ground (arith, run, taken, f0, takes, found))
                        (register-IsSound n r info' u (find-close w old n t0 other ∙ there) refl
                          (hu.peers_sound target info' found) hu)
                ]
          ]
    ]
