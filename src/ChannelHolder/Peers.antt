-- ===== src/ChannelHolder/Peers.antt =====
-- What a peer's entry says of the channels, and that taking a channel away keeps it true.
use schneeflocke.Base.{
  ℕ, ◌≤◌, ◌≡◌, ◌⊎◌, sym, ap, subst, ◌∙◌, false, some, Option-cases, Bool-cases, inl, inr, ◌==◌,
  ==_iff, Bytes, Map, same, same_iff, same_refl, lookup, lookup-insert, lookup-erase, arith,
}
use schneeflocke.Base.Ids.{IdMap, find, remove, highest, find-remove, highest-find, highest-le}
use schneeflocke.ChannelHolder.{
  Receiver, PeerInfo, Holder, without_level, remove_channel_peer_connection,
}

-- A channel that is there and not closing, to a host and of a level.
abbrev pub Live : IdMap Receiver → Bytes → ℕ → ℕ → Type 0
Live channels host level id =
    (r : Receiver) × (find id channels ≡ some r)
    × (r.closing ≡ 0)
    × (r.target ≡ host)
    × (r.level ≡ level)

-- What a peer's entry refers to is live, and its best channel has the highest level.
pub record IsSoundPeer (channels : IdMap Receiver) (host : Bytes) (info : PeerInfo) : Type 0 where
  pub listed : (level id : ℕ) → find level info.channels ≡ some id → Live channels host level id
  pub highest_best : (level id : ℕ) → find level info.channels ≡ some id → level ≤ info.best_level
  pub best : (info.best_channel ≡ 0) ⊎ Live channels host info.best_level info.best_channel

abbrev pub AreSound : IdMap Receiver → Map PeerInfo → Type 0
AreSound channels peers =
    (host : Bytes) (info : PeerInfo)
    → lookup host peers ≡ some info
    → IsSoundPeer channels host info

-- Channels that are the same but for one.
abbrev pub AgreeBut : ℕ → IdMap Receiver → IdMap Receiver → Type 0
AgreeBut id c d = (j : ℕ) → (id == j) ≡ false → find j d ≡ find j c

pub Live-AgreeBut :
    (id : ℕ) (c d : IdMap Receiver) (host : Bytes) (level j : ℕ)
    → AgreeBut id c d
    → (id == j) ≡ false
    → Live c host level j
    → Live d host level j
Live-AgreeBut id c d host level j agree other (r, f, z, t, l) = (r, agree j other ∙ f, z, t, l)

-- What is live stays live.
abbrev pub StayLive : IdMap Receiver → IdMap Receiver → Type 0
StayLive c d = (host : Bytes) (level j : ℕ) → Live c host level j → Live d host level j

pub IsSoundPeer-StayLive :
    (c d : IdMap Receiver) (host : Bytes) (info : PeerInfo)
    → StayLive c d
    → IsSoundPeer c host info
    → IsSoundPeer d host info
IsSoundPeer-StayLive c d host info stay p = record {
  listed = λ level j f. stay host level j (p.listed level j f);
  highest_best = p.highest_best;
  best = elim p.best [ inl z ↦ inl z | inr live ↦ inr (stay host _ _ live) ];
}

-- An entry that does not refer to the channel that changes.
pub IsSoundPeer-AgreeBut :
    (id : ℕ) (c d : IdMap Receiver) (host : Bytes) (info : PeerInfo)
    → AgreeBut id c d
    → ((level j : ℕ) → Live c host level j → (id == j) ≡ false)
    → IsSoundPeer c host info
    → IsSoundPeer d host info
IsSoundPeer-AgreeBut id c d host info agree other p = record {
  listed = λ level j f.
      Live-AgreeBut id c d host level j agree (other level j (p.listed level j f))
        (p.listed level j f);
  highest_best = p.highest_best;
  best = elim p.best [
    | inl z ↦ inl z
    | inr live ↦ inr (Live-AgreeBut id c d host _ _ agree (other _ _ live) live)
  ];
}

module _ (id : ℕ) (r : Receiver) (c d : IdMap Receiver) (there : find id c ≡ some r)
    (agree : AgreeBut id c d) where
  -- A live channel to another host or of another level is another channel.
  other_host :
      (host : Bytes)
      → same r.target host ≡ false
      → (level j : ℕ) → Live c host level j
      → (id == j) ≡ false
  other_host host differs level j (q, f, z, t, l) = elim (Bool-cases (id == j)) [
    | inr e ↦ e
    | inl e ↦
        let found : find id c ≡ some q = ap (λ (k : ℕ). find k c) ((==_iff id j).0 e) ∙ f in
        ground (arith, there, found, t, differs, same_iff r.target host)
  ]

  other_level :
      (host : Bytes) (level j : ℕ)
      → (r.level == level) ≡ false
      → Live c host level j
      → (id == j) ≡ false
  other_level host level j differs (q, f, z, t, l) = elim (Bool-cases (id == j)) [
    | inr e ↦ e
    | inl e ↦
        let found : find id c ≡ some q = ap (λ (k : ℕ). find k c) ((==_iff id j).0 e) ∙ f in
        ground (arith, there, found, l, differs)
  ]

  rest_listed :
      (info : PeerInfo) (level j : ℕ)
      → IsSoundPeer c r.target info
      → find level (remove r.level info.channels) ≡ some j
      → ((id == j) ≡ false) × Live d r.target level j × (level ≤ info.best_level)
  rest_listed info level j p f =
      let (differs, was) : ((r.level == level) ≡ false) × (find level info.channels ≡ some j) =
        ground (arith, find-remove r.level level info.channels, f) in
      let live = p.listed level j was in
      let other = other_level r.target level j differs live in
      (other, Live-AgreeBut id c d r.target level j agree other live, p.highest_best level j was)

  without_level-IsSoundPeer :
      (info info' : PeerInfo)
      → without_level id r.level info ≡ some info'
      → IsSoundPeer c r.target info
      → IsSoundPeer d r.target info'
  unfolding without_level
  without_level-IsSoundPeer info info' e p =
      let rest = remove r.level info.channels in
      elim (Bool-cases (info.best_channel == id)) [
        | inl mine ↦ elim (Option-cases (highest rest)) [
          | inl empty ↦ absurd (ground (arith, e, mine, empty))
          | inr (b, top) ↦
              let i : PeerInfo = record {
                best_channel = b.value;
                best_level = b.key;
                channels = rest;
              } in
              subst (λ (x : PeerInfo). IsSoundPeer d r.target x) {x = i} {y = info'}
                (ground (arith, e, mine, top))
                (record {
                  listed = λ level j f. (rest_listed info level j p f).1;
                  highest_best = λ level j f. highest-le rest b level j top f;
                  best = inr (rest_listed info b.key b.value p (highest-find rest b top)).1;
                })
        ]
        | inr not_mine ↦
            subst (λ (x : PeerInfo). IsSoundPeer d r.target x) {x = record info { channels = rest }}
              {y = info'} (ground (arith, e, not_mine))
              (record {
                listed = λ level j f. (rest_listed info level j p f).1;
                highest_best = λ level j f. (rest_listed info level j p f).2;
                best = elim p.best [
                  | inl z ↦ inl z
                  | inr live ↦
                      inr (Live-AgreeBut id c d r.target _ _ agree (ground (arith, not_mine)) live)
                ];
              })
      ]

  lookup_other :
      (s : Holder) (host : Bytes)
      → same r.target host ≡ false
      → lookup host (remove_channel_peer_connection r.target id r.level s).1.peers
        ≡ lookup host s.peers
  unfolding remove_channel_peer_connection
  lookup_other s host differs = elim (Option-cases (lookup r.target s.peers)) [
    | inl l ↦ ground (arith, l)
    | inr (i, l) ↦ elim (Option-cases (without_level id r.level i)) [
      | inl w ↦ ground (arith, l, w, differs, lookup-erase r.target host s.peers)
      | inr (k, w) ↦ ground (arith, l, w, differs, lookup-insert r.target host k s.peers)
    ]
  ]

  lookup_here :
      (s : Holder) (info : PeerInfo)
      → lookup r.target (remove_channel_peer_connection r.target id r.level s).1.peers ≡ some info
      → (i : PeerInfo) × (lookup r.target s.peers ≡ some i)
        × (without_level id r.level i ≡ some info)
  unfolding remove_channel_peer_connection
  lookup_here s info e = elim (Option-cases (lookup r.target s.peers)) [
    | inl l ↦ absurd (ground (arith, l, e))
    | inr (i, l) ↦ elim (Option-cases (without_level id r.level i)) [
      | inl w ↦
          absurd
            (ground (arith, e, l, w, same_refl r.target, lookup-erase r.target r.target s.peers))
      | inr (k, w) ↦ (
        i,
        l,
        ground (arith, e, l, w, same_refl r.target, lookup-insert r.target r.target k s.peers),
      )
    ]
  ]

  -- Without the channel in its peer's entry, the entries hold whatever becomes of the channel.
  pub removed-AreSound :
      (s : Holder)
      → AreSound c s.peers
      → AreSound d (remove_channel_peer_connection r.target id r.level s).1.peers
  removed-AreSound s h host info e = elim (Bool-cases (same r.target host)) [
    | inr differs ↦
        IsSoundPeer-AgreeBut id c d host info agree (other_host host differs)
          (h host info (sym (lookup_other s host differs) ∙ e))
    | inl here ↦
        let at_target = (same_iff r.target host).0 here in
        let (i, l, w) = lookup_here s info (
          subst
            (λ (x : Bytes).
              lookup x (remove_channel_peer_connection r.target id r.level s).1.peers ≡ some info)
            (sym at_target) e) in
        subst (λ (x : Bytes). IsSoundPeer d x info) at_target
          (without_level-IsSoundPeer i info w (h r.target i l))
  ]
