-- ===== src/DatagramReader/Stream.antt =====
-- The reader neither loses nor makes up a byte of the channel's stream.
use schneeflocke.Base.{
  ℕ, zero, suc, ◌+◌, ◌-◌, ◌*◌, ◌^◌, ◌≤◌, ◌<◌, ◌≡◌, refl, sym, ap, ap₂, ◌∙◌, Bool-cases, ◌≢◌, subst,
  ◌⊎◌, inl, inr, Option, none, some, [], ◌∷◌, ◌++◌, append-nil, append_assoc, arith, ltb, ltb→lt,
  ◌==◌, if◌then◌else◌, ==_iff, length, length-append, All, All-append, All-append_left,
  All-append_right, Bytes,
}
use schneeflocke.Channel.{Channel, bytes_of}
use schneeflocke.Datagram.{from_network, to_network, max_length}
use schneeflocke.Datagram.RoundTrip.{wire, Fits}
use schneeflocke.DatagramReader.{
  Reader, State, Round, again, done, is_empty, take_in, fill_bytes, round, read_rounds, read,
  parse_lengths, take_header, take_content,
}
use schneeflocke.Error.{Error}

abbrev pub IsByte : ℕ → Type 0
IsByte c = c < 256

joined : (b g : Bytes) → (if is_empty b then g else b ++ g) ≡ b ++ g
unfolding is_empty
joined [] g = refl
joined (x ∷ b) g = refl

take_in-some :
    (r : Reader) (count : ℕ) (x : ℕ) (xs : Bytes)
    → length r.buffer + length (x ∷ xs) ≤ count
    → ((take_in r count (some (x ∷ xs))
          ≡ (Error.no_error, record r { buffer = r.buffer ++ (x ∷ xs) }))
        × (length (r.buffer ++ (x ∷ xs)) ≡ count))
      ⊎ ((take_in r count (some (x ∷ xs))
            ≡ (Error.not_enough, record r { buffer = r.buffer ++ (x ∷ xs) }))
          × (length (r.buffer ++ (x ∷ xs)) < count))
unfolding take_in is_empty
take_in-some r count x xs bound =
    rw (joined r.buffer (x ∷ xs)) (elim (Bool-cases (ltb (length (r.buffer ++ (x ∷ xs))) count)) [
      | inl short ↦ inr (rw short, ground arith)
      | inr full ↦ inl (rw full, ground (arith, length-append r.buffer (x ∷ xs)))
    ])

module _ (ch : Channel) where
  open ch use {pending, read_splits, read_bound}

  -- What `fillBytes` did: the buffer grew by what left the channel, up to `count` or not.
  abbrev Filled : Reader → ch.State → ℕ → Error × Reader × ch.State → Type 0
  Filled r s count f =
      (b : Bytes) × (s' : ch.State) × (r.buffer ++ pending s ≡ b ++ pending s')
      × (All IsByte (pending s) → All IsByte (pending s'))
      × (((f ≡ (Error.no_error, record r { buffer = b }, s')) × (length b ≡ count))
          ⊎ ((f ≡ (Error.not_enough, record r { buffer = b }, s')) × (length b < count)))

  take_in-Filled :
      (r : Reader) (s s' : ch.State) (count : ℕ) (got : Option Bytes)
      → length r.buffer < count
      → pending s ≡ bytes_of got ++ pending s'
      → length (bytes_of got) ≤ count - length r.buffer
      → Filled r s count (let (e, r') = take_in r count got in (e, r', s'))
  unfolding take_in is_empty
  take_in-Filled r s s' count none short splits bound =
      (r.buffer, s', rw splits, (λ h. subst (All IsByte) splits h), inr (refl, short))
  take_in-Filled r s s' count (some []) short splits bound =
      (r.buffer, s', rw splits, (λ h. subst (All IsByte) splits h), inr (refl, short))
  take_in-Filled r s s' count (some (x ∷ xs)) short splits bound = (
    r.buffer ++ (x ∷ xs),
    s',
    rw (splits, append_assoc),
    (λ h. All-append_right IsByte (x ∷ xs) (pending s') (subst (All IsByte) splits h)),
    elim (take_in-some r count x xs (omega arith)) [
      | inl (e, l) ↦ inl (ap (λ (p : Error × Reader). (p.0, p.1, s')) e, l)
      | inr (e, l) ↦ inr (ap (λ (p : Error × Reader). (p.0, p.1, s')) e, l)
    ],
  )

  fill_bytes-Filled :
      (r : Reader) (s : ch.State) (count : ℕ)
      → length r.buffer ≤ count
      → Filled r s count (fill_bytes ch r s count)
  unfolding fill_bytes
  fill_bytes-Filled r s count bound = elim (Bool-cases (length r.buffer == count)) [
    | inl full ↦ (r.buffer, s, refl, (λ h. h), inl (rw full, (==_iff _ _).0 full))
    | inr partial ↦ rw partial (
        take_in-Filled r s _ count _ (ground arith) (read_splits s (count - length r.buffer))
          (read_bound s (count - length r.buffer)))
  ]

to_network_four :
    (a b c d : ℕ)
    → a < 256
    → b < 256
    → c < 256
    → d < 256
    → to_network (a * 2 ^ 24 + b * 2 ^ 16 + c * 2 ^ 8 + d) ≡ a ∷ b ∷ c ∷ d ∷ []
to_network_four a b c d ha hb hc hd = ground arith

-- Both lengths, written out again, are the eight bytes that they were read from.
to_network_eight :
    (b rest : Bytes)
    → length b ≡ 8
    → All IsByte b
    → b ++ rest ≡ to_network (from_network b 0) ++ (to_network (from_network b 4) ++ rest)
to_network_eight (a ∷ b ∷ c ∷ d ∷ e ∷ f ∷ g ∷ h ∷ []) rest l
      (ha, (hb, (hc, (hd, (he, (hf, (hg, (hh, _)))))))) =
    ap₂ (λ (x y : Bytes). x ++ (y ++ rest)) (sym (to_network_four a b c d ha hb hc hd))
      (sym (to_network_four e f g h he hf hg hh))
to_network_eight _ rest l all = absurd (omega arith)

-- The bytes of the current datagram that have left the channel.
abbrev consumed_in : State → Reader → Bytes
consumed_in State.wait_lengths r = r.buffer
consumed_in State.wait_header r =
    to_network r.next_header_length ++ (to_network r.next_content_length ++ r.buffer)
consumed_in State.wait_content r =
    to_network r.next_header_length
    ++ (to_network r.next_content_length ++ (bytes_of r.datagram.header ++ r.buffer))
consumed_in State.error r = []

abbrev pub consumed : Reader → Bytes
consumed r = consumed_in r.state r

abbrev InvIn : State → Reader → Type 0
InvIn State.wait_lengths r = (length r.buffer ≤ 8) × All IsByte r.buffer
InvIn State.wait_header r =
    (r.next_header_length ≤ max_length)
    × (r.next_content_length ≤ max_length)
    × (length r.buffer ≤ r.next_header_length)
InvIn State.wait_content r =
    (r.next_header_length ≤ max_length)
    × (r.next_content_length ≤ max_length)
    × (length (bytes_of r.datagram.header) ≡ r.next_header_length)
    × (r.datagram.header ≡ some (bytes_of r.datagram.header))
    × (length r.buffer ≤ r.next_content_length)
InvIn State.error r = Unit {0}

-- The buffer never outgrows what the state waits for.
abbrev pub Inv : Reader → Type 0
Inv r = InvIn r.state r

module _ (ch : Channel) where
  open ch use {pending}

  -- What a call of `read` leaves, of the stream `t` of bytes consumed and pending before it.
  abbrev pub Accounts : Bytes → Option (Error × Reader × ch.State) → Type 0
  Accounts t none = ⊥
  Accounts t (some (Error.no_error, r, s)) =
      (h : Bytes) × (c : Bytes) × (r.datagram ≡ record { header = some h; content = some c })
      × Fits h
      × Fits c
      × (t ≡ wire h c ++ pending s)
      × (r.state ≡ State.wait_lengths)
      × (r.buffer ≡ [])
  Accounts t (some (Error.not_enough, r, s)) =
      (t ≡ consumed r ++ pending s) × Inv r × (r.state ≢ State.error) × All IsByte (pending s)
  Accounts t (some (Error.too_much, r, s)) =
      (t ≡ to_network r.next_header_length ++ (to_network r.next_content_length ++ pending s))
      × ((max_length < r.next_header_length) ⊎ (max_length < r.next_content_length))
      × (r.state ≡ State.error)
  Accounts t (some (Error.wrong_state, r, s)) = (t ≡ pending s) × (r.state ≡ State.error)
  Accounts t (some _) = ⊥

  rank : State → ℕ
  rank State.wait_lengths = 3
  rank State.wait_header = 2
  rank _ = 1

  abbrev RoundAccounts : Bytes → ℕ → Round ch.State → Type 0
  RoundAccounts t k (done e r s) = Accounts t (some (e, r, s))
  RoundAccounts t k (again r s) =
      (t ≡ consumed r ++ pending s) × Inv r × All IsByte (pending s) × (rank r.state < k)

  parse_lengths_lem :
      (r : Reader) (s : ch.State)
      → length r.buffer ≡ 8
      → All IsByte r.buffer
      → All IsByte (pending s)
      → RoundAccounts (r.buffer ++ pending s) 3 (parse_lengths r s)
  unfolding parse_lengths rank
  parse_lengths_lem r s l bytes pend =
      elim (Bool-cases (ltb max_length (from_network r.buffer 0))) [
        | inl big ↦
            rw big (to_network_eight r.buffer (pending s) l bytes, inl (ltb→lt _ _ big), refl)
        | inr small ↦ rw small (elim (Bool-cases (ltb max_length (from_network r.buffer 4))) [
          | inl big ↦
              rw big (to_network_eight r.buffer (pending s) l bytes, inr (ltb→lt _ _ big), refl)
          | inr small' ↦
              rw small'
                (to_network_eight r.buffer (pending s) l bytes, ground arith, pend, omega arith)
        ])
      ]

  -- A short read leaves the reader in its state, with more in the buffer.
  short_lem :
      (st : State) (r : Reader) (s : ch.State)
      → r.state ≡ st
      → InvIn st r
      → st ≢ State.error
      → All IsByte (pending s)
      → Accounts (consumed_in st r ++ pending s) (some (Error.not_enough, r, s))
  short_lem st r s e inv ne pend =
      subst
        (λ x.
          (consumed_in st r ++ pending s ≡ consumed_in x r ++ pending s)
          × InvIn x r
          × (x ≢ State.error)
          × All IsByte (pending s))
        (sym e) (refl, inv, ne, pend)

  round_lengths :
      (r : Reader) (s : ch.State)
      → r.state ≡ State.wait_lengths
      → InvIn State.wait_lengths r
      → All IsByte (pending s)
      → RoundAccounts (r.buffer ++ pending s) 3 (round ch State.wait_lengths r s)
  unfolding round
  round_lengths r s st (small, bytes) all =
      let (b, s', splits, keeps, how) = fill_bytes-Filled ch r s 8 small in
      let got : All IsByte b =
        All-append_left IsByte b (pending s')
          (subst (All IsByte) splits (All-append IsByte r.buffer (pending s) bytes all)) in
      elim how [
        | inl (e, l) ↦
            rw (e, splits) (parse_lengths_lem (record r { buffer = b }) s' l got (keeps all))
        | inr (e, l) ↦
            rw (e, splits)
              (short_lem State.wait_lengths (record r { buffer = b }) s' st (omega arith, got)
                (λ x. cc) (keeps all))
      ]

  whole :
      (h c rest : Bytes) (n m : ℕ)
      → length h ≡ n
      → length c ≡ m
      → to_network n ++ (to_network m ++ (h ++ (c ++ rest))) ≡ wire h c ++ rest
  whole h c rest n m e f =
      ap₂ (λ i j. to_network i ++ (to_network j ++ (h ++ (c ++ rest)))) (sym e) (sym f)
      ∙ ap (λ (x : Bytes). to_network (length h) ++ (to_network (length c) ++ x))
          (sym (append_assoc h c rest))

  round_header :
      (r : Reader) (s : ch.State)
      → r.state ≡ State.wait_header
      → InvIn State.wait_header r
      → All IsByte (pending s)
      → RoundAccounts
          (consumed_in State.wait_header r ++ pending s)
          2
          (round ch State.wait_header r s)
  unfolding round rank take_header
  round_header r s st (hn, hc, small) all =
      let (b, s', splits, keeps, how) = fill_bytes-Filled ch r s r.next_header_length small in
      elim how [
        | inl (e, l) ↦
            rw (e, splits)
              (rw append-nil (refl, (hn, hc, l, refl, omega arith), keeps all, omega arith))
        | inr (e, l) ↦
            rw (e, splits)
              (short_lem State.wait_header (record r { buffer = b }) s' st (hn, hc, omega arith)
                (λ x. cc) (keeps all))
      ]

  round_content :
      (r : Reader) (s : ch.State)
      → r.state ≡ State.wait_content
      → InvIn State.wait_content r
      → All IsByte (pending s)
      → RoundAccounts
          (consumed_in State.wait_content r ++ pending s)
          1
          (round ch State.wait_content r s)
  unfolding round rank take_content
  round_content r s st (hn, hc, lh, he, small) all =
      let (b, s', splits, keeps, how) = fill_bytes-Filled ch r s r.next_content_length small in
      elim how [
        | inl (e, l) ↦
            rw (e, append_assoc (bytes_of r.datagram.header) r.buffer (pending s), splits)
              (
                bytes_of r.datagram.header,
                b,
                ap (λ (h : Option Bytes). record { header = h; content = some b }) he,
                omega arith,
                omega arith,
                whole (bytes_of r.datagram.header) b (pending s') _ _ lh l,
                refl,
                refl,
              )
        | inr (e, l) ↦
            rw
              (
                e,
                append_assoc (bytes_of r.datagram.header) r.buffer (pending s),
                splits,
                ← append_assoc (bytes_of r.datagram.header) b (pending s'),
              )
              (short_lem State.wait_content (record r { buffer = b }) s' st
                (hn, hc, lh, he, omega arith) (λ x. cc) (keeps all))
      ]

  round_lem :
      (st : State) (r : Reader) (s : ch.State)
      → r.state ≡ st
      → InvIn st r
      → All IsByte (pending s)
      → RoundAccounts (consumed_in st r ++ pending s) (rank st) (round ch st r s)
  unfolding round rank
  round_lem State.wait_lengths r s e inv all = round_lengths r s e inv all
  round_lem State.wait_header r s e inv all = round_header r s e inv all
  round_lem State.wait_content r s e inv all = round_content r s e inv all
  round_lem State.error r s e inv all = (refl, e)

  rank-pos : (st : State) → 0 < rank st
  unfolding rank
  rank-pos State.wait_lengths = omega arith
  rank-pos _ = omega arith

  after_round :
      (n : ℕ) (t : Bytes) (x : Round ch.State) (k : ℕ)
      → RoundAccounts t k x
      → k ≤ suc n
      → ((r : Reader) (s : ch.State)
          → rank r.state ≤ n
          → t ≡ consumed r ++ pending s
          → Inv r
          → All IsByte (pending s)
          → Accounts t (read_rounds ch n r s))
      → Accounts t (elim x [ done e r s ↦ some (e, r, s) | again r s ↦ read_rounds ch n r s ])
  after_round n t (done e r s) k h le later = h
  after_round n t (again r s) k (e, inv, all, lower) le later = later r s (omega arith) e inv all

  rounds :
      (n : ℕ) (t : Bytes) (r : Reader) (s : ch.State)
      → rank r.state ≤ n
      → t ≡ consumed r ++ pending s
      → Inv r
      → All IsByte (pending s)
      → Accounts t (read_rounds ch n r s)
  unfolding read_rounds
  rounds zero t r s fuel e inv all = absurd (omega (arith, rank-pos r.state))
  rounds (suc n) t r s fuel e inv all =
      after_round n t (round ch r.state r s) (rank r.state)
        (subst (λ (u : Bytes). RoundAccounts u (rank r.state) (round ch r.state r s)) (sym e)
          (round_lem r.state r s refl inv all))
        fuel (rounds n t)

  rank-le : (st : State) → rank st ≤ 3
  unfolding rank
  rank-le State.wait_lengths = omega arith
  rank-le State.wait_header = omega arith
  rank-le _ = omega arith

  -- A call of `read` ends, and accounts for every byte: it returns the next whole datagram of the
  -- stream and leaves the rest, or keeps what came so far, or stops at lengths that are too big.
  pub read-Accounts :
      (r : Reader) (s : ch.State)
      → Inv r
      → All IsByte (pending s)
      → Accounts (consumed r ++ pending s) (read ch r s)
  unfolding read
  read-Accounts r s inv all = rounds 3 _ r s (rank-le r.state) refl inv all
