-- ===== src/DataTracker/Callbacks.antt =====
-- The callbacks on one info: what is told and what is asked for, whatever comes in which order.
use schneeflocke.Base.{
  ℕ, suc, ◌+◌, ◌≤◌, ◌≡◌, ◌⊎◌, refl, ap, Bool, true, false, Option, none, some, List, [], ◌∷◌, ◌++◌,
  arith, Bytes, inl, inr, Bool-cases,
}
use schneeflocke.Base.Int.{ℤ, ltb_ℤ}
use schneeflocke.Elements.{NotifyMark}
use schneeflocke.Error.{Error}
use schneeflocke.DataTracker.{
  TrackInfo, TrackState, Effect, Callback, subscribe_reply, request_reply, notify, apply,
}

-- The last state that was told.
abbrev pub told : List Effect → Option TrackState
told [] = none
told (Effect.state_changed s ∷ _) = some s
told (_ ∷ es) = told es

abbrev pub updates : List Effect → List ℤ
updates [] = []
updates (Effect.data_updated r b ∷ es) = r ∷ updates es
updates (_ ∷ es) = updates es

abbrev pub requests : List Effect → ℕ
requests [] = 0
requests (Effect.request ∷ es) = suc (requests es)
requests (_ ∷ es) = requests es

-- A callback either tells the state that the info is in afterwards, or leaves the state as it was.
-- It never touches the URI.
pub apply-told :
    (c : Callback) (i : TrackInfo)
    → let (i', es) = apply c i in
      ((told es ≡ some i'.state) ⊎ ((told es ≡ none) × (i'.state ≡ i.state))) × (i'.uri ≡ i.uri)
unfolding apply
apply-told (subscribe_reply e f) i = ground arith
apply-told (request_reply e r b) i = ground arith
apply-told (notify m r e) i = ground arith

-- How often the owner was told of a state.
abbrev pub tells : List Effect → ℕ
tells [] = 0
tells (Effect.state_changed _ ∷ es) = suc (tells es)
tells (_ ∷ es) = tells es

-- Callbacks on one info, the first one first.
unfoldable pub apply_all : List Callback → TrackInfo → TrackInfo × List Effect
apply_all [] i = (i, [])
apply_all (c ∷ cs) i =
    let (i', es) = apply c i in let (i'', es') = apply_all cs i' in (i'', es ++ es')

-- The notifications in a history, and whether the other host cancelled the subscription in it.
abbrev pub notices : List Callback → ℕ
notices [] = 0
notices (notify m r e ∷ cs) = suc (notices cs)
notices (_ ∷ cs) = notices cs

abbrev pub cancels : List Callback → Bool
cancels [] = false
cancels (notify NotifyMark.subscription_cancel r e ∷ cs) = true
cancels (_ ∷ cs) = cancels cs

-- Tracking of this item is over: by the user or by an error.
abbrev pub IsFinal : TrackState → Type 0
IsFinal s = (s ≡ TrackState.to_delete) ⊎ (s ≡ TrackState.error)

-- Or by the other host.
abbrev pub IsGone : TrackState → Type 0
IsGone s = (s ≡ TrackState.lost) ⊎ IsFinal s

updates-append : (es fs : List Effect) → updates (es ++ fs) ≡ updates es ++ updates fs
updates-append [] fs = refl
updates-append (Effect.request ∷ es) fs = updates-append es fs
updates-append (Effect.state_changed s ∷ es) fs = updates-append es fs
updates-append (Effect.data_updated r b ∷ es) fs = ap (λ (l : List ℤ). r ∷ l) (updates-append es fs)

requests-append : (es fs : List Effect) → requests (es ++ fs) ≡ requests es + requests fs
requests-append [] fs = ground arith
requests-append (e ∷ es) fs = ground (arith, requests-append es fs)

tells-append : (es fs : List Effect) → tells (es ++ fs) ≡ tells es + tells fs
tells-append [] fs = ground arith
tells-append (e ∷ es) fs = ground (arith, tells-append es fs)

apply-IsGone : (c : Callback) (i : TrackInfo) → IsGone i.state → IsGone (apply c i).0.state
unfolding apply
apply-IsGone (subscribe_reply e f) i h = ground arith
apply-IsGone (request_reply e r b) i h = ground arith
apply-IsGone (notify m r e) i h = ground arith

apply_all-IsGone :
    (cs : List Callback) (i : TrackInfo) → IsGone i.state → IsGone (apply_all cs i).0.state
unfolding apply_all
apply_all-IsGone [] i h = h
apply_all-IsGone (c ∷ cs) i h = apply_all-IsGone cs (apply c i).0 (apply-IsGone c i h)

-- Between two states that are over, nothing is delivered, and each notification is answered by one
-- request and one state at most.
record IsQuiet (n : ℕ) (r : TrackInfo × List Effect) : Type 0 where
  over : IsFinal r.0.state
  delivered : updates r.1 ≡ []
  requested : requests r.1 ≤ n
  told_of : tells r.1 ≤ n

apply-IsQuiet :
    (c : Callback) (i : TrackInfo)
    → IsFinal i.state
    → cancels (c ∷ []) ≡ false
    → IsQuiet (notices (c ∷ [])) (apply c i)
unfolding apply
apply-IsQuiet (subscribe_reply e f) i h no_cancel = ground arith
apply-IsQuiet (request_reply e r b) i h no_cancel = ground arith
apply-IsQuiet (notify NotifyMark.no_mark r e) i h no_cancel = ground arith
apply-IsQuiet (notify NotifyMark.subscription_cancel r e) i h no_cancel = cc

cancels-head :
    (c : Callback) (cs : List Callback) → cancels (c ∷ cs) ≡ false → cancels (c ∷ []) ≡ false
cancels-head c cs h = ground arith

cancels-tail : (c : Callback) (cs : List Callback) → cancels (c ∷ cs) ≡ false → cancels cs ≡ false
cancels-tail c cs h = ground arith

notices-head :
    (c : Callback) (cs : List Callback) → notices (c ∷ cs) ≡ notices (c ∷ []) + notices cs
notices-head c cs = ground arith

cancelled-delivers :
    (n r : ℤ) (e : Error) (b : Bytes) (i : TrackInfo)
    → updates
        (apply_all
          (notify NotifyMark.subscription_cancel n e ∷ request_reply Error.no_error r b ∷ [])
          i).1
      ≡ r ∷ []
unfolding apply_all apply
cancelled-delivers n r e b i = refl

apply_all-IsQuiet :
    (cs : List Callback) (i : TrackInfo)
    → IsFinal i.state
    → cancels cs ≡ false
    → IsQuiet (notices cs) (apply_all cs i)
unfolding apply_all
apply_all-IsQuiet [] i h no_cancel = record {
  over = h;
  delivered = refl;
  requested = omega arith;
  told_of = omega arith;
}
apply_all-IsQuiet (c ∷ cs) i h no_cancel =
    let here = apply-IsQuiet c i h (cancels-head c cs no_cancel) in
    let (i', es) = apply c i in
    let later = apply_all-IsQuiet cs i' here.over (cancels-tail c cs no_cancel) in
    let es' = (apply_all cs i').1 in
    record {
      over = later.over;
      delivered = rw (updates-append es es', here.delivered) later.delivered;
      requested =
          rw (requests-append es es', notices-head c cs)
            (ground (arith, here.requested, later.requested));
      told_of =
          rw (tells-append es es', notices-head c cs) (ground (arith, here.told_of, later.told_of));
    }

-- What was deleted by the user, failed or was lost is never tracked again, whatever callbacks come.
-- What was deleted or failed is given no data in any history without a cancel notification, keeps
-- being deleted or failed, and makes a request and tells a state at most once for each
-- notification, never for a reply. But a cancel notification and a good reply after it deliver data
-- in every state.
pub apply_all-IsOver :
    (cs : List Callback) (i : TrackInfo)
    → IsGone i.state
    → IsGone (apply_all cs i).0.state
      × ((i.state ≡ TrackState.lost)
          ⊎ (cancels cs ≡ true)
          ⊎ (IsFinal (apply_all cs i).0.state
              × (updates (apply_all cs i).1 ≡ [])
              × (requests (apply_all cs i).1 ≤ notices cs)
              × (tells (apply_all cs i).1 ≤ notices cs)))
      × ((n r : ℤ) (e : Error) (b : Bytes)
          → updates
              (apply_all
                (notify NotifyMark.subscription_cancel n e ∷ request_reply Error.no_error r b ∷ [])
                i).1
            ≡ r ∷ [])
apply_all-IsOver cs i h = (
  apply_all-IsGone cs i h,
  elim h [
    | inl lost ↦ inl lost
    | inr final ↦ inr (elim (Bool-cases (cancels cs)) [
      | inl cancelled ↦ inl cancelled
      | inr quiet ↦
          let q = apply_all-IsQuiet cs i final quiet in
          inr (q.over, q.delivered, q.requested, q.told_of)
    ])
  ],
  λ n r e b. cancelled-delivers n r e b i,
)

-- A good reply to a tracked item delivers revision `r`, and leaves the revision that notifications
-- are compared with: a notification of `r`, newer than that one, asks for the same data again.
pub apply-requests_again :
    (i : TrackInfo) (r : ℤ) (b : Bytes) (e : Error)
    → i.state ≡ TrackState.tracking
    → ltb_ℤ i.revision r ≡ true
    → let (i', es) = apply (request_reply Error.no_error r b) i in
      (updates es ≡ r ∷ []) × (requests (apply (notify NotifyMark.no_mark r e) i').1 ≡ 1)
unfolding apply
apply-requests_again i r b e s h = ground arith
