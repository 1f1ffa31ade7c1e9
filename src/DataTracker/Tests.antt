-- ===== src/DataTracker/Tests.antt =====
-- A tracker of one list, in the states that its owner sees.
use schneeflocke.Base.{
  ℕ, ◌≡◌, ◌≤◌, refl, ◌⊎◌, inl, inr, true, none, some, List, ◌++◌, [], ◌∷◌, codes, Bytes, same,
  lookup, get_elem?, if◌then◌else◌,
}
use schneeflocke.Base.Int.{ℤ, pos, negsuc}
use schneeflocke.Elements.{NotifyMark}
use schneeflocke.Error.{Error}
use schneeflocke.DataTracker.{
  DataTracker, TrackInfo, TrackState, Callback, ClientCall, subscribe_reply, request_reply, notify,
  apply, track, untrack,
}
use schneeflocke.DataTracker.Callbacks.{
  updates, requests, tells, notices, cancels, IsFinal, IsGone, apply_all, apply_all-IsOver,
  apply-requests_again,
}
use schneeflocke.DataTracker.Table.{
  Reach, fresh, next, tracks, empty, IsLive, Reach-IsLive, untrack_lem,
}

abbrev waiting : TrackInfo
waiting = record {
  state = TrackState.establishing;
  uri = codes "sf:ann:shared";
  await_subscribe = true;
  await_request = true;
  revision = negsuc 0;
}

abbrev running : TrackInfo
running = record waiting { state = TrackState.tracking; revision = pos 1 }

abbrev dropped : TrackInfo
dropped = record waiting { state = TrackState.to_delete }

abbrev good_reply : Callback
good_reply = request_reply Error.no_error (pos 3) (codes "{}")

abbrev history : List Callback
history =
    subscribe_reply Error.no_error Error.no_error
    ∷ notify NotifyMark.no_mark (pos 4) Error.no_error
    ∷ good_reply
    ∷ []

apply_all-IsOver_example :
    IsGone (apply_all history dropped).0.state
    × ((dropped.state ≡ TrackState.lost)
        ⊎ (cancels history ≡ true)
        ⊎ (IsFinal (apply_all history dropped).0.state
            × (updates (apply_all history dropped).1 ≡ [])
            × (requests (apply_all history dropped).1 ≤ notices history)
            × (tells (apply_all history dropped).1 ≤ notices history)))
    × ((n r : ℤ) (e : Error) (b : Bytes)
        → updates
            (apply_all
              (notify NotifyMark.subscription_cancel n e ∷ request_reply Error.no_error r b ∷ [])
              dropped).1
          ≡ r ∷ [])
apply_all-IsOver_example = apply_all-IsOver history dropped (inr (inl refl))

apply-requests_again_example :
    let (i', es) = apply good_reply running in
    (updates es ≡ pos 3 ∷ [])
    × (requests (apply (notify NotifyMark.no_mark (pos 3) Error.no_error) i').1 ≡ 1)
apply-requests_again_example =
    apply-requests_again running (pos 3) (codes "{}") Error.no_error refl refl

abbrev one : DataTracker
one = (track (codes "a") Error.no_error empty).1

one-Reach : Reach one
one-Reach = next fresh (tracks (codes "a") Error.no_error)

Reach-IsLive_example : IsLive one
Reach-IsLive_example = Reach-IsLive one-Reach

untrack_lem_example :
    ((lookup (codes "a") one.tracked ≡ none) × (untrack (codes "a") one ≡ (Error.not_found, one)))
    ⊎ ((p : ℕ) × (i : TrackInfo) × (lookup (codes "a") one.tracked ≡ some p)
        × (get_elem? (untrack (codes "a") one).1.infos p ≡ some i)
        × (i.state ≡ TrackState.to_delete)
        × ((untrack (codes "a") one).0 ≡ Error.no_error)
        × ((untrack (codes "a") one).1.called
            ≡ one.called ++ (ClientCall.cancel_call (codes "a") ∷ []))
        × ((k : Bytes)
            → lookup k (untrack (codes "a") one).1.tracked
              ≡ (if same (codes "a") k then none else lookup k one.tracked)))
untrack_lem_example = untrack_lem (codes "a") one one-Reach
