-- ===== src/SharedListTracker.antt =====
-- libflocke/flocke/sharedlists/SharedListTracker.cpp and SharedListTracker.h: the shared lists of
-- other hosts. All its uris have the path "shared", so a uri is known by its host. JSON is read by the
-- serialization library, which is a parameter.
pub mod Fetched
mod Tests
use schneeflocke.Base.{
  Bool, true, false, Option, none, some, List, [], ◌∷◌, ◌++◌, if◌then◌else◌, Bytes, Map, insert,
  erase,
}
use schneeflocke.DataTracker.{DataTracker, TrackState, track, untrack}
use schneeflocke.Error.{Error}
use schneeflocke.SharedListServer.{SharedList}

pub data Told : Type 0 where
  tracking_update : Bytes → SharedList → Told
  lost_tracking : Bytes → Error → Told

-- `wants_update` and `wants_lost`: whether the delegates are set.
pub record ListTracker : Type 0 where
  pub tracker : DataTracker
  pub lists : Map SharedList
  pub wants_update : Bool
  pub wants_lost : Bool
  pub told : List Told

unfoldable pub track_shared : Bytes → Error → ListTracker → Error × ListTracker
track_shared host subscribe_result t =
    let r = track host subscribe_result t.tracker in (r.0, record t { tracker = r.1 })

unfoldable pub untrack_shared : Bytes → ListTracker → Error × ListTracker
untrack_shared host t = let r = untrack host t.tracker in (r.0, record t { tracker = r.1 })

unfoldable pub tell : Bool → Told → ListTracker → ListTracker
tell wanted x t = if wanted then record t { told = t.told ++ (x ∷ []) } else t

unfoldable pub on_data_update :
    (Bytes → Option SharedList) → Bytes → Bytes → ListTracker → ListTracker
unfolding tell
on_data_update from_json host bytes t = elim (from_json bytes) [
  | some list ↦
      tell t.wants_update (Told.tracking_update host list)
        (record t { lists = insert host list t.lists })
  | none ↦
      tell t.wants_lost (Told.lost_tracking host Error.bad_deserialization)
        (record t { tracker = (untrack host t.tracker).1 })
]

is_tracking : TrackState → Bool
is_tracking TrackState.tracking = true
is_tracking _ = false

unfoldable pub on_state_change : Bytes → TrackState → ListTracker → ListTracker
unfolding tell is_tracking
on_state_change host state t =
    if is_tracking state
    then t
    else tell t.wants_lost (Told.lost_tracking host Error.other)
        (record t { lists = erase host t.lists })
