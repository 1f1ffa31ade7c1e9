-- ===== src/DataTracker.antt =====
-- libflocke/flocke/objsync/DataTracker.cpp and DataTracker.h: data of other hosts that is kept up to date.
-- The callbacks hold a shared pointer to the `TrackInfo`, so the model has a store of them, and a
-- pointer is an index. What the data sharing client answers to a call is an argument.
pub mod Callbacks
pub mod Table
mod Tests
use schneeflocke.Base.{
  ℕ, suc, ◌+◌, Bool, true, false, Option, none, some, [], ◌∷◌, ◌++◌, List, ◌||◌, if◌then◌else◌,
  length, Bytes, Map, lookup, insert, erase, modify,
}
use schneeflocke.Base.Int.{ℤ, pos, negsuc, ltb_ℤ}
use schneeflocke.Elements.{NotifyMark}
use schneeflocke.Error.{Error, is_error}

pub data TrackState : Type 0 where
  none_yet establishing tracking lost error to_delete : TrackState

-- The two bits of `awaiting` are fields of their own.
pub record TrackInfo : Type 0 where
  pub state : TrackState
  pub uri : Bytes
  pub await_subscribe : Bool
  pub await_request : Bool
  pub revision : ℤ

-- What a callback does beside changing its info: it calls the client, and the two delegates.
pub data Effect : Type 0 where
  request : Effect
  state_changed : TrackState → Effect
  data_updated : ℤ → Bytes → Effect

is_final : TrackState → Bool
is_final TrackState.to_delete = true
is_final TrackState.error = true
is_final _ = false

fail_info : TrackInfo → TrackInfo × List Effect
fail_info i = (record i { state = TrackState.error }, Effect.state_changed TrackState.error ∷ [])

-- `mSharingClient->request`, with what it returned.
send_request : Error → TrackInfo → TrackInfo × List Effect
unfolding fail_info
send_request e i =
    let (failed, told) = fail_info i in
    if is_error e
    then (failed, Effect.request ∷ told)
    else (record i { await_request = true }, Effect.request ∷ [])

unfoldable pub on_subscribe_reply : Error → Error → TrackInfo → TrackInfo × List Effect
unfolding is_final fail_info send_request
on_subscribe_reply reply_err request_err info =
    let i = record info { await_subscribe = false } in
    if is_final i.state
    then (i, [])
    else if is_error reply_err
    then fail_info i
    else send_request request_err i

is_establishing : TrackState → Bool
is_establishing TrackState.establishing = true
is_establishing _ = false

unfoldable pub on_request_reply : Error → ℤ → Bytes → TrackInfo → TrackInfo × List Effect
unfolding is_final fail_info is_establishing
on_request_reply reply_err revision bytes info =
    let i = record info { await_request = false } in
    if is_final i.state
    then (i, [])
    else if is_error reply_err
    then fail_info i
    else if is_establishing i.state
    then (
      record i { state = TrackState.tracking; revision = revision },
      Effect.state_changed TrackState.tracking ∷ Effect.data_updated revision bytes ∷ [],
    )
    else (i, Effect.data_updated revision bytes ∷ [])

unfoldable pub on_notify : NotifyMark → ℤ → Error → TrackInfo → TrackInfo × List Effect
unfolding send_request
on_notify NotifyMark.subscription_cancel revision request_err i =
    (record i { state = TrackState.lost }, Effect.state_changed TrackState.lost ∷ [])
on_notify NotifyMark.no_mark revision request_err i =
    if ltb_ℤ i.revision revision then send_request request_err i else (i, [])

-- `called` are the calls of the client's `subscribe` and `cancelSubscription`, the oldest first.
pub data ClientCall : Type 0 where
  subscribe_call : Bytes → ClientCall
  cancel_call : Bytes → ClientCall

pub record DataTracker : Type 0 where
  pub infos : List TrackInfo
  pub tracked : Map ℕ
  pub called : List ClientCall

new_info : Bytes → TrackInfo
new_info uri = record {
  state = TrackState.establishing;
  uri = uri;
  await_subscribe = true;
  await_request = false;
  revision = negsuc 0;
}

pub track : Bytes → Error → DataTracker → Error × DataTracker
unfolding new_info
track uri subscribe_result t =
    let asked = record t { called = t.called ++ (subscribe_call uri ∷ []) } in
    if is_error subscribe_result then (subscribe_result, asked) else (
      Error.no_error,
      record asked {
        infos = t.infos ++ (new_info uri ∷ []);
        tracked = insert uri (length t.infos) t.tracked;
      },
    )

mark_deleted : TrackInfo → TrackInfo
mark_deleted i = record i { state = TrackState.to_delete }

pub untrack : Bytes → DataTracker → Error × DataTracker
unfolding mark_deleted
untrack uri t = elim (lookup uri t.tracked) [
  | none ↦ (Error.not_found, t)
  | some p ↦ (
    Error.no_error,
    record {
      infos = modify mark_deleted p t.infos;
      tracked = erase uri t.tracked;
      called = t.called ++ (cancel_call uri ∷ []);
    },
  )
]

-- The callbacks, with the pointer that each was bound to.
pub data Callback : Type 0 where
  subscribe_reply : Error → Error → Callback
  request_reply : Error → ℤ → Bytes → Callback
  notify : NotifyMark → ℤ → Error → Callback

unfoldable pub apply : Callback → TrackInfo → TrackInfo × List Effect
unfolding on_subscribe_reply on_request_reply on_notify
apply (subscribe_reply e f) = on_subscribe_reply e f
apply (request_reply e r b) = on_request_reply e r b
apply (notify m r e) = on_notify m r e

pub called_back : Callback → ℕ → DataTracker → DataTracker
called_back c p t = record t { infos = modify (λ i. (apply c i).0) p t.infos }
