-- ===== src/FileTransfer.antt =====
-- libflocke/flocke/filesharing/file_io/FileTransfer.cpp and FileTransfer.h: the receiving side of one file.
-- What the surroundings answer is an argument of each call: whether the file is there, whether it opens,
-- how much `fwrite` wrote. `sent` are the cancellations that went to the data sharing client.
pub mod Lifecycle
pub mod Content
mod Tests
use schneeflocke.Base.{
  ℕ, suc, ◌+◌, ◌-◌, Bool, true, false, not, ◌&&◌, Option, none, some, [], ◌∷◌, ◌++◌, List, ltb,
  ◌==◌, ◌||◌, if◌then◌else◌, length, take, Bytes,
}
use schneeflocke.Base.Int.{ℤ, pos, eq_ℤ}
use schneeflocke.Elements.{Mark, RequestReply}
use schneeflocke.Error.{Error, is_error}
use schneeflocke.Range.{Range, range_length}

pub data State : Type 0 where
  no_state starting transferring transferred_listing pending_files finished canceled error : State

-- `destination` is the open file with what was written to it.
pub record FileTransfer : Type 0 where
  pub state : State
  pub filename : Bytes
  pub size : ℤ
  pub transferred : ℕ
  pub error : Error
  pub destination : Option Bytes
  pub closed_file : Option Bytes
  pub id : ℕ
  pub sent : List ℕ
  pub changes : ℕ

-- What opening and writing the file come to.
pub record Disk : Type 0 where
  pub opens : Bool
  pub writes : ℕ

unfoldable pub new_transfer : FileTransfer
new_transfer = record {
  state = State.no_state;
  filename = [];
  size = pos 0;
  transferred = 0;
  error = Error.no_error;
  destination = none;
  closed_file = none;
  id = 0;
  sent = [];
  changes = 0;
}

error_state : Error → FileTransfer → FileTransfer
error_state e t = record t { state = State.error; error = e }

-- `request_error` is what the client's `request` returns.
pub start : Bool → Error → Bytes → FileTransfer → Error × FileTransfer
unfolding error_state
start file_exists request_error name t =
    if file_exists
    then (Error.exists_already, t)
    else if is_error request_error
    then (request_error, error_state request_error t)
    else (Error.no_error, record t { state = State.starting; filename = name })

-- Closes the file, if one is open.
cleanup : FileTransfer → FileTransfer
cleanup t = elim t.destination [
  | none ↦ t
  | some written ↦ record t { destination = none; closed_file = some written }
]

notify_changed : FileTransfer → FileTransfer
notify_changed t = record t { changes = t.changes + 1 }

cancel_transmission : ℕ → FileTransfer → FileTransfer
cancel_transmission id t = record t { sent = t.sent ++ (id ∷ []) }

cancel_in : State → Error → FileTransfer → FileTransfer
unfolding error_state notify_changed cancel_transmission
cancel_in State.finished cause t = t
cancel_in State.error cause t = t
cancel_in State.transferring cause t =
    let t' = cancel_transmission t.id t in
    notify_changed
      (if is_error cause then error_state cause t' else record t' { state = State.canceled })
cancel_in _ cause t =
    notify_changed
      (if is_error cause then error_state cause t else record t { state = State.canceled })

pub cancel : Error → FileTransfer → FileTransfer
unfolding cancel_in
cancel cause t = cancel_in t.state cause t

pub is_transmission : Mark → Bool
is_transmission Mark.transmission_start = true
is_transmission Mark.transmission = true
is_transmission Mark.transmission_finish = true
is_transmission _ = false

pub is_finish : Mark → Bool
is_finish Mark.transmission_finish = true
is_finish _ = false

-- The tail of `handleTransmissionTransferring`: the count, and the check at the last piece.
count_written : RequestReply → ℕ → FileTransfer → FileTransfer
unfolding is_finish
count_written reply w t =
    let transferred = t.transferred + w in
    if not (is_finish reply.mark)
    then record t { transferred = transferred }
    else if eq_ℤ (pos transferred) t.size
    then record t { transferred = transferred; state = State.finished }
    else record t { transferred = transferred; state = State.error }

-- `fwrite` of `w` bytes of the data.
write : ℕ → Bytes → FileTransfer → FileTransfer
write w bytes t = elim t.destination [
  | none ↦ t
  | some written ↦ record t { destination = some (written ++ take w bytes) }
]

pub handle_transmission_transferring : Disk → RequestReply → Bytes → FileTransfer → FileTransfer
unfolding is_transmission count_written write
handle_transmission_transferring disk reply bytes t =
    let l = length bytes in
    if not (is_transmission reply.mark)
    then record t { state = State.canceled }
    else if l == 0
    then count_written reply 0 t
    else if not (disk.writes == l)
    then record (write disk.writes bytes t) { state = State.error }
    else count_written reply l (write l bytes t)

is_start : Mark → Bool
is_start Mark.transmission_start = true
is_start _ = false

pub handle_transmission_starting : Disk → RequestReply → Bytes → FileTransfer → FileTransfer
unfolding is_start handle_transmission_transferring
handle_transmission_starting disk reply bytes t =
    if not (is_start reply.mark) || not (eq_ℤ reply.range.from (pos 0))
    then record t { state = State.canceled }
    else if not disk.opens
    then record t { size = range_length reply.range; state = State.canceled }
    else handle_transmission_transferring disk reply bytes (record t {
      size = range_length reply.range;
      destination = some [];
      state = State.transferring;
    })

is_canceled : State → Bool
is_canceled State.canceled = true
is_canceled _ = false

is_cancel : Mark → Bool
is_cancel Mark.transmission_cancel = true
is_cancel _ = false

cleanup_if_over : State → FileTransfer → FileTransfer
unfolding cleanup
cleanup_if_over State.canceled t = cleanup t
cleanup_if_over State.error t = cleanup t
cleanup_if_over State.finished t = cleanup t
cleanup_if_over _ t = t

-- The `switch`; a canceled transfer returns before the cleanup behind it.
by_state : State → Disk → RequestReply → Bytes → FileTransfer → FileTransfer
unfolding handle_transmission_starting cleanup_if_over
by_state State.starting disk reply bytes t =
    let t' = handle_transmission_starting disk reply bytes t in cleanup_if_over t'.state t'
by_state State.transferring disk reply bytes t =
    let t' = handle_transmission_transferring disk reply bytes t in cleanup_if_over t'.state t'
by_state State.canceled disk reply bytes t = t
by_state _ disk reply bytes t = cleanup_if_over t.state t

-- The head of `handleRequestReply`, by its three tests.
note_error : RequestReply → FileTransfer → FileTransfer
unfolding is_canceled
note_error reply t =
    if is_canceled t.state then t else record t { error = reply.err; state = State.error }

note_cancel : RequestReply → FileTransfer → FileTransfer
unfolding is_cancel
note_cancel reply t = if is_cancel reply.mark then record t { state = State.canceled } else t

note_id : RequestReply → FileTransfer → FileTransfer
note_id reply t = if t.id == 0 then record t { id = reply.id } else t

pub handle_request_reply : Disk → RequestReply → Bytes → FileTransfer → FileTransfer
unfolding by_state note_error note_cancel note_id cleanup
handle_request_reply disk reply bytes t =
    let t' = note_id reply (note_cancel reply t) in
    if is_error reply.err
    then cleanup (note_error reply t)
    else by_state t'.state disk reply bytes t'

is_over : State → Bool
is_over State.error = true
is_over State.canceled = true
is_over _ = false

pub on_request_reply : Disk → RequestReply → Bytes → FileTransfer → FileTransfer
unfolding handle_request_reply is_over is_cancel cancel_transmission notify_changed
on_request_reply disk reply bytes t =
    let t' = handle_request_reply disk reply bytes t in
    notify_changed (
      if is_over t'.state && not (is_cancel reply.mark)
      then cancel_transmission reply.id t'
      else t')
