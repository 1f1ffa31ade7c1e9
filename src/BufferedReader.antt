-- ===== src/BufferedReader.antt =====
-- libschnee/schnee/net/impl/BufferedReader.cpp and BufferedReader.h, with the `asyncRead` and `close` of
-- net/impl/TCPSocketPrivate.h: the input side of a socket. `posted` counts the checks that wait in the
-- service's queue; `notices` are the delegates called, oldest first.
pub mod Contract
pub mod Flow
mod Tests
use schneeflocke.Base.{
  ℕ, suc, ◌+◌, ◌-◌, Bool, true, false, Option, none, some, [], ◌∷◌, ◌++◌, List, ltb, leb, ◌==◌,
  ◌||◌, if◌then◌else◌, length, take, Bytes,
}
use schneeflocke.ByteArray.{l_truncate}
use schneeflocke.Channel.{MaxSize}
use schneeflocke.Error.{Error}

pub data Notice : Type 0 where
  ready_read changed closed : Notice

-- The error codes of the service that `readHandler` tells apart.
pub data ServiceError : Type 0 where
  success operation_aborted eof connection_reset : ServiceError
  unnamed : ServiceError

pub record BufferedReader : Type 0 where
  pub input_transfer_buffer_size : ℕ
  pub max_input_buffer_size : ℕ
  pub input_buffer : Bytes
  pub async_reading : Bool
  pub bytes_read_sum : ℕ
  pub received_eof : Bool
  pub error : Error
  pub pending_operations : ℕ
  pub posted : ℕ
  pub notices : List Notice

unfoldable pub new_reader : BufferedReader
new_reader = record {
  input_transfer_buffer_size = 8192;
  max_input_buffer_size = 4194304;
  input_buffer = [];
  async_reading = false;
  bytes_read_sum = 0;
  received_eof = false;
  error = Error.no_error;
  pending_operations = 0;
  posted = 0;
  notices = [];
}

-- `mService.post (checkAndContinueReadingHandler)`, counted as pending.
post_check : BufferedReader → BufferedReader
post_check b = record b { pending_operations = b.pending_operations + 1; posted = b.posted + 1 }

read_tail : BufferedReader → BufferedReader
unfolding post_check
read_tail b = if b.async_reading then b else post_check b

-- The part of `read` for a size that is not negative.
read_some : ℕ → BufferedReader → Option Bytes × BufferedReader
unfolding read_tail
read_some max_size b =
    let buffer_size = length b.input_buffer in
    if max_size == 0 || buffer_size == 0
    then (none, b)
    else if ltb max_size buffer_size
    then (
      some (take max_size b.input_buffer),
      read_tail (record b { input_buffer = l_truncate max_size b.input_buffer }),
    )
    else (some b.input_buffer, read_tail (record b { input_buffer = [] }))

pub read : BufferedReader → MaxSize → Option Bytes × BufferedReader
unfolding read_tail read_some
read b MaxSize.unlimited = (some b.input_buffer, read_tail (record b { input_buffer = [] }))
read b (MaxSize.at_most n) = read_some n b

pub peek : BufferedReader → MaxSize → Bytes
peek b MaxSize.unlimited = b.input_buffer
peek b (MaxSize.at_most n) =
    if leb (length b.input_buffer) n then b.input_buffer else take n b.input_buffer

pub bytes_available : BufferedReader → ℕ
bytes_available b = length b.input_buffer

pub at_end : BufferedReader → Bool
at_end b = if bytes_available b == 0 then b.received_eof else false

pub start_async_reading : BufferedReader → BufferedReader
unfolding post_check
start_async_reading b = post_check b

-- Either branch of `asyncRead` counts a read that will come back to `readHandler`.
async_read : BufferedReader → BufferedReader
async_read b = record b { pending_operations = b.pending_operations + 1; async_reading = true }

check_and_continue_reading : BufferedReader → BufferedReader
unfolding async_read
check_and_continue_reading b =
    if ltb b.max_input_buffer_size (length b.input_buffer + b.input_transfer_buffer_size)
    then b
    else if b.received_eof
    then b
    else if b.async_reading
    then b
    else async_read b

-- Runs one posted check; the queue's count falls with it.
pub check_and_continue_reading_handler : BufferedReader → BufferedReader
unfolding check_and_continue_reading
check_and_continue_reading_handler b =
    check_and_continue_reading
      (record b { pending_operations = b.pending_operations - 1; posted = b.posted - 1 })

notify : Notice → BufferedReader → BufferedReader
notify n b = record b { notices = b.notices ++ (n ∷ []) }

-- `readHandler` up to the delegates: what the error code changes.
on_code : ServiceError → Bytes → BufferedReader → BufferedReader
on_code ServiceError.success got b = record b { input_buffer = b.input_buffer ++ got }
on_code ServiceError.operation_aborted got b = b
on_code ServiceError.eof got b = record b { error = Error.eof; received_eof = true }
on_code ServiceError.connection_reset got b = record b { error = Error.connection_reset }
on_code ServiceError.unnamed got b = record b { error = Error.other }

-- The rest of it, by the same code: more reading, and who is told.
after_code : ServiceError → BufferedReader → BufferedReader
unfolding check_and_continue_reading notify
after_code ServiceError.success b =
    notify Notice.changed (notify Notice.ready_read (check_and_continue_reading b))
after_code ServiceError.operation_aborted b = notify Notice.changed b
after_code ServiceError.eof b = notify Notice.closed (notify Notice.changed b)
after_code ServiceError.connection_reset b = notify Notice.closed (notify Notice.changed b)
after_code ServiceError.unnamed b = notify Notice.changed b

-- `got` is what the service put into the transfer buffer.
pub read_handler : ServiceError → Bytes → BufferedReader → BufferedReader
unfolding on_code after_code
read_handler ec got b =
    let b1 = record b { pending_operations = b.pending_operations - 1; async_reading = false } in
    let b2 = on_code ec got b1 in
    after_code ec (record b2 { bytes_read_sum = b2.bytes_read_sum + length got })
