-- ===== src/BufferedReader/Flow.antt =====
-- Reading goes on as long as it may, within the limit of the buffer, whatever comes in which order.
use schneeflocke.Base.{
  ℕ, ◌+◌, ◌≤◌, ◌<◌, ◌≡◌, refl, ◌⊎◌, inl, inr, Bool, true, false, Bool-cases, [], arith, ltb, ◌==◌,
  ◌||◌, length, length-append, length-drop, Bytes,
}
use schneeflocke.BufferedReader.{
  BufferedReader, ServiceError, new_reader, read, read_tail, start_async_reading,
  check_and_continue_reading_handler, read_handler,
}
use schneeflocke.ByteArray.{l_truncate, l_truncate-drop}
use schneeflocke.Channel.{MaxSize}

-- What can happen to a reader: its owner's calls, a posted check that runs, and the end of a read
-- that brought at most what the transfer buffer holds.
pub data Step (b : BufferedReader) : BufferedReader → Type 0 where
  reads : (m : MaxSize) → Step b (read b m).1
  starts : Step b (start_async_reading b)
  checks : 0 < b.posted → Step b (check_and_continue_reading_handler b)
  completes :
      (ec : ServiceError) (got : Bytes)
      → b.async_reading ≡ true
      → length got ≤ b.input_transfer_buffer_size
      → Step b (read_handler ec got b)

pub data Reach : BufferedReader → Type 0 where
  fresh : Reach new_reader
  next : {b b' : BufferedReader} → Reach b → Step b b' → Reach b'

abbrev outstanding : Bool → ℕ
outstanding true = 1
outstanding false = 0

pub record IsBounded (b : BufferedReader) : Type 0 where
  pub sizes : (b.input_transfer_buffer_size ≡ 8192) × (b.max_input_buffer_size ≡ 4194304)
  pub within : length b.input_buffer ≤ 4194304
  pub room : b.async_reading ≡ true → length b.input_buffer + 8192 ≤ 4194304
  pub counted : b.pending_operations ≡ b.posted + outstanding b.async_reading

new_reader-IsBounded : IsBounded new_reader
unfolding new_reader
new_reader-IsBounded = record {
  sizes = (refl, refl);
  within = omega arith;
  room = λ e. cc;
  counted = omega arith;
}

start-IsBounded : {b : BufferedReader} → IsBounded b → IsBounded (start_async_reading b)
unfolding start_async_reading
start-IsBounded v = ground arith

checks-IsBounded :
    {b : BufferedReader}
    → 0 < b.posted
    → IsBounded b
    → IsBounded (check_and_continue_reading_handler b)
unfolding check_and_continue_reading_handler
checks-IsBounded h v = ground arith

handler-IsBounded :
    {b : BufferedReader} (ec : ServiceError) (got : Bytes)
    → b.async_reading ≡ true
    → length got ≤ b.input_transfer_buffer_size
    → IsBounded b
    → IsBounded (read_handler ec got b)
unfolding read_handler
handler-IsBounded {b} ServiceError.success got a l v =
    ground (arith, length-append b.input_buffer got)
handler-IsBounded {b} _ got a l v = ground arith

-- A read leaves all alone, or shortens the buffer and asks for more unless a read is under way.
read_effect :
    (b : BufferedReader) (m : MaxSize)
    → ((read b m).1 ≡ b)
      ⊎ ((xs : Bytes) × (length xs ≤ length b.input_buffer)
          × ((read b m).1 ≡ read_tail (record b { input_buffer = xs })))
unfolding read
read_effect b MaxSize.unlimited = inr ([], omega arith, refl)
read_effect b (MaxSize.at_most n) = elim (Bool-cases (n == 0 || length b.input_buffer == 0)) [
  | inl nothing ↦ inl (rw nothing)
  | inr something ↦ rw something (elim (Bool-cases (ltb n (length b.input_buffer))) [
    | inl part ↦ inr (
      l_truncate n b.input_buffer,
      rw (l_truncate-drop n b.input_buffer (ground arith))
          (omega (arith, length-drop n b.input_buffer)),
      rw part,
    )
    | inr all ↦ inr ([], omega arith, rw all)
  ])
]

read_tail-IsBounded :
    {b : BufferedReader} (xs : Bytes)
    → length xs ≤ length b.input_buffer
    → IsBounded b
    → IsBounded (read_tail (record b { input_buffer = xs }))
unfolding read_tail
read_tail-IsBounded xs h v = ground arith

read-IsBounded : {b : BufferedReader} (m : MaxSize) → IsBounded b → IsBounded (read b m).1
read-IsBounded {b} m v = elim (read_effect b m) [
  | inl e ↦ rw e v
  | inr (xs, shorter, e) ↦ rw e (read_tail-IsBounded xs shorter v)
]

Step-IsBounded : {b b' : BufferedReader} → Step b b' → IsBounded b → IsBounded b'
Step-IsBounded (reads m) v = read-IsBounded m v
Step-IsBounded starts v = start-IsBounded v
Step-IsBounded (checks h) v = checks-IsBounded h v
Step-IsBounded (completes ec got a l) v = handler-IsBounded ec got a l v

-- In every state that a new reader can come to, the buffer holds at most 4 MB, a read that is under
-- way still has room for a whole transfer buffer, and the pending operations are the posted checks
-- and that read.
pub Reach-IsBounded : {b : BufferedReader} → Reach b → IsBounded b
Reach-IsBounded fresh = new_reader-IsBounded
Reach-IsBounded (next r s) = Step-IsBounded s (Reach-IsBounded r)

-- Input still comes in or is on its way to be asked for, or the buffer is full, or the end was seen.
abbrev pub IsFlowing : BufferedReader → Type 0
IsFlowing b =
    (b.async_reading ≡ true)
    ⊎ (0 < b.posted)
    ⊎ (4194304 < length b.input_buffer + 8192)
    ⊎ (b.received_eof ≡ true)

-- A step other than the end of a read by an error.
abbrev pub IsHealthy : {b b' : BufferedReader} → Step b b' → Type 0
IsHealthy (completes ec got a l) = (ec ≡ ServiceError.success) ⊎ (ec ≡ ServiceError.eof)
IsHealthy _ = Unit {0}

read_tail-IsFlowing : (b : BufferedReader) → IsFlowing (read_tail b)
unfolding read_tail
read_tail-IsFlowing b = ground arith

checks-IsFlowing :
    {b : BufferedReader} → IsBounded b → IsFlowing (check_and_continue_reading_handler b)
unfolding check_and_continue_reading_handler
checks-IsFlowing v = ground arith

success-IsFlowing :
    {b : BufferedReader} (got : Bytes)
    → IsBounded b
    → IsFlowing (read_handler ServiceError.success got b)
unfolding read_handler
success-IsFlowing got v = ground arith

-- While no read ends by an error, a reader that takes in input never stops before the end of the
-- input: it reads, has a check posted that will, or waits for room that its owner makes by reading.
pub Step-IsFlowing :
    {b b' : BufferedReader} (s : Step b b') → Reach b → IsHealthy s → IsFlowing b → IsFlowing b'
unfolding read_handler start_async_reading
Step-IsFlowing {b} (reads m) r h f = elim (read_effect b m) [
  | inl e ↦ rw e f
  | inr (xs, shorter, e) ↦ rw e (read_tail-IsFlowing _)
]
Step-IsFlowing starts r h f = ground arith
Step-IsFlowing (checks p) r h f = checks-IsFlowing (Reach-IsBounded r)
Step-IsFlowing (completes ServiceError.success got a l) r h f =
    success-IsFlowing got (Reach-IsBounded r)
Step-IsFlowing (completes ServiceError.eof got a l) r h f = ground arith
Step-IsFlowing (completes ServiceError.operation_aborted got a l) r h f = absurd (ground arith)
Step-IsFlowing (completes ServiceError.connection_reset got a l) r h f = absurd (ground arith)
Step-IsFlowing (completes ServiceError.unnamed got a l) r h f = absurd (ground arith)
