-- ===== src/DatagramReader.antt =====
-- libschnee/schnee/p2p/DatagramReader.cpp and DatagramReader.h: datagrams out of a channel that hands
-- out its bytes in pieces of any size.
pub mod Stream
mod Tests
use schneeflocke.Base.{
  ℕ, zero, suc, ◌+◌, ◌-◌, ◌==◌, Bool, true, false, Option, none, some, [], ◌++◌, ltb, if◌then◌else◌,
  length, Bytes,
}
use schneeflocke.Channel.{Channel, MaxSize, bytes_of}
use schneeflocke.Datagram.{Datagram, from_network, max_length}
use schneeflocke.Error.{Error}

pub data State : Type 0 where
  wait_lengths wait_header wait_content error : State

pub record Reader : Type 0 where
  pub datagram : Datagram
  pub buffer : Bytes
  pub state : State
  pub next_header_length : ℕ
  pub next_content_length : ℕ

pub clear : Reader → Reader
clear r = record r {
  state = State.wait_lengths;
  next_header_length = 0;
  next_content_length = 0;
  buffer = [];
}

pub new_reader : Reader
unfolding clear
new_reader = clear (record {
  datagram = record { header = none; content = none };
  buffer = [];
  state = State.wait_lengths;
  next_header_length = 0;
  next_content_length = 0;
})

is_empty : Bytes → Bool
is_empty [] = true
is_empty _ = false

-- One round of the loop: `again` is `break` out of the `switch`, `done` a `return`.
pub data Round (S : Type 0) : Type 0 where
  again : Reader → S → Round S
  done : Error → Reader → S → Round S

-- The test of an error code behind `fillBytes`.
abbrev return_if : {S : Type 0} → Error × Reader × S → (Reader → S → Round S) → Round S
return_if (Error.no_error, r, s) k = k r s
return_if (e, r, s) k = done e r s

parse_lengths : {S : Type 0} → Reader → S → Round S
parse_lengths r s =
    let h = from_network r.buffer 0 in
    let c = from_network r.buffer 4 in
    let r' = record r { next_header_length = h; next_content_length = c } in
    if ltb max_length h
    then done Error.too_much (record r' { state = State.error }) s
    else if ltb max_length c
    then done Error.too_much (record r' { state = State.error }) s
    else again (record r' { state = State.wait_header; buffer = [] }) s

take_header : {S : Type 0} → Reader → S → Round S
take_header r s =
    again
      (record r {
        datagram = record r.datagram { header = some r.buffer };
        buffer = [];
        state = State.wait_content;
      })
      s

take_content : {S : Type 0} → Reader → S → Round S
take_content r s =
    done Error.no_error
      (record r {
        datagram = record r.datagram { content = some r.buffer };
        buffer = [];
        state = State.wait_lengths;
      })
      s

-- What `fillBytes` does with the pointer that `channel->read` returns.
take_in : Reader → ℕ → Option Bytes → Error × Reader
take_in r count none = (Error.not_enough, r)
take_in r count (some got) =
    let buffer = if is_empty r.buffer then got else r.buffer ++ got in
    if is_empty got
    then (Error.not_enough, r)
    else if ltb (length buffer) count
    then (Error.not_enough, record r { buffer = buffer })
    else (Error.no_error, record r { buffer = buffer })

module _ (ch : Channel) where
  open ch use {read as read_channel}

  fill_bytes : Reader → ch.State → ℕ → Error × Reader × ch.State
  fill_bytes r s count =
      let (got, s') = read_channel s (MaxSize.at_most (count - length r.buffer)) in
      let (e, r') = take_in r count got in
      if length r.buffer == count then (Error.no_error, r, s) else (e, r', s')

  round : State → Reader → ch.State → Round ch.State
  unfolding parse_lengths take_header take_content
  round State.wait_lengths r s = return_if (fill_bytes r s 8) parse_lengths
  round State.wait_header r s = return_if (fill_bytes r s r.next_header_length) take_header
  round State.wait_content r s = return_if (fill_bytes r s r.next_content_length) take_content
  round State.error r s = done Error.wrong_state r s

  -- `for (;;)` over `rounds` rounds; `none` if they do not suffice.
  read_rounds : ℕ → Reader → ch.State → Option (Error × Reader × ch.State)
  read_rounds zero r s = none
  read_rounds (suc n) r s = elim (round r.state r s) [
    | done e r' s' ↦ some (e, r', s')
    | again r' s' ↦ read_rounds n r' s'
  ]

  -- Three states can follow one another before a datagram is complete.
  pub read : Reader → ch.State → Option (Error × Reader × ch.State)
  read = read_rounds 3
