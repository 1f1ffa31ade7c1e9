-- ===== src/PingProtocol.antt =====
-- libschnee/schnee/p2p/com/PingProtocol.cpp and PingProtocol.h: pings, their answers, and the time that
-- an answer took. A time is in microseconds, and so is what `pong_received` gets, which the source
-- divides by a million as a float. Pings are counted without an upper end, where the source has 64 bits.
pub mod Once
pub mod Answered
mod Tests
use schneeflocke.Base.{
  ℕ, Bool, true, false, not, ◌&&◌, ◌+◌, ◌*◌, ◌==◌, ltb, Option, none, some, List, [], ◌∷◌, ◌++◌,
  if◌then◌else◌, Bytes, same,
}
use schneeflocke.Base.Int.{ℤ, sub_ℕ}
use schneeflocke.Error.{Error}

-- `Ping` and `Pong`, with the number that finds the answer.
pub data PingMessage : Type 0 where
  ping : ℕ → PingMessage
  pong : ℕ → PingMessage

pub record OpenPing : Type 0 where
  pub host : Bytes
  pub id : ℕ
  pub time : ℕ

pub record Measured : Type 0 where
  pub host : Bytes
  pub duration : ℤ
  pub id : ℕ

-- `sent` are the calls of the delegate's `send`, `pong_received` those of the delegate of that name if
-- there is one (`listening`), the oldest first.
pub record PingProtocol : Type 0 where
  pub open_pings : List OpenPing
  pub next_id : ℕ
  pub listening : Bool
  pub sent : List (Bytes × PingMessage)
  pub pong_received : List Measured

abbrev pub new_ping_protocol : Bool → PingProtocol
new_ping_protocol listening = record {
  open_pings = [];
  next_id = 1;
  listening = listening;
  sent = [];
  pong_received = [];
}

-- The map from a host and a number; no operation reads its order.
unfoldable pub is_key : Bytes → ℕ → OpenPing → Bool
is_key host id p = same p.host host && (p.id == id)

unfoldable pub find_ping : Bytes → ℕ → List OpenPing → Option ℕ
unfolding is_key
find_ping host id [] = none
find_ping host id (p ∷ l) = if is_key host id p then some p.time else find_ping host id l

unfoldable pub erase_ping : Bytes → ℕ → List OpenPing → List OpenPing
unfolding is_key
erase_ping host id [] = []
erase_ping host id (p ∷ l) =
    let rest = erase_ping host id l in if is_key host id p then rest else p ∷ rest

unfoldable pub enter_ping : Bytes → ℕ → ℕ → List OpenPing → List OpenPing
enter_ping host id time l = record { host = host; id = id; time = time } ∷ erase_ping host id l

unfoldable pub flush : ℕ → ℕ → List OpenPing → List OpenPing
flush threshold now [] = []
flush threshold now (p ∷ l) =
    let rest = flush threshold now l in
    if ltb (p.time + threshold * 1000) now then rest else p ∷ rest

-- The number of the ping, and the protocol in which it is open.
unfoldable pub gen_ping : Bytes → ℕ → PingProtocol → ℕ × PingProtocol
gen_ping receiver now s = (
  s.next_id,
  record s { next_id = s.next_id + 1; open_pings = enter_ping receiver s.next_id now s.open_pings },
)

abbrev pub send_message : Bytes → PingMessage → PingProtocol → PingProtocol
send_message host message s = record s { sent = s.sent ++ ((host, message) ∷ []) }

-- `e` is what the delegate's `send` returns.
unfoldable pub after_send : Error → Bytes → ℕ → PingProtocol → PingProtocol
after_send Error.no_error receiver id s = s
after_send e receiver id s = record s { open_pings = erase_ping receiver id s.open_pings }

unfoldable pub send_ping : Error → Bytes → ℕ → PingProtocol → Error × PingProtocol
unfolding gen_ping
send_ping e receiver now s =
    let g = gen_ping receiver now s in
    (e, after_send e receiver g.0 (send_message receiver (PingMessage.ping g.0) g.1))

unfoldable pub flush_old : ℕ → ℕ → PingProtocol → PingProtocol
flush_old threshold now s = record s { open_pings = flush threshold now s.open_pings }

unfoldable pub on_ping : Bytes → ℕ → PingProtocol → PingProtocol
on_ping sender id s = send_message sender (PingMessage.pong id) s

unfoldable pub measure : Bytes → ℕ → ℤ → PingProtocol → PingProtocol
measure sender id duration s =
    let m : Measured = record { host = sender; duration = duration; id = id } in
    if s.listening then record s { pong_received = s.pong_received ++ (m ∷ []) } else s

unfoldable pub on_pong : Bytes → ℕ → ℕ → PingProtocol → PingProtocol
on_pong sender id now s = if id == 0 then s else elim (find_ping sender id s.open_pings) [
  | none ↦ s
  | some time ↦
      measure sender id (sub_ℕ now time)
        (record s { open_pings = erase_ping sender id s.open_pings })
]
