-- ===== src/PingProtocol/Answered.antt =====
-- A ping, its answer and the measurement.
use schneeflocke.Base.{
  ℕ, ◌+◌, ◌≤◌, ◌≡◌, refl, true, some, List, [], ◌∷◌, ◌++◌, Bytes, same_refl, arith,
}
use schneeflocke.Base.Int.{sub_ℕ}
use schneeflocke.PingProtocol.{
  PingProtocol, PingMessage, OpenPing, is_key, find_ping, erase_ping, enter_ping, gen_ping,
  send_message, after_send, send_ping, flush_old, on_ping, measure, on_pong,
}
use schneeflocke.PingProtocol.Once.{Reach, open_count, total, Reach-IsCounted}
use schneeflocke.Error.{Error}

pong-next_id :
    (sender : Bytes) (id now : ℕ) (s : PingProtocol) → (on_pong sender id now s).next_id ≡ s.next_id
unfolding on_pong measure
pong-next_id sender id now s = ground arith

after_send-next_id :
    (e : Error) (receiver : Bytes) (id : ℕ) (s : PingProtocol)
    → (after_send e receiver id s).next_id ≡ s.next_id
unfolding after_send
after_send-next_id Error.no_error receiver id s = refl
after_send-next_id e receiver id s = refl

-- No ping has the number 0.
Reach-next_id : (s : PingProtocol) → Reach s → 1 ≤ s.next_id
unfolding gen_ping flush_old on_ping send_ping
Reach-next_id _ (Reach.starts listening) = omega arith
Reach-next_id _ (Reach.generates receiver now s r) = ground (arith, Reach-next_id s r)
Reach-next_id _ (Reach.sends e receiver now s r) =
    let g = gen_ping receiver now s in
    ground (
      arith,
      Reach-next_id s r,
      after_send-next_id e receiver g.0 (send_message receiver (PingMessage.ping g.0) g.1),
    )
Reach-next_id _ (Reach.flushes threshold now s r) = Reach-next_id s r
Reach-next_id _ (Reach.pings sender id s r) = Reach-next_id s r
Reach-next_id _ (Reach.pongs sender id now s r) =
    ground (arith, Reach-next_id s r, pong-next_id sender id now s)

erase-absent :
    (host : Bytes) (id : ℕ) (l : List OpenPing) → open_count id l ≡ 0 → erase_ping host id l ≡ l
unfolding open_count erase_ping is_key
erase-absent host id [] h = refl
erase-absent host id (p ∷ l) h = ground (arith, h, erase-absent host id l)

new_ping : (s : PingProtocol) → Reach s → open_count s.next_id s.open_pings ≡ 0
unfolding total
new_ping s r = ground (arith, Reach-IsCounted s r s.next_id)

find-enter :
    (host : Bytes) (id t : ℕ) (l : List OpenPing)
    → find_ping host id (enter_ping host id t l) ≡ some t
unfolding find_ping enter_ping is_key
find-enter host id t l = ground (arith, same_refl host)

erase-enter :
    (host : Bytes) (id t : ℕ) (l : List OpenPing)
    → open_count id l ≡ 0
    → erase_ping host id (enter_ping host id t l) ≡ l
unfolding erase_ping enter_ping is_key
erase-enter host id t l free = ground (arith, same_refl host, erase-absent host id l free)

-- An answer to an open ping when somebody listens.
on_pong-found :
    (s : PingProtocol) (l : List OpenPing) (sender : Bytes) (id now t : ℕ)
    → 1 ≤ id
    → s.listening ≡ true
    → find_ping sender id s.open_pings ≡ some t
    → erase_ping sender id s.open_pings ≡ l
    → on_pong sender id now s ≡ record s {
      open_pings = l;
      pong_received =
          s.pong_received ++ (record { host = sender; duration = sub_ℕ now t; id = id } ∷ []);
    }
unfolding on_pong measure
on_pong-found s l sender id now t asked listening found erased =
    ground (arith, asked, listening, found, erased)

-- A ping that `send` takes is answered with its number by the host that gets it, and this host's
-- answer is measured once, by the time since the ping, and leaves the other open pings.
pub send_ping-on_ping-on_pong :
    (s peer : PingProtocol) (receiver self : Bytes) (now later : ℕ)
    → Reach s
    → s.listening ≡ true
    → ((send_ping Error.no_error receiver now s).1.sent
        ≡ s.sent ++ ((receiver, PingMessage.ping s.next_id) ∷ []))
      × ((on_ping self s.next_id peer).sent
          ≡ peer.sent ++ ((self, PingMessage.pong s.next_id) ∷ []))
      × (on_pong receiver s.next_id later (send_ping Error.no_error receiver now s).1 ≡ record s {
        next_id = s.next_id + 1;
        sent = s.sent ++ ((receiver, PingMessage.ping s.next_id) ∷ []);
        pong_received =
            s.pong_received
            ++ (record { host = receiver; duration = sub_ℕ later now; id = s.next_id } ∷ []);
      })
unfolding send_ping gen_ping after_send on_ping
send_ping-on_ping-on_pong s peer receiver self now later r listening = (
  refl,
  refl,
  on_pong-found (send_ping Error.no_error receiver now s).1 s.open_pings receiver s.next_id later
      now (Reach-next_id s r) listening (find-enter receiver s.next_id now s.open_pings)
      (erase-enter receiver s.next_id now s.open_pings (new_ping s r)),
)
