-- ===== src/PingProtocol/Tests.antt =====
-- Two pings to one host, of which the first is answered, and the theorems there.
use schneeflocke.Base.{◌+◌, ◌≡◌, refl, true, [], ◌∷◌, ◌++◌, codes, same, arith}
use schneeflocke.Base.Int.{ℤ, sub_ℕ}
use schneeflocke.PingProtocol.{
  PingProtocol, PingMessage, new_ping_protocol, is_key, find_ping, erase_ping, enter_ping, flush,
  gen_ping, after_send, send_ping, flush_old, on_ping, measure, on_pong,
}
use schneeflocke.PingProtocol.Once.{Reach, measured_count, Reach-on_pong}
use schneeflocke.PingProtocol.Answered.{send_ping-on_ping-on_pong}
use schneeflocke.Error.{Error}

abbrev pinged : PingProtocol
pinged = (send_ping Error.no_error (codes "bob") 100 (new_ping_protocol true)).1

abbrev answered : PingProtocol
answered = on_pong (codes "bob") 1 350 pinged

pinged-Reach : Reach pinged
pinged-Reach =
    Reach.sends Error.no_error (codes "bob") 100 (new_ping_protocol true) (Reach.starts true)

answered_test :
    answered.pong_received ≡ record { host = codes "bob"; duration = ℤ.pos 250; id = 1 } ∷ []
unfolding send_ping gen_ping after_send enter_ping erase_ping find_ping is_key same on_pong measure
answered_test = refl

-- A minute later the unanswered ping is forgotten.
flush_old_test : (flush_old 60000 60000101 pinged).open_pings ≡ []
unfolding send_ping gen_ping after_send enter_ping erase_ping flush_old flush
flush_old_test = refl

refused_test :
    (send_ping Error.target_offline (codes "bob") 100 (new_ping_protocol true)).1.open_pings ≡ []
unfolding send_ping gen_ping after_send enter_ping erase_ping is_key same
refused_test = refl

Reach-on_pong_example :
    (measured_count 1 answered.pong_received ≡ 1)
    × (on_pong (codes "bob") 1 400 answered ≡ answered)
unfolding send_ping gen_ping after_send enter_ping erase_ping find_ping is_key same on_pong measure
    measured_count
Reach-on_pong_example =
    Reach-on_pong answered (codes "bob") 1 400 (Reach.pongs (codes "bob") 1 350 pinged pinged-Reach)
      (omega arith)

send_ping-on_ping-on_pong_example :
    ((send_ping Error.no_error (codes "bob") 200 pinged).1.sent
      ≡ pinged.sent ++ ((codes "bob", PingMessage.ping pinged.next_id) ∷ []))
    × ((on_ping (codes "alice") pinged.next_id answered).sent
        ≡ answered.sent ++ ((codes "alice", PingMessage.pong pinged.next_id) ∷ []))
    × (on_pong
          (codes "bob")
          pinged.next_id
          500
          (send_ping Error.no_error (codes "bob") 200 pinged).1
        ≡ record pinged {
          next_id = pinged.next_id + 1;
          sent = pinged.sent ++ ((codes "bob", PingMessage.ping pinged.next_id) ∷ []);
          pong_received =
              pinged.pong_received
              ++ (record { host = codes "bob"; duration = sub_ℕ 500 200; id = pinged.next_id }
                  ∷ []);
        })
unfolding send_ping gen_ping after_send
send_ping-on_ping-on_pong_example =
    send_ping-on_ping-on_pong pinged answered (codes "bob") (codes "alice") 200 500 pinged-Reach
      refl
