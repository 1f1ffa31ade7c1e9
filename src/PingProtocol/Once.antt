-- ===== src/PingProtocol/Once.antt =====
-- How often one ping is measured.
use schneeflocke.Base.{
  ℕ, suc, ◌+◌, ◌≤◌, ◌≡◌, refl, Bool, ◌==◌, none, some, Option-cases, Bool-cases, inl, inr, List, [],
  ◌∷◌, ◌++◌, if◌then◌else◌, Bytes, arith,
}
use schneeflocke.Base.Int.{sub_ℕ}
use schneeflocke.PingProtocol.{
  PingProtocol, PingMessage, OpenPing, Measured, send_message, new_ping_protocol, is_key, find_ping,
  erase_ping, enter_ping, flush, gen_ping, after_send, send_ping, flush_old, on_ping, measure,
  on_pong,
}
use schneeflocke.Error.{Error}

pub data Reach : PingProtocol → Type 0 where
  starts : (listening : Bool) → Reach (new_ping_protocol listening)
  generates :
      (receiver : Bytes) (now : ℕ) (s : PingProtocol) → Reach s → Reach (gen_ping receiver now s).1
  sends :
      (e : Error) (receiver : Bytes) (now : ℕ) (s : PingProtocol)
      → Reach s
      → Reach (send_ping e receiver now s).1
  flushes : (threshold now : ℕ) (s : PingProtocol) → Reach s → Reach (flush_old threshold now s)
  pings : (sender : Bytes) (id : ℕ) (s : PingProtocol) → Reach s → Reach (on_ping sender id s)
  pongs :
      (sender : Bytes) (id now : ℕ) (s : PingProtocol) → Reach s → Reach (on_pong sender id now s)

unfoldable pub open_count : ℕ → List OpenPing → ℕ
open_count id [] = 0
open_count id (p ∷ l) = let rest = open_count id l in if p.id == id then suc rest else rest

unfoldable pub measured_count : ℕ → List Measured → ℕ
measured_count id [] = 0
measured_count id (m ∷ l) = let rest = measured_count id l in if m.id == id then suc rest else rest

open_count-erase :
    (k : ℕ) (host : Bytes) (id : ℕ) (l : List OpenPing)
    → open_count k (erase_ping host id l) ≤ open_count k l
unfolding open_count erase_ping
open_count-erase k host id [] = omega arith
open_count-erase k host id (p ∷ l) = ground (arith, open_count-erase k host id l)

-- An open ping that is erased counts one less.
open_count-found :
    (host : Bytes) (id t : ℕ) (l : List OpenPing)
    → find_ping host id l ≡ some t
    → open_count id (erase_ping host id l) + 1 ≤ open_count id l
unfolding open_count erase_ping find_ping is_key
open_count-found host id t [] h = cc
open_count-found host id t (p ∷ l) h =
    ground (arith, h, open_count-found host id t l, open_count-erase id host id l)

open_count-flush :
    (k threshold now : ℕ) (l : List OpenPing)
    → open_count k (flush threshold now l) ≤ open_count k l
unfolding open_count flush
open_count-flush k threshold now [] = omega arith
open_count-flush k threshold now (p ∷ l) = ground (arith, open_count-flush k threshold now l)

measured_count-append :
    (k : ℕ) (m : Measured) (l : List Measured)
    → measured_count k (l ++ (m ∷ [])) ≡ measured_count k l + (if m.id == k then 1 else 0)
unfolding measured_count
measured_count-append k m [] = ground arith
measured_count-append k m (x ∷ l) = ground (arith, measured_count-append k m l)

unfoldable pub total : ℕ → PingProtocol → ℕ
total k s = open_count k s.open_pings + measured_count k s.pong_received

-- Numbers that are not given yet are neither open nor measured, the others once at most.
abbrev pub IsCounted : PingProtocol → Type 0
IsCounted s = (k : ℕ) → (total k s ≤ 1) × (s.next_id ≤ k → total k s ≡ 0)

gen-IsCounted :
    (receiver : Bytes) (now : ℕ) (s : PingProtocol)
    → IsCounted s
    → IsCounted (gen_ping receiver now s).1
unfolding gen_ping enter_ping total open_count
gen-IsCounted receiver now s sound k =
    ground (arith, sound k, open_count-erase k receiver s.next_id s.open_pings)

after_send-IsCounted :
    (e : Error) (receiver : Bytes) (id : ℕ) (s : PingProtocol)
    → IsCounted s
    → IsCounted (after_send e receiver id s)
unfolding after_send total
after_send-IsCounted Error.no_error receiver id s sound k = sound k
after_send-IsCounted e receiver id s sound k =
    ground (arith, sound k, open_count-erase k receiver id s.open_pings)

send-IsCounted :
    (e : Error) (receiver : Bytes) (now : ℕ) (s : PingProtocol)
    → IsCounted s
    → IsCounted (send_ping e receiver now s).1
unfolding send_ping gen_ping total
send-IsCounted e receiver now s sound =
    let g = gen_ping receiver now s in
    after_send-IsCounted e receiver g.0 (send_message receiver (PingMessage.ping g.0) g.1)
      (gen-IsCounted receiver now s sound)

flush-IsCounted :
    (threshold now : ℕ) (s : PingProtocol) → IsCounted s → IsCounted (flush_old threshold now s)
unfolding flush_old total
flush-IsCounted threshold now s sound k =
    ground (arith, sound k, open_count-flush k threshold now s.open_pings)

pong-IsCounted :
    (sender : Bytes) (id now : ℕ) (s : PingProtocol)
    → IsCounted s
    → IsCounted (on_pong sender id now s)
unfolding on_pong measure total
pong-IsCounted sender id now s sound k = elim (Bool-cases (id == 0)) [
  | inl none_asked ↦ ground (arith, none_asked, sound k)
  | inr asked ↦ elim (Option-cases (find_ping sender id s.open_pings)) [
    | inl unknown ↦ ground (arith, asked, unknown, sound k)
    | inr (t, found) ↦ ground (
      arith,
      asked,
      found,
      sound k,
      open_count-found sender id t s.open_pings found,
      open_count-erase k sender id s.open_pings,
      measured_count-append k (record { host = sender; duration = sub_ℕ now t; id = id })
          s.pong_received,
    )
  ]
]

pub Reach-IsCounted : (s : PingProtocol) → Reach s → IsCounted s
unfolding total open_count measured_count on_ping
Reach-IsCounted _ (Reach.starts listening) = λ k. (omega arith, λ _. refl)
Reach-IsCounted _ (Reach.generates receiver now s r) =
    gen-IsCounted receiver now s (Reach-IsCounted s r)
Reach-IsCounted _ (Reach.sends e receiver now s r) =
    send-IsCounted e receiver now s (Reach-IsCounted s r)
Reach-IsCounted _ (Reach.flushes threshold now s r) =
    flush-IsCounted threshold now s (Reach-IsCounted s r)
Reach-IsCounted _ (Reach.pings sender id s r) = Reach-IsCounted s r
Reach-IsCounted _ (Reach.pongs sender id now s r) =
    pong-IsCounted sender id now s (Reach-IsCounted s r)

pub absent-find :
    (host : Bytes) (id : ℕ) (l : List OpenPing) → open_count id l ≡ 0 → find_ping host id l ≡ none
unfolding open_count find_ping is_key
absent-find host id [] h = refl
absent-find host id (p ∷ l) h = ground (arith, h, absent-find host id l)

-- A ping that was measured was measured once, and a further answer to it, from any host, changes
-- nothing.
pub Reach-on_pong :
    (s : PingProtocol) (sender : Bytes) (id now : ℕ)
    → Reach s
    → 1 ≤ measured_count id s.pong_received
    → (measured_count id s.pong_received ≡ 1) × (on_pong sender id now s ≡ s)
unfolding total on_pong
Reach-on_pong s sender id now r measured =
    let sound = Reach-IsCounted s r id in
    (
      ground (arith, sound, measured),
      ground (
        arith,
        absent-find sender id s.open_pings (ground (arith, sound, measured)),
        Bool-cases (id == 0),
      ),
    )
