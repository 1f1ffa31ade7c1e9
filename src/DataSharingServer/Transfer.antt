-- ===== src/DataSharingServer/Transfer.antt =====
-- A transmission of fixed data: the chunks that the server sends, and the receiver's file.
use schneeflocke.Base.{
  ℕ, zero, suc, ◌+◌, ◌-◌, ◌*◌, ◌≤◌, ◌<◌, ◌≡◌, refl, sym, ap, ap₂, ◌∙◌, true, false, none, some,
  List, [], ◌∷◌, ◌++◌, map, append-nil, append_assoc, if◌then◌else◌, Bytes, length, take, drop,
  length-take, length-drop, take_all, take-append-drop, All, arith,
}
use schneeflocke.Base.Int.{pos}
use schneeflocke.DataSharingServer.{byte_array_promise, Transmission, Message, Server, Sent, send}
use schneeflocke.DataSharingServer.Transmissions.{
  finishes, find_op, without_op, chunk_count, desired_range, next_reply, next_bytes, advance,
  is_last, continue_transmission,
}
use schneeflocke.Elements.{Mark}
use schneeflocke.Error.{Error}
use schneeflocke.FileTransfer.Content.{Piece, contents, IsMiddle}
use schneeflocke.Range.{Range, range_length}

-- The calls of `continueTransmission` that follow pieces well sent.
unfoldable pub run : ℕ → ℕ → Server → Server
run zero id s = s
run (suc n) id s = run n id (continue_transmission Error.no_error Error.no_error id s)

-- What the sending of one piece leaves.
abbrev pub to_host : Bytes → Piece → Sent
to_host host p = record { to = host ∷ []; message = Message.reply p.reply p.bytes }

abbrev pub next_piece : Transmission → Piece
next_piece t = record { reply = next_reply t; bytes = next_bytes t }

find_op-without_op : (id : ℕ) (ts : List Transmission) → find_op id (without_op id ts) ≡ none
unfolding find_op without_op
find_op-without_op id [] = refl
find_op-without_op id (t ∷ ts) = ground (arith, find_op-without_op id ts)

pub continue-sent :
    (id : ℕ) (t : Transmission) (s : Server)
    → find_op id s.ops ≡ some t
    → t.promise.ready ≡ true
    → (continue_transmission Error.no_error Error.no_error id s).sent
      ≡ s.sent ++ (to_host t.info.destination (next_piece t) ∷ [])
unfolding continue_transmission send
continue-sent id t s found ready = ground (arith, found, ready)

continue-find_op :
    (id : ℕ) (t : Transmission) (s : Server)
    → find_op id s.ops ≡ some t
    → t.id ≡ id
    → t.promise.ready ≡ true
    → find_op id (continue_transmission Error.no_error Error.no_error id s).ops
      ≡ (if is_last t then none else some (advance t))
unfolding continue_transmission send find_op
continue-find_op id t s found same ready =
    ground (arith, found, ready, find_op-without_op id s.ops, same)

-- The transmission of `w` with `k` chunks sent.
abbrev pub at : Transmission → Bytes → Bytes → Mark → ℕ → Transmission
at t w user m k = record t {
  range = record { from = pos 0; to = pos (length w) };
  info = record (t.info) { mark = m; transferred = k * 8192; error = Error.no_error };
  chunk_size = 8192;
  count = pos (chunk_count (length w) 8192);
  next_chunk = k;
  promise = byte_array_promise w user;
}

-- A chunk that is not the last has 8192 bytes behind it.
chunk_count-bounds :
    (n k : ℕ)
    → (suc k < chunk_count n 8192 → k * 8192 + 8192 ≤ n)
      × (suc k ≡ chunk_count n 8192 → (k * 8192 ≤ n) × (n ≤ k * 8192 + 8192))
unfolding chunk_count
chunk_count-bounds n k = ground arith

suc_add : (a b : ℕ) → suc a + b ≡ suc (a + b)
suc_add a b = omega arith

next_start : (k : ℕ) → suc k * 8192 ≡ k * 8192 + 8192
next_start k = omega arith

add_sub : (a b : ℕ) → (a + b) - a ≡ b
add_sub a b = omega arith

drop-nil : (n : ℕ) → Path Bytes (drop n []) []
drop-nil zero = refl
drop-nil (suc n) = refl

drop_add : (a b : ℕ) (w : Bytes) → drop (a + b) w ≡ drop b (drop a w)
drop_add zero b w = ap (λ (n : ℕ). drop n w) (omega arith)
drop_add (suc a) b [] = drop-nil (suc a + b) ∙ sym (drop-nil b)
drop_add (suc a) b (x ∷ w) = ap (λ (n : ℕ). drop n (x ∷ w)) (suc_add a b) ∙ drop_add a b w

take-drop_add : (a b : ℕ) (w : Bytes) → take b (drop a w) ++ drop (a + b) w ≡ drop a w
take-drop_add a b w = rw (drop_add a b w) (take-append-drop b (drop a w))

desired-middle :
    (t : Transmission) (w user : Bytes) (m : Mark) (k : ℕ)
    → k * 8192 + 8192 ≤ length w
    → desired_range (at t w user m k) ≡ record { from = pos (k * 8192); to = pos (k * 8192 + 8192) }
unfolding desired_range
desired-middle t w user m k more = ground arith

desired-last :
    (t : Transmission) (w user : Bytes) (m : Mark) (k : ℕ)
    → k * 8192 ≤ length w
    → length w ≤ k * 8192 + 8192
    → desired_range (at t w user m k) ≡ record { from = pos (k * 8192); to = pos (length w) }
unfolding desired_range
desired-last t w user m k from to = ground arith

finishes_iff :
    (t : Transmission) (w user : Bytes) (m : Mark) (k : ℕ)
    → (suc k < chunk_count (length w) 8192 → finishes (at t w user m k) Error.no_error ≡ false)
      × (suc k ≡ chunk_count (length w) 8192 → finishes (at t w user m k) Error.no_error ≡ true)
unfolding finishes
finishes_iff t w user m k = ground arith

read-between :
    (w user : Bytes) (r : Range) (a b : ℕ)
    → r ≡ record { from = pos a; to = pos b }
    → a ≤ b
    → ((byte_array_promise w user).read r).1 ≡ take (b - a) (drop a w)
unfolding byte_array_promise range_length
read-between w user r a b e le = rw e (ap (λ (n : ℕ). take n (drop a w)) (ground arith))

next-middle :
    (t : Transmission) (w user : Bytes) (m : Mark) (k : ℕ)
    → suc k < chunk_count (length w) 8192
    → (next_bytes (at t w user m k) ≡ take 8192 (drop (k * 8192) w))
      × ((next_reply (at t w user m k)).err ≡ Error.no_error)
      × ((next_reply (at t w user m k)).mark ≡ Mark.transmission)
      × (is_last (at t w user m k) ≡ false)
unfolding next_bytes next_reply is_last byte_array_promise
next-middle t w user m k more =
    let range = desired-middle t w user m k ((chunk_count-bounds (length w) k).0 more) in
    let runs = (finishes_iff t w user m k).0 more in
    (
      read-between w user _ (k * 8192) (k * 8192 + 8192) range (omega arith)
          ∙ ap (λ (n : ℕ). take n (drop (k * 8192) w)) (add_sub (k * 8192) 8192),
      refl,
      rw runs refl,
      runs,
    )

next-last :
    (t : Transmission) (w user : Bytes) (m : Mark) (k : ℕ)
    → suc k ≡ chunk_count (length w) 8192
    → (next_bytes (at t w user m k) ≡ drop (k * 8192) w)
      × ((next_reply (at t w user m k)).err ≡ Error.no_error)
      × ((next_reply (at t w user m k)).mark ≡ Mark.transmission_finish)
      × (is_last (at t w user m k) ≡ true)
unfolding next_bytes next_reply is_last byte_array_promise
next-last t w user m k last =
    let (from, to) = (chunk_count-bounds (length w) k).1 last in
    let range = desired-last t w user m k from to in
    let ends = (finishes_iff t w user m k).1 last in
    (
      read-between w user _ (k * 8192) (length w) range from
          ∙ take_all (length w - k * 8192) (drop (k * 8192) w)
              (omega (arith, length-drop (k * 8192) w)),
      refl,
      rw ends refl,
      ends,
    )

next-length :
    (t : Transmission) (w user : Bytes) (m : Mark) (k : ℕ)
    → suc k < chunk_count (length w) 8192
    → k * 8192 + length (next_bytes (at t w user m k)) ≡ suc k * 8192
next-length t w user m k more =
    let bytes = (next-middle t w user m k more).0 in
    let room = (chunk_count-bounds (length w) k).0 more in
    rw bytes (omega (arith, room, length-take 8192 (drop (k * 8192) w), length-drop (k * 8192) w))

advance-middle :
    (t : Transmission) (w user : Bytes) (m : Mark) (k : ℕ)
    → suc k < chunk_count (length w) 8192
    → advance (at t w user m k) ≡ at t w user Mark.transmission (suc k)
unfolding advance
advance-middle t w user m k more = ground (
  arith,
  next-length t w user m k more,
  (next-middle t w user m k more).1,
  (next-middle t w user m k more).2,
)

-- With `n + 1` chunks to go, as many calls send them all, in order and to the receiver only, and
-- end the transmission.
pub run-chunks :
    (n k : ℕ) (t : Transmission) (w user : Bytes) (m : Mark) (s : Server)
    → suc n + k ≡ chunk_count (length w) 8192
    → find_op t.id s.ops ≡ some (at t w user m k)
    → (ps : List Piece) × (q : Piece) × ((run (suc n) t.id s).sent
        ≡ s.sent ++ map (to_host t.info.destination) (ps ++ (q ∷ [])))
      × (find_op t.id (run (suc n) t.id s).ops ≡ none)
      × (contents (ps ++ (q ∷ [])) ≡ drop (k * 8192) w)
      × All IsMiddle ps
      × (q.reply.err ≡ Error.no_error)
      × (q.reply.mark ≡ Mark.transmission_finish)
unfolding run byte_array_promise
run-chunks zero k t w user m s total found =
    let now = at t w user m k in
    let (bytes, err, mark, ends) = next-last t w user m k (omega arith) in
    (
      [],
      next_piece now,
      continue-sent t.id now s found refl,
      continue-find_op t.id now s found refl refl ∙ rw ends refl,
      append-nil (next_bytes now) ∙ bytes,
      tt,
      err,
      mark,
    )
run-chunks (suc n) k t w user m s total found =
    let now = at t w user m k in
    let more : suc k < chunk_count (length w) 8192 = omega arith in
    let (bytes, err, mark, goes) = next-middle t w user m k more in
    let (ps, q, sent, gone, rest, middle, q_err, q_mark) =
      run-chunks n (suc k) t w user Mark.transmission
        (continue_transmission Error.no_error Error.no_error t.id s) (omega arith)
        (continue-find_op t.id now s found refl refl
          ∙ rw goes (ap some (advance-middle t w user m k more))) in
    (
      next_piece now ∷ ps,
      q,
      sent
          ∙ ap (λ l. l ++ map (to_host t.info.destination) (ps ++ (q ∷ [])))
              (continue-sent t.id now s found refl)
          ∙ append_assoc s.sent (to_host t.info.destination (next_piece now) ∷ []) _,
      gone,
      ap₂ (λ (a b : Bytes). a ++ b) bytes (rest ∙ ap (λ (i : ℕ). drop i w) (next_start k))
          ∙ take-drop_add (k * 8192) 8192 w,
      ((err, mark), middle),
      q_err,
      q_mark,
    )
