-- ===== src/DataSharingServer/Delivery.antt =====
-- From the request of a transmission to the receiver's file: the server's
-- `onRequestTransmission` and `continueTransmission`, and `FileTransfer` at the other end.
use schneeflocke.Base.{
  ℕ, suc, ◌-◌, ◌≡◌, refl, sym, ap, ◌∙◌, subst, true, Option, none, some, List, [], ◌∷◌, ◌++◌, map,
  append_assoc, Bytes, lookup, length, arith,
}
use schneeflocke.Base.Int.{ℤ, pos, eq_ℤ}
use schneeflocke.DataSharingServer.{
  byte_array_promise, DataPromise, SharedData, Transmission, Server, Sent, send, permitted,
}
use schneeflocke.DataSharingServer.Transfer.{run, run-chunks, to_host, at}
use schneeflocke.DataSharingServer.Transmissions.{
  Found, find_op, chunk_count, find_promise, range_fits, used_range, used_revision,
  new_transmission, reply_to, start_transmission, on_request_transmission,
}
use schneeflocke.Elements.{Mark, Request, RequestMark, RequestReply}
use schneeflocke.Error.{Error}
use schneeflocke.FileTransfer.{FileTransfer, State}
use schneeflocke.FileTransfer.Content.{Piece, contents, receive_all, receive_all-Finished, Finished}
use schneeflocke.PathName.{head}
use schneeflocke.Range.{is_default, range_length}

unfoldable pub first_reply : Request → ℤ → DataPromise → RequestReply
first_reply q revision p = record (reply_to q) {
  mark = Mark.transmission_start;
  user = elim q.user [ [] ↦ p.user | _ ∷ _ ↦ q.user ];
  revision = revision;
  range = used_range q p;
}

pub starts :
    (sender : Bytes) (q : Request) (s : Server) (d : SharedData) (r : DataPromise)
    → q.mark ≡ RequestMark.transmission
    → permitted s sender q.path ≡ true
    → lookup (head q.path) s.shared ≡ some d
    → find_promise q d ≡ Found.found r
    → eq_ℤ d.current_revision (used_revision q d) ≡ true
    → range_fits q.range r ≡ true
    → on_request_transmission sender q s
      ≡ some (start_transmission sender q (used_revision q d) r s)
unfolding on_request_transmission
starts sender q s d r mark may found there now fits =
    ground (arith, mark, may, found, there, now, fits)

start_at :
    (id : ℕ) (sender : Bytes) (q : Request) (n : ℤ) (w user : Bytes)
    → is_default q.range ≡ true
    → new_transmission id sender q n (byte_array_promise w user)
      ≡ at
          (new_transmission id sender q n (byte_array_promise w user))
          w
          user
          Mark.transmission_start
          0
unfolding new_transmission used_range byte_array_promise range_length
start_at id sender q n w user whole = ground (arith, whole)

abbrev pub first_piece : Request → ℤ → DataPromise → Piece
first_piece q n p = record { reply = first_reply q n p; bytes = [] }

pub first_range :
    (q : Request) (w user : Bytes)
    → is_default q.range ≡ true
    → ((used_range q (byte_array_promise w user)).from ≡ pos 0)
      × (range_length (used_range q (byte_array_promise w user)) ≡ pos (length w))
      × (range_fits q.range (byte_array_promise w user) ≡ true)
unfolding used_range byte_array_promise range_length range_fits
first_range q w user whole = ground (arith, whole)

reply_err : (q : Request) → (reply_to q).err ≡ Error.no_error
unfolding reply_to
reply_err q = refl

pub started-sent :
    (sender : Bytes) (q : Request) (n : ℤ) (p : DataPromise) (s : Server)
    → (start_transmission sender q n p s).sent ≡ s.sent ++ (to_host sender (first_piece q n p) ∷ [])
unfolding start_transmission send first_reply
started-sent sender q n p s = refl

pub started-find_op :
    (sender : Bytes) (q : Request) (n : ℤ) (p : DataPromise) (s : Server)
    → find_op s.next_id (start_transmission sender q n p s).ops
      ≡ some (new_transmission s.next_id sender q n p)
unfolding start_transmission send find_op new_transmission
started-find_op sender q n p s = ground arith

chunk_count-positive : (n : ℕ) → (k : ℕ) × (suc k ≡ chunk_count n 8192)
unfolding chunk_count
chunk_count-positive n = (chunk_count n 8192 - 1, ground arith)

-- A permitted request for the transmission of all of some shared, fixed data is accepted. After as
-- many calls of `continueTransmission` as there are chunks, the transmission is over, the sender of
-- the request was sent pieces whose bytes are the data, nothing else was sent, and a transfer that
-- waits for them and gets them has finished with the data in its closed file.
pub transmission-delivers :
    (sender : Bytes) (q : Request) (s : Server) (d : SharedData) (w user : Bytes) (c : FileTransfer)
    → q.mark ≡ RequestMark.transmission
    → permitted s sender q.path ≡ true
    → lookup (head q.path) s.shared ≡ some d
    → find_promise q d ≡ Found.found (byte_array_promise w user)
    → eq_ℤ d.current_revision (used_revision q d) ≡ true
    → is_default q.range ≡ true
    → c.state ≡ State.starting
    → c.transferred ≡ 0
    → (t : Server) × (ps : List Piece) × (on_request_transmission sender q s ≡ some t)
      × ((run (chunk_count (length w) 8192) s.next_id t).sent ≡ s.sent ++ map (to_host sender) ps)
      × (find_op s.next_id (run (chunk_count (length w) 8192) s.next_id t).ops ≡ none)
      × (contents ps ≡ w)
      × Finished (receive_all c ps) w c.sent
unfolding new_transmission first_reply
transmission-delivers sender q s d w user c mark may found there now whole starting nothing =
    let r = byte_array_promise w user in
    let n = used_revision q d in
    let (from, long, fits) = first_range q w user whole in
    let t = start_transmission sender q n r s in
    let new = new_transmission s.next_id sender q n r in
    let (k, total) = chunk_count-positive (length w) in
    let (ps, l, sent, gone, rest, middle, err, end) =
      run-chunks k 0 new w user Mark.transmission_start t (omega (arith, total))
        (started-find_op sender q n r s ∙ ap some (start_at s.next_id sender q n w user whole)) in
    (
      t,
      first_piece q n r ∷ (ps ++ (l ∷ [])),
      starts sender q s d r mark may found there now fits,
      subst
          (λ (j : ℕ).
            Path (List Sent) (run j s.next_id t).sent
              (s.sent ++ map (to_host sender) (first_piece q n r ∷ (ps ++ (l ∷ [])))))
          total
          (sent
            ∙ ap (λ x. x ++ map (to_host sender) (ps ++ (l ∷ []))) (started-sent sender q n r s)
            ∙ append_assoc s.sent (to_host sender (first_piece q n r) ∷ []) _),
      subst (λ (j : ℕ). Path (Option Transmission) (find_op s.next_id (run j s.next_id t).ops) none)
          total gone,
      rest,
      subst
          (λ (x : Bytes). Finished (receive_all c (first_piece q n r ∷ (ps ++ (l ∷ [])))) x c.sent)
          rest
          (receive_all-Finished c (first_piece q n r) ps l starting nothing (reply_err q) refl from
            (long ∙ ap (λ (x : Bytes). pos (length x)) (sym rest)) middle err end),
    )
