-- ===== src/FileTransfer/Content.antt =====
-- A transmission that comes in whole, on a disk that takes it, leaves the file that was sent.
use schneeflocke.Base.{
  ℕ, ◌+◌, ◌≡◌, subst, true, none, some, List, [], ◌∷◌, ◌++◌, append_assoc, append-nil, arith, All,
  length, length-append, take_all, eq_nil_of_length, Bytes,
}
use schneeflocke.Base.Int.{ℤ, pos, eq_ℤ_iff}
use schneeflocke.Elements.{Mark, RequestReply}
use schneeflocke.Error.{Error}
use schneeflocke.Range.{range_length}
use schneeflocke.FileTransfer.{
  FileTransfer, State, Disk, on_request_reply, note_cancel, note_id, by_state, cleanup_if_over,
  handle_transmission_starting, handle_transmission_transferring,
}

-- The disk writes all of `b`.
abbrev pub healthy : Bytes → Disk
healthy b = record { opens = true; writes = length b }

pub record Piece : Type 0 where
  pub reply : RequestReply
  pub bytes : Bytes

abbrev pub receive : FileTransfer → Piece → FileTransfer
receive t p = on_request_reply (healthy p.bytes) p.reply p.bytes t

unfoldable pub receive_all : FileTransfer → List Piece → FileTransfer
receive_all t [] = t
receive_all t (p ∷ ps) = receive_all (receive t p) ps

-- The bytes of all pieces, in order.
abbrev pub contents : List Piece → Bytes
contents [] = []
contents (p ∷ ps) = p.bytes ++ contents ps

abbrev pub IsMiddle : Piece → Type 0
IsMiddle p = (p.reply.err ≡ Error.no_error) × (p.reply.mark ≡ Mark.transmission)

-- A running transfer whose file holds `w`.
record Running (t : FileTransfer) (w : Bytes) (size : ℤ) (sent : List ℕ) : Type 0 where
  pub state_is : t.state ≡ State.transferring
  pub holds : t.destination ≡ some w
  counts : t.transferred ≡ length w
  expects : t.size ≡ size
  pub sent_is : t.sent ≡ sent

first-Running :
    (t : FileTransfer) (p : Piece)
    → t.state ≡ State.starting
    → t.transferred ≡ 0
    → p.reply.err ≡ Error.no_error
    → p.reply.mark ≡ Mark.transmission_start
    → p.reply.range.from ≡ pos 0
    → Running (receive t p) p.bytes (range_length p.reply.range) t.sent
unfolding on_request_reply note_cancel note_id by_state handle_transmission_starting
    handle_transmission_transferring cleanup_if_over
first-Running t p e z err mark from = ground (arith, take_all (length p.bytes) p.bytes)

middle-Running :
    (t : FileTransfer) (p : Piece) {w : Bytes} {n : ℤ} {sent : List ℕ}
    → Running t w n sent
    → IsMiddle p
    → Running (receive t p) (w ++ p.bytes) n sent
unfolding on_request_reply note_cancel note_id by_state handle_transmission_transferring
    cleanup_if_over
middle-Running t p {w} r m = ground (
  arith,
  take_all (length p.bytes) p.bytes,
  length-append w p.bytes,
  append-nil w,
  eq_nil_of_length p.bytes,
)

pub record Finished (t : FileTransfer) (w : Bytes) (sent : List ℕ) : Type 0 where
  pub state_is : t.state ≡ State.finished
  pub closed : t.destination ≡ none
  pub holds : t.closed_file ≡ some w
  pub sent_is : t.sent ≡ sent

last-Finished :
    (t : FileTransfer) (p : Piece) {w : Bytes} {n : ℤ} {sent : List ℕ}
    → Running t w n sent
    → p.reply.err ≡ Error.no_error
    → p.reply.mark ≡ Mark.transmission_finish
    → n ≡ pos (length (w ++ p.bytes))
    → Finished (receive t p) (w ++ p.bytes) sent
unfolding on_request_reply note_cancel note_id by_state handle_transmission_transferring
    cleanup_if_over
last-Finished t p {w} r e m size = ground (
  arith,
  take_all (length p.bytes) p.bytes,
  length-append w p.bytes,
  append-nil w,
  eq_nil_of_length p.bytes,
  eq_ℤ_iff (pos (t.transferred + length p.bytes)) t.size,
)

rest-Finished :
    (ps : List Piece) (t : FileTransfer) (p : Piece) (w : Bytes) {n : ℤ} {sent : List ℕ}
    → Running t w n sent
    → All IsMiddle ps
    → p.reply.err ≡ Error.no_error
    → p.reply.mark ≡ Mark.transmission_finish
    → n ≡ pos (length (w ++ contents (ps ++ p ∷ [])))
    → Finished (receive_all t (ps ++ p ∷ [])) (w ++ contents (ps ++ p ∷ [])) sent
unfolding receive_all
rest-Finished [] t p w r ms e m size =
    rw (append-nil p.bytes) (last-Finished t p r e m (rw (append-nil p.bytes) at size))
rest-Finished (q ∷ ps) t p w {n} {sent} r (mq, ms) e m size =
    subst (λ (x : Bytes). Finished (receive_all (receive t q) (ps ++ p ∷ [])) x sent)
      (append_assoc w q.bytes (contents (ps ++ p ∷ [])))
      (rest-Finished ps (receive t q) p (w ++ q.bytes) (middle-Running t q r mq) ms e m
        (rw (append_assoc w q.bytes (contents (ps ++ p ∷ []))) size))

-- From a started transfer: a first piece that announces the size of all that follows, any pieces
-- between, and a last one, leave a finished transfer whose closed file is all pieces in order, and
-- nothing was cancelled.
pub receive_all-Finished :
    (t : FileTransfer) (p : Piece) (ps : List Piece) (q : Piece)
    → t.state ≡ State.starting
    → t.transferred ≡ 0
    → p.reply.err ≡ Error.no_error
    → p.reply.mark ≡ Mark.transmission_start
    → p.reply.range.from ≡ pos 0
    → range_length p.reply.range ≡ pos (length (contents (p ∷ (ps ++ q ∷ []))))
    → All IsMiddle ps
    → q.reply.err ≡ Error.no_error
    → q.reply.mark ≡ Mark.transmission_finish
    → Finished (receive_all t (p ∷ (ps ++ q ∷ []))) (contents (p ∷ (ps ++ q ∷ []))) t.sent
unfolding receive_all
receive_all-Finished t p ps q s z pe pm pf size ms qe qm =
    rest-Finished ps (receive t p) q p.bytes (first-Running t p s z pe pm pf) ms qe qm size
