-- ===== src/FileTransfer/Tests.antt =====
-- A file of five bytes that comes in three pieces.
use schneeflocke.Base.{ℕ, ◌≡◌, refl, true, false, some, [], ◌∷◌, codes, Bytes}
use schneeflocke.Base.Int.{pos}
use schneeflocke.Elements.{Mark}
use schneeflocke.Error.{Error}
use schneeflocke.Range.{range_length}
use schneeflocke.FileTransfer.{FileTransfer, Disk, new_transfer, start, on_request_reply}
use schneeflocke.FileTransfer.Lifecycle.{
  IsConsistent, fresh, next, starts, replies, Reach-IsConsistent,
}
use schneeflocke.FileTransfer.Content.{Piece, receive_all, Finished, receive_all-Finished}

abbrev piece : Mark → ℕ → Bytes → Piece
piece m n b = record {
  reply = record {
    path = [];
    user = [];
    revision = pos 1;
    err = Error.no_error;
    id = 7;
    mark = m;
    range = record { from = pos 0; to = pos n };
  };
  bytes = b;
}

abbrev begun : FileTransfer
unfolding start new_transfer
begun = (start false Error.no_error (codes "f") new_transfer).1

begun_receives :
    (receive_all begun (
      piece Mark.transmission_start 5 []
      ∷ piece Mark.transmission 0 (codes "ab")
      ∷ piece Mark.transmission_finish 0 (codes "cde")
      ∷ [])).closed_file
    ≡ some (codes "abcde")
unfolding begun receive_all on_request_reply range_length
begun_receives = refl

receive_all-Finished_example :
    Finished
      (receive_all begun (
        piece Mark.transmission_start 5 []
        ∷ piece Mark.transmission 0 (codes "ab")
        ∷ piece Mark.transmission_finish 0 (codes "cde")
        ∷ []))
      (codes "abcde")
      []
unfolding begun range_length
receive_all-Finished_example =
    receive_all-Finished begun (piece Mark.transmission_start 5 [])
      (piece Mark.transmission 0 (codes "ab") ∷ []) (piece Mark.transmission_finish 0 (codes "cde"))
      refl refl refl refl refl refl ((refl, refl), tt) refl refl

abbrev short_disk : Disk
short_disk = record { opens = true; writes = 1 }

Reach-IsConsistent_example : IsConsistent (
    on_request_reply short_disk
      (piece Mark.transmission_start 2 []).reply
      (codes "ab")
      (start false Error.no_error (codes "f") new_transfer).1)
unfolding new_transfer
Reach-IsConsistent_example = Reach-IsConsistent (
    next (next fresh (starts false Error.no_error (codes "f") refl))
      (replies short_disk (piece Mark.transmission_start 2 []).reply (codes "ab")))
