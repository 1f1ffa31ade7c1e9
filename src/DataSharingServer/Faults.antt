-- ===== src/DataSharingServer/Faults.antt =====
-- Requests that the server does not serve as meant: data shared before there is any, and
-- transmissions of a part.
use schneeflocke.Base.{
  ℕ, ◌≡◌, ◌≢◌, refl, ap, ◌∙◌, true, false, none, some, [], ◌∷◌, ◌++◌, map, append_assoc, Bytes,
  lookup, length, arith,
}
use schneeflocke.Base.Int.{ℤ, pos, ltb_ℤ, eq_ℤ}
use schneeflocke.DataSharingServer.{byte_array_promise, SharedData, Server, permitted, share}
use schneeflocke.DataSharingServer.Delivery.{
  first_piece, first_reply, starts, started-sent, started-find_op,
}
use schneeflocke.DataSharingServer.Requests.{answer, on_request}
use schneeflocke.DataSharingServer.Sharing.{lookup-insert_self}
use schneeflocke.DataSharingServer.Transfer.{run, to_host, next_piece, continue-sent}
use schneeflocke.DataSharingServer.Transmissions.{
  Found, chunk_count, find_promise, range_fits, used_range, used_revision, no_range,
  new_transmission, start_transmission, on_request_transmission, desired_range, finishes,
  next_reply, next_bytes,
}
use schneeflocke.Elements.{Mark, Request, RequestMark}
use schneeflocke.Error.{Error}
use schneeflocke.FileTransfer.Content.{Piece}
use schneeflocke.PathName.{head, has_sub_path}
use schneeflocke.Range.{Range, is_default, in_range, range_length}

without_promise : SharedData
without_promise = record { promise = none; current_revision = pos 0; subscribers = [] }

head_plain : (p : Bytes) → has_sub_path p ≡ false → head p ≡ p
unfolding head has_sub_path
head_plain p plain = ground arith

shared_empty :
    (path : Bytes) (s : Server)
    → has_sub_path path ≡ false
    → lookup path s.shared ≡ none
    → (lookup path (share path none s).1.shared ≡ some without_promise)
      × ((share path none s).1.check_permissions ≡ s.check_permissions)
unfolding share without_promise
shared_empty path s plain new =
    ground (arith, plain, new, lookup-insert_self path without_promise s.shared)

-- A path that is shared without data, as `share` allows: a permitted request for it that asks for
-- no revision follows a null pointer, whether it is for a reply or for a transmission.
pub share-on_request_fault :
    (sender path : Bytes) (q : Request) (s : Server)
    → has_sub_path path ≡ false
    → lookup path s.shared ≡ none
    → q.path ≡ path
    → ltb_ℤ (pos 0) q.revision ≡ false
    → permitted s sender path ≡ true
    → q.mark ≢ RequestMark.transmission_cancel
    → on_request sender q (share path none s).1 ≡ none
unfolding on_request answer on_request_transmission find_promise used_revision without_promise
    permitted
share-on_request_fault sender path q s plain new here any may goes =
    let (found, same) = shared_empty path s plain new in ground (arith, head_plain path plain)

ranged-desired :
    (id : ℕ) (sender : Bytes) (q : Request) (n : ℤ) (w user : Bytes)
    → is_default q.range ≡ false
    → (desired_range (new_transmission id sender q n (byte_array_promise w user)) ≡ no_range)
      × (finishes (new_transmission id sender q n (byte_array_promise w user)) Error.no_error
          ≡ true)
unfolding new_transmission used_range byte_array_promise range_length desired_range finishes
    chunk_count
ranged-desired id sender q n w user part = ground (arith, part)

no_bytes : (w user : Bytes) (r : Range) → r ≡ no_range → ((byte_array_promise w user).read r).1 ≡ []
unfolding byte_array_promise range_length
no_bytes w user r e = rw e refl

ranged-next :
    (id : ℕ) (sender : Bytes) (q : Request) (n : ℤ) (w user : Bytes)
    → is_default q.range ≡ false
    → (next_bytes (new_transmission id sender q n (byte_array_promise w user)) ≡ [])
      × ((next_reply (new_transmission id sender q n (byte_array_promise w user))).mark
          ≡ Mark.transmission_finish)
      × ((next_reply (new_transmission id sender q n (byte_array_promise w user))).err
          ≡ Error.no_error)
unfolding new_transmission byte_array_promise next_bytes next_reply
ranged-next id sender q n w user part =
    let (none_asked, ends) = ranged-desired id sender q n w user part in
    (no_bytes w user _ none_asked, rw ends refl, refl)

ranged-first :
    (q : Request) (n : ℤ) (w user : Bytes)
    → is_default q.range ≡ false
    → (first_reply q n (byte_array_promise w user)).range ≡ no_range
unfolding first_reply used_range
ranged-first q n w user part = ground (arith, part)

fits :
    (q : Request) (w user : Bytes)
    → in_range q.range (record { from = pos 0; to = pos (length w) }) ≡ true
    → range_fits q.range (byte_array_promise w user) ≡ true
unfolding range_fits byte_array_promise
fits q w user inside = ground (arith, inside)

-- A permitted request for the transmission of a part of fixed data, of a range inside it, is
-- accepted, but whatever the range, the announced range is the empty one and the only piece sent
-- after it is the last, empty and without an error.
pub ranged_transmission-next_piece :
    (sender : Bytes) (q : Request) (s : Server) (d : SharedData) (w user : Bytes)
    → q.mark ≡ RequestMark.transmission
    → permitted s sender q.path ≡ true
    → lookup (head q.path) s.shared ≡ some d
    → find_promise q d ≡ Found.found (byte_array_promise w user)
    → eq_ℤ d.current_revision (used_revision q d) ≡ true
    → is_default q.range ≡ false
    → in_range q.range (record { from = pos 0; to = pos (length w) }) ≡ true
    → (t : Server) × (first last : Piece) × (on_request_transmission sender q s ≡ some t)
      × ((run 1 s.next_id t).sent ≡ s.sent ++ map (to_host sender) (first ∷ last ∷ []))
      × (first.reply.range ≡ no_range)
      × (last.bytes ≡ [])
      × (last.reply.mark ≡ Mark.transmission_finish)
      × (last.reply.err ≡ Error.no_error)
unfolding run new_transmission byte_array_promise
ranged_transmission-next_piece sender q s d w user mark may found there now part inside =
    let r = byte_array_promise w user in
    let n = used_revision q d in
    let t = start_transmission sender q n r s in
    let new = new_transmission s.next_id sender q n r in
    let (empty, end, err) = ranged-next s.next_id sender q n w user part in
    (
      t,
      first_piece q n r,
      next_piece new,
      starts sender q s d r mark may found there now (fits q w user inside),
      continue-sent s.next_id new t (started-find_op sender q n r s) refl
          ∙ ap (λ x. x ++ (to_host sender (next_piece new) ∷ [])) (started-sent sender q n r s)
          ∙ append_assoc s.sent (to_host sender (first_piece q n r) ∷ []) _,
      ranged-first q n w user part,
      empty,
      end,
      err,
    )
