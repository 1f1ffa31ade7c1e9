-- ===== src/DataSharingServer/Transmissions.antt =====
-- DataSharingServerImpl.cpp: starting, continuing and cancelling transmissions. The counts and
-- positions are unbounded; an `int` holds the number of chunks of 17 terabytes.
use schneeflocke.Base.{
  ℕ, suc, ◌+◌, ◌/◌, ◌%◌, ◌==◌, ◌||◌, Bool, true, false, Option, none, some, List, [], ◌∷◌, ◌++◌,
  if◌then◌else◌, ltb, not, Bytes, lookup, length,
}
use schneeflocke.Base.Int.{ℤ, pos, negsuc, pos_part, ◌+ℤ◌, ◌-ℤ◌, ltb_ℤ, eq_ℤ}
use schneeflocke.DataSharingServer.{
  DataPromise, SharedData, Transmission, Message, Server, send, permitted,
}
use schneeflocke.Elements.{Mark, Request, RequestMark, RequestReply}
use schneeflocke.Error.{Error, is_error}
use schneeflocke.PathName.{head, sub_path}
use schneeflocke.Range.{Range, is_default, in_range, range_length}

-- `getReadyAsyncOp`: the operation, taken out of the table.
unfoldable pub find_op : ℕ → List Transmission → Option Transmission
find_op id [] = none
find_op id (t ∷ ts) = if t.id == id then some t else find_op id ts

unfoldable pub without_op : ℕ → List Transmission → List Transmission
without_op id [] = []
without_op id (t ∷ ts) = let rest = without_op id ts in if t.id == id then rest else t ∷ rest

abbrev pub no_range : Range
no_range = record { from = pos 0; to = pos 0 }

abbrev pub empty_reply : RequestReply
empty_reply = record {
  path = [];
  err = Error.no_error;
  id = 0;
  user = [];
  revision = pos 0;
  range = no_range;
  mark = Mark.no_mark;
}

min_ℤ : ℤ → ℤ → ℤ
min_ℤ a b = if ltb_ℤ b a then b else a

-- The number of chunks of a range, one at least.
unfoldable pub chunk_count : ℕ → ℕ → ℕ
chunk_count n size = if n == 0 then 1 else n / size + (if ltb 0 (n % size) then 1 else 0)

-- A request without a range has all of the promise; one with a range has that of the reply, which
-- is still the default one.
unfoldable pub used_range : Request → DataPromise → Range
used_range q p = if is_default q.range then record { from = pos 0; to = p.size } else no_range

unfoldable pub new_transmission : ℕ → Bytes → Request → ℤ → DataPromise → Transmission
unfolding chunk_count used_range
new_transmission id sender q revision p = record {
  id = id;
  revision = revision;
  range = used_range q p;
  info = record {
    mark = Mark.transmission_start;
    transferred = 0;
    error = Error.no_error;
    destination = sender;
    path = q.path;
  };
  request_id = q.id;
  chunk_size = 8192;
  count =
      if eq_ℤ p.size (negsuc 0)
      then negsuc 0
      else pos (chunk_count (pos_part (range_length (used_range q p))) 8192);
  next_chunk = 0;
  promise = p;
}

unfoldable pub reply_to : Request → RequestReply
reply_to q = record empty_reply { path = q.path; id = q.id }

refuse : Error → Bytes → Request → Server → Server
unfolding send reply_to
refuse e sender q s = send (sender ∷ []) (Message.reply (record (reply_to q) { err = e }) []) s

-- The promise is there and the request's range fits it: the transmission starts.
unfoldable pub start_transmission : Bytes → Request → ℤ → DataPromise → Server → Server
unfolding send new_transmission used_range reply_to
start_transmission sender q revision p s =
    let t = new_transmission s.next_id sender q revision p in
    send (sender ∷ [])
      (Message.reply
        (record (reply_to q) {
          mark = Mark.transmission_start;
          user = elim q.user [ [] ↦ p.user | _ ∷ _ ↦ q.user ];
          revision = revision;
          range = used_range q p;
        })
        [])
      (record s {
        ops = t ∷ s.ops;
        next_id = suc s.next_id;
        posted = s.posted ++ ((Error.no_error, s.next_id) ∷ []);
        told = s.told ++ ((s.next_id, t.info) ∷ []);
      })

-- `request.revision > 0 ? request.revision : info.currentRevision`.
unfoldable pub used_revision : Request → SharedData → ℤ
used_revision q d = if ltb_ℤ (pos 0) q.revision then q.revision else d.current_revision

-- The promise that a request asks for: `fault` is a null pointer followed.
pub data Found : Type 0 where
  fault missing : Found
  found : DataPromise → Found

-- An empty `request.user` has the code read the description before it looks for null.
unfoldable pub find_promise : Request → SharedData → Found
find_promise q d = elim d.promise [
  | none ↦ Found.fault
  | some p ↦ elim (p.data_at (sub_path q.path) q.user) [
    | none ↦ elim q.user [ [] ↦ Found.fault | _ ∷ _ ↦ Found.missing ]
    | some r ↦ Found.found r
  ]
]

-- The range is not looked at while the size is not known.
unfoldable pub range_fits : Range → DataPromise → Bool
range_fits r p =
    is_default r || (eq_ℤ p.size (negsuc 0) || in_range r (record { from = pos 0; to = p.size }))

-- `TransmissionFinder`, and what is left when all that it finds are dropped.
drop_requested : ℕ → List Transmission → List Transmission
drop_requested id [] = []
drop_requested id (t ∷ ts) =
    let rest = drop_requested id ts in if t.request_id == id then rest else t ∷ rest

is_cancel : RequestMark → Bool
is_cancel RequestMark.transmission_cancel = true
is_cancel _ = false

unfoldable pub on_request_transmission : Bytes → Request → Server → Option Server
unfolding start_transmission drop_requested is_cancel refuse used_revision find_promise range_fits
    permitted
on_request_transmission sender q s =
    if is_cancel q.mark
    then some (record s { ops = drop_requested q.id s.ops })
    else if not (permitted s sender q.path)
    then some (refuse Error.no_perm sender q s)
    else elim (lookup (head q.path) s.shared) [
      | none ↦ some (refuse Error.not_found sender q s)
      | some d ↦
          if not (eq_ℤ d.current_revision (used_revision q d))
          then some (refuse Error.revision_not_found sender q s)
          else elim (find_promise q d) [
            | Found.fault ↦ none
            | Found.missing ↦ some (refuse Error.not_found sender q s)
            | Found.found p ↦ some (
                if range_fits q.range p
                then start_transmission sender q (used_revision q d) p s
                else refuse Error.invalid_argument sender q s)
          ]
    ]

unfoldable pub desired_range : Transmission → Range
unfolding min_ℤ
desired_range t =
    let start = t.range.from +ℤ pos t.info.transferred in
    record {
      from = start;
      to =
          if eq_ℤ t.range.to (negsuc 0)
          then start +ℤ pos t.chunk_size
          else min_ℤ t.range.to (start +ℤ pos t.chunk_size);
    }

is_eof : Error → Bool
is_eof Error.eof = true
is_eof _ = false

-- Whether the next piece is the last one.
unfoldable pub finishes : Transmission → Error → Bool
unfolding is_eof
finishes t read_err = eq_ℤ (pos t.next_chunk) (t.count -ℤ pos 1) || is_eof read_err

unfoldable pub next_reply : Transmission → RequestReply
unfolding desired_range finishes is_eof
next_reply t =
    let (e, b) = t.promise.read (desired_range t) in
    record empty_reply {
      id = t.request_id;
      mark = if finishes t e then Mark.transmission_finish else Mark.transmission;
      range = record {
        from = (desired_range t).from;
        to = (desired_range t).from +ℤ pos (length b);
      };
      err =
          if is_eof e
          then Error.no_error
          else if is_error e
          then Error.read_error
          else Error.no_error;
    }

unfoldable pub next_bytes : Transmission → Bytes
unfolding desired_range
next_bytes t = (t.promise.read (desired_range t)).1

-- The transmission behind the piece.
unfoldable pub advance : Transmission → Transmission
unfolding next_reply next_bytes
advance t = record t {
  next_chunk = suc t.next_chunk;
  info = record (t.info) {
    transferred = t.info.transferred + length (next_bytes t);
    mark = (next_reply t).mark;
    error = if is_error (next_reply t).err then (next_reply t).err else t.info.error;
  };
}

unfoldable pub is_last : Transmission → Bool
unfolding finishes desired_range next_reply
is_last t = is_error (next_reply t).err || finishes t (t.promise.read (desired_range t)).0

-- The receiver is gone or the transfer was cancelled.
abort : Error → Transmission → Server → Server
unfolding send
abort e t s =
    send (t.info.destination ∷ [])
      (Message.reply
        (record empty_reply {
          id = t.request_id;
          path = t.info.path;
          mark = Mark.transmission_cancel;
          err = Error.connection_error;
        })
        [])
      (record s {
        told =
            s.told ++ ((t.id, record (t.info) { mark = Mark.transmission_cancel; error = e }) ∷ []);
      })

-- `send_err` is what sending the piece returned. Its callback, a later call with what became of
-- the piece, is the environment's to make.
unfoldable pub continue_transmission : Error → Error → ℕ → Server → Server
unfolding find_op without_op abort send next_reply next_bytes advance is_last
continue_transmission send_err last_err id s = elim (find_op id s.ops) [
  | none ↦ s
  | some t ↦
      let r = record s { ops = without_op id s.ops } in
      if is_error last_err
      then abort last_err t r
      else if not (t.promise.ready)
      then record r { ops = t ∷ r.ops; posted = r.posted ++ ((Error.no_error, id) ∷ []) }
      else let u = send (t.info.destination ∷ []) (Message.reply (next_reply t) (next_bytes t)) r in
        record u {
          told = u.told ++ ((t.id, (advance t).info) ∷ []);
          ops = if is_error send_err || is_last t then u.ops else advance t ∷ u.ops;
        }
]

unfoldable pub cancel_transfer : ℕ → Server → Error × Server
unfolding find_op
cancel_transfer id s = elim (find_op id s.ops) [
  | none ↦ (Error.not_found, s)
  | some t ↦ (Error.no_error, record s { posted = s.posted ++ ((Error.canceled, id) ∷ []) })
]

-- `Transmission::onCancel`, called when the time is out.
unfoldable pub on_time_out : ℕ → Server → Server
unfolding find_op without_op
on_time_out id s = elim (find_op id s.ops) [
  | none ↦ s
  | some t ↦ record s {
    ops = without_op id s.ops;
    told =
        s.told
        ++ ((t.id, record (t.info) { mark = Mark.transmission_cancel; error = Error.time_out })
            ∷ []);
  }
]
