-- ===== src/DataSharingServer.antt =====
-- libschnee/schnee/p2p/com/DataSharingServerImpl.cpp and .h, p2p/DataPromise.h and
-- p2p/DataSharingServer.h: what a host shares, and whom it tells of changes. `none` as the result
-- of an operation is a null pointer followed. Requests and transmissions are in the child modules.
pub mod Requests
pub mod Sharing
pub mod Invariant
pub mod Transmissions
pub mod Transfer
pub mod Delivery
pub mod Faults
pub mod Refinement
mod Tests
use schneeflocke.Base.{
  ℕ, zero, suc, ◌+◌, Bool, true, false, ◌&&◌, Option, none, some, List, [], ◌∷◌, ◌++◌, map,
  if◌then◌else◌, ltb, not, Bytes, same, Map, lookup, insert, erase, length, take, drop,
}
use schneeflocke.Base.Int.{ℤ, pos, negsuc, pos_part, ◌+ℤ◌, ◌-ℤ◌, leb_ℤ, ltb_ℤ}
use schneeflocke.Elements.{
  Mark, NotifyMark, Notify, RequestReply, Subscribe, SubscribeReply, Push, PushReply,
}
use schneeflocke.Error.{Error}
use schneeflocke.PathName.{has_sub_path}
use schneeflocke.Range.{Range, range_length}

-- What the server asks of a promise. `user` is that of its description.
pub record DataPromise : Type 0 where
  pub ready : Bool
  pub size : ℤ
  pub read : Range → Error × Bytes
  pub user : Bytes

-- The source reads from `begin () + from` to `begin () + to`, so a range inside the data is
-- demanded of the caller; for another one the model's list just ends.
unfoldable pub byte_array_promise : Bytes → Bytes → DataPromise
byte_array_promise w user = record {
  ready = true;
  size = pos (length w);
  read = λ r. (Error.no_error, take (pos_part (range_length r)) (drop (pos_part r.from) w));
  user = user;
}

pub record SharingPromise : Type 0 where
  pub data_at : Bytes → Bytes → Option DataPromise
  pub size : ℤ
  pub user : Bytes

-- The same data for every path and user.
abbrev pub fixed_promise : DataPromise → SharingPromise
fixed_promise p = record { data_at = λ _ _. some p; size = p.size; user = [] }

pub record SharedData : Type 0 where
  pub promise : Option SharingPromise
  pub current_revision : ℤ
  pub subscribers : List Bytes

pub record TransmissionInfo : Type 0 where
  pub mark : Mark
  pub transferred : ℕ
  pub error : Error
  pub destination : Bytes
  pub path : Bytes

-- `count` is -1 while the size is not known.
pub record Transmission : Type 0 where
  pub id : ℕ
  pub revision : ℤ
  pub range : Range
  pub info : TransmissionInfo
  pub request_id : ℕ
  pub chunk_size : ℕ
  pub count : ℤ
  pub next_chunk : ℕ
  pub promise : DataPromise

pub data Message : Type 0 where
  notify : Notify → Message
  reply : RequestReply → Bytes → Message
  subscribe_reply : SubscribeReply → Message
  push_reply : PushReply → Message

pub record Sent : Type 0 where
  pub to : List Bytes
  pub message : Message

-- `posted` has the calls of `continueTransmission` that `xcall` and `xcallTimed` queue, `told` the
-- calls of `onTransmissionUpdate`; `sent` and `told` have the oldest first.
pub record Server : Type 0 where
  pub shared : Map SharedData
  pub check_permissions : Option (Bytes → Bytes → Bool)
  pub ops : List Transmission
  pub next_id : ℕ
  pub posted : List (Error × ℕ)
  pub sent : List Sent
  pub told : List (ℕ × TransmissionInfo)

abbrev pub new_server : Server
new_server = record {
  shared = [];
  check_permissions = none;
  ops = [];
  next_id = 1;
  posted = [];
  sent = [];
  told = [];
}

unfoldable pub send : List Bytes → Message → Server → Server
send to m s = record s { sent = s.sent ++ (record { to = to; message = m } ∷ []) }

-- `mCheckPermissions && mCheckPermissions (sender, path)`.
unfoldable pub permitted : Server → Bytes → Bytes → Bool
permitted s sender path = elim s.check_permissions [ none ↦ false | some f ↦ f sender path ]

-- `HostSet`, a `std::set`.
unfoldable pub member : Bytes → List Bytes → Bool
member h [] = false
member h (x ∷ hs) = if same x h then true else member h hs

unfoldable pub host_insert : Bytes → List Bytes → List Bytes
unfolding member
host_insert h hs = if member h hs then hs else h ∷ hs

unfoldable pub host_erase : Bytes → List Bytes → List Bytes
host_erase h [] = []
host_erase h (x ∷ hs) = let rest = host_erase h hs in if same x h then rest else x ∷ rest

cancel_notice : Bytes → Message
cancel_notice path =
    Message.notify (record {
      path = path;
      revision = pos 0;
      size = pos 0;
      mark = NotifyMark.subscription_cancel;
    })

-- The loop of `shutdown`.
cancel_all : Map SharedData → Server → Server
unfolding send cancel_notice
cancel_all [] s = s
cancel_all (e ∷ m) s = cancel_all m (send e.value.subscribers (cancel_notice e.key) s)

unfoldable pub shutdown : Server → Error × Server
unfolding cancel_all
shutdown s = (Error.no_error, record (cancel_all s.shared s) { shared = [] })

unfoldable pub share : Bytes → Option SharingPromise → Server → Error × Server
share path promise s =
    if has_sub_path path then (Error.not_supported, s) else elim (lookup path s.shared) [
      | some _ ↦ (Error.exists_already, s)
      | none ↦ (
        Error.no_error,
        record s {
          shared =
              insert path
                (record {
                  promise = promise;
                  current_revision = elim promise [ none ↦ pos 0 | some _ ↦ pos 1 ];
                  subscribers = [];
                })
                s.shared;
        },
      )
    ]

unfoldable pub notify_subscriber : Bytes → Server → Option (Error × Server)
unfolding send
notify_subscriber path s = elim (lookup path s.shared) [
  | none ↦ some (Error.not_found, s)
  | some d ↦ elim d.promise [
    | none ↦ none
    | some p ↦ some (
      Error.no_error,
      send d.subscribers
          (Message.notify (record {
            path = path;
            revision = d.current_revision;
            size = p.size;
            mark = NotifyMark.no_mark;
          }))
          s,
    )
  ]
]

unfoldable pub next_revision : ℤ → ℤ
next_revision n = if leb_ℤ n (pos 0) then pos 1 else n +ℤ pos 1

-- The result of `notifySubscriber` is not looked at.
unfoldable pub update : Bytes → Option SharingPromise → Server → Option (Error × Server)
unfolding notify_subscriber next_revision
update path none s = some (Error.invalid_argument, s)
update path (some p) s = elim (lookup path s.shared) [
  | none ↦ some (Error.not_found, s)
  | some d ↦
      let d1 = record d { current_revision = next_revision d.current_revision; promise = some p } in
      elim (notify_subscriber path (record s { shared = insert path d1 s.shared })) [
        | none ↦ none
        | some r ↦ some (Error.no_error, r.1)
      ]
]

unfoldable pub un_share : Bytes → Server → Error × Server
unfolding send cancel_notice
un_share path s = elim (lookup path s.shared) [
  | none ↦ (Error.not_found, s)
  | some d ↦ (
    Error.no_error,
    let t = send d.subscribers (cancel_notice path) s in record t { shared = erase path t.shared },
  )
]

-- The loop of `onChannelChange`, at each shared entry.
unfoldable pub drop_host : Bytes → Map SharedData → Map SharedData
drop_host host [] = []
drop_host host (e ∷ m) =
    record e { value = record (e.value) { subscribers = host_erase host e.value.subscribers } }
    ∷ drop_host host m

notify_dropped : Bytes → Map SharedData → Server → Server
unfolding send cancel_notice
notify_dropped host [] s = s
notify_dropped host (e ∷ m) s =
    notify_dropped host m
      (if member host e.value.subscribers then send (host ∷ []) (cancel_notice e.key) s else s)

-- `level` is the communication delegate's answer.
unfoldable pub on_channel_change : ℤ → Bytes → Server → Server
unfolding notify_dropped
on_channel_change level host s =
    if ltb_ℤ (pos 0) level
    then s
    else record (notify_dropped host s.shared s) { shared = drop_host host s.shared }

unfoldable pub on_subscribe : Bytes → Subscribe → Server → Server
unfolding send permitted host_insert
on_subscribe sender c s =
    let answer : Error → Bytes → Server → Server = λ err user t.
      send (sender ∷ [])
        (Message.subscribe_reply (record { path = c.path; err = err; id = c.id; user = user })) t in
    if c.cancels
    then elim (lookup c.path s.shared) [
      | none ↦ s
      | some d ↦ record s {
        shared =
            insert c.path (record d { subscribers = host_erase sender d.subscribers }) s.shared;
      }
    ]
    else if not (permitted s sender c.path)
    then answer Error.no_perm [] s
    else elim (lookup c.path s.shared) [
      | none ↦ answer Error.not_found [] s
      | some d ↦
          answer Error.no_error (elim d.promise [ none ↦ [] | some p ↦ p.user ])
            (record s {
              shared =
                  insert c.path (record d { subscribers = host_insert sender d.subscribers })
                    s.shared;
            })
    ]

unfoldable pub on_push : Bytes → Push → Server → Server
unfolding send
on_push sender c s =
    send (sender ∷ [])
      (Message.push_reply (record { path = c.path; err = Error.not_supported; id = c.id })) s
