-- ===== src/DataSharingServer/Requests.antt =====
-- `DataSharingServerImpl::onRpc` of a request: data in one reply, or the start of a transmission.
use schneeflocke.Base.{
  ◌≡◌, ◌⊎◌, true, Option, none, some, [], ◌∷◌, if◌then◌else◌, not, ◌||◌, Bytes, lookup, arith,
}
use schneeflocke.Base.Int.{pos, eq_ℤ}
use schneeflocke.DataSharingServer.{DataPromise, SharedData, Message, Server, send, permitted}
use schneeflocke.DataSharingServer.Transmissions.{
  Found, find_promise, used_revision, empty_reply, on_request_transmission,
}
use schneeflocke.Elements.{Request, RequestMark, RequestReply}
use schneeflocke.Error.{Error}
use schneeflocke.PathName.{head}
use schneeflocke.Range.{is_default, in_range}

abbrev pub Answer : Type 0
Answer = RequestReply × Bytes

reply_to : Request → RequestReply
reply_to q = record empty_reply { path = q.path; id = q.id }

denied : Error → Request → Answer
unfolding reply_to
denied e q = (record (reply_to q) { err = e }, [])

read_all : DataPromise → Bytes
read_all p = (p.read (record { from = pos 0; to = p.size })).1

-- The reply when the promise is there. The reads' errors are not looked at.
answer_from : Request → SharedData → DataPromise → Answer
unfolding denied reply_to read_all
answer_from q d p =
    if not (p.ready)
    then denied Error.not_supported q
    else if is_default q.range || in_range q.range (record { from = pos 0; to = p.size })
    then (
      record (reply_to q) {
        user = elim q.user [ [] ↦ p.user | _ ∷ _ ↦ q.user ];
        revision = used_revision q d;
        range = q.range;
      },
      if is_default q.range then read_all p else (p.read q.range).1,
    )
    else denied Error.invalid_argument q

-- The `do` block: `none` follows a null pointer.
unfoldable pub answer : Bytes → Request → Server → Option Answer
unfolding denied answer_from permitted find_promise used_revision
answer sender q s =
    if not (permitted s sender q.path)
    then some (denied Error.no_perm q)
    else elim (lookup (head q.path) s.shared) [
      | none ↦ some (denied Error.not_found q)
      | some d ↦
          if not (eq_ℤ d.current_revision (used_revision q d))
          then some (denied Error.revision_not_found q)
          else elim (find_promise q d) [
            | Found.fault ↦ none
            | Found.missing ↦ some (denied Error.not_found q)
            | Found.found p ↦ some (answer_from q d p)
          ]
    ]

answer_request : Bytes → Request → Server → Option Server
unfolding answer send
answer_request sender q s = elim (answer sender q s) [
  | none ↦ none
  | some a ↦ some (send (sender ∷ []) (Message.reply a.0 a.1) s)
]

unfoldable pub on_request : Bytes → Request → Server → Option Server
unfolding answer_request
on_request sender q s = elim q.mark [
  | RequestMark.no_mark ↦ answer_request sender q s
  | _ ↦ on_request_transmission sender q s
]

-- Without permission the reply is an error, and no reply of an error has content; every reply
-- has the path and id of its request.
pub answer-permitted :
    (sender : Bytes) (q : Request) (s : Server) (a : Answer)
    → answer sender q s ≡ some a
    → ((permitted s sender q.path ≡ true) ⊎ (a.0.err ≡ Error.no_perm))
      × ((a.0.err ≡ Error.no_error) ⊎ (a.1 ≡ []))
      × (a.0.path ≡ q.path)
      × (a.0.id ≡ q.id)
unfolding answer denied reply_to answer_from permitted
answer-permitted sender q s a e = ground arith
