-- ===== src/SharedListTracker/Fetched.antt =====
-- A list on its way from the host that shares it to the one that tracks it.
use schneeflocke.Base.{
  ◌≡◌, refl, ap, ◌∙◌, Bool, true, false, Option, none, some, Option-cases, inl, inr, [], ◌∷◌, ◌++◌,
  Bytes, same_refl, lookup, lookup-insert, length, take, take_all, if◌then◌else◌, arith,
}
use schneeflocke.Base.Int.{pos, ltb_ℤ, eq_ℤ, pos_part, eq_ℤ_iff}
use schneeflocke.DataSharingServer.{SharedData, Server, permitted, byte_array_promise}
use schneeflocke.DataSharingServer.Requests.{answer}
use schneeflocke.DataSharingServer.Transmissions.{Found, find_promise, used_revision, empty_reply}
use schneeflocke.Elements.{Request, RequestReply}
use schneeflocke.Error.{Error}
use schneeflocke.PathName.{find, head}
use schneeflocke.Range.{is_default, range_length}
use schneeflocke.SharedListServer.{ListServer, SharedList, shared_name, published}
use schneeflocke.SharedListServer.Published.{Reach, Reach-IsPublished, promise_at}
use schneeflocke.SharedListTracker.{ListTracker, Told, on_data_update}

-- All bytes are read.
take_whole :
    (w : Bytes)
    → take (pos_part (range_length (record { from = pos 0; to = pos (length w) }))) w ≡ w
unfolding range_length
take_whole w = take_all _ w (ground arith)

-- The data of a path that is shared with a promise.
shared_data :
    (s : Server) (to_json : SharedList → Bytes) (list : SharedList)
    → promise_at s ≡ some (some (published to_json list))
    → (d : SharedData) × (lookup shared_name s.shared ≡ some d)
      × (d.promise ≡ some (published to_json list))
shared_data s to_json list e = elim (Option-cases (lookup shared_name s.shared)) [
  | inl missing ↦ absurd (ground (arith, missing, e))
  | inr (d, found) ↦ (d, found, ground (arith, found, e))
]

module _ (to_json : SharedList → Bytes) where
  answer-list :
      (sender : Bytes) (q : Request) (s : Server) (list : SharedList)
      → promise_at s ≡ some (some (published to_json list))
      → permitted s sender shared_name ≡ true
      → q.path ≡ shared_name
      → ltb_ℤ (pos 0) q.revision ≡ false
      → is_default q.range ≡ true
      → (r : RequestReply) × (answer sender q s ≡ some (r, to_json list)) × (r.err ≡ Error.no_error)
  unfolding answer find_promise used_revision byte_array_promise
  answer-list sender q s list e may at any all =
      let (d, there, promised) = shared_data s to_json list e in
      let p = byte_array_promise (to_json list) [] in
      let r : RequestReply = record empty_reply {
        path = q.path;
        id = q.id;
        user = elim q.user [ [] ↦ [] | _ ∷ _ ↦ q.user ];
        revision = used_revision q d;
        range = q.range;
      } in
      let may_here : permitted s sender q.path ≡ true = ap (permitted s sender) at ∙ may in
      let found : lookup (head q.path) s.shared ≡ some d =
        ap (λ (x : Bytes). lookup (head x) s.shared) at ∙ unfold head find in there in
      let revision : eq_ℤ d.current_revision (used_revision q d) ≡ true =
        ground (arith, any, eq_ℤ_iff d.current_revision d.current_revision) in
      let same_promise : find_promise q d ≡ Found.found p = ground (arith, promised) in
      (
        r,
        rw (may_here, answer, found, revision, same_promise, all)
            (ap (λ (w : Bytes). some (r, w)) (take_whole (to_json list))),
        refl,
      )

read-list :
    (from_json : Bytes → Option SharedList) (host bytes : Bytes) (list : SharedList)
    (t : ListTracker)
    → from_json bytes ≡ some list
    → (lookup host (on_data_update from_json host bytes t).lists ≡ some list)
      × ((on_data_update from_json host bytes t).told
          ≡ (if t.wants_update then t.told ++ (Told.tracking_update host list ∷ []) else t.told))
unfolding on_data_update
read-list from_json host bytes list t e =
    ground (arith, e, lookup-insert host host list t.lists, same_refl host)

-- A list that is shared is what another host comes to know: in every state of an initialized list
-- server, a permitted request for all of "shared" in no given revision is answered without an error
-- by data, from which the tracker of the host that asked has exactly the present list under the
-- sharing host's name, and tells it if it was asked to, provided that the text of this list is read
-- back as the list.
pub fetch_shared :
    (to_json : SharedList → Bytes) (from_json : Bytes → Option SharedList) (s : ListServer)
    (t : ListTracker) (host sender : Bytes) (q : Request)
    → Reach to_json s
    → s.initialized ≡ true
    → permitted s.server sender shared_name ≡ true
    → q.path ≡ shared_name
    → ltb_ℤ (pos 0) q.revision ≡ false
    → is_default q.range ≡ true
    → from_json (to_json s.list) ≡ some s.list
    → (r : RequestReply) × (bytes : Bytes) × (answer sender q s.server ≡ some (r, bytes))
      × (r.err ≡ Error.no_error)
      × (lookup host (on_data_update from_json host bytes t).lists ≡ some s.list)
      × ((on_data_update from_json host bytes t).told
          ≡ (if t.wants_update then t.told ++ (Told.tracking_update host s.list ∷ []) else t.told))
fetch_shared to_json from_json s t host sender q reached on may at any all readable =
    let there : promise_at s.server ≡ some (some (published to_json s.list)) =
      Reach-IsPublished to_json s reached
      ∙ ap (λ (b : Bool). if b then some (some (published to_json s.list)) else none) on in
    let (r, answered, fine) = answer-list to_json sender q s.server s.list there may at any all in
    let (kept, told) = read-list from_json host (to_json s.list) s.list t readable in
    (r, to_json s.list, answered, fine, kept, told)
