-- ===== src/SharedListServer/Published.antt =====
-- What is given out at "shared" is the list.
use schneeflocke.Base.{
  ℕ, ◌≡◌, refl, sym, ap, subst, ◌∙◌, false, Option, none, some, Option-cases, Bool-cases, inl, inr,
  [], ◌∷◌, Bytes, Map, same, same_iff, same_refl, lookup, insert, erase, if◌then◌else◌,
  lookup-insert, lookup-erase, arith,
}
use schneeflocke.Base.Int.{ℤ, pos}
use schneeflocke.DataSharingServer
use schneeflocke.DataSharingServer.{
  SharingPromise, SharedData, Server, send, permitted, share, un_share, on_channel_change,
  on_subscribe, on_push, drop_host, host_insert, host_erase, fixed_promise, byte_array_promise,
}
use schneeflocke.DataSharingServer.Invariant.{
  on_request-shared, continue_transmission-shared, time_out-shared, cancel_transfer-shared,
}
use schneeflocke.DataSharingServer.Requests.{on_request}
use schneeflocke.DataSharingServer.Sharing.{updated, update_found}
use schneeflocke.DataSharingServer.Transmissions.{
  continue_transmission, cancel_transfer, on_time_out,
}
use schneeflocke.Elements.{Request, Subscribe, Push}
use schneeflocke.Error.{Error}
use schneeflocke.PathName.{has_sub_path, find}
use schneeflocke.SharedListServer.{
  SharedList, SharedElement, ListServer, shared_name, new_list_server, uninit, published,
  first_share, init, update, add, remove, clear,
}

-- Whether the path is shared, and with what promise.
abbrev pub promise_at : Server → Option (Option SharingPromise)
promise_at s = elim (lookup shared_name s.shared) [ none ↦ none | some d ↦ some d.promise ]

-- A call of the data sharing server by others, which leave the path "shared" to the list server.
pub data OtherStep (s : Server) : Server → Type 0 where
  shares :
      (path : Bytes) (p : Option SharingPromise)
      → same path shared_name ≡ false
      → OtherStep s (share path p s).1
  updates :
      (path : Bytes) (p : Option SharingPromise) (t : Server) (e : Error)
      → same path shared_name ≡ false
      → DataSharingServer.update path p s ≡ some (e, t)
      → OtherStep s t
  un_shares : (path : Bytes) → same path shared_name ≡ false → OtherStep s (un_share path s).1
  changes_channel : (level : ℤ) (host : Bytes) → OtherStep s (on_channel_change level host s)
  subscribes : (sender : Bytes) (c : Subscribe) → OtherStep s (on_subscribe sender c s)
  pushes : (sender : Bytes) (c : Push) → OtherStep s (on_push sender c s)
  requests :
      (sender : Bytes) (q : Request) (t : Server) → on_request sender q s ≡ some t → OtherStep s t
  continues : (e r : Error) (id : ℕ) → OtherStep s (continue_transmission e r id s)
  cancels : (id : ℕ) → OtherStep s (cancel_transfer id s).1
  times_out : (id : ℕ) → OtherStep s (on_time_out id s)

promise_in : Map SharedData → Option (Option SharingPromise)
promise_in m = elim (lookup shared_name m) [ none ↦ none | some d ↦ some d.promise ]

promise-insert_other :
    (path : Bytes) (d : SharedData) (m : Map SharedData)
    → same path shared_name ≡ false
    → promise_in (insert path d m) ≡ promise_in m
unfolding promise_in
promise-insert_other path d m other =
    rw (lookup-insert path shared_name d m, promise_in, other) refl

promise-insert_same :
    (path : Bytes) (c d : SharedData) (m : Map SharedData)
    → lookup path m ≡ some c
    → d.promise ≡ c.promise
    → promise_in (insert path d m) ≡ promise_in m
unfolding promise_in
promise-insert_same path c d m was kept = elim (Bool-cases (same path shared_name)) [
  | inr other ↦ promise-insert_other path d m other
  | inl here ↦
      let at : lookup shared_name m ≡ some c =
        ap (λ (x : Bytes). lookup x m) (sym ((same_iff path shared_name).0 here)) ∙ was in
      ground (arith, lookup-insert path shared_name d m, here, at, kept)
]

promise-drop_host :
    (host : Bytes) (m : Map SharedData) → promise_in (drop_host host m) ≡ promise_in m
unfolding promise_in lookup drop_host
promise-drop_host host [] = refl
promise-drop_host host (x ∷ m) = elim (Bool-cases (same x.key shared_name)) [
  | inl here ↦ ground (arith, here)
  | inr later ↦ ground (arith, later, promise-drop_host host m)
]

share-promise :
    (path : Bytes) (p : Option SharingPromise) (s : Server)
    → same path shared_name ≡ false
    → promise_in (share path p s).1.shared ≡ promise_in s.shared
unfolding share
share-promise path p s other = elim (Bool-cases (has_sub_path path)) [
  | inl deep ↦ ground (arith, deep)
  | inr plain ↦ elim (Option-cases (lookup path s.shared)) [
    | inr (d, found) ↦ ground (arith, plain, found)
    | inl new ↦
        let d : SharedData = record {
          promise = p;
          current_revision = elim p [ none ↦ pos 0 | some _ ↦ pos 1 ];
          subscribers = [];
        } in
        ground (arith, plain, new, promise-insert_other path d s.shared other)
  ]
]

update-promise :
    (path : Bytes) (p : Option SharingPromise) (s t : Server) (e : Error)
    → same path shared_name ≡ false
    → DataSharingServer.update path p s ≡ some (e, t)
    → promise_in t.shared ≡ promise_in s.shared
unfolding DataSharingServer.update
update-promise path none s t e other run = ground (arith, run)
update-promise path (some p) s t e other run = elim (Option-cases (lookup path s.shared)) [
  | inl missing ↦ ground (arith, missing, run)
  | inr (d, found) ↦ ground (
    arith,
    run,
    update_found path p s d found,
    promise-insert_other path (updated p d) s.shared other,
  )
]

un_share-promise :
    (path : Bytes) (s : Server)
    → same path shared_name ≡ false
    → promise_in (un_share path s).1.shared ≡ promise_in s.shared
unfolding un_share send promise_in
un_share-promise path s other = ground (arith, lookup-erase path shared_name s.shared, other)

subscribe-promise :
    (sender : Bytes) (c : Subscribe) (s : Server)
    → promise_in (on_subscribe sender c s).shared ≡ promise_in s.shared
unfolding on_subscribe send
subscribe-promise sender c s = elim (Option-cases (lookup c.path s.shared)) [
  | inl missing ↦ ground (arith, missing)
  | inr (d, found) ↦ ground (
    arith,
    found,
    promise-insert_same c.path d (record d { subscribers = host_erase sender d.subscribers })
        s.shared found refl,
    promise-insert_same c.path d (record d { subscribers = host_insert sender d.subscribers })
        s.shared found refl,
  )
]

channel-promise :
    (level : ℤ) (host : Bytes) (s : Server)
    → promise_in (on_channel_change level host s).shared ≡ promise_in s.shared
unfolding on_channel_change
channel-promise level host s = ground (arith, promise-drop_host host s.shared)

OtherStep-promise : (s t : Server) → OtherStep s t → promise_in t.shared ≡ promise_in s.shared
unfolding on_push send
OtherStep-promise s t (OtherStep.shares path p other) = share-promise path p s other
OtherStep-promise s t (OtherStep.updates path p _ e other run) =
    update-promise path p s t e other run
OtherStep-promise s t (OtherStep.un_shares path other) = un_share-promise path s other
OtherStep-promise s t (OtherStep.changes_channel level host) = channel-promise level host s
OtherStep-promise s t (OtherStep.subscribes sender c) = subscribe-promise sender c s
OtherStep-promise s t (OtherStep.pushes sender c) = refl
OtherStep-promise s t (OtherStep.requests sender q _ run) =
    ap promise_in (on_request-shared sender q s t run)
OtherStep-promise s t (OtherStep.continues e r id) =
    ap promise_in (continue_transmission-shared e r id s)
OtherStep-promise s t (OtherStep.cancels id) = ap promise_in (cancel_transfer-shared id s)
OtherStep-promise s t (OtherStep.times_out id) = ap promise_in (time_out-shared id s)

update_missing :
    (path : Bytes) (p : SharingPromise) (s : Server)
    → lookup path s.shared ≡ none
    → DataSharingServer.update path (some p) s ≡ some (Error.not_found, s)
unfolding DataSharingServer.update
update_missing path p s missing = ground (arith, missing)

module _ (to_json : SharedList → Bytes) where
  -- A call of the list server, or of the data sharing server by others.
  pub data Step (s : ListServer) : ListServer → Type 0 where
    inits : Step s (init to_json s).1
    uninits : Step s (uninit s).1
    adds :
        (name : Bytes) (x : SharedElement) (e : Error) (t : ListServer)
        → add to_json name x s ≡ some (e, t)
        → Step s t
    removes :
        (name : Bytes) (e : Error) (t : ListServer) → remove to_json name s ≡ some (e, t) → Step s t
    clears : (e : Error) (t : ListServer) → clear to_json s ≡ some (e, t) → Step s t
    others : (t : Server) → OtherStep s.server t → Step s (record s { server = t })

  pub data Reach : ListServer → Type 0 where
    starts : (server : Server) → promise_at server ≡ none → Reach (new_list_server server)
    steps : (s t : ListServer) → Reach s → Step s t → Reach t

  IsPublished : ListServer → Type 0
  IsPublished s =
      promise_at s.server ≡ (if s.initialized then some (some (published to_json s.list)) else none)

  -- An update of "shared", for a list that may have changed.
  update-IsPublished :
      (s t : ListServer) (e : Error) (old : SharedList)
      → IsPublished (record s { list = old })
      → update to_json s ≡ some (e, t)
      → IsPublished t
  unfolding update IsPublished
  update-IsPublished s t e old h run = elim (Option-cases (lookup shared_name s.server.shared)) [
    | inl missing ↦ ground (
      arith,
      missing,
      h,
      run,
      update_missing shared_name (published to_json s.list) s.server missing,
    )
    | inr (d, found) ↦
        let p = published to_json s.list in
        ground (
          arith,
          found,
          h,
          run,
          update_found shared_name p s.server d found,
          lookup-insert shared_name shared_name (updated p d) s.server.shared,
          same_refl shared_name,
        )
  ]

  uninit-IsPublished : (s : ListServer) → IsPublished s → IsPublished (uninit s).1
  unfolding uninit un_share send IsPublished
  uninit-IsPublished s h =
      ground (arith, h, lookup-erase shared_name shared_name s.server.shared, same_refl shared_name)

  initialized-uninit : (s : ListServer) → (uninit s).1.initialized ≡ false
  unfolding uninit
  initialized-uninit s = ground arith

  first_share-IsPublished :
      (s : ListServer)
      → s.initialized ≡ false
      → IsPublished s
      → IsPublished (first_share to_json s).1
  unfolding first_share share has_sub_path find IsPublished
  first_share-IsPublished s off h =
      let d : SharedData = record {
        promise = some (published to_json s.list);
        current_revision = pos 1;
        subscribers = [];
      } in
      ground (
        arith,
        off,
        h,
        lookup-insert shared_name shared_name d s.server.shared,
        same_refl shared_name,
      )

  init-IsPublished : (s : ListServer) → IsPublished s → IsPublished (init to_json s).1
  unfolding init
  init-IsPublished s h =
      first_share-IsPublished (uninit s).1 (initialized-uninit s) (uninit-IsPublished s h)

  add-IsPublished :
      (name : Bytes) (x : SharedElement) (s t : ListServer) (e : Error)
      → add to_json name x s ≡ some (e, t)
      → IsPublished s
      → IsPublished t
  unfolding add
  add-IsPublished name x s t e run h = elim (Option-cases (lookup name s.list)) [
    | inr (y, there) ↦ subst IsPublished {x = s} {y = t} (ground (arith, there, run)) h
    | inl new ↦
        update-IsPublished (record s { list = insert name x s.list }) t e s.list h
          (ground (arith, new, run))
  ]

  remove-IsPublished :
      (name : Bytes) (s t : ListServer) (e : Error)
      → remove to_json name s ≡ some (e, t)
      → IsPublished s
      → IsPublished t
  unfolding remove
  remove-IsPublished name s t e run h = elim (Option-cases (lookup name s.list)) [
    | inl missing ↦ subst IsPublished {x = s} {y = t} (ground (arith, missing, run)) h
    | inr (y, there) ↦
        update-IsPublished (record s { list = erase name s.list }) t e s.list h
          (ground (arith, there, run))
  ]

  Step-IsPublished : (s t : ListServer) → Step s t → IsPublished s → IsPublished t
  unfolding clear
  Step-IsPublished s t Step.inits h = init-IsPublished s h
  Step-IsPublished s t Step.uninits h = uninit-IsPublished s h
  Step-IsPublished s t (Step.adds name x e _ run) h = add-IsPublished name x s t e run h
  Step-IsPublished s t (Step.removes name e _ run) h = remove-IsPublished name s t e run h
  Step-IsPublished s t (Step.clears e _ run) h =
      update-IsPublished (record s { list = [] }) t e s.list h run
  Step-IsPublished s t (Step.others u step) h =
      unfold IsPublished promise_in in (OtherStep-promise s.server u step ∙ h)

  -- In every state of the list server, whatever other parts of the program and other hosts do with
  -- the data sharing server at other paths: while it is initialized, "shared" is given out with the
  -- text of the present list, and else not at all.
  pub Reach-IsPublished :
      (s : ListServer)
      → Reach s
      → promise_at s.server
        ≡ (if s.initialized then some (some (published to_json s.list)) else none)
  unfolding IsPublished
  Reach-IsPublished s (Reach.starts server unused) = unused
  Reach-IsPublished s (Reach.steps r _ before step) =
      Step-IsPublished r s step (Reach-IsPublished r before)
