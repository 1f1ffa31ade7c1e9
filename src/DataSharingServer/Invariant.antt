-- ===== src/DataSharingServer/Invariant.antt =====
-- What holds of the shared data in every state that the server can reach.
use schneeflocke.Base.{
  ℕ, ◌≡◌, refl, sym, subst, ◌∙◌, Bool, true, false, ◌&&◌, Option, none, some, Option-cases,
  Bool-cases, inl, inr, List, [], not, Bytes, Map, same, same_iff, lookup, insert, erase,
  lookup-insert, lookup-erase, arith,
}
use schneeflocke.Base.Int.{ℤ, pos, ltb_ℤ, eq_ℤ}
use schneeflocke.DataSharingServer.{
  SharingPromise, SharedData, Server, new_server, send, permitted, share, update, un_share,
  shutdown, on_channel_change, on_subscribe, on_push, drop_host, host_insert, host_erase,
}
use schneeflocke.DataSharingServer.Requests.{answer, on_request}
use schneeflocke.DataSharingServer.Sharing.{
  updated, update_found, next_revision-above, lookup-drop_host,
}
use schneeflocke.DataSharingServer.Transmissions.{
  on_request_transmission, start_transmission, continue_transmission, cancel_transfer, on_time_out,
}
use schneeflocke.Elements.{Request, Subscribe, Push}
use schneeflocke.Error.{Error}
use schneeflocke.PathName.{has_sub_path}

-- Data without a promise has revision 0, data with one a positive revision.
unfoldable pub agrees : Option SharingPromise → ℤ → Bool
agrees none n = eq_ℤ n (pos 0)
agrees (some _) n = ltb_ℤ (pos 0) n

unfoldable pub sound : Bytes → SharedData → Bool
unfolding agrees
sound path d = not (has_sub_path path) && agrees d.promise d.current_revision

pub IsSound : Map SharedData → Type 0
IsSound m = (path : Bytes) (d : SharedData) → lookup path m ≡ some d → sound path d ≡ true

-- One call of the server, by its user or by the environment.
pub data Step : Server → Server → Type 0 where
  shares : (path : Bytes) (p : Option SharingPromise) (s : Server) → Step s (share path p s).1
  updates :
      (path : Bytes) (p : Option SharingPromise) (s t : Server) (e : Error)
      → update path p s ≡ some (e, t)
      → Step s t
  un_shares : (path : Bytes) (s : Server) → Step s (un_share path s).1
  shuts_down : (s : Server) → Step s (shutdown s).1
  changes_channel :
      (level : ℤ) (host : Bytes) (s : Server) → Step s (on_channel_change level host s)
  subscribes : (sender : Bytes) (c : Subscribe) (s : Server) → Step s (on_subscribe sender c s)
  pushes : (sender : Bytes) (c : Push) (s : Server) → Step s (on_push sender c s)
  requests :
      (sender : Bytes) (q : Request) (s t : Server) → on_request sender q s ≡ some t → Step s t
  continues : (e r : Error) (id : ℕ) (s : Server) → Step s (continue_transmission e r id s)
  cancels : (id : ℕ) (s : Server) → Step s (cancel_transfer id s).1
  times_out : (id : ℕ) (s : Server) → Step s (on_time_out id s)

pub data Reach : Server → Type 0 where
  starts : (f : Option (Bytes → Bytes → Bool)) → Reach (record new_server { check_permissions = f })
  steps : (s t : Server) → Reach s → Step s t → Reach t

empty-IsSound : IsSound []
unfolding IsSound lookup
empty-IsSound path d found = cc

insert-IsSound :
    (path : Bytes) (d : SharedData) (m : Map SharedData)
    → sound path d ≡ true
    → IsSound m
    → IsSound (insert path d m)
unfolding IsSound
insert-IsSound path d m ok h other e found = elim (Bool-cases (same path other)) [
  | inl here ↦ ground (arith, same_iff path other, found, lookup-insert path other d m, here, ok)
  | inr there ↦ h other e (sym (lookup-insert path other d m ∙ rw there refl) ∙ found)
]

same-IsSound : (m n : Map SharedData) → m ≡ n → IsSound n → IsSound m
same-IsSound m n e h = subst (λ (x : Map SharedData). IsSound x) (sym e) h

abbrev pub first_data : Option SharingPromise → SharedData
first_data p = record {
  promise = p;
  current_revision = elim p [ none ↦ pos 0 | some _ ↦ pos 1 ];
  subscribers = [];
}

first_data-sound :
    (path : Bytes) (p : Option SharingPromise)
    → has_sub_path path ≡ false
    → sound path (first_data p) ≡ true
unfolding sound agrees
first_data-sound path none plain = ground arith
first_data-sound path (some p) plain = ground arith

share-IsSound :
    (path : Bytes) (p : Option SharingPromise) (s : Server)
    → IsSound s.shared
    → IsSound (share path p s).1.shared
unfolding share
share-IsSound path p s h = elim (Bool-cases (has_sub_path path)) [
  | inl deep ↦ same-IsSound _ s.shared (ground (arith, deep)) h
  | inr plain ↦ elim (Option-cases (lookup path s.shared)) [
    | inr (d, found) ↦ same-IsSound _ s.shared (ground (arith, plain, found)) h
    | inl new ↦
        same-IsSound _ (insert path (first_data p) s.shared) (ground (arith, plain, new))
          (insert-IsSound path (first_data p) s.shared (first_data-sound path p plain) h)
  ]
]

updated-sound :
    (path : Bytes) (p : SharingPromise) (d : SharedData)
    → sound path d ≡ true
    → sound path (updated p d) ≡ true
unfolding sound agrees
updated-sound path p d ok = ground (arith, (next_revision-above d.current_revision).0, ok)

update-IsSound :
    (path : Bytes) (p : Option SharingPromise) (s t : Server) (e : Error)
    → update path p s ≡ some (e, t)
    → IsSound s.shared
    → IsSound t.shared
unfolding update IsSound
update-IsSound path none s t e run h = same-IsSound _ s.shared (ground (arith, run)) h
update-IsSound path (some p) s t e run h = elim (Option-cases (lookup path s.shared)) [
  | inl missing ↦ same-IsSound _ s.shared (ground (arith, missing, run)) h
  | inr (d, found) ↦
      same-IsSound _ (insert path (updated p d) s.shared)
        (ground (arith, run, update_found path p s d found))
        (insert-IsSound path (updated p d) s.shared (updated-sound path p d (h path d found)) h)
]

erase-IsSound : (path : Bytes) (m : Map SharedData) → IsSound m → IsSound (erase path m)
unfolding IsSound
erase-IsSound path m h other d found = h other d (ground (arith, found, lookup-erase path other m))

un_share-IsSound :
    (path : Bytes) (s : Server) → IsSound s.shared → IsSound (un_share path s).1.shared
unfolding un_share send
un_share-IsSound path s h = elim (Option-cases (lookup path s.shared)) [
  | inl missing ↦ same-IsSound _ s.shared (ground (arith, missing)) h
  | inr (d, found) ↦
      same-IsSound _ (erase path s.shared) (ground (arith, found)) (erase-IsSound path s.shared h)
]

drop_host-IsSound : (host : Bytes) (m : Map SharedData) → IsSound m → IsSound (drop_host host m)
unfolding IsSound sound
drop_host-IsSound host m h path d found =
    let (c, was, now) = lookup-drop_host path host m d found in ground (arith, h path c was, now)

on_channel_change-IsSound :
    (level : ℤ) (host : Bytes) (s : Server)
    → IsSound s.shared
    → IsSound (on_channel_change level host s).shared
unfolding on_channel_change
on_channel_change-IsSound level host s h = elim (Bool-cases (ltb_ℤ (pos 0) level)) [
  | inl up ↦ same-IsSound _ s.shared (ground (arith, up)) h
  | inr down ↦
      same-IsSound _ (drop_host host s.shared) (ground (arith, down))
        (drop_host-IsSound host s.shared h)
]

subscribers-IsSound :
    (path : Bytes) (d : SharedData) (hosts : List Bytes) (m : Map SharedData)
    → lookup path m ≡ some d
    → IsSound m
    → IsSound (insert path (record d { subscribers = hosts }) m)
unfolding sound IsSound
subscribers-IsSound path d hosts m found h =
    insert-IsSound path (record d { subscribers = hosts }) m (h path d found) h

on_subscribe-IsSound :
    (sender : Bytes) (c : Subscribe) (s : Server)
    → IsSound s.shared
    → IsSound (on_subscribe sender c s).shared
unfolding on_subscribe send
on_subscribe-IsSound sender c s h = elim (Option-cases (lookup c.path s.shared)) [
  | inl missing ↦ same-IsSound _ s.shared (ground (arith, missing)) h
  | inr (d, found) ↦ elim (Bool-cases c.cancels) [
    | inl stop ↦
        same-IsSound _ _ (ground (arith, found, stop))
          (subscribers-IsSound c.path d (host_erase sender d.subscribers) s.shared found h)
    | inr go ↦ elim (Bool-cases (permitted s sender c.path)) [
      | inr denied ↦ same-IsSound _ s.shared (ground (arith, found, go, denied)) h
      | inl allowed ↦
          same-IsSound _ _ (ground (arith, found, go, allowed))
            (subscribers-IsSound c.path d (host_insert sender d.subscribers) s.shared found h)
    ]
  ]
]

pub on_request-shared :
    (sender : Bytes) (q : Request) (s t : Server)
    → on_request sender q s ≡ some t
    → t.shared ≡ s.shared
unfolding on_request on_request_transmission start_transmission answer send
on_request-shared sender q s t e = ground arith

pub continue_transmission-shared :
    (e r : Error) (id : ℕ) (s : Server) → (continue_transmission e r id s).shared ≡ s.shared
unfolding continue_transmission send
continue_transmission-shared e r id s = ground arith

pub time_out-shared : (id : ℕ) (s : Server) → (on_time_out id s).shared ≡ s.shared
unfolding on_time_out
time_out-shared id s = ground arith

pub cancel_transfer-shared : (id : ℕ) (s : Server) → (cancel_transfer id s).1.shared ≡ s.shared
unfolding cancel_transfer
cancel_transfer-shared id s = ground arith

Step-IsSound : (s t : Server) → Step s t → IsSound s.shared → IsSound t.shared
unfolding on_push send shutdown
Step-IsSound s t (Step.shares path p _) h = share-IsSound path p s h
Step-IsSound s t (Step.updates path p _ _ e run) h = update-IsSound path p s t e run h
Step-IsSound s t (Step.un_shares path _) h = un_share-IsSound path s h
Step-IsSound s t (Step.shuts_down _) h = empty-IsSound
Step-IsSound s t (Step.changes_channel level host _) h = on_channel_change-IsSound level host s h
Step-IsSound s t (Step.subscribes sender c _) h = on_subscribe-IsSound sender c s h
Step-IsSound s t (Step.pushes sender c _) h = h
Step-IsSound s t (Step.requests sender q _ _ run) h =
    same-IsSound _ s.shared (on_request-shared sender q s t run) h
Step-IsSound s t (Step.continues e r id _) h =
    same-IsSound _ s.shared (continue_transmission-shared e r id s) h
Step-IsSound s t (Step.cancels id _) h = same-IsSound _ s.shared (cancel_transfer-shared id s) h
Step-IsSound s t (Step.times_out id _) h = same-IsSound _ s.shared (time_out-shared id s) h

-- In every reachable state, no shared path has a sub path, data without a promise has revision 0
-- and data with one a positive revision.
pub Reach-IsSound : (s : Server) → Reach s → IsSound s.shared
Reach-IsSound s (Reach.starts f) = empty-IsSound
Reach-IsSound s (Reach.steps r _ before step) = Step-IsSound r s step (Reach-IsSound r before)
