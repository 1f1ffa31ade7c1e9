-- ===== src/DataSharingServer/Refinement.antt =====
-- What a data sharing server promises, without its representation: for each path that is shared, the
-- revision and the set of subscribers.
use mathlib.Core.Path.{fun_ext}
use schneeflocke.Base.{
  ◌≡◌, refl, sym, ap, subst, Bool, true, false, Option, none, some, Option-cases, Bool-cases, inl,
  inr, [], ◌∷◌, Bytes, Map, same, lookup, insert, erase, if◌then◌else◌, lookup-insert, lookup-erase,
  arith,
}
use schneeflocke.Base.Int.{ℤ, pos, ltb_ℤ}
use schneeflocke.DataSharingServer.{
  SharingPromise, SharedData, Server, send, permitted, share, update, un_share, shutdown,
  on_channel_change, on_subscribe, on_push, drop_host, host_insert, host_erase, member,
}
use schneeflocke.DataSharingServer.Invariant.{
  Step, on_request-shared, continue_transmission-shared, time_out-shared, cancel_transfer-shared,
  first_data,
}
use schneeflocke.DataSharingServer.Sharing.{
  updated, update_found, next_revision-above, member-host_insert, member-host_erase,
}
use schneeflocke.Elements.{Subscribe}
use schneeflocke.Error.{Error}
use schneeflocke.PathName.{has_sub_path}

-- A revision and who subscribes.
abbrev pub Entry : Type 0
Entry = ℤ × (Bytes → Bool)

abbrev pub View : Type 0
View = Bytes → Option Entry

abbrev pub at : Bytes → Option Entry → View → View
at path e v = λ p. if same path p then e else v p

abbrev pub with_host : Bytes → Bool → (Bytes → Bool) → Bytes → Bool
with_host host b hosts = λ h. if same host h then b else hosts h

abbrev pub without : Bytes → Option Entry → Option Entry
without host none = none
without host (some (n, hosts)) = some (n, with_host host false hosts)

-- What may happen to the view.
pub data SpecStep (v : View) : View → Type 0 where
  stays : SpecStep v v
  publishes : (path : Bytes) (n : ℤ) → v path ≡ none → SpecStep v (at path (some (n, λ _. false)) v)
  renews :
      (path : Bytes) (n m : ℤ) (hosts : Bytes → Bool)
      → v path ≡ some (n, hosts)
      → ltb_ℤ n m ≡ true
      → SpecStep v (at path (some (m, hosts)) v)
  withdraws : (path : Bytes) (e : Entry) → v path ≡ some e → SpecStep v (at path none v)
  joins :
      (path host : Bytes) (n : ℤ) (hosts : Bytes → Bool)
      → v path ≡ some (n, hosts)
      → SpecStep v (at path (some (n, with_host host true hosts)) v)
  leaves :
      (path host : Bytes) (n : ℤ) (hosts : Bytes → Bool)
      → v path ≡ some (n, hosts)
      → SpecStep v (at path (some (n, with_host host false hosts)) v)
  loses : (host : Bytes) → SpecStep v (λ p. without host (v p))
  closes : SpecStep v (λ _. none)

abbrev entry : SharedData → Entry
entry d = (d.current_revision, λ h. member h d.subscribers)

abbrev entry_of : Option SharedData → Option Entry
entry_of none = none
entry_of (some d) = some (entry d)

abbrev view_of : Map SharedData → View
view_of m = λ p. entry_of (lookup p m)

abbrev pub view : Server → View
view s = view_of s.shared

view_of-insert :
    (path : Bytes) (d : SharedData) (m : Map SharedData)
    → at path (some (entry d)) (view_of m) ≡ view_of (insert path d m)
view_of-insert path d m = fun_ext λ p. elim (Bool-cases (same path p)) [
  | inl e ↦ rw (lookup-insert path p d m, e) refl
  | inr e ↦ rw (lookup-insert path p d m, e) refl
]

view_of-erase :
    (path : Bytes) (m : Map SharedData) → at path none (view_of m) ≡ view_of (erase path m)
view_of-erase path m = fun_ext λ p. elim (Bool-cases (same path p)) [
  | inl e ↦ rw (lookup-erase path p m, e) refl
  | inr e ↦ rw (lookup-erase path p m, e) refl
]

view_of-drop_host :
    (host : Bytes) (m : Map SharedData)
    → (p : Bytes) → without host (view_of m p) ≡ view_of (drop_host host m) p
unfolding lookup drop_host
view_of-drop_host host [] p = refl
view_of-drop_host host (x ∷ m) p = elim (Bool-cases (same x.key p)) [
  | inl e ↦ rw e (
      ap (λ (f : Bytes → Bool). some (x.value.current_revision, f))
        (fun_ext λ h. sym (member-host_erase h host x.value.subscribers)))
  | inr e ↦ rw e (view_of-drop_host host m p)
]

found_entry :
    (path : Bytes) (m : Map SharedData) (d : SharedData)
    → lookup path m ≡ some d
    → view_of m path ≡ some (entry d)
found_entry path m d e = rw e refl

-- Shared data that are the same are seen the same.
same_view : (m n : Map SharedData) → m ≡ n → SpecStep (view_of m) (view_of n)
same_view m n e = subst (λ (x : Map SharedData). SpecStep (view_of m) (view_of x)) e SpecStep.stays

refines :
    (m n k : Map SharedData)
    → n ≡ k
    → SpecStep (view_of m) (view_of n)
    → SpecStep (view_of m) (view_of k)
refines m n k e h = subst (λ (x : Map SharedData). SpecStep (view_of m) (view_of x)) e h

insert_refines :
    (path : Bytes) (d : SharedData) (m : Map SharedData)
    → SpecStep (view_of m) (at path (some (entry d)) (view_of m))
    → SpecStep (view_of m) (view_of (insert path d m))
insert_refines path d m h = subst (SpecStep (view_of m)) (view_of-insert path d m) h

share_refines :
    (path : Bytes) (p : Option SharingPromise) (s : Server)
    → SpecStep (view s) (view (share path p s).1)
unfolding share member
share_refines path p s = elim (Bool-cases (has_sub_path path)) [
  | inl deep ↦ same_view _ _ (ground (arith, deep))
  | inr plain ↦ elim (Option-cases (lookup path s.shared)) [
    | inr (d, found) ↦ same_view _ _ (ground (arith, plain, found))
    | inl new ↦
        refines _ (insert path (first_data p) s.shared) _ (ground (arith, plain, new))
          (insert_refines path (first_data p) s.shared (SpecStep.publishes path _ (rw new refl)))
  ]
]

update_refines :
    (path : Bytes) (p : Option SharingPromise) (s t : Server) (e : Error)
    → update path p s ≡ some (e, t)
    → SpecStep (view s) (view t)
unfolding update
update_refines path none s t e run = same_view _ _ (ground (arith, run))
update_refines path (some p) s t e run = elim (Option-cases (lookup path s.shared)) [
  | inl missing ↦ same_view _ _ (ground (arith, missing, run))
  | inr (d, found) ↦
      refines _ (insert path (updated p d) s.shared) _
        (ground (arith, run, update_found path p s d found))
        (insert_refines path (updated p d) s.shared (
          SpecStep.renews path d.current_revision _ _ (found_entry path s.shared d found)
            (next_revision-above d.current_revision).1))
]

un_share_refines : (path : Bytes) (s : Server) → SpecStep (view s) (view (un_share path s).1)
unfolding un_share send
un_share_refines path s = elim (Option-cases (lookup path s.shared)) [
  | inl missing ↦ same_view _ _ (ground (arith, missing))
  | inr (d, found) ↦ refines _ (erase path s.shared) _ (ground (arith, found)) (
      subst (SpecStep (view s)) (view_of-erase path s.shared)
        (SpecStep.withdraws path _ (found_entry path s.shared d found)))
]

on_channel_change_refines :
    (level : ℤ) (host : Bytes) (s : Server)
    → SpecStep (view s) (view (on_channel_change level host s))
unfolding on_channel_change
on_channel_change_refines level host s = elim (Bool-cases (ltb_ℤ (pos 0) level)) [
  | inl up ↦ same_view _ _ (ground (arith, up))
  | inr down ↦
      refines _ (drop_host host s.shared) _ (ground (arith, down)) (
        subst (SpecStep (view s)) (fun_ext (view_of-drop_host host s.shared)) (SpecStep.loses host))
]

joined :
    (host : Bytes) (d : SharedData)
    → some (d.current_revision, with_host host true (λ h. member h d.subscribers))
      ≡ some (entry (record d { subscribers = host_insert host d.subscribers }))
joined host d =
    ap (λ (f : Bytes → Bool). some (d.current_revision, f))
      (fun_ext λ h. sym (member-host_insert h host d.subscribers))

left :
    (host : Bytes) (d : SharedData)
    → some (d.current_revision, with_host host false (λ h. member h d.subscribers))
      ≡ some (entry (record d { subscribers = host_erase host d.subscribers }))
left host d =
    ap (λ (f : Bytes → Bool). some (d.current_revision, f))
      (fun_ext λ h. sym (member-host_erase h host d.subscribers))

on_subscribe_refines :
    (sender : Bytes) (c : Subscribe) (s : Server)
    → SpecStep (view s) (view (on_subscribe sender c s))
unfolding on_subscribe send
on_subscribe_refines sender c s = elim (Option-cases (lookup c.path s.shared)) [
  | inl missing ↦ same_view _ _ (ground (arith, missing))
  | inr (d, found) ↦ elim (Bool-cases c.cancels) [
    | inl stop ↦ refines _ _ _ (ground (arith, found, stop)) (
        insert_refines c.path (record d { subscribers = host_erase sender d.subscribers }) s.shared
          (subst (λ (e : Option Entry). SpecStep (view s) (at c.path e (view s))) (left sender d)
            (SpecStep.leaves c.path sender _ _ (found_entry c.path s.shared d found))))
    | inr go ↦ elim (Bool-cases (permitted s sender c.path)) [
      | inr denied ↦ same_view _ _ (ground (arith, found, go, denied))
      | inl allowed ↦ refines _ _ _ (ground (arith, found, go, allowed)) (
          insert_refines c.path (record d { subscribers = host_insert sender d.subscribers })
            s.shared
            (subst (λ (e : Option Entry). SpecStep (view s) (at c.path e (view s)))
              (joined sender d)
              (SpecStep.joins c.path sender _ _ (found_entry c.path s.shared d found))))
    ]
  ]
]

-- Every call of the server, seen as what is shared under which revision and who subscribes to it, is
-- one of these: nothing, a new path without subscribers, a higher revision for the same subscribers,
-- a path that is withdrawn, a host that joins or leaves one path, a host that is dropped from all
-- paths, or the end of all sharing.
pub Step-refines : (s t : Server) → Step s t → SpecStep (view s) (view t)
unfolding on_push send shutdown lookup
Step-refines s t (Step.shares path p _) = share_refines path p s
Step-refines s t (Step.updates path p _ _ e run) = update_refines path p s t e run
Step-refines s t (Step.un_shares path _) = un_share_refines path s
Step-refines s t (Step.shuts_down _) = SpecStep.closes
Step-refines s t (Step.changes_channel level host _) = on_channel_change_refines level host s
Step-refines s t (Step.subscribes sender c _) = on_subscribe_refines sender c s
Step-refines s t (Step.pushes sender c _) = SpecStep.stays
Step-refines s t (Step.requests sender q _ _ run) =
    same_view _ _ (sym (on_request-shared sender q s t run))
Step-refines s t (Step.continues e r id _) =
    same_view _ _ (sym (continue_transmission-shared e r id s))
Step-refines s t (Step.cancels id _) = same_view _ _ (sym (cancel_transfer-shared id s))
Step-refines s t (Step.times_out id _) = same_view _ _ (sym (time_out-shared id s))
