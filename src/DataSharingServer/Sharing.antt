-- ===== src/DataSharingServer/Sharing.antt =====
-- What the server keeps of shared data, and who is told of its changes.
use schneeflocke.Base.{
  ◌≡◌, ◌⊎◌, refl, ◌∙◌, inl, inr, true, false, none, some, Bool-cases, List, [], ◌∷◌, ◌++◌,
  if◌then◌else◌, Bytes, Map, same, same_iff, same_refl, lookup, insert, lookup-insert, arith,
}
use schneeflocke.Base.Int.{ℤ, pos, negsuc, ltb_ℤ}
use schneeflocke.DataSharingServer.{
  SharingPromise, SharedData, Message, Server, Sent, send, member, host_insert, host_erase, update,
  next_revision, notify_subscriber, drop_host, on_channel_change,
}
use schneeflocke.Elements.{NotifyMark}
use schneeflocke.Error.{Error}

abbrev pub notice : Bytes → ℤ → ℤ → List Bytes → Sent
notice path revision size to = record {
  to = to;
  message =
      Message.notify
        (record { path = path; revision = revision; size = size; mark = NotifyMark.no_mark });
}

pub lookup-insert_self :
    (path : Bytes) (d : SharedData) (m : Map SharedData) → lookup path (insert path d m) ≡ some d
lookup-insert_self path d m = lookup-insert path path d m ∙ rw (same_refl path) refl

pub next_revision-above :
    (n : ℤ) → (ltb_ℤ (pos 0) (next_revision n) ≡ true) × (ltb_ℤ n (next_revision n) ≡ true)
unfolding next_revision
next_revision-above (pos n) = ground arith
next_revision-above (negsuc n) = ground arith

pub notify_found :
    (path : Bytes) (p : SharingPromise) (s : Server) (d : SharedData)
    → lookup path s.shared ≡ some d
    → d.promise ≡ some p
    → notify_subscriber path s
      ≡ some (
        Error.no_error,
        record s { sent = s.sent ++ (notice path d.current_revision p.size d.subscribers ∷ []) },
      )
unfolding notify_subscriber send
notify_found path p s d e f = rw (e, notify_subscriber, f) refl

abbrev pub updated : SharingPromise → SharedData → SharedData
updated p d = record d { promise = some p; current_revision = next_revision d.current_revision }

pub update_found :
    (path : Bytes) (p : SharingPromise) (s : Server) (d : SharedData)
    → lookup path s.shared ≡ some d
    → update path (some p) s
      ≡ some (
        Error.no_error,
        record s {
          shared = insert path (updated p d) s.shared;
          sent =
              s.sent ++ (notice path (next_revision d.current_revision) p.size d.subscribers ∷ []);
        },
      )
unfolding update
update_found path p s d e =
    let s1 = record s { shared = insert path (updated p d) s.shared } in
    rw
      (
        e,
        update,
        notify_found path p s1 (updated p d) (lookup-insert_self path (updated p d) s.shared) refl,
      )
      refl

-- An update of shared data goes through: the new promise is kept under a positive revision that is
-- above the old one, exactly the subscribers are told of this revision and of the new size, they
-- stay, and no other path changes.
pub update_lem :
    (path other : Bytes) (p : SharingPromise) (s : Server) (d : SharedData)
    → lookup path s.shared ≡ some d
    → (t : Server) × (n : ℤ) × (update path (some p) s ≡ some (Error.no_error, t))
      × (lookup path t.shared ≡ some (record d { promise = some p; current_revision = n }))
      × (ltb_ℤ (pos 0) n ≡ true)
      × (ltb_ℤ d.current_revision n ≡ true)
      × (t.sent ≡ s.sent ++ (notice path n p.size d.subscribers ∷ []))
      × (lookup other t.shared
          ≡ (if same path other then lookup path t.shared else lookup other s.shared))
unfolding update notify_subscriber send
update_lem path other p s d e = (
  _,
  next_revision d.current_revision,
  update_found path p s d e,
  lookup-insert_self path (updated p d) s.shared,
  (next_revision-above d.current_revision).0,
  (next_revision-above d.current_revision).1,
  refl,
  lookup-insert path other (updated p d) s.shared
      ∙ rw (lookup-insert_self path (updated p d) s.shared) refl,
)

pub member-host_insert :
    (h x : Bytes) (hs : List Bytes)
    → member h (host_insert x hs) ≡ (if same x h then true else member h hs)
unfolding member host_insert
member-host_insert h x hs = ground (arith, same_iff x h, same_refl x)

pub member-host_erase :
    (h x : Bytes) (hs : List Bytes)
    → member h (host_erase x hs) ≡ (if same x h then false else member h hs)
unfolding member host_erase
member-host_erase h x [] = ground arith
member-host_erase h x (y ∷ hs) =
    ground (arith, same_iff x h, same_iff y x, same_iff y h, member-host_erase h x hs)

pub lookup-drop_host :
    (path host : Bytes) (m : Map SharedData) (d : SharedData)
    → lookup path (drop_host host m) ≡ some d
    → (c : SharedData) × (lookup path m ≡ some c)
      × (d ≡ record c { subscribers = host_erase host c.subscribers })
unfolding lookup drop_host
lookup-drop_host path host [] d e = ground arith
lookup-drop_host path host (x ∷ m) d e = elim (Bool-cases (same x.key path)) [
  | inl here ↦ (x.value, rw here refl, ground (arith, here, e))
  | inr later ↦
      let (c, was, now) = lookup-drop_host path host m d (ground (arith, later, e)) in
      (c, rw later was, now)
]

lookup-drop_host_all :
    (path host : Bytes) (m : Map SharedData)
    → ((lookup path m ≡ none) × (lookup path (drop_host host m) ≡ none))
      ⊎ ((c : SharedData) × (lookup path m ≡ some c)
          × (lookup path (drop_host host m)
              ≡ some (record c { subscribers = host_erase host c.subscribers })))
unfolding lookup drop_host
lookup-drop_host_all path host [] = inl (refl, refl)
lookup-drop_host_all path host (x ∷ m) = elim (Bool-cases (same x.key path)) [
  | inl here ↦ inr (x.value, rw here refl, rw here refl)
  | inr later ↦ rw later (lookup-drop_host_all path host m)
]

-- When the channel to a host is gone, exactly the paths that were shared are shared, with the same
-- promise and revision, and each has the subscribers that it had, less that host.
pub on_channel_change-member :
    (level : ℤ) (host path : Bytes) (s : Server)
    → ltb_ℤ (pos 0) level ≡ false
    → ((lookup path s.shared ≡ none) × (lookup path (on_channel_change level host s).shared ≡ none))
      ⊎ ((c : SharedData) × (hs : List Bytes) × (lookup path s.shared ≡ some c)
          × (lookup path (on_channel_change level host s).shared
              ≡ some (record c { subscribers = hs }))
          × ((h : Bytes) → member h hs ≡ (if same host h then false else member h c.subscribers)))
unfolding on_channel_change
on_channel_change-member level host path s off = elim (lookup-drop_host_all path host s.shared) [
  | inl (absent, still) ↦ inl (absent, rw off still)
  | inr (c, was, now) ↦ inr (
    c,
    host_erase host c.subscribers,
    was,
    rw off now,
    λ h. member-host_erase h host c.subscribers,
  )
]
