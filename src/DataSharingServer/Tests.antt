-- ===== src/DataSharingServer/Tests.antt =====
-- Tests of the data sharing server.
use schneeflocke.Base.{
  ◌≡◌, refl, ◌⊎◌, true, false, none, some, List, [], ◌∷◌, map, if◌then◌else◌, Bytes, codes, same,
  lookup,
}
use schneeflocke.Base.Int.{ℤ, pos, ltb_ℤ}
use schneeflocke.DataSharingServer.{
  byte_array_promise, fixed_promise, SharingPromise, SharedData, Server, new_server, permitted,
  member, host_erase, drop_host, share, update, on_channel_change, on_subscribe,
}
use schneeflocke.DataSharingServer.Delivery.{transmission-delivers}
use schneeflocke.DataSharingServer.Faults.{share-on_request_fault, ranged_transmission-next_piece}
use schneeflocke.DataSharingServer.Invariant.{Step, Reach, IsSound, Reach-IsSound}
use schneeflocke.DataSharingServer.Refinement.{SpecStep, view, Step-refines}
use schneeflocke.DataSharingServer.Requests.{Answer, answer, on_request, answer-permitted}
use schneeflocke.DataSharingServer.Sharing.{notice, update_lem, on_channel_change-member}
use schneeflocke.DataSharingServer.Transfer.{run, to_host}
use schneeflocke.DataSharingServer.Transmissions.{
  find_op, chunk_count, find_promise, used_revision, no_range, on_request_transmission, empty_reply,
}
use schneeflocke.Elements.{Mark, Request, RequestMark}
use schneeflocke.Error.{Error}
use schneeflocke.FileTransfer.{FileTransfer, State, new_transfer}
use schneeflocke.FileTransfer.Content.{Piece, contents, receive_all, Finished}
use schneeflocke.PathName.{find, head, has_sub_path}
use schneeflocke.Range.{is_default, in_range, range_length}

abbrev text : Bytes
text = codes "snow"

abbrev promise : SharingPromise
promise = fixed_promise (byte_array_promise text [])

abbrev flake : SharedData
flake = record { promise = some promise; current_revision = pos 1; subscribers = codes "bob" ∷ [] }

abbrev open_server : Server
open_server = record new_server {
  shared = record { key = codes "flake"; value = flake } ∷ [];
  check_permissions = some (λ _ _. true);
}

abbrev fresh : FileTransfer
unfolding new_transfer
fresh = record new_transfer { state = State.starting }

abbrev whole_request : Request
whole_request = record {
  id = 7;
  path = codes "flake";
  user = [];
  revision = pos 0;
  range = no_range;
  mark = RequestMark.transmission;
}

abbrev part_request : Request
part_request = record whole_request { range = record { from = pos 1; to = pos 3 } }

transmission-delivers_example :
    (t : Server) × (ps : List Piece) × (on_request_transmission
        (codes "bob")
        whole_request
        open_server
      ≡ some t)
    × ((run (chunk_count 4 8192) 1 t).sent ≡ map (to_host (codes "bob")) ps)
    × (find_op 1 (run (chunk_count 4 8192) 1 t).ops ≡ none)
    × (contents ps ≡ text)
    × Finished (receive_all fresh ps) text []
unfolding permitted find_promise used_revision fresh lookup same head find is_default in_range
transmission-delivers_example =
    transmission-delivers (codes "bob") whole_request open_server flake text [] fresh refl refl refl
      refl refl refl refl refl

ranged_transmission-next_piece_example :
    (t : Server) × (first last : Piece) × (on_request_transmission
        (codes "bob")
        part_request
        open_server
      ≡ some t)
    × ((run 1 1 t).sent ≡ map (to_host (codes "bob")) (first ∷ last ∷ []))
    × (first.reply.range ≡ no_range)
    × (last.bytes ≡ [])
    × (last.reply.mark ≡ Mark.transmission_finish)
    × (last.reply.err ≡ Error.no_error)
unfolding permitted find_promise used_revision lookup same head find is_default in_range
ranged_transmission-next_piece_example =
    ranged_transmission-next_piece (codes "bob") part_request open_server flake text [] refl refl
      refl refl refl refl refl

share-on_request_fault_example :
    on_request
      (codes "bob")
      (record whole_request { path = codes "ice" })
      (share (codes "ice") none open_server).1
    ≡ none
unfolding permitted has_sub_path find lookup same
share-on_request_fault_example =
    share-on_request_fault (codes "bob") (codes "ice") (record whole_request { path = codes "ice" })
      open_server refl refl refl refl refl cc

abbrev plain_request : Request
plain_request = record whole_request { mark = RequestMark.no_mark }

abbrev plain_answer : Answer
plain_answer = (record empty_reply { path = codes "flake"; id = 7; revision = pos 1 }, text)

answer-permitted_example :
    ((permitted open_server (codes "bob") (codes "flake") ≡ true)
      ⊎ (Error.no_error ≡ Error.no_perm))
    × ((Error.no_error ≡ Error.no_error) ⊎ (text ≡ []))
    × (codes "flake" ≡ codes "flake")
    × (plain_answer.0.id ≡ plain_request.id)
unfolding answer permitted find_promise used_revision byte_array_promise range_length lookup same
    head find is_default in_range
answer-permitted_example =
    answer-permitted (codes "bob") plain_request open_server plain_answer refl

update_lem_example :
    (t : Server) × (n : ℤ) × (update (codes "flake") (some promise) open_server
      ≡ some (Error.no_error, t))
    × (lookup (codes "flake") t.shared
        ≡ some (record flake { promise = some promise; current_revision = n }))
    × (ltb_ℤ (pos 0) n ≡ true)
    × (ltb_ℤ (pos 1) n ≡ true)
    × (t.sent ≡ notice (codes "flake") n (pos 4) (codes "bob" ∷ []) ∷ [])
    × (lookup (codes "ice") t.shared ≡ (
        if same (codes "flake") (codes "ice")
        then lookup (codes "flake") t.shared
        else lookup (codes "ice") open_server.shared))
unfolding byte_array_promise lookup same
update_lem_example = update_lem (codes "flake") (codes "ice") promise open_server flake refl

on_channel_change_run :
    lookup (codes "flake") (on_channel_change (pos 0) (codes "bob") open_server).shared
    ≡ some (record flake { subscribers = [] })
unfolding on_channel_change lookup drop_host same host_erase
on_channel_change_run = refl

on_channel_change-member_example :
    ((lookup (codes "flake") open_server.shared ≡ none)
      × (lookup (codes "flake") (on_channel_change (pos 0) (codes "bob") open_server).shared
          ≡ none))
    ⊎ ((c : SharedData) × (hs : List Bytes) × (lookup (codes "flake") open_server.shared ≡ some c)
        × (lookup (codes "flake") (on_channel_change (pos 0) (codes "bob") open_server).shared
            ≡ some (record c { subscribers = hs }))
        × ((h : Bytes)
            → member h hs ≡ (if same (codes "bob") h then false else member h c.subscribers)))
on_channel_change-member_example =
    on_channel_change-member (pos 0) (codes "bob") (codes "flake") open_server refl

Reach-IsSound_example :
    IsSound
      (share
        (codes "flake")
        (some promise)
        (record new_server { check_permissions = none })).1.shared
Reach-IsSound_example = Reach-IsSound _ (
    Reach.steps _ _ (Reach.starts none)
      (Step.shares (codes "flake") (some promise) (record new_server { check_permissions = none })))

Step-refines_example : SpecStep (view open_server) (
    view (
      on_subscribe
        (codes "alice")
        (record { path = codes "flake"; cancels = false; id = 7 })
        open_server))
Step-refines_example = Step-refines open_server _ (
    Step.subscribes (codes "alice") (record { path = codes "flake"; cancels = false; id = 7 })
      open_server)
