-- ===== src/SharedListTracker/Tests.antt =====
-- A list of one element that is fetched.
use schneeflocke.Base.{
  ◌≡◌, refl, subst, true, some, [], ◌∷◌, ◌++◌, if◌then◌else◌, Bytes, codes, same, lookup, insert,
  erase,
}
use schneeflocke.Base.Int.{ℤ, pos}
use schneeflocke.DataSharingServer
use schneeflocke.DataSharingServer.{
  Server, SharedData, SharingPromise, new_server, share, permitted, notify_subscriber, send,
  next_revision,
}
use schneeflocke.DataSharingServer.Requests.{answer}
use schneeflocke.DataSharingServer.Sharing.{notice}
use schneeflocke.DataSharingServer.Transmissions.{no_range}
use schneeflocke.DataTracker.{TrackState}
use schneeflocke.Elements.{Request, RequestMark, RequestReply}
use schneeflocke.Error.{Error}
use schneeflocke.PathName.{find, has_sub_path}
use schneeflocke.Range.{is_default}
use schneeflocke.SharedListServer.{
  SharedList, SharedElement, ListServer, shared_name, new_list_server, first_share, init, uninit,
  add, update, published,
}
use schneeflocke.SharedListServer.Published.{Step, Reach}
use schneeflocke.SharedListTracker.{ListTracker, Told, on_data_update, on_state_change}
use schneeflocke.SharedListTracker.Fetched.{fetch_shared}

abbrev text : SharedList → Bytes
text [] = codes "{}"
text (e ∷ l) = e.key

abbrev song : SharedElement
song = record {
  path = codes "song";
  size = pos 3;
  desc = record { mime = []; storage = []; user = [] };
}

abbrev songs : SharedList
songs = record { key = codes "song"; value = song } ∷ []

abbrev open_server : Server
open_server = record new_server { check_permissions = some (λ _ _. true) }

abbrev entry : SharedList → ℤ → SharedData
entry l n = record { promise = some (published text l); current_revision = n; subscribers = [] }

abbrev begun : ListServer
begun = record {
  initialized = true;
  server = record open_server {
    shared = record { key = shared_name; value = entry [] (pos 1) } ∷ [];
  };
  list = [];
}

abbrev ready : ListServer
ready = record {
  initialized = true;
  server = record open_server {
    shared = record { key = shared_name; value = entry songs (pos 2) } ∷ [];
    sent = notice shared_name (pos 2) (pos 4) [] ∷ [];
  };
  list = songs;
}

begins : (init text (new_list_server open_server)).1 ≡ begun
unfolding init first_share uninit share insert lookup has_sub_path find
begins = refl

adds_song : add text (codes "song") song begun ≡ some (Error.no_error, ready)
unfolding add update DataSharingServer.update DataSharingServer.byte_array_promise notify_subscriber
    send next_revision insert lookup same
adds_song = refl

ready_reached : Reach text ready
unfolding lookup
ready_reached =
    Reach.steps begun ready
      (subst (Reach text) begins (Reach.steps _ _ (Reach.starts open_server refl) Step.inits))
      (Step.adds (codes "song") song Error.no_error ready adds_song)

abbrev tracker : ListTracker
tracker = record {
  tracker = record { infos = []; tracked = []; called = [] };
  lists = [];
  wants_update = true;
  wants_lost = true;
  told = [];
}

-- What is known of a host is forgotten when its data are lost.
lost_test :
    (on_state_change
      (codes "bob")
      TrackState.lost
      (record tracker { lists = record { key = codes "bob"; value = songs } ∷ [] })).lists
    ≡ []
unfolding on_state_change erase same
lost_test = refl

abbrev for_all : Request
for_all = record {
  id = 3;
  path = shared_name;
  user = [];
  revision = pos 0;
  range = no_range;
  mark = RequestMark.no_mark;
}

fetch_shared_example :
    (r : RequestReply) × (bytes : Bytes) × (answer (codes "alice") for_all ready.server
      ≡ some (r, bytes))
    × (r.err ≡ Error.no_error)
    × (lookup (codes "bob") (on_data_update (λ _. some songs) (codes "bob") bytes tracker).lists
        ≡ some songs)
    × ((on_data_update (λ _. some songs) (codes "bob") bytes tracker).told
        ≡ (if true then [] ++ (Told.tracking_update (codes "bob") songs ∷ []) else []))
unfolding permitted is_default
fetch_shared_example =
    fetch_shared text (λ _. some songs) ready tracker (codes "bob") (codes "alice") for_all
      ready_reached refl refl refl refl refl refl
