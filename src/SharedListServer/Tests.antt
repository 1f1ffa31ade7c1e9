-- ===== src/SharedListServer/Tests.antt =====
-- A shared list that is initialized, and the theorem there.
use schneeflocke.Base.{
  ◌≡◌, refl, none, some, [], ◌∷◌, if◌then◌else◌, Bytes, codes, same, lookup, insert, erase,
}
use schneeflocke.Base.Int.{pos}
use schneeflocke.DataSharingServer.{new_server, share, un_share}
use schneeflocke.PathName.{find, has_sub_path}
use schneeflocke.SharedListServer.{
  SharedList, new_list_server, first_share, init, uninit, published,
}
use schneeflocke.SharedListServer.Published.{promise_at, Step, Reach, Reach-IsPublished}

-- The names, with a bar behind each.
names : SharedList → Bytes
names [] = []
names (e ∷ l) = b'|' ∷ names l

begun : Reach names (init names (new_list_server new_server)).1
unfolding lookup
begun = Reach.steps _ _ (Reach.starts new_server refl) Step.inits

-- A second `init` begins with an empty list.
init_twice :
    (init names (record (init names (new_list_server new_server)).1 {
      list =
          record {
            key = codes "a";
            value = record {
              path = codes "a";
              size = pos 3;
              desc = record { mime = []; storage = []; user = [] };
            };
          }
          ∷ [];
    })).1.list
    ≡ []
unfolding init first_share uninit share un_share lookup insert erase has_sub_path find same
init_twice = refl

Reach-IsPublished_example : promise_at (init names (new_list_server new_server)).1.server ≡ (
    if (init names (new_list_server new_server)).1.initialized
    then some (some (published names (init names (new_list_server new_server)).1.list))
    else none)
Reach-IsPublished_example =
    Reach-IsPublished names (init names (new_list_server new_server)).1 begun
