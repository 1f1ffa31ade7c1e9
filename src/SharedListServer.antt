-- ===== src/SharedListServer.antt =====
-- libflocke/flocke/sharedlists/SharedListServer.cpp, SharedListServer.h and SharedList.h: the list of
-- what a host shares, which the data sharing server gives out at the path "shared". JSON is written
-- by the serialization library, so the text of a list is a parameter.
pub mod Published
mod Tests
use schneeflocke.Base.{
  Bool, true, false, not, Option, none, some, List, [], if◌then◌else◌, Bytes, codes, Map, lookup,
  insert, erase,
}
use schneeflocke.Base.Int.{ℤ}
use schneeflocke.DataSharingServer
use schneeflocke.DataSharingServer.{
  SharingPromise, Server, byte_array_promise, fixed_promise, share, un_share,
}
use schneeflocke.Error.{Error, is_error}

pub record DataDescription : Type 0 where
  pub mime : Bytes
  pub storage : Bytes
  pub user : Bytes

pub record SharedElement : Type 0 where
  pub path : Bytes
  pub size : ℤ
  pub desc : DataDescription

abbrev pub SharedList : Type 0
SharedList = Map SharedElement

-- `server` is the data sharing server that the list server points to.
pub record ListServer : Type 0 where
  pub initialized : Bool
  pub server : Server
  pub list : SharedList

abbrev pub shared_name : Bytes
shared_name = codes "shared"

abbrev pub new_list_server : Server → ListServer
new_list_server server = record { initialized = false; server = server; list = [] }

unfoldable pub uninit : ListServer → Error × ListServer
uninit s =
    let r = un_share shared_name s.server in
    if not s.initialized
    then (Error.no_error, s)
    else (r.0, record { initialized = false; server = r.1; list = [] })

module _ (to_json : SharedList → Bytes) where
  -- `createByteArrayPtr (toJSONEx (mList, INDENT))`, as a promise.
  abbrev pub published : SharedList → SharingPromise
  published list = fixed_promise (byte_array_promise (to_json list) [])

  -- `init` behind its call of `uninit`.
  unfoldable pub first_share : ListServer → Error × ListServer
  first_share s =
      let r = share shared_name (some (published s.list)) s.server in
      if is_error r.0
      then (r.0, record s { server = r.1 })
      else (Error.no_error, record s { server = r.1; initialized = true })

  unfoldable pub init : ListServer → Error × ListServer
  init s = first_share (uninit s).1

  -- `none`: a null pointer followed in the data sharing server.
  unfoldable pub update : ListServer → Option (Error × ListServer)
  update s = elim (DataSharingServer.update shared_name (some (published s.list)) s.server) [
    | none ↦ none
    | some r ↦ some (r.0, record s { server = r.1 })
  ]

  -- An element stays in the list whatever the update comes to.
  unfoldable pub add : Bytes → SharedElement → ListServer → Option (Error × ListServer)
  unfolding update
  add name element s = elim (lookup name s.list) [
    | some _ ↦ some (Error.exists_already, s)
    | none ↦ update (record s { list = insert name element s.list })
  ]

  unfoldable pub remove : Bytes → ListServer → Option (Error × ListServer)
  unfolding update
  remove name s = elim (lookup name s.list) [
    | none ↦ some (Error.not_found, s)
    | some _ ↦ update (record s { list = erase name s.list })
  ]

  unfoldable pub clear : ListServer → Option (Error × ListServer)
  unfolding update
  clear s = update (record s { list = [] })
