-- ===== src/CommunicationMultiplex.antt =====
-- libschnee/schnee/p2p/CommunicationMultiplex.cpp and CommunicationMultiplex.h: which component gets a
-- command. A component is a pointer, here a number; `commands` are the names that it answers to.
pub mod Dispatch
mod Tests
use schneeflocke.Base.{
  ℕ, Bool, true, false, not, ◌&&◌, ◌==◌, Option, none, some, List, [], ◌∷◌, ◌++◌, if◌then◌else◌,
  Bytes, Map, lookup, insert, erase,
}
use schneeflocke.Error.{Error}

-- `delegate` is the communication delegate, if there is one; `given` are the calls of `setDelegate`,
-- `handled` those of `handleRpc`, `notified` those of `onChannelChange`, the oldest first.
pub record Multiplex : Type 0 where
  pub communication_map : Map ℕ
  pub components : List ℕ
  pub delegate : Option ℕ
  pub given : List (ℕ × Option ℕ)
  pub handled : List (ℕ × Bytes × Bytes)
  pub notified : List (ℕ × Bytes)

-- The constructor leaves the delegate as it was in memory.
abbrev pub new_multiplex : Option ℕ → Multiplex
new_multiplex delegate = record {
  communication_map = [];
  components = [];
  delegate = delegate;
  given = [];
  handled = [];
  notified = [];
}

unfoldable pub holds : ℕ → List ℕ → Bool
holds c [] = false
holds c (d ∷ l) = if d == c then true else holds c l

set_insert : ℕ → List ℕ → List ℕ
unfolding holds
set_insert c l = if holds c l then l else l ++ (c ∷ [])

set_erase : ℕ → List ℕ → List ℕ
set_erase c [] = []
set_erase c (d ∷ l) = let rest = set_erase c l in if d == c then rest else d ∷ rest

give_all : Option ℕ → List ℕ → List (ℕ × Option ℕ)
give_all delegate [] = []
give_all delegate (c ∷ l) = (c, delegate) ∷ give_all delegate l

unfoldable pub set_communication_delegate : Option ℕ → Multiplex → Multiplex
unfolding give_all
set_communication_delegate delegate m = record m {
  delegate = delegate;
  given = m.given ++ give_all delegate m.components;
}

-- The three loops over a component's commands.
in_use : List Bytes → Map ℕ → Bool
in_use [] m = false
in_use (cmd ∷ l) m =
    let rest = in_use l m in elim (lookup cmd m) as (λ _. Bool) [ some _ ↦ true | none ↦ rest ]

enter : List Bytes → ℕ → Map ℕ → Map ℕ
enter [] c m = m
enter (cmd ∷ l) c m = enter l c (insert cmd c m)

leave : List Bytes → Map ℕ → Map ℕ
leave [] m = m
leave (cmd ∷ l) m = leave l (erase cmd m)

-- A channel to the host changed: all components are told, if there is a delegate.
tell_all : Bytes → List ℕ → List (ℕ × Bytes)
tell_all host [] = []
tell_all host (c ∷ l) = (c, host) ∷ tell_all host l

unfoldable pub dist_channel_change : Bytes → Multiplex → Multiplex
unfolding tell_all
dist_channel_change host m = elim m.delegate [
  | none ↦ m
  | some _ ↦ record m { notified = m.notified ++ tell_all host m.components }
]

-- What `handleRpc` returns is only logged.
unfoldable pub dispatch : Bytes → Bytes → Bool → Multiplex → Error × Multiplex
dispatch sender cmd malformed m = elim m.delegate [
  | none ↦ (Error.not_initialized, m)
  | some _ ↦
      if malformed then (Error.invalid_argument, m) else elim (lookup cmd m.communication_map) [
        | none ↦ (Error.not_found, m)
        | some c ↦ (Error.no_error, record m { handled = m.handled ++ ((c, sender, cmd) ∷ []) })
      ]
]

module _ (commands : ℕ → List Bytes) where
  unfoldable pub add_component : ℕ → Multiplex → Error × Multiplex
  unfolding in_use enter set_insert
  add_component c m =
      if in_use (commands c) m.communication_map then (Error.invalid_argument, m) else (
        Error.no_error,
        record m {
          communication_map = enter (commands c) c m.communication_map;
          given = m.given ++ ((c, m.delegate) ∷ []);
          components = set_insert c m.components;
        },
      )

  unfoldable pub del_component : ℕ → Multiplex → Error × Multiplex
  unfolding holds leave set_erase
  del_component c m = if not (holds c m.components) then (Error.not_found, m) else (
    Error.no_error,
    record m {
      communication_map = leave (commands c) m.communication_map;
      given = m.given ++ ((c, none) ∷ []);
      components = set_erase c m.components;
    },
  )
