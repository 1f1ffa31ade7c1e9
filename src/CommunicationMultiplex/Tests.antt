-- ===== src/CommunicationMultiplex/Tests.antt =====
-- Two components of which one is there, and the theorem there.
use schneeflocke.Base.{
  ℕ, ◌≡◌, ◌⊎◌, ◌==◌, if◌then◌else◌, refl, false, some, List, [], ◌∷◌, ◌++◌, Bytes, codes, same,
  lookup, insert, erase,
}
use schneeflocke.CommunicationMultiplex.{
  Multiplex, new_multiplex, holds, dispatch, add_component, del_component,
}
use schneeflocke.CommunicationMultiplex.Dispatch.{answers, Reach, Reach-dispatch}
use schneeflocke.Error.{Error}

abbrev commands : ℕ → List Bytes
commands c = if c == 1 then codes "ping" ∷ codes "pong" ∷ [] else codes "ping" ∷ []

abbrev pinging : Multiplex
pinging = (add_component commands 1 (new_multiplex (some 9))).1

-- A command that is in use keeps another component out.
in_use_test : (add_component commands 2 pinging).0 ≡ Error.invalid_argument
unfolding add_component lookup insert same
in_use_test = refl

replaced_test : (add_component commands 2 (del_component commands 1 pinging).1).0 ≡ Error.no_error
unfolding add_component del_component holds lookup insert erase same
replaced_test = refl

Reach-dispatch_example :
    ((c : ℕ) × ((b : ℕ) → answers commands (codes "pong") b pinging ≡ (c == b))
      × (dispatch (codes "bob") (codes "pong") false pinging ≡ (
        Error.no_error,
        record pinging { handled = pinging.handled ++ ((c, codes "bob", codes "pong") ∷ []) },
      )))
    ⊎ (((b : ℕ) → answers commands (codes "pong") b pinging ≡ false)
        × (dispatch (codes "bob") (codes "pong") false pinging ≡ (Error.not_found, pinging)))
unfolding add_component lookup
Reach-dispatch_example =
    Reach-dispatch commands pinging (codes "bob") (codes "pong") 9
      (Reach.adds 1 (new_multiplex (some 9)) (Reach.starts (some 9))) refl
