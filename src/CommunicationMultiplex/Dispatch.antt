-- ===== src/CommunicationMultiplex/Dispatch.antt =====
-- A command goes to the one component that answers to it.
use schneeflocke.Base.{
  ℕ, ◌≡◌, ◌↔◌, ◌⊎◌, refl, sym, ap, subst, ◌∙◌, Bool, true, false, ◌&&◌, ◌==◌, ==_iff, Option, none,
  some, Option-cases, Bool-cases, inl, inr, List, [], ◌∷◌, ◌++◌, if◌then◌else◌, Bytes, Map, same,
  same_iff, lookup, insert, erase, lookup-insert, lookup-erase, arith,
}
use schneeflocke.CommunicationMultiplex.{
  Multiplex, new_multiplex, holds, set_insert, set_erase, set_communication_delegate, in_use, enter,
  leave, dispatch, dist_channel_change, add_component, del_component,
}
use schneeflocke.Error.{Error}

unfoldable pub listed : Bytes → List Bytes → Bool
listed k [] = false
listed k (cmd ∷ l) = if same cmd k then true else listed k l

lookup-enter :
    (k : Bytes) (l : List Bytes) (c : ℕ) (m : Map ℕ)
    → lookup k (enter l c m) ≡ (if listed k l then some c else lookup k m)
unfolding enter listed
lookup-enter k [] c m = refl
lookup-enter k (cmd ∷ l) c m =
    ground (arith, lookup-enter k l c (insert cmd c m), lookup-insert cmd k c m)

lookup-leave :
    (k : Bytes) (l : List Bytes) (m : Map ℕ)
    → lookup k (leave l m) ≡ (if listed k l then none else lookup k m)
unfolding leave listed
lookup-leave k [] m = refl
lookup-leave k (cmd ∷ l) m = ground (arith, lookup-leave k l (erase cmd m), lookup-erase cmd k m)

in_use-listed :
    (k : Bytes) (l : List Bytes) (m : Map ℕ)
    → in_use l m ≡ false
    → listed k l ≡ true
    → lookup k m ≡ none
unfolding in_use listed
in_use-listed k [] m free e = cc
in_use-listed k (cmd ∷ l) m free e = elim (Option-cases (lookup cmd m)) [
  | inr (c, there) ↦ absurd (ground (arith, free, there))
  | inl missing ↦ elim (Bool-cases (same cmd k)) [
    | inl here ↦ ap (λ (x : Bytes). lookup x m) (sym ((same_iff cmd k).0 here)) ∙ missing
    | inr later ↦ in_use-listed k l m (ground (arith, free, missing)) (ground (arith, e, later))
  ]
]

holds-append :
    (d c : ℕ) (l : List ℕ) → holds d (l ++ (c ∷ [])) ≡ (if c == d then true else holds d l)
unfolding holds
holds-append d c [] = refl
holds-append d c (x ∷ l) = ground (arith, holds-append d c l)

holds-set_insert :
    (d c : ℕ) (l : List ℕ) → holds d (set_insert c l) ≡ (if c == d then true else holds d l)
unfolding set_insert
holds-set_insert d c l = elim (Bool-cases (holds c l)) [
  | inr new ↦ rw new (holds-append d c l)
  | inl old ↦ elim (Bool-cases (c == d)) [
    | inl here ↦ rw (old, here) (ap (λ (x : ℕ). holds x l) (sym ((==_iff c d).0 here)) ∙ old)
    | inr other ↦ rw (old, other) refl
  ]
]

holds-set_erase :
    (d c : ℕ) (l : List ℕ) → holds d (set_erase c l) ≡ (if c == d then false else holds d l)
unfolding set_erase holds
holds-set_erase d c [] = ground arith
holds-set_erase d c (x ∷ l) = ground (arith, holds-set_erase d c l)

module _ (commands : ℕ → List Bytes) where
  abbrev pub answers : Bytes → ℕ → Multiplex → Bool
  answers cmd c m = holds c m.components && listed cmd (commands c)

  -- The map has the commands of the components that are there, and no others.
  IsRouted : Multiplex → Type 0
  IsRouted m =
      (cmd : Bytes) (c : ℕ) → (lookup cmd m.communication_map ≡ some c) ↔ (answers cmd c m ≡ true)

  pub data Reach : Multiplex → Type 0 where
    starts : (delegate : Option ℕ) → Reach (new_multiplex delegate)
    sets_delegate :
        (delegate : Option ℕ) (m : Multiplex)
        → Reach m
        → Reach (set_communication_delegate delegate m)
    adds : (c : ℕ) (m : Multiplex) → Reach m → Reach (add_component commands c m).1
    deletes : (c : ℕ) (m : Multiplex) → Reach m → Reach (del_component commands c m).1
    dispatches :
        (sender cmd : Bytes) (malformed : Bool) (m : Multiplex)
        → Reach m
        → Reach (dispatch sender cmd malformed m).1
    changes : (host : Bytes) (m : Multiplex) → Reach m → Reach (dist_channel_change host m)

  module _ (c : ℕ) (m : Multiplex) (h : IsRouted m) (cmd : Bytes) (d : ℕ) where
    entered-forth :
        lookup cmd (enter (commands c) c m.communication_map) ≡ some d
        → (holds d (set_insert c m.components) && listed cmd (commands d)) ≡ true
    unfolding IsRouted
    entered-forth e = elim (Bool-cases (listed cmd (commands c))) [
      | inl mine ↦
          let is_c : c ≡ d =
            ground (arith, lookup-enter cmd (commands c) c m.communication_map, mine, e) in
          subst (λ (x : ℕ). (holds x (set_insert c m.components) && listed cmd (commands x)) ≡ true)
            is_c (ground (arith, holds-set_insert c c m.components, mine))
      | inr not_mine ↦
          let old =
            (h cmd d).0
              (ground (arith, lookup-enter cmd (commands c) c m.communication_map, not_mine, e)) in
          ground (arith, old, holds-set_insert d c m.components)
    ]

    entered-back :
        in_use (commands c) m.communication_map ≡ false
        → (holds d (set_insert c m.components) && listed cmd (commands d)) ≡ true
        → lookup cmd (enter (commands c) c m.communication_map) ≡ some d
    unfolding IsRouted
    entered-back free e = elim (Bool-cases (c == d)) [
      | inl here ↦
          let is_c : c ≡ d = (==_iff c d).0 here in
          let mine : listed cmd (commands c) ≡ true =
            ap (λ (x : ℕ). listed cmd (commands x)) is_c ∙ ground (arith, e) in
          ground (arith, lookup-enter cmd (commands c) c m.communication_map, mine, is_c)
      | inr other ↦
          let old = (h cmd d).1 (ground (arith, e, other, holds-set_insert d c m.components)) in
          ground (
            arith,
            old,
            lookup-enter cmd (commands c) c m.communication_map,
            in_use-listed cmd (commands c) m.communication_map free,
          )
    ]

    left-forth :
        lookup cmd (leave (commands c) m.communication_map) ≡ some d
        → (holds d (set_erase c m.components) && listed cmd (commands d)) ≡ true
    unfolding IsRouted
    left-forth e =
        let (not_mine, was) : (listed cmd (commands c) ≡ false)
            × (lookup cmd m.communication_map ≡ some d) =
          ground (arith, e, lookup-leave cmd (commands c) m.communication_map) in
        let old = (h cmd d).0 was in
        elim (Bool-cases (c == d)) [
          | inl here ↦
              let mine : listed cmd (commands c) ≡ true =
                ap (λ (x : ℕ). listed cmd (commands x)) ((==_iff c d).0 here)
                ∙ ground (arith, old) in
              absurd (cc)
          | inr other ↦ ground (arith, old, other, holds-set_erase d c m.components)
        ]

    left-back :
        holds c m.components ≡ true
        → (holds d (set_erase c m.components) && listed cmd (commands d)) ≡ true
        → lookup cmd (leave (commands c) m.communication_map) ≡ some d
    unfolding IsRouted
    left-back here e =
        let (other, is_there) : ((c == d) ≡ false)
            × ((holds d m.components && listed cmd (commands d)) ≡ true) =
          ground (arith, e, holds-set_erase d c m.components) in
        let old = (h cmd d).1 is_there in
        elim (Bool-cases (listed cmd (commands c))) [
          | inr not_mine ↦
              ground (arith, old, not_mine, lookup-leave cmd (commands c) m.communication_map)
          | inl mine ↦
              let also : lookup cmd m.communication_map ≡ some c =
                (h cmd c).1 (ground (arith, here, mine)) in
              absurd (ground (arith, old, also, other))
        ]

  add-IsRouted : (c : ℕ) (m : Multiplex) → IsRouted m → IsRouted (add_component commands c m).1
  unfolding add_component IsRouted
  add-IsRouted c m h cmd d = elim (Bool-cases (in_use (commands c) m.communication_map)) [
    | inl used ↦ rw used (h cmd d)
    | inr free ↦ rw free (entered-forth c m h cmd d, entered-back c m h cmd d free)
  ]

  delete-IsRouted : (c : ℕ) (m : Multiplex) → IsRouted m → IsRouted (del_component commands c m).1
  unfolding del_component IsRouted
  delete-IsRouted c m h cmd d = elim (Bool-cases (holds c m.components)) [
    | inr absent ↦ rw absent (h cmd d)
    | inl there ↦ rw there (left-forth c m h cmd d, left-back c m h cmd d there)
  ]

  -- What leaves the map and the components alone.
  like-IsRouted :
      (m n : Multiplex)
      → (n.communication_map ≡ m.communication_map) × (n.components ≡ m.components)
      → IsRouted m
      → IsRouted n
  unfolding IsRouted
  like-IsRouted m n (maps, comps) h cmd c = rw (maps, comps) (h cmd c)

  new-IsRouted : (delegate : Option ℕ) → IsRouted (new_multiplex delegate)
  unfolding IsRouted lookup holds
  new-IsRouted delegate cmd c = (λ e. cc, λ e. cc)

  Reach-IsRouted : (m : Multiplex) → Reach m → IsRouted m
  unfolding set_communication_delegate dispatch dist_channel_change
  Reach-IsRouted m (Reach.starts delegate) = new-IsRouted delegate
  Reach-IsRouted m (Reach.sets_delegate delegate n r) =
      like-IsRouted n m (refl, refl) (Reach-IsRouted n r)
  Reach-IsRouted m (Reach.adds c n r) = add-IsRouted c n (Reach-IsRouted n r)
  Reach-IsRouted m (Reach.deletes c n r) = delete-IsRouted c n (Reach-IsRouted n r)
  Reach-IsRouted m (Reach.dispatches sender cmd malformed n r) =
      like-IsRouted n m (ground arith) (Reach-IsRouted n r)
  Reach-IsRouted m (Reach.changes host n r) = like-IsRouted n m (ground arith) (Reach-IsRouted n r)

  -- Whatever components were added and removed before: with a delegate set, a well-formed command
  -- goes to the one component that is there and answers to it, or, if there is none, `dispatch` says
  -- `NotFound` and changes nothing.
  pub Reach-dispatch :
      (m : Multiplex) (sender cmd : Bytes) (delegate : ℕ)
      → Reach m
      → m.delegate ≡ some delegate
      → ((c : ℕ) × ((b : ℕ) → answers cmd b m ≡ (c == b))
          × (dispatch sender cmd false m
              ≡ (Error.no_error, record m { handled = m.handled ++ ((c, sender, cmd) ∷ []) })))
        ⊎ (((b : ℕ) → answers cmd b m ≡ false)
            × (dispatch sender cmd false m ≡ (Error.not_found, m)))
  unfolding dispatch IsRouted
  Reach-dispatch m sender cmd delegate r set =
      let h = Reach-IsRouted m r in
      elim (Option-cases (lookup cmd m.communication_map)) [
        | inl missing ↦ inr (
          λ b. elim (Bool-cases (answers cmd b m)) [
            | inr no_answer ↦ no_answer
            | inl answer ↦ let there = (h cmd b).1 answer in absurd (cc)
          ],
          ground (arith, set, missing),
        )
        | inr (c, there) ↦ inl (
          c,
          λ b. elim (Bool-cases (answers cmd b m)) [
            | inr no_answer ↦ elim (Bool-cases (c == b)) [
              | inr other ↦ no_answer ∙ sym other
              | inl here ↦
                  let mine = (h cmd b).0 (there ∙ ap some ((==_iff c b).0 here)) in absurd (cc)
            ]
            | inl answer ↦
                let found = (h cmd b).1 answer in
                let is_c : c ≡ b = ground (arith, there, found) in
                answer ∙ sym ((==_iff c b).1 is_c)
          ],
          ground (arith, set, there),
        )
      ]
