-- ===== src/FileTransfer/Lifecycle.antt =====
-- What holds of a transfer in each state, whatever replies and cancellations come in which order.
use schneeflocke.Base.{
  ℕ, ◌+◌, ◌≡◌, refl, ap, sym, ◌||◌, ◌&&◌, List, ◌⊎◌, inl, inr, Bool, true, false, none, some, arith,
  length, length-append, take_all, append-nil, ==_iff, Bool-cases, subst, eq_nil_of_length, Bytes,
  ◌++◌, [], ◌==◌, not,
}
use schneeflocke.Base.Int.{pos, eq_ℤ, eq_ℤ_iff}
use schneeflocke.Elements.{RequestReply}
use schneeflocke.Error.{Error, is_error}
use schneeflocke.FileTransfer.{
  FileTransfer, State, Disk, new_transfer, start, cancel, on_request_reply,
  handle_transmission_transferring, cleanup_if_over, cleanup, by_state, is_start, is_over,
  is_cancel, is_canceled, note_error, note_cancel, note_id, handle_request_reply, count_written,
  is_transmission, is_finish, write, handle_transmission_starting,
}

-- The open file of a running transfer holds as many bytes as are counted; a finished one has closed
-- its file, of the size that was announced.
abbrev ConsistentIn : State → FileTransfer → Type 0
ConsistentIn State.no_state t = (t.destination ≡ none) × (t.transferred ≡ 0)
ConsistentIn State.starting t = (t.destination ≡ none) × (t.transferred ≡ 0)
ConsistentIn State.transferring t =
    (w : Bytes) × (t.destination ≡ some w) × (length w ≡ t.transferred)
ConsistentIn State.finished t =
    (w : Bytes) × (t.closed_file ≡ some w) × (t.destination ≡ none) × (pos (length w) ≡ t.size)
ConsistentIn _ t = Unit {0}

abbrev pub IsConsistent : FileTransfer → Type 0
IsConsistent t = ConsistentIn t.state t

-- `start` is called once; `fwrite` writes no more than it is given.
pub data Step (t : FileTransfer) : FileTransfer → Type 0 where
  starts :
      (file_exists : Bool) (e : Error) (name : Bytes)
      → t.state ≡ State.no_state
      → Step t (start file_exists e name t).1
  cancels : (cause : Error) → Step t (cancel cause t)
  replies : (disk : Disk) (r : RequestReply) (b : Bytes) → Step t (on_request_reply disk r b t)

pub data Reach : FileTransfer → Type 0 where
  fresh : Reach new_transfer
  next : {t t' : FileTransfer} → Reach t → Step t t' → Reach t'

cancels-IsConsistent :
    (st : State) (t : FileTransfer) (cause : Error)
    → t.state ≡ st
    → ConsistentIn st t
    → IsConsistent (cancel cause t)
unfolding cancel
cancels-IsConsistent State.no_state t cause e v = ground arith
cancels-IsConsistent State.starting t cause e v = ground arith
cancels-IsConsistent State.transferring t cause e v = ground arith
cancels-IsConsistent State.finished t cause e v = ground arith
cancels-IsConsistent _ t cause e v = ground arith

starts-IsConsistent :
    (t : FileTransfer) (there : Bool) (x : Error) (name : Bytes)
    → t.state ≡ State.no_state
    → IsConsistent t
    → IsConsistent (start there x name t).1
unfolding start
starts-IsConsistent t there x name e v = ground arith

-- The transfer with one more piece in its file.
abbrev pub stored : FileTransfer → Bytes → Bytes → FileTransfer
stored t w b = record t { transferred = t.transferred + length b; destination = some (w ++ b) }

-- What a piece of data does to a running transfer whose file holds `w`.
abbrev pub Pieces : RequestReply → Bytes → FileTransfer → Bytes → FileTransfer → Type 0
Pieces r b t w t' =
    (t' ≡ record t { state = State.canceled })
    ⊎ ((t'.state ≡ State.error) × (is_transmission r.mark ≡ true))
    ⊎ ((is_transmission r.mark ≡ true) × (is_finish r.mark ≡ false) × (t' ≡ stored t w b))
    ⊎ ((is_finish r.mark ≡ true)
        × (t' ≡ record (stored t w b) { state = State.finished })
        × (pos (t.transferred + length b) ≡ t.size))

count_written-Pieces :
    (r : RequestReply) (b : Bytes) (t u : FileTransfer) (w : Bytes)
    → is_transmission r.mark ≡ true
    → u ≡ record t { destination = some (w ++ b) }
    → Pieces r b t w (count_written r (length b) u)
unfolding count_written
count_written-Pieces r b t u w m e = elim (Bool-cases (is_finish r.mark)) [
  | inl last ↦ elim (Bool-cases (eq_ℤ (pos (t.transferred + length b)) t.size)) [
    | inl all ↦ inr (inr (inr (last, rw (e, last, all), (eq_ℤ_iff _ _).0 all)))
    | inr missing ↦ inr (inl (rw (e, last, missing), m))
  ]
  | inr more ↦ inr (inr (inl (m, more, rw (e, more))))
]

writes_all :
    (t : FileTransfer) (w b : Bytes)
    → t.destination ≡ some w
    → write (length b) b t ≡ record t { destination = some (w ++ b) }
unfolding write
writes_all t w b d =
    rw (d, write)
      (ap (λ (x : Bytes). record t { destination = some (w ++ x) })
        (take_all (length b) b (omega arith)))

writes_none :
    (t : FileTransfer) (w b : Bytes)
    → t.destination ≡ some w
    → length b ≡ 0
    → t ≡ record t { destination = some (w ++ b) }
writes_none t w b d l = rw (eq_nil_of_length b l, append-nil w) (ground arith)

pub transferring-Pieces :
    (disk : Disk) (r : RequestReply) (b : Bytes) (t : FileTransfer) (w : Bytes)
    → t.destination ≡ some w
    → Pieces r b t w (handle_transmission_transferring disk r b t)
unfolding handle_transmission_transferring
transferring-Pieces disk r b t w d = elim (Bool-cases (is_transmission r.mark)) [
  | inr other ↦ inl (rw other)
  | inl m ↦ elim (Bool-cases (length b == 0)) [
    | inl empty ↦
        let l : length b ≡ 0 = (==_iff _ _).0 empty in
        subst (Pieces r b t w) (rw (m, empty) (ap (λ (n : ℕ). count_written r n t) l))
          (count_written-Pieces r b t t w m (writes_none t w b d l))
    | inr full ↦ elim (Bool-cases (disk.writes == length b)) [
      | inl whole ↦
          subst (Pieces r b t w) (rw (m, full, whole))
            (count_written-Pieces r b t (write (length b) b t) w m (writes_all t w b d))
      | inr short ↦ inr (inl (rw (m, full, short), m))
    ]
  ]
]

IsOver : State → Type 0
IsOver st = (st ≡ State.canceled) ⊎ (st ≡ State.error)

of_over : (t : FileTransfer) → IsOver t.state → IsConsistent t
unfolding IsOver
of_over t (inl e) = subst (λ st. ConsistentIn st t) (sym e) tt
of_over t (inr e) = subst (λ st. ConsistentIn st t) (sym e) tt

state-cleanup : (t : FileTransfer) → (cleanup t).state ≡ t.state
unfolding cleanup
state-cleanup t = ground arith

cleanup-IsConsistent : (t : FileTransfer) → IsOver t.state → IsConsistent (cleanup t)
cleanup-IsConsistent t o = of_over (cleanup t) (subst IsOver (sym (state-cleanup t)) o)

Pieces-IsConsistent :
    (r : RequestReply) (b : Bytes) (t t' : FileTransfer) (w : Bytes)
    → t.state ≡ State.transferring
    → length w ≡ t.transferred
    → Pieces r b t w t'
    → IsConsistent (cleanup_if_over t'.state t')
unfolding cleanup_if_over IsOver
Pieces-IsConsistent r b t t' w e l (inl p) = rw p (cleanup-IsConsistent _ (inl refl))
Pieces-IsConsistent r b t t' w e l (inr (inl (p, m))) =
    subst (λ st. IsConsistent (cleanup_if_over st t')) (sym p) (cleanup-IsConsistent t' (inr p))
Pieces-IsConsistent r b t t' w e l (inr (inr (inl (m, f, p)))) =
    rw (p, e) (w ++ b, refl, omega (arith, length-append w b))
Pieces-IsConsistent r b t t' w e l (inr (inr (inr (f, p, z)))) =
    rw p (w ++ b, refl, refl, rw (length-append w b, l) z)

starting-IsConsistent :
    (disk : Disk) (r : RequestReply) (b : Bytes) (t : FileTransfer)
    → t.destination ≡ none
    → t.transferred ≡ 0
    → IsConsistent (let t' = handle_transmission_starting disk r b t in cleanup_if_over t'.state t')
unfolding handle_transmission_starting cleanup_if_over IsOver
starting-IsConsistent disk r b t d z =
    elim (Bool-cases (not (is_start r.mark) || not (eq_ℤ r.range.from (pos 0)))) [
      | inl strange ↦ rw strange (cleanup-IsConsistent _ (inl refl))
      | inr fine ↦ elim (Bool-cases disk.opens) [
        | inr shut ↦ rw (fine, shut) (cleanup-IsConsistent _ (inl refl))
        | inl opened ↦
            rw (fine, opened)
              (Pieces-IsConsistent r b _ _ [] refl (sym z) (transferring-Pieces disk r b _ [] refl))
      ]
    ]

of_state : (st : State) (t : FileTransfer) → t.state ≡ st → ConsistentIn st t → IsConsistent t
of_state st t e v = subst (λ x. ConsistentIn x t) (sym e) v

cleanup_if_over-IsConsistent :
    (st : State) (t : FileTransfer)
    → t.state ≡ st
    → ConsistentIn st t
    → IsConsistent (cleanup_if_over st t)
unfolding cleanup_if_over cleanup IsOver
cleanup_if_over-IsConsistent State.canceled t e v = cleanup-IsConsistent t (inl e)
cleanup_if_over-IsConsistent State.error t e v = cleanup-IsConsistent t (inr e)
cleanup_if_over-IsConsistent State.finished t e (w, c, d, z) =
    rw (d, cleanup) (of_state State.finished t e (w, c, d, z))
cleanup_if_over-IsConsistent State.no_state t e v = of_state State.no_state t e v
cleanup_if_over-IsConsistent State.starting t e v = of_state State.starting t e v
cleanup_if_over-IsConsistent State.transferring t e v = of_state State.transferring t e v
cleanup_if_over-IsConsistent State.transferred_listing t e v =
    of_state State.transferred_listing t e v
cleanup_if_over-IsConsistent State.pending_files t e v = of_state State.pending_files t e v

by_state-IsConsistent :
    (st : State) (disk : Disk) (r : RequestReply) (b : Bytes) (t : FileTransfer)
    → t.state ≡ st
    → ConsistentIn st t
    → IsConsistent (by_state st disk r b t)
unfolding by_state IsOver
by_state-IsConsistent State.starting disk r b t e (d, z) = starting-IsConsistent disk r b t d z
by_state-IsConsistent State.transferring disk r b t e (w, d, l) =
    Pieces-IsConsistent r b t _ w e l (transferring-Pieces disk r b t w d)
by_state-IsConsistent State.canceled disk r b t e v = of_over t (inl e)
by_state-IsConsistent _ disk r b t e v =
    subst (λ st. IsConsistent (cleanup_if_over st t)) (sym e) (cleanup_if_over-IsConsistent _ t e v)

note_error-IsOver : (r : RequestReply) (t : FileTransfer) → IsOver (note_error r t).state
unfolding note_error is_canceled IsOver
note_error-IsOver r t = ground arith

note_cancel-IsConsistent :
    (r : RequestReply) (t : FileTransfer) → IsConsistent t → IsConsistent (note_cancel r t)
unfolding note_cancel
note_cancel-IsConsistent r t v = elim (Bool-cases (is_cancel r.mark)) [
  | inl e ↦ rw e tt
  | inr e ↦ rw e v
]

-- The same fields but the id.
note_id-IsConsistent :
    (r : RequestReply) (t : FileTransfer) → IsConsistent t → IsConsistent (note_id r t)
unfolding note_id
note_id-IsConsistent r t v = elim (Bool-cases (t.id == 0)) [
  | inl e ↦ rw e (with_id r.id t.state t v)
  | inr e ↦ rw e v
]
  where
    with_id :
        (n : ℕ) (st : State) (u : FileTransfer)
        → ConsistentIn st u
        → ConsistentIn st (record u { id = n })
    with_id n State.no_state u w = w
    with_id n State.starting u w = w
    with_id n State.transferring u w = w
    with_id n State.finished u w = w
    with_id n _ u w = tt

handle-IsConsistent :
    (disk : Disk) (r : RequestReply) (b : Bytes) (t : FileTransfer)
    → IsConsistent t
    → IsConsistent (handle_request_reply disk r b t)
unfolding handle_request_reply
handle-IsConsistent disk r b t v = elim (Bool-cases (is_error r.err)) [
  | inl bad ↦ rw bad (cleanup-IsConsistent (note_error r t) (note_error-IsOver r t))
  | inr good ↦ rw good (
      by_state-IsConsistent _ disk r b (note_id r (note_cancel r t)) refl
        (note_id-IsConsistent r (note_cancel r t) (note_cancel-IsConsistent r t v)))
]

-- Neither notices nor cancellations touch what the invariant speaks of.
outer-IsConsistent :
    (st : State) (t : FileTransfer) (ids : List ℕ) (n : ℕ)
    → ConsistentIn st t
    → ConsistentIn st (record t { sent = ids; changes = n })
outer-IsConsistent State.no_state t ids n v = v
outer-IsConsistent State.starting t ids n v = v
outer-IsConsistent State.transferring t ids n v = v
outer-IsConsistent State.finished t ids n v = v
outer-IsConsistent _ t ids n v = tt

replies-IsConsistent :
    (disk : Disk) (r : RequestReply) (b : Bytes) (t : FileTransfer)
    → IsConsistent t
    → IsConsistent (on_request_reply disk r b t)
unfolding on_request_reply
replies-IsConsistent disk r b t v =
    let u = handle_request_reply disk r b t in
    elim (Bool-cases (is_over u.state && not (is_cancel r.mark))) [
      | inl e ↦ rw e (outer-IsConsistent u.state u _ _ (handle-IsConsistent disk r b t v))
      | inr e ↦ rw e (outer-IsConsistent u.state u u.sent _ (handle-IsConsistent disk r b t v))
    ]

Step-IsConsistent : {t t' : FileTransfer} → Step t t' → IsConsistent t → IsConsistent t'
Step-IsConsistent {t} (starts there x name e) v = starts-IsConsistent t there x name e v
Step-IsConsistent {t} (cancels cause) v = cancels-IsConsistent t.state t cause refl v
Step-IsConsistent {t} (replies disk r b) v = replies-IsConsistent disk r b t v

-- In every state that a transfer can come to, by any replies, cancellations and disk failures: a
-- running transfer has an open file that holds as many bytes as were counted, and a finished one has
-- closed its file, of exactly the announced size.
pub Reach-IsConsistent : {t : FileTransfer} → Reach t → IsConsistent t
unfolding new_transfer
Reach-IsConsistent fresh = (refl, refl)
Reach-IsConsistent (next r s) = Step-IsConsistent s (Reach-IsConsistent r)
