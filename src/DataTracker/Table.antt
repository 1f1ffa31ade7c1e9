-- ===== src/DataTracker/Table.antt =====
-- The table of tracked URIs, over any history of calls and callbacks.
use schneeflocke.Base.{
  ℕ, ℕ_discrete, ◌≡◌, ◌≢◌, refl, subst, sym, ◌∙◌, ◌⊎◌, inl, inr, Bool-cases, Option-cases, none,
  some, [], ◌∷◌, ◌++◌, arith, Bytes, same, same_iff, lookup, insert, erase, lookup-insert,
  lookup-erase, length, get_elem?, modify, get_elem?-modify_self, get_elem?-modify_ne,
  get_elem?-append_end, get_elem?-append_left, if◌then◌else◌,
}
use schneeflocke.Error.{Error, is_error}
use schneeflocke.DataTracker.{
  DataTracker, TrackInfo, TrackState, Callback, subscribe_reply, request_reply, notify, apply,
  ClientCall, track, untrack, called_back, new_info, mark_deleted,
}
use schneeflocke.DataTracker.Callbacks.{apply-told}

-- A call of the owner, or a callback with any pointer.
pub data Step (t : DataTracker) : DataTracker → Type 0 where
  tracks : (uri : Bytes) (e : Error) → Step t (track uri e t).1
  untracks : (uri : Bytes) → Step t (untrack uri t).1
  calls : (c : Callback) (p : ℕ) → Step t (called_back c p t)

abbrev pub empty : DataTracker
empty = record { infos = []; tracked = []; called = [] }

pub data Reach : DataTracker → Type 0 where
  fresh : Reach empty
  next : {t t' : DataTracker} → Reach t → Step t t' → Reach t'

-- What the table holds for `uri` at `p`.
pub record Entry (t : DataTracker) (uri : Bytes) (p : ℕ) : Type 0 where
  pub info : TrackInfo
  pub found : get_elem? t.infos p ≡ some info
  pub uri_is : info.uri ≡ uri
  pub alive : (info.state ≢ TrackState.to_delete) × (info.state ≢ TrackState.none_yet)

abbrev pub IsLive : DataTracker → Type 0
IsLive t = (uri : Bytes) (p : ℕ) → lookup uri t.tracked ≡ some p → Entry t uri p

apply-alive :
    (c : Callback) (i : TrackInfo)
    → (i.state ≢ TrackState.to_delete) × (i.state ≢ TrackState.none_yet)
    → ((apply c i).0.state ≢ TrackState.to_delete) × ((apply c i).0.state ≢ TrackState.none_yet)
unfolding apply
apply-alive (subscribe_reply e f) i h = ground arith
apply-alive (request_reply e r b) i h = ground arith
apply-alive (notify m r e) i h = ground arith

calls-IsLive : (c : Callback) (p : ℕ) (t : DataTracker) → IsLive t → IsLive (called_back c p t)
unfolding called_back
calls-IsLive c p t v uri q h =
    let e = v uri q h in
    elim (ℕ_discrete p q) [
      | yes same ↦ record {
        info = (apply c e.info).0;
        found = rw same (get_elem?-modify_self (λ i. (apply c i).0) q t.infos e.found);
        uri_is = (apply-told c e.info).1 ∙ e.uri_is;
        alive = apply-alive c e.info e.alive;
      }
      | no other ↦ record {
        info = e.info;
        found = get_elem?-modify_ne _ p q t.infos other ∙ e.found;
        uri_is = e.uri_is;
        alive = e.alive;
      }
    ]

new_Entry :
    (uri : Bytes) (t : DataTracker) → Entry (track uri Error.no_error t).1 uri (length t.infos)
unfolding track new_info
new_Entry uri t = record {
  info = new_info uri;
  found = get_elem?-append_end t.infos (new_info uri);
  uri_is = refl;
  alive = ((λ e. cc), λ e. cc);
}

tracked-IsLive :
    (uri : Bytes) (t : DataTracker) (k : Bytes) (p : ℕ)
    → IsLive t
    → lookup k (insert uri (length t.infos) t.tracked) ≡ some p
    → Entry (track uri Error.no_error t).1 k p
unfolding track
tracked-IsLive uri t k p v h = elim (Bool-cases (same uri k)) [
  | inl e ↦
      let key : uri ≡ k = (same_iff uri k).0 e in
      let at : some (length t.infos) ≡ some p =
        sym (rw (lookup-insert uri k (length t.infos) t.tracked) (rw e)) ∙ h in
      subst (λ (n : ℕ). Entry (track uri Error.no_error t).1 k n) (cc)
        (subst (λ (x : Bytes). Entry (track uri Error.no_error t).1 x (length t.infos)) key
          (new_Entry uri t))
  | inr e ↦
      let old : lookup k t.tracked ≡ some p =
        sym (rw (lookup-insert uri k (length t.infos) t.tracked) (rw e)) ∙ h in
      let x = v k p old in
      record {
        info = x.info;
        found = get_elem?-append_left t.infos _ p x.found;
        uri_is = x.uri_is;
        alive = x.alive;
      }
]

asked_Entry :
    (uri : Bytes) (t : DataTracker) (k : Bytes) (p : ℕ)
    → Entry t k p
    → Entry (record t { called = t.called ++ (ClientCall.subscribe_call uri ∷ []) }) k p
asked_Entry uri t k p x = record {
  info = x.info;
  found = x.found;
  uri_is = x.uri_is;
  alive = x.alive;
}

track-IsLive : (uri : Bytes) (e : Error) (t : DataTracker) → IsLive t → IsLive (track uri e t).1
unfolding track
track-IsLive uri e t v = elim (Bool-cases (is_error e)) [
  | inl bad ↦ rw bad (λ k p h. asked_Entry uri t k p (v k p h))
  | inr good ↦ rw good (λ k p h. tracked-IsLive uri t k p v h)
]

abbrev untracked : Bytes → ℕ → DataTracker → DataTracker
untracked uri p t = record {
  infos = modify mark_deleted p t.infos;
  tracked = erase uri t.tracked;
  called = t.called ++ (ClientCall.cancel_call uri ∷ []);
}

untracked-IsLive :
    (uri : Bytes) (p : ℕ) (t : DataTracker) (k : Bytes) (q : ℕ)
    → IsLive t
    → lookup uri t.tracked ≡ some p
    → lookup k (erase uri t.tracked) ≡ some q
    → Entry (untracked uri p t) k q
untracked-IsLive uri p t k q v here h = elim (Bool-cases (same uri k)) [
  | inl e ↦ let gone : none ≡ some q = sym (rw (lookup-erase uri k t.tracked) (rw e)) ∙ h in cc
  | inr e ↦
      let old : lookup k t.tracked ≡ some q = sym (rw (lookup-erase uri k t.tracked) (rw e)) ∙ h in
      let x = v uri p here in
      let y = v k q old in
      let apart : p ≢ q =
        λ same_place. cc (e, (same_iff uri k).1 (cc (x.found, y.found, x.uri_is, y.uri_is))) in
      record {
        info = y.info;
        found = get_elem?-modify_ne mark_deleted p q t.infos apart ∙ y.found;
        uri_is = y.uri_is;
        alive = y.alive;
      }
]

untrack-IsLive : (uri : Bytes) (t : DataTracker) → IsLive t → IsLive (untrack uri t).1
unfolding untrack
untrack-IsLive uri t v = elim (Option-cases (lookup uri t.tracked)) [
  | inl e ↦ rw (e, untrack) v
  | inr (p, e) ↦ rw (e, untrack) (λ k q h. untracked-IsLive uri p t k q v e h)
]

Step-IsLive : {t t' : DataTracker} → Step t t' → IsLive t → IsLive t'
Step-IsLive {t} (tracks uri e) v = track-IsLive uri e t v
Step-IsLive {t} (untracks uri) v = untrack-IsLive uri t v
Step-IsLive {t} (calls c p) v = calls-IsLive c p t v

-- After any history of calls and callbacks, each tracked URI has an info of its own, made for that
-- URI, that was neither deleted nor left uninitialised.
pub Reach-IsLive : {t : DataTracker} → Reach t → IsLive t
unfolding lookup
Reach-IsLive fresh = λ uri p h. cc
Reach-IsLive (next r s) = Step-IsLive s (Reach-IsLive r)

-- `untrack` succeeds exactly for a tracked URI; then the URI is gone from the table, its
-- subscription is cancelled, its info is marked as deleted for the callbacks that still hold it, and every other URI keeps its entry.
pub untrack_lem :
    (uri : Bytes) (t : DataTracker)
    → Reach t
    → ((lookup uri t.tracked ≡ none) × (untrack uri t ≡ (Error.not_found, t)))
      ⊎ ((p : ℕ) × (i : TrackInfo) × (lookup uri t.tracked ≡ some p)
          × (get_elem? (untrack uri t).1.infos p ≡ some i)
          × (i.state ≡ TrackState.to_delete)
          × ((untrack uri t).0 ≡ Error.no_error)
          × ((untrack uri t).1.called ≡ t.called ++ (ClientCall.cancel_call uri ∷ []))
          × ((k : Bytes)
              → lookup k (untrack uri t).1.tracked
                ≡ (if same uri k then none else lookup k t.tracked)))
unfolding untrack mark_deleted
untrack_lem uri t r = elim (Option-cases (lookup uri t.tracked)) [
  | inl e ↦ inl (e, rw (e, untrack))
  | inr (p, e) ↦
      let x = Reach-IsLive r uri p e in
      inr (
        p,
        mark_deleted x.info,
        e,
        rw (e, untrack) (get_elem?-modify_self mark_deleted p t.infos x.found),
        refl,
        rw (e, untrack),
        rw (e, untrack),
        λ k. rw (e, untrack) (lookup-erase uri k t.tracked),
      )
]
