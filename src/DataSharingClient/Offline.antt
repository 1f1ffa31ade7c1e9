-- ===== src/DataSharingClient/Offline.antt =====
-- A host whose channel is gone.
use schneeflocke.Base.{
  ℕ, suc, ◌<◌, ◌==◌, ◌≡◌, refl, inl, inr, Bool-cases, false, Option, Option-cases, none, some, List,
  [], ◌∷◌, ◌++◌, if◌then◌else◌, Bytes, same, same_refl, same_iff, lookup, insert, lookup-insert,
  All, arith,
}
use schneeflocke.Base.Int.{ℤ, pos, ltb_ℤ}
use schneeflocke.Error.{Error}
use schneeflocke.DataSharingClient.{Op, Subscription, Client, host_key}
use schneeflocke.DataSharingClient.Channels.{
  cancelled, not_cancelled, broken, without_host, on_channel_change,
}

not_cancelled-All :
    (key : ℕ) (os : List Op) → All (λ o. (o.key == key) ≡ false) (not_cancelled key os)
unfolding not_cancelled
not_cancelled-All key [] = tt
not_cancelled-All key (o ∷ os) = elim (Bool-cases (o.key == key)) [
  | inl gone ↦ rw (gone, not_cancelled) (not_cancelled-All key os)
  | inr stays ↦ rw (stays, not_cancelled) (stays, not_cancelled-All key os)
]

without_host-All :
    (host : Bytes) (is : List Subscription)
    → All (λ i. same i.host host ≡ false) (without_host host is)
unfolding without_host
without_host-All host [] = tt
without_host-All host (i ∷ is) = elim (Bool-cases (same i.host host)) [
  | inl gone ↦ rw (gone, without_host) (without_host-All host is)
  | inr stays ↦ rw (stays, without_host) (stays, without_host-All host is)
]

-- The key of a host is stored.
host_key-lookup :
    (host : Bytes) (s : Client)
    → (lookup host (host_key host s).1.host_keys ≡ some (host_key host s).0)
      × ((host_key host s).1.ops ≡ s.ops)
      × ((host_key host s).1.subscriptions ≡ s.subscriptions)
      × ((host_key host s).1.called ≡ s.called)
unfolding host_key
host_key-lookup host s = elim (Option-cases (lookup host s.host_keys)) [
  | inl new ↦ (
    ground (arith, new, lookup-insert host host s.next_host_key s.host_keys, same_refl host),
    ground (arith, new),
    ground (arith, new),
    ground (arith, new),
  )
  | inr (k, known) ↦
      (ground (arith, known), ground (arith, known), ground (arith, known), ground (arith, known))
]

-- When the channel to a host is gone, no operation with its key and no subscription at it is left,
-- and the calls made are those that tell every such subscription's delegate and every such
-- operation's callback.
on_channel_change-All :
    (level : ℤ) (host : Bytes) (s : Client)
    → ltb_ℤ (pos 0) level ≡ false
    → (k : ℕ) × (lookup host (on_channel_change level host s).host_keys ≡ some k)
      × All (λ o. (o.key == k) ≡ false) (on_channel_change level host s).ops
      × All (λ i. same i.host host ≡ false) (on_channel_change level host s).subscriptions
      × ((on_channel_change level host s).called
          ≡ s.called ++ (broken host s.subscriptions ++ cancelled k Error.target_offline s.ops))
unfolding on_channel_change
on_channel_change-All level host s off =
    let (key, ops, subscriptions, called) = host_key-lookup host s in
    (
      (host_key host s).0,
      rw off key,
      rw off (not_cancelled-All (host_key host s).0 (host_key host s).1.ops),
      rw off (without_host-All host (host_key host s).1.subscriptions),
      rw (off, ops, subscriptions, called) refl,
    )

-- Different hosts have different keys, and the next key is above all.
pub record IsKeyed (s : Client) : Type 0 where
  pub below : (h : Bytes) (k : ℕ) → lookup h s.host_keys ≡ some k → k < s.next_host_key
  pub differ :
      (g h : Bytes) (k : ℕ) → lookup g s.host_keys ≡ some k → lookup h s.host_keys ≡ some k → g ≡ h

insert-IsKeyed :
    (host : Bytes) (s : Client)
    → IsKeyed s
    → lookup host s.host_keys ≡ none
    → IsKeyed (record s {
      host_keys = insert host s.next_host_key s.host_keys;
      next_host_key = suc s.next_host_key;
    })
insert-IsKeyed host s inv new =
    let at : (h : Bytes)
        → Path (Option ℕ) (lookup h (insert host s.next_host_key s.host_keys))
            (if same host h then some s.next_host_key else lookup h s.host_keys) =
      λ h. lookup-insert host h s.next_host_key s.host_keys in
    record {
      below = λ h k e. ground (arith, e, at h, inv.below h k);
      differ = λ g h k e f. ground (
        arith,
        e,
        f,
        at g,
        at h,
        inv.below g k,
        inv.below h k,
        inv.differ g h k,
        same_iff host g,
        same_iff host h,
      );
    }

-- Giving a host its key keeps the keys of different hosts different.
pub host_key-IsKeyed : (host : Bytes) (s : Client) → IsKeyed s → IsKeyed (host_key host s).1
unfolding host_key
host_key-IsKeyed host s inv = elim (Option-cases (lookup host s.host_keys)) [
  | inl new ↦ rw (new, host_key) (insert-IsKeyed host s inv new)
  | inr (k, known) ↦ rw (known, host_key) inv
]
