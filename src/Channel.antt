-- ===== src/Channel.antt =====
-- libschnee/schnee/net/Channel.h: what a reader of a channel relies on. The size argument of `read`
-- is a signed `long`, of which a negative value asks for all that is there.
use schneeflocke.Base.{ℕ, ◌≤◌, ◌<◌, ◌≡◌, [], ◌++◌, Option, none, some, length, Bytes}

pub data MaxSize : Type 0 where
  unlimited : MaxSize
  at_most : ℕ → MaxSize

-- What a `ByteArrayPtr` holds; a null pointer holds nothing.
abbrev pub bytes_of : Option Bytes → Bytes
bytes_of none = []
bytes_of (some b) = b

-- An implementation of `Channel`: its state, the bytes that have arrived and were not read, and
-- `read`, which hands out the oldest of them, at most as many as asked for, and some if there are
-- any.
pub record Channel : Type 1 where
  pub State : Type 0
  pub pending : State → Bytes
  pub read : State → MaxSize → Option Bytes × State
  pub read_splits :
      (s : State) (n : ℕ)
      → pending s
        ≡ bytes_of (read s (MaxSize.at_most n)).0 ++ pending (read s (MaxSize.at_most n)).1
  pub read_bound : (s : State) (n : ℕ) → length (bytes_of (read s (MaxSize.at_most n)).0) ≤ n
  pub read_progress :
      (s : State) (n : ℕ) → 0 < n → bytes_of (read s (MaxSize.at_most n)).0 ≡ [] → pending s ≡ []
