-- ===== src/Elements.antt =====
-- libschnee/schnee/p2p/DataSharingElements.h: the commands that data sharing servers and clients exchange.
-- A description of data is represented by its `user` field, the one that the code computes with.
use schneeflocke.Base.{ℕ, Bool, Bytes}
use schneeflocke.Base.Int.{ℤ}
use schneeflocke.Error.{Error}
use schneeflocke.Range.{Range}

-- The mark of a `RequestReply`.
pub data Mark : Type 0 where
  no_mark transmission_start transmission transmission_finish transmission_cancel : Mark

pub record RequestReply : Type 0 where
  pub path : Bytes
  pub err : Error
  pub id : ℕ
  pub user : Bytes
  pub revision : ℤ
  pub range : Range
  pub mark : Mark

pub data RequestMark : Type 0 where
  no_mark transmission transmission_cancel : RequestMark

pub record Request : Type 0 where
  pub id : ℕ
  pub path : Bytes
  pub user : Bytes
  pub revision : ℤ
  pub range : Range
  pub mark : RequestMark

pub data NotifyMark : Type 0 where
  no_mark subscription_cancel : NotifyMark

pub record Notify : Type 0 where
  pub path : Bytes
  pub revision : ℤ
  pub size : ℤ
  pub mark : NotifyMark

-- Its mark is one bit: whether it cancels.
pub record Subscribe : Type 0 where
  pub id : ℕ
  pub path : Bytes
  pub cancels : Bool

pub record SubscribeReply : Type 0 where
  pub path : Bytes
  pub err : Error
  pub id : ℕ
  pub user : Bytes

pub record Push : Type 0 where
  pub id : ℕ
  pub path : Bytes

pub record PushReply : Type 0 where
  pub path : Bytes
  pub err : Error
  pub id : ℕ
