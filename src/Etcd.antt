-- ===== src/Etcd.antt =====
-- The messages of etcd's gRPC interface, with the fields that the library reads and sets. The
-- server is not part of the program: what it answers is an argument of the code that asks.
use gee_h.Prelude.{ℕ, ℤ, Bool, List}

pub record KeyValue : Type 0 where
  pub key : List ℕ
  pub value : List ℕ
  pub create_revision : ℕ

pub data SortOrder : Type 0 where
  none_order ascend descend : SortOrder

pub data SortTarget : Type 0 where
  by_key by_version by_create by_mod by_value : SortTarget

pub record RangeRequest : Type 0 where
  pub key : List ℕ
  pub range_end : List ℕ
  pub max_create_revision : ℤ
  pub sort_order : SortOrder
  pub sort_target : SortTarget
  pub limit : ℕ

pub record RangeResponse : Type 0 where
  pub revision : ℕ
  pub kvs : List KeyValue

pub data RequestOp : Type 0 where
  not_set : RequestOp
  range_op delete_range_op : List ℕ → RequestOp

-- A transaction with one comparison, that a key's creation revision is EQUAL to a number, one put
-- on success, and at most one operation on failure.
pub record TxnRequest : Type 0 where
  pub compare_key : List ℕ
  pub compare_create_revision : ℕ
  pub put_key : List ℕ
  pub put_value : List ℕ
  pub put_lease : ℕ
  pub failure : RequestOp

-- Each entry of `responses` is the `kvs` of its range response.
pub record TxnResponse : Type 0 where
  pub revision : ℕ
  pub succeeded : Bool
  pub responses : List (List KeyValue)

pub data EventType : Type 0 where
  put delete other : EventType

pub record Event : Type 0 where
  pub type : EventType
  pub kv : KeyValue
  pub prev_kv : KeyValue

pub record WatchCreate : Type 0 where
  pub key : List ℕ
  pub range_end : List ℕ
  pub start_revision : ℕ
  pub prev_kv : Bool
  pub progress_notify : Bool

pub data WatchRequest : Type 0 where
  create_request : WatchCreate → WatchRequest
  cancel_request : ℕ → WatchRequest

pub record WatchResponse : Type 0 where
  pub watch_id : ℕ
  pub created : Bool
  pub canceled : Bool
  pub compact_revision : ℕ
  pub events : List Event

-- The time to live is in seconds.
pub record LeaseGrantRequest : Type 0 where
  pub id : ℕ
  pub ttl : ℕ

pub record LeaseGrantResponse : Type 0 where
  pub id : ℕ
  pub ttl : ℕ
  pub error : List ℕ
