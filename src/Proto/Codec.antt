-- ===== src/Proto/Codec.antt =====
-- The code that protobuf generates from pb/kv_op.proto, as a parameter.
use jkv.Base.{◌≡◌, Option, some, [], Bytes}
use jkv.Proto.{KvReq, empty_req}

pub record Codec : Type 0 where
  -- `req.SerializeToString(&s)`, `none` when it returns false
  pub serialize : KvReq → Option Bytes
  -- `req.ParseFromString(s)`
  pub parse : Bytes → Option KvReq
  -- a serialized message parses to itself
  pub parse-serialize : (r : KvReq) (s : Bytes) → serialize r ≡ some s → parse s ≡ some r
  -- proto3: the empty string is the message with every field at its default
  pub parse-empty : parse [] ≡ some empty_req
