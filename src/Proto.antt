-- ===== src/Proto.antt =====
-- proto/bmail_srv.proto: the messages, and the codec that protoc generates from it, which is a
-- parameter. `Verify` is proto/proto_ex.go.
pub mod Verify
use contact_server.Base.{ℕ, String, Bool, List, Result, Dict}

-- A `[]byte`, as numbers below 256.
abbrev pub Bytes : Type 0
Bytes = List ℕ

pub record BmReq : Type 0 where
  pub address : String
  pub signature : String
  pub payload : Bytes

pub record BmRsp : Type 0 where
  pub success : Bool
  pub msg : String
  pub payload : Bytes

pub record QueryReq : Type 0 where
  pub address : String
  pub one_email_addr : String
  pub email_list : List String

-- `user_level` is the bit pattern of an `int32`.
pub record AccountOperation : Type 0 where
  pub is_del : Bool
  pub address : String
  pub emails : List String
  pub user_level : ℕ

pub record BindAction : Type 0 where
  pub address : String
  pub mail : String
  pub subject : String
  pub mail_body : String

pub record EMailActive : Type 0 where
  pub email : String
  pub subject : String
  pub body : String
  pub unbind : Bool

pub record DecryptRequest : Type 0 where
  pub sender : String
  pub admin_key : String
  pub mail_receiver : String
  pub nonce : String

-- `pbs.BMailAccount`; `level` is the bit pattern of an `int32`.
pub record BMailAccountReply : Type 0 where
  pub address : String
  pub level : ℕ
  pub license : String
  pub emails : List String

-- `pbs.EmailReflects`: the address of each email.
pub record EmailReflects : Type 0 where
  pub reflects : Dict String

-- `proto.Unmarshal` and `proto.Marshal` for each message.
pub record ProtoCodec : Type 0 where
  pub unmarshal_request : Bytes → Result BmReq
  pub marshal_response : BmRsp → Bytes
  pub unmarshal_query : Bytes → Result QueryReq
  pub unmarshal_operation : Bytes → Result AccountOperation
  pub unmarshal_bind : Bytes → Result BindAction
  pub unmarshal_active : Bytes → Result EMailActive
  pub unmarshal_decrypt : Bytes → Result DecryptRequest
  pub marshal_account : BMailAccountReply → Bytes
  pub marshal_reflects : EmailReflects → Bytes
