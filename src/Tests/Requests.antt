-- ===== src/Tests/Requests.antt =====
-- The theorems on the HTTP service at concrete requests, over the Firestore in memory.
use contact_server.Base.{
  ℕ, ◌≡◌, refl, ◌≢◌, ◌⊎◌, ◌↔◌, true, none, some, List, [], ◌∷◌, ◌++◌, find, keys, ok, err, plain,
  Result, arith, strip_prefix,
}
use contact_server.Common.{ActiveLinkData}
use contact_server.Proto.{Bytes, BmReq, BmRsp, BindAction, ProtoCodec}
use contact_server.Proto.Verify.{verify_proto}
use contact_server.Wallet.Address.{Crypto, decode_pub_key}
use contact_server.Wallet.Admin.{Boxes}
use contact_server.Wallet.Hex.{hex_decode}
use contact_server.Wallet.Curve.{Field}
use contact_server.Wallet.Keys.{KeyMaker}
use contact_server.Wallet.Links.{verify_activation_link}
use contact_server.Firestore.View.{owner, decode}
use contact_server.Service.Levels.{rights_of_action, check_rights_of_action}
use contact_server.Service.Levels.Rights.{Allows, rights_of_action-Allows}
use contact_server.Service.World.{Process, World}
use contact_server.Service.Actions.{bind_account, unbind_account}
use contact_server.Service.Http.{Writer, bytes, call_func, status_ok}
use contact_server.Service.Http.Signed.{call_func_authentic}
use contact_server.Service.Pages.{Page, page, active_verify}
use contact_server.Service.Stores.{firestore_database}
use contact_server.Service.Stores.Binding.{bind_account_keeps_owners, bind-unbind_account_signer}
use contact_server.Service.Stores.Limits.{WithinLimits}
use contact_server.Service.Stores.Activation.{active_verify_lem}
use contact_server.Tests.Memory.{Tables, memory, memory-IsLawful}
use contact_server.Tests.Bindings.{start, linked, firestore_runs}

abbrev pub key_bytes : List ℕ
key_bytes =
    1 ∷ 2 ∷ 3 ∷ 4 ∷ 5 ∷ 6 ∷ 7 ∷ 8 ∷ 9 ∷ 10 ∷ 11 ∷ 12 ∷ 13 ∷ 14 ∷ 15 ∷ 16 ∷ 17 ∷ 18 ∷ 19 ∷ 20 ∷ 21
    ∷ 22 ∷ 23 ∷ 24 ∷ 25 ∷ 26 ∷ 27 ∷ 28 ∷ 29 ∷ 30 ∷ 31 ∷ 32 ∷ []

-- Every signature is accepted.
abbrev pub crypto : Crypto
crypto = record { base58_decode = λ s. key_bytes; verifies = λ key message sig. true }

abbrev pub a_bind : BindAction
a_bind = record { address = "BM1"; mail = "b@x"; subject = ""; mail_body = "" }

abbrev pub a_request : BmReq
a_request = record { address = "BM1"; signature = "00"; payload = [] }

abbrev unused : {A : Type 0} → Result A
unused = err (plain "unused")

-- Every body is the request, and every payload the binding of "b@x" to BM1.
abbrev pub codec : ProtoCodec
codec = record {
  unmarshal_request = λ b. ok a_request;
  marshal_response = λ r. [];
  unmarshal_query = λ b. unused;
  unmarshal_operation = λ b. unused;
  unmarshal_bind = λ b. ok a_bind;
  unmarshal_active = λ b. unused;
  unmarshal_decrypt = λ b. unused;
  marshal_account = λ r. [];
  marshal_reflects = λ r. [];
}

abbrev pub boxes : Boxes
boxes = record {
  x25519 = λ a b. ok a;
  open_box = λ d n k. some d;
  seal_box = λ d n k. d;
  base64_decode = λ s. ok [];
  unmarshal_strings = λ b. ok [];
}

-- The field of one element.
abbrev pub field : Field
field = record {
  Fe = Unit;
  fe_one = tt;
  fe_add = λ x y. tt;
  fe_sub = λ x y. tt;
  fe_mul = λ x y. tt;
  fe_invert = λ x. tt;
  fe_to_bytes = λ x. key_bytes;
  from_bytes_y = λ b. some tt;
  sha512 = λ b. b ++ b;
}

abbrev pub key_maker : KeyMaker
key_maker = record {
  new_key = λ seed. seed ++ seed;
  base58_encode = λ b. "0";
  eth_address_of = λ seed. "";
  to_lower = λ s. s;
  sign = λ key m. 0 ∷ [];
  unmarshal_wallet = λ s. unused;
}

abbrev pub process : Process
process = record {
  codec = codec;
  crypto = crypto;
  boxes = boxes;
  field = field;
  keys = key_maker;
  admin = record {
    address = some (record { bmail_address = "BM0"; eth_address = "" });
    cipher_data = none;
    version = 1;
    key = none;
  };
  uuid = λ n. "uuid";
  sig_data = λ l. [];
}

abbrev pub world : World Tables
world = record { db = start; now = 200; drawn = 0; spawned = [] }

abbrev bound : Result BmRsp × World Tables
bound = bind_account (firestore_database memory) process a_request world

abbrev reply : Result Writer × World Tables
reply = call_func process (bind_account (firestore_database memory) process) (ok []) world

abbrev Accepted : BmReq → Type 0
Accepted r =
    (b : Bytes) × (◌≡◌ {A = Result Bytes} (ok []) (ok b))
    × (process.codec.unmarshal_request b ≡ ok r)
    × (verify_proto process.crypto r ≡ ok tt)

call_func_authentic_example :
    ((reply.1 ≡ world) × ((x : Writer) → reply.0 ≡ ok x → x.status ≢ some status_ok))
    ⊎ ((r : BmReq) × Accepted r
        × (reply.1 ≡ (bind_account (firestore_database memory) process r world).1))
call_func_authentic_example =
    call_func_authentic process (bind_account (firestore_database memory) process) (ok []) world

bind_account_keeps_owners_example : owner memory bound.1.db "a@x" ≡ owner memory start "a@x"
unfolding firestore_runs
bind_account_keeps_owners_example =
    bind_account_keeps_owners memory memory-IsLawful process a_request world "a@x" refl

pub start-WithinLimits : WithinLimits memory start
unfolding find keys
start-WithinLimits a level l lo hi = ground arith

bind-unbind_account_signer_example :
    let r' : BmReq = record a_request { address = "BM9"; signature = "11" } in
    (bind_account (firestore_database memory) process r' world ≡ bound)
    × (unbind_account (firestore_database memory) process r' world
        ≡ unbind_account (firestore_database memory) process a_request world)
bind-unbind_account_signer_example =
    bind-unbind_account_signer memory process "BM9" "11" a_request world

rights_of_action-Allows_example : (rights_of_action 1 3 ≡ ok tt) ↔ Allows 1 3
rights_of_action-Allows_example = rights_of_action-Allows 1 3

abbrev visited : Result Page × World Tables
visited = active_verify (firestore_database memory) process "t1" "00" (record world { db = linked })

active_verify_lem_example :
    (l : ActiveLinkData) × (decode memory.data_to_link (find linked.links "t1") ≡ some l)
    × (verify_activation_link crypto process.admin process.sig_data 200 l "00" ≡ ok tt)
    × (owner memory visited.1.db l.email ≡ l.address)
    × (find visited.1.db.links "t1" ≡ none)
unfolding firestore_runs active_verify verify_activation_link check_rights_of_action
    rights_of_action strip_prefix decode_pub_key hex_decode
active_verify_lem_example =
    active_verify_lem memory memory-IsLawful process "t1" "00" (record world { db = linked })
      {x = page status_ok "Action completed success!"} refl refl

abbrev served : Writer
served = record { status = some 200; content_type = "application/x-protobuf"; body = bytes [] ∷ [] }
