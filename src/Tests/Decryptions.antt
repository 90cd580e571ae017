-- ===== src/Tests/Decryptions.antt =====
-- `DecryptByAdmin` at a concrete request, over the Firestore, the Redis and the LevelDB in memory.
use contact_server.Base.{ℕ, ◌≡◌, ◌≢◌, refl, ok, some, List, [], ◌∷◌, ◌++◌, arith, strip_prefix}
use contact_server.Proto.{BmRsp, DecryptRequest}
use contact_server.Common.{BMailAccount}
use contact_server.Wallet.Address.{decode_pub_key}
use contact_server.Wallet.Hex.{hex_decode, hex_decode_bytes}
use contact_server.Wallet.Curve.{fit, clamp, ed2_curve_pri_key, ed2_curve_pub_key}
use contact_server.Wallet.Admin.{
  is_match, key_from_peer_addr, encrypt_data, decrypt_data, decrypt_admin_aes_key,
}
use contact_server.Service.World.{Process}
use contact_server.Service.Actions.{decrypt_by_admin, success_rsp}
use contact_server.Service.Stores.{firestore_database, level_db_database, redis_database}
use contact_server.Service.Stores.Decryption.{
  IsGranted, decrypt_by_admin-IsGranted, decrypt_by_admin_refused,
}
use contact_server.Tests.Memory.{memory}
use contact_server.Tests.Bindings.{start, firestore_runs}
use contact_server.Tests.RedisMemory.{redis_memory}
use contact_server.Tests.Hashes.{start_hashes}
use contact_server.Tests.Levels.{level_memory, start_level}
use contact_server.Tests.Requests.{a_request, codec, boxes, process, world, key_bytes}

abbrev a_decrypt : DecryptRequest
a_decrypt = record { sender = "BM2"; admin_key = "07"; mail_receiver = ""; nonce = "00" }

-- The server's wallet is open, and every mail is for "a@x".
abbrev serving : Process
serving = record process {
  codec = record codec { unmarshal_decrypt = λ b. ok a_decrypt };
  boxes = record boxes { unmarshal_strings = λ b. ok ("a@x" ∷ []) };
  admin = record process.admin {
    key = some (record {
      pri_raw = key_bytes;
      address = record { bmail_address = "BM0"; eth_address = "" };
      pri_key = key_bytes ++ key_bytes;
    });
  };
}

abbrev reply : BmRsp
reply = success_rsp (7 ∷ [])

decrypt_by_admin-IsGranted_example :
    (req : DecryptRequest) × (account : BMailAccount) × (key : List ℕ)
    × (serving.codec.unmarshal_decrypt [] ≡ ok req)
    × (((firestore_database memory).query_account "BM1" start).0 ≡ ok account)
    × (reply ≡ success_rsp key)
    × IsGranted (firestore_database memory) serving a_request world req account key
unfolding firestore_runs decrypt_by_admin decrypt_admin_aes_key hex_decode hex_decode_bytes is_match
    key_from_peer_addr decode_pub_key strip_prefix ed2_curve_pri_key ed2_curve_pub_key clamp fit
    encrypt_data decrypt_data
decrypt_by_admin-IsGranted_example =
    decrypt_by_admin-IsGranted (firestore_database memory) serving a_request world reply refl

decrypt_by_admin_refused_example :
    ((decrypt_by_admin
        (redis_database redis_memory)
        serving
        a_request
        (record { db = start_hashes; now = 200; drawn = 0; spawned = [] })).0
      ≢ ok reply)
    × ((decrypt_by_admin
          (level_db_database level_memory)
          serving
          a_request
          (record { db = start_level; now = 200; drawn = 0; spawned = [] })).0
        ≢ ok reply)
decrypt_by_admin_refused_example =
    decrypt_by_admin_refused redis_memory level_memory (λ v. ground arith) serving a_request
      (record { db = start_hashes; now = 200; drawn = 0; spawned = [] })
      (record { db = start_level; now = 200; drawn = 0; spawned = [] }) reply
