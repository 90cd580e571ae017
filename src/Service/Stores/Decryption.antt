-- ===== src/Service/Stores/Decryption.antt =====
-- `DecryptByAdmin` of service/http_srv.go: for whom the server decrypts a mail's key, and over which
-- databases it does.
use contact_server.Base.{
  String, ◌≡◌, ◌≢◌, List, none, Result, ok, IfOk, Result-cases, inl, inr, arith,
}
use contact_server.Common.{BMailAccount, or_empty}
use contact_server.Proto.{Bytes, BmReq, BmRsp, DecryptRequest}
use contact_server.Wallet.Admin.{decrypt_admin_aes_key}
use contact_server.Wallet.Admin.Matched.{IsFor, decrypt_admin_aes_key_lem}
use contact_server.LevelDb
use contact_server.LevelDb.Keys.{account_key}
use contact_server.LevelDb.Client.{LevelDb, read_account}
use contact_server.LevelDb.Locks.{Manager, with_lock}
use contact_server.Redis
use contact_server.Redis.Client.{Redis}
use contact_server.Service.Database.{Database}
use contact_server.Service.World.{Process, World}
use contact_server.Service.Actions.{decrypt_by_admin, success_rsp}
use contact_server.Service.Stores.{level_db_database, redis_database}

module _ (db : Database) (p : Process) (request : BmReq) (s : World db.State) where
  abbrev asked : Result DecryptRequest
  asked = p.codec.unmarshal_decrypt request.payload

  abbrev queried : Result BMailAccount
  queried = (db.query_account request.address s.db).0

  abbrev decrypted : DecryptRequest → BMailAccount → Result Bytes
  decrypted req account =
      decrypt_admin_aes_key p.crypto p.field p.boxes p.admin req.sender request.address req.nonce
        req.admin_key req.mail_receiver (or_empty account.mail_store_obj)

  -- Where it answers, it found what it needs.
  answered :
      (x : BmRsp)
      → (decrypt_by_admin db p request s).0 ≡ ok x
      → (req : DecryptRequest) × (account : BMailAccount) × (key : Bytes) × (asked ≡ ok req)
        × (queried ≡ ok account)
        × (decrypted req account ≡ ok key)
        × (x ≡ success_rsp key)
  unfolding decrypt_by_admin
  answered x h = elim (Result-cases asked) [
    | inl (req, a) ↦ elim (Result-cases queried) [
      | inl (account, q) ↦ elim (Result-cases (decrypted req account)) [
        | inl (key, d) ↦ (req, account, key, a, q, d, ground (arith, h, a, q, d))
        | inr bad ↦ absurd (ground (arith, h, a, q, bad))
      ]
      | inr bad ↦ absurd (ground (arith, h, a, bad))
    ]
    | inr bad ↦ absurd (ground (arith, h, bad))
  ]

  -- What `DecryptByAdmin` grants: a key of a mail to `list`, sealed for the address of the request,
  -- whose account has `e` of that list marked.
  abbrev pub IsGranted : DecryptRequest → BMailAccount → Bytes → Type 0
  IsGranted req account key =
      (e : String) × (list : List String) × (nonce : Bytes) × (aes : Bytes) × (sent : Bytes)
      × (shared : Bytes) × IsFor p.crypto p.field p.boxes p.admin req.sender request.address
          req.nonce req.admin_key req.mail_receiver (or_empty account.mail_store_obj) key e list
          nonce aes sent shared

  -- Where `DecryptByAdmin` answers, the account that the database returned for the address of the
  -- request has an email marked that is a receiver of the mail, the receivers are read with the key
  -- of the request, and the answer is that key, sealed for that address.
  pub decrypt_by_admin-IsGranted :
      (x : BmRsp)
      → (decrypt_by_admin db p request s).0 ≡ ok x
      → (req : DecryptRequest) × (account : BMailAccount) × (key : Bytes) × (asked ≡ ok req)
        × (queried ≡ ok account)
        × (x ≡ success_rsp key)
        × IsGranted req account key
  decrypt_by_admin-IsGranted x h =
      let (req, account, key, a, q, d, is) = answered x h in
      (
        req,
        account,
        key,
        a,
        q,
        is,
        decrypt_admin_aes_key_lem p.crypto p.field p.boxes p.admin req.sender request.address
            req.nonce req.admin_key req.mail_receiver (or_empty account.mail_store_obj) key d,
      )

  -- An account without a map is refused.
  no_map_refused :
      IfOk queried (λ account. account.mail_store_obj ≡ none)
      → (x : BmRsp) → (decrypt_by_admin db p request s).0 ≢ ok x
  unfolding decrypt_by_admin
  no_map_refused no_map x h =
      let (req, account, key, a, q, d, is) = answered x h in
      let bare : account.mail_store_obj ≡ none = ground (arith, no_map, q) in
      ground (arith, h, a, q, bare)

redis_no_map :
    (rdb : Redis) (address : String) (s : rdb.State)
    → IfOk (Redis.Account.query_account rdb address s).0 (λ account. account.mail_store_obj ≡ none)
unfolding Redis.Account.query_account
redis_no_map rdb address s = ground arith

level_db_no_map :
    (ldb : LevelDb)
    → ((v : ldb.Bytes) → IfOk (ldb.unmarshal_account v) (λ account. account.mail_store_obj ≡ none))
    → (address : String) (s : Manager ldb.State)
    → IfOk
        (LevelDb.Account.query_account ldb address s).0
        (λ account. account.mail_store_obj ≡ none)
unfolding LevelDb.Account.query_account with_lock read_account
level_db_no_map ldb skips address s =
    elim (Result-cases (ldb.get (account_key address) s.level_db).0) [
      | inl (v, e) ↦ ground (arith, e, skips v)
      | inr bad ↦ ground (arith, bad)
    ]

-- Over Redis, and over LevelDB with a JSON decoder that leaves out the field tagged `-`, no request to
-- `DecryptByAdmin` succeeds, for the accounts of both have no map of emails.
pub decrypt_by_admin_refused :
    (rdb : Redis) (ldb : LevelDb)
    → ((v : ldb.Bytes) → IfOk (ldb.unmarshal_account v) (λ account. account.mail_store_obj ≡ none))
    → (p : Process) (request : BmReq) (s : World rdb.State) (s' : World (Manager ldb.State))
      (x : BmRsp)
    → ((decrypt_by_admin (redis_database rdb) p request s).0 ≢ ok x)
      × ((decrypt_by_admin (level_db_database ldb) p request s').0 ≢ ok x)
decrypt_by_admin_refused rdb ldb skips p request s s' x = (
  no_map_refused (redis_database rdb) p request s (redis_no_map rdb request.address s.db) x,
  no_map_refused (level_db_database ldb) p request s'
      (level_db_no_map ldb skips request.address s'.db) x,
)
