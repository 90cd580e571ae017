-- ===== src/LevelDb/Client.antt =====
-- goleveldb and encoding/json, which are not in the repository: a parameter of the model, with what
-- db/db_leveldb relies on as the laws `IsLawful`; and common.go over them.
use contact_server.Base.{
  String, ◌≡◌, false, Option, none, some, ◌==◌, if◌then◌else◌, not, is_not_found, Result, ok, err,
  panic, Exec, pure, raise, lift, branch, ◌>>=◌, ReadOf, WriteOf, DeleteOf,
}
use contact_server.Common.{BMailAccount, EmailReflect}

-- `Bytes` is what is stored, a JSON text. `value` is what the database holds under a key: no code reads it, and the theorems speak of it.
pub record LevelDb : Type 1 where
  pub State : Type 0
  pub Bytes : Type 0
  pub value : State → String → Option (Bytes)
  pub get : String → Exec State (Bytes)
  pub put : String → Bytes → Exec State (Unit {0})
  pub delete : String → Exec State (Unit {0})
  pub unmarshal_account : Bytes → Result BMailAccount
  pub marshal_account : BMailAccount → Bytes
  pub unmarshal_reflect : Bytes → Result EmailReflect
  pub marshal_reflect : EmailReflect → Bytes

-- A text that does not decode is not a missing key.
abbrev pub Decodes : {A : Type 0} → Result A → Type 0
Decodes (ok a) = Unit
Decodes (err e) = is_not_found e ≡ false
Decodes (panic w) = ⊥

-- Every law follows one key, `k'`, through a call on `k`.
pub record IsLawful (ldb : LevelDb) : Type 0 where
  pub get_reads : (k : String) (s : ldb.State) → ReadOf (ldb.value s k) (ldb.get k s).0
  pub get_keeps :
      (k : String) (s : ldb.State) (k' : String) → ldb.value (ldb.get k s).1 k' ≡ ldb.value s k'
  pub put_writes :
      (k : String) (v : ldb.Bytes) (s : ldb.State) (k' : String)
      → let (r, s') = ldb.put k v s in
        WriteOf (ldb.value s k') (if k == k' then some v else ldb.value s k') (ldb.value s' k') r
  pub delete_drops :
      (k : String) (s : ldb.State) (k' : String)
      → let (r, s') = ldb.delete k s in
        DeleteOf (ldb.value s k') (if k == k' then none else ldb.value s k') (ldb.value s' k') r
  -- `MailStoreObj` carries the tag `json:"-"`: it is not stored.
  pub account_stored :
      (ba : BMailAccount)
      → ldb.unmarshal_account (ldb.marshal_account ba) ≡ ok (record ba { mail_store_obj = none })
  pub reflect_stored : (r : EmailReflect) → ldb.unmarshal_reflect (ldb.marshal_reflect r) ≡ ok r
  pub account_decodes : (v : ldb.Bytes) → Decodes (ldb.unmarshal_account v)
  pub reflect_decodes : (v : ldb.Bytes) → Decodes (ldb.unmarshal_reflect v)

module _ (ldb : LevelDb) where
  open ldb use {
    State, get, put, delete, unmarshal_account, marshal_account, unmarshal_reflect, marshal_reflect,
  }

  -- `ReadStruct` and `WriteStruct` at the two types that are stored; neither encoder can fail.
  unfoldable pub read_account : String → Exec State BMailAccount
  read_account key = do v ← get key; lift (unmarshal_account v)

  unfoldable pub write_account : String → BMailAccount → Exec State (Unit {0})
  write_account key account = put key (marshal_account account)

  unfoldable pub read_reflect : String → Exec State EmailReflect
  read_reflect key = do v ← get key; lift (unmarshal_reflect v)

  unfoldable pub write_reflect : String → EmailReflect → Exec State (Unit {0})
  write_reflect key obj = put key (marshal_reflect obj)

  -- `Delete`
  unfoldable pub delete_key : String → Exec State (Unit {0})
  delete_key key =
      branch (delete key) (λ _. pure tt) (λ e. if not (is_not_found e) then raise e else pure tt)
