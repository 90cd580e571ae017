-- ===== src/LevelDb/Unbinding.antt =====
-- What `DeleteBinding` of db/db_leveldb does to the values on success.
use contact_server.Base.{
  String, ◌≡◌, true, false, ◌&&◌, ◌∷◌, ◌==◌, if◌then◌else◌, Result, ok, arith, Result-cases, inl,
  inr, is_some,
}
use contact_server.Common.{BMailAccount}
use contact_server.LevelDb.Keys.{account_key, email_key, email_key_eq, email_account_key}
use contact_server.LevelDb.Client.{LevelDb, IsLawful, read_account, delete_key}
use contact_server.LevelDb.Locks.{Manager, with_lock}
use contact_server.LevelDb.Reflect.{delete_email_reflect}
use contact_server.LevelDb.Account.{delete_binding}
use contact_server.LevelDb.View.{account_at, owner, lists, has-remove}
use contact_server.LevelDb.Steps.{
  account_read, account_read_keeps, account_written, account_written_owner,
}
use contact_server.LevelDb.Binding.{without}

module _ (ldb : LevelDb) (L : IsLawful ldb) (email : String) (dm : Manager ldb.State) where
  abbrev dropped : Result (Unit {0}) × Manager ldb.State
  dropped = delete_email_reflect ldb email dm

  dropped_owner :
      (e : String)
      → dropped.0 ≡ ok tt
      → owner ldb dropped.1.level_db e ≡ (if email == e then "" else owner ldb dm.level_db e)
  unfolding delete_email_reflect with_lock delete_key
  dropped_owner e h =
      ground
        (arith, L.delete_drops (email_key email) dm.level_db (email_key e), email_key_eq email e)

  dropped_accounts :
      (a : String) → account_at ldb dropped.1.level_db a ≡ account_at ldb dm.level_db a
  unfolding delete_email_reflect with_lock delete_key
  dropped_accounts a = ground (
    arith,
    L.delete_drops (email_key email) dm.level_db (account_key a),
    email_account_key email a,
  )

module _ (ldb : LevelDb) (L : IsLawful ldb) (address email : String) (dm : Manager ldb.State) where
  abbrev after : Result (Unit {0}) × Manager ldb.State
  after = delete_binding ldb address email dm

  abbrev read_first : Result BMailAccount × ldb.State
  read_first = read_account ldb (account_key address) dm.level_db

  abbrev at1 : Manager ldb.State
  at1 = record { level_db = read_first.1; held = account_key address ∷ dm.held }

  abbrev at2 : Manager ldb.State
  at2 = (delete_email_reflect ldb email at1).1

  -- With a lawful LevelDB, after a `DeleteBinding` that returns no error the account exists, the
  -- email is bound to no address, whatever its address was, every other email keeps its address,
  -- the account lists the email no more, and nothing else that is listed changes.
  pub delete_binding_level :
      (a e : String)
      → after.0 ≡ ok tt
      → (is_some (account_at ldb dm.level_db address) ≡ true)
        × (owner ldb after.1.level_db e ≡ (if email == e then "" else owner ldb dm.level_db e))
        × (lists ldb after.1.level_db a e
            ≡ (if address == a && email == e then false else lists ldb dm.level_db a e))
  unfolding delete_binding with_lock
  delete_binding_level a e h = elim (Result-cases read_first.0) [
    | inl (ba, returned) ↦ ground (
      arith,
      returned,
      account_read ldb L address dm.level_db,
      account_read_keeps ldb L (account_key address) dm.level_db (account_key a),
      account_read_keeps ldb L (account_key address) dm.level_db (email_key e),
      dropped_owner ldb L email at1 e,
      dropped_accounts ldb L email at1 a,
      account_written ldb L address (without email ba) at2.level_db a,
      account_written_owner ldb L address (without email ba) at2.level_db e,
      has-remove ba.e_mail_address email e,
    )
    | inr bad ↦ ground (arith, bad)
  ]
