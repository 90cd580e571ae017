-- ===== src/LevelDb/Steps.antt =====
-- The inner calls of `UpdateBinding` and `DeleteBinding`, by what the values say before and after.
use contact_server.Base.{
  String, ◌≡◌, some, ◌==◌, if◌then◌else◌, Result, ok, IfOk, ReadOf, arith, Option-cases, inl, inr,
}
use contact_server.Common.{BMailAccount}
use contact_server.LevelDb.Keys.{
  account_key, email_key, account_key_eq, email_key_eq, account_email_key, email_account_key,
}
use contact_server.LevelDb.Client.{
  LevelDb, IsLawful, read_account, write_account, read_reflect, write_reflect,
}
use contact_server.LevelDb.Locks.{Manager, with_lock}
use contact_server.LevelDb.Reflect.{update_email_reflect_only}
use contact_server.LevelDb.View.{account_at, owner, stored}

module _ (ldb : LevelDb) (L : IsLawful ldb) where
  -- A read returns what the values say, and says `NotFound` only of what is missing.
  pub account_read :
      (a : String) (s : ldb.State)
      → ReadOf (account_at ldb s a) (read_account ldb (account_key a) s).0
  unfolding read_account
  account_read a s = elim (Option-cases (ldb.value s (account_key a))) [
    | inl missing ↦ ground (arith, missing, L.get_reads (account_key a) s)
    | inr (v, held) ↦ ground (arith, held, L.get_reads (account_key a) s, L.account_decodes v)
  ]

  pub account_read_keeps :
      (k : String) (s : ldb.State) (k' : String)
      → ldb.value (read_account ldb k s).1 k' ≡ ldb.value s k'
  unfolding read_account
  account_read_keeps k s k' = ground (arith, L.get_keeps k s k')

  pub account_written :
      (a : String) (ba : BMailAccount) (s : ldb.State) (b : String)
      → (write_account ldb (account_key a) ba s).0 ≡ ok tt
      → account_at ldb (write_account ldb (account_key a) ba s).1 b
        ≡ (if a == b then some (stored ba) else account_at ldb s b)
  unfolding write_account
  account_written a ba s b h = ground (
    arith,
    L.account_stored ba,
    L.put_writes (account_key a) (ldb.marshal_account ba) s (account_key b),
    account_key_eq a b,
  )

  pub account_written_owner :
      (a : String) (ba : BMailAccount) (s : ldb.State) (e : String)
      → owner ldb (write_account ldb (account_key a) ba s).1 e ≡ owner ldb s e
  unfolding write_account
  account_written_owner a ba s e = ground (
    arith,
    L.put_writes (account_key a) (ldb.marshal_account ba) s (email_key e),
    account_email_key a e,
  )

module _ (ldb : LevelDb) (L : IsLawful ldb) (account email : String) (dm : Manager ldb.State) where
  abbrev reflected : Result String × Manager ldb.State
  reflected = update_email_reflect_only ldb account email dm

  pub reflected_owner :
      (e : String)
      → IfOk reflected.0 (λ old.
        (owner ldb reflected.1.level_db e
          ≡ (if email == e then account else owner ldb dm.level_db e))
        × (old
            ≡ (if owner ldb dm.level_db email == account then "" else owner ldb dm.level_db email)))
  unfolding update_email_reflect_only with_lock read_reflect write_reflect
  reflected_owner e = ground (
    arith,
    L.get_reads (email_key email) dm.level_db,
    L.get_keeps (email_key email) dm.level_db (email_key e),
    L.get_keeps (email_key email) dm.level_db (email_key email),
    L.reflect_stored (record { b_mail_address = account }),
    L.put_writes (email_key email) (ldb.marshal_reflect (record { b_mail_address = account }))
        (ldb.get (email_key email) dm.level_db).1 (email_key e),
    L.reflect_decodes,
    email_key_eq email e,
  )

  pub reflected_accounts :
      (a : String) → account_at ldb reflected.1.level_db a ≡ account_at ldb dm.level_db a
  unfolding update_email_reflect_only with_lock read_reflect write_reflect
  reflected_accounts a = ground (
    arith,
    L.get_keeps (email_key email) dm.level_db (account_key a),
    L.put_writes (email_key email) (ldb.marshal_reflect (record { b_mail_address = account }))
        (ldb.get (email_key email) dm.level_db).1 (account_key a),
    email_account_key email a,
  )
