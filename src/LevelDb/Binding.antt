-- ===== src/LevelDb/Binding.antt =====
-- What `UpdateBinding` and `DeleteBinding` of db/db_leveldb do to the values on success.
use contact_server.Base.{
  String, ◌≡◌, true, false, ◌&&◌, not, some, [], ◌∷◌, ◌++◌, ◌==◌, is_empty, if◌then◌else◌,
  has-append, Result, ok, arith, Result-cases, inl, inr,
}
use contact_server.Common.{BMailAccount}
use contact_server.LevelDb.Keys.{account_key, email_key}
use contact_server.LevelDb.Client.{LevelDb, IsLawful, read_account}
use contact_server.LevelDb.Locks.{Manager, with_lock}
use contact_server.LevelDb.Reflect.{update_email_reflect_only}
use contact_server.LevelDb.Account.{
  remove, remove_email_from_account, release_old, append_email, update_binding,
}
use contact_server.LevelDb.View.{account_at, owner, lists, has-remove, contains_lem}
use contact_server.LevelDb.Steps.{
  account_read, account_read_keeps, account_written, account_written_owner, reflected_owner,
  reflected_accounts,
}

abbrev pub without : String → BMailAccount → BMailAccount
without email ba = record ba { e_mail_address = remove ba.e_mail_address email }

abbrev pub with_email : String → BMailAccount → BMailAccount
with_email email ba = record ba { e_mail_address = ba.e_mail_address ++ (email ∷ []) }

module _ (ldb : LevelDb) (L : IsLawful ldb) (old email : String) (dm : Manager ldb.State) where
  abbrev cut : Result (Unit {0}) × Manager ldb.State
  cut = remove_email_from_account ldb old email dm

  abbrev read_before : Result BMailAccount × ldb.State
  read_before = read_account ldb (account_key old) dm.level_db

  removed_owner : (e : String) → owner ldb cut.1.level_db e ≡ owner ldb dm.level_db e
  unfolding remove_email_from_account with_lock
  removed_owner e = elim (Result-cases read_before.0) [
    | inl (ba, returned) ↦ ground (
      arith,
      returned,
      account_read_keeps ldb L (account_key old) dm.level_db (email_key e),
      account_written_owner ldb L old (without email ba) read_before.1 e,
    )
    | inr bad ↦
        ground (arith, bad, account_read_keeps ldb L (account_key old) dm.level_db (email_key e))
  ]

  removed_accounts :
      (a e : String)
      → cut.0 ≡ ok tt
      → (lists ldb cut.1.level_db a e
          ≡ (if old == a && email == e then false else lists ldb dm.level_db a e))
        × ((old == a) ≡ false → account_at ldb cut.1.level_db a ≡ account_at ldb dm.level_db a)
  unfolding remove_email_from_account with_lock
  removed_accounts a e h = elim (Result-cases read_before.0) [
    | inl (ba, returned) ↦ ground (
      arith,
      returned,
      account_read ldb L old dm.level_db,
      account_read_keeps ldb L (account_key old) dm.level_db (account_key a),
      account_written ldb L old (without email ba) read_before.1 a,
      has-remove ba.e_mail_address email e,
    )
    | inr bad ↦ ground (
      arith,
      bad,
      account_read ldb L old dm.level_db,
      account_read_keeps ldb L (account_key old) dm.level_db (account_key a),
    )
  ]

  abbrev released : String → Result (Unit {0}) × Manager ldb.State
  released account = release_old ldb old account email dm

  released_owner :
      (account e : String) → owner ldb (released account).1.level_db e ≡ owner ldb dm.level_db e
  unfolding release_old
  released_owner account e = ground (arith, removed_owner e)

  released_accounts :
      (account a e : String)
      → (released account).0 ≡ ok tt
      → (lists ldb (released account).1.level_db a e ≡ (
          if not (is_empty old) && not (old == account) && old == a && email == e
          then false
          else lists ldb dm.level_db a e))
        × (account_at ldb (released account).1.level_db account
            ≡ account_at ldb dm.level_db account)
  unfolding release_old
  released_accounts account a e h = ground (arith, removed_accounts a e, removed_accounts account e)

module _ (ldb : LevelDb) (L : IsLawful ldb) (address email : String) (ba : BMailAccount)
    (dm : Manager ldb.State) where
  abbrev appended : Result (Unit {0}) × Manager ldb.State
  appended = append_email ldb address ba email dm

  appended_owner : (e : String) → owner ldb appended.1.level_db e ≡ owner ldb dm.level_db e
  unfolding append_email
  appended_owner e =
      ground (arith, account_written_owner ldb L address (with_email email ba) dm.level_db e)

  appended_lists :
      (a e : String)
      → account_at ldb dm.level_db address ≡ some ba
      → appended.0 ≡ ok tt
      → lists ldb appended.1.level_db a e
        ≡ (if address == a && email == e then true else lists ldb dm.level_db a e)
  unfolding append_email
  appended_lists a e held h = ground (
    arith,
    held,
    contains_lem ba.e_mail_address email,
    has-append ba.e_mail_address (email ∷ []) e,
    account_written ldb L address (with_email email ba) dm.level_db a,
  )

module _ (ldb : LevelDb) (L : IsLawful ldb) (address email : String) (dm : Manager ldb.State) where
  abbrev bound : Result (Unit {0}) × Manager ldb.State
  bound = update_binding ldb address email dm

  abbrev read_first : Result BMailAccount × ldb.State
  read_first = read_account ldb (account_key address) dm.level_db

  -- The manager at each inner call.
  abbrev at1 : Manager ldb.State
  at1 = record { level_db = read_first.1; held = account_key address ∷ dm.held }

  abbrev at2 : Manager ldb.State
  at2 = (update_email_reflect_only ldb address email at1).1

  abbrev prior : String
  prior = if owner ldb dm.level_db email == address then "" else owner ldb dm.level_db email

  abbrev at3 : Manager ldb.State
  at3 = (release_old ldb prior address email at2).1

  -- With a lawful LevelDB, after an `UpdateBinding` that returns no error the email is bound
  -- to the address, and every other email is bound to what it was bound to before.
  pub owner-update_binding_level :
      (e : String)
      → bound.0 ≡ ok tt
      → owner ldb bound.1.level_db e ≡ (if email == e then address else owner ldb dm.level_db e)
  unfolding update_binding with_lock
  owner-update_binding_level e h = elim (Result-cases read_first.0) [
    | inl (ba, returned) ↦ ground (
      arith,
      returned,
      account_read_keeps ldb L (account_key address) dm.level_db (email_key e),
      account_read_keeps ldb L (account_key address) dm.level_db (email_key email),
      reflected_owner ldb L address email at1 e,
      released_owner ldb L prior email at2 address e,
      appended_owner ldb L address email ba at3 e,
    )
    | inr bad ↦ ground (arith, bad)
  ]

  -- With a lawful LevelDB, after an `UpdateBinding` that returns no error the address lists the
  -- email; the other address that it was bound to, if any, does not; nothing else that is listed
  -- changes.
  pub lists-update_binding_level :
      (a e : String)
      → bound.0 ≡ ok tt
      → lists ldb bound.1.level_db a e ≡ (
          if email == e && address == a
          then true
          else if email == e
              && not (is_empty (owner ldb dm.level_db email))
              && owner ldb dm.level_db email == a
          then false
          else lists ldb dm.level_db a e)
  unfolding update_binding with_lock
  lists-update_binding_level a e h = elim (Result-cases read_first.0) [
    | inl (ba, returned) ↦ ground (
      arith,
      returned,
      account_read ldb L address dm.level_db,
      account_read_keeps ldb L (account_key address) dm.level_db (account_key a),
      account_read_keeps ldb L (account_key address) dm.level_db (account_key address),
      account_read_keeps ldb L (account_key address) dm.level_db (email_key email),
      reflected_owner ldb L address email at1 email,
      reflected_accounts ldb L address email at1 a,
      reflected_accounts ldb L address email at1 address,
      released_accounts ldb L prior email at2 address a e,
      appended_lists ldb L address email ba at3 a e,
    )
    | inr bad ↦ ground (arith, bad)
  ]
