-- ===== src/LevelDb/Deadlock.antt =====
-- The locks that the calls of db/db_leveldb take, nested in `UpdateBinding` and `DeleteBinding`.
use contact_server.Base.{
  String, ◌≡◌, [], ◌∷◌, Result, ok, err, panic, arith, Option-cases, Result-cases, inl, inr,
}
use contact_server.Common.{BMailAccount, EmailReflect}
use contact_server.LevelDb.Keys.{account_key, email_key, account_key_eq, account_email_key}
use contact_server.LevelDb.Client.{
  LevelDb, IsLawful, read_account, write_account, read_reflect, write_reflect, delete_key,
}
use contact_server.LevelDb.Locks.{Manager, with_lock, unlock}
use contact_server.LevelDb.Reflect.{delete_email_reflect, update_email_reflect_only}
use contact_server.LevelDb.Account.{
  update_binding, delete_binding, remove_email_from_account, release_old, append_email,
}
use contact_server.LevelDb.Binding.{without, with_email}

-- The call returned: it neither panicked nor waits for a lock that it holds itself.
abbrev pub Returns : {A : Type 0} → Result A → Type 0
Returns (ok a) = Unit
Returns (err e) = Unit
Returns (panic w) = ⊥

module _ (ldb : LevelDb) (L : IsLawful ldb) where
  read_account-Returns : (k : String) (s : ldb.State) → Returns (read_account ldb k s).0
  unfolding read_account
  read_account-Returns k s = elim (Option-cases (ldb.value s k)) [
    | inl missing ↦ ground (arith, missing, L.get_reads k s)
    | inr (v, held) ↦ ground (arith, held, L.get_reads k s, L.account_decodes v)
  ]

  write_account-Returns :
      (k : String) (ba : BMailAccount) (s : ldb.State) → Returns (write_account ldb k ba s).0
  unfolding write_account
  write_account-Returns k ba s = ground (arith, L.put_writes k (ldb.marshal_account ba) s k)

  read_reflect-Returns : (k : String) (s : ldb.State) → Returns (read_reflect ldb k s).0
  unfolding read_reflect
  read_reflect-Returns k s = elim (Option-cases (ldb.value s k)) [
    | inl missing ↦ ground (arith, missing, L.get_reads k s)
    | inr (v, held) ↦ ground (arith, held, L.get_reads k s, L.reflect_decodes v)
  ]

  write_reflect-Returns :
      (k : String) (r : EmailReflect) (s : ldb.State) → Returns (write_reflect ldb k r s).0
  unfolding write_reflect
  write_reflect-Returns k r s = ground (arith, L.put_writes k (ldb.marshal_reflect r) s k)

  -- Below the lock of an account.
  abbrev Inner : {A : Type 0} → Result A × Manager ldb.State → String → Type 0
  Inner x a = Returns x.0 × (x.1.held ≡ account_key a ∷ [])

  update_email_reflect_only-Inner :
      (a email : String) (s : ldb.State)
      → Inner
          (update_email_reflect_only ldb a email
            (record { level_db = s; held = account_key a ∷ [] }))
          a
  unfolding update_email_reflect_only with_lock unlock
  update_email_reflect_only-Inner a email s = ground (
    arith,
    read_reflect-Returns (email_key email) s,
    write_reflect-Returns (email_key email) (record { b_mail_address = a })
        (read_reflect ldb (email_key email) s).1,
    account_email_key a email,
  )

  delete_email_reflect-Inner :
      (a email : String) (s : ldb.State)
      → Inner
          (delete_email_reflect ldb email (record { level_db = s; held = account_key a ∷ [] }))
          a
  unfolding delete_email_reflect with_lock unlock delete_key
  delete_email_reflect-Inner a email s =
      ground
        (arith, L.delete_drops (email_key email) s (email_key email), account_email_key a email)

  module _ (a email : String) (dm : Manager ldb.State) (inner : dm.held ≡ account_key a ∷ []) where
    release_old-Inner : (old : String) → Inner (release_old ldb old a email dm) a
    unfolding release_old remove_email_from_account with_lock unlock
    release_old-Inner old = elim (Result-cases (read_account ldb (account_key old) dm.level_db).0) [
      | inl (ba, returned) ↦ ground (
        arith,
        inner,
        returned,
        account_key_eq a old,
        account_key_eq old a,
        write_account-Returns (account_key old) (without email ba)
            (read_account ldb (account_key old) dm.level_db).1,
      )
      | inr bad ↦ ground (
        arith,
        inner,
        bad,
        read_account-Returns (account_key old) dm.level_db,
        account_key_eq a old,
        account_key_eq old a,
      )
    ]

    append_email-Inner : (ba : BMailAccount) → Inner (append_email ldb a ba email dm) a
    unfolding append_email
    append_email-Inner ba =
        ground
          (arith, inner, write_account-Returns (account_key a) (with_email email ba) dm.level_db)

  -- The manager below the lock of an account, before the inner calls of `UpdateBinding`.
  abbrev at1 : String → ldb.State → Manager ldb.State
  at1 a s = record { level_db = (read_account ldb (account_key a) s).1; held = account_key a ∷ [] }

  abbrev at2 : String → String → ldb.State → Manager ldb.State
  at2 a email s = (update_email_reflect_only ldb a email (at1 a s)).1

  -- With a lawful LevelDB, `UpdateBinding` called by a thread that holds no lock returns, without a
  -- panic or a wait for a lock of its own, and leaves no lock held, on every branch and for all
  -- arguments, also where the old account is the new one.
  pub update_binding-Returns :
      (a email : String) (s : ldb.State)
      → let (r, dm) = update_binding ldb a email (record { level_db = s; held = [] }) in
        Returns r × (dm.held ≡ [])
  unfolding update_binding with_lock unlock
  update_binding-Returns a email s = elim (Result-cases (read_account ldb (account_key a) s).0) [
    | inl (ba, returned) ↦ elim (Result-cases (update_email_reflect_only ldb a email (at1 a s)).0) [
      | inl (old, given) ↦ ground (
        arith,
        returned,
        given,
        update_email_reflect_only-Inner a email (at1 a s).level_db,
        release_old-Inner a email (at2 a email s)
            (ground (arith, update_email_reflect_only-Inner a email (at1 a s).level_db)) old,
        append_email-Inner a email (release_old ldb old a email (at2 a email s)).1
            (ground (
              arith,
              release_old-Inner a email (at2 a email s)
                  (ground (arith, update_email_reflect_only-Inner a email (at1 a s).level_db)) old,
            ))
            ba,
      )
      | inr refused ↦
          ground
            (arith, returned, refused, update_email_reflect_only-Inner a email (at1 a s).level_db)
    ]
    | inr bad ↦ ground (arith, bad, read_account-Returns (account_key a) s)
  ]

  -- So does `DeleteBinding`.
  pub delete_binding-Returns :
      (a email : String) (s : ldb.State)
      → let (r, dm) = delete_binding ldb a email (record { level_db = s; held = [] }) in
        Returns r × (dm.held ≡ [])
  unfolding delete_binding with_lock unlock
  delete_binding-Returns a email s = elim (Result-cases (read_account ldb (account_key a) s).0) [
    | inl (ba, returned) ↦ ground (
      arith,
      returned,
      delete_email_reflect-Inner a email (at1 a s).level_db,
      write_account-Returns (account_key a) (without email ba)
          (delete_email_reflect ldb email (at1 a s)).1.level_db,
    )
    | inr bad ↦ ground (arith, bad, read_account-Returns (account_key a) s)
  ]
