-- ===== src/LevelDb/Unlocked.antt =====
-- The locks of db/db_leveldb after a call, however it ends, of a thread that held none before.
use contact_server.Base.{String, List, [], ◌∷◌, ◌≡◌, arith, Dict, is_not_found, Exec}
use contact_server.Base.Keeps.{Keeps, Keeps-pure, Keeps-raise, Keeps-branch, Keeps-if, keeping}
use contact_server.LevelDb.Keys.{email_key}
use contact_server.LevelDb.Client.{LevelDb, IsLawful}
use contact_server.LevelDb.Locks.{Manager, at_db, with_lock, unlock}
use contact_server.LevelDb.Reflect.{
  query_reflect_by_one_email, query_reflects_from, query_reflects_by_emails,
}
use contact_server.LevelDb.Account.{query_account, active_account, update_binding, delete_binding}
use contact_server.LevelDb.Deadlock.{update_binding-Returns, delete_binding-Returns}

-- The locks held are these.
abbrev pub Holds : {S : Type 0} → List String → Manager S → Type 0
Holds keys dm = dm.held ≡ keys

module _ {S A : Type 0} where
  Keeps-at_db : (keys : List String) (m : Exec S A) → Keeps (Holds keys) (at_db m)
  Keeps-at_db keys m = record { after = λ dm h. h }

  Keeps-with_lock :
      (key : String) (m : Exec (Manager S) A)
      → Keeps (Holds (key ∷ [])) m
      → Keeps (Holds []) (with_lock key m)
  unfolding with_lock unlock
  Keeps-with_lock key m body = record {
    after = λ dm h.
        ground (arith, h, body.after (record dm { held = key ∷ dm.held }) (ground (arith, h)));
  }

ruleset locking = (keeping, Keeps-at_db, Keeps-with_lock)

module _ (ldb : LevelDb) where
  pub query_account-Unlocked : (a : String) → Keeps (Holds []) (query_account ldb a)
  unfolding query_account
  query_account-Unlocked a = search (locking)

  pub active_account-Unlocked :
      (a : String) (level : _) → Keeps (Holds []) (active_account ldb a level)
  unfolding active_account
  active_account-Unlocked a level = search (locking)

  pub query_reflect_by_one_email-Unlocked :
      (email : String) → Keeps (Holds []) (query_reflect_by_one_email ldb email)
  unfolding query_reflect_by_one_email
  query_reflect_by_one_email-Unlocked email = search (locking)

  query_reflects_from-Unlocked :
      (emails : List String) (reflects : Dict _)
      → Keeps (Holds []) (query_reflects_from ldb emails reflects)
  unfolding query_reflects_from
  query_reflects_from-Unlocked [] reflects = Keeps-pure reflects
  query_reflects_from-Unlocked (e ∷ es) reflects =
      Keeps-branch _ _ _ (Keeps-with_lock (email_key e) _ (Keeps-at_db _ _))
        (λ d. query_reflects_from-Unlocked es _)
        (λ e'.
          Keeps-if (is_not_found e') _ _ (query_reflects_from-Unlocked es reflects)
            (Keeps-raise e'))

  pub query_reflects_by_emails-Unlocked :
      (emails : List String) → Keeps (Holds []) (query_reflects_by_emails ldb emails)
  unfolding query_reflects_by_emails
  query_reflects_by_emails-Unlocked emails = query_reflects_from-Unlocked emails []

module _ (ldb : LevelDb) (L : IsLawful ldb) where
  pub update_binding-Unlocked : (a email : String) → Keeps (Holds []) (update_binding ldb a email)
  update_binding-Unlocked a email = record {
    after = λ dm h. ground (arith, h, update_binding-Returns ldb L a email dm.level_db);
  }

  pub delete_binding-Unlocked : (a email : String) → Keeps (Holds []) (delete_binding ldb a email)
  delete_binding-Unlocked a email = record {
    after = λ dm h. ground (arith, h, delete_binding-Returns ldb L a email dm.level_db);
  }
