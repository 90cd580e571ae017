-- ===== src/LevelDb/Crossing.antt =====
-- Two calls of `UpdateBinding` of db/db_leveldb/account.go whose emails are bound crosswise: each
-- holds the lock of its own account and asks for the other's.
use contact_server.Base.{
  String, ◌≡◌, ◌≢◌, refl, sym, true, [], ◌∷◌, ◌==◌, has, if◌then◌else◌, ok, panic, Exec, branch,
  ◌>>=◌, ◌>>◌, arith, IfOk,
}
use contact_server.Common.{BMailAccount}
use contact_server.LevelDb.Keys.{account_key, email_key, account_email_key}
use contact_server.LevelDb.Client.{LevelDb, IsLawful, read_account}
use contact_server.LevelDb.Locks.{Manager, at_db, with_lock, unlock}
use contact_server.LevelDb.Reflect.{update_email_reflect_only}
use contact_server.LevelDb.Account.{
  release_old, append_email, not_activated, remove_email_from_account, update_binding,
}
use contact_server.LevelDb.View.{owner}
use contact_server.LevelDb.Steps.{reflected_owner, account_read_keeps}

module _ (ldb : LevelDb) where
  -- What `UpdateBinding` does between taking the lock of its account and its deferred release.
  unfoldable pub under_lock : String → String → Exec (Manager ldb.State) (Unit {0})
  under_lock a email =
      branch (at_db (read_account ldb (account_key a)))
        (λ account. do
          old ← update_email_reflect_only ldb a email
          release_old ldb old a email
          append_email ldb a account email)
        (not_activated ldb)

  -- The manager after the account was read, and after the email's reflection was moved.
  abbrev found : String → Manager ldb.State → Manager ldb.State
  found a dm = record dm { level_db = (read_account ldb (account_key a) dm.level_db).1 }

  abbrev pub moved : String → String → Manager ldb.State → Manager ldb.State
  moved a email dm = (update_email_reflect_only ldb a email (found a dm)).1

  -- The calls of `UpdateBinding` before the one that takes a second account's lock succeed.
  abbrev Moves : String → String → BMailAccount → String → Manager ldb.State → Type 0
  Moves a email account old dm =
      ((read_account ldb (account_key a) dm.level_db).0 ≡ ok account)
      × ((update_email_reflect_only ldb a email (found a dm)).0 ≡ ok old)

  -- `UpdateBinding` runs under the lock of its account `a`, which it releases at its end only;
  -- under it, it comes to wait for a lock that is held, with its own still held; and so the call
  -- does not end where the lock of `b` is held by another.
  abbrev pub Blocks : String → String → String → ldb.State → Type 0
  Blocks a b email s =
      let dm : Manager ldb.State = record {
        level_db = s;
        held = account_key a ∷ account_key b ∷ [];
      } in
      (update_binding ldb a email ≡ with_lock (account_key a) (under_lock a email))
      × (under_lock a email dm ≡ (panic "deadlock", moved a email dm))
      × ((moved a email dm).held ≡ dm.held)
      × ((update_binding ldb a email (record dm { held = account_key b ∷ [] })).0
          ≡ panic "deadlock")

  update_binding-under_lock :
      (a email : String)
      → update_binding ldb a email ≡ with_lock (account_key a) (under_lock a email)
  unfolding update_binding under_lock
  update_binding-under_lock a email = refl

  module _ (L : IsLawful ldb) (a email : String) (dm : Manager ldb.State) where
    held_kept :
        (x y : String)
        → dm.held ≡ account_key x ∷ account_key y ∷ []
        → (moved a email dm).held ≡ dm.held
    unfolding update_email_reflect_only with_lock unlock
    held_kept x y h = ground (arith, h, account_email_key x email, account_email_key y email)

    -- It finds the address that the email is bound to.
    old_found : IfOk (update_email_reflect_only ldb a email (found a dm)).0 (λ old.
        old ≡ (if owner ldb dm.level_db email == a then "" else owner ldb dm.level_db email))
    old_found = ground (
      arith,
      account_read_keeps ldb L (account_key a) dm.level_db (email_key email),
      reflected_owner ldb L a email (found a dm) email,
    )

    others_kept :
        (e : String)
        → email ≢ e
        → IfOk
            (update_email_reflect_only ldb a email (found a dm)).0
            (λ old. owner ldb (moved a email dm).level_db e ≡ owner ldb dm.level_db e)
    others_kept e differ = ground (
      arith,
      account_read_keeps ldb L (account_key a) dm.level_db (email_key e),
      reflected_owner ldb L a email (found a dm) e,
    )

    waits :
        (b : String)
        → has dm.held (account_key b) ≡ true
        → a ≢ b
        → b ≢ ""
        → release_old ldb b a email dm ≡ (panic "deadlock", dm)
    unfolding release_old remove_email_from_account with_lock
    waits b h differ full = ground (arith, h)

  module _ (L : IsLawful ldb) (a b email : String) (s : ldb.State) (account : BMailAccount)
      (old : String) where
    abbrev both : Manager ldb.State
    both = record { level_db = s; held = account_key a ∷ account_key b ∷ [] }

    waits_under :
        a ≢ b
        → b ≢ ""
        → owner ldb s email ≡ b
        → Moves a email account old both
        → under_lock a email both ≡ (panic "deadlock", moved a email both)
    unfolding under_lock
    waits_under differ full bound moves = ground (
      arith,
      moves,
      old_found L a email both,
      waits L a email (moved a email both) b (ground (arith, held_kept L a email both a b refl))
          differ full,
    )

    call_waits :
        a ≢ b
        → under_lock a email both ≡ (panic "deadlock", moved a email both)
        → (with_lock
            (account_key a)
            (under_lock a email)
            (record both { held = account_key b ∷ [] })).0
          ≡ panic "deadlock"
    unfolding with_lock
    call_waits differ waiting = ground (arith, waiting)

    blocks :
        a ≢ b → b ≢ "" → owner ldb s email ≡ b → Moves a email account old both → Blocks a b email s
    blocks differ full bound moves =
        let waiting = waits_under differ full bound moves in
        (
          update_binding-under_lock a email,
          waiting,
          held_kept L a email both a b refl,
          ground (arith, call_waits differ waiting, update_binding-under_lock a email),
        )

  -- With a lawful LevelDB, two accounts that are not empty, an email of the second and an email of
  -- the first: a call of `UpdateBinding` binds the first email to the first account and another the
  -- second email to the second, and each has taken its account's lock. Where each then reads its
  -- account and moves its email's reflection without an error, the second after the first, each
  -- waits for the other's lock, with its own held: it takes that lock at its start and releases it
  -- at its end only, and does not end while the other's is held.
  pub update_binding_crossed :
      IsLawful ldb
      → (a b e f : String) (s : ldb.State) (account account' : BMailAccount) (old old' : String)
      → a ≢ b
      → a ≢ ""
      → b ≢ ""
      → owner ldb s e ≡ b
      → owner ldb s f ≡ a
      → let dm : Manager ldb.State = record {
        level_db = s;
        held = account_key a ∷ account_key b ∷ [];
      } in
        let then_ : Manager ldb.State = record (moved a e dm) {
          held = account_key b ∷ account_key a ∷ [];
        } in
        Moves a e account old dm
        → Moves b f account' old' then_
        → Blocks a b e s × Blocks b a f then_.level_db
  update_binding_crossed L a b e f s account account' old old' differ full full' bound bound' one
        two =
      let dm = both L a b e s account old in
      (
        blocks L a b e s account old differ full' bound one,
        blocks L b a f (moved a e dm).level_db account' old' (λ same. differ (sym same)) full
            (ground (arith, one, others_kept L a e dm f)) two,
      )
