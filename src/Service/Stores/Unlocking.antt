-- ===== src/Service/Stores/Unlocking.antt =====
-- Serial runs of the public server over LevelDB: no request leaves a lock behind, so none waits for its own.
use contact_server.Base.{ℕ, String, [], ◌≡◌, Exec, arith}
use contact_server.Base.Keeps.{Keeps, Keeps-lift, Keeps-bind, keeping}
use contact_server.Proto.{BmReq}
use contact_server.LevelDb.Client.{LevelDb, IsLawful}
use contact_server.LevelDb.Locks.{Manager}
use contact_server.LevelDb.Account.{
  active_account, update_binding, delete_binding, create_active_link, get_active_link,
  remove_active_link, uninstall_by_user,
}
use contact_server.LevelDb.Reflect.{query_reflect_by_one_email}
use contact_server.LevelDb.Deadlock.{Returns, update_binding-Returns, delete_binding-Returns}
use contact_server.LevelDb.Unlocked.{
  Holds, query_account-Unlocked, active_account-Unlocked, query_reflect_by_one_email-Unlocked,
  query_reflects_by_emails-Unlocked, update_binding-Unlocked, delete_binding-Unlocked,
}
use contact_server.Service.World.{Process, World, Task, on_db, spawn, unix_now}
use contact_server.Service.Levels.{check_rights_of_action}
use contact_server.Service.Actions.{bind_account}
use contact_server.Service.Pages.{active_verify}
use contact_server.Service.Router.{Mux}
use contact_server.Service.Server.{SerialRun}
use contact_server.Service.Server.Keeping.{IsKeptByCalls, SerialRun-kept_by_calls, Keeps-on_db}
use contact_server.Service.Stores.{level_db_database}

module _ (ldb : LevelDb) (L : IsLawful ldb) where
  checked-Unlocked :
      (a : String) → Keeps (Holds []) (check_rights_of_action (level_db_database ldb) a)
  unfolding check_rights_of_action
  checked-Unlocked a = Keeps-bind _ _ (query_account-Unlocked ldb a) λ acc. Keeps-lift _

  module _ (p : Process) where
    abbrev Kept : {A : Type 0} → Exec (World (Manager ldb.State)) A → Type 0
    Kept m = Keeps (λ w. Holds [] w.db) m

    on : {A : Type 0} (m : Exec (Manager ldb.State) A) → Keeps (Holds []) m → Kept (on_db m)
    on m k = Keeps-on_db (level_db_database ldb) p (Holds []) m k

    Keeps-spawned : (t : Task) → Kept (spawn t)
    Keeps-spawned t = record { after = λ w h. h }

    Keeps-now : Kept unix_now
    Keeps-now = record { after = λ w h. h }

    reflect-Unlocked : (email : String) → Keeps (Holds []) (query_reflect_by_one_email ldb email)
    reflect-Unlocked = query_reflect_by_one_email-Unlocked ldb

    binding-Unlocked : (a email : String) → Keeps (Holds []) (update_binding ldb a email)
    binding-Unlocked = update_binding-Unlocked ldb L

    activation-Unlocked : (a : String) (level : ℕ) → Keeps (Holds []) (active_account ldb a level)
    activation-Unlocked = active_account-Unlocked ldb

    ruleset unlocking = (
      keeping, on, Keeps-spawned, Keeps-now, checked-Unlocked, reflect-Unlocked, binding-Unlocked,
      activation-Unlocked,
    )

    bind_account-Unlocked : (r : BmReq) → Kept (bind_account (level_db_database ldb) p r)
    unfolding bind_account
    bind_account-Unlocked r = search (unlocking) depth 16

    get_active_link-Unlocked : (token : String) → Keeps (Holds []) (get_active_link ldb token)
    unfolding get_active_link
    get_active_link-Unlocked token = search (keeping)

    remove_active_link-Unlocked : (token : String) → Keeps (Holds []) (remove_active_link ldb token)
    unfolding remove_active_link
    remove_active_link-Unlocked token = search (keeping)

    active_verify-Unlocked :
        (token signature : String) → Kept (active_verify (level_db_database ldb) p token signature)
    unfolding active_verify
    active_verify-Unlocked token signature =
        search (unlocking, get_active_link-Unlocked, remove_active_link-Unlocked) depth 30

    uninstall_by_user-Unlocked : (a : String) → Keeps (Holds []) (uninstall_by_user ldb a)
    unfolding uninstall_by_user
    uninstall_by_user-Unlocked a = search (keeping)

    create_active_link-Unlocked : (l : _) → Keeps (Holds []) (create_active_link ldb l)
    unfolding create_active_link
    create_active_link-Unlocked l = search (keeping)

    level_db-IsKept : IsKeptByCalls (level_db_database ldb) p (Holds [])
    level_db-IsKept = record {
      reflects = query_reflects_by_emails-Unlocked ldb;
      account = query_account-Unlocked ldb;
      active = λ a. active_account-Unlocked ldb a 1;
      unbinding = delete_binding-Unlocked ldb L;
      uninstalling = uninstall_by_user-Unlocked;
      link = create_active_link-Unlocked;
      binding = bind_account-Unlocked;
      verifying = active_verify-Unlocked;
    }

    -- Over a lawful LevelDB, if no lock is held at first, and requests to the public routes and
    -- goroutines run one at a time, each from its start to its end, with no request to the debug
    -- server between: after each of them, whatever the router answers and however its calls ended, no
    -- lock is held, and `UpdateBinding` and `DeleteBinding`, called there with nothing else running,
    -- return, with no panic and no wait for an own lock.
    pub SerialRun-Unlocked :
        (m : Mux) {s t : World (Manager ldb.State)}
        → SerialRun (level_db_database ldb) p m s t
        → s.db.held ≡ []
        → (t.db.held ≡ [])
          × ((a email : String)
              → Returns (update_binding ldb a email t.db).0
                × Returns (delete_binding ldb a email t.db).0)
    SerialRun-Unlocked m {s} {t} run free =
        let kept : t.db.held ≡ [] =
          SerialRun-kept_by_calls (level_db_database ldb) p (Holds []) level_db-IsKept m run free in
        (
          kept,
          λ a email. ground (
            arith,
            kept,
            update_binding-Returns ldb L a email t.db.level_db,
            delete_binding-Returns ldb L a email t.db.level_db,
          ),
        )
