-- ===== src/Service/Stores/Directories.antt =====
-- The three databases as directories of bindings.
use contact_server.Base.{String, ◌≡◌, true, ok, arith, is_some, List}
use contact_server.Common.Agreement.{Agree, unbind_owner}
use contact_server.Firestore.Client.{Firestore, account_table}
use contact_server.Firestore.Client
use contact_server.Firestore.View
use contact_server.Firestore.Binding.{owner-update_binding, lists-update_binding}
use contact_server.Firestore.Unbinding.{owner-delete_binding, lists-delete_binding}
use contact_server.Firestore.Account
use contact_server.LevelDb.Client.{LevelDb, IsLawful}
use contact_server.LevelDb.Locks.{Manager}
use contact_server.LevelDb.View.{owner, lists}
use contact_server.LevelDb.Binding.{owner-update_binding_level, lists-update_binding_level}
use contact_server.LevelDb.Unbinding.{delete_binding_level}
use contact_server.Redis.Client.{Redis}
use contact_server.Redis
use contact_server.Redis.Binding.{owner-update_binding_redis, lists-update_binding_redis}
use contact_server.Redis.Unbinding.{delete_binding_redis}
use contact_server.Service.Directory.{Directory, Request, Run, run-same}
use contact_server.Service.Stores.{firestore_database, level_db_database, redis_database}

-- An account that lists something has a document.
lists-has_doc :
    (fs : Firestore) (s : fs.State) (a e : String)
    → View.lists fs s a e ≡ true
    → is_some (fs.doc s account_table a) ≡ true
lists-has_doc fs s a e l = ground (arith, l)

pub owner-delete_listed :
    (fs : Firestore) (L : Client.IsLawful fs) (account email : String) (s : fs.State) (e : String)
    → View.lists fs s account email ≡ true
    → (Account.delete_binding fs account email s).0 ≡ ok tt
    → View.owner fs (Account.delete_binding fs account email s).1 e
      ≡ unbind_owner email (View.owner fs s) e
owner-delete_listed fs L account email s e l h =
    ground
      (arith, lists-has_doc fs s account email l, owner-delete_binding fs L account email s e h)

abbrev pub firestore_directory :
    (fs : Firestore) → Client.IsLawful fs → Directory (firestore_database fs)
firestore_directory fs L = record {
  owner = View.owner fs;
  lists = View.lists fs;
  update_owner = owner-update_binding fs L;
  update_lists = λ account email s a e h. lists-update_binding fs L account email s a e h;
  delete_owner = λ account email s e b l h. owner-delete_listed fs L account email s e l h;
  delete_lists = λ account email s a e b h. lists-delete_binding fs L account email s a e h;
}

abbrev pub level_db_directory : (ldb : LevelDb) → IsLawful ldb → Directory (level_db_database ldb)
level_db_directory ldb L = record {
  owner = λ dm. owner ldb dm.level_db;
  lists = λ dm. lists ldb dm.level_db;
  update_owner = owner-update_binding_level ldb L;
  update_lists = λ account email dm a e h. lists-update_binding_level ldb L account email dm a e h;
  delete_owner =
      λ account email dm e b l h. (delete_binding_level ldb L account email dm account e h).1;
  delete_lists = λ account email dm a e b h. (delete_binding_level ldb L account email dm a e h).2;
}

abbrev pub redis_directory :
    (rdb : Redis) → Redis.Client.IsLawful rdb → Directory (redis_database rdb)
redis_directory rdb L = record {
  owner = Redis.View.owner rdb;
  lists = Redis.View.lists rdb;
  update_owner = owner-update_binding_redis rdb L;
  update_lists = lists-update_binding_redis rdb L;
  delete_owner =
      λ account email s e b l h. (delete_binding_redis rdb L account email s account e b h).0;
  delete_lists = λ account email s a e b h. (delete_binding_redis rdb L account email s a e b h).1;
}

-- With lawful clients, a Firestore and a LevelDB whose emails are bound alike, each with its
-- accounts and emails in agreement, have their emails bound and listed alike after the same
-- bindings and unbindings, each by an account of its own and none with an error.
pub stores-same :
    (fs : Firestore) (L : Client.IsLawful fs) (ldb : LevelDb) (L' : IsLawful ldb)
    {cs : List Request} {s t : fs.State} {s' t' : Manager ldb.State}
    → Agree (View.owner fs s) (View.lists fs s)
    → Agree (owner ldb s'.level_db) (lists ldb s'.level_db)
    → ((e : String) → View.owner fs s e ≡ owner ldb s'.level_db e)
    → Run (firestore_directory fs L) s cs t
    → Run (level_db_directory ldb L') s' cs t'
    → ((e : String) → View.owner fs t e ≡ owner ldb t'.level_db e)
      × ((a e : String) → View.lists fs t a e ≡ lists ldb t'.level_db a e)
stores-same fs L ldb L' = run-same (firestore_directory fs L) (level_db_directory ldb L')
