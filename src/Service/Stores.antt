-- ===== src/Service/Stores.antt =====
-- The databases that `InitConf` of service/cfg.go installs for its three types.
pub mod Binding
pub mod Activation
pub mod Limits
pub mod Directories
pub mod Decryption
pub mod Bounded
pub mod Running
pub mod Unlocking
pub mod Crashes
pub mod Racing
pub mod Replay
pub mod Visited
pub mod SignUp
use contact_server.Firestore.Client.{Firestore}
use contact_server.Firestore.Account
use contact_server.Firestore.Reflect
use contact_server.Firestore.Active
use contact_server.Redis.Client.{Redis}
use contact_server.Redis
use contact_server.LevelDb.Client.{LevelDb}
use contact_server.LevelDb.Locks.{Manager}
use contact_server.LevelDb
use contact_server.Service.Database.{Database}

abbrev pub firestore_database : Firestore → Database
firestore_database fs = record {
  State = fs.State;
  query_reflect_by_one_email = Reflect.query_reflect_by_one_email fs;
  query_reflects_by_emails = Reflect.query_reflects_by_emails fs;
  query_account = Account.query_account fs;
  active_account = Account.active_account fs;
  delete_account = Account.delete_account fs;
  update_account_level = Account.update_account_level fs;
  update_binding = Account.update_binding fs;
  delete_binding = Account.delete_binding fs;
  uninstall_by_user = Account.uninstall_by_user fs;
  create_active_link = Active.create_active_link fs;
  get_active_link = Active.get_active_link fs;
  remove_active_link = Active.remove_active_link fs;
}

abbrev pub level_db_database : LevelDb → Database
level_db_database ldb = record {
  State = Manager ldb.State;
  query_reflect_by_one_email = LevelDb.Reflect.query_reflect_by_one_email ldb;
  query_reflects_by_emails = LevelDb.Reflect.query_reflects_by_emails ldb;
  query_account = LevelDb.Account.query_account ldb;
  active_account = LevelDb.Account.active_account ldb;
  delete_account = LevelDb.Account.delete_account ldb;
  update_account_level = LevelDb.Account.update_account_level ldb;
  update_binding = LevelDb.Account.update_binding ldb;
  delete_binding = LevelDb.Account.delete_binding ldb;
  uninstall_by_user = LevelDb.Account.uninstall_by_user ldb;
  create_active_link = LevelDb.Account.create_active_link ldb;
  get_active_link = LevelDb.Account.get_active_link ldb;
  remove_active_link = LevelDb.Account.remove_active_link ldb;
}

abbrev pub redis_database : Redis → Database
redis_database rdb = record {
  State = rdb.State;
  query_reflect_by_one_email = Redis.Reflect.query_reflect_by_one_email rdb;
  query_reflects_by_emails = Redis.Reflect.query_reflects_by_emails rdb;
  query_account = Redis.Account.query_account rdb;
  active_account = Redis.Account.active_account rdb;
  delete_account = Redis.Account.delete_account rdb;
  update_account_level = Redis.Account.update_account_level rdb;
  update_binding = Redis.Account.update_binding rdb;
  delete_binding = Redis.Account.delete_binding rdb;
  uninstall_by_user = Redis.Account.uninstall_by_user rdb;
  create_active_link = Redis.Account.create_active_link rdb;
  get_active_link = Redis.Account.get_active_link rdb;
  remove_active_link = Redis.Account.remove_active_link rdb;
}
