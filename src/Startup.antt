-- ===== src/Startup.antt =====
-- The configuration of config.go, service/cfg.go, the three databases and the wallet, and each
-- package's `InitConf` and `DbInst`: how a process comes to its configuration and its database.
-- Files, JSON and the opening of a database are the parameter `Outside`; what is printed is left
-- out, but not the nil pointers that printing follows.
pub mod Main
pub mod Chosen
pub mod Configured
pub mod Refused
pub mod Started
pub mod Printed
use contact_server.Base.{
  ℕ, String, Bool, true, false, List, [], Option, none, some, ℤ, pos, negsuc, is_empty,
  if◌then◌else◌, error_text, Result, ok, err, panic, Exec, pure, lift, branch, crash, ◌>>=◌, ◌>>◌,
  eqb,
}
use contact_server.Wallet.Keys.{pointed}
use contact_server.Wallet.Links.{WConf}

pub record FsCfg : Type 0 where
  pub project_id : String
  pub database_id : String
  pub key_file_path : String
  pub local_run : Bool

pub record LbCfg : Type 0 where
  pub db_path : String

pub record RedisCfg : Type 0 where
  pub addr : String
  pub password : String
  pub db : ℤ
  pub pool_size : ℤ
  pub min_idle_conns : ℤ

pub record HttpCfg : Type 0 where
  pub check_signature : Bool
  pub http_host : String
  pub debug_port : String
  pub http_port : String
  pub refresh_content : Bool
  pub use_https : Bool
  pub ssl_cert_file : String
  pub ssl_key_file : String
  pub session_key : String
  pub session_max_age : ℤ
  pub database_typ : ℤ

-- The parts are pointers, nil where the file has no field of theirs.
pub record Config : Type 0 where
  pub log_level : String
  pub log_file : String
  pub js_env : String
  pub http_cfg : Option HttpCfg
  pub fs_cfg : Option FsCfg
  pub lb_cfg : Option LbCfg
  pub redis_cfg : Option RedisCfg
  pub w_conf : Option WConf

-- A database, by what it was opened with.
pub data Opened : Type 0 where
  firestore : FsCfg → Opened
  level_db : String → Opened
  redis : RedisCfg → Opened

-- A lumberjack file with its sizes in megabytes and its ages in days.
pub record LogFile : Type 0 where
  pub filename : String
  pub max_size : ℕ
  pub max_backups : ℕ
  pub max_age : ℕ
  pub compress : Bool

-- The logger that `LogInst` makes, which also writes to the standard error output.
pub record Logger : Type 0 where
  pub log_file : LogFile
  pub level : ℤ

-- The package variables that the start sets: each package's `__dbConf` and what its `once` has made,
-- `__httpConf` with its unexported field `database`, `_wConf`, the logger's level and file, the logger
-- once it is made, and zerolog's own level once it is set.
pub record Globals : Type 0 where
  pub fs_conf : Option FsCfg
  pub redis_conf : Option RedisCfg
  pub lb_conf : Option LbCfg
  pub firestore_made : Option Opened
  pub redis_made : Option Opened
  pub level_db_made : Option Opened
  pub http_conf : Option HttpCfg
  pub database : Option Opened
  pub wallet_conf : Option WConf
  pub log_level : String
  pub log_file_name : String
  pub logger : Option Logger
  pub global_level : Option ℤ

abbrev pub start_globals : Globals
start_globals = record {
  fs_conf = none;
  redis_conf = none;
  lb_conf = none;
  firestore_made = none;
  redis_made = none;
  level_db_made = none;
  http_conf = none;
  database = none;
  wallet_conf = none;
  log_level = "debug";
  log_file_name = "server.log";
  logger = none;
  global_level = none;
}

-- `unmarshal_config` gives nil for the JSON text `null`. `parse_level` and `debug_level` are
-- zerolog's, the former with none for an error.
pub record Outside : Type 0 where
  pub read_file : String → Result String
  pub unmarshal_config : String → Result (Option Config)
  pub open_firestore : FsCfg → Result (Unit {0})
  pub open_level_db : String → Result (Unit {0})
  pub parse_level : String → Option ℤ
  pub debug_level : ℤ

abbrev pub db_typ_firestore : ℕ
db_typ_firestore = 1

abbrev pub db_typ_level_db : ℕ
db_typ_level_db = 2

abbrev pub db_typ_redis : ℕ
db_typ_redis = 3

-- The test of a switch over the database's type.
abbrev pub is_typ : ℤ → ℕ → Bool
is_typ (pos n) typ = eqb n typ
is_typ (negsuc n) typ = false

unfoldable pub data_base_type : ℤ → String
data_base_type db_no =
    if is_typ db_no db_typ_firestore
    then "firestore"
    else if is_typ db_no db_typ_level_db
    then "levelDB"
    else if is_typ db_no db_typ_redis
    then "DBTypRedis"
    else "unknown"

-- `if err != nil { panic(err) }`
abbrev pub or_panic : {S A : Type 0} → Result A → Exec S A
or_panic r = branch (lift r) pure (λ e. crash (error_text e))

-- The pointer is followed, as by a print of what it points to.
abbrev pub follow : {S A : Type 0} → Option A → Exec S A
follow p = lift (pointed p)

abbrev pub set : (Globals → Globals) → Exec Globals (Unit {0})
set f g = (ok tt, f g)

module _ (o : Outside) where
  -- `DbInst` of each database: the client of Redis connects later, the other two are opened now.
  unfoldable pub firestore_inst : Exec Globals Opened
  firestore_inst g = elim g.firestore_made [
    | some db ↦ (ok db, g)
    | none ↦
        (do
          c ← follow g.fs_conf
          or_panic (o.open_firestore c)
          set (λ g'. record g' { firestore_made = some (firestore c) })
          pure (firestore c))
          g
  ]

  unfoldable pub redis_inst : Exec Globals Opened
  redis_inst g = elim g.redis_made [
    | some db ↦ (ok db, g)
    | none ↦
        (do
          c ← follow g.redis_conf
          set (λ g'. record g' { redis_made = some (redis c) })
          pure (redis c))
          g
  ]

  unfoldable pub level_db_inst : Exec Globals Opened
  level_db_inst g = elim g.level_db_made [
    | some db ↦ (ok db, g)
    | none ↦
        (do
          or_panic (o.open_level_db "database")
          set (λ g'. record g' { level_db_made = some (level_db "database") })
          pure (level_db "database"))
          g
  ]

  -- `InitConf` of each database.
  unfoldable pub init_firestore : Option FsCfg → Exec Globals (Unit {0})
  init_firestore c = do set (λ g. record g { fs_conf = c }); _ ← follow c; pure tt

  unfoldable pub init_redis : Option RedisCfg → Exec Globals (Unit {0})
  init_redis c = do set (λ g. record g { redis_conf = c }); _ ← follow c; pure tt

  unfoldable pub init_level_db : Option LbCfg → Exec Globals (Unit {0})
  unfolding level_db_inst
  init_level_db c = do set (λ g. record g { lb_conf = c }); _ ← level_db_inst; _ ← follow c; pure tt

  abbrev use_database : Opened → Exec Globals (Unit {0})
  use_database db = set (λ g. record g { database = some db })

  -- `InitConf` of the service, its argument a pointer that `__httpConf` shares.
  unfoldable pub init_http : Option HttpCfg → Exec Globals (Unit {0})
  unfolding firestore_inst level_db_inst redis_inst
  init_http p = do
    set (λ g. record g { http_conf = p })
    c ← follow p
    if is_typ c.database_typ db_typ_firestore
        then firestore_inst >>= use_database
        else if is_typ c.database_typ db_typ_level_db
        then level_db_inst >>= use_database
        else if is_typ c.database_typ db_typ_redis
        then redis_inst >>= use_database
        else pure tt
    if is_empty c.debug_port
        then set (λ g. record g { http_conf = some (record c { debug_port = "8887" }) })
        else pure tt
