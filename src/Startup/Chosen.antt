-- ===== src/Startup/Chosen.antt =====
-- The database that `InitConf` of service/cfg.go installs at the start, from the configuration.
use contact_server.Base.{
  Bool-cases, inl, inr, false, true, String, Option, none, some, is_empty, if◌then◌else◌, Result,
  ok, ◌>>◌, ◌≡◌, arith,
}
use contact_server.Wallet.Keys.{pointed}
use contact_server.Wallet.Address.{◌>>=ᵣ◌}
use contact_server.Startup.{
  Config, HttpCfg, Globals, start_globals, Opened, firestore, level_db, redis, Outside, is_typ,
  db_typ_firestore, db_typ_level_db, db_typ_redis, init_firestore, init_redis, init_level_db,
  init_http, firestore_inst, redis_inst, level_db_inst,
}
use contact_server.Startup.Main.{init_database, init_databases}

-- The database that a configuration asks for, opened with its own part of the file, except for the
-- path of LevelDB.
abbrev pub opened : Outside → Config → HttpCfg → Result (Option Opened)
opened o cf c =
    if is_typ c.database_typ db_typ_firestore
    then (pointed cf.fs_cfg >>=ᵣ λ fs. o.open_firestore fs >>=ᵣ λ _. ok (some (firestore fs)))
    else if is_typ c.database_typ db_typ_level_db
    then (pointed cf.lb_cfg >>=ᵣ λ _.
        o.open_level_db "database" >>=ᵣ λ _. ok (some (level_db "database")))
    else if is_typ c.database_typ db_typ_redis
    then (pointed cf.redis_cfg >>=ᵣ λ re. ok (some (redis re)))
    else ok none

abbrev pub or_default : String → String → String
or_default default s = if is_empty s then default else s

abbrev pub Chosen : HttpCfg → Option Opened → Result (Unit {0}) × Globals → Type 0
Chosen c db (r, g) =
    (r ≡ ok tt)
    × (g.http_conf ≡ some (record c { debug_port = or_default "8887" c.debug_port }))
    × (g.database ≡ db)
    × (g.log_file_name ≡ "server.log")

-- No logger has been made, and no level set.
abbrev pub Quiet : Globals → Type 0
Quiet g = (g.logger ≡ none) × (g.global_level ≡ none)

module _ (o : Outside) (cf : Config) (c : HttpCfg) (db : Option Opened)
    (is_open : opened o cf c ≡ ok db) where
  abbrev begun : Result (Unit {0}) × Globals
  begun = (init_database o c cf >> init_http o (some c)) start_globals

  firestore-Chosen : is_typ c.database_typ db_typ_firestore ≡ true → Chosen c db begun
  unfolding init_database init_http init_firestore firestore_inst
  firestore-Chosen typ = ground (arith, typ, is_open)

  level_db-Chosen :
      is_typ c.database_typ db_typ_firestore ≡ false
      → is_typ c.database_typ db_typ_level_db ≡ true
      → is_typ c.database_typ db_typ_redis ≡ false
      → Chosen c db begun
  unfolding init_database init_http init_level_db level_db_inst
  level_db-Chosen other typ last = ground (arith, other, typ, last, is_open)

  redis-Chosen :
      is_typ c.database_typ db_typ_firestore ≡ false
      → is_typ c.database_typ db_typ_level_db ≡ false
      → is_typ c.database_typ db_typ_redis ≡ true
      → Chosen c db begun
  unfolding init_database init_http init_redis redis_inst
  redis-Chosen other other' typ = ground (arith, other, other', typ, is_open)

  none-Chosen :
      is_typ c.database_typ db_typ_firestore ≡ false
      → is_typ c.database_typ db_typ_level_db ≡ false
      → is_typ c.database_typ db_typ_redis ≡ false
      → Chosen c db begun
  unfolding init_database init_http
  none-Chosen other other' other'' = ground (arith, other, other', other'', is_open)

  only_redis :
      is_typ c.database_typ db_typ_level_db ≡ true → is_typ c.database_typ db_typ_redis ≡ false
  only_redis typ = ground (arith, typ)

  -- One database is initialised, and then the same one is opened and used.
  chosen_lem : Chosen c db begun
  chosen_lem = elim (Bool-cases (is_typ c.database_typ db_typ_firestore)) [
    | inl typ ↦ firestore-Chosen typ
    | inr other ↦ elim (Bool-cases (is_typ c.database_typ db_typ_level_db)) [
      | inl typ ↦ level_db-Chosen other typ (only_redis typ)
      | inr other' ↦ elim (Bool-cases (is_typ c.database_typ db_typ_redis)) [
        | inl typ ↦ redis-Chosen other other' typ
        | inr other'' ↦ none-Chosen other other' other''
      ]
    ]
  ]

chosen-Quiet :
    (o : Outside) (cf : Config) (c : HttpCfg)
    → Quiet ((init_database o c cf >> init_http o (some c)) start_globals).1
unfolding init_database init_http init_firestore init_redis init_level_db firestore_inst redis_inst
    level_db_inst
chosen-Quiet o cf c = ground arith

pub databases-Quiet :
    (o : Outside) (cf : Config) (c : HttpCfg)
    → cf.http_cfg ≡ some c
    → Quiet (init_databases o c cf start_globals).1
unfolding init_databases
databases-Quiet o cf c has_http = rw has_http (chosen-Quiet o cf c)

pub databases_lem :
    (o : Outside) (cf : Config) (c : HttpCfg) (db : Option Opened)
    → cf.http_cfg ≡ some c
    → opened o cf c ≡ ok db
    → Chosen c db (init_databases o c cf start_globals)
unfolding init_databases
databases_lem o cf c db has_http is_open = rw has_http (chosen_lem o cf c db is_open)
