-- ===== src/Startup/Main.antt =====
-- `initConfig` of config.go, `mainRun` of main.go, `LogInst` and `SetLogLevel` of common/log.go and `WInst` of
-- wallet/wallet_inst.go: the start of the process, up to the goroutine that serves. What is logged
-- and the signals that end the process are left out.
use contact_server.Base.{
  String, Bool, Option, none, some, is_empty, if◌then◌else◌, Result, ok, Exec, pure, ℤ, true, ◌>>=◌,
  ◌>>◌,
}
use contact_server.Wallet.Cipher.{Aes}
use contact_server.Wallet.Keys.{KeyMaker, Wallet, parse_wallet}
use contact_server.Wallet.Address.{◌>>=ᵣ◌}
use contact_server.Startup.{
  Config, HttpCfg, Globals, Outside, is_typ, db_typ_firestore, db_typ_level_db, db_typ_redis,
  or_panic, follow, set, init_firestore, init_redis, init_level_db, init_http,
}

pub record StartParam : Type 0 where
  pub version : Bool
  pub config : String
  pub port : String

-- `cf.HttpPort = param.port`, a field of the embedded pointer `HttpCfg`.
unfoldable pub port_override : String → Config → Exec Globals Config
port_override port cf =
    if is_empty port
    then pure cf
    else follow cf.http_cfg >>= λ c.
        pure (record cf { http_cfg = some (record c { http_port = port }) })

module _ (o : Outside) where
  -- The level of a text that zerolog does not know is debug.
  abbrev pub level_or_debug : Option ℤ → ℤ
  level_or_debug (some l) = l
  level_or_debug none = o.debug_level

  -- `LogInst`: the logger is made once, with what the variables say then.
  unfoldable pub log_inst : Exec Globals (Unit {0})
  log_inst g = elim g.logger [
    | some l ↦ (ok tt, g)
    | none ↦ (
      ok tt,
      record g {
        logger = some (record {
          log_file = record {
            filename = g.log_file_name;
            max_size = 100;
            max_backups = 5;
            max_age = 128;
            compress = true;
          };
          level = level_or_debug (o.parse_level g.log_level);
        });
      },
    )
  ]

  unfoldable pub set_log_level : String → String → Exec Globals (Unit {0})
  unfolding log_inst
  set_log_level ll file = do
    set (λ g. record g { log_level = ll })
    if is_empty file then pure tt else set (λ g. record g { log_file_name = file })
    log_inst
    elim (o.parse_level ll) [
      | some l ↦ set (λ g. record g { global_level = some l })
      | none ↦ pure tt
    ]

  -- `os.ReadFile` and `json.Unmarshal` of the configuration.
  abbrev pub read_config : String → Result (Option Config)
  read_config fil_name = o.read_file fil_name >>=ᵣ o.unmarshal_config

  -- The switch over the type of the database.
  unfoldable pub init_database : HttpCfg → Config → Exec Globals (Unit {0})
  unfolding init_firestore init_redis init_level_db
  init_database c cf =
      if is_typ c.database_typ db_typ_firestore
      then init_firestore o cf.fs_cfg
      else if is_typ c.database_typ db_typ_redis
      then init_redis o cf.redis_cfg
      else if is_typ c.database_typ db_typ_level_db
      then init_level_db o cf.lb_cfg
      else pure tt

  -- The calls of `InitConf` that set the database.
  unfoldable pub init_databases : HttpCfg → Config → Exec Globals (Unit {0})
  unfolding init_database init_http
  init_databases c cf = init_database c cf >> init_http o cf.http_cfg

  -- The configuration as its pointers show it: `InitConf` of the service writes to the part that
  -- they share.
  abbrev as_shared : Config → Exec Globals Config
  as_shared cf g = (ok (record cf { http_cfg = g.http_conf }), g)

  -- `initConfig` after the port.
  unfoldable pub configure : Config → Exec Globals Config
  unfolding init_databases set_log_level
  configure cf = do
    c ← follow cf.http_cfg
    init_databases c cf
    set (λ g. record g { wallet_conf = cf.w_conf })
    _ ← follow cf.w_conf
    set_log_level cf.log_level cf.log_file
    as_shared cf

  unfoldable pub init_config : String → String → Exec Globals Config
  unfolding port_override configure
  init_config port fil_name = do
    p ← or_panic (read_config fil_name)
    cf ← follow p
    cf' ← port_override port cf
    configure cf'

  module _ (k : KeyMaker) (a : Aes) where
    -- `OpenWalletFromPath`
    unfoldable pub open_wallet_from_path : String → String → Result Wallet
    unfolding parse_wallet
    open_wallet_from_path path pwd = o.read_file path >>=ᵣ λ bts. parse_wallet k a bts pwd

    -- `WInst`, called once; it prints the wallet's address.
    unfoldable pub w_inst : Exec Globals Wallet
    unfolding open_wallet_from_path
    w_inst g =
        (do
          c ← follow g.wallet_conf
          inst ← or_panic (open_wallet_from_path c.wallet_path c.wallet_auth)
          _ ← follow inst.address
          pure inst)
          g

    -- What the process serves with, none after `-v`.
    unfoldable pub main_run : Result (Unit {0}) → StartParam → Exec Globals (Option Wallet)
    unfolding init_config w_inst
    main_run max_it param = if param.version then pure none else do
      or_panic max_it
      _ ← init_config param.port param.config
      inst ← w_inst
      pure (some inst)
