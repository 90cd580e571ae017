-- ===== src/Startup/Configured.antt =====
-- What `initConfig` of config.go leaves behind, where the file has what it needs.
use contact_server.Base.{
  Bool-cases, inl, inr, true, String, Option, some, is_empty, ok, ◌≡◌, refl, arith,
}
use contact_server.Wallet.Links.{WConf}
use contact_server.Startup.{Config, HttpCfg, Globals, Logger, start_globals, Opened, Outside}
use contact_server.Startup.Main.{
  read_config, init_databases, configure, init_config, set_log_level, port_override, log_inst,
  level_or_debug,
}
use contact_server.Startup.Chosen.{opened, or_default, Quiet, databases_lem, databases-Quiet}

-- What the service is served with.
abbrev pub served : String → HttpCfg → HttpCfg
served port c = record c {
  http_port = or_default c.http_port port;
  debug_port = or_default "8887" c.debug_port;
}

-- The logger of a configuration.
abbrev pub log_of : Outside → Config → Logger
log_of o cf = record {
  log_file = record {
    filename = or_default "server.log" cf.log_file;
    max_size = 100;
    max_backups = 5;
    max_age = 128;
    compress = true;
  };
  level = level_or_debug o (o.parse_level cf.log_level);
}

-- The logger is the configuration's, and zerolog's own level is set where the level is known.
abbrev pub Logged : Outside → Config → Globals → Type 0
Logged o cf g = (g.logger ≡ some (log_of o cf)) × (g.global_level ≡ o.parse_level cf.log_level)

-- The state that a configuration leads to.
abbrev pub Configured :
    Outside → String → Config → HttpCfg → WConf → Option Opened → Globals → Type 0
Configured o port cf c w db g =
    (g.http_conf ≡ some (served port c))
    × (g.database ≡ db)
    × (g.wallet_conf ≡ some w)
    × (g.log_level ≡ cf.log_level)
    × Logged o cf g

-- `SetLogLevel` where no logger was made before.
set_log_level_lem :
    (o : Outside) (ll file : String) (g : Globals)
    → Quiet g
    → g.log_file_name ≡ "server.log"
    → let (r, g') = set_log_level o ll file g in
      (r ≡ ok tt)
      × (g'.log_level ≡ ll)
      × (g'.logger
          ≡ some (record {
            log_file = record {
              filename = or_default "server.log" file;
              max_size = 100;
              max_backups = 5;
              max_age = 128;
              compress = true;
            };
            level = level_or_debug o (o.parse_level ll);
          }))
      × (g'.global_level ≡ o.parse_level ll)
      × (g'.http_conf ≡ g.http_conf)
      × (g'.database ≡ g.database)
      × (g'.wallet_conf ≡ g.wallet_conf)
unfolding set_log_level log_inst
set_log_level_lem o ll file g quiet first = ground (arith, quiet, first)

abbrev http_of : HttpCfg → HttpCfg
http_of c = record c { debug_port = or_default "8887" c.debug_port }

configure_lem :
    (o : Outside) (cf : Config) (c : HttpCfg) (w : WConf) (db : Option Opened)
    → cf.http_cfg ≡ some c
    → cf.w_conf ≡ some w
    → opened o cf c ≡ ok db
    → let (r, g) = configure o cf start_globals in
      (r ≡ ok (record cf { http_cfg = some (http_of c) }))
      × (g.http_conf ≡ some (http_of c))
      × (g.database ≡ db)
      × (g.wallet_conf ≡ some w)
      × (g.log_level ≡ cf.log_level)
      × Logged o cf g
unfolding configure
configure_lem o cf c w db has_http has_wallet is_open =
    let g = (init_databases o c cf start_globals).1 in
    ground (
      arith,
      has_http,
      has_wallet,
      databases_lem o cf c db has_http is_open,
      databases-Quiet o cf c has_http,
      set_log_level_lem o cf.log_level cf.log_file (record g { wallet_conf = cf.w_conf }),
    )

-- The service's part and the configuration with the port that the command line may give.
abbrev on_port : String → HttpCfg → HttpCfg
on_port port c = record c { http_port = or_default c.http_port port }

abbrev ported : String → Config → HttpCfg → Config
ported port cf c = record cf { http_cfg = some (on_port port c) }

port_override_lem :
    (port : String) (cf : Config) (c : HttpCfg) (g : Globals)
    → cf.http_cfg ≡ some c
    → port_override port cf g ≡ (ok (ported port cf c), g)
unfolding port_override
port_override_lem port cf c g has_http = elim (Bool-cases (is_empty port)) [
  | inl given ↦ ground (arith, has_http, given)
  | inr not_given ↦ ground (arith, has_http, not_given)
]

init_config-configure :
    (o : Outside) (port fil_name : String) (cf : Config) (c : HttpCfg)
    → read_config o fil_name ≡ ok (some cf)
    → cf.http_cfg ≡ some c
    → init_config o port fil_name start_globals ≡ configure o (ported port cf c) start_globals
unfolding init_config
init_config-configure o port fil_name cf c reads has_http =
    ground (arith, reads, port_override_lem port cf c start_globals has_http)

-- Where the file is read and its JSON text has the service's part and the wallet's, and the database
-- of its type opens, the start succeeds, and leaves the file's configuration: the port is the command
-- line's, where it gives one, and an empty debug port is 8887, also in the configuration that is
-- returned; the database is the one the type names,
-- and none for an unknown type; the logger is made for the file's log file, or server.log where it
-- names none, and the file's level, or debug where zerolog does not know it, which is also the level
-- of zerolog where it does.
pub init_config_lem :
    (o : Outside) (port fil_name : String) (cf : Config) (c : HttpCfg) (w : WConf)
    (db : Option Opened)
    → read_config o fil_name ≡ ok (some cf)
    → cf.http_cfg ≡ some c
    → cf.w_conf ≡ some w
    → opened o cf c ≡ ok db
    → let (r, g) = init_config o port fil_name start_globals in
      (r ≡ ok (record cf { http_cfg = some (served port c) })) × Configured o port cf c w db g
init_config_lem o port fil_name cf c w db reads has_http has_wallet is_open = ground (
  arith,
  init_config-configure o port fil_name cf c reads has_http,
  configure_lem o (ported port cf c) (on_port port c) w db refl has_wallet is_open,
)
