-- ===== src/Tests/Starting.antt =====
-- The start of the process at concrete configurations.
use contact_server.Base.{
  ◌≡◌, refl, ◌==◌, if◌then◌else◌, text_dec, true, false, none, some, pos, ok, err, plain,
}
use contact_server.Wallet.Links.{WConf}
use contact_server.Startup.{Config, HttpCfg, Outside, level_db, start_globals}
use contact_server.Startup.Started.{main_run_lem}
use contact_server.Wallet.Keys.{key_of, to_wallet}
use contact_server.Tests.Requests.{key_bytes}
use contact_server.Tests.Wallets.{
  aes, aes-IsLawful, maker, stored, the_wallet, key-IsBytes, is_stored,
}
use contact_server.Startup.Main.{StartParam, main_run, init_config}
use contact_server.Startup.Configured.{Configured, init_config_lem}
use contact_server.Startup.Refused.{has_panicked, init_config_panics}

abbrev pub an_http : HttpCfg
an_http = record {
  check_signature = true;
  http_host = "";
  debug_port = "8887";
  http_port = "8001";
  refresh_content = false;
  use_https = false;
  ssl_cert_file = "";
  ssl_key_file = "";
  session_key = "";
  session_max_age = pos 0;
  database_typ = pos 2;
}

abbrev a_wallet : WConf
a_wallet = record {
  wallet_path = "wallet.json";
  wallet_auth = "secret";
  smtp_host = "";
  smtp_port = pos 25;
  e_mail = "";
  e_password = "";
}

abbrev a_config : Config
a_config = record {
  log_level = "info";
  log_file = "";
  js_env = "";
  http_cfg = some an_http;
  fs_cfg = none;
  lb_cfg = some (record { db_path = "elsewhere" });
  redis_cfg = none;
  w_conf = some a_wallet;
}

abbrev outside : Config → Outside
outside cf = record {
  read_file = λ name. ok "{}";
  unmarshal_config = λ json. ok (some cf);
  open_firestore = λ c. err (plain "no firestore");
  open_level_db = λ path. ok tt;
  parse_level = λ text. if text == "info" then some (pos 1) else none;
  debug_level = pos 0;
}

-- A file that names no debug port.
abbrev portless : HttpCfg
portless = record an_http { debug_port = "" }

abbrev short_config : Config
short_config = record a_config { http_cfg = some portless }

init_config_lem_example :
    let (r, g) = init_config (outside short_config) "9000" "config.json" start_globals in
    (r ≡ ok (record short_config { http_cfg = some (record an_http { http_port = "9000" }) }))
    × Configured
        (outside short_config)
        "9000"
        short_config
        portless
        a_wallet
        (some (level_db "database"))
        g
unfolding text_dec
init_config_lem_example =
    init_config_lem (outside short_config) "9000" "config.json" short_config portless a_wallet
      (some (level_db "database")) refl refl refl refl

-- Redis is asked for, and the file says nothing of it.
abbrev lacking : Config
lacking = record a_config { http_cfg = some (record an_http { database_typ = pos 3 }) }

init_config_panics_example :
    has_panicked ((init_config (outside lacking) "" "config.json" start_globals).0) ≡ true
init_config_panics_example = init_config_panics (outside lacking) "" "config.json" refl

abbrev a_param : StartParam
a_param = record { version = false; config = "config.json"; port = "9000" }

main_run_lem_example :
    let (r, g) = main_run (outside a_config) (maker stored) aes (ok tt) a_param start_globals in
    (r ≡ ok (some (record the_wallet { key = some (key_of (maker stored) key_bytes) })))
    × Configured (outside a_config) "9000" a_config an_http a_wallet (some (level_db "database")) g
unfolding text_dec to_wallet
main_run_lem_example =
    main_run_lem (maker stored) aes (outside a_config) aes-IsLawful key_bytes 5 a_param a_config
      an_http a_wallet (some (level_db "database")) the_wallet "{}" refl refl refl refl refl
      key-IsBytes refl is_stored refl is_stored
