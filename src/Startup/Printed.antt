-- ===== src/Startup/Printed.antt =====
-- What `String` makes of each part of the configuration: config.go, service/cfg.go, the three
-- databases' config.go and wallet/wallet_inst.go.
use contact_server.Base.{
  suc, String, ◌<>◌, decimal, ℤ, pos, negsuc, Option-cases, inl, inr, ◌≡◌, refl, arith, Result, ok,
  if◌then◌else◌,
}
use mathlib.Core.Option
use contact_server.Wallet.Keys.{pointed}
use contact_server.Wallet.Address.{◌>>=ᵣ◌}
use contact_server.Wallet.Links.{WConf, bool_text}
use contact_server.Startup.{
  Config, HttpCfg, FsCfg, LbCfg, RedisCfg, data_base_type, is_typ, db_typ_firestore,
  db_typ_level_db, db_typ_redis,
}

-- `%d`
abbrev int_text : ℤ → String
int_text (pos n) = decimal n
int_text (negsuc n) = "-" <> decimal (suc n)

unfoldable fs_cfg_text : FsCfg → String
fs_cfg_text c =
    "\n------firestore config------"
    <> "\nlocal run:\t"
    <> bool_text c.local_run
    <> "\nproject id:\t"
    <> c.project_id
    <> "\ndatabase id:\t"
    <> c.database_id
    <> "\nkey path :\t"
    <> c.key_file_path
    <> "\n--------------------------"

unfoldable lb_cfg_text : LbCfg → String
lb_cfg_text c =
    "\n------level levelDB config------" <> "\ndatabase path:\t" <> c.db_path
    <> "\n--------------------------"

unfoldable redis_cfg_text : RedisCfg → String
unfolding decimal
redis_cfg_text c =
    "\n========redis config========"
    <> "\nAddress:"
    <> c.addr
    <> "\nDB NO:"
    <> int_text c.db
    <> "\nPool Size:"
    <> int_text c.pool_size
    <> "\nMin Idle Conns:"
    <> int_text c.min_idle_conns
    <> "\n============================"

unfoldable http_cfg_text : HttpCfg → String
unfolding decimal data_base_type
http_cfg_text c =
    "\n------server config------"
    <> "\nhttp host:\t"
    <> c.http_host
    <> "\nhttp port:\t"
    <> c.http_port
    <> "\ndebug port:\t"
    <> c.debug_port
    <> "\nrefresh content:\t"
    <> bool_text c.refresh_content
    <> "\ncheck signature:\t"
    <> bool_text c.check_signature
    <> "\nuse https:\t"
    <> bool_text c.use_https
    <> "\nssl cert file:\t"
    <> c.ssl_cert_file
    <> "\nssl key file:\t"
    <> c.ssl_key_file
    <> "\nsession max age:\t"
    <> int_text c.session_max_age
    <> "\ndatabase typ:\t"
    <> data_base_type c.database_typ
    <> "\n-------------------------"

unfoldable w_conf_text : WConf → String
unfolding decimal
w_conf_text c =
    "\n========wallet config========"
    <> "\nWallet Path:"
    <> c.wallet_path
    <> "\nEMail Host:"
    <> c.smtp_host
    <> "\nEMail Port:"
    <> int_text c.smtp_port
    <> "\nEMail Account:"
    <> c.e_mail
    <> "\n============================"

-- A part that is nil is followed, which panics.
unfoldable config_text : Config → Result String
unfolding http_cfg_text w_conf_text
config_text c = pointed c.http_cfg >>=ᵣ λ h. pointed c.w_conf >>=ᵣ λ w. ok (
    "\n------system config------"
    <> "\nlog level:\t"
    <> c.log_level
    <> "\nlog file:\t"
    <> c.log_file
    <> "\njs environment:\t"
    <> c.js_env
    <> "\n-------------------------"
    <> "\r\n"
    <> http_cfg_text h
    <> "\r\n"
    <> "\r\n"
    <> w_conf_text w
    <> "\r\n")

-- A configuration without its passwords and its session key.
abbrev public_wallet : WConf → WConf
public_wallet w = record w { wallet_auth = ""; e_password = "" }

abbrev public_http : HttpCfg → HttpCfg
public_http h = record h { session_key = "" }

abbrev public_redis : RedisCfg → RedisCfg
public_redis r = record r { password = "" }

abbrev public_part : Config → Config
public_part c = record c {
  http_cfg = Option.map public_http c.http_cfg;
  w_conf = Option.map public_wallet c.w_conf;
  redis_cfg = Option.map public_redis c.redis_cfg;
}

-- What `InitConf` of the database of a type prints, where its part is there.
unfoldable database_text : HttpCfg → Config → Result String
unfolding fs_cfg_text lb_cfg_text redis_cfg_text
database_text h c =
    if is_typ h.database_typ db_typ_firestore
    then (pointed c.fs_cfg >>=ᵣ λ fs. ok (fs_cfg_text fs))
    else if is_typ h.database_typ db_typ_redis
    then (pointed c.redis_cfg >>=ᵣ λ re. ok (redis_cfg_text re))
    else if is_typ h.database_typ db_typ_level_db
    then (pointed c.lb_cfg >>=ᵣ λ lb. ok (lb_cfg_text lb))
    else ok ""

database_text-public_part :
    (h : HttpCfg) (c : Config) → database_text h (public_part c) ≡ database_text h c
unfolding database_text redis_cfg_text
database_text-public_part h c = elim (Option-cases c.redis_cfg) [
  | inl no_redis ↦ ground (arith, no_redis)
  | inr (r, has_redis) ↦ ground (arith, has_redis)
]

-- What is printed of a configuration is made without its passwords and its session key.
config_text-public_part : (c : Config) → config_text (public_part c) ≡ config_text c
unfolding config_text http_cfg_text w_conf_text
config_text-public_part c = elim (Option-cases c.http_cfg) [
  | inl no_http ↦ ground (arith, no_http)
  | inr (h, has_http) ↦ elim (Option-cases c.w_conf) [
    | inl no_wallet ↦ ground (arith, has_http, no_wallet)
    | inr (w, has_wallet) ↦ rw (has_http, has_wallet) refl
  ]
]
