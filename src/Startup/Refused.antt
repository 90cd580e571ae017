-- ===== src/Startup/Refused.antt =====
-- What `initConfig` of config.go needs: a start that succeeds has found it.
use contact_server.Base.{
  String, Bool, true, false, ◌&&◌, Option, none, some, Option-cases, Result, Result-cases, ok, err,
  panic, ◌>>=◌, ◌>>◌, ◌≡◌, refl, arith, inl, inr,
}
use contact_server.Startup.{
  Config, HttpCfg, start_globals, Outside, or_panic, follow, init_firestore, init_redis,
  init_level_db, init_http, firestore_inst, redis_inst, level_db_inst,
}
use contact_server.Startup.Main.{
  read_config, init_database, init_databases, configure, init_config, port_override,
}
use contact_server.Startup.Chosen.{opened, databases_lem}

abbrev pub has_panicked : {A : Type 0} → Result A → Bool
has_panicked (ok a) = false
has_panicked (err e) = false
has_panicked (panic w) = true

abbrev is_ok : {A : Type 0} → Result A → Bool
is_ok (ok a) = true
is_ok (err e) = false
is_ok (panic w) = false

abbrev is_some : {A : Type 0} → Option A → Bool
is_some none = false
is_some (some a) = true

abbrev has_parts : Outside → Config → Bool
has_parts o cf = elim cf.http_cfg [
  | none ↦ false
  | some c ↦ is_some cf.w_conf && is_ok (opened o cf c)
]

-- A file as it was read has what the start needs.
abbrev pub is_complete : Outside → Result (Option Config) → Bool
is_complete o (ok (some cf)) = has_parts o cf
is_complete o (ok none) = false
is_complete o (err e) = false
is_complete o (panic w) = false

chosen_panics :
    (o : Outside) (cf : Config) (c : HttpCfg)
    → is_ok (opened o cf c) ≡ false
    → has_panicked (((init_database o c cf >> init_http o (some c)) start_globals).0) ≡ true
unfolding init_database init_http init_firestore init_redis init_level_db firestore_inst redis_inst
    level_db_inst
chosen_panics o cf c bad = ground arith

databases_panics :
    (o : Outside) (cf : Config) (c : HttpCfg)
    → cf.http_cfg ≡ some c
    → is_ok (opened o cf c) ≡ false
    → has_panicked ((init_databases o c cf start_globals).0) ≡ true
unfolding init_databases
databases_panics o cf c has_http bad = rw has_http (chosen_panics o cf c bad)

configure_panics :
    (o : Outside) (cf : Config)
    → has_parts o cf ≡ false
    → has_panicked ((configure o cf start_globals).0) ≡ true
unfolding configure
configure_panics o cf lacks = elim (Option-cases cf.http_cfg) [
  | inl no_http ↦ ground (arith, no_http)
  | inr (c, has_http) ↦ elim (Result-cases (opened o cf c)) [
    | inl (db, is_open) ↦ ground (arith, databases_lem o cf c db has_http is_open)
    | inr closed ↦ ground (arith, closed, databases_panics o cf c has_http)
  ]
]

port_panics :
    (o : Outside) (port : String) (cf : Config)
    → has_parts o cf ≡ false
    → has_panicked (((port_override port cf >>= configure o) start_globals).0) ≡ true
unfolding port_override
port_panics o port cf lacks = elim (Option-cases cf.http_cfg) [
  | inl no_http ↦ ground (arith, no_http, configure_panics o cf lacks)
  | inr (c, has_http) ↦
      let parts : has_parts o (record cf { http_cfg = some (record c { http_port = port }) })
          ≡ false =
        ground (arith, has_http, lacks) in
      ground (
        arith,
        has_http,
        configure_panics o cf lacks,
        configure_panics o (record cf { http_cfg = some (record c { http_port = port }) }) parts,
      )
]

loaded_panics :
    (o : Outside) (port : String) (file : Result (Option Config))
    → is_complete o file ≡ false
    → has_panicked (
        ((do p ← or_panic file; cf ← follow p; cf' ← port_override port cf; configure o cf')
          start_globals).0)
      ≡ true
loaded_panics o port (ok (some cf)) lacks = port_panics o port cf lacks
loaded_panics o port (ok none) lacks = refl
loaded_panics o port (err e) lacks = refl
loaded_panics o port (panic w) lacks = refl

-- Without a file that can be read, the service's part of it, the wallet's, and a database of its
-- type that opens, the start panics, whatever port the command line gives.
pub init_config_panics :
    (o : Outside) (port fil_name : String)
    → is_complete o (read_config o fil_name) ≡ false
    → has_panicked ((init_config o port fil_name start_globals).0) ≡ true
unfolding init_config
init_config_panics o port fil_name = loaded_panics o port (read_config o fil_name)
