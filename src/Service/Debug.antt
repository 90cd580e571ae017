-- ===== src/Service/Debug.antt =====
-- The debug server of `Start` in service/http_srv.go with `ReadJsonRequest` of service/http_io.go,
-- and its client: `DoHttp` and db/db_tool/dbtool.go. JSON and the network are the parameter `Wire`.
pub mod Tool
use contact_server.Base.{
  ℕ, String, ◌<>◌, Bool, List, [], ◌∷◌, Option, none, some, Error, Result, ok, err, panic, Exec,
  pure, lift, ◌>>=◌, eqb, ◌==◌, if◌then◌else◌,
}
use contact_server.Proto.{Bytes, AccountOperation}
use contact_server.Service.Database.{Database}
use contact_server.Startup.{HttpCfg}
use contact_server.Service.World.{World}
use contact_server.Service.Pages.{
  Rsp, query_user_level, query_email_reflect, delete_user, update_user_level,
}

pub record Wire : Type 0 where
  pub unmarshal_operation : Bytes → Result AccountOperation
  pub marshal_operation : AccountOperation → Bytes

-- The four handlers of the debug server.
pub data DebugCall : Type 0 where
  update_level : DebugCall
  query_level : DebugCall
  delete_level : DebugCall
  query_by_email : DebugCall

-- The addresses that `Start` listens on, for the debug server and for the public one.
abbrev pub debug_addr : HttpCfg → String
debug_addr c = "127.0.0.1:" <> c.debug_port

abbrev pub http_addr : HttpCfg → String
http_addr c = c.http_host <> ":" <> c.http_port

-- `ServeTLS` with its two files, or `Serve`.
abbrev pub tls_files : HttpCfg → Option (String × String)
tls_files c = if c.use_https then some (c.ssl_cert_file, c.ssl_key_file) else none

-- The routes, each of which takes every method.
unfoldable pub debug_route : String → Option DebugCall
debug_route path =
    if path == "/update_user_level"
    then some update_level
    else if path == "/query_user_level"
    then some query_level
    else if path == "/delete_user_level"
    then some delete_level
    else if path == "/query_by_email"
    then some query_by_email
    else none

module _ (wire : Wire) where
  -- `ReadJsonRequest`: the body of a request, or the error of reading it.
  abbrev pub read_json_request : Result Bytes → Result AccountOperation
  read_json_request (ok body) = wire.unmarshal_operation body
  read_json_request (err e) = err e
  read_json_request (panic w) = panic w

  module _ (db : Database) where
    abbrev pub debug_handler : DebugCall → Result AccountOperation → Exec (World db.State) (ℕ × Rsp)
    debug_handler update_level = update_user_level db
    debug_handler query_level = query_user_level db
    debug_handler delete_level = delete_user db
    debug_handler query_by_email = query_email_reflect db

    -- A request to the debug server; no reply where nothing is routed.
    unfoldable pub serve_debug : String → Result Bytes → Exec (World db.State) (Option (ℕ × Rsp))
    unfolding debug_route
    serve_debug path body = elim (debug_route path) [
      | none ↦ pure none
      | some c ↦ debug_handler c (read_json_request body) >>= λ reply. pure (some reply)
    ]
