-- ===== src/Service/Debug/Tool.antt =====
-- db/db_tool/dbtool.go against the debug server: what the command line asks is what the server does.
use contact_server.Base.{
  ℕ, ◌<◌, ◌≡◌, refl, String, false, [], ◌∷◌, Option, none, some, Result, ok, err, panic, Exec, pure,
  arith, eqb, if◌then◌else◌, ◌==◌, ◌<>◌, is_empty, text_dec, error_text, Result-cases, inl, inr,
}
use contact_server.Startup.{HttpCfg}
use contact_server.Proto.{Bytes, AccountOperation}
use contact_server.Service.Database.{Database}
use contact_server.Service.World.{World}
use contact_server.Service.Actions.{int32_of_int8}
use contact_server.Service.Pages.{Rsp, json_ok, nothing, int8_of_int32, update_user_level}
use contact_server.Service.Http.{status_ok, status_internal_server_error}
use contact_server.Service.Debug.{Wire, debug_addr, debug_route, serve_debug, update_level}

-- `level` is the bit pattern of an `int8`; `action` is the number after `-t`, not negative here.
pub record StartParam : Type 0 where
  pub level : ℕ
  pub address : String
  pub action : ℕ
  pub local_path : String
  pub debug_port : String
  pub email : String

-- The path of an action; any other leaves the URL empty.
unfoldable pub api_of : ℕ → Option String
api_of action =
    if eqb action 0
    then some "/query_user_level"
    else if eqb action 1
    then some "/update_user_level"
    else if eqb action 2
    then some "/delete_user_level"
    else if eqb action 3
    then some "/query_by_email"
    else none

unfoldable pub tool_request : StartParam → AccountOperation
unfolding int32_of_int8
tool_request param = record {
  is_del = false;
  address = param.address;
  emails = param.email ∷ [];
  user_level = int32_of_int8 param.level;
}

-- The reply to a change of level.
abbrev pub Told : Result (Unit {0}) → Result (Option (ℕ × Rsp)) → Type 0
Told (ok _) x = x ≡ ok (some (status_ok, json_ok nothing))
Told (err e) x =
    x
    ≡ ok (
        some (
          status_internal_server_error,
          record { success = false; message = error_text e; payload = nothing },
        ))
Told (panic w) x = x ≡ ok none

module _ (wire : Wire) (c : HttpCfg) (db : Database) where
  abbrev recovered :
      Exec (World db.State) (Option (ℕ × Rsp)) → Exec (World db.State) (Option (ℕ × Rsp))
  recovered m s =
      let (r, s') = m s in
      elim r [ ok reply ↦ (ok reply, s') | err e ↦ (err e, s') | panic w ↦ (ok none, s') ]

  -- `DoHttp` to an address of this machine, where only the debug server of `c` listens: the reply of
  -- any status, or none where the network fails, or where the server's `Recoverer` has met a panic
  -- and the reply is empty.
  unfoldable pub do_http : String → String → Bytes → Exec (World db.State) (Option (ℕ × Rsp))
  do_http addr path body =
      if addr == debug_addr c then recovered (serve_debug wire db path (ok body)) else pure none

  -- `mainRun`: what it prints of the debug server's reply. A local path has it print that database, and
  -- an empty URL reaches no server.
  unfoldable pub main_run : StartParam → Exec (World db.State) (Option (ℕ × Rsp))
  unfolding api_of tool_request do_http
  main_run param =
      if is_empty param.local_path
      then elim (api_of param.action) [
        | none ↦ pure none
        | some path ↦
            do_http ("127.0.0.1:" <> param.debug_port) path
              (wire.marshal_operation (tool_request param))
      ]
      else pure none

  update_routed : debug_route "/update_user_level" ≡ some update_level
  unfolding debug_route text_dec
  update_routed = refl

  -- An `int8` that travels as an `int32` comes back.
  int8_of_int32-int32_of_int8 : (l : ℕ) → l < 256 → int8_of_int32 (int32_of_int8 l) ≡ l
  unfolding int8_of_int32 int32_of_int8
  int8_of_int32-int32_of_int8 l h = ground arith

  -- Where JSON reads back an operation that it wrote, the tool's action 1 at the port of the debug
  -- server, without a local path, leaves the database as
  -- `UpdateAccountLevel` of its address and its level, negative ones included, leaves it, and the
  -- reply says success exactly where that returns no error.
  pub main_run_update :
      (param : StartParam) (s : World db.State)
      → param.action ≡ 1
      → param.local_path ≡ ""
      → param.debug_port ≡ c.debug_port
      → param.level < 256
      → wire.unmarshal_operation (wire.marshal_operation (tool_request param))
        ≡ ok (tool_request param)
      → let (r, d) = db.update_account_level param.address param.level s.db in
        ((main_run param s).1 ≡ record s { db = d }) × Told r (main_run param s).0
  unfolding main_run api_of tool_request do_http serve_debug update_user_level
  main_run_update param s one remote port small stored =
      elim (Result-cases (db.update_account_level param.address param.level s.db).0) [
        | inl (_, e) ↦ ground (
          arith,
          one,
          remote,
          port,
          stored,
          update_routed,
          int8_of_int32-int32_of_int8 param.level small,
          e,
        )
        | inr (inl (_, e)) ↦ ground (
          arith,
          one,
          remote,
          port,
          stored,
          update_routed,
          int8_of_int32-int32_of_int8 param.level small,
          e,
        )
        | inr (inr (_, e)) ↦ ground (
          arith,
          one,
          remote,
          port,
          stored,
          update_routed,
          int8_of_int32-int32_of_int8 param.level small,
          e,
        )
      ]
