-- ===== src/Service/Pages.antt =====
-- The endpoints of service/http_srv.go that are not behind `callFunc`: the activation link, the
-- uninstall page, the server's address, the keep-alives, and the debug server's four.
use contact_server.Base.{
  ℕ, ◌%◌, String, Bool, true, false, List, [], ◌∷◌, is_empty, if◌then◌else◌, Error, plain,
  error_text, Result, Exec, pure, raise, lift, branch, ◌>>=◌,
}
use contact_server.Common.{BMailAccount, EmailReflect}
use contact_server.Proto.{AccountOperation}
use contact_server.Wallet.Links.{verify_activation_link}
use contact_server.Service.Database.{Database}
use contact_server.Service.Levels.{check_rights_of_action, user_level_free}
use contact_server.Service.World.{Process, World, on_db, unix_now}
use contact_server.Service.Http.{
  status_ok, status_bad_request, status_unauthorized, status_internal_server_error,
}

-- The text of the page and its status; `http.Error` and a plain page differ in nothing else here.
pub record Page : Type 0 where
  pub code : ℕ
  pub content : String

abbrev pub page : ℕ → String → Page
page code content = record { code = code; content = content }

-- `Rsp` of service/http_obj.go as the debug server writes it: its payload is an account, a
-- reflection, the JSON text of an account, or none.
pub data Payload : Type 0 where
  nothing : Payload
  account : BMailAccount → Payload
  reflect : EmailReflect → Payload
  account_text : BMailAccount → Payload
  text : String → Payload

pub record Rsp : Type 0 where
  pub success : Bool
  pub message : String
  pub payload : Payload

abbrev pub json_ok : Payload → Rsp
json_ok payload = record { success = true; message = ""; payload = payload }

-- `int8(x)` of an `int32`, on bit patterns.
unfoldable pub int8_of_int32 : ℕ → ℕ
int8_of_int32 x = x % 256

module _ (db : Database) (p : Process) where
  -- `if err != nil { http.Error(w, …) ; return }` behind a call.
  abbrev or_page :
      {A : Type 0}
      → Exec (World db.State) A
      → ℕ
      → String
      → (A → Exec (World db.State) Page)
      → Exec (World db.State) Page
  or_page m code content f = branch m f (λ _. pure (page code content))

  -- The same where the page is the text of the error.
  abbrev or_error_page :
      {A : Type 0}
      → Exec (World db.State) A
      → ℕ
      → (A → Exec (World db.State) Page)
      → Exec (World db.State) Page
  or_error_page m code f = branch m f (λ e. pure (page code (error_text e)))

  -- `ActiveVerify`, from the query's `token` and `signature`, "" where it has none.
  unfoldable pub active_verify : String → String → Exec (World db.State) Page
  active_verify token signature =
      if is_empty token
      then pure (page status_bad_request "Missing token parameter")
      else if is_empty signature
      then pure (page status_bad_request "Missing signature parameter")
      else or_page (on_db (db.get_active_link token)) status_bad_request "Active link not found"
          λ link. unix_now >>= λ now.
            or_error_page
              (lift (verify_activation_link p.crypto p.admin p.sig_data now link signature))
              status_unauthorized
              λ _.
                or_page (on_db (db.active_account link.address user_level_free)) status_bad_request
                  "Active Account failed"
                  λ _.
                    or_error_page (on_db (check_rights_of_action db link.address))
                      status_bad_request
                      λ _.
                        or_page (on_db (db.update_binding link.address link.email))
                          status_bad_request "Update binding relationship failed"
                          λ _.
                            or_page (on_db (db.remove_active_link token)) status_bad_request
                              "delete active link failed"
                              λ _. pure (page status_ok "Action completed success!")

  -- `UninstallByUser`, from the query's `address`.
  unfoldable pub uninstall_by_user : String → Exec (World db.State) Page
  uninstall_by_user address =
      if is_empty address
      then pure (page status_bad_request "Missing token parameter")
      else or_page (on_db (db.uninstall_by_user address)) status_internal_server_error
          "uninstall from database failed" λ _. pure (page status_ok "Uninstall Success!")

module _ (db : Database) where
  -- The four debug handlers: `WriteJsonError` or `WriteJsonRequest` of the answer.
  abbrev json_error : Error → Exec (World db.State) (ℕ × Rsp)
  json_error e = pure (
    status_internal_server_error,
    record { success = false; message = error_text e; payload = nothing },
  )

  abbrev json : Payload → Exec (World db.State) (ℕ × Rsp)
  json payload = pure (status_ok, json_ok payload)

  unfoldable pub query_user_level : Result AccountOperation → Exec (World db.State) (ℕ × Rsp)
  query_user_level body =
      branch (lift body)
        (λ action.
          branch (on_db (db.query_account action.address)) (λ acc. json (account acc)) json_error)
        json_error

  abbrev first_email : List String → Exec (World db.State) String
  first_email [] = raise (plain "no email address found")
  first_email (e ∷ rest) = pure e

  unfoldable pub query_email_reflect : Result AccountOperation → Exec (World db.State) (ℕ × Rsp)
  query_email_reflect body =
      branch
        (do
          action ← lift body
          email ← first_email action.emails
          on_db (db.query_reflect_by_one_email email))
        (λ acc. json (reflect acc)) json_error

  unfoldable pub delete_user : Result AccountOperation → Exec (World db.State) (ℕ × Rsp)
  delete_user body =
      branch (do action ← lift body; on_db (db.delete_account action.address)) (λ _. json (text ""))
        json_error

  unfoldable pub update_user_level : Result AccountOperation → Exec (World db.State) (ℕ × Rsp)
  unfolding int8_of_int32
  update_user_level body =
      branch
        (do
          action ← lift body
          on_db (db.update_account_level action.address (int8_of_int32 action.user_level)))
        (λ _. json nothing) json_error
