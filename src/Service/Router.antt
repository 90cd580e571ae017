-- ===== src/Service/Router.antt =====
-- `NewHttpService` of service/http_srv.go: the routes of the public server and what stands behind
-- them. The router of chi is the parameter `Mux`.
pub mod Access
use contact_server.Base.{
  ℕ, String, ◌≡◌, ◌≢◌, ◌⊎◌, Bool, true, false, ◌&&◌, ◌||◌, ◌==◌, List, [], ◌∷◌, Option, none, some,
  Result, ok, err, panic, Exec, pure, lift, branch, ◌>>=◌, if◌then◌else◌,
}
use contact_server.Common.{BMailAccount, empty_account}
use contact_server.Proto.{Bytes, BmReq, BmRsp}
use contact_server.Wallet.Links.{active_veryfy_url}
use contact_server.Wallet.Keys.{MailAddr, pointed}
use contact_server.Service.Database.{Database}
use contact_server.Service.World.{Process, World}
use contact_server.Service.Actions
use contact_server.Service.Http.{
  Writer, no_response, write_proto_response, call_func, status_ok, status_internal_server_error,
}
use contact_server.Service.Pages.{
  Page, Rsp, json_ok, account_text, active_verify, uninstall_by_user,
}

-- The handlers behind `callFunc`.
pub data Action : Type 0 where
  query_by_email_array : Action
  query_account : Action
  account_active : Action
  bind_account : Action
  unbind_account : Action
  active_by_email : Action
  decrypt_by_admin : Action

pub data Endpoint : Type 0 where
  keep_alive : Endpoint
  keep_alive2 : Endpoint
  active_link : Endpoint
  admin_address : Endpoint
  uninstall_user : Endpoint
  signed : Action → Endpoint

-- `http.MethodGet` and `http.MethodPost`.
abbrev pub method_get : String
method_get = "GET"

abbrev pub method_post : String
method_post = "POST"

-- `HandleFunc` takes every method, `MethodFunc` the one that it names.
pub record Route : Type 0 where
  pub method : Option String
  pub path : String
  pub endpoint : Endpoint

abbrev handle_func : String → Endpoint → Route
handle_func path endpoint = record { method = none; path = path; endpoint = endpoint }

abbrev method_func : String → String → Endpoint → Route
method_func method path endpoint = record { method = some method; path = path; endpoint = endpoint }

unfoldable pub routes : List Route
routes =
    handle_func "/" keep_alive
    ∷ handle_func "/keep_alive" keep_alive
    ∷ handle_func "/keep_alive2" keep_alive2
    ∷ handle_func active_veryfy_url active_link
    ∷ handle_func "/admin_address" admin_address
    ∷ method_func method_post "/query_by_email_array" (signed query_by_email_array)
    ∷ method_func method_post "/query_account" (signed query_account)
    ∷ method_func method_post "/account_active" (signed account_active)
    ∷ method_func method_post "/account_create" (signed account_active)
    ∷ method_func method_post "/bind_account" (signed bind_account)
    ∷ method_func method_post "/unbind_account" (signed unbind_account)
    ∷ method_func method_post "/active_by_email" (signed active_by_email)
    ∷ method_func method_post "/decrypt_by_admin" (signed decrypt_by_admin)
    ∷ method_func method_get "/uninstall_user" uninstall_user
    ∷ []

-- What a route says of a request.
abbrev pub takes_method : Option String → String → Bool
takes_method none method = true
takes_method (some m) method = m == method

abbrev pub takes : Route → String → String → Bool
takes r method path = r.path == path && takes_method r.method method

-- A route of the list that takes a request.
abbrev pub IsTaken : List Route → String → String → Endpoint → Type 0
IsTaken [] method path e = ⊥
IsTaken (r ∷ rs) method path e =
    ((takes r method path ≡ true) × (r.endpoint ≡ e)) ⊎ IsTaken rs method path e

pub data Response : Type 0 where
  written : Writer → Response
  page_of : Page → Response
  json_of : ℕ → Rsp → Response
  address_of : MailAddr → Response
  failed : ℕ → Response

-- The router: `unrouted` is its answer where no route takes a request, `recovered` what its
-- `Recoverer` makes of a panic.
pub record Mux : Type 0 where
  pub dispatch : List Route → String → String → Option Endpoint
  pub unrouted : String → String → ℕ
  pub recovered : String → ℕ

-- It finds a registered route that takes the request; the paths here hold no pattern.
pub record IsMux (m : Mux) : Type 0 where
  pub registered :
      (rs : List Route) (method path : String) (e : Endpoint)
      → m.dispatch rs method path ≡ some e
      → IsTaken rs method path e

-- The parts of a request that the handlers read.
pub record HttpRequest : Type 0 where
  pub method : String
  pub path : String
  pub query : String → String
  pub body : Result Bytes

-- The body of `keepAlive`: an account of three emails, as a JSON text.
abbrev pub sample_account : BMailAccount
sample_account = record empty_account { e_mail_address = "ri" ∷ "ben" ∷ "con" ∷ [] }

module _ (db : Database) (p : Process) where
  unfoldable pub handler_of : Action → BmReq → Exec (World db.State) BmRsp
  handler_of query_by_email_array = Actions.query_reflect_by_email_array db p
  handler_of query_account = Actions.query_account db p
  handler_of account_active = Actions.account_active db p
  handler_of bind_account = Actions.bind_account db p
  handler_of unbind_account = Actions.unbind_account db p
  handler_of active_by_email = Actions.active_by_email db p
  handler_of decrypt_by_admin = Actions.decrypt_by_admin db p

  abbrev responding :
      {A : Type 0} → (A → Response) → Exec (World db.State) A → Exec (World db.State) Response
  responding f m = m >>= λ a. pure (f a)

  -- `AdminAddress`: the address of the server's wallet.
  abbrev admin_address_page : Exec (World db.State) Response
  admin_address_page = responding address_of (lift (pointed p.admin.address))

  -- What stands behind a route, with `keepAlive` and `keepAlive2` written out.
  unfoldable pub handle : Endpoint → HttpRequest → Exec (World db.State) Response
  handle keep_alive r = pure (json_of status_ok (json_ok (account_text sample_account)))
  handle keep_alive2 r = pure (
      written
        (write_proto_response p (record { success = true; msg = ""; payload = [] }) no_response))
  handle active_link r =
      responding page_of (active_verify db p (r.query "token") (r.query "signature"))
  handle admin_address r = admin_address_page
  handle uninstall_user r = responding page_of (uninstall_by_user db p (r.query "address"))
  handle (signed action) r = responding written (call_func p (handler_of action) r.body)

  module _ (m : Mux) where
    abbrev answer : Result Response × World db.State → Response × World db.State
    answer (ok x, s) = (x, s)
    answer (err e, s) = (failed status_internal_server_error, s)
    answer (panic w, s) = (failed (m.recovered w), s)

    -- One request to the public server: its response and the state that it leaves.
    unfoldable pub serve : HttpRequest → World db.State → Response × World db.State
    serve r s = elim (m.dispatch routes r.method r.path) [
      | none ↦ (failed (m.unrouted r.method r.path), s)
      | some e ↦ answer (handle e r s)
    ]
