-- ===== src/Service/Router/Access.antt =====
-- Which requests to the public server may change its state.
use contact_server.Base.{String, ◌≡◌, ◌⊎◌, inl, inr, some, Option-cases, ok, arith}
use contact_server.Proto.{BmReq, Bytes}
use contact_server.Proto.Verify.{verify_proto}
use contact_server.Service.Database.{Database}
use contact_server.Service.World.{Process, World}
use contact_server.Service.Http.Signed.{call_func_authentic}
use contact_server.Service.Router.{
  Action, query_by_email_array, query_account, account_active, bind_account, unbind_account,
  active_by_email, decrypt_by_admin, Endpoint, keep_alive, keep_alive2, active_link, admin_address,
  uninstall_user, signed, method_get, method_post, routes, IsTaken, Mux, IsMux, HttpRequest,
  handler_of, handle, serve,
}

-- The paths under which the service offers what a signed request asks for.
abbrev Offers : String → Action → Type 0
Offers path query_by_email_array = path ≡ "/query_by_email_array"
Offers path query_account = path ≡ "/query_account"
Offers path account_active = (path ≡ "/account_active") ⊎ (path ≡ "/account_create")
Offers path bind_account = path ≡ "/bind_account"
Offers path unbind_account = path ≡ "/unbind_account"
Offers path active_by_email = path ≡ "/active_by_email"
Offers path decrypt_by_admin = path ≡ "/decrypt_by_admin"

-- What a registered route says of the request.
abbrev Fits : Endpoint → String → String → Type 0
Fits (signed action) method path = (method ≡ method_post) × Offers path action
Fits active_link method path = path ≡ "/active_verify"
Fits uninstall_user method path = (method ≡ method_get) × (path ≡ "/uninstall_user")
Fits _ method path = Unit

IsTaken-Fits :
    (method path : String) (e : Endpoint) → IsTaken routes method path e → Fits e method path
unfolding routes
IsTaken-Fits method path keep_alive t = tt
IsTaken-Fits method path keep_alive2 t = tt
IsTaken-Fits method path admin_address t = tt
IsTaken-Fits method path active_link t = ground (arith, t)
IsTaken-Fits method path uninstall_user t = ground (arith, t)
IsTaken-Fits method path (signed query_by_email_array) t = ground (arith, t)
IsTaken-Fits method path (signed query_account) t = ground (arith, t)
IsTaken-Fits method path (signed account_active) t = ground (arith, t)
IsTaken-Fits method path (signed bind_account) t = ground (arith, t)
IsTaken-Fits method path (signed unbind_account) t = ground (arith, t)
IsTaken-Fits method path (signed active_by_email) t = ground (arith, t)
IsTaken-Fits method path (signed decrypt_by_admin) t = ground (arith, t)

module _ (m : Mux) (M : IsMux m) (db : Database) (p : Process) (r : HttpRequest)
    (s : World db.State) where
  abbrev after : World db.State
  after = (serve db p m r s).1

  -- A POST whose body decodes to a request with an accepted signature, and the state that the
  -- handler of the action offered under its path leaves.
  abbrev pub IsSigned : Type 0
  IsSigned =
      (r.method ≡ method_post)
      × ((action : Action) × (request : BmReq) × (b : Bytes) × Offers r.path action
          × (r.body ≡ ok b)
          × (p.codec.unmarshal_request b ≡ ok request)
          × (verify_proto p.crypto request ≡ ok tt)
          × (after ≡ (handler_of db p action request s).1))

  abbrev pub MayChange : Type 0
  MayChange =
      (after ≡ s)
      ⊎ ((r.path ≡ "/active_verify")
          ⊎ (((r.method ≡ method_get) × (r.path ≡ "/uninstall_user")) ⊎ IsSigned))

  endpoint_may :
      (e : Endpoint)
      → m.dispatch routes r.method r.path ≡ some e
      → Fits e r.method r.path
      → MayChange
  unfolding serve handle
  endpoint_may keep_alive d f = inl (ground (arith, d))
  endpoint_may keep_alive2 d f = inl (ground (arith, d))
  endpoint_may admin_address d f = inl (ground (arith, d))
  endpoint_may active_link d f = inr (inl f)
  endpoint_may uninstall_user d f = inr (inr (inl f))
  endpoint_may (signed action) d f =
      elim (call_func_authentic p (handler_of db p action) r.body s) [
        | inl (same, _) ↦ inl (ground (arith, d, same))
        | inr (request, (b, got, decoded, verified), left) ↦ inr (
            inr (
              inr
                (f.0, (action, request, b, f.1, got, decoded, verified, ground (arith, d, left)))))
      ]

  -- With a router that finds registered routes only, a request to the public server changes no
  -- state, or its path is that of the activation link, or it is a GET of the uninstall page, or it
  -- is a POST whose body holds a request with an accepted signature, and the state is what the
  -- handler of the action that its path is for makes of that request.
  pub serve-MayChange : MayChange
  unfolding serve
  serve-MayChange = elim (Option-cases (m.dispatch routes r.method r.path)) [
    | inl unrouted ↦ inl (ground (arith, unrouted))
    | inr (e, d) ↦
        endpoint_may e d (IsTaken-Fits r.method r.path e (M.registered routes r.method r.path e d))
  ]
