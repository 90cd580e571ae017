-- ===== src/Tests/Serving.antt =====
-- The public server and the debug server at concrete requests, over the Firestore in memory.
use contact_server.Base.{
  ◌≡◌, refl, String, List, [], ◌∷◌, Option, none, some, ok, arith, if◌then◌else◌,
}
use contact_server.Service.Stores.{firestore_database}
use contact_server.Service.Router.{Route, Endpoint, IsTaken, takes, Mux, IsMux, HttpRequest}
use contact_server.Service.Router.Access.{MayChange, serve-MayChange}
use contact_server.Service.Debug.{Wire}
use contact_server.Service.Debug.Tool.{StartParam, Told, tool_request, main_run, main_run_update}
use contact_server.Tests.Memory.{memory}
use contact_server.Tests.Starting.{an_http}
use contact_server.Tests.Requests.{process, world}

-- The first route that takes a request.
abbrev pub first : List Route → String → String → Option Endpoint
first [] method path = none
first (r ∷ rs) method path = if takes r method path then some r.endpoint else first rs method path

first-IsTaken :
    (rs : List Route) (method path : String) (e : Endpoint)
    → first rs method path ≡ some e
    → IsTaken rs method path e
first-IsTaken [] method path e h = absurd (ground (arith, h))
first-IsTaken (r ∷ rs) method path e h = ground (arith, h, first-IsTaken rs method path e)

abbrev pub mux : Mux
mux = record { dispatch = first; unrouted = λ method path. 404; recovered = λ m. 500 }

mux-IsMux : IsMux mux
mux-IsMux = record { registered = first-IsTaken }

abbrev pub a_post : HttpRequest
a_post = record { method = "POST"; path = "/bind_account"; query = λ name. ""; body = ok [] }

serve-MayChange_example : MayChange mux mux-IsMux (firestore_database memory) process a_post world
serve-MayChange_example =
    serve-MayChange mux mux-IsMux (firestore_database memory) process a_post world

-- Level -1.
abbrev a_param : StartParam
a_param = record {
  level = 255;
  address = "BM1";
  action = 1;
  local_path = "";
  debug_port = "8887";
  email = "";
}

abbrev wire : Wire
wire = record { unmarshal_operation = λ b. ok (tool_request a_param); marshal_operation = λ o. [] }

main_run_update_example :
    let (r, d) = (firestore_database memory).update_account_level "BM1" 255 world.db in
    ((main_run wire an_http (firestore_database memory) a_param world).1 ≡ record world { db = d })
    × Told r (main_run wire an_http (firestore_database memory) a_param world).0
main_run_update_example =
    main_run_update wire an_http (firestore_database memory) a_param world refl refl refl
      (omega arith) refl
