-- ===== src/Service/Server.antt =====
-- Serial runs of the public server of service/http_srv.go: requests to its public routes, the clock,
-- and the goroutines that handlers have started, in any order, each alone and from its start to its
-- end. The server itself runs them concurrently, and the debug server beside them: of that, these
-- runs say nothing.
pub mod Keeping
use contact_server.Base.{ℕ, String, Bool, ◌≡◌, List, ◌∷◌, ◌++◌, ok}
use contact_server.Common.{ActiveLinkData}
use contact_server.Proto.{BindAction}
use contact_server.Service.Database.{Database}
use contact_server.Service.World.{Process, World, Task, send_bind_confirm_mail, send_active_mail}
use contact_server.Service.Actions.{run_bind_confirm}
use contact_server.Service.Router.{Mux, HttpRequest, serve}

module _ (db : Database) (p : Process) (m : Mux) where
  -- A mail changes no state of the server. A panic of a goroutine ends the process, so one that
  -- has run has returned; a handler's panic is caught by `middleware.Recoverer`.
  pub data Event (s : World db.State) : World db.State → Type 0 where
    requested : (r : HttpRequest) → Event s (serve db p m r s).1
    passed : (t : ℕ) → Event s (record s { now = t })
    confirmed :
        (before after : List Task) (action : BindAction) (is_unbind : Bool)
        → s.spawned ≡ before ++ (send_bind_confirm_mail action is_unbind ∷ after)
        → (run_bind_confirm db p action is_unbind (record s { spawned = before ++ after })).0
          ≡ ok tt
        → Event s
            (run_bind_confirm db p action is_unbind (record s { spawned = before ++ after })).1
    mailed :
        (before after : List Task) (link : ActiveLinkData) (subject body : String)
        (is_unbind : Bool)
        → s.spawned ≡ before ++ (send_active_mail link subject body is_unbind ∷ after)
        → Event s (record s { spawned = before ++ after })

  -- The states between the events of a serial run.
  pub data SerialRun (s : World db.State) : World db.State → Type 0 where
    idle : SerialRun s s
    on : {t u : World db.State} → SerialRun s t → Event t u → SerialRun s u
