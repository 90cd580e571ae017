-- ===== src/Service/Server/Keeping.antt =====
-- What the calls of the database keep, every serial run of the public server keeps.
use contact_server.Base.{
  ℕ, String, Bool, List, ◌++◌, Option-cases, inl, inr, arith, Exec, Error, pure, branch, Result,
}
use contact_server.Base.Keeps.{
  Keeps, Keeps-pure, Keeps-raise, Keeps-lift, Keeps-if, Keeps-branch, Keeps-bind, Keeps-then,
  keeping,
}
use contact_server.Common.{ActiveLinkData}
use contact_server.Proto.{BmReq, BindAction, Bytes}
use contact_server.Service.Database.{Database}
use contact_server.Service.World.{Process, World, Task, on_db, spawn, new_string, unix_now}
use contact_server.Service.Levels.{user_level_free}
use contact_server.Service.Actions
use contact_server.Service.Http.{call_func}
use contact_server.Service.Http.Signed.{call_func_authentic}
use contact_server.Service.Pages
use contact_server.Service.Router.{
  Action, query_by_email_array, query_account, account_active, bind_account, unbind_account,
  active_by_email, decrypt_by_admin, Endpoint, keep_alive, keep_alive2, active_link, admin_address,
  uninstall_user, signed, Mux, HttpRequest, routes, handler_of, handle, serve,
}
use contact_server.Service.Server.{Event, requested, passed, confirmed, mailed, SerialRun, idle, on}

module _ (db : Database) (p : Process) (P : World db.State → Type 0) where
  abbrev Kept : {A : Type 0} → Exec (World db.State) A → Type 0
  Kept m = Keeps P m

  -- What the parts of the handlers keep. The operations that bind an email or make a link are given
  -- whole, since they check before they write, or write what they have drawn.
  pub record IsKept : Type 0 where
    pub reflects : (emails : List String) → Kept (on_db (db.query_reflects_by_emails emails))
    pub account : (a : String) → Kept (on_db (db.query_account a))
    pub active : (a : String) → Kept (on_db (db.active_account a user_level_free))
    pub unbinding : (a email : String) → Kept (on_db (db.delete_binding a email))
    pub uninstalling : (a : String) → Kept (on_db (db.uninstall_by_user a))
    pub mailing : (r : BmReq) → Kept (Actions.active_by_email db p r)
    pub confirming :
        (action : BindAction) (is_unbind : Bool)
        → Kept (Actions.run_bind_confirm db p action is_unbind)
    pub binding : (r : BmReq) → Kept (Actions.bind_account db p r)
    pub verifying : (token signature : String) → Kept (Pages.active_verify db p token signature)
    pub passing : (w : World db.State) (now : ℕ) → P w → P (record w { now = now })
    pub taking : (w : World db.State) (left : List Task) → P w → P (record w { spawned = left })

  module _ (K : IsKept) where
    handler-Kept : (action : Action) (r : BmReq) → Kept (handler_of db p action r)
    unfolding handler_of Actions.query_reflect_by_email_array Actions.query_account
        Actions.account_active Actions.unbind_account Actions.active_by_email
        Actions.decrypt_by_admin
    handler-Kept query_by_email_array r = search (keeping, K.reflects)
    handler-Kept query_account r = search (keeping, K.account)
    handler-Kept account_active r = search (keeping, K.active)
    handler-Kept bind_account r = K.binding r
    handler-Kept unbind_account r = search (keeping, K.unbinding)
    handler-Kept active_by_email r = K.mailing r
    handler-Kept decrypt_by_admin r = search (keeping, K.account)

    uninstall-Kept : (address : String) → Kept (Pages.uninstall_by_user db p address)
    unfolding Pages.uninstall_by_user
    uninstall-Kept address = search (keeping, K.uninstalling) depth 10

    call_func-Kept :
        (action : Action) (body : Result Bytes) → Kept (call_func p (handler_of db p action) body)
    call_func-Kept action body = record {
      after = λ w h. elim (call_func_authentic p (handler_of db p action) body w) [
        | inl (same, _) ↦ ground (arith, same, h)
        | inr (r, _, left) ↦ rw left ((handler-Kept action r).after w h)
      ];
    }

    handle-Kept : (e : Endpoint) (r : HttpRequest) → Kept (handle db p e r)
    unfolding handle
    handle-Kept keep_alive r = Keeps-pure _
    handle-Kept keep_alive2 r = Keeps-pure _
    handle-Kept active_link r = search (keeping, K.verifying) depth 10
    handle-Kept admin_address r = search (keeping) depth 10
    handle-Kept uninstall_user r = search (keeping, uninstall-Kept) depth 10
    handle-Kept (signed action) r = search (keeping, call_func-Kept) depth 10

    serve-kept : (m : Mux) (r : HttpRequest) (w : World db.State) → P w → P (serve db p m r w).1
    unfolding serve
    serve-kept m r w h = elim (Option-cases (m.dispatch routes r.method r.path)) [
      | inl unrouted ↦ ground (arith, unrouted, h)
      | inr (e, found) ↦ ground (arith, found, (handle-Kept e r).after w h)
    ]

    Event-kept : (m : Mux) {s t : World db.State} → Event db p m s t → P s → P t
    Event-kept m {s} (requested r) h = serve-kept m r s h
    Event-kept m {s} (passed now) h = K.passing s now h
    Event-kept m {s} (confirmed before after action is_unbind spawned returned) h =
        (K.confirming action is_unbind).after (record s { spawned = before ++ after })
          (K.taking s (before ++ after) h)
    Event-kept m {s} (mailed before after link subject body is_unbind spawned) h =
        K.taking s (before ++ after) h

    -- What the parts keep, holds in every state that the server comes to.
    pub SerialRun-kept : (m : Mux) {s t : World db.State} → SerialRun db p m s t → P s → P t
    SerialRun-kept m idle h = h
    SerialRun-kept m (on before e) h = Event-kept m e (SerialRun-kept m before h)

module _ (db : Database) (p : Process) (Q : db.State → Type 0) where
  -- The same where what is kept is about the database alone, and any link may be made.
  pub record IsKeptByCalls : Type 0 where
    pub reflects : (emails : List String) → Keeps Q (db.query_reflects_by_emails emails)
    pub account : (a : String) → Keeps Q (db.query_account a)
    pub active : (a : String) → Keeps Q (db.active_account a user_level_free)
    pub unbinding : (a email : String) → Keeps Q (db.delete_binding a email)
    pub uninstalling : (a : String) → Keeps Q (db.uninstall_by_user a)
    pub link : (l : ActiveLinkData) → Keeps Q (db.create_active_link l)
    pub binding : (r : BmReq) → Keeps (λ w. Q w.db) (Actions.bind_account db p r)
    pub verifying :
        (token signature : String) → Keeps (λ w. Q w.db) (Pages.active_verify db p token signature)

  abbrev KeptByCall : {A : Type 0} → Exec (World db.State) A → Type 0
  KeptByCall m = Keeps (λ w. Q w.db) m

  pub Keeps-on_db : {A : Type 0} (m : Exec db.State A) → Keeps Q m → KeptByCall (on_db m)
  Keeps-on_db m k = record { after = λ w h. k.after w.db h }

  pub Keeps-spawn : (t : Task) → KeptByCall (spawn t)
  Keeps-spawn t = record { after = λ w h. h }

  pub Keeps-new_string : KeptByCall (new_string p)
  Keeps-new_string = record { after = λ w h. h }

  pub Keeps-unix_now : KeptByCall unix_now
  Keeps-unix_now = record { after = λ w h. h }

  -- A call of the database, or a check, whose error is shown on a page.
  pub Keeps-or_page :
      {A : Type 0} (m : Exec (World db.State) A) (f : A → Exec (World db.State) Pages.Page)
      (shown : Error → Pages.Page)
      → KeptByCall m
      → ((x : A) → KeptByCall (f x))
      → KeptByCall (branch m f (λ e. pure (shown e)))
  Keeps-or_page m f shown call first = Keeps-branch m f _ call first (λ e. Keeps-pure _)

  pub ruleset world = (keeping, Keeps-on_db, Keeps-spawn, Keeps-new_string, Keeps-unix_now)

  module _ (K : IsKeptByCalls) where
    active_by_email-kept : (r : BmReq) → KeptByCall (Actions.active_by_email db p r)
    unfolding Actions.active_by_email
    active_by_email-kept r = search (world, K.link) depth 14

    run_bind_confirm-kept :
        (action : BindAction) (is_unbind : Bool)
        → KeptByCall (Actions.run_bind_confirm db p action is_unbind)
    unfolding Actions.run_bind_confirm
    run_bind_confirm-kept action is_unbind = search (world, K.link) depth 14

    by_calls : IsKept db p (λ w. Q w.db)
    by_calls = record {
      reflects = λ emails. Keeps-on_db _ (K.reflects emails);
      account = λ a. Keeps-on_db _ (K.account a);
      active = λ a. Keeps-on_db _ (K.active a);
      unbinding = λ a email. Keeps-on_db _ (K.unbinding a email);
      uninstalling = λ a. Keeps-on_db _ (K.uninstalling a);
      mailing = active_by_email-kept;
      confirming = run_bind_confirm-kept;
      binding = K.binding;
      verifying = K.verifying;
      passing = λ w now h. h;
      taking = λ w left h. h;
    }

    pub SerialRun-kept_by_calls :
        (m : Mux) {s t : World db.State} → SerialRun db p m s t → Q s.db → Q t.db
    SerialRun-kept_by_calls m run h = SerialRun-kept db p (λ w. Q w.db) by_calls m run h
