-- ===== src/Service/Stores/Crashes.antt =====
-- `sendBindConfirmMail` over LevelDB, whose `CreateActiveLink` panics.
use contact_server.Base.{◌≡◌, inl, inr, [], ◌∷◌, ◌++◌, false, Result-cases, ok, panic, arith}
use contact_server.Proto.{BmReq, BindAction}
use contact_server.LevelDb.Client.{LevelDb}
use contact_server.LevelDb.Locks.{Manager}
use contact_server.LevelDb.Account.{create_active_link}
use contact_server.Service.Database.{Database}
use contact_server.Service.World.{Process, World, send_bind_confirm_mail}
use contact_server.Service.Levels.{check_rights_of_action}
use contact_server.Service.Actions.{bind_account, run_bind_confirm, success_rsp}
use contact_server.Service.Stores.{level_db_database}

-- A reply of 2 is given only behind the start of the goroutine.
bind_account-asks :
    (db : Database) (p : Process) (r : BmReq) (w : World db.State)
    → (bind_account db p r w).0 ≡ ok (success_rsp (2 ∷ []))
    → (action : BindAction) × ((bind_account db p r w).1.spawned
        ≡ w.spawned ++ (send_bind_confirm_mail action false ∷ []))
unfolding bind_account
bind_account-asks db p r w asked = elim (Result-cases (p.codec.unmarshal_bind r.payload)) [
  | inl (action, decoded) ↦ (
    action,
    elim (Result-cases (check_rights_of_action db action.address w.db).0) [
      | inl (u, passed) ↦
          let s1 = (check_rights_of_action db action.address w.db).1 in
          elim (Result-cases (db.query_reflect_by_one_email action.mail s1).0) [
            | inl (reflect, found) ↦
                elim (Result-cases
                  (db.update_binding action.address action.mail
                    (db.query_reflect_by_one_email action.mail s1).1).0) [
                      | inl (v, done) ↦ ground (arith, asked, decoded, passed, found, done)
                      | inr bad ↦ ground (arith, asked, decoded, passed, found, bad)
                    ]
            | inr bad ↦ ground (arith, asked, decoded, passed, bad)
          ]
      | inr bad ↦ ground (arith, asked, decoded, bad)
    ],
  )
  | inr bad ↦ absurd (ground (arith, asked, bad))
]

-- Over LevelDB, a `BindAccount` that asks for a confirmation, by the reply 2, has started the
-- goroutine of `sendBindConfirmMail`, which panics in whatever state it runs.
pub bind_account_crashes :
    (ldb : LevelDb) (p : Process) (r : BmReq) (w : World (Manager ldb.State))
    → (bind_account (level_db_database ldb) p r w).0 ≡ ok (success_rsp (2 ∷ []))
    → (action : BindAction) × ((bind_account (level_db_database ldb) p r w).1.spawned
        ≡ w.spawned ++ (send_bind_confirm_mail action false ∷ []))
      × ((w' : World (Manager ldb.State))
          → (run_bind_confirm (level_db_database ldb) p action false w').0
            ≡ panic "api not support any more")
unfolding run_bind_confirm create_active_link
bind_account_crashes ldb p r w asked =
    let (action, started) = bind_account-asks (level_db_database ldb) p r w asked in
    (action, started, λ w'. ground arith)
