-- ===== src/Tests/Running.antt =====
-- The theorems on serial runs of the public server, over the Firestore and the LevelDB in memory.
use contact_server.Base.{
  IfOk, strip_prefix, ℕ, String, ◌≡◌, ◌≢◌, ◌==◌, refl, ◌+◌, ◌^◌, some, [], ◌∷◌, ◌++◌, Bool, false,
  ok, panic, Result, arith, text_dec,
}
use contact_server.Firestore.Account.{update_binding}
use contact_server.Proto.{BmReq, BindAction, BmRsp}
use contact_server.Firestore.View.{account_at, level_of}
use contact_server.Firestore.Counts.{size}
use contact_server.LevelDb.Locks.{Manager}
use contact_server.LevelDb.Account
use contact_server.LevelDb.Reflect
use contact_server.LevelDb.Deadlock.{Returns}
use contact_server.Service.World.{Process, World, send_bind_confirm_mail}
use contact_server.Service.Levels.{check_rights_of_action, rights_of_action}
use contact_server.Service.Actions.{bind_account, run_bind_confirm, success_rsp}
use contact_server.Service.Http.{status_ok, status_bad_request}
use contact_server.Service.Pages.{Page, page, active_verify}
use contact_server.Service.Stores.Replay.{link_used_once}
use contact_server.Wallet.Links.{verify_activation_link}
use contact_server.Wallet.Address.{decode_pub_key}
use contact_server.Wallet.Hex.{hex_decode}
use contact_server.Service.Router.{serve}
use contact_server.Service.Server.{SerialRun, idle, on, requested, passed}
use contact_server.Service.Stores.{firestore_database, level_db_database}
use contact_server.Service.Stores.Limits.{WithinLimits}
use contact_server.Service.Stores.Running.{SerialRun-WithinLimits}
use contact_server.Service.Stores.Unlocking.{SerialRun-Unlocked}
use contact_server.Service.Stores.Crashes.{bind_account_crashes}
use contact_server.Service.Stores.Racing.{
  Asks, write_bound, bind_checked, bind_crossed, bind_crossed_exceeds,
}
use contact_server.Tests.Memory.{Tables, memory, memory-IsLawful}
use contact_server.Tests.Bindings.{start, linked, firestore_runs}
use contact_server.Tests.Levels.{
  level_memory, level_memory-IsLawful, Store, start_level, level_runs,
}
use contact_server.Tests.Requests.{a_bind, a_request, codec, process, world, start-WithinLimits}
use contact_server.Tests.Serving.{mux, a_post}

-- A day passes, and a request is served.
abbrev a_day_later : World Tables
a_day_later = record world { now = 86600 }

abbrev afterwards : World Tables
afterwards = (serve (firestore_database memory) process mux a_post a_day_later).1

a_run : SerialRun (firestore_database memory) process mux world afterwards
a_run = on (on idle (passed 86600)) (requested a_post)

SerialRun-WithinLimits_example :
    WithinLimits memory afterwards.db
    × ((a : String) (l : ℕ)
        → level_of (account_at memory start a) ≡ some l
        → level_of (account_at memory afterwards.db a) ≡ some l)
SerialRun-WithinLimits_example =
    SerialRun-WithinLimits memory memory-IsLawful process mux a_run start-WithinLimits

abbrev level_world : World (Manager Store)
level_world = record { db = start_level; now = 200; drawn = 0; spawned = [] }

abbrev level_afterwards : World (Manager Store)
level_afterwards = (serve (level_db_database level_memory) process mux a_post level_world).1

a_level_run : SerialRun (level_db_database level_memory) process mux level_world level_afterwards
a_level_run = on idle (requested a_post)

SerialRun-Unlocked_example :
    (level_afterwards.db.held ≡ [])
    × ((a email : String)
        → Returns (Account.update_binding level_memory a email level_afterwards.db).0
          × Returns (Account.delete_binding level_memory a email level_afterwards.db).0)
SerialRun-Unlocked_example =
    SerialRun-Unlocked level_memory level_memory-IsLawful process mux a_level_run refl

-- Every payload asks to bind "a@x", which BM1 holds, to BM2.
abbrev taking : Process
taking = record process {
  codec = record codec {
    unmarshal_bind = λ b. ok (record a_bind { address = "BM2"; mail = "a@x" });
  };
}

abbrev taken : Result BmRsp × World (Manager Store)
taken = bind_account (level_db_database level_memory) taking a_request level_world

confirmation_asked : taken.0 ≡ ok (success_rsp (2 ∷ []))
unfolding level_runs bind_account check_rights_of_action rights_of_action Account.query_account
    Reflect.query_reflect_by_one_email
confirmation_asked = refl

bind_account_crashes_example :
    (action : BindAction) × (taken.1.spawned ≡ [] ++ (send_bind_confirm_mail action false ∷ []))
    × ((w : World (Manager Store))
        → (run_bind_confirm (level_db_database level_memory) taking action false w).0
          ≡ panic "api not support any more")
bind_account_crashes_example =
    bind_account_crashes level_memory taking a_request level_world confirmation_asked

two_mails : ("b@x" == "c@x") ≡ false
unfolding text_dec
two_mails = refl

mails_differ : ◌≢◌ {A = String} "b@x" "c@x"
mails_differ h = ground (arith, h, two_mails)

abbrev crossed : Result Bool × Tables
crossed = bind_crossed (firestore_database memory) "BM1" "b@x" "c@x" start

-- An empty payload asks for "b@x", any other for "c@x".
abbrev asking : Process
asking = record process {
  codec = record codec {
    unmarshal_bind = λ b. ok (record a_bind { mail = elim b [ [] ↦ "b@x" | n ∷ rest ↦ "c@x" ] });
  };
}

abbrev other_request : BmReq
other_request = record a_request { payload = 1 ∷ [] }

first-Asks : Asks (firestore_database memory) asking a_request "BM1" "b@x"
unfolding text_dec
first-Asks = (record a_bind { mail = "b@x" }, refl, refl, refl, refl, refl)

second-Asks : Asks (firestore_database memory) asking other_request "BM1" "c@x"
unfolding text_dec
second-Asks = (record a_bind { mail = "c@x" }, refl, refl, refl, refl, refl)

abbrev checked1 : Tables
checked1 = (bind_checked (firestore_database memory) "BM1" "b@x" start).1

abbrev checked2 : Tables
checked2 = (bind_checked (firestore_database memory) "BM1" "c@x" checked1).1

bind_crossed_exceeds_example :
    (bind_account (firestore_database memory) asking a_request world
      ≡ write_bound (firestore_database memory) "BM1" "b@x" (record world { db = checked1 }))
    × (bind_account
          (firestore_database memory)
          asking
          other_request
          (record world { db = checked1 })
        ≡ write_bound (firestore_database memory) "BM1" "c@x" (record world { db = checked2 }))
    × (crossed.1
        ≡ (update_binding memory "BM1" "c@x" (update_binding memory "BM1" "b@x" checked2).1).1)
    × (size memory crossed.1 "BM1" ≡ 2 ^ 1 + 1)
    × (level_of (account_at memory crossed.1 "BM1") ≡ some 1)
    × ¬ (WithinLimits memory crossed.1)
unfolding firestore_runs bind_crossed bind_checked check_rights_of_action rights_of_action
bind_crossed_exceeds_example =
    bind_crossed_exceeds memory memory-IsLawful "BM1" "b@x" "c@x" start asking a_request
      other_request world world 1 first-Asks second-Asks refl (omega arith) (omega arith) refl
      mails_differ refl refl refl

abbrev visited : Result Page × World Tables
visited = active_verify (firestore_database memory) process "t1" "00" (record world { db = linked })

visit_accepted : visited.0 ≡ ok (page status_ok "Action completed success!")
unfolding firestore_runs active_verify verify_activation_link check_rights_of_action
    rights_of_action strip_prefix decode_pub_key hex_decode
visit_accepted = refl

two_tokens : ("uuid" == "t1") ≡ false
unfolding text_dec
two_tokens = refl

tokens_differ : ◌≢◌ {A = String} "uuid" "t1"
tokens_differ h = ground (arith, h, two_tokens)

abbrev after_visit : World Tables
after_visit = (serve (firestore_database memory) process mux a_post visited.1).1

link_used_once_example :
    IfOk
      (active_verify (firestore_database memory) process "t1" "00" after_visit).0
      (λ y. y.code ≡ status_bad_request)
link_used_once_example =
    link_used_once memory memory-IsLawful process "t1" mux "00" "00" (record world { db = linked })
      visit_accepted refl (λ n h. tokens_differ) (on idle (requested a_post))
