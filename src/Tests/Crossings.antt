-- ===== src/Tests/Crossings.antt =====
-- The theorems on waits of db/db_leveldb at two accounts that each hold an email of the other's request.
use contact_server.Base.{String, ◌≡◌, refl, ◌≢◌, ◌==◌, false, [], ◌∷◌, find, put, text_dec, arith}
use contact_server.LevelDb.Keys.{account_key, email_key}
use contact_server.LevelDb.Locks.{Manager, with_lock}
use contact_server.LevelDb.Crossing.{moved, Blocks, update_binding_crossed}
use contact_server.LevelDb.Client.{read_account, read_reflect, write_reflect}
use contact_server.LevelDb.Reflect.{update_email_reflect_only}
use contact_server.Tests.Bindings.{bm1_named, bm2_named}
use contact_server.Tests.Levels.{
  Store, account, reflect, level_memory, level_memory-IsLawful, unheld_account, get, set,
}

abbrev crosswise : Store
crosswise =
    (account_key "BM1", account (record unheld_account { e_mail_address = "f@x" ∷ [] }))
    ∷ (account_key "BM2", account (record unheld_account { e_mail_address = "e@x" ∷ [] }))
    ∷ (email_key "e@x", reflect (record { b_mail_address = "BM2" }))
    ∷ (email_key "f@x", reflect (record { b_mail_address = "BM1" }))
    ∷ []

-- The first call has moved its email's reflection and waits.
abbrev halfway : Manager Store
halfway =
    moved level_memory "BM1" "e@x"
      (record { level_db = crosswise; held = account_key "BM1" ∷ account_key "BM2" ∷ [] })

two_accounts : ("BM1" == "BM2") ≡ false
unfolding text_dec
two_accounts = refl

apart : ◌≢◌ {A = String} "BM1" "BM2"
apart h = ground (arith, h, two_accounts)

bm1_full : ◌≢◌ {A = String} "BM1" ""
bm1_full h = ground (arith, h, bm1_named)

bm2_full : ◌≢◌ {A = String} "BM2" ""
bm2_full h = ground (arith, h, bm2_named)

update_binding_crossed_example :
    Blocks level_memory "BM1" "BM2" "e@x" crosswise
    × Blocks level_memory "BM2" "BM1" "f@x" halfway.level_db
unfolding find account_key email_key text_dec read_account update_email_reflect_only with_lock
    read_reflect write_reflect get set put
update_binding_crossed_example =
    update_binding_crossed level_memory level_memory-IsLawful "BM1" "BM2" "e@x" "f@x" crosswise
      (record unheld_account { e_mail_address = "f@x" ∷ [] })
      (record unheld_account { e_mail_address = "e@x" ∷ [] }) "BM2" "BM1" apart bm1_full bm2_full
      refl refl (refl, refl) (refl, refl)
