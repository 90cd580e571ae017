-- ===== src/Tests/Levels.antt =====
-- The theorems on the LevelDB database at concrete inputs: a database in memory with two accounts,
-- of which the first holds an email.
use contact_server.Base.{
  ℕ, String, ◌≡◌, refl, Option, none, some, List, [], ◌∷◌, Dict, find, put, drop_key, find-put,
  find-drop_key, not_found, Result, ok, err, Exec, arith, text_dec,
}
use contact_server.Common.{BMailAccount, EmailReflect, empty_account, empty_reflect}
use contact_server.LevelDb.Keys.{
  account_key, email_key, account_key_eq, email_key_eq, account_email_key, email_account_key,
}
use contact_server.LevelDb.Client.{
  LevelDb, IsLawful, read_account, write_account, read_reflect, write_reflect, delete_key,
}
use contact_server.LevelDb.Locks.{Manager, with_lock, unlock}
use contact_server.LevelDb.Reflect.{update_email_reflect_only, delete_email_reflect}
use contact_server.LevelDb.Account.{
  remove, contains, update_binding, delete_binding, remove_email_from_account, release_old,
  append_email,
}
use contact_server.LevelDb.View.{owner, lists}
use contact_server.Common.Agreement.{Agree}
use contact_server.Firestore.View
use contact_server.Service.Directory.{Request, bind, Run, done, next}
use contact_server.Service.Stores.Directories.{firestore_directory, level_db_directory, stores-same}
use contact_server.Tests.Memory.{memory, memory-IsLawful}
use contact_server.Tests.Bindings.{start, start-IsConsistent, taken, rebound, bm1_named, bm2_named}
use contact_server.LevelDb.Deadlock.{Returns, update_binding-Returns}

-- A value is an account, a reflection, or other bytes; a key under which the other kind lies reads as zero, the
-- way JSON ignores the fields that it does not know.
pub data Value : Type 0 where
  account : BMailAccount → Value
  reflect : EmailReflect → Value
  raw : List ℕ → Value

abbrev pub Store : Type 0
Store = Dict Value

abbrev pub found : Option Value → Result Value
found none = err (not_found "leveldb: not found")
found (some v) = ok v

unfoldable pub get : String → Exec Store Value
get k s = (found (find s k), s)

unfoldable pub set : String → Value → Exec Store (Unit {0})
set k v s = (ok tt, put k v s)

unfoldable pub delete : String → Exec Store (Unit {0})
delete k s = (ok tt, drop_key k s)

abbrev pub to_account : Value → Result BMailAccount
to_account (account a) = ok (record a { mail_store_obj = none })
to_account (reflect r) = ok empty_account
to_account (raw bs) = ok empty_account

abbrev pub to_reflect : Value → Result EmailReflect
to_reflect (account a) = ok empty_reflect
to_reflect (reflect r) = ok r
to_reflect (raw bs) = ok empty_reflect

abbrev pub level_memory : LevelDb
level_memory = record {
  State = Store;
  Bytes = Value;
  value = find;
  get = get;
  put = set;
  delete = delete;
  unmarshal_account = to_account;
  marshal_account = account;
  unmarshal_reflect = to_reflect;
  marshal_reflect = reflect;
}

pub level_memory-IsLawful : IsLawful level_memory
unfolding get set delete
level_memory-IsLawful = record {
  get_reads = λ k s. ground arith;
  get_keeps = λ k s k'. refl;
  put_writes = λ k v s k'. find-put k k' v s;
  delete_drops = λ k s k'. find-drop_key k k' s;
  account_stored = λ ba. refl;
  reflect_stored = λ r. refl;
  account_decodes = λ v. ground arith;
  reflect_decodes = λ v. ground arith;
}

abbrev pub held_account : BMailAccount
held_account = record empty_account { user_lel = 1; e_mail_address = "a@x" ∷ [] }

abbrev pub unheld_account : BMailAccount
unheld_account = record empty_account { user_lel = 1 }

abbrev pub start_store : Store
start_store =
    (account_key "BM1", account held_account)
    ∷ (account_key "BM2", account unheld_account)
    ∷ (email_key "a@x", reflect (record { b_mail_address = "BM1" }))
    ∷ []

abbrev pub start_level : Manager Store
start_level = record { level_db = start_store; held = [] }

-- To name this is to open what a run of the database computes with.
unfoldable pub level_runs : Unit {0}
unfolding text_dec find put drop_key get set delete account_key email_key read_account write_account
    read_reflect write_reflect delete_key with_lock unlock update_email_reflect_only
    delete_email_reflect remove contains update_binding delete_binding remove_email_from_account
    release_old append_email
level_runs = tt

rebound_level : (update_binding level_memory "BM2" "a@x" start_level).0 ≡ ok tt
unfolding level_runs
rebound_level = refl

abbrev taken_level : Manager Store
taken_level = (update_binding level_memory "BM2" "a@x" start_level).1

update_binding-Returns_example :
    Returns (update_binding level_memory "BM2" "a@x" start_level).0 × (taken_level.held ≡ [])
update_binding-Returns_example =
    update_binding-Returns level_memory level_memory-IsLawful "BM2" "a@x" start_store

start_level-agrees : Agree (owner level_memory start_store) (lists level_memory start_store)
unfolding find
start_level-agrees = record {
  bound_listed = λ e b. ground (
    arith,
    bm1_named,
    account_key_eq "BM1" (owner level_memory start_store e),
    account_key_eq "BM2" (owner level_memory start_store e),
    account_email_key "BM1" e,
    account_email_key "BM2" e,
    email_key_eq "a@x" e,
  );
  listed_bound = λ a e l. ground (
    arith,
    bm1_named,
    account_key_eq "BM1" a,
    account_key_eq "BM2" a,
    email_account_key "a@x" a,
    account_email_key "BM1" e,
    account_email_key "BM2" e,
    email_key_eq "a@x" e,
  );
}

starts-alike : (e : String) → View.owner memory start e ≡ owner level_memory start_store e
unfolding find
starts-alike e =
    ground (arith, account_email_key "BM1" e, account_email_key "BM2" e, email_key_eq "a@x" e)

abbrev requests : List Request
requests = bind "BM2" "a@x" ∷ []

level_run :
    Run (level_db_directory level_memory level_memory-IsLawful) start_level requests taken_level
level_run = next (bind "BM2" "a@x") bm2_named rebound_level done

fire_run : Run (firestore_directory memory memory-IsLawful) start requests taken
fire_run = next (bind "BM2" "a@x") bm2_named rebound done

stores-same_example :
    ((e : String) → View.owner memory taken e ≡ owner level_memory taken_level.level_db e)
    × ((a e : String) → View.lists memory taken a e ≡ lists level_memory taken_level.level_db a e)
stores-same_example =
    stores-same memory memory-IsLawful level_memory level_memory-IsLawful start-IsConsistent
      start_level-agrees starts-alike fire_run level_run
