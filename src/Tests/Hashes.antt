-- ===== src/Tests/Hashes.antt =====
-- The theorems on the Redis database at concrete inputs: a Redis with two accounts, of which the
-- first holds an email.
use contact_server.Base.{◌≡◌, refl, ◌≢◌, false, [], ◌∷◌, find, put, drop_key, driver, ok, text_dec}
use contact_server.Redis.Keys.{account_key, email_key}
use contact_server.Redis.Reflect.{query_reflect_by_one_email}
use contact_server.Redis.Account.{
  filter_out, load_emails, append_email_to_account, remove_email_from_account, release_old,
  update_binding, delete_binding, active_account,
}
use contact_server.Redis.View.{owner, lists}
use contact_server.Redis.Binding.{update_binding_unreadable}
use contact_server.Redis.Unbinding.{active_account_redis}
use contact_server.Tests.RedisMemory.{
  hash, text, Store, marshal_emails, items_of, merge, redis_memory, redis_memory-IsLawful,
}

abbrev pub start_hashes : Store
start_hashes =
    (
      account_key "BM1",
      hash (
          ("user_lel", "1")
          ∷ ("e_mail_address", marshal_emails ("a@x" ∷ []))
          ∷ ("license", "")
          ∷ []),
    )
    ∷ (
      account_key "BM2",
      hash (("user_lel", "1") ∷ ("e_mail_address", "[]") ∷ ("license", "") ∷ []),
    )
    ∷ (email_key "a@x", text "BM1")
    ∷ []

-- To name this is to open what a run of the database computes with.
unfoldable redis_runs : Unit {0}
unfolding text_dec find put drop_key account_key email_key marshal_emails items_of merge filter_out
    load_emails append_email_to_account remove_email_from_account release_old update_binding
    delete_binding active_account query_reflect_by_one_email
redis_runs = tt

rebound_redis : (update_binding redis_memory "BM2" "a@x" start_hashes).0 ≡ ok tt
unfolding redis_runs
rebound_redis = refl

abbrev taken_hashes : Store
taken_hashes = (update_binding redis_memory "BM2" "a@x" start_hashes).1

update_binding_unreadable_example :
    (query_reflect_by_one_email redis_memory "a@x" taken_hashes).0
    ≢ ok (record { b_mail_address = "BM2" })
update_binding_unreadable_example =
    update_binding_unreadable redis_memory redis_memory-IsLawful "BM2" "a@x" start_hashes
      (driver "invalid character") refl rebound_redis (record { b_mail_address = "BM2" })

active_account_redis_example :
    (lists redis_memory (active_account redis_memory "BM1" 1 start_hashes).1 "BM1" "a@x" ≡ false)
    × (owner redis_memory (active_account redis_memory "BM1" 1 start_hashes).1 "a@x"
        ≡ owner redis_memory start_hashes "a@x")
unfolding redis_runs
active_account_redis_example =
    active_account_redis redis_memory redis_memory-IsLawful "BM1" "a@x" start_hashes 1 "a@x" refl
