-- ===== src/Redis/Unbinding.antt =====
-- What `DeleteBinding` and `ActiveAccount` of db/db_redis do to the keys on success.
use contact_server.Base.{ℕ, String, ◌≡◌, false, is_empty, find, Result, ok, arith}
use contact_server.Common.Agreement.{unbind_owner, unbind_lists}
use contact_server.Redis.Keys.{account_key, email_key, email_key_eq, email_account_key}
use contact_server.Redis.Client.{Redis, IsLawful}
use contact_server.Redis.Account.{delete_binding, active_account, activated}
use contact_server.Redis.View.{level_is_no_list, no_emails_is_text, owner, lists}
use contact_server.Redis.Steps.{removed_texts, removed_lists}

module _ (rdb : Redis) (L : IsLawful rdb) (account email : String) (s : rdb.State) where
  abbrev after : Result (Unit {0}) × rdb.State
  after = delete_binding rdb account email s

  abbrev t1 : rdb.State
  t1 = (rdb.get (email_key email) (rdb.exists (account_key account) s).1).1

  -- With a lawful Redis, after a `DeleteBinding` that returns no error of an email that is bound
  -- to some address, the email is bound to none, every other email keeps its address, the account
  -- lists the email no more, and nothing else that is listed changes.
  pub delete_binding_redis :
      (a e : String)
      → is_empty (owner rdb s email) ≡ false
      → after.0 ≡ ok tt
      → (owner rdb after.1 e ≡ unbind_owner email (owner rdb s) e)
        × (lists rdb after.1 a e ≡ unbind_lists account email (lists rdb s) a e)
  unfolding delete_binding
  delete_binding_redis a e named h = ground (
    arith,
    named,
    L.get_reads (email_key email) (rdb.exists (account_key account) s).1,
    L.exists_keeps (account_key account) s (email_key email) "",
    L.exists_keeps (account_key account) s (email_key e) "",
    L.exists_keeps (account_key account) s (account_key a) "e_mail_address",
    L.get_keeps (email_key email) (rdb.exists (account_key account) s).1 (email_key e) "",
    L.get_keeps (email_key email) (rdb.exists (account_key account) s).1 (account_key a)
        "e_mail_address",
    L.del_drops (email_key email) t1 (email_key e),
    L.del_clears (email_key email) t1 (account_key a) "e_mail_address",
    removed_texts rdb L account email (rdb.del (email_key email) t1).1 (email_key e),
    removed_lists rdb L account email (rdb.del (email_key email) t1).1 a e,
    email_key_eq email e,
    email_account_key email a,
  )

  -- With a lawful Redis, after an `ActiveAccount` that returns no error the account lists no email,
  -- also where it was there and listed some, while every email stays bound to what it was.
  pub active_account_redis :
      (level : ℕ) (e : String)
      → (active_account rdb account level s).0 ≡ ok tt
      → (lists rdb (active_account rdb account level s).1 account e ≡ false)
        × (owner rdb (active_account rdb account level s).1 e ≡ owner rdb s e)
  unfolding active_account find
  active_account_redis level e h = ground (
    arith,
    L.no_emails,
    level_is_no_list,
    no_emails_is_text,
    L.h_set_writes (account_key account) (activated rdb level) s (account_key account)
        "e_mail_address",
    L.h_set_keeps (account_key account) (activated rdb level) s (email_key e),
  )
