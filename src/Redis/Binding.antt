-- ===== src/Redis/Binding.antt =====
-- What `UpdateBinding` of db/db_redis does to the keys on success.
use contact_server.Base.{
  String, ◌≡◌, Bool, true, false, ◌&&◌, not, some, ◌==◌, is_empty, if◌then◌else◌, Result, ok, err,
  IfOk, arith, Error, ◌≢◌,
}
use contact_server.Common.Agreement.{bind_owner, bind_lists}
use contact_server.Redis.Keys.{account_key, email_key, email_key_eq, email_account_key}
use contact_server.Redis.Client.{Redis, IsLawful}
use contact_server.Redis.Account.{release_old, update_binding}
use contact_server.Redis.Reflect.{query_reflect_by_one_email}
use contact_server.Common.{EmailReflect}
use contact_server.Redis.View.{owner, lists}
use contact_server.Redis.Steps.{appended_texts, appended_lists, released_texts, released_lists}

combine :
    (o account a email e : String) (l l2 l3 l4 l5 : Bool)
    → l2 ≡ l
    → l3 ≡ (if not (is_empty o) && not (o == account) && o == a && email == e then false else l2)
    → l4 ≡ l3
    → l5 ≡ (if account == a && email == e then true else l4)
    → l5 ≡ (
        if email == e && account == a
        then true
        else if email == e && not (is_empty o) && o == a
        then false
        else l)
combine o account a email e l l2 l3 l4 l5 p q r t = ground arith

module _ (rdb : Redis) (L : IsLawful rdb) (account email : String) (s : rdb.State) where
  abbrev bound : Result (Unit {0}) × rdb.State
  bound = update_binding rdb account email s

  -- The state at each inner call.
  abbrev s1 : rdb.State
  s1 = (rdb.exists (account_key account) s).1

  abbrev s2 : rdb.State
  s2 = (rdb.get (email_key email) s1).1

  abbrev old : String
  old = owner rdb s email

  abbrev s3 : rdb.State
  s3 = (release_old rdb old account email s2).1

  abbrev s4 : rdb.State
  s4 = (rdb.set (email_key email) account s3).1

  fetched : IfOk (rdb.get (email_key email) s1).0 (λ t. t ≡ old)
  fetched = ground (
    arith,
    L.exists_keeps (account_key account) s (email_key email) "",
    L.get_reads (email_key email) s1,
  )

  -- With a lawful Redis, after an `UpdateBinding` that returns no error the email is bound to
  -- the account, and every other email is bound to what it was bound to before.
  pub owner-update_binding_redis :
      (e : String)
      → bound.0 ≡ ok tt
      → owner rdb bound.1 e ≡ bind_owner account email (owner rdb s) e
  unfolding update_binding
  owner-update_binding_redis e h = ground (
    arith,
    fetched,
    L.get_reads (email_key email) s1,
    L.exists_keeps (account_key account) s (email_key e) "",
    L.exists_keeps (account_key account) s (email_key email) "",
    L.get_keeps (email_key email) s1 (email_key e) "",
    released_texts rdb L old account email s2 (email_key e),
    L.set_writes (email_key email) account s3 (email_key e),
    appended_texts rdb L account email s4 (email_key e),
    email_key_eq email e,
  )

  mapped : bound.0 ≡ ok tt → rdb.text bound.1 (email_key email) ≡ some account
  unfolding update_binding
  mapped h = ground (
    arith,
    fetched,
    L.get_reads (email_key email) s1,
    L.exists_keeps (account_key account) s (email_key email) "",
    L.set_writes (email_key email) account s3 (email_key email),
    appended_texts rdb L account email s4 (email_key email),
  )

  fetched_lists : (a e : String) → lists rdb s2 a e ≡ lists rdb s a e
  fetched_lists a e = ground (
    arith,
    L.exists_keeps (account_key account) s (account_key a) "e_mail_address",
    L.get_keeps (email_key email) s1 (account_key a) "e_mail_address",
  )

  set_lists :
      (a e : String)
      → (rdb.set (email_key email) account s3).0 ≡ ok tt
      → lists rdb s4 a e ≡ lists rdb s3 a e
  set_lists a e h = ground (
    arith,
    L.set_clears (email_key email) account s3 (account_key a) "e_mail_address",
    email_account_key email a,
  )

  -- With a lawful Redis, after an `UpdateBinding` that returns no error the account lists the email;
  -- the other account that it was bound to, if any, does not; nothing else that is listed changes.
  pub lists-update_binding_redis :
      (a e : String)
      → bound.0 ≡ ok tt
      → lists rdb bound.1 a e ≡ bind_lists account email (owner rdb s) (lists rdb s) a e
  unfolding update_binding
  lists-update_binding_redis a e h =
      combine old account a email e (lists rdb s a e) (lists rdb s2 a e) (lists rdb s3 a e)
        (lists rdb s4 a e) (lists rdb bound.1 a e) (fetched_lists a e)
        (ground (
          arith,
          fetched,
          L.get_reads (email_key email) s1,
          L.exists_keeps (account_key account) s (email_key email) "",
          released_lists rdb L old account email s2 a e,
        ))
        (ground (
          arith,
          fetched,
          L.get_reads (email_key email) s1,
          L.exists_keeps (account_key account) s (email_key email) "",
          set_lists a e,
        ))
        (ground (
          arith,
          fetched,
          L.get_reads (email_key email) s1,
          L.exists_keeps (account_key account) s (email_key email) "",
          appended_lists rdb L account email s4 a e,
        ))

  -- With a lawful Redis, after an `UpdateBinding` that returns no error, to an address that is no
  -- JSON text of a reflection, `QueryReflectByOneEmail` of the email returns no reflection: the
  -- mapping is stored as the bare address.
  pub update_binding_unreadable :
      (e : Error)
      → rdb.unmarshal_reflect account ≡ err e
      → bound.0 ≡ ok tt
      → (r : EmailReflect) → (query_reflect_by_one_email rdb email bound.1).0 ≢ ok r
  unfolding query_reflect_by_one_email
  update_binding_unreadable e undecoded h r found = ground (
    arith,
    undecoded,
    found,
    owner-update_binding_redis email h,
    mapped h,
    L.get_reads (email_key email) bound.1,
  )
