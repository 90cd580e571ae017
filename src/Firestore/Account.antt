-- ===== src/Firestore/Account.antt =====
-- db/db_firestore/account.go.
use contact_server.Base.{
  ℕ, String, Bool, true, false, Option, none, some, List, [], ◌∷◌, is_empty, if◌then◌else◌, Dict,
  put, drop_key, keys, Error, is_not_found, Result, ok, Exec, pure, raise, lift, branch, ◌>>=◌,
  ◌>>◌,
}
use contact_server.Common.{BMailAccount, empty_account, map_to_array, or_empty}
use contact_server.Firestore.Client.{Firestore, Collection, account_table}
use contact_server.Firestore.Reflect.{update_email_reflect_only, delete_email_reflect}

-- The save callbacks of `UpdateBinding` (both), `DeleteBinding` and `UninstallByUser`.
abbrev pub added : String → BMailAccount → BMailAccount
added email contact = record contact {
  mail_store_obj = some (put email true (or_empty contact.mail_store_obj));
}

abbrev pub without_email : String → Option (Dict Bool) → Option (Dict Bool)
without_email email none = none
without_email email (some m) = some (drop_key email m)

abbrev pub removed : String → BMailAccount → BMailAccount
removed email contact = record contact {
  mail_store_obj = without_email email contact.mail_store_obj;
}

abbrev pub cleared : BMailAccount → BMailAccount
cleared contact = record contact { mail_store_obj = none }

-- None of the callbacks returns an error.
unfoldable pub saving : (BMailAccount → BMailAccount) → BMailAccount → Result BMailAccount
saving change contact = ok (change contact)

abbrev pub emails_of : BMailAccount → List String
emails_of contact = keys (or_empty contact.mail_store_obj)

-- What `databaseToObj` returns: its error, whether that is `NotFound`, and the object as it was
-- decoded, which the callback's closure sees.
pub record Loaded : Type 0 where
  pub error : Option Error
  pub is_missing : Bool
  pub object : BMailAccount

module _ (fs : Firestore) where
  open fs use {State, get, set, delete, data_to_account, data_of_account}

  unfoldable pub query_account : String → Exec State BMailAccount
  unfolding map_to_array
  query_account addr =
      branch (get account_table addr)
        (λ d. do contact ← lift (data_to_account d); pure (map_to_array contact))
        (λ e. if is_not_found e then pure empty_account else raise e)

  unfoldable pub update_account_level : String → ℕ → Exec State (Unit {0})
  update_account_level account level = do
    d ← get account_table account
    obj ← lift (data_to_account d)
    set account_table account (data_of_account (record obj { user_lel = level }))

  unfoldable pub active_account : String → ℕ → Exec State (Unit {0})
  active_account account default_level =
      branch (get account_table account) (λ _. pure tt)
        (λ e.
          if is_not_found e
          then set account_table account
              (data_of_account (record empty_account { user_lel = default_level }))
          else raise e)

  abbrev failed_load : Bool → BMailAccount → Error → Exec State Loaded
  failed_load missing obj e = pure (record { error = some e; is_missing = missing; object = obj })

  abbrev save_object : Collection → String → BMailAccount → BMailAccount → Exec State Loaded
  save_object table key obj changed =
      branch (set table key (data_of_account changed))
        (λ _. pure (record { error = none; is_missing = false; object = obj }))
        (failed_load false obj)

  -- The object of every call is an account, and every call has a callback.
  unfoldable pub database_to_obj :
      Collection → String → (BMailAccount → Result BMailAccount) → Exec State Loaded
  database_to_obj table key save =
      branch (get table key)
        (λ d.
          branch (lift (data_to_account d))
            (λ obj. branch (lift (save obj)) (save_object table key obj) (failed_load false obj))
            (failed_load false empty_account))
        (λ e. failed_load (is_not_found e) empty_account e)

  -- `if err != nil { return err }` behind `databaseToObj`.
  abbrev or_fail : Loaded → Exec State (Unit {0})
  or_fail l = elim l.error [ none ↦ pure tt | some e ↦ raise e ]

  -- The rest of `UpdateBinding`: the old account, if there is one, loses the email.
  unfoldable pub unbind_old : String → String → Exec State (Unit {0})
  unbind_old old email =
      if is_empty old
      then pure tt
      else (do l ← database_to_obj account_table old (saving (removed email)); or_fail l)

  unfoldable pub update_binding : String → String → Exec State (Unit {0})
  update_binding account email = do
    l ← database_to_obj account_table account (saving (added email))
    or_fail l
    old ← update_email_reflect_only fs account email
    unbind_old old email

  -- `if err != nil` with its test for `isNotFound`, then the rest.
  abbrev unless_missing : Loaded → Exec State (Unit {0}) → Exec State (Unit {0})
  unless_missing l rest = elim l.error [
    | none ↦ rest
    | some e ↦ if l.is_missing then pure tt else raise e
  ]

  unfoldable pub delete_binding : String → String → Exec State (Unit {0})
  delete_binding account email = do
    l ← database_to_obj account_table account (saving (removed email))
    unless_missing l (delete_email_reflect fs email)

  unfoldable pub delete_reflects : List String → Exec State (Unit {0})
  delete_reflects [] = pure tt
  delete_reflects (email ∷ rest) = delete_email_reflect fs email >> delete_reflects rest

  unfoldable pub uninstall_by_user : String → Exec State (Unit {0})
  uninstall_by_user account = do
    l ← database_to_obj account_table account (saving cleared)
    unless_missing l (delete_reflects (emails_of l.object))

  unfoldable pub delete_account : String → Exec State (Unit {0})
  delete_account addr =
      branch (get account_table addr)
        (λ d. do
          account ← lift (data_to_account d)
          delete_reflects (emails_of account)
          delete account_table addr)
        (λ e. if is_not_found e then pure tt else raise e)
