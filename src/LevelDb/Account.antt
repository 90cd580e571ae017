-- ===== src/LevelDb/Account.antt =====
-- db/db_leveldb/account.go, with `contains` and `remove` of leveldb.go.
use contact_server.Base.{
  ℕ, String, Bool, true, false, List, [], ◌∷◌, ◌++◌, ◌&&◌, ◌==◌, not, is_empty, if◌then◌else◌,
  Error, is_not_found, Exec, pure, raise, crash, branch, ◌>>=◌, ◌>>◌,
}
use contact_server.Common.{
  BMailAccount, ActiveLinkData, empty_account, new_bm_error, bm_err_no_right,
}
use contact_server.LevelDb.Keys.{account_key}
use contact_server.LevelDb.Client.{LevelDb, read_account, write_account}
use contact_server.LevelDb.Locks.{Manager, at_db, with_lock}
use contact_server.LevelDb.Reflect.{update_email_reflect_only, delete_email_reflect}

unfoldable pub contains : List String → String → Bool
contains [] item = false
contains (v ∷ rest) item = let found = contains rest item in if v == item then true else found

unfoldable pub remove : List String → String → List String
remove [] item = []
remove (v ∷ rest) item = let kept = remove rest item in if not (v == item) then v ∷ kept else kept

module _ (ldb : LevelDb) where
  abbrev Call : Type 0 → Type 0
  Call A = Exec (Manager ldb.State) A

  unfoldable pub query_account : String → Call BMailAccount
  query_account addr = with_lock (account_key addr) (
      branch (at_db (read_account ldb (account_key addr))) pure
        (λ e. if is_not_found e then pure empty_account else raise e))

  unfoldable pub update_account_level : String → ℕ → Call (Unit {0})
  update_account_level account level = with_lock (account_key account) (do
    existing ← at_db (read_account ldb (account_key account))
    at_db (write_account ldb (account_key account) (record existing { user_lel = level })))

  unfoldable pub active_account : String → ℕ → Call (Unit {0})
  active_account account level = with_lock (account_key account) (
      branch (at_db (read_account ldb (account_key account))) (λ _. pure tt)
        (λ e.
          if not (is_not_found e)
          then raise e
          else at_db (
              write_account ldb (account_key account) (record empty_account { user_lel = level }))))

  unfoldable pub remove_email_from_account : String → String → Call (Unit {0})
  remove_email_from_account account email = with_lock (account_key account) (
      branch (at_db (read_account ldb (account_key account)))
        (λ ba. at_db (
          write_account ldb (account_key account)
            (record ba { e_mail_address = remove ba.e_mail_address email })))
        (λ e. if is_not_found e then pure tt else raise e))

  -- `Activate your account first` for a missing account, and other errors as they are.
  abbrev pub not_activated : {A : Type 0} → Error → Call A
  not_activated e =
      if is_not_found e
      then raise (new_bm_error bm_err_no_right "Activate your account first")
      else raise e

  unfoldable pub release_old : String → String → String → Call (Unit {0})
  release_old old account email =
      if not (is_empty old) && not (old == account)
      then remove_email_from_account old email
      else pure tt

  unfoldable pub append_email : String → BMailAccount → String → Call (Unit {0})
  append_email address account email =
      if contains account.e_mail_address email
      then pure tt
      else at_db (
          write_account ldb (account_key address)
            (record account { e_mail_address = account.e_mail_address ++ (email ∷ []) }))

  unfoldable pub update_binding : String → String → Call (Unit {0})
  update_binding address email = with_lock (account_key address) (
      branch (at_db (read_account ldb (account_key address)))
        (λ account. do
          old ← update_email_reflect_only ldb address email
          release_old old address email
          append_email address account email)
        not_activated)

  unfoldable pub delete_binding : String → String → Call (Unit {0})
  delete_binding address email = with_lock (account_key address) (
      branch (at_db (read_account ldb (account_key address)))
        (λ account. do
          delete_email_reflect ldb email
          at_db (
              write_account ldb (account_key address)
                (record account { e_mail_address = remove account.e_mail_address email })))
        not_activated)

  unfoldable pub uninstall_by_user : String → Call (Unit {0})
  uninstall_by_user address = pure tt

  abbrev not_supported : {A : Type 0} → Call A
  not_supported = crash "api not support any more"

  unfoldable pub delete_account : String → Call (Unit {0})
  delete_account address = not_supported

  unfoldable pub create_active_link : ActiveLinkData → Call (Unit {0})
  create_active_link link = not_supported

  unfoldable pub get_active_link : String → Call ActiveLinkData
  get_active_link token = not_supported

  unfoldable pub remove_active_link : String → Call (Unit {0})
  remove_active_link token = pure tt
