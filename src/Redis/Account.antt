-- ===== src/Redis/Account.antt =====
-- db/db_redis/account.go, with the methods of redis.go that the server does not use with Redis.
use contact_server.Base.{
  ℕ, String, ◌<>◌, Bool, true, false, none, some, List, [], ◌∷◌, ◌++◌, ◌&&◌, ◌==◌, not, is_empty,
  if◌then◌else◌, has, Dict, find, Error, plain, wrapped, is_not_found, Exec, pure, raise, crash,
  lift, branch, ◌>>=◌, ◌>>◌, eqb,
}
use contact_server.Common.{BMailAccount, ActiveLinkData, new_bm_error, bm_err_no_right}
use contact_server.Redis.Keys.{account_key, email_key}
use contact_server.Redis.Client.{Redis}
use contact_server.Redis.Numbers.{parse_int8}

-- `remove` of the old email from the list, as the loop of removeEmailFromAccount does it.
unfoldable pub filter_out : String → List String → List String
filter_out item [] = []
filter_out item (v ∷ rest) =
    let kept = filter_out item rest in if not (v == item) then v ∷ kept else kept

module _ (rdb : Redis) where
  abbrev Call : Type 0 → Type 0
  Call A = Exec rdb.State A

  -- `fmt.Errorf(message + ": %w", err)`
  abbrev wrapping : {A : Type 0} → String → Call A → Call A
  wrapping message m = branch m pure (λ e. raise (wrapped message e))

  abbrev level_text : Dict String → ℕ
  level_text fields = elim (find fields "user_lel") [ some level ↦ parse_int8 level | none ↦ 0 ]

  abbrev listed_emails : Dict String → List String
  listed_emails fields = elim (find fields "e_mail_address") [
    | some emails ↦ rdb.emails_left emails
    | none ↦ []
  ]

  abbrev license_text : Dict String → String
  license_text fields = elim (find fields "license") [ some license ↦ license | none ↦ "" ]

  abbrev object_of : Dict String → BMailAccount
  object_of fields = record {
    user_lel = level_text fields;
    e_mail_address = listed_emails fields;
    mail_store_obj = none;
    license_hex = license_text fields;
  }

  abbrev has_no_entry : Dict String → Bool
  has_no_entry [] = true
  has_no_entry (e ∷ es) = false

  unfoldable pub query_account : String → Call BMailAccount
  query_account account = do
    fields ← wrapping "failed to fetch account: " (rdb.h_get_all (account_key account))
    if has_no_entry fields
        then raise (plain ("account not found: " <> account))
        else pure (object_of fields)

  -- `exists == 0`, with the error of a call that failed.
  abbrev if_exists : String → Error → Call (Unit {0}) → Call (Unit {0})
  if_exists key missing rest = do
    exists ← wrapping "failed to check account existence: " (rdb.exists key)
    if eqb exists 0 then raise missing else rest

  unfoldable pub update_account_level : String → ℕ → Call (Unit {0})
  update_account_level account level =
      if_exists (account_key account) (plain ("account not found: " <> account)) (
        wrapping "failed to update account level: "
          (rdb.h_set (account_key account) (("user_lel", rdb.int8_text level) ∷ [])))

  -- The fields of an account that is activated.
  abbrev pub activated : ℕ → Dict String
  activated level =
      ("user_lel", rdb.int8_text level) ∷ ("e_mail_address", "[]") ∷ ("license", "") ∷ []

  unfoldable pub active_account : String → ℕ → Call (Unit {0})
  active_account account level =
      wrapping "failed to activate account: " (rdb.h_set (account_key account) (activated level))

  -- The text, or "" for `redis.Nil`.
  abbrev or_nil : String → Call String → Call String
  or_nil message m =
      branch m pure (λ e. if not (is_not_found e) then raise (wrapped message e) else pure "")

  abbrev parse_emails : String → Call (List String)
  parse_emails emails =
      if not (is_empty emails)
      then wrapping "failed to parse email list: " (lift (rdb.unmarshal_emails emails))
      else pure []

  -- The list of an account's emails, as both helpers begin.
  unfoldable pub load_emails : String → Call (List String)
  load_emails key = do
    text ← or_nil "failed to fetch email list: " (rdb.h_get key "e_mail_address")
    parse_emails text

  unfoldable pub append_email_to_account : String → String → Call (Unit {0})
  append_email_to_account key email = do
    emails ← load_emails key
    if has emails email
        then pure tt
        else rdb.h_set key (("e_mail_address", rdb.marshal_emails (emails ++ (email ∷ []))) ∷ [])

  unfoldable pub remove_email_from_account : String → String → Call (Unit {0})
  remove_email_from_account key email = do
    emails ← load_emails key
    rdb.h_set key (("e_mail_address", rdb.marshal_emails (filter_out email emails)) ∷ [])

  unfoldable pub release_old : String → String → String → Call (Unit {0})
  release_old old account email =
      if not (is_empty old) && not (old == account)
      then wrapping "failed to remove email from old account: "
          (remove_email_from_account (account_key old) email)
      else pure tt

  abbrev not_activated : Error
  not_activated = new_bm_error bm_err_no_right "Activate your account first"

  unfoldable pub update_binding : String → String → Call (Unit {0})
  update_binding account email = if_exists (account_key account) not_activated (do
    old ← or_nil "failed to fetch email mapping: " (rdb.get (email_key email))
    release_old old account email
    wrapping "failed to update email mapping: " (rdb.set (email_key email) account)
    wrapping "failed to add email to account: "
        (append_email_to_account (account_key account) email))

  unfoldable pub delete_binding : String → String → Call (Unit {0})
  delete_binding account email = if_exists (account_key account) not_activated (do
    mapping ← or_nil "failed to fetch email mapping: " (rdb.get (email_key email))
    if is_empty mapping then pure tt else (do
      wrapping "failed to delete email mapping: " (rdb.del (email_key email))
      wrapping "failed to remove email from account: "
          (remove_email_from_account (account_key account) email)))

  unfoldable pub uninstall_by_user : String → Call (Unit {0})
  uninstall_by_user account = pure tt

  unfoldable pub delete_mappings : List String → Call (Unit {0})
  delete_mappings [] = pure tt
  delete_mappings (email ∷ rest) =
      wrapping ("failed to delete email mapping for " <> (email <> ": "))
        (rdb.del (email_key email))
      >> delete_mappings rest

  unfoldable pub delete_account : String → Call (Unit {0})
  delete_account account =
      if_exists (account_key account) (plain ("account does not exist: " <> account)) (do
        text ←
            wrapping "failed to get email addresses: "
              (rdb.h_get (account_key account) "e_mail_address")
        emails ← wrapping "failed to parse email addresses: " (lift (rdb.unmarshal_emails text))
        delete_mappings emails
        wrapping "failed to delete account: " (rdb.del (account_key account)))

  abbrev not_supported : {A : Type 0} → Call A
  not_supported = crash "api not support any more"

  unfoldable pub create_active_link : ActiveLinkData → Call (Unit {0})
  create_active_link link = not_supported

  unfoldable pub get_active_link : String → Call ActiveLinkData
  get_active_link token = not_supported

  unfoldable pub remove_active_link : String → Call (Unit {0})
  remove_active_link token = not_supported
