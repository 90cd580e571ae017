-- ===== src/Common.antt =====
-- common/db_obj.go and common/bmerror.go: the objects that the databases hold, and the codes of a
-- `BMError`. An `int8` is its bit pattern, a number below 256.
pub mod Agreement
pub mod Accounts
use contact_server.Base.{
  ℕ, String, Bool, true, Option, none, some, List, [], ◌∷◌, Dict, find, put, keys, Error, bm_error,
}

abbrev pub bm_err_invalid_param : ℕ
bm_err_invalid_param = 1

abbrev pub bm_err_database : ℕ
bm_err_database = 2

abbrev pub bm_err_no_right : ℕ
bm_err_no_right = 3

abbrev pub bm_err_duplicate : ℕ
bm_err_duplicate = 4

-- `NewBMError`
abbrev pub new_bm_error : ℕ → String → Error
new_bm_error code message = bm_error code message

-- A nil `MailStoreObj` is `none`; a nil slice is the empty list.
pub record BMailAccount : Type 0 where
  pub user_lel : ℕ
  pub e_mail_address : List String
  pub mail_store_obj : Option (Dict Bool)
  pub license_hex : String

-- `&common.BMailAccount{}`
abbrev pub empty_account : BMailAccount
empty_account = record {
  user_lel = 0;
  e_mail_address = [];
  mail_store_obj = none;
  license_hex = "";
}

abbrev pub or_empty : Option (Dict Bool) → Dict Bool
or_empty none = []
or_empty (some m) = m

unfoldable pub map_to_array : BMailAccount → BMailAccount
map_to_array ba =
    let store = or_empty ba.mail_store_obj in
    record ba { mail_store_obj = some store; e_mail_address = keys store }

put_all : List String → Dict Bool → Dict Bool
put_all [] m = m
put_all (e ∷ es) m = put_all es (put e true m)

unfoldable pub array_to_map : BMailAccount → BMailAccount
unfolding put_all
array_to_map ba = record ba { mail_store_obj = some (put_all ba.e_mail_address []) }

pub record EmailReflect : Type 0 where
  pub b_mail_address : String

-- `&common.EmailReflect{}`
abbrev pub empty_reflect : EmailReflect
empty_reflect = record { b_mail_address = "" }

pub record ActiveLinkData : Type 0 where
  pub token : String
  pub address : String
  pub email : String
  pub create_time : ℕ
  pub is_unbind : Bool
