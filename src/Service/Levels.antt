-- ===== src/Service/Levels.antt =====
-- service/user_level.go. A level is a `uint8`; converting an `int8` keeps the bit pattern.
pub mod Rights
use contact_server.Base.{
  ℕ, ◌+◌, String, ◌<>◌, Bool, true, false, List, [], ◌∷◌, ◌++◌, length, has, eqb, ltb,
  if◌then◌else◌, Error, no_right, Result, ok, err, Exec, lift, ◌>>=◌, decimal,
}
use contact_server.Common.{BMailAccount}
use contact_server.Proto.{AccountOperation}
use contact_server.Service.Database.{Database}

abbrev pub user_level_in_active : ℕ
user_level_in_active = 0

abbrev pub user_level_free : ℕ
user_level_free = 1

abbrev pub user_level_normal_vip : ℕ
user_level_normal_vip = 2

abbrev pub user_level_plus_vip : ℕ
user_level_plus_vip = 3

abbrev pub user_level_enterprise_vip : ℕ
user_level_enterprise_vip = 4

abbrev pub email_addr_no_for_free : ℕ
email_addr_no_for_free = 2

abbrev pub email_addr_no_for_normal : ℕ
email_addr_no_for_normal = 4

abbrev pub email_addr_no_for_plus : ℕ
email_addr_no_for_plus = 8

-- The three limited cases of the switch.
abbrev limited : ℕ → ℕ → Error → Result (Unit {0})
limited size limit e = if ltb limit size then err e else ok tt

abbrev bind_limit : String → ℕ → Error
bind_limit users limit =
    no_right (": " <> users <> " users can only bind " <> decimal limit <> " email addresses")

-- The switch of `checkRightsOfAction`. `case UserLevelInActive:` is empty and does not fall
-- through, so the call returns nil behind the switch; `default` takes the levels not named.
unfoldable pub rights_of_action : ℕ → ℕ → Result (Unit {0})
rights_of_action level result_size =
    if eqb level user_level_in_active
    then ok tt
    else if eqb level user_level_free
    then limited result_size email_addr_no_for_free (bind_limit "free" email_addr_no_for_free)
    else if eqb level user_level_normal_vip
    then limited result_size email_addr_no_for_normal
        (bind_limit "normal vip" email_addr_no_for_normal)
    else if eqb level user_level_plus_vip
    then limited result_size email_addr_no_for_plus (bind_limit "plus vip" email_addr_no_for_plus)
    else if eqb level user_level_enterprise_vip
    then ok tt
    else err (no_right ": user is inactive")

-- The switch of `checkRightsOfAccount`, which has the same cases.
unfoldable pub rights_of_account : ℕ → ℕ → Result (Unit {0})
rights_of_account level size =
    if eqb level user_level_in_active
    then ok tt
    else if eqb level user_level_free
    then limited size email_addr_no_for_free (no_right "")
    else if eqb level user_level_normal_vip
    then limited size email_addr_no_for_normal (no_right "")
    else if eqb level user_level_plus_vip
    then limited size email_addr_no_for_plus (no_right "")
    else if eqb level user_level_enterprise_vip
    then ok tt
    else err (no_right "")

-- `addIfNotSeen`: what was seen is what the result holds.
unfoldable pub add_if_not_seen : List String → List String → List String
add_if_not_seen [] result = result
add_if_not_seen (item ∷ rest) result =
    add_if_not_seen rest (if has result item then result else result ++ (item ∷ []))

unfoldable pub unique_combine : List String → List String → List String
unfolding add_if_not_seen
unique_combine slice1 slice2 = add_if_not_seen slice2 (add_if_not_seen slice1 [])

module _ (db : Database) where
  unfoldable pub check_rights_of_action : String → Exec db.State (Unit {0})
  check_rights_of_action address = do
    acc ← db.query_account address
    lift (rights_of_action acc.user_lel (length acc.e_mail_address + 1))

  unfoldable pub check_rights_of_account : AccountOperation → Exec db.State (Unit {0})
  check_rights_of_account operation = do
    acc ← db.query_account operation.address
    lift (
        if operation.is_del
        then ok tt
        else rights_of_account acc.user_lel
            (length (unique_combine acc.e_mail_address operation.emails)))
