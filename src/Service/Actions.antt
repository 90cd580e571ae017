-- ===== src/Service/Actions.antt =====
-- The handlers behind `callFunc`, service/http_srv.go: each decodes the payload of a request whose
-- signature was accepted.
use contact_server.Base.{
  ℕ, ◌+◌, ◌-◌, ◌^◌, String, ◌<>◌, Bool, true, false, not, ◌||◌, List, [], ◌∷◌, Dict, put, ◌==◌,
  is_empty, ltb, if◌then◌else◌, plain, error_text, Exec, pure, raise, lift, branch, ◌>>=◌, ◌>>◌,
}
use contact_server.Common.{
  EmailReflect, ActiveLinkData, new_bm_error, bm_err_invalid_param, bm_err_database, or_empty,
}
use contact_server.Proto.{Bytes, BmReq, BmRsp, BindAction}
use contact_server.Wallet.Admin.{decrypt_admin_aes_key}
use contact_server.Service.Database.{Database}
use contact_server.Service.Levels.{check_rights_of_action, user_level_free}
use contact_server.Service.World.{
  Process, World, send_bind_confirm_mail, send_active_mail, on_db, spawn, new_string, unix_now,
}

-- `&pbs.BmRsp{Success: true}` with a payload.
abbrev pub success_rsp : Bytes → BmRsp
success_rsp bytes = record { success = true; msg = ""; payload = bytes }

-- `int32(l)` of an `int8`, on bit patterns: the sign is extended.
unfoldable pub int32_of_int8 : ℕ → ℕ
int32_of_int8 l = if ltb l 128 then l else l + (2 ^ 32 - 256)

abbrev is_nil {ℓ} : {A : Type ℓ} → List A → Bool
is_nil [] = true
is_nil (x ∷ xs) = false

-- The loop that copies the database's map into the reply.
unfoldable pub addresses : Dict EmailReflect → Dict String
addresses [] = []
addresses ((k, v) ∷ rest) = put k v.b_mail_address (addresses rest)

module _ (db : Database) (p : Process) where
  abbrev Handler : Type 0
  Handler = BmReq → Exec (World db.State) BmRsp

  unfoldable pub query_reflect_by_email_array : Handler
  unfolding addresses
  query_reflect_by_email_array request = do
    query ← lift (p.codec.unmarshal_query request.payload)
    if is_nil query.email_list
        then raise (new_bm_error bm_err_invalid_param "invalid email address array")
        else branch (on_db (db.query_reflects_by_emails query.email_list))
            (λ found.
              pure (success_rsp (p.codec.marshal_reflects (record { reflects = addresses found }))))
            (λ e.
              raise
                (new_bm_error bm_err_database ("failed to query by email array:" <> error_text e)))

  unfoldable pub query_account : Handler
  unfolding int32_of_int8
  query_account request = do
    query ← lift (p.codec.unmarshal_query request.payload)
    if is_empty query.address
        then raise (new_bm_error bm_err_invalid_param "invalid bmail address")
        else branch (on_db (db.query_account query.address))
            (λ account. pure (
              success_rsp (
                p.codec.marshal_account (record {
                  address = query.address;
                  level = int32_of_int8 account.user_lel;
                  license = account.license_hex;
                  emails = account.e_mail_address;
                }))))
            (λ e.
              raise (new_bm_error bm_err_database ("failed to query by bmail:" <> error_text e)))

  unfoldable pub account_active : Handler
  account_active request = do
    operation ← lift (p.codec.unmarshal_operation request.payload)
    if operation.is_del || is_empty request.signature
        then raise (new_bm_error bm_err_invalid_param "invalid account creation parameter")
        else on_db (db.active_account operation.address user_level_free) >> pure (success_rsp [])

  -- The reply's payload is 1, or 2 where the email must confirm the binding.
  unfoldable pub bind_account : Handler
  bind_account request = do
    action ← lift (p.codec.unmarshal_bind request.payload)
    if is_empty action.address || is_empty action.mail
        then raise (new_bm_error bm_err_invalid_param "invalid bind action parameter")
        else do
          on_db (check_rights_of_action db action.address)
          reflect ← on_db (db.query_reflect_by_one_email action.mail)
          if not (is_empty reflect.b_mail_address)
              then if not (reflect.b_mail_address == action.address)
                then spawn (send_bind_confirm_mail action false) >> pure (success_rsp (2 ∷ []))
                else pure (success_rsp (1 ∷ []))
              else on_db (db.update_binding action.address action.mail)
                >> pure (success_rsp (1 ∷ []))

  unfoldable pub unbind_account : Handler
  unbind_account request = do
    action ← lift (p.codec.unmarshal_bind request.payload)
    if is_empty action.address
        then raise (new_bm_error bm_err_invalid_param "invalid bind action parameter")
        else on_db (db.delete_binding action.address action.mail) >> pure (success_rsp [])

  abbrev pub link_of : String → String → String → ℕ → Bool → ActiveLinkData
  link_of token address email now is_unbind = record {
    token = token;
    address = address;
    email = email;
    create_time = now;
    is_unbind = is_unbind;
  }

  unfoldable pub active_by_email : Handler
  active_by_email request = do
    action ← lift (p.codec.unmarshal_active request.payload)
    if is_empty action.email
        then raise (new_bm_error bm_err_invalid_param "invalid active parameter")
        else do
          token ← new_string p
          now ← unix_now
          let link = link_of token request.address action.email now action.unbind
          on_db (db.create_active_link link)
          spawn (send_active_mail link action.subject action.body action.unbind)
          pure (success_rsp [])

  unfoldable pub decrypt_by_admin : Handler
  unfolding decrypt_admin_aes_key
  decrypt_by_admin request = do
    req ← lift (p.codec.unmarshal_decrypt request.payload)
    account ← on_db (db.query_account request.address)
    if is_nil (or_empty account.mail_store_obj)
        then raise (plain "bind your email to BMail first please")
        else do
          key ← lift (
              decrypt_admin_aes_key p.crypto p.field p.boxes p.admin req.sender request.address
                req.nonce req.admin_key req.mail_receiver (or_empty account.mail_store_obj))
          pure (success_rsp key)

  -- The goroutine of `sendBindConfirmMail`: it stores a link and, if that succeeds, mails it.
  unfoldable pub run_bind_confirm : BindAction → Bool → Exec (World db.State) (Unit {0})
  run_bind_confirm action is_unbind = do
    token ← new_string p
    now ← unix_now
    let link = link_of token action.address action.mail now is_unbind
    branch (on_db (db.create_active_link link))
        (λ _. spawn (send_active_mail link action.subject action.mail_body is_unbind))
        (λ _. pure tt)
