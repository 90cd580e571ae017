-- ===== src/Firestore/Reflect.antt =====
-- db/db_firestore/email_reflect.go. The deadline of each call is part of the client.
use contact_server.Base.{
  String, List, [], ◌∷◌, ◌==◌, if◌then◌else◌, Dict, put, is_not_found, Result, ok, Exec, pure,
  raise, lift, branch, ◌>>=◌, ◌>>◌, not,
}
use contact_server.Common.{EmailReflect, empty_reflect}
use contact_server.Firestore.Client.{Firestore, reflect_table}

module _ (fs : Firestore) where
  open fs use {State, get, set, delete, data_to_reflect, data_of_reflect}

  -- One round of the loop in `QueryReflectsByEmails`: a document that does not decode is skipped.
  abbrev decoded : String → Dict EmailReflect → Result EmailReflect → Dict EmailReflect
  decoded email contacts (ok contact) = put email contact contacts
  decoded email contacts _ = contacts

  unfoldable pub query_reflects_from :
      List String → Dict EmailReflect → Exec State (Dict EmailReflect)
  query_reflects_from [] contacts = pure contacts
  query_reflects_from (email ∷ rest) contacts =
      branch (get reflect_table email)
        (λ d. query_reflects_from rest (decoded email contacts (data_to_reflect d)))
        (λ e. if is_not_found e then query_reflects_from rest contacts else raise e)

  unfoldable pub query_reflects_by_emails : List String → Exec State (Dict EmailReflect)
  unfolding query_reflects_from
  query_reflects_by_emails emails = query_reflects_from emails []

  unfoldable pub query_reflect_by_one_email : String → Exec State EmailReflect
  query_reflect_by_one_email email =
      branch (get reflect_table email) (λ d. lift (data_to_reflect d))
        (λ e. if is_not_found e then pure empty_reflect else raise e)

  unfoldable pub delete_email_reflect : String → Exec State (Unit {0})
  delete_email_reflect email =
      branch (delete reflect_table email) (λ _. pure tt)
        (λ e. if not (is_not_found e) then raise e else pure tt)

  abbrev write_reflect : String → String → String → Exec State String
  write_reflect email account old =
      set reflect_table email (data_of_reflect (record { b_mail_address = account })) >> pure old

  -- Returns the address that the email was bound to before, and "" if there is none to unbind.
  unfoldable pub update_email_reflect_only : String → String → Exec State String
  update_email_reflect_only account email =
      branch (get reflect_table email)
        (λ d. do
          obj ← lift (data_to_reflect d)
          if obj.b_mail_address == account
              then pure ""
              else write_reflect email account obj.b_mail_address)
        (λ e. if not (is_not_found e) then raise e else write_reflect email account "")
