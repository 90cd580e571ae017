-- ===== src/LevelDb/Reflect.antt =====
-- db/db_leveldb/email_reflect.go and `deleteEmailReflect` of account.go.
use contact_server.Base.{
  String, List, [], ◌∷◌, ◌==◌, not, if◌then◌else◌, Dict, put, is_not_found, Exec, pure, raise,
  branch, ◌>>◌,
}
use contact_server.Common.{EmailReflect, empty_reflect}
use contact_server.LevelDb.Keys.{email_key}
use contact_server.LevelDb.Client.{LevelDb, read_reflect, write_reflect, delete_key}
use contact_server.LevelDb.Locks.{Manager, at_db, with_lock}

module _ (ldb : LevelDb) where
  unfoldable pub query_reflect_by_one_email : String → Exec (Manager ldb.State) EmailReflect
  query_reflect_by_one_email email = with_lock (email_key email) (
      branch (at_db (read_reflect ldb (email_key email))) pure
        (λ e. if is_not_found e then pure empty_reflect else raise e))

  unfoldable pub query_reflects_from :
      List String → Dict EmailReflect → Exec (Manager ldb.State) (Dict EmailReflect)
  query_reflects_from [] reflects = pure reflects
  query_reflects_from (email ∷ rest) reflects =
      branch (with_lock (email_key email) (at_db (read_reflect ldb (email_key email))))
        (λ account. query_reflects_from rest (put email account reflects))
        (λ e. if is_not_found e then query_reflects_from rest reflects else raise e)

  unfoldable pub query_reflects_by_emails :
      List String → Exec (Manager ldb.State) (Dict EmailReflect)
  query_reflects_by_emails emails = query_reflects_from emails []

  abbrev store_reflect : String → String → String → Exec (Manager ldb.State) String
  store_reflect email account old =
      at_db (write_reflect ldb (email_key email) (record { b_mail_address = account })) >> pure old

  unfoldable pub update_email_reflect_only : String → String → Exec (Manager ldb.State) String
  update_email_reflect_only account email = with_lock (email_key email) (
      branch (at_db (read_reflect ldb (email_key email)))
        (λ obj.
          if not (obj.b_mail_address == account)
          then store_reflect email account obj.b_mail_address
          else pure "")
        (λ e. if is_not_found e then store_reflect email account "" else raise e))

  unfoldable pub delete_email_reflect : String → Exec (Manager ldb.State) (Unit {0})
  delete_email_reflect email =
      with_lock (email_key email) (at_db (delete_key ldb (email_key email)))
