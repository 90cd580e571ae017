-- ===== src/Redis/Reflect.antt =====
-- db/db_redis/email_reflect.go.
use contact_server.Base.{
  String, Option, none, some, List, [], ◌∷◌, Dict, put, is_not_found, ok, Exec, pure, raise, lift,
  branch, ◌>>=◌, if◌then◌else◌,
}
use contact_server.Common.{EmailReflect, empty_reflect}
use contact_server.Redis.Keys.{email_key}
use contact_server.Redis.Client.{Redis}

module _ (rdb : Redis) where
  unfoldable pub query_reflect_by_one_email : String → Exec rdb.State EmailReflect
  query_reflect_by_one_email email =
      branch (rdb.get (email_key email)) (λ stored. lift (rdb.unmarshal_reflect stored))
        (λ e. if is_not_found e then pure empty_reflect else raise e)

  unfoldable pub email_keys : List String → List String
  email_keys [] = []
  email_keys (email ∷ rest) = email_key email ∷ email_keys rest

  -- One round of the loop over the results; what is absent or does not decode is passed over.
  unfoldable pub reflect_of : String → Option String → Dict EmailReflect → Dict EmailReflect
  reflect_of email none reflects = reflects
  reflect_of email (some stored) reflects = elim (rdb.unmarshal_reflect stored) [
    | ok r ↦ put email r reflects
    | _ ↦ reflects
  ]

  unfoldable pub reflects_of :
      List String → List (Option String) → Dict EmailReflect → Dict EmailReflect
  reflects_of (email ∷ emails) (result ∷ results) reflects =
      reflects_of emails results (reflect_of email result reflects)
  reflects_of _ _ reflects = reflects

  unfoldable pub query_reflects_by_emails : List String → Exec rdb.State (Dict EmailReflect)
  query_reflects_by_emails emails = do
    results ← rdb.m_get (email_keys emails)
    pure (reflects_of emails results [])
