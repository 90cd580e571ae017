-- ===== src/Redis/Steps.antt =====
-- The inner calls of `UpdateBinding` and `DeleteBinding`, by what the keys say before and after.
use contact_server.Base.{
  String, ◌≡◌, true, false, ◌&&◌, not, List, [], ◌∷◌, ◌++◌, ◌==◌, is_empty, if◌then◌else◌,
  has-append, find, Result, ok, IfOk, arith, Result-cases, inl, inr,
}
use contact_server.Redis.Keys.{account_key, account_key_eq}
use contact_server.Redis.Client.{Redis, IsLawful}
use contact_server.Redis.Account.{
  filter_out, load_emails, append_email_to_account, remove_email_from_account, release_old,
}
use contact_server.Redis.View.{emails_at, lists, has-filter_out}

module _ (rdb : Redis) (L : IsLawful rdb) where
  abbrev listing : List String → List (String × String)
  listing es = ("e_mail_address", rdb.marshal_emails es) ∷ []

  -- A list that is written is the one that is read.
  written :
      (a : String) (es : List String) (s : rdb.State) (b : String)
      → (rdb.h_set (account_key a) (listing es) s).0 ≡ ok tt
      → emails_at rdb (rdb.h_set (account_key a) (listing es) s).1 b
        ≡ (if a == b then es else emails_at rdb s b)
  unfolding find
  written a es s b h = ground (
    arith,
    L.emails_stored es,
    L.emails_not_empty es,
    L.h_set_writes (account_key a) (listing es) s (account_key b) "e_mail_address",
    account_key_eq a b,
  )

  loaded :
      (a : String) (s : rdb.State)
      → IfOk (load_emails rdb (account_key a) s).0 (λ es. es ≡ emails_at rdb s a)
  unfolding load_emails
  loaded a s = ground (arith, L.h_get_reads (account_key a) "e_mail_address" s)

  loaded_keeps :
      (a : String) (s : rdb.State) (k f : String)
      → (rdb.field (load_emails rdb (account_key a) s).1 k f ≡ rdb.field s k f)
        × (rdb.text (load_emails rdb (account_key a) s).1 k ≡ rdb.text s k)
  unfolding load_emails
  loaded_keeps a s k f = ground (arith, L.h_get_keeps (account_key a) "e_mail_address" s k f)

  module _ (a email : String) (s : rdb.State) where
    abbrev load : Result (List String) × rdb.State
    load = load_emails rdb (account_key a) s

    pub removed_texts :
        (k : String)
        → rdb.text (remove_email_from_account rdb (account_key a) email s).1 k ≡ rdb.text s k
    unfolding remove_email_from_account
    removed_texts k = elim (Result-cases load.0) [
      | inl (es, returned) ↦ ground (
        arith,
        returned,
        loaded_keeps a s k "e_mail_address",
        L.h_set_keeps (account_key a) (listing (filter_out email es)) load.1 k,
      )
      | inr bad ↦ ground (arith, bad, loaded_keeps a s k "e_mail_address")
    ]

    pub removed_lists :
        (b e : String)
        → (remove_email_from_account rdb (account_key a) email s).0 ≡ ok tt
        → lists rdb (remove_email_from_account rdb (account_key a) email s).1 b e
          ≡ (if a == b && email == e then false else lists rdb s b e)
    unfolding remove_email_from_account
    removed_lists b e h = elim (Result-cases load.0) [
      | inl (es, returned) ↦ ground (
        arith,
        returned,
        loaded a s,
        loaded_keeps a s (account_key b) "e_mail_address",
        written a (filter_out email es) load.1 b,
        has-filter_out email es e,
      )
      | inr bad ↦ ground (arith, bad)
    ]

    pub appended_texts :
        (k : String)
        → rdb.text (append_email_to_account rdb (account_key a) email s).1 k ≡ rdb.text s k
    unfolding append_email_to_account
    appended_texts k = elim (Result-cases load.0) [
      | inl (es, returned) ↦ ground (
        arith,
        returned,
        loaded_keeps a s k "e_mail_address",
        L.h_set_keeps (account_key a) (listing (es ++ (email ∷ []))) load.1 k,
      )
      | inr bad ↦ ground (arith, bad, loaded_keeps a s k "e_mail_address")
    ]

    pub appended_lists :
        (b e : String)
        → (append_email_to_account rdb (account_key a) email s).0 ≡ ok tt
        → lists rdb (append_email_to_account rdb (account_key a) email s).1 b e
          ≡ (if a == b && email == e then true else lists rdb s b e)
    unfolding append_email_to_account
    appended_lists b e h = elim (Result-cases load.0) [
      | inl (es, returned) ↦ ground (
        arith,
        returned,
        loaded a s,
        loaded_keeps a s (account_key b) "e_mail_address",
        written a (es ++ (email ∷ [])) load.1 b,
        has-append es (email ∷ []) e,
      )
      | inr bad ↦ ground (arith, bad)
    ]

  module _ (old account email : String) (s : rdb.State) where
    abbrev release : Result (Unit {0}) × rdb.State
    release = release_old rdb old account email s

    pub released_texts : (k : String) → rdb.text release.1 k ≡ rdb.text s k
    unfolding release_old
    released_texts k = ground (arith, removed_texts old email s k)

    pub released_lists :
        (b e : String)
        → release.0 ≡ ok tt
        → lists rdb release.1 b e ≡ (
            if not (is_empty old) && not (old == account) && old == b && email == e
            then false
            else lists rdb s b e)
    unfolding release_old
    released_lists b e h = ground (arith, removed_lists old email s b e)
