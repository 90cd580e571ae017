-- ===== src/Firestore/Unbinding.antt =====
-- What `DeleteBinding`, `UninstallByUser` and `DeleteAccount` do to the documents on success.
use contact_server.Base.{
  String, ◌≡◌, false, ◌&&◌, none, ◌==◌, if◌then◌else◌, find, Result, ok, arith, is_some,
  Option-cases, Result-cases, inl, inr, has-keys,
}
use contact_server.Common.{or_empty}
use contact_server.Firestore.Client.{Firestore, account_table, reflect_table, IsLawful}
use contact_server.Firestore.View.{account_at, owner, lists}
use contact_server.Firestore.Account.{
  database_to_obj, Loaded, saving, removed, cleared, emails_of, delete_reflects, delete_binding,
  uninstall_by_user, delete_account,
}
use contact_server.Firestore.Steps.{
  saved, saved_others, loaded_missing, loaded_kept, deleted_reflect, deleted_reflects,
}
use contact_server.Firestore.Binding.{holds-removed}

module _ (fs : Firestore) (L : IsLawful fs) (account email : String) (s : fs.State) where
  abbrev after : Result (Unit {0}) × fs.State
  after = delete_binding fs account email s

  abbrev loaded : Result Loaded
  loaded = (database_to_obj fs account_table account (saving (removed email)) s).0

  abbrev between : fs.State
  between = (database_to_obj fs account_table account (saving (removed email)) s).1

  -- With a lawful client, after a `DeleteBinding` that returns no error the email is bound to no
  -- address, whatever its address was, if the account has a document; every other email, and every
  -- email if it has none, keeps its address.
  pub owner-delete_binding :
      (e : String)
      → after.0 ≡ ok tt
      → owner fs after.1 e
        ≡ (if is_some (fs.doc s account_table account) && email == e then "" else owner fs s e)
  unfolding delete_binding
  owner-delete_binding e h = ground (
    arith,
    loaded_missing fs L (removed email) account s,
    saved_others fs L (removed email) account s reflect_table e,
    deleted_reflect fs L email between reflect_table e,
  )

  -- The account lists the email no more, and nothing else that is listed changes.
  pub lists-delete_binding :
      (a e : String)
      → after.0 ≡ ok tt
      → lists fs after.1 a e ≡ (if account == a && email == e then false else lists fs s a e)
  unfolding delete_binding
  lists-delete_binding a e h = elim (Result-cases loaded) [
    | inl (l, returned) ↦ ground (
      arith,
      returned,
      loaded_missing fs L (removed email) account s,
      loaded_kept fs L (removed email) account s account_table a,
      saved fs L (removed email) account s,
      saved_others fs L (removed email) account s account_table a,
      deleted_reflect fs L email between account_table a,
      holds-removed email e l.object,
    )
    | inr bad ↦ ground (arith, bad)
  ]

module _ (fs : Firestore) (L : IsLawful fs) (account : String) (s : fs.State) where
  abbrev uninstalled : Result (Unit {0}) × fs.State
  uninstalled = uninstall_by_user fs account s

  abbrev cleared_load : Result Loaded
  cleared_load = (database_to_obj fs account_table account (saving cleared) s).0

  abbrev cleared_state : fs.State
  cleared_state = (database_to_obj fs account_table account (saving cleared) s).1

  -- With a lawful client, after an `UninstallByUser` that returns no error the emails that the
  -- account listed are bound to no address, and every other email keeps its address.
  pub owner-uninstall_by_user :
      (e : String)
      → uninstalled.0 ≡ ok tt
      → owner fs uninstalled.1 e ≡ (if lists fs s account e then "" else owner fs s e)
  unfolding uninstall_by_user find
  owner-uninstall_by_user e h = elim (Result-cases cleared_load) [
    | inl (l, returned) ↦ ground (
      arith,
      returned,
      loaded_missing fs L cleared account s,
      saved fs L cleared account s,
      saved_others fs L cleared account s reflect_table e,
      deleted_reflects fs L (emails_of l.object) cleared_state reflect_table e,
      has-keys (or_empty l.object.mail_store_obj) e,
    )
    | inr bad ↦ ground (arith, bad)
  ]

  -- The account lists nothing, and every other account what it listed.
  pub lists-uninstall_by_user :
      (a e : String)
      → uninstalled.0 ≡ ok tt
      → lists fs uninstalled.1 a e ≡ (if account == a then false else lists fs s a e)
  unfolding uninstall_by_user find
  lists-uninstall_by_user a e h = elim (Result-cases cleared_load) [
    | inl (l, returned) ↦ ground (
      arith,
      returned,
      loaded_missing fs L cleared account s,
      loaded_kept fs L cleared account s account_table a,
      saved fs L cleared account s,
      saved_others fs L cleared account s account_table a,
      deleted_reflects fs L (emails_of l.object) cleared_state account_table a,
    )
    | inr bad ↦ ground (arith, bad)
  ]

  abbrev deleted : Result (Unit {0}) × fs.State
  deleted = delete_account fs account s

  abbrev read_state : fs.State
  read_state = (fs.get account_table account s).1

  -- The emails that the account listed are bound to no address.
  pub owner-delete_account :
      (e : String)
      → deleted.0 ≡ ok tt
      → owner fs deleted.1 e ≡ (if lists fs s account e then "" else owner fs s e)
  unfolding delete_account find
  owner-delete_account e h = elim (Option-cases (account_at fs s account)) [
    | inl missing ↦ ground (
      arith,
      missing,
      L.get_reads account_table account s,
      L.get_keeps account_table account s reflect_table e,
    )
    | inr (ba, held) ↦ ground (
      arith,
      held,
      L.get_reads account_table account s,
      L.get_keeps account_table account s reflect_table e,
      deleted_reflects fs L (emails_of ba) read_state reflect_table e,
      L.delete_drops account_table account (delete_reflects fs (emails_of ba) read_state).1
          reflect_table e,
      has-keys (or_empty ba.mail_store_obj) e,
    )
  ]

  -- With a lawful client, after a `DeleteAccount` that returns no error there is no account under
  -- the address, and every other account is as it was.
  pub account_at-delete_account :
      (a : String)
      → deleted.0 ≡ ok tt
      → account_at fs deleted.1 a ≡ (if account == a then none else account_at fs s a)
  unfolding delete_account
  account_at-delete_account a h = elim (Option-cases (account_at fs s account)) [
    | inl missing ↦ ground (
      arith,
      missing,
      L.get_reads account_table account s,
      L.get_keeps account_table account s account_table a,
    )
    | inr (ba, held) ↦ ground (
      arith,
      held,
      L.get_reads account_table account s,
      L.get_keeps account_table account s account_table a,
      deleted_reflects fs L (emails_of ba) read_state account_table a,
      L.delete_drops account_table account (delete_reflects fs (emails_of ba) read_state).1
          account_table a,
    )
  ]
