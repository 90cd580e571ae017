-- ===== src/Firestore/Levels.antt =====
-- What `ActiveAccount`, `UpdateAccountLevel` and `QueryAccount` do.
use contact_server.Base.{
  ℕ, String, ◌≡◌, ◌≢◌, ◌&&◌, none, some, ◌==◌, if◌then◌else◌, find, Result, ok, IfOk, not, arith,
  is_some, Option-cases, Result-cases, inl, inr, has, has-keys,
}
use contact_server.Common.{BMailAccount, or_empty, empty_account, map_to_array}
use contact_server.Firestore.Client.{
  Firestore, Collection, account_table, reflect_table, same_collection, IsLawful,
}
use contact_server.Firestore.View.{account_at, owner, lists, level_of}
use contact_server.Firestore.Account.{query_account, update_account_level, active_account}

module _ (fs : Firestore) (L : IsLawful fs) (account : String) (level : ℕ) (s : fs.State) where
  abbrev activated : Result (Unit {0}) × fs.State
  activated = active_account fs account level s

  -- With a lawful client, after an `ActiveAccount` that returns no error every document is as it
  -- was, also the account's if it had one; if it had none, it now has the level given and no
  -- address.
  pub active_account_lem :
      (t : Collection) (k : String)
      → activated.0 ≡ ok tt
      → fs.doc activated.1 t k ≡ (
          if same_collection account_table t
            && account == k
            && not (is_some (fs.doc s account_table account))
          then some (fs.data_of_account (record empty_account { user_lel = level }))
          else fs.doc s t k)
  unfolding active_account
  active_account_lem t k h = ground (
    arith,
    L.get_reads account_table account s,
    L.get_keeps account_table account s t k,
    L.set_writes account_table account
        (fs.data_of_account (record empty_account { user_lel = level }))
        (fs.get account_table account s).1 t k,
  )

  abbrev levelled : Result (Unit {0}) × fs.State
  levelled = update_account_level fs account level s

  -- With a lawful client, after an `UpdateAccountLevel` that returns no error the account has the
  -- level given, and every other account the level that it had, if any.
  level-update_account_level :
      (a : String)
      → levelled.0 ≡ ok tt
      → level_of (account_at fs levelled.1 a)
        ≡ (if account == a then some level else level_of (account_at fs s a))
  unfolding update_account_level
  level-update_account_level a h = elim (Option-cases (account_at fs s account)) [
    | inl missing ↦ ground (arith, missing, L.get_reads account_table account s)
    | inr (ba, held) ↦ ground (
      arith,
      held,
      L.get_reads account_table account s,
      L.get_keeps account_table account s account_table a,
      L.account_stored (record ba { user_lel = level }),
      L.set_writes account_table account (fs.data_of_account (record ba { user_lel = level }))
          (fs.get account_table account s).1 account_table a,
    )
  ]

  -- No email is bound anew.
  pub owner-update_account_level :
      (e : String) → levelled.0 ≡ ok tt → owner fs levelled.1 e ≡ owner fs s e
  unfolding update_account_level
  owner-update_account_level e h = elim (Option-cases (account_at fs s account)) [
    | inl missing ↦ ground (arith, missing, L.get_reads account_table account s)
    | inr (ba, held) ↦ ground (
      arith,
      held,
      L.get_reads account_table account s,
      L.get_keeps account_table account s reflect_table e,
      L.set_writes account_table account (fs.data_of_account (record ba { user_lel = level }))
          (fs.get account_table account s).1 reflect_table e,
    )
  ]

  -- No account lists other emails than before.
  pub lists-update_account_level :
      (a e : String) → levelled.0 ≡ ok tt → lists fs levelled.1 a e ≡ lists fs s a e
  unfolding update_account_level
  lists-update_account_level a e h = elim (Option-cases (account_at fs s account)) [
    | inl missing ↦ ground (arith, missing, L.get_reads account_table account s)
    | inr (ba, held) ↦ ground (
      arith,
      held,
      L.get_reads account_table account s,
      L.get_keeps account_table account s account_table a,
      L.account_stored (record ba { user_lel = level }),
      L.set_writes account_table account (fs.data_of_account (record ba { user_lel = level }))
          (fs.get account_table account s).1 account_table a,
    )
  ]

module _ (fs : Firestore) (L : IsLawful fs) (account : String) (s : fs.State) where
  abbrev queried : Result BMailAccount × fs.State
  queried = query_account fs account s

  -- With a lawful client, a `QueryAccount` that returns no error returns the level of the account,
  -- if it has a document, and the zero account if not, and lists in its array exactly the emails
  -- that the document lists.
  query_account_lem : IfOk queried.0 (λ ba.
      (fs.doc s account_table account ≢ none
        → some ba.user_lel ≡ level_of (account_at fs s account))
      × (fs.doc s account_table account ≡ none → ba ≡ empty_account)
      × ((e : String) → has ba.e_mail_address e ≡ lists fs s account e))
  unfolding query_account map_to_array find
  query_account_lem = elim (Option-cases (fs.doc s account_table account)) [
    | inl missing ↦ ground (arith, missing, L.get_reads account_table account s)
    | inr (d, held) ↦ elim (Result-cases (fs.data_to_account d)) [
      | inl (ba, e) ↦
          ground (
            arith,
            held,
            L.get_reads account_table account s,
            has-keys (or_empty ba.mail_store_obj),
          )
      | inr bad ↦ ground (arith, bad, held, L.get_reads account_table account s)
    ]
  ]

  -- A query changes no document.
  pub query_account_keeps : (t : Collection) (k : String) → fs.doc queried.1 t k ≡ fs.doc s t k
  unfolding query_account
  query_account_keeps t k = ground (arith, L.get_keeps account_table account s t k)
