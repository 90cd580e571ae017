-- ===== src/Service/Stores/Limits.antt =====
-- The bound on the emails of an account, as the check of rights sees it.
use contact_server.Base.{
  ℕ, ◌+◌, ◌≤◌, ◌^◌, ◌≡◌, String, some, inl, inr, length, arith, ok, Result-cases,
}
use contact_server.Firestore.Client.{Firestore, IsLawful, account_table}
use contact_server.Firestore.View.{account_at, level_of}
use contact_server.Firestore.Account.{query_account}
use contact_server.Firestore.Levels.{query_account_keeps}
use contact_server.Firestore.Counts.{size, query_account_size}
use contact_server.Service.Levels.{check_rights_of_action}
use contact_server.Service.Levels.Rights.{rights_of_action-Allows}
use contact_server.Service.Stores.{firestore_database}

module _ (fs : Firestore) where
  -- An account of the levels free, normal vip and plus vip lists at most 2, 4 and 8 emails.
  abbrev pub WithinLimits : fs.State → Type 0
  WithinLimits s =
      (a : String) (level : ℕ)
      → level_of (account_at fs s a) ≡ some level
      → 1 ≤ level
      → level ≤ 3
      → size fs s a ≤ 2 ^ level

module _ (fs : Firestore) (L : IsLawful fs) where
  -- The check passes only where one more email is allowed, and changes no document.
  pub checked :
      (account : String) (s : fs.State) (level : ℕ)
      → level_of (account_at fs s account) ≡ some level
      → 1 ≤ level
      → level ≤ 3
      → (check_rights_of_action (firestore_database fs) account s).0 ≡ ok tt
      → size fs s account + 1 ≤ 2 ^ level
  unfolding check_rights_of_action
  checked account s level l lo hi h = elim (Result-cases (query_account fs account s).0) [
    | inl (acc, q) ↦ ground (
      arith,
      q,
      query_account_size fs L account s,
      (rights_of_action-Allows acc.user_lel (length acc.e_mail_address + 1)).0,
    )
    | inr bad ↦ absurd (ground (arith, bad))
  ]

  pub checked_keeps :
      (account : String) (s : fs.State) (a : String)
      → fs.doc (check_rights_of_action (firestore_database fs) account s).1 account_table a
        ≡ fs.doc s account_table a
  unfolding check_rights_of_action
  checked_keeps account s a = ground (arith, query_account_keeps fs L account s account_table a)
