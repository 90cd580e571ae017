-- ===== src/Firestore/Counts.antt =====
-- How many emails an account lists, and what `UpdateBinding` does to that number and to the level,
-- however it ends.
use contact_server.Base.{
  ℕ, ◌+◌, ◌≤◌, ◌≡◌, String, Bool, true, Option, none, some, ◌⊎◌, inl, inr, [], ◌∷◌, ◌==◌,
  if◌then◌else◌, Dict, put, drop_key, keys, length, IfOk, arith, Option-cases, Result-cases,
}
use contact_server.Common.{BMailAccount, or_empty, map_to_array}
use contact_server.Firestore.Client.{Firestore, account_table, IsLawful}
use contact_server.Firestore.View.{account_at, stored, level_of}
use contact_server.Firestore.Account.{
  query_account, update_binding, database_to_obj, saving, added, removed, unbind_old, emails_of,
}
use contact_server.Firestore.Reflect.{update_email_reflect_only}
use contact_server.Firestore.Steps.{saved_others, reflected_others}
use contact_server.Firestore.Failures.{maybe_saved}

length-keys-put :
    (k : String) (v : Bool) (m : Dict Bool) → length (keys (put k v m)) ≤ length (keys m) + 1
unfolding put keys
length-keys-put k v [] = omega arith
length-keys-put k v ((j, w) ∷ m) = ground (arith, length-keys-put k v m)

length-keys-drop_key : (k : String) (m : Dict Bool) → length (keys (drop_key k m)) ≤ length (keys m)
unfolding drop_key keys
length-keys-drop_key k [] = omega arith
length-keys-drop_key k ((j, w) ∷ m) = ground (arith, length-keys-drop_key k m)

abbrev pub size_of : Option BMailAccount → ℕ
size_of none = 0
size_of (some ba) = length (emails_of ba)

size-added :
    (email : String) (ba : BMailAccount)
    → size_of (some (stored (added email ba))) ≤ size_of (some ba) + 1
size-added email ba = length-keys-put email true (or_empty ba.mail_store_obj)

pub size-removed :
    (email : String) (ba : BMailAccount)
    → size_of (some (stored (removed email ba))) ≤ size_of (some ba)
unfolding keys
size-removed email ba = ground (arith, length-keys-drop_key email (or_empty ba.mail_store_obj))

module _ (fs : Firestore) where
  abbrev pub size : fs.State → String → ℕ
  size s a = size_of (account_at fs s a)

module _ (fs : Firestore) (L : IsLawful fs) (email a : String) where
  sized_first :
      (account : String) (s : fs.State)
      → let s1 = (database_to_obj fs account_table account (saving (added email)) s).1 in
        (level_of (account_at fs s1 a) ≡ level_of (account_at fs s a))
        × (size fs s1 a ≤ size fs s a + (if account == a then 1 else 0))
  sized_first account s = elim (maybe_saved fs L (added email) account s) [
    | inl same ↦ ground (arith, same, saved_others fs L (added email) account s account_table a)
    | inr (ba, before, now) ↦ ground (
      arith,
      before,
      now,
      size-added email ba,
      saved_others fs L (added email) account s account_table a,
    )
  ]

  sized_last :
      (old : String) (s : fs.State)
      → let s1 = (unbind_old fs old email s).1 in
        (level_of (account_at fs s1 a) ≡ level_of (account_at fs s a))
        × (size fs s1 a ≤ size fs s a)
  unfolding unbind_old
  sized_last old s = elim (maybe_saved fs L (removed email) old s) [
    | inl same ↦ ground (arith, same, saved_others fs L (removed email) old s account_table a)
    | inr (ba, before, now) ↦ ground (
      arith,
      before,
      now,
      size-removed email ba,
      saved_others fs L (removed email) old s account_table a,
    )
  ]

  -- With a lawful client, however `UpdateBinding` ends, no level changes, the account lists at
  -- most one email more than before, and no other account more than before.
  pub size-update_binding :
      (account : String) (s : fs.State)
      → let s1 = (update_binding fs account email s).1 in
        (level_of (account_at fs s1 a) ≡ level_of (account_at fs s a))
        × (size fs s1 a ≤ size fs s a + (if account == a then 1 else 0))
  unfolding update_binding
  size-update_binding account s =
      let s1 = (database_to_obj fs account_table account (saving (added email)) s).1 in
      let call2 = update_email_reflect_only fs account email s1 in
      elim (Result-cases call2.0) [
        | inl (old, r) ↦ ground (
          arith,
          r,
          sized_first account s,
          reflected_others fs L account email s1 account_table a,
          sized_last old call2.1,
        )
        | inr bad ↦ ground (
          arith,
          bad,
          sized_first account s,
          reflected_others fs L account email s1 account_table a,
        )
      ]

module _ (fs : Firestore) (L : IsLawful fs) (account : String) (s : fs.State) where
  -- What a query returns of the level and the number of emails.
  pub query_account_size : IfOk (query_account fs account s).0 (λ ba.
      (length ba.e_mail_address ≡ size fs s account)
      × ((account_at fs s account ≡ none)
          ⊎ (level_of (account_at fs s account) ≡ some ba.user_lel)))
  unfolding query_account map_to_array keys
  query_account_size = elim (Option-cases (fs.doc s account_table account)) [
    | inl missing ↦ ground (arith, missing, L.get_reads account_table account s)
    | inr (d, held) ↦ elim (Result-cases (fs.data_to_account d)) [
      | inl (ba, e) ↦ ground (arith, held, L.get_reads account_table account s)
      | inr bad ↦ ground (arith, bad, held, L.get_reads account_table account s)
    ]
  ]
