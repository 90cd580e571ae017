-- ===== src/Firestore/Steps.antt =====
-- One call of `databaseToObj` and of the functions on reflections, by what the documents say
-- before and after.
use contact_server.Base.{
  String, ◌≡◌, true, false, ◌&&◌, none, some, ◌==◌, if◌then◌else◌, Result, ok, IfOk, arith, [],
  is_some, is_empty, Option-cases, Result-cases, inl, inr, ◌≢◌, List, has, ◌∷◌,
}
use contact_server.Common.{BMailAccount}
use contact_server.Firestore.Client.{
  Firestore, Collection, account_table, reflect_table, same_collection, IsLawful,
}
use contact_server.Firestore.View.{account_at, owner, stored}
use contact_server.Firestore.Account.{
  database_to_obj, Loaded, saving, removed, unbind_old, delete_reflects,
}
use contact_server.Firestore.Reflect.{update_email_reflect_only, delete_email_reflect}

module _ (fs : Firestore) (L : IsLawful fs) (f : BMailAccount → BMailAccount) (key : String)
    (s : fs.State) where
  abbrev call : Result Loaded × fs.State
  call = database_to_obj fs account_table key (saving f) s

  pub saved : IfOk call.0 (λ l.
      l.error ≡ none
      → (account_at fs s key ≡ some l.object)
        × (account_at fs call.1 key ≡ some (stored (f l.object))))
  unfolding database_to_obj saving
  saved = elim (Option-cases (fs.doc s account_table key)) [
    | inl missing ↦ ground (arith, L.get_reads account_table key s)
    | inr (d, held) ↦ elim (Result-cases (fs.data_to_account d)) [
      | inl (ba, e) ↦ ground (
        arith,
        L.get_reads account_table key s,
        L.account_stored (f ba),
        L.set_writes account_table key (fs.data_of_account (f ba)) (fs.get account_table key s).1
            account_table key,
      )
      | inr bad ↦ ground (arith, L.get_reads account_table key s, bad)
    ]
  ]

  -- Every other document stays.
  pub saved_others :
      (t : Collection) (k : String)
      → (same_collection account_table t && key == k) ≡ false
      → fs.doc call.1 t k ≡ fs.doc s t k
  unfolding database_to_obj saving
  saved_others t k other = elim (Option-cases (fs.doc s account_table key)) [
    | inl missing ↦
        ground (arith, L.get_reads account_table key s, L.get_keeps account_table key s t k)
    | inr (d, held) ↦ elim (Result-cases (fs.data_to_account d)) [
      | inl (ba, e) ↦ ground (
        arith,
        L.get_reads account_table key s,
        L.get_keeps account_table key s t k,
        L.set_writes account_table key (fs.data_of_account (f ba)) (fs.get account_table key s).1 t
            k,
      )
      | inr bad ↦
          ground (arith, L.get_reads account_table key s, L.get_keeps account_table key s t k, bad)
    ]
  ]

module _ (fs : Firestore) (L : IsLawful fs) (account email : String) (s : fs.State) where
  abbrev reflected : Result String × fs.State
  reflected = update_email_reflect_only fs account email s

  -- After a success the email is bound to the account; the result is its old address if that was
  -- another one, and "" if there is nothing to unbind.
  pub reflected_owner : IfOk reflected.0 (λ old.
      (owner fs reflected.1 email ≡ account)
      × (old ≡ (if owner fs s email == account then "" else owner fs s email)))
  unfolding update_email_reflect_only
  reflected_owner = ground (
    arith,
    L.get_reads reflect_table email s,
    L.get_keeps reflect_table email s reflect_table email,
    L.reflect_stored (record { b_mail_address = account }),
    L.set_writes reflect_table email (fs.data_of_reflect (record { b_mail_address = account }))
        (fs.get reflect_table email s).1 reflect_table email,
  )

  pub reflected_others :
      (t : Collection) (k : String)
      → (same_collection reflect_table t && email == k) ≡ false
      → fs.doc reflected.1 t k ≡ fs.doc s t k
  unfolding update_email_reflect_only
  reflected_others t k other = ground (
    arith,
    L.get_keeps reflect_table email s t k,
    L.set_writes reflect_table email (fs.data_of_reflect (record { b_mail_address = account }))
        (fs.get reflect_table email s).1 t k,
  )

module _ (fs : Firestore) (L : IsLawful fs) (old email : String) (s : fs.State) where
  abbrev unbound : Result (Unit {0}) × fs.State
  unbound = unbind_old fs old email s

  pub unbound_others :
      (t : Collection) (k : String)
      → (same_collection account_table t && old == k) ≡ false
      → fs.doc unbound.1 t k ≡ fs.doc s t k
  unfolding unbind_old
  unbound_others t k other = ground (arith, saved_others fs L (removed email) old s t k)

  pub unbound_account :
      is_empty old ≡ false
      → unbound.0 ≡ ok tt
      → (ba : BMailAccount) × (account_at fs s old ≡ some ba)
        × (account_at fs unbound.1 old ≡ some (stored (removed email ba)))
  unfolding unbind_old
  unbound_account named h =
      elim (Result-cases (database_to_obj fs account_table old (saving (removed email)) s).0) [
        | inl (l, e) ↦ (
          l.object,
          ground (arith, saved fs L (removed email) old s),
          ground (arith, saved fs L (removed email) old s),
        )
        | inr bad ↦ absurd (ground (arith, bad))
      ]

-- What `databaseToObj` says of a missing account, and that its object is the one that was held.
module _ (fs : Firestore) (L : IsLawful fs) (f : BMailAccount → BMailAccount) (key : String)
    (s : fs.State) where
  abbrev loading : Result Loaded × fs.State
  loading = database_to_obj fs account_table key (saving f) s

  pub loaded_missing : IfOk loading.0 (λ l.
      (l.error ≡ none → is_some (fs.doc s account_table key) ≡ true)
      × (l.error ≢ none → l.is_missing ≡ true → fs.doc s account_table key ≡ none))
  unfolding database_to_obj saving
  loaded_missing = ground (arith, L.get_reads account_table key s)

  pub loaded_kept :
      (t : Collection) (k : String)
      → fs.doc s account_table key ≡ none
      → fs.doc loading.1 t k ≡ fs.doc s t k
  unfolding database_to_obj saving
  loaded_kept t k missing =
      ground (arith, L.get_reads account_table key s, L.get_keeps account_table key s t k)

module _ (fs : Firestore) (L : IsLawful fs) where
  pub deleted_reflect :
      (email : String) (s : fs.State) (t : Collection) (k : String)
      → (delete_email_reflect fs email s).0 ≡ ok tt
      → fs.doc (delete_email_reflect fs email s).1 t k
        ≡ (if same_collection reflect_table t && email == k then none else fs.doc s t k)
  unfolding delete_email_reflect
  deleted_reflect email s t k = ground (arith, L.delete_drops reflect_table email s t k)

  pub deleted_reflects :
      (emails : List String) (s : fs.State) (t : Collection) (k : String)
      → (delete_reflects fs emails s).0 ≡ ok tt
      → fs.doc (delete_reflects fs emails s).1 t k
        ≡ (if same_collection reflect_table t && has emails k then none else fs.doc s t k)
  unfolding delete_reflects
  deleted_reflects [] s t k h = ground arith
  deleted_reflects (email ∷ rest) s t k h = ground (
    arith,
    deleted_reflect email s t k,
    deleted_reflects rest (delete_email_reflect fs email s).1 t k,
  )
