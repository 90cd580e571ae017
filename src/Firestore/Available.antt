-- ===== src/Firestore/Available.antt =====
-- The calls of the Firestore database on the way of a new account, where the client is available.
use contact_server.Base.{
  ℕ, String, ◌≡◌, true, false, none, some, ◌&&◌, ◌==◌, if◌then◌else◌, is_not_found, Result, ok, err,
  panic, arith,
}
use contact_server.Common.{BMailAccount, ActiveLinkData, empty_account, map_to_array}
use contact_server.Firestore.Client.{
  Firestore, Collection, account_table, reflect_table, active_link, same_collection, IsLawful,
}
use contact_server.Firestore.Account.{
  query_account, active_account, update_binding, database_to_obj, saving, added, unbind_old,
}
use contact_server.Firestore.Reflect.{update_email_reflect_only}
use contact_server.Firestore.Steps.{saved_others}
use contact_server.Firestore.Active.{create_active_link, get_active_link, remove_active_link}

-- It was not there.
abbrev pub IsMissing : {A : Type 0} → Result A → Type 0
IsMissing (ok a) = ⊥
IsMissing (err e) = is_not_found e ≡ true
IsMissing (panic w) = ⊥

-- No call fails.
pub record IsAvailable (fs : Firestore) : Type 0 where
  pub get_held :
      (t : Collection) (k : String) (s : fs.State) (d : fs.Doc)
      → fs.doc s t k ≡ some d
      → (fs.get t k s).0 ≡ ok d
  pub get_missing :
      (t : Collection) (k : String) (s : fs.State)
      → fs.doc s t k ≡ none
      → IsMissing (fs.get t k s).0
  pub set_done :
      (t : Collection) (k : String) (d : fs.Doc) (s : fs.State) → (fs.set t k d s).0 ≡ ok tt
  pub delete_done : (t : Collection) (k : String) (s : fs.State) → (fs.delete t k s).0 ≡ ok tt

-- The account as `ActiveAccount` makes it.
abbrev pub new_account : ℕ → BMailAccount
new_account level = record empty_account { user_lel = level }

module _ (fs : Firestore) (L : IsLawful fs) (V : IsAvailable fs) where
  pub create_active_link-done :
      (l : ActiveLinkData) (s : fs.State) (t : Collection) (k : String)
      → fs.doc s active_link l.token ≡ none
      → let (r, s') = create_active_link fs l s in
        (r ≡ ok tt)
        × (fs.doc s' t k ≡ (
            if same_collection active_link t && l.token == k
            then some (fs.data_of_link l)
            else fs.doc s t k))
  unfolding create_active_link
  create_active_link-done l s t k free =
      let s1 = (fs.get active_link l.token s).1 in
      ground (
        arith,
        free,
        V.get_missing active_link l.token s,
        V.set_done active_link l.token (fs.data_of_link l) s1,
        L.get_keeps active_link l.token s t k,
        L.set_writes active_link l.token (fs.data_of_link l) s1 t k,
      )

  pub get_active_link-done :
      (l : ActiveLinkData) (s : fs.State) (t : Collection) (k : String)
      → fs.doc s active_link l.token ≡ some (fs.data_of_link l)
      → let (r, s') = get_active_link fs l.token s in (r ≡ ok l) × (fs.doc s' t k ≡ fs.doc s t k)
  unfolding get_active_link
  get_active_link-done l s t k held = ground (
    arith,
    held,
    V.get_held active_link l.token s (fs.data_of_link l),
    L.link_stored l,
    L.get_keeps active_link l.token s t k,
  )

  pub active_account-done :
      (a : String) (level : ℕ) (s : fs.State) (t : Collection) (k : String)
      → fs.doc s account_table a ≡ none
      → let (r, s') = active_account fs a level s in
        (r ≡ ok tt)
        × (fs.doc s' t k ≡ (
            if same_collection account_table t && a == k
            then some (fs.data_of_account (new_account level))
            else fs.doc s t k))
  unfolding active_account
  active_account-done a level s t k free =
      let s1 = (fs.get account_table a s).1 in
      ground (
        arith,
        free,
        V.get_missing account_table a s,
        V.set_done account_table a (fs.data_of_account (new_account level)) s1,
        L.get_keeps account_table a s t k,
        L.set_writes account_table a (fs.data_of_account (new_account level)) s1 t k,
      )

  pub query_account-done :
      (a : String) (level : ℕ) (s : fs.State)
      → fs.doc s account_table a ≡ some (fs.data_of_account (new_account level))
      → (query_account fs a s).0 ≡ ok (map_to_array (new_account level))
  unfolding query_account
  query_account-done a level s held = ground (
    arith,
    held,
    V.get_held account_table a s (fs.data_of_account (new_account level)),
    L.account_stored (new_account level),
  )

  saved-done :
      (a email : String) (level : ℕ) (s : fs.State)
      → fs.doc s account_table a ≡ some (fs.data_of_account (new_account level))
      → (database_to_obj fs account_table a (saving (added email)) s).0
        ≡ ok (record { error = none; is_missing = false; object = new_account level })
  unfolding database_to_obj saving
  saved-done a email level s held =
      let s1 = (fs.get account_table a s).1 in
      ground (
        arith,
        held,
        V.get_held account_table a s (fs.data_of_account (new_account level)),
        L.account_stored (new_account level),
        V.set_done account_table a (fs.data_of_account (added email (new_account level))) s1,
      )

  reflected-done :
      (a email : String) (s : fs.State)
      → fs.doc s reflect_table email ≡ none
      → (update_email_reflect_only fs a email s).0 ≡ ok ""
  unfolding update_email_reflect_only
  reflected-done a email s free =
      let s1 = (fs.get reflect_table email s).1 in
      ground (
        arith,
        free,
        V.get_missing reflect_table email s,
        V.set_done reflect_table email (fs.data_of_reflect (record { b_mail_address = a })) s1,
      )

  pub update_binding-done :
      (a email : String) (level : ℕ) (s : fs.State)
      → fs.doc s account_table a ≡ some (fs.data_of_account (new_account level))
      → fs.doc s reflect_table email ≡ none
      → (update_binding fs a email s).0 ≡ ok tt
  unfolding update_binding unbind_old
  update_binding-done a email level s held free =
      let s1 = (database_to_obj fs account_table a (saving (added email)) s).1 in
      ground (
        arith,
        saved-done a email level s held,
        saved_others fs L (added email) a s reflect_table email,
        free,
        reflected-done a email s1,
      )

  pub remove_active_link-done :
      (token : String) (s : fs.State) → (remove_active_link fs token s).0 ≡ ok tt
  unfolding remove_active_link
  remove_active_link-done token s = ground (arith, V.delete_done active_link token s)
