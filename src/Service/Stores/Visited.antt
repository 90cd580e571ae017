-- ===== src/Service/Stores/Visited.antt =====
-- The visit of a new account's link, over an available Firestore.
use contact_server.Base.{String, ◌≡◌, refl, ◌∙◌, true, false, none, some, is_empty, ok, keys, arith}
use contact_server.Common.{ActiveLinkData, map_to_array}
use contact_server.Firestore.Client.{
  Firestore, Collection, IsLawful, account_table, reflect_table, active_link, same_collection,
}
use contact_server.Firestore.View.{owner, lists}
use contact_server.Firestore.Account.{active_account, update_binding}
use contact_server.Firestore.Active.{get_active_link, remove_active_link}
use contact_server.Firestore.Levels.{query_account_keeps}
use contact_server.Firestore.Binding.{owner-update_binding, lists-update_binding}
use contact_server.Firestore.Available.{
  IsAvailable, new_account, get_active_link-done, active_account-done, query_account-done,
  update_binding-done, remove_active_link-done,
}
use contact_server.Service.World.{Process, World}
use contact_server.Service.Levels.{check_rights_of_action, rights_of_action}
use contact_server.Service.Pages.{page, active_verify}
use contact_server.Service.Http.{status_ok}
use contact_server.Service.Stores.{firestore_database}
use contact_server.Wallet.Links.{verify_activation_link}

module _ (fs : Firestore) (L : IsLawful fs) (V : IsAvailable fs) where
  check-done :
      (a : String) (s : fs.State)
      → fs.doc s account_table a ≡ some (fs.data_of_account (new_account 1))
      → (check_rights_of_action (firestore_database fs) a s).0 ≡ ok tt
  unfolding check_rights_of_action rights_of_action map_to_array keys
  check-done a s held = ground (arith, query_account-done fs L V a 1 s held)

  check-keeps :
      (a : String) (s : fs.State) (t : Collection) (k : String)
      → fs.doc (check_rights_of_action (firestore_database fs) a s).1 t k ≡ fs.doc s t k
  unfolding check_rights_of_action
  check-keeps a s t k = ground (arith, query_account_keeps fs L a s t k)

  remove-keeps :
      (token : String) (s : fs.State) (t : Collection) (k : String)
      → same_collection active_link t ≡ false
      → fs.doc (remove_active_link fs token s).1 t k ≡ fs.doc s t k
  unfolding remove_active_link
  remove-keeps token s t k other = ground (arith, other, L.delete_drops active_link token s t k)

  module _ (p : Process) (link : ActiveLinkData) (signature : String) (w : World fs.State)
      (named : is_empty link.token ≡ false) (signed : is_empty signature ≡ false)
      (made : fs.doc w.db active_link link.token ≡ some (fs.data_of_link link))
      (new : fs.doc w.db account_table link.address ≡ none)
      (free : fs.doc w.db reflect_table link.email ≡ none)
      (valid : verify_activation_link p.crypto p.admin p.sig_data w.now link signature
        ≡ ok tt) where
    abbrev pub s1 : fs.State
    s1 = (get_active_link fs link.token w.db).1

    abbrev pub s2 : fs.State
    s2 = (active_account fs link.address 1 s1).1

    abbrev pub s3 : fs.State
    s3 = (check_rights_of_action (firestore_database fs) link.address s2).1

    abbrev pub s4 : fs.State
    s4 = (update_binding fs link.address link.email s3).1

    new1 : fs.doc s1 account_table link.address ≡ none
    new1 =
        ground (arith, new, get_active_link-done fs L V link w.db account_table link.address made)

    held2 : fs.doc s2 account_table link.address ≡ some (fs.data_of_account (new_account 1))
    held2 =
        ground (arith, active_account-done fs L V link.address 1 s1 account_table link.address new1)

    held3 : fs.doc s3 account_table link.address ≡ some (fs.data_of_account (new_account 1))
    held3 = check-keeps link.address s2 account_table link.address ∙ held2

    free3 : fs.doc s3 reflect_table link.email ≡ none
    free3 = ground (
      arith,
      free,
      check-keeps link.address s2 reflect_table link.email,
      active_account-done fs L V link.address 1 s1 reflect_table link.email new1,
      get_active_link-done fs L V link w.db reflect_table link.email made,
    )

    pub visit-done :
        let (r, w') = active_verify (firestore_database fs) p link.token signature w in
        (r ≡ ok (page status_ok "Action completed success!"))
        × (w'.db ≡ (remove_active_link fs link.token s4).1)
    unfolding active_verify
    visit-done = ground (
      arith,
      named,
      signed,
      valid,
      get_active_link-done fs L V link w.db account_table link.address made,
      active_account-done fs L V link.address 1 s1 account_table link.address new1,
      check-done link.address s2 held2,
      update_binding-done fs L V link.address link.email 1 s3 held3 free3,
      remove_active_link-done fs L V link.token s4,
    )

    pub visit-binds :
        let w' = (active_verify (firestore_database fs) p link.token signature w).1 in
        (owner fs w'.db link.email ≡ link.address) × (lists fs w'.db link.address link.email ≡ true)
    visit-binds = ground (
      arith,
      visit-done,
      update_binding-done fs L V link.address link.email 1 s3 held3 free3,
      owner-update_binding fs L link.address link.email s3 link.email,
      lists-update_binding fs L link.address link.email s3 link.address link.email,
      remove-keeps link.token s4 reflect_table link.email refl,
      remove-keeps link.token s4 account_table link.address refl,
    )
