-- ===== src/Firestore/Consistency.antt =====
-- The two collections agree: an email is bound to exactly the account that lists it.
use contact_server.Base.{
  ℕ, String, ◌≡◌, true, false, ◌==◌, is_empty, find, ok, arith, is_some, ◌||◌,
}
use contact_server.Common.{empty_account}
use contact_server.Common.Agreement.{Agree, bind-Agree}
use contact_server.Firestore.Client.{Firestore, account_table, reflect_table, IsLawful}
use contact_server.Firestore.View.{owner, lists}
use contact_server.Firestore.Account.{
  update_binding, delete_binding, uninstall_by_user, delete_account, update_account_level,
  active_account,
}
use contact_server.Firestore.Binding.{owner-update_binding, lists-update_binding}
use contact_server.Firestore.Unbinding.{
  owner-delete_binding, lists-delete_binding, owner-uninstall_by_user, lists-uninstall_by_user,
  owner-delete_account, account_at-delete_account,
}
use contact_server.Firestore.Levels.{
  active_account_lem, owner-update_account_level, lists-update_account_level,
}

module _ (fs : Firestore) where
  abbrev pub IsConsistent : fs.State → Type 0
  IsConsistent s = Agree (owner fs s) (lists fs s)

module _ (fs : Firestore) (L : IsLawful fs) (account : String) (s : fs.State)
    (c : IsConsistent fs s) where
  -- With a lawful client, an `UpdateBinding` to an address that is not empty and that returns no
  -- error leaves the two collections in agreement, if they agreed before.
  pub update_binding-IsConsistent :
      (email : String)
      → is_empty account ≡ false
      → (update_binding fs account email s).0 ≡ ok tt
      → IsConsistent fs (update_binding fs account email s).1
  update_binding-IsConsistent email named h =
      bind-Agree c account email named (λ e. owner-update_binding fs L account email s e h)
        (λ a e. lists-update_binding fs L account email s a e h)

  -- With a lawful client, a `DeleteBinding` that returns no error, of an email that is bound to
  -- the account or to no address, leaves the two collections in agreement, if they agreed before.
  pub delete_binding-IsConsistent :
      (email : String)
      → (is_empty (owner fs s email) || owner fs s email == account) ≡ true
      → (delete_binding fs account email s).0 ≡ ok tt
      → IsConsistent fs (delete_binding fs account email s).1
  delete_binding-IsConsistent email own h = record {
    bound_listed = λ e b. ground (
      arith,
      owner-delete_binding fs L account email s e,
      lists-delete_binding fs L account email s (owner fs s e) e,
      c.bound_listed e,
    );
    listed_bound = λ a e l. ground (
      arith,
      owner-delete_binding fs L account email s e,
      lists-delete_binding fs L account email s a e,
      c.listed_bound a e,
    );
  }

  -- With a lawful client, an `UninstallByUser` that returns no error leaves the two collections in
  -- agreement, if they agreed before.
  pub uninstall_by_user-IsConsistent :
      (uninstall_by_user fs account s).0 ≡ ok tt
      → IsConsistent fs (uninstall_by_user fs account s).1
  uninstall_by_user-IsConsistent h = record {
    bound_listed = λ e b. ground (
      arith,
      owner-uninstall_by_user fs L account s e,
      lists-uninstall_by_user fs L account s (owner fs s e) e,
      c.bound_listed e,
    );
    listed_bound = λ a e l. ground (
      arith,
      owner-uninstall_by_user fs L account s e,
      lists-uninstall_by_user fs L account s a e,
      c.listed_bound a e,
      c.listed_bound account e,
    );
  }

  -- With a lawful client, a `DeleteAccount` that returns no error leaves the two collections in
  -- agreement, if they agreed before.
  delete_account-IsConsistent :
      (delete_account fs account s).0 ≡ ok tt → IsConsistent fs (delete_account fs account s).1
  delete_account-IsConsistent h = record {
    bound_listed = λ e b. ground (
      arith,
      owner-delete_account fs L account s e,
      account_at-delete_account fs L account s (owner fs s e),
      c.bound_listed e,
    );
    listed_bound = λ a e l. ground (
      arith,
      owner-delete_account fs L account s e,
      account_at-delete_account fs L account s a,
      c.listed_bound a e,
      c.listed_bound account e,
    );
  }

  -- An activation that returns no error keeps the agreement.
  pub active_account-IsConsistent :
      (level : ℕ)
      → (active_account fs account level s).0 ≡ ok tt
      → IsConsistent fs (active_account fs account level s).1
  unfolding find
  active_account-IsConsistent level h = record {
    bound_listed = λ e b. ground (
      arith,
      active_account_lem fs L account level s reflect_table e,
      active_account_lem fs L account level s account_table (owner fs s e),
      c.bound_listed e,
    );
    listed_bound = λ a e l. ground (
      arith,
      active_account_lem fs L account level s reflect_table e,
      active_account_lem fs L account level s account_table a,
      L.account_stored (record empty_account { user_lel = level }),
      c.listed_bound a e,
    );
  }

  -- A change of level that returns no error keeps the agreement.
  pub update_account_level-IsConsistent :
      (level : ℕ)
      → (update_account_level fs account level s).0 ≡ ok tt
      → IsConsistent fs (update_account_level fs account level s).1
  update_account_level-IsConsistent level h = record {
    bound_listed = λ e b. ground (
      arith,
      owner-update_account_level fs L account level s e,
      lists-update_account_level fs L account level s (owner fs s e) e,
      c.bound_listed e,
    );
    listed_bound = λ a e l. ground (
      arith,
      owner-update_account_level fs L account level s e,
      lists-update_account_level fs L account level s a e,
      c.listed_bound a e,
    );
  }

-- With a lawful client, a `DeleteBinding` that returns no error, by an account that has a
-- document, of an email that another account lists, leaves the two collections in disagreement.
pub delete_binding_foreign :
    (fs : Firestore) (L : IsLawful fs) (account other email : String) (s : fs.State)
    → lists fs s other email ≡ true
    → (account == other) ≡ false
    → is_some (fs.doc s account_table account) ≡ true
    → (delete_binding fs account email s).0 ≡ ok tt
    → ¬ IsConsistent fs (delete_binding fs account email s).1
delete_binding_foreign fs L account other email s listed foreign there h c = ground (
  arith,
  listed,
  foreign,
  owner-delete_binding fs L account email s email,
  lists-delete_binding fs L account email s other email,
  c.listed_bound other email,
)
