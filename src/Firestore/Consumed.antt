-- ===== src/Firestore/Consumed.antt =====
-- No call of the Firestore database but `CreateActiveLink` makes an activation link.
use contact_server.Base.{
  ℕ, String, ◌≡◌, ◌≢◌, refl, false, none, List, [], ◌∷◌, Dict, arith, inl, inr, is_not_found,
  Result-cases,
}
use contact_server.Base.Keeps.{
  Keeps, Keeps-pure, Keeps-raise, Keeps-if, Keeps-branch, Keeps-then, keeping,
}
use contact_server.Common.{BMailAccount, EmailReflect, ActiveLinkData}
use contact_server.Firestore.Client.{
  Firestore, Collection, account_table, reflect_table, active_link, same_collection, IsLawful,
}
use contact_server.Firestore.Account.{
  query_account, active_account, update_binding, delete_binding, uninstall_by_user, delete_reflects,
  database_to_obj, saving, unbind_old, emails_of, added, removed, cleared,
}
use contact_server.Firestore.Reflect.{
  query_reflects_from, query_reflects_by_emails, query_reflect_by_one_email, delete_email_reflect,
  update_email_reflect_only,
}
use contact_server.Firestore.Active.{create_active_link, get_active_link, remove_active_link}

module _ (fs : Firestore) (L : IsLawful fs) (token : String) where
  -- There is no link under the token.
  abbrev pub Absent : fs.State → Type 0
  Absent s = fs.doc s active_link token ≡ none

  Keeps-get : (t : Collection) (k : String) → Keeps Absent (fs.get t k)
  Keeps-get t k = record { after = λ s h. ground (arith, h, L.get_keeps t k s active_link token) }

  Keeps-set :
      (t : Collection) (k : String) (d : fs.Doc)
      → same_collection t active_link ≡ false
      → Keeps Absent (fs.set t k d)
  Keeps-set t k d other = record {
    after = λ s h. ground (arith, h, other, L.set_writes t k d s active_link token);
  }

  Keeps-delete : (t : Collection) (k : String) → Keeps Absent (fs.delete t k)
  Keeps-delete t k = record {
    after = λ s h. ground (arith, h, L.delete_drops t k s active_link token);
  }

  set_account : (k : String) (d : fs.Doc) → Keeps Absent (fs.set account_table k d)
  set_account k d = Keeps-set account_table k d refl

  set_reflect : (k : String) (d : fs.Doc) → Keeps Absent (fs.set reflect_table k d)
  set_reflect k d = Keeps-set reflect_table k d refl

  ruleset calling = (keeping, Keeps-get, set_account, set_reflect, Keeps-delete)

  pub query_account-Absent : (a : String) → Keeps Absent (query_account fs a)
  unfolding query_account
  query_account-Absent a = search (calling)

  pub active_account-Absent : (a : String) (level : ℕ) → Keeps Absent (active_account fs a level)
  unfolding active_account
  active_account-Absent a level = search (calling)

  database_to_obj-Absent :
      (k : String) (f : BMailAccount → BMailAccount)
      → Keeps Absent (database_to_obj fs account_table k (saving f))
  unfolding database_to_obj
  database_to_obj-Absent k f = search (calling) depth 12

  pub query_reflect_by_one_email-Absent :
      (email : String) → Keeps Absent (query_reflect_by_one_email fs email)
  unfolding query_reflect_by_one_email
  query_reflect_by_one_email-Absent email = search (calling)

  delete_email_reflect-Absent : (email : String) → Keeps Absent (delete_email_reflect fs email)
  unfolding delete_email_reflect
  delete_email_reflect-Absent email = search (calling)

  update_email_reflect_only-Absent :
      (a email : String) → Keeps Absent (update_email_reflect_only fs a email)
  unfolding update_email_reflect_only
  update_email_reflect_only-Absent a email = search (calling) depth 14

  unbind_old-Absent : (old email : String) → Keeps Absent (unbind_old fs old email)
  unfolding unbind_old
  unbind_old-Absent old email = record {
    after = λ s h. ground (arith, h, (database_to_obj-Absent old (removed email)).after s);
  }

  pub update_binding-Absent : (a email : String) → Keeps Absent (update_binding fs a email)
  unfolding update_binding
  update_binding-Absent a email = record {
    after = λ s h.
        let s1 = (database_to_obj fs account_table a (saving (added email)) s).1 in
        let call2 = update_email_reflect_only fs a email s1 in
        elim (Result-cases call2.0) [
          | inl (old, given) ↦ ground (
            arith,
            h,
            given,
            (database_to_obj-Absent a (added email)).after s,
            (update_email_reflect_only-Absent a email).after s1,
            (unbind_old-Absent old email).after call2.1,
          )
          | inr bad ↦ ground (
            arith,
            h,
            bad,
            (database_to_obj-Absent a (added email)).after s,
            (update_email_reflect_only-Absent a email).after s1,
          )
        ];
  }

  pub delete_binding-Absent : (a email : String) → Keeps Absent (delete_binding fs a email)
  unfolding delete_binding
  delete_binding-Absent a email = record {
    after = λ s h. ground (
      arith,
      h,
      (database_to_obj-Absent a (removed email)).after s,
      (delete_email_reflect-Absent email).after
          (database_to_obj fs account_table a (saving (removed email)) s).1,
    );
  }

  delete_reflects-Absent : (emails : List String) → Keeps Absent (delete_reflects fs emails)
  unfolding delete_reflects
  delete_reflects-Absent [] = Keeps-pure tt
  delete_reflects-Absent (e ∷ es) =
      Keeps-then _ _ (delete_email_reflect-Absent e) (delete_reflects-Absent es)

  pub uninstall_by_user-Absent : (a : String) → Keeps Absent (uninstall_by_user fs a)
  unfolding uninstall_by_user
  uninstall_by_user-Absent a = record {
    after = λ s h.
        let call = database_to_obj fs account_table a (saving cleared) s in
        elim (Result-cases call.0) [
          | inl (l, loaded) ↦ ground (
            arith,
            h,
            loaded,
            (database_to_obj-Absent a cleared).after s,
            (delete_reflects-Absent (emails_of l.object)).after call.1,
          )
          | inr bad ↦ ground (arith, h, bad, (database_to_obj-Absent a cleared).after s)
        ];
  }

  query_reflects_from-Absent :
      (emails : List String) (contacts : Dict EmailReflect)
      → Keeps Absent (query_reflects_from fs emails contacts)
  unfolding query_reflects_from
  query_reflects_from-Absent [] contacts = Keeps-pure contacts
  query_reflects_from-Absent (e ∷ es) contacts =
      Keeps-branch (fs.get reflect_table e) _ _ (Keeps-get reflect_table e)
        (λ d. query_reflects_from-Absent es _)
        (λ e'.
          Keeps-if (is_not_found e') _ _ (query_reflects_from-Absent es contacts) (Keeps-raise e'))

  pub query_reflects_by_emails-Absent :
      (emails : List String) → Keeps Absent (query_reflects_by_emails fs emails)
  unfolding query_reflects_by_emails
  query_reflects_by_emails-Absent emails = query_reflects_from-Absent emails []

  pub get_active_link-Absent : (k : String) → Keeps Absent (get_active_link fs k)
  unfolding get_active_link
  get_active_link-Absent k = search (calling)

  pub remove_active_link-Absent : (k : String) → Keeps Absent (remove_active_link fs k)
  unfolding remove_active_link
  remove_active_link-Absent k = search (calling)

  -- A link of another token.
  pub create_active_link-Absent :
      (l : ActiveLinkData) → l.token ≢ token → Keeps Absent (create_active_link fs l)
  unfolding create_active_link
  create_active_link-Absent l other = record {
    after = λ s h.
        let s1 = (fs.get active_link l.token s).1 in
        ground (
          arith,
          h,
          other,
          L.get_keeps active_link l.token s active_link token,
          L.set_writes active_link l.token (fs.data_of_link l) s1 active_link token,
        );
  }
