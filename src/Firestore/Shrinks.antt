-- ===== src/Firestore/Shrinks.antt =====
-- What the calls of the Firestore database other than `UpdateBinding`, `UpdateAccountLevel` and
-- `DeleteAccount` do, however they end, to the level of an account and to the number of its emails.
use contact_server.Base.{
  ◌≤◌, ◌≡◌, ◌⊎◌, inl, inr, String, Option, none, some, List, [], ◌∷◌, Dict, keys, arith, refl,
  is_not_found, Result-cases,
}
use contact_server.Base.Keeps.{Keeps, Keeps-pure, Keeps-raise, Keeps-branch, Keeps-if}
use contact_server.Common.{BMailAccount, EmailReflect, ActiveLinkData, empty_account}
use contact_server.Firestore.Client.{
  Firestore, Collection, account_table, reflect_table, active_link, IsLawful,
}
use contact_server.Firestore.View.{account_at, stored, level_of}
use contact_server.Firestore.Account.{
  query_account, active_account, delete_binding, uninstall_by_user, database_to_obj, saving,
  removed, cleared, delete_reflects, emails_of,
}
use contact_server.Firestore.Reflect.{
  query_reflects_from, query_reflects_by_emails, query_reflect_by_one_email, delete_email_reflect,
}
use contact_server.Firestore.Active.{create_active_link, get_active_link, remove_active_link}
use contact_server.Firestore.Steps.{saved_others}
use contact_server.Firestore.Failures.{maybe_saved}
use contact_server.Firestore.Levels.{query_account_keeps}
use contact_server.Firestore.Counts.{size, size_of, size-removed}

module _ (fs : Firestore) (a : String) where
  -- The account has its level and no more emails, or it is new, free and without emails.
  abbrev pub NoMore : fs.State → fs.State → Type 0
  NoMore s s' =
      ((level_of (account_at fs s' a) ≡ level_of (account_at fs s a))
        × (size fs s' a ≤ size fs s a))
      ⊎ ((account_at fs s a ≡ none) × (level_of (account_at fs s' a) ≡ some 1) × (size fs s' a ≡ 0))

  -- The account's document is as it was.
  abbrev pub SameDoc : fs.State → fs.State → Type 0
  SameDoc s s' = fs.doc s' account_table a ≡ fs.doc s account_table a

  pub SameDoc-NoMore : (s s' : fs.State) → SameDoc s s' → NoMore s s'
  SameDoc-NoMore s s' same = inl (ground (arith, same))

module _ (fs : Firestore) (L : IsLawful fs) (a : String) where
  get_same : (t : Collection) (k : String) (s : fs.State) → SameDoc fs a s (fs.get t k s).1
  get_same t k s = L.get_keeps t k s account_table a

  pub query_reflect_by_one_email-SameDoc :
      (email : String) (s : fs.State) → SameDoc fs a s (query_reflect_by_one_email fs email s).1
  unfolding query_reflect_by_one_email
  query_reflect_by_one_email-SameDoc email s = ground (arith, get_same reflect_table email s)

  get_kept :
      (was : Option fs.Doc) (t : Collection) (k : String)
      → Keeps (λ s. fs.doc s account_table a ≡ was) (fs.get t k)
  get_kept was t k = record { after = λ s h. ground (arith, h, get_same t k s) }

  query_reflects_from-Keeps :
      (was : Option fs.Doc) (emails : List String) (contacts : Dict EmailReflect)
      → Keeps (λ s. fs.doc s account_table a ≡ was) (query_reflects_from fs emails contacts)
  unfolding query_reflects_from
  query_reflects_from-Keeps was [] contacts = Keeps-pure contacts
  query_reflects_from-Keeps was (e ∷ es) contacts =
      Keeps-branch (fs.get reflect_table e) _ _ (get_kept was reflect_table e)
        (λ d. query_reflects_from-Keeps was es _)
        (λ e'.
          Keeps-if (is_not_found e') _ _ (query_reflects_from-Keeps was es contacts)
            (Keeps-raise e'))

  pub query_reflects_by_emails-SameDoc :
      (emails : List String) (s : fs.State)
      → SameDoc fs a s (query_reflects_by_emails fs emails s).1
  unfolding query_reflects_by_emails
  query_reflects_by_emails-SameDoc emails s =
      (query_reflects_from-Keeps (fs.doc s account_table a) emails []).after s refl

  pub get_active_link-SameDoc :
      (token : String) (s : fs.State) → SameDoc fs a s (get_active_link fs token s).1
  unfolding get_active_link
  get_active_link-SameDoc token s = ground (arith, get_same active_link token s)

  pub remove_active_link-SameDoc :
      (token : String) (s : fs.State) → SameDoc fs a s (remove_active_link fs token s).1
  unfolding remove_active_link
  remove_active_link-SameDoc token s =
      ground (arith, L.delete_drops active_link token s account_table a)

  pub create_active_link-SameDoc :
      (link : ActiveLinkData) (s : fs.State) → SameDoc fs a s (create_active_link fs link s).1
  unfolding create_active_link
  create_active_link-SameDoc link s = ground (
    arith,
    get_same active_link link.token s,
    L.set_writes active_link link.token (fs.data_of_link link) (fs.get active_link link.token s).1
        account_table a,
  )

  delete_email_reflect-SameDoc :
      (email : String) (s : fs.State) → SameDoc fs a s (delete_email_reflect fs email s).1
  unfolding delete_email_reflect
  delete_email_reflect-SameDoc email s =
      ground (arith, L.delete_drops reflect_table email s account_table a)

  delete_reflects-SameDoc :
      (emails : List String) (s : fs.State) → SameDoc fs a s (delete_reflects fs emails s).1
  unfolding delete_reflects
  delete_reflects-SameDoc [] s = ground arith
  delete_reflects-SameDoc (e ∷ es) s = ground (
    arith,
    delete_email_reflect-SameDoc e s,
    delete_reflects-SameDoc es (delete_email_reflect fs e s).1,
  )

  pub query_account-SameDoc :
      (account : String) (s : fs.State) → SameDoc fs a s (query_account fs account s).1
  query_account-SameDoc account s = query_account_keeps fs L account s account_table a

  pub active_account-NoMore :
      (account : String) (s : fs.State) → NoMore fs a s (active_account fs account 1 s).1
  unfolding active_account keys
  active_account-NoMore account s = ground (
    arith,
    L.get_reads account_table account s,
    get_same account_table account s,
    L.account_stored (record empty_account { user_lel = 1 }),
    L.set_writes account_table account (fs.data_of_account (record empty_account { user_lel = 1 }))
        (fs.get account_table account s).1 account_table a,
  )

  shrunk :
      (f : BMailAccount → BMailAccount) (account : String) (s : fs.State)
      → ((ba : BMailAccount)
          → (size_of (some (stored (f ba))) ≤ size_of (some ba)) × ((f ba).user_lel ≡ ba.user_lel))
      → NoMore fs a s (database_to_obj fs account_table account (saving f) s).1
  shrunk f account s less = elim (maybe_saved fs L f account s) [
    | inl same ↦ inl (ground (arith, same, saved_others fs L f account s account_table a))
    | inr (ba, before, now) ↦
        inl (ground (arith, before, now, less ba, saved_others fs L f account s account_table a))
  ]

  pub delete_binding-NoMore :
      (account email : String) (s : fs.State) → NoMore fs a s (delete_binding fs account email s).1
  unfolding delete_binding
  delete_binding-NoMore account email s = ground (
    arith,
    shrunk (removed email) account s (λ ba. (size-removed email ba, refl)),
    delete_email_reflect-SameDoc email
        (database_to_obj fs account_table account (saving (removed email)) s).1,
  )

  pub uninstall_by_user-NoMore :
      (account : String) (s : fs.State) → NoMore fs a s (uninstall_by_user fs account s).1
  unfolding uninstall_by_user keys
  uninstall_by_user-NoMore account s =
      let call = database_to_obj fs account_table account (saving cleared) s in
      let first = shrunk cleared account s (λ ba. (omega arith, refl)) in
      elim (Result-cases call.0) [
        | inl (l, e) ↦ ground (arith, e, first, delete_reflects-SameDoc (emails_of l.object) call.1)
        | inr bad ↦ ground (arith, bad, first)
      ]
