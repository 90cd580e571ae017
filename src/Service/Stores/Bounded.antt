-- ===== src/Service/Stores/Bounded.antt =====
-- What the calls of Firestore and the handlers do to the level of one account and to the bound on its
-- emails.
use contact_server.Base.{
  ℕ, ◌≤◌, ◌^◌, ◌≡◌, ◌⊎◌, inl, inr, ◌∙◌, String, none, some, Bool, true, Result-cases, Error, Exec,
  branch, lift, pure, ok, arith, is_empty,
}
use contact_server.Base.Keeps.{Keeps, Keeps-if, Keeps-pure, Keeps-bind, Keeps-lift}
use contact_server.Proto.{BmReq}
use contact_server.Firestore.Client.{Firestore, IsLawful}
use contact_server.Firestore.View.{account_at, level_of}
use contact_server.Firestore.Account.{
  query_account, active_account, delete_binding, uninstall_by_user, update_binding,
}
use contact_server.Firestore.Reflect.{query_reflects_by_emails, query_reflect_by_one_email}
use contact_server.Firestore.Active.{create_active_link, get_active_link, remove_active_link}
use contact_server.Firestore.Counts.{size, size-update_binding}
use contact_server.Firestore.Shrinks.{
  NoMore, SameDoc, SameDoc-NoMore, query_reflect_by_one_email-SameDoc,
  query_reflects_by_emails-SameDoc, get_active_link-SameDoc, remove_active_link-SameDoc,
  create_active_link-SameDoc, query_account-SameDoc, active_account-NoMore, delete_binding-NoMore,
  uninstall_by_user-NoMore,
}
use contact_server.Service.World.{Process, World, on_db, unix_now}
use contact_server.Service.Levels.{check_rights_of_action}
use contact_server.Service.Actions.{bind_account}
use contact_server.Service.Pages.{Page, active_verify}
use contact_server.Wallet.Links.{verify_activation_link}
use contact_server.Service.Server.Keeping.{
  IsKeptByCalls, Keeps-on_db, Keeps-or_page, Keeps-unix_now,
}
use contact_server.Service.Stores.{firestore_database}
use contact_server.Service.Stores.Limits.{checked, checked_keeps}

module _ (fs : Firestore) (L : IsLawful fs) (a : String) (l : ℕ) (fresh : Bool) where
  -- A fresh account is not there and would be free; else it has the level, and no more emails than that.
  abbrev pub Bounded : fs.State → Type 0
  Bounded s =
      ((fresh ≡ true) × (level_of (account_at fs s a) ≡ none) × (l ≡ 1))
      ⊎ ((level_of (account_at fs s a) ≡ some l) × (1 ≤ l → l ≤ 3 → size fs s a ≤ 2 ^ l))

  no_more : (s s' : fs.State) → NoMore fs a s s' → Bounded s → Bounded s'
  no_more s s' less h = ground (arith, less, h)

  same_doc : (s s' : fs.State) → SameDoc fs a s s' → Bounded s → Bounded s'
  same_doc s s' same h = no_more s s' (SameDoc-NoMore fs a s s' same) h

  -- A binding behind a check that passed.
  bound :
      (account email : String) (s s' : fs.State)
      → (check_rights_of_action (firestore_database fs) account s).0 ≡ ok tt
      → SameDoc fs a s s'
      → Bounded s
      → Bounded (update_binding fs account email s').1
  bound account email s s' passed same h = ground (
    arith,
    passed,
    same,
    h,
    checked fs L account s l,
    size-update_binding fs L email a account s',
  )

  module _ (p : Process) where
    abbrev InBounds : World fs.State → Type 0
    InBounds w = Bounded w.db

    bind_account-keeps : (r : BmReq) → Keeps InBounds (bind_account (firestore_database fs) p r)
    unfolding bind_account
    bind_account-keeps r = record {
      after = λ w h. elim (Result-cases (p.codec.unmarshal_bind r.payload)) [
        | inl (action, decoded) ↦
            let s1 = (check_rights_of_action (firestore_database fs) action.address w.db).1 in
            let s2 = (query_reflect_by_one_email fs action.mail s1).1 in
            let same1 : SameDoc fs a w.db s1 = checked_keeps fs L action.address w.db a in
            let same2 : SameDoc fs a w.db s2 =
              query_reflect_by_one_email-SameDoc fs L a action.mail s1 ∙ same1 in
            ground (
              arith,
              decoded,
              h,
              same_doc w.db s1 same1 h,
              same_doc w.db s2 same2 h,
              bound action.address action.mail w.db s2,
              same2,
            )
        | inr bad ↦ ground (arith, bad, h)
      ];
    }

    -- What comes behind a check and the binding that it allows.
    Keeps-checked :
        {A : Type 0} (account email : String) (f : Unit {0} → Exec (World fs.State) A)
        (g g' : Error → Exec (World fs.State) A)
        → ((u : Unit {0}) → Keeps InBounds (f u))
        → ((e : Error) → Keeps InBounds (g e))
        → ((e : Error) → Keeps InBounds (g' e))
        → Keeps InBounds (
            branch
              (on_db (check_rights_of_action (firestore_database fs) account))
              (λ _. branch (on_db (update_binding fs account email)) f g)
              g')
    Keeps-checked account email f g g' first second third = record {
      after = λ w h.
          let s1 = (check_rights_of_action (firestore_database fs) account w.db).1 in
          let s2 = (update_binding fs account email s1).1 in
          let same = checked_keeps fs L account w.db a in
          let h1 = same_doc w.db s1 same h in
          elim (Result-cases (check_rights_of_action (firestore_database fs) account w.db).0) [
            | inl (u, passed) ↦
                let h2 = bound account email w.db s1 (ground (arith, passed)) same h in
                let bound_world : World fs.State = record w { db = s2 } in
                elim (Result-cases (update_binding fs account email s1).0) [
                  | inl (v, done) ↦ ground (arith, passed, done, (first v).after bound_world h2)
                  | inr (inl (e, failed)) ↦
                      ground (arith, passed, failed, (second e).after bound_world h2)
                  | inr (inr (m, failed)) ↦ ground (arith, passed, failed, h2)
                ]
            | inr (inl (e, refused)) ↦
                ground (arith, refused, (third e).after (record w { db = s1 }) h1)
            | inr (inr (m, refused)) ↦ ground (arith, refused, h1)
          ];
    }

    get_active_link-keeps : (token : String) → Keeps Bounded (get_active_link fs token)
    get_active_link-keeps token = record {
      after = λ s h.
          same_doc s (get_active_link fs token s).1 (get_active_link-SameDoc fs L a token s) h;
    }

    active_account-keeps : (account : String) → Keeps Bounded (active_account fs account 1)
    active_account-keeps account = record {
      after = λ s h.
          no_more s (active_account fs account 1 s).1 (active_account-NoMore fs L a account s) h;
    }

    remove_active_link-keeps : (token : String) → Keeps Bounded (remove_active_link fs token)
    remove_active_link-keeps token = record {
      after = λ s h.
          same_doc s (remove_active_link fs token s).1 (remove_active_link-SameDoc fs L a token s)
            h;
    }

    on : {A : Type 0} (m : Exec fs.State A) → Keeps Bounded m → Keeps InBounds (on_db m)
    on m k = Keeps-on_db (firestore_database fs) p Bounded m k

    or_page :
        {A : Type 0} (m : Exec (World fs.State) A) (f : A → Exec (World fs.State) Page)
        (shown : Error → Page)
        → Keeps InBounds m
        → ((x : A) → Keeps InBounds (f x))
        → Keeps InBounds (branch m f (λ e. pure (shown e)))
    or_page = Keeps-or_page (firestore_database fs) p Bounded

    active_verify-keeps :
        (token signature : String)
        → Keeps InBounds (active_verify (firestore_database fs) p token signature)
    unfolding active_verify
    active_verify-keeps token signature = Keeps-if (is_empty token) _ _ (Keeps-pure _) (
        Keeps-if (is_empty signature) _ _ (Keeps-pure _) (
          or_page _ _ _ (on _ (get_active_link-keeps token)) λ link.
            Keeps-bind unix_now _ (Keeps-unix_now (firestore_database fs) p Bounded) λ now.
              or_page (lift (verify_activation_link p.crypto p.admin p.sig_data now link signature))
                _ _ (Keeps-lift _)
                λ u. or_page _ _ _ (on _ (active_account-keeps link.address)) λ v.
                  Keeps-checked link.address link.email _ _ _
                    (λ t. or_page _ _ _ (on _ (remove_active_link-keeps token)) λ x. Keeps-pure _)
                    (λ e. Keeps-pure _) (λ e. Keeps-pure _)))

    pub firestore-IsKept : IsKeptByCalls (firestore_database fs) p Bounded
    firestore-IsKept = record {
      reflects = λ emails. record {
        after = λ s h.
            same_doc s (query_reflects_by_emails fs emails s).1
              (query_reflects_by_emails-SameDoc fs L a emails s) h;
      };
      account = λ b. record {
        after = λ s h. same_doc s (query_account fs b s).1 (query_account-SameDoc fs L a b s) h;
      };
      active = active_account-keeps;
      unbinding = λ b email. record {
        after = λ s h.
            no_more s (delete_binding fs b email s).1 (delete_binding-NoMore fs L a b email s) h;
      };
      uninstalling = λ b. record {
        after =
            λ s h. no_more s (uninstall_by_user fs b s).1 (uninstall_by_user-NoMore fs L a b s) h;
      };
      link = λ l. record {
        after = λ s h.
            same_doc s (create_active_link fs l s).1 (create_active_link-SameDoc fs L a l s) h;
      };
      binding = bind_account-keeps;
      verifying = active_verify-keeps;
    }
