-- ===== src/Firestore/Failures.antt =====
-- What a call of `UpdateBinding` leaves behind where it fails half-way: `UpdateBinding` writes
-- the account first, then the reflection, and clears the old account last.
use contact_server.Base.{
  String, ◌≡◌, true, false, ◌&&◌, none, some, ◌⊎◌, ◌==◌, is_empty, Result, ok, IfOk, arith,
  Option-cases, Result-cases, inl, inr,
}
use contact_server.Common.{BMailAccount}
use contact_server.Firestore.Client.{Firestore, account_table, reflect_table, IsLawful}
use contact_server.Firestore.View.{account_at, owner, lists, stored}
use contact_server.Firestore.Account.{
  update_binding, database_to_obj, saving, added, removed, unbind_old, Loaded,
}
use contact_server.Firestore.Reflect.{update_email_reflect_only}
use contact_server.Firestore.Binding.{holds-added, holds-removed}
use contact_server.Firestore.Steps.{
  saved, saved_others, reflected_owner, reflected_others, unbound_others,
}

module _ (fs : Firestore) (L : IsLawful fs) (f : BMailAccount → BMailAccount) (key : String)
    (s : fs.State) where
  abbrev loading : Result Loaded × fs.State
  loading = database_to_obj fs account_table key (saving f) s

  -- However the call ends, the account is as before or as the callback left it.
  pub maybe_saved :
      (account_at fs loading.1 key ≡ account_at fs s key)
      ⊎ ((ba : BMailAccount) × (account_at fs s key ≡ some ba)
          × (account_at fs loading.1 key ≡ some (stored (f ba))))
  unfolding database_to_obj saving
  maybe_saved = elim (Option-cases (account_at fs s key)) [
    | inl missing ↦ inl (
        ground (
          arith,
          missing,
          L.get_reads account_table key s,
          L.get_keeps account_table key s account_table key,
        ))
    | inr (ba, held) ↦ elim (Option-cases (account_at fs loading.1 key)) [
      | inl gone ↦ ground (
        arith,
        held,
        gone,
        L.get_reads account_table key s,
        L.get_keeps account_table key s account_table key,
        L.account_stored (f ba),
        L.set_writes account_table key (fs.data_of_account (f ba)) (fs.get account_table key s).1
            account_table key,
      )
      | inr (now, there) ↦ ground (
        arith,
        held,
        there,
        L.get_reads account_table key s,
        L.get_keeps account_table key s account_table key,
        L.account_stored (f ba),
        L.set_writes account_table key (fs.data_of_account (f ba)) (fs.get account_table key s).1
            account_table key,
      )
    ]
  ]

module _ (fs : Firestore) (L : IsLawful fs) (account email : String) (s : fs.State) where
  abbrev s1 : fs.State
  s1 = (database_to_obj fs account_table account (saving (added email)) s).1

  -- The first step only adds to what accounts list.
  first_grows : (a e : String) → lists fs s a e ≡ true → lists fs s1 a e ≡ true
  first_grows a e h = elim (maybe_saved fs L (added email) account s) [
    | inl same ↦ ground (arith, same, saved_others fs L (added email) account s account_table a)
    | inr (ba, before, now) ↦ ground (
      arith,
      before,
      now,
      holds-added email e ba,
      saved_others fs L (added email) account s account_table a,
    )
  ]

  first_adds :
      IfOk
        (database_to_obj fs account_table account (saving (added email)) s).0
        (λ l. l.error ≡ none → lists fs s1 account email ≡ true)
  first_adds =
      elim (Result-cases (database_to_obj fs account_table account (saving (added email)) s).0) [
        | inl (l, returned) ↦
            ground (
              arith,
              returned,
              saved fs L (added email) account s,
              holds-added email email l.object,
            )
        | inr bad ↦ ground (arith, bad)
      ]

module _ (fs : Firestore) (L : IsLawful fs) (old email : String) (s : fs.State) where
  -- The last step takes one email from one account, if anything.
  last_keeps :
      (a e : String)
      → (old == a && email == e) ≡ false
      → lists fs (unbind_old fs old email s).1 a e ≡ lists fs s a e
  unfolding unbind_old
  last_keeps a e other = elim (maybe_saved fs L (removed email) old s) [
    | inl same ↦ ground (arith, same, saved_others fs L (removed email) old s account_table a)
    | inr (ba, before, now) ↦ ground (
      arith,
      before,
      now,
      holds-removed email e ba,
      saved_others fs L (removed email) old s account_table a,
    )
  ]

module _ (fs : Firestore) (L : IsLawful fs) (account email : String) (s : fs.State) where
  maybe_reflected :
      (owner fs (update_email_reflect_only fs account email s).1 email ≡ owner fs s email)
      ⊎ (owner fs (update_email_reflect_only fs account email s).1 email ≡ account)
  unfolding update_email_reflect_only
  maybe_reflected = ground (
    arith,
    L.get_reads reflect_table email s,
    L.get_keeps reflect_table email s reflect_table email,
    L.reflect_stored (record { b_mail_address = account }),
    L.set_writes reflect_table email (fs.data_of_reflect (record { b_mail_address = account }))
        (fs.get reflect_table email s).1 reflect_table email,
  )

-- Every email that is bound to an address is listed by the account there.
abbrev pub BoundListed : (fs : Firestore) → fs.State → Type 0
BoundListed fs s =
    (e : String) → is_empty (owner fs s e) ≡ false → lists fs s (owner fs s e) e ≡ true

module _ (fs : Firestore) (L : IsLawful fs) (account email : String) (s : fs.State) where
  abbrev then_state : fs.State
  then_state = (database_to_obj fs account_table account (saving (added email)) s).1

  abbrev reflected_state : fs.State
  reflected_state = (update_email_reflect_only fs account email then_state).1

  abbrev returned : Result String
  returned = (update_email_reflect_only fs account email then_state).0

  -- After the account was written, the reflection may be written or not.
  after_reflection :
      lists fs then_state account email ≡ true
      → BoundListed fs then_state
      → BoundListed fs reflected_state
  after_reflection added_now h e b = ground (
    arith,
    h e,
    maybe_reflected fs L account email then_state,
    reflected_others fs L account email then_state reflect_table e,
    reflected_others fs L account email then_state account_table (owner fs reflected_state e),
  )

  after_unbinding :
      (old : String)
      → returned ≡ ok old
      → BoundListed fs reflected_state
      → BoundListed fs (unbind_old fs old email reflected_state).1
  after_unbinding old r h e b = ground (
    arith,
    r,
    h e,
    reflected_owner fs L account email then_state,
    unbound_others fs L old email reflected_state reflect_table e,
    last_keeps fs L old email reflected_state (owner fs reflected_state e) e,
  )

  after_saving : BoundListed fs s → BoundListed fs then_state
  after_saving h e b = ground (
    arith,
    h e,
    first_grows fs L account email s (owner fs s e) e,
    saved_others fs L (added email) account s reflect_table e,
  )

  -- With a lawful client, whatever `UpdateBinding` returns, and whichever of its calls failed,
  -- every email that is bound afterwards is listed by the account that it is bound to, if that was
  -- so before.
  pub update_binding-BoundListed :
      BoundListed fs s → BoundListed fs (update_binding fs account email s).1
  unfolding update_binding
  update_binding-BoundListed h e b =
      elim (Result-cases (database_to_obj fs account_table account (saving (added email)) s).0) [
        | inl (l, loaded) ↦ elim (Option-cases l.error) [
          | inl fine ↦
              let wrote : lists fs then_state account email ≡ true =
                ground (arith, loaded, fine, first_adds fs L account email s) in
              let kept = after_reflection wrote (after_saving h) in
              elim (Result-cases returned) [
                | inl (old, r) ↦ ground (arith, loaded, fine, r, after_unbinding old r kept e)
                | inr bad ↦ ground (arith, loaded, fine, bad, kept e)
              ]
          | inr (x, failed) ↦ ground (arith, loaded, failed, after_saving h e)
        ]
        | inr bad ↦ ground (arith, bad, after_saving h e)
      ]
