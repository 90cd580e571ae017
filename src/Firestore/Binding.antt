-- ===== src/Firestore/Binding.antt =====
-- What `UpdateBinding` does to the documents, on success and on failure.
use contact_server.Base.{
  String, ◌≡◌, Bool, true, false, ◌&&◌, none, some, ◌==◌, is_empty, if◌then◌else◌, find, find-put,
  find-drop_key, Result, ok, IfOk, not, arith, Bool-cases, Result-cases, inl, inr,
}
use contact_server.Common.{BMailAccount, or_empty}
use contact_server.Firestore.Client.{Firestore, account_table, reflect_table, IsLawful}
use contact_server.Firestore.View.{account_at, owner, holds, lists, stored, level_of}
use contact_server.Firestore.Account.{
  database_to_obj, update_binding, Loaded, saving, unbind_old, added, removed,
}
use contact_server.Firestore.Reflect.{update_email_reflect_only}
use contact_server.Firestore.Steps.{
  saved, saved_others, reflected_owner, reflected_others, unbound_others, unbound_account,
}

pub holds-removed :
    (email e : String) (ba : BMailAccount)
    → holds (some (stored (removed email ba))) e ≡ (if email == e then false else holds (some ba) e)
unfolding find
holds-removed email e ba = ground (arith, find-drop_key email e (or_empty ba.mail_store_obj))

pub holds-added :
    (email e : String) (ba : BMailAccount)
    → holds (some (stored (added email ba))) e ≡ (if email == e then true else holds (some ba) e)
holds-added email e ba = ground (arith, find-put email e true (or_empty ba.mail_store_obj))

-- The address that `update_email_reflect_only` returns, from the one before.
abbrev to_unbind : String → String → String
to_unbind owner_before account = if owner_before == account then "" else owner_before

combine :
    (o account a email e : String) (l0 l1 l3 : Bool)
    → l1 ≡ (if account == a && email == e then true else l0)
    → l3 ≡ (
        if not (is_empty (to_unbind o account)) && to_unbind o account == a && email == e
        then false
        else l1)
    → l3 ≡ (
        if email == e && account == a
        then true
        else if email == e && not (is_empty o) && o == a
        then false
        else l0)
combine o account a email e l0 l1 l3 p q = elim (Bool-cases (o == account)) [
  | inl same ↦ ground arith
  | inr other ↦ ground arith
]

module _ (fs : Firestore) (L : IsLawful fs) (old email : String) (s : fs.State) where
  abbrev last : Result (Unit {0}) × fs.State
  last = unbind_old fs old email s

  listed_last :
      (a e : String)
      → last.0 ≡ ok tt
      → (level_of (account_at fs last.1 a) ≡ level_of (account_at fs s a))
        × (lists fs last.1 a e
            ≡ (if not (is_empty old) && old == a && email == e then false else lists fs s a e))
  listed_last a e done = elim (Bool-cases (is_empty old)) [
    | inl nothing ↦ unfold unbind_old in ground (arith, nothing)
    | inr named ↦
        let (ba, before, after) = unbound_account fs L old email s named done in
        ground (
          arith,
          named,
          before,
          after,
          holds-removed email e ba,
          unbound_others fs L old email s account_table a,
        )
  ]

module _ (fs : Firestore) (L : IsLawful fs) (account email : String) (s : fs.State) where
  abbrev bound : Result (Unit {0}) × fs.State
  bound = update_binding fs account email s

  abbrev s1 : fs.State
  s1 = (database_to_obj fs account_table account (saving (added email)) s).1

  abbrev s2 : fs.State
  s2 = (update_email_reflect_only fs account email s1).1

  -- The address to unbind the email from.
  abbrev prior : String
  prior = to_unbind (owner fs s1 email) account

  -- With a lawful client, after an `UpdateBinding` that returns no error the email is bound to the
  -- account, and every other email is bound to what it was bound to before.
  pub owner-update_binding :
      (e : String)
      → bound.0 ≡ ok tt
      → owner fs bound.1 e ≡ (if email == e then account else owner fs s e)
  unfolding update_binding
  owner-update_binding e h = ground (
    arith,
    saved_others fs L (added email) account s reflect_table e,
    reflected_owner fs L account email s1,
    reflected_others fs L account email s1 reflect_table e,
    unbound_others fs L prior email s2 reflect_table e,
  )

  abbrev first : Result Loaded
  first = (database_to_obj fs account_table account (saving (added email)) s).0

  listed_first :
      (a e : String)
      → IfOk first (λ l.
        l.error ≡ none
        → (level_of (account_at fs s1 a) ≡ level_of (account_at fs s a))
          × (lists fs s1 a e ≡ (if account == a && email == e then true else lists fs s a e)))
  listed_first a e = elim (Result-cases first) [
    | inl (l, returned) ↦ rw returned (λ none_failed. ground (
      arith,
      saved fs L (added email) account s,
      saved_others fs L (added email) account s account_table a,
      holds-added email e l.object,
      returned,
      none_failed,
    ))
    | inr bad ↦ ground (arith, bad)
  ]

  -- With a lawful client, after an `UpdateBinding` that returns no error the account lists the
  -- email; the other account that the email was bound to, if any, does not; every other account
  -- lists what it listed, and so do these two but for the email.
  pub lists-update_binding :
      (a e : String)
      → bound.0 ≡ ok tt
      → lists fs bound.1 a e ≡ (
          if email == e && account == a
          then true
          else if email == e && not (is_empty (owner fs s email)) && owner fs s email == a
          then false
          else lists fs s a e)
  unfolding update_binding
  lists-update_binding a e h =
      combine (owner fs s email) account a email e (lists fs s a e) (lists fs s1 a e)
        (lists fs bound.1 a e) (ground (arith, listed_first a e))
        (ground (
          arith,
          saved_others fs L (added email) account s reflect_table email,
          reflected_owner fs L account email s1,
          reflected_others fs L account email s1 account_table a,
          listed_last fs L prior email s2 a e,
        ))

  -- No level changes.
  pub level-update_binding :
      (a : String)
      → bound.0 ≡ ok tt
      → level_of (account_at fs bound.1 a) ≡ level_of (account_at fs s a)
  unfolding update_binding
  level-update_binding a h = ground (
    arith,
    listed_first a email,
    reflected_owner fs L account email s1,
    reflected_others fs L account email s1 account_table a,
    listed_last fs L prior email s2 a email,
  )
