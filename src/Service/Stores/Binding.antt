-- ===== src/Service/Stores/Binding.antt =====
-- What the handler of a binding does to a Firestore database.
use contact_server.Base.{
  ◌≡◌, refl, inl, inr, String, false, ◌==◌, is_empty, arith, IfOk, Result-cases,
}
use contact_server.Proto.{BmReq}
use contact_server.Firestore.Client.{Firestore, IsLawful, account_table, reflect_table}
use contact_server.Firestore.View.{owner}
use contact_server.Firestore.Account.{update_binding, database_to_obj, saving, added}
use contact_server.Firestore.Reflect.{query_reflect_by_one_email, update_email_reflect_only}
use contact_server.Firestore.Steps.{saved_others, reflected_others, unbound_others}
use contact_server.Firestore.Levels.{query_account_keeps}
use contact_server.Service.World.{Process, World}
use contact_server.Service.Levels.{check_rights_of_action}
use contact_server.Service.Actions.{bind_account, unbind_account}
use contact_server.Service.Stores.{firestore_database}

-- Over Firestore, `BindAccount` and `UnbindAccount` do the same for two requests that differ only
-- in the address and the signature, which is who signed them.
pub bind-unbind_account_signer :
    (fs : Firestore) (p : Process) (address signature : String) (r : BmReq) (w : World fs.State)
    → let r' : BmReq = record r { address = address; signature = signature } in
      (bind_account (firestore_database fs) p r' w ≡ bind_account (firestore_database fs) p r w)
      × (unbind_account (firestore_database fs) p r' w
          ≡ unbind_account (firestore_database fs) p r w)
unfolding bind_account unbind_account
bind-unbind_account_signer fs p address signature r w = (refl, refl)

module _ (fs : Firestore) (L : IsLawful fs) where
  -- `UpdateBinding`, however it ends, changes the address of no other email.
  pub owner-update_binding_other :
      (account email e : String) (s : fs.State)
      → (email == e) ≡ false
      → owner fs (update_binding fs account email s).1 e ≡ owner fs s e
  unfolding update_binding
  owner-update_binding_other account email e s other =
      let s1 = (database_to_obj fs account_table account (saving (added email)) s).1 in
      let call2 = update_email_reflect_only fs account email s1 in
      elim (Result-cases call2.0) [
        | inl (old, r) ↦ ground (
          arith,
          r,
          saved_others fs L (added email) account s reflect_table e,
          reflected_others fs L account email s1 reflect_table e,
          unbound_others fs L old email call2.1 reflect_table e,
        )
        | inr bad ↦ ground (
          arith,
          bad,
          saved_others fs L (added email) account s reflect_table e,
          reflected_others fs L account email s1 reflect_table e,
        )
      ]

  query_keeps :
      (email : String) (s : fs.State) (e : String)
      → owner fs (query_reflect_by_one_email fs email s).1 e ≡ owner fs s e
  unfolding query_reflect_by_one_email
  query_keeps email s e = ground (arith, L.get_keeps reflect_table email s reflect_table e)

  query_answers :
      (email : String) (s : fs.State)
      → IfOk (query_reflect_by_one_email fs email s).0 (λ r. r.b_mail_address ≡ owner fs s email)
  unfolding query_reflect_by_one_email
  query_answers email s = ground (arith, L.get_reads reflect_table email s)

  checked_keeps :
      (account : String) (s : fs.State) (e : String)
      → owner fs (check_rights_of_action (firestore_database fs) account s).1 e ≡ owner fs s e
  unfolding check_rights_of_action
  checked_keeps account s e = ground (arith, query_account_keeps fs L account s reflect_table e)

  module _ (p : Process) (r : BmReq) (w : World fs.State) where
    abbrev db_after : fs.State
    db_after = (bind_account (firestore_database fs) p r w).1.db

    -- Over a lawful Firestore client, `BindAccount`, however it ends, leaves every email that was
    -- bound to an address bound to it.
    pub bind_account_keeps_owners :
        (e : String) → is_empty (owner fs w.db e) ≡ false → owner fs db_after e ≡ owner fs w.db e
    unfolding bind_account
    bind_account_keeps_owners e bound = elim (Result-cases (p.codec.unmarshal_bind r.payload)) [
      | inl (action, decoded) ↦
          let s1 = (check_rights_of_action (firestore_database fs) action.address w.db).1 in
          let s2 = (query_reflect_by_one_email fs action.mail s1).1 in
          ground (
            arith,
            decoded,
            bound,
            checked_keeps action.address w.db e,
            checked_keeps action.address w.db action.mail,
            query_keeps action.mail s1 e,
            query_answers action.mail s1,
            owner-update_binding_other action.address action.mail e s2,
          )
      | inr bad ↦ ground (arith, bad)
    ]
