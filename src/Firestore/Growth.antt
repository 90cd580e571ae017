-- ===== src/Firestore/Growth.antt =====
-- What a successful `UpdateBinding` of an unbound email adds to the number of emails.
use contact_server.Base.{
  ◌+◌, ◌≡◌, String, Bool, true, false, none, some, is_some, Dict, put, find, keys, length, [], ◌∷◌,
  ok, IfOk, arith, Result-cases, inl, inr,
}
use contact_server.Common.{BMailAccount, or_empty}
use contact_server.Firestore.Client.{Firestore, account_table, reflect_table, IsLawful}
use contact_server.Firestore.View.{owner, holds, lists, stored}
use contact_server.Firestore.Account.{database_to_obj, update_binding, saving, unbind_old, added}
use contact_server.Firestore.Reflect.{update_email_reflect_only}
use contact_server.Firestore.Steps.{saved, saved_others, reflected_owner, reflected_others}
use contact_server.Firestore.Counts.{size, size_of}

length-keys-put-new :
    (k : String) (v : Bool) (m : Dict Bool)
    → is_some (find m k) ≡ false
    → length (keys (put k v m)) ≡ length (keys m) + 1
unfolding put keys find
length-keys-put-new k v [] fresh = omega arith
length-keys-put-new k v ((j, w) ∷ m) fresh = ground (arith, fresh, length-keys-put-new k v m)

size-added-new :
    (email : String) (ba : BMailAccount)
    → holds (some ba) email ≡ false
    → size_of (some (stored (added email ba))) ≡ size_of (some ba) + 1
size-added-new email ba fresh = length-keys-put-new email true (or_empty ba.mail_store_obj) fresh

module _ (fs : Firestore) (L : IsLawful fs) (account email : String) (s : fs.State) where
  abbrev s1 : fs.State
  s1 = (database_to_obj fs account_table account (saving (added email)) s).1

  grown_first : IfOk (database_to_obj fs account_table account (saving (added email)) s).0 (λ l.
      l.error ≡ none
      → lists fs s account email ≡ false
      → size fs s1 account ≡ size fs s account + 1)
  grown_first =
      elim (Result-cases (database_to_obj fs account_table account (saving (added email)) s).0) [
        | inl (l, returned) ↦ rw returned (λ none_failed fresh. ground (
          arith,
          returned,
          none_failed,
          fresh,
          saved fs L (added email) account s,
          size-added-new email l.object,
        ))
        | inr bad ↦ ground (arith, bad)
      ]

  -- With a lawful client, an `UpdateBinding` that returns no error, of an email that is unbound and
  -- that the account does not list, adds one to the number of the account's emails.
  pub size-update_binding-new :
      (update_binding fs account email s).0 ≡ ok tt
      → owner fs s email ≡ ""
      → lists fs s account email ≡ false
      → size fs (update_binding fs account email s).1 account ≡ size fs s account + 1
  unfolding update_binding unbind_old
  size-update_binding-new done unbound fresh =
      elim (Result-cases (update_email_reflect_only fs account email s1).0) [
        | inl (old, r) ↦ ground (
          arith,
          done,
          unbound,
          fresh,
          r,
          grown_first,
          saved_others fs L (added email) account s reflect_table email,
          reflected_owner fs L account email s1,
          reflected_others fs L account email s1 account_table account,
        )
        | inr bad ↦ ground (arith, done, bad)
      ]
