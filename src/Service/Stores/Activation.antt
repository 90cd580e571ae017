-- ===== src/Service/Stores/Activation.antt =====
-- What a visit to an activation link does to a Firestore database.
use contact_server.Base.{◌≡◌, inl, inr, String, none, some, arith, Result, ok, IfOk, Result-cases}
use contact_server.Common.{ActiveLinkData}
use contact_server.Wallet.Links.{verify_activation_link}
use contact_server.Firestore.Client.{Firestore, IsLawful, reflect_table, active_link}
use contact_server.Firestore.View.{owner, decode}
use contact_server.Firestore.Account.{active_account, update_binding}
use contact_server.Firestore.Active.{get_active_link, remove_active_link}
use contact_server.Firestore.Binding.{owner-update_binding}
use contact_server.Service.World.{Process, World}
use contact_server.Service.Levels.{check_rights_of_action, user_level_free}
use contact_server.Service.Pages.{Page, active_verify}
use contact_server.Service.Http.{status_ok}
use contact_server.Service.Stores.{firestore_database}

module _ (fs : Firestore) (L : IsLawful fs) where
  link_read :
      (token : String) (s : fs.State)
      → IfOk
          (get_active_link fs token s).0
          (λ l. decode fs.data_to_link (fs.doc s active_link token) ≡ some l)
  unfolding get_active_link
  link_read token s = ground (arith, L.get_reads active_link token s)

  link_read_keeps :
      (token : String) (s : fs.State) (e : String)
      → owner fs (get_active_link fs token s).1 e ≡ owner fs s e
  unfolding get_active_link
  link_read_keeps token s e = ground (arith, L.get_keeps active_link token s reflect_table e)

  link_removed :
      (token : String) (s : fs.State) (e : String)
      → (remove_active_link fs token s).0 ≡ ok tt
      → (owner fs (remove_active_link fs token s).1 e ≡ owner fs s e)
        × (fs.doc (remove_active_link fs token s).1 active_link token ≡ none)
  unfolding remove_active_link
  link_removed token s e h = ground (
    arith,
    L.delete_drops active_link token s reflect_table e,
    L.delete_drops active_link token s active_link token,
  )

  module _ (p : Process) (token signature : String) (w : World fs.State) where
    abbrev visit : Result Page × World fs.State
    visit = active_verify (firestore_database fs) p token signature w

    -- Over a lawful Firestore client, a visit of `ActiveVerify` with the status 200 found a link
    -- under the token that is not older than a day and whose signature is accepted for the
    -- server's address; afterwards the link's email is bound to the link's address, whatever the
    -- link says of unbinding, and no link is left under the token.
    pub active_verify_lem :
        {x : Page}
        → visit.0 ≡ ok x
        → x.code ≡ status_ok
        → (l : ActiveLinkData) × (decode fs.data_to_link (fs.doc w.db active_link token) ≡ some l)
          × (verify_activation_link p.crypto p.admin p.sig_data w.now l signature ≡ ok tt)
          × (owner fs visit.1.db l.email ≡ l.address)
          × (fs.doc visit.1.db active_link token ≡ none)
    unfolding active_verify
    active_verify_lem {x} h c = elim (Result-cases (get_active_link fs token w.db).0) [
      | inl (l, found) ↦
          let s1 = (get_active_link fs token w.db).1 in
          let s2 = (active_account fs l.address user_level_free s1).1 in
          let s3 = (check_rights_of_action (firestore_database fs) l.address s2).1 in
          let s4 = (update_binding fs l.address l.email s3).1 in
          (
            l,
            ground (arith, found, link_read token w.db),
            ground (arith, found),
            ground (
              arith,
              found,
              owner-update_binding fs L l.address l.email s3 l.email,
              link_removed token s4 l.email,
            ),
            ground (arith, found, link_removed token s4 l.email),
          )
      | inr bad ↦ absurd (ground (arith, bad))
    ]
