-- ===== src/Service/Stores/SignUp.antt =====
-- A new account from its request to the bound email, over an available Firestore.
use contact_server.Base.{
  ℕ, ◌+◌, ◌≤◌, String, ◌≡◌, true, false, none, some, Option, List, [], ◌∷◌, ◌++◌, ◌==◌, ◌&&◌,
  if◌then◌else◌, is_empty, replace_all, Result, ok, length, arith,
}
use contact_server.Common.{ActiveLinkData}
use contact_server.Proto.{BmReq, BmRsp, EMailActive}
use contact_server.Firestore.Client.{
  Firestore, Collection, IsLawful, account_table, reflect_table, active_link, same_collection,
}
use contact_server.Firestore.View.{owner, lists}
use contact_server.Firestore.Available.{IsAvailable, create_active_link-done}
use contact_server.Service.World.{Process, World, send_active_mail}
use contact_server.Service.Actions.{active_by_email, link_of, success_rsp}
use contact_server.Service.Pages.{page, active_verify}
use contact_server.Service.Http.{status_ok}
use contact_server.Service.Stores.{firestore_database}
use contact_server.Wallet.Links.{
  WConf, Smtp, send_twice, link_text, verify_activation_link, token_expiration,
}
use contact_server.Wallet.Keys.{key_of, sign_with_key}
use contact_server.Wallet.Links.Accepted.{
  verify_activation_link-sign_message, send_active_mail_accepted,
}
use contact_server.Wallet.Links
use contact_server.Wallet.Keys.Opening.{IsKeyMaker}
use contact_server.Service.Stores.Visited.{visit-done, visit-binds}

module _ (fs : Firestore) (L : IsLawful fs) (V : IsAvailable fs) where
  module _ (p : Process) (K : IsKeyMaker p.crypto p.keys) (seed : List ℕ) (size : length seed ≡ 32)
      (open_key : p.admin.key ≡ some (key_of p.keys seed))
      (address : p.admin.address ≡ some (key_of p.keys seed).address) where
    -- The link that `ActiveByEmail` makes of a request, and the world that it leaves.
    abbrev requested : BmReq → EMailActive → World fs.State → ActiveLinkData
    requested r action w =
        link_of (firestore_database fs) p (p.uuid w.drawn) r.address action.email w.now
          action.unbind

    abbrev asked : BmReq → World fs.State → Result BmRsp × World fs.State
    asked r w = active_by_email (firestore_database fs) p r w

    asked-done :
        (r : BmReq) (action : EMailActive) (w : World fs.State) (t : Collection) (k : String)
        → p.codec.unmarshal_active r.payload ≡ ok action
        → is_empty action.email ≡ false
        → fs.doc w.db active_link (p.uuid w.drawn) ≡ none
        → ((asked r w).0 ≡ ok (success_rsp []))
          × ((asked r w).1.spawned
              ≡ w.spawned
                ++ (send_active_mail (requested r action w) action.subject action.body action.unbind
                    ∷ []))
          × (fs.doc (asked r w).1.db t k ≡ (
              if same_collection active_link t && p.uuid w.drawn == k
              then some (fs.data_of_link (requested r action w))
              else fs.doc w.db t k))
    unfolding active_by_email
    asked-done r action w t k decoded mailed fresh = ground (
      arith,
      decoded,
      mailed,
      create_active_link-done fs L V (requested r action w) w.db t k fresh,
    )

    -- Over a lawful Firestore client, none of whose calls fails, and for a server whose open
    -- wallet has the address of its key, with lawful signatures that are not empty: take a request
    -- to `ActiveByEmail` that decodes, of an address that has no account, for an email that is not
    -- empty and not bound, at a time when the next uuid is not empty and no link's token. It
    -- succeeds and starts the sending of a mail with the link's token and signature; at most a day
    -- later a visit with these two, with nothing else between, is answered with 200, and then the email is bound to the
    -- address, whose account lists it.
    pub sign_up_done :
        (m : Smtp) (conf : Option WConf) (r : BmReq) (action : EMailActive) (w : World fs.State)
        (now : ℕ)
        → ((m : List ℕ) → is_empty (sign_with_key p.keys (key_of p.keys seed) m) ≡ false)
        → p.codec.unmarshal_active r.payload ≡ ok action
        → is_empty action.email ≡ false
        → is_empty (p.uuid w.drawn) ≡ false
        → fs.doc w.db active_link (p.uuid w.drawn) ≡ none
        → fs.doc w.db account_table r.address ≡ none
        → fs.doc w.db reflect_table action.email ≡ none
        → now ≤ w.now + token_expiration
        → let link = requested r action w in
          let signature = sign_with_key p.keys (key_of p.keys seed) (p.sig_data link) in
          let (rsp, w1) = asked r w in
          let (x, w2) =
            active_verify
              (firestore_database fs)
              p
              link.token
              signature
              (record w1 { now = now }) in
          (rsp ≡ ok (success_rsp []))
          × (w1.spawned
              ≡ w.spawned ++ (send_active_mail link action.subject action.body action.unbind ∷ []))
          × (Links.send_active_mail m p.keys p.admin p.sig_data conf link action.subject action.body
                action.unbind
              ≡ send_twice m conf action.email action.subject (
                  replace_all action.body "__active_link__"
                    (link_text link.token signature action.unbind)))
          × (x ≡ ok (page status_ok "Action completed success!"))
          × (owner fs w2.db action.email ≡ r.address)
          × (lists fs w2.db r.address action.email ≡ true)
    sign_up_done m conf r action w now signs decoded mailed named fresh new free soon =
        let link = requested r action w in
        let signature = sign_with_key p.keys (key_of p.keys seed) (p.sig_data link) in
        let w' : World fs.State = record (asked r w).1 { now = now } in
        let made = asked-done r action w active_link link.token decoded mailed fresh in
        let valid : verify_activation_link p.crypto p.admin p.sig_data now link signature ≡ ok tt =
          ground (
            arith,
            soon,
            (verify_activation_link-sign_message p.crypto p.keys K seed size p.admin p.sig_data link
                  open_key address).1
                now,
          ) in
        let new' : fs.doc w'.db account_table r.address ≡ none =
          ground (arith, new, asked-done r action w account_table r.address decoded mailed fresh) in
        let free' : fs.doc w'.db reflect_table action.email ≡ none =
          ground
            (arith, free, asked-done r action w reflect_table action.email decoded mailed fresh) in
        let made' : fs.doc w'.db active_link link.token ≡ some (fs.data_of_link link) =
          ground (arith, made) in
        let (bound, listed) =
          visit-binds fs L V p link signature w' named (signs (p.sig_data link)) made' new' free'
            valid in
        (
          made.0,
          made.1,
          (send_active_mail_accepted p.crypto p.keys K seed size m p.admin p.sig_data conf link
              action.subject action.body action.unbind open_key address).0,
          (visit-done fs L V p link signature w' named (signs (p.sig_data link)) made' new' free'
              valid).0,
          bound,
          listed,
        )
