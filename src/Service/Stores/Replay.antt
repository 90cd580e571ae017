-- ===== src/Service/Stores/Replay.antt =====
-- An activation link that was used, over Firestore: whatever the public server does then, it is not
-- accepted again.
use contact_server.Base.{
  ℕ, ◌≤◌, String, ◌≡◌, ◌≢◌, refl, Exec, arith, Result-cases, ok, IfOk, inl, inr, Bool,
}
use contact_server.Base.Keeps.{Keeps, Keeps-lift, Keeps-bind, keeping}
use contact_server.Common.{ActiveLinkData}
use contact_server.Proto.{BmReq, BindAction}
use contact_server.Firestore.Client.{Firestore, IsLawful, active_link}
use contact_server.Firestore.Active.{create_active_link, get_active_link}
use contact_server.Firestore.Consumed.{
  Absent, query_account-Absent, active_account-Absent, query_reflect_by_one_email-Absent,
  query_reflects_by_emails-Absent, update_binding-Absent, delete_binding-Absent,
  uninstall_by_user-Absent, get_active_link-Absent, remove_active_link-Absent,
  create_active_link-Absent,
}
use contact_server.Service.World.{Process, World, Task, on_db, spawn, unix_now}
use contact_server.Service.Levels.{check_rights_of_action}
use contact_server.Service.Actions.{link_of, bind_account, active_by_email, run_bind_confirm}
use contact_server.Service.Pages.{Page, active_verify}
use contact_server.Service.Http.{status_ok, status_bad_request}
use contact_server.Service.Router.{Mux}
use contact_server.Service.Server.{SerialRun}
use contact_server.Service.Server.Keeping.{IsKept, SerialRun-kept}
use contact_server.Service.Stores.{firestore_database}
use contact_server.Service.Stores.Activation.{active_verify_lem}

module _ (fs : Firestore) (L : IsLawful fs) (p : Process) (token : String) where
  -- No uuid that is still to be drawn is the token.
  abbrev pub Undrawn : ℕ → Type 0
  Undrawn drawn = (n : ℕ) → drawn ≤ n → p.uuid n ≢ token

  -- There is no link under the token, and none will be made.
  abbrev Consumed : World fs.State → Type 0
  Consumed w = Absent fs L token w.db × Undrawn w.drawn

  later : (a b : ℕ) → a ≤ b → Undrawn a → Undrawn b
  later a b more undrawn n h = undrawn n (omega (arith, more, h))

  abbrev Kept : {A : Type 0} → Exec (World fs.State) A → Type 0
  Kept m = Keeps Consumed m

  Keeps-on : {A : Type 0} (m : Exec fs.State A) → Keeps (Absent fs L token) m → Kept (on_db m)
  Keeps-on m k = record { after = λ w h. (k.after w.db h.0, h.1) }

  Keeps-spawn : (t : Task) → Kept (spawn t)
  Keeps-spawn t = record { after = λ w h. h }

  checked-Absent :
      (a : String) → Keeps (Absent fs L token) (check_rights_of_action (firestore_database fs) a)
  unfolding check_rights_of_action
  checked-Absent a = Keeps-bind _ _ (query_account-Absent fs L token a) λ acc. Keeps-lift _

  ruleset world = (
    keeping, Keeps-on, Keeps-spawn, checked-Absent, query_reflect_by_one_email-Absent,
    update_binding-Absent,
  )

  bind_account-Kept : (r : BmReq) → Kept (bind_account (firestore_database fs) p r)
  unfolding bind_account
  bind_account-Kept r = search (world) depth 16

  -- The token that is drawn is not the one that was used.
  drawn_keeps :
      (w : World fs.State) (link : ActiveLinkData)
      → Consumed w
      → link.token ≡ p.uuid w.drawn
      → Absent fs L token (create_active_link fs link w.db).1
  drawn_keeps w link h named =
      (create_active_link-Absent fs L token link (λ e. h.1 w.drawn (omega arith) (cc))).after w.db
        h.0

  active_by_email-Kept : (r : BmReq) → Kept (active_by_email (firestore_database fs) p r)
  unfolding active_by_email
  active_by_email-Kept r = record {
    after = λ w h. elim (Result-cases (p.codec.unmarshal_active r.payload)) [
      | inl (action, decoded) ↦
          let link =
            link_of (firestore_database fs) p (p.uuid w.drawn) r.address action.email w.now
              action.unbind in
          (
            ground (arith, decoded, h.0, drawn_keeps w link h refl),
            later w.drawn (active_by_email (firestore_database fs) p r w).1.drawn
                (ground (arith, decoded)) h.1,
          )
      | inr bad ↦ (
        ground (arith, bad, h.0),
        later w.drawn (active_by_email (firestore_database fs) p r w).1.drawn (ground (arith, bad))
            h.1,
      )
    ];
  }

  run_bind_confirm-Kept :
      (action : BindAction) (is_unbind : Bool)
      → Kept (run_bind_confirm (firestore_database fs) p action is_unbind)
  unfolding run_bind_confirm
  run_bind_confirm-Kept action is_unbind = record {
    after = λ w h.
        let link =
          link_of (firestore_database fs) p (p.uuid w.drawn) action.address action.mail w.now
            is_unbind in
        (
          ground (arith, drawn_keeps w link h refl),
          later w.drawn (run_bind_confirm (firestore_database fs) p action is_unbind w).1.drawn
              (ground arith) h.1,
        );
  }

  ruleset visiting =
      (world, active_account-Absent, get_active_link-Absent, remove_active_link-Absent)

  Keeps-unix_now : Kept unix_now
  Keeps-unix_now = record { after = λ w h. h }

  active_verify-Kept :
      (token' signature : String) → Kept (active_verify (firestore_database fs) p token' signature)
  unfolding active_verify
  active_verify-Kept token' signature = search (visiting, Keeps-unix_now) depth 30

  -- A visit draws no uuid.
  active_verify-drawn :
      (token' signature : String) (w : World fs.State)
      → (active_verify (firestore_database fs) p token' signature w).1.drawn ≡ w.drawn
  unfolding active_verify
  active_verify-drawn token' signature w = ground arith

  kept : IsKept (firestore_database fs) p Consumed
  kept = record {
    reflects = λ emails. Keeps-on _ (query_reflects_by_emails-Absent fs L token emails);
    account = λ a. Keeps-on _ (query_account-Absent fs L token a);
    active = λ a. Keeps-on _ (active_account-Absent fs L token a 1);
    unbinding = λ a email. Keeps-on _ (delete_binding-Absent fs L token a email);
    uninstalling = λ a. Keeps-on _ (uninstall_by_user-Absent fs L token a);
    mailing = active_by_email-Kept;
    confirming = run_bind_confirm-Kept;
    binding = bind_account-Kept;
    verifying = active_verify-Kept;
    passing = λ w now h. h;
    taking = λ w left h. h;
  }

  refused :
      (signature : String) (w : World fs.State)
      → Absent fs L token w.db
      → IfOk
          (active_verify (firestore_database fs) p token signature w).0
          (λ x. x.code ≡ status_bad_request)
  unfolding active_verify get_active_link
  refused signature w gone = ground (arith, gone, L.get_reads active_link token w.db)

  -- Over a lawful Firestore client, where a visit of a link was answered with the status 200, in
  -- every state that the public server then comes to, by whole requests and goroutines, one at a time,
  -- and the passing of time, no visit of a link with that token is answered with another status than 400, whatever
  -- its signature, if the uuids that the server still draws are not the token.
  pub link_used_once :
      (m : Mux) (signature signature' : String) (w : World fs.State) {x : Page} {t : World fs.State}
      → (active_verify (firestore_database fs) p token signature w).0 ≡ ok x
      → x.code ≡ status_ok
      → Undrawn w.drawn
      → SerialRun
          (firestore_database fs)
          p
          m
          (active_verify (firestore_database fs) p token signature w).1
          t
      → IfOk
          (active_verify (firestore_database fs) p token signature' t).0
          (λ y. y.code ≡ status_bad_request)
  link_used_once m signature signature' w {t} visited accepted undrawn run =
      let (l, read, verified, owned, gone) =
        active_verify_lem fs L p token signature w visited accepted in
      refused signature' t (
        (SerialRun-kept (firestore_database fs) p Consumed kept m run (
          gone,
          later w.drawn _ (ground (arith, active_verify-drawn token signature w)) undrawn,
        )).0)
