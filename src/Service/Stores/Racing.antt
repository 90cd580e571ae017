-- ===== src/Service/Stores/Racing.antt =====
-- Two requests to `BindAccount` at once: each checks the rights and writes in two steps, with no
-- transaction round them.
use contact_server.Base.{
  ◌∙◌, ℕ, ◌+◌, ◌≤◌, ◌^◌, ◌≡◌, ◌≢◌, String, Bool, true, false, some, ◌∷◌, [], is_empty, ◌&&◌,
  if◌then◌else◌, ok, Exec, pure, ◌>>=◌, ◌>>◌, arith, Result-cases, inl, inr,
}
use contact_server.Common.{EmailReflect}
use contact_server.Proto.{BmRsp, BmReq, BindAction}
use contact_server.Firestore.Client.{Firestore, Collection, IsLawful, account_table, reflect_table}
use contact_server.Firestore.View.{account_at, level_of, owner, lists}
use contact_server.Firestore.Account.{update_binding}
use contact_server.Firestore.Reflect.{query_reflect_by_one_email}
use contact_server.Firestore.Levels.{query_account_keeps}
use contact_server.Firestore.Counts.{size}
use contact_server.Firestore.Growth.{size-update_binding-new}
use contact_server.Firestore.Binding.{
  lists-update_binding, owner-update_binding, level-update_binding,
}
use contact_server.Service.Database.{Database}
use contact_server.Service.World.{Process, World, on_db}
use contact_server.Service.Levels.{check_rights_of_action}
use contact_server.Service.Actions.{bind_account, success_rsp}
use contact_server.Service.Stores.{firestore_database}
use contact_server.Service.Stores.Limits.{WithinLimits}

module _ (db : Database) where
  -- The handler from its check of the rights up to its write: whether it goes on to write.
  unfoldable pub bind_checked : String → String → Exec db.State Bool
  bind_checked address mail = do
    check_rights_of_action db address
    reflect ← db.query_reflect_by_one_email mail
    pure (is_empty reflect.b_mail_address)

  -- The request asks to bind the email to the account.
  abbrev pub Asks : Process → BmReq → String → String → Type 0
  Asks p r address mail =
      (action : BindAction) × (p.codec.unmarshal_bind r.payload ≡ ok action)
      × (action.address ≡ address)
      × (action.mail ≡ mail)
      × (is_empty address ≡ false)
      × (is_empty mail ≡ false)

  -- The handler's second part, in the state that the first has left.
  abbrev pub write_bound : String → String → Exec (World db.State) BmRsp
  write_bound address mail = on_db (db.update_binding address mail) >> pure (success_rsp (1 ∷ []))

  bind_account-bind_checked :
      (p : Process) (r : BmReq) (w : World db.State) (address mail : String)
      → Asks p r address mail
      → (bind_checked address mail w.db).0 ≡ ok true
      → bind_account db p r w
        ≡ write_bound address mail (record w { db = (bind_checked address mail w.db).1 })
  unfolding bind_checked bind_account
  bind_account-bind_checked p r w address mail (action, decoded, named, mailed, full, full')
        goes_on =
      elim (Result-cases (check_rights_of_action db address w.db).0) [
        | inl (u, passed) ↦
            let s1 = (check_rights_of_action db address w.db).1 in
            elim (Result-cases (db.query_reflect_by_one_email mail s1).0) [
              | inl (reflect, found) ↦
                  ground (arith, decoded, named, mailed, full, full', goes_on, passed, found)
              | inr bad ↦ absurd (ground (arith, goes_on, passed, bad))
            ]
        | inr bad ↦ absurd (ground (arith, goes_on, bad))
      ]

  -- Two requests of one account, both of which come to their write before either writes: whether
  -- both do.
  unfoldable pub bind_crossed : String → String → String → Exec db.State Bool
  bind_crossed address mail1 mail2 = do
    first ← bind_checked address mail1
    second ← bind_checked address mail2
    if first && second
        then db.update_binding address mail1 >> (db.update_binding address mail2 >> pure true)
        else pure false

module _ (fs : Firestore) (L : IsLawful fs) where
  query_unbound :
      (email : String) (s : fs.State) (r : EmailReflect)
      → (query_reflect_by_one_email fs email s).0 ≡ ok r
      → owner fs s email ≡ r.b_mail_address
  unfolding query_reflect_by_one_email
  query_unbound email s r found = ground (arith, found, L.get_reads reflect_table email s)

  check-keeps :
      (a : String) (s : fs.State) (t : Collection) (k : String)
      → fs.doc (check_rights_of_action (firestore_database fs) a s).1 t k ≡ fs.doc s t k
  unfolding check_rights_of_action
  check-keeps a s t k = ground (arith, query_account_keeps fs L a s t k)

  -- The part up to the write changes no document, and an email that it lets through is unbound.
  bind_checked-keeps :
      (a email : String) (s : fs.State) (t : Collection) (k : String)
      → fs.doc (bind_checked (firestore_database fs) a email s).1 t k ≡ fs.doc s t k
  unfolding bind_checked query_reflect_by_one_email
  bind_checked-keeps a email s t k =
      let s1 = (check_rights_of_action (firestore_database fs) a s).1 in
      ground (arith, check-keeps a s t k, L.get_keeps reflect_table email s1 t k)

  bind_checked-unbound :
      (a email : String) (s : fs.State)
      → (bind_checked (firestore_database fs) a email s).0 ≡ ok true
      → owner fs s email ≡ ""
  unfolding bind_checked
  bind_checked-unbound a email s h =
      let s1 = (check_rights_of_action (firestore_database fs) a s).1 in
      elim (Result-cases (query_reflect_by_one_email fs email s1).0) [
        | inl (r, found) ↦
            ground (arith, h, found, query_unbound email s1 r, check-keeps a s reflect_table email)
        | inr bad ↦ ground (arith, h, bad)
      ]

  module _ (a mail1 mail2 : String) (s : fs.State) where
    abbrev pub s1 : fs.State
    s1 = (bind_checked (firestore_database fs) a mail1 s).1

    abbrev pub s2 : fs.State
    s2 = (bind_checked (firestore_database fs) a mail2 s1).1

    abbrev s3 : fs.State
    s3 = (update_binding fs a mail1 s2).1

    abbrev s4 : fs.State
    s4 = (update_binding fs a mail2 s3).1

    -- What all four calls returned.
    crossed_calls :
        (bind_crossed (firestore_database fs) a mail1 mail2 s).0 ≡ ok true
        → ((bind_checked (firestore_database fs) a mail1 s).0 ≡ ok true)
          × ((bind_checked (firestore_database fs) a mail2 s1).0 ≡ ok true)
          × ((update_binding fs a mail1 s2).0 ≡ ok tt)
          × ((update_binding fs a mail2 s3).0 ≡ ok tt)
          × ((bind_crossed (firestore_database fs) a mail1 mail2 s).1 ≡ s4)
    unfolding bind_crossed
    crossed_calls both = elim (Result-cases (bind_checked (firestore_database fs) a mail1 s).0) [
      | inl (b1, first) ↦ elim (Result-cases (bind_checked (firestore_database fs) a mail2 s1).0) [
        | inl (b2, second) ↦ elim (Result-cases (update_binding fs a mail1 s2).0) [
          | inl (u, third) ↦ elim (Result-cases (update_binding fs a mail2 s3).0) [
            | inl (v, fourth) ↦ ground (arith, both, first, second, third, fourth)
            | inr bad ↦ absurd (ground (arith, both, first, second, third, bad))
          ]
          | inr bad ↦ absurd (ground (arith, both, first, second, bad))
        ]
        | inr bad ↦ absurd (ground (arith, both, first, bad))
      ]
      | inr bad ↦ absurd (ground (arith, both, bad))
    ]

    same2 : (t : Collection) (k : String) → fs.doc s2 t k ≡ fs.doc s t k
    same2 t k = bind_checked-keeps a mail2 s1 t k ∙ bind_checked-keeps a mail1 s t k

    crossed_grows :
        mail1 ≢ mail2
        → lists fs s a mail1 ≡ false
        → lists fs s a mail2 ≡ false
        → (bind_crossed (firestore_database fs) a mail1 mail2 s).0 ≡ ok true
        → (size fs s4 a ≡ size fs s a + 2)
          × (level_of (account_at fs s4 a) ≡ level_of (account_at fs s a))
    crossed_grows other fresh1 fresh2 both = ground (
      arith,
      other,
      fresh1,
      fresh2,
      crossed_calls both,
      bind_checked-unbound a mail1 s,
      bind_checked-unbound a mail2 s1,
      bind_checked-keeps a mail1 s reflect_table mail2,
      same2 account_table a,
      same2 reflect_table mail1,
      same2 reflect_table mail2,
      size-update_binding-new fs L a mail1 s2,
      size-update_binding-new fs L a mail2 s3,
      lists-update_binding fs L a mail1 s2 a mail2,
      owner-update_binding fs L a mail1 s2 mail2,
      level-update_binding fs L a mail1 s2 a,
      level-update_binding fs L a mail2 s3 a,
    )

    -- Over a lawful Firestore client, take an account of a level from free to plus vip that may list
    -- just one email more, and two emails that it does not list. If the checks of two requests to
    -- bind them both come before the writes, and all calls succeed, it keeps its level and lists two
    -- emails more than before, so one more than the level allows. The checks are the first parts of
    -- the two requests' handlers, and the writes what follows them there.
    pub bind_crossed_exceeds :
        (p : Process) (r1 r2 : BmReq) (w1 w2 : World fs.State) (level : ℕ)
        → Asks (firestore_database fs) p r1 a mail1
        → Asks (firestore_database fs) p r2 a mail2
        → level_of (account_at fs s a) ≡ some level
        → 1 ≤ level
        → level ≤ 3
        → size fs s a + 1 ≡ 2 ^ level
        → mail1 ≢ mail2
        → lists fs s a mail1 ≡ false
        → lists fs s a mail2 ≡ false
        → (bind_crossed (firestore_database fs) a mail1 mail2 s).0 ≡ ok true
        → let s' = (bind_crossed (firestore_database fs) a mail1 mail2 s).1 in
          (bind_account (firestore_database fs) p r1 (record w1 { db = s })
            ≡ write_bound (firestore_database fs) a mail1 (record w1 { db = s1 }))
          × (bind_account (firestore_database fs) p r2 (record w2 { db = s1 })
              ≡ write_bound (firestore_database fs) a mail2 (record w2 { db = s2 }))
          × (s' ≡ (update_binding fs a mail2 (update_binding fs a mail1 s2).1).1)
          × (size fs s' a ≡ 2 ^ level + 1)
          × (level_of (account_at fs s' a) ≡ some level)
          × ¬ (WithinLimits fs s')
    bind_crossed_exceeds p r1 r2 w1 w2 level asks1 asks2 held lo hi full other fresh1 fresh2 both =
        let (grown, same) = crossed_grows other fresh1 fresh2 both in
        let (passed1, passed2, _, _, last) = crossed_calls both in
        (
          bind_account-bind_checked (firestore_database fs) p r1 (record w1 { db = s }) a mail1
              asks1 passed1,
          bind_account-bind_checked (firestore_database fs) p r2 (record w2 { db = s1 }) a mail2
              asks2 passed2,
          last,
          ground (arith, grown, full, last),
          ground (arith, same, held, last),
          λ within. ground (arith, grown, same, full, last, held, lo, hi, within a level),
        )
