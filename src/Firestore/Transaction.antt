-- ===== src/Firestore/Transaction.antt =====
-- `updateEmailReflect` of db/db_firestore/email_reflect.go, which runs in a transaction of the Firestore
-- client. No code calls it.
use contact_server.Base.{
  IfOk, String, ◌≡◌, ◌≢◌, Bool, true, false, Option, none, some, List, [], ◌∷◌, ◌==◌, not,
  if◌then◌else◌, Dict, put, Error, is_not_found, Result, Result-cases, ok, err, panic, Exec, pure,
  branch, lift, arith, inl, inr,
}
use contact_server.Firestore.Client.{Firestore}

-- The transaction at the documents of `DBTableReflect`, as a parameter; `wrote` is whether a write was asked for.
record Transaction (Doc : Type 0) : Type 1 where
  State : Type 0
  wrote : State → Bool
  get : String → Exec State Doc
  set : String → Doc → Exec State (Unit {0})
  delete : String → Exec State (Unit {0})

-- The client refuses a read behind a write with an error of its own, which is not `NotFound`.
abbrev IsRefusal : {A : Type 0} → Result A → Type 0
IsRefusal (ok a) = ⊥
IsRefusal (err e) = is_not_found e ≡ false
IsRefusal (panic w) = ⊥

record ReadsFirst {Doc : Type 0} (tx : Transaction Doc) : Type 0 where
  refuses : (k : String) (s : tx.State) → tx.wrote s ≡ true → IsRefusal (tx.get k s).0
  set_wrote :
      (k : String) (d : Doc) (s : tx.State)
      → (tx.set k d s).0 ≡ ok tt
      → tx.wrote (tx.set k d s).1 ≡ true
  get_wrote : (k : String) (s : tx.State) → tx.wrote (tx.get k s).1 ≡ tx.wrote s

-- What the loop has gathered, beside its error.
record Gathered : Type 0 where
  old : Dict String
  error : Option Error

module _ (fs : Firestore) (tx : Transaction fs.Doc) where
  abbrev stop : Dict String → Error → Exec tx.State Gathered
  stop old e = pure (record { old = old; error = some e })

  -- `tx.Set`, and the rest of the loop.
  abbrev write_then :
      String → String → Dict String → Exec tx.State Gathered → Exec tx.State Gathered
  write_then email account old rest =
      branch (tx.set email (fs.data_of_reflect (record { b_mail_address = account }))) (λ _. rest)
        (stop old)

  unfoldable update_email_reflect :
      String → List String → Bool → Dict String → Exec tx.State Gathered
  update_email_reflect account [] is_del old = pure (record { old = old; error = none })
  update_email_reflect account (email ∷ rest) is_del old =
      if is_del
      then branch (tx.delete email) (λ _. update_email_reflect account rest is_del old)
          (λ e.
            if not (is_not_found e)
            then stop old e
            else update_email_reflect account rest is_del old)
      else branch (tx.get email)
          (λ d.
            branch (lift (fs.data_to_reflect d))
              (λ obj.
                if not (obj.b_mail_address == account)
                then write_then email account (put email obj.b_mail_address old)
                    (update_email_reflect account rest is_del (put email obj.b_mail_address old))
                else update_email_reflect account rest is_del old)
              (stop old))
          (λ e.
            if not (is_not_found e)
            then stop old e
            else write_then email account old (update_email_reflect account rest is_del old))

  module _ (R : ReadsFirst tx) (account : String) where
    -- Behind a write, a round that reads ends the loop.
    wrote_then-fails :
        (email : String) (rest : List String) (old : Dict String) (s : tx.State)
        → tx.wrote s ≡ true
        → IfOk (update_email_reflect account (email ∷ rest) false old s).0 (λ g. g.error ≢ none)
    unfolding update_email_reflect
    wrote_then-fails email rest old s wrote = elim (Result-cases (tx.get email s).0) [
      | inl (d, got) ↦ absurd (ground (arith, got, R.refuses email s wrote))
      | inr (inl (e, failed)) ↦ ground (arith, failed, R.refuses email s wrote)
      | inr (inr (w, failed)) ↦ absurd (ground (arith, failed, R.refuses email s wrote))
    ]

    -- Whatever is read of the first email, it is written or an error is returned.
    set_then-fails :
        (first second : String) (rest : List String) (old : Dict String) (s : tx.State)
        → IfOk
            (write_then first account old
              (update_email_reflect account (second ∷ rest) false old)
              s).0
            (λ g. g.error ≢ none)
    set_then-fails first second rest old s =
        let d = fs.data_of_reflect (record { b_mail_address = account }) in
        elim (Result-cases (tx.set first d s).0) [
          | inl (u, done) ↦ ground (
            arith,
            done,
            wrote_then-fails second rest old (tx.set first d s).1
                (R.set_wrote first d s (ground (arith, done))),
          )
          | inr (inl (e, failed)) ↦ ground (arith, failed)
          | inr (inr (w, failed)) ↦ ground (arith, failed)
        ]

    -- With a client that refuses a read behind a write, two emails or more, of which the first is not
    -- bound to the account already, are never bound to it without an error.
    update_email_reflect_refused :
        (first second : String) (rest : List String) (s : tx.State)
        → IfOk
            (tx.get first s).0
            (λ d. IfOk (fs.data_to_reflect d) (λ obj. (obj.b_mail_address == account) ≡ false))
        → IfOk
            (update_email_reflect account (first ∷ second ∷ rest) false [] s).0
            (λ g. g.error ≢ none)
    unfolding update_email_reflect
    update_email_reflect_refused first second rest s elsewhere =
        let s1 = (tx.get first s).1 in
        elim (Result-cases (tx.get first s).0) [
          | inl (d, got) ↦ elim (Result-cases (fs.data_to_reflect d)) [
            | inl (obj, decoded) ↦ ground (
              arith,
              got,
              decoded,
              elsewhere,
              set_then-fails first second rest (put first obj.b_mail_address []) s1,
            )
            | inr bad ↦ ground (arith, got, bad)
          ]
          | inr (inl (e, failed)) ↦ ground (arith, failed, set_then-fails first second rest [] s1)
          | inr (inr (w, failed)) ↦ ground (arith, failed)
        ]
