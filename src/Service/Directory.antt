-- ===== src/Service/Directory.antt =====
-- What the service relies on of a `DatabaseI` where it binds and unbinds emails, for a view of the
-- database's state, and the runs of such calls.
use contact_server.Base.{
  String, ◌≡◌, refl, true, false, List, [], ◌∷◌, is_empty, ok, Exec, arith, sym, ◌∙◌,
}
use contact_server.Common.Agreement.{
  Owners, Lists, Agree, bind_owner, bind_lists, unbind_owner, unbind_lists, bind-Agree,
  unbind-Agree,
}
use contact_server.Service.Database.{Database}

pub record Directory (db : Database) : Type 0 where
  pub owner : db.State → Owners
  pub lists : db.State → Lists
  pub update_owner :
      (account email : String) (s : db.State) (e : String)
      → (db.update_binding account email s).0 ≡ ok tt
      → owner (db.update_binding account email s).1 e ≡ bind_owner account email (owner s) e
  pub update_lists :
      (account email : String) (s : db.State) (a e : String)
      → (db.update_binding account email s).0 ≡ ok tt
      → lists (db.update_binding account email s).1 a e
        ≡ bind_lists account email (owner s) (lists s) a e
  pub delete_owner :
      (account email : String) (s : db.State) (e : String)
      → is_empty (owner s email) ≡ false
      → lists s account email ≡ true
      → (db.delete_binding account email s).0 ≡ ok tt
      → owner (db.delete_binding account email s).1 e ≡ unbind_owner email (owner s) e
  pub delete_lists :
      (account email : String) (s : db.State) (a e : String)
      → is_empty (owner s email) ≡ false
      → (db.delete_binding account email s).0 ≡ ok tt
      → lists (db.delete_binding account email s).1 a e ≡ unbind_lists account email (lists s) a e

pub data Request : Type 0 where
  bind : String → String → Request
  unbind : String → String → Request

-- The call that a request comes to, and what it asks of the addresses that emails are bound to.
abbrev pub call : (db : Database) → Request → Exec db.State (Unit {0})
call db (bind account email) = db.update_binding account email
call db (unbind account email) = db.delete_binding account email

abbrev pub asked : Request → Owners → Owners
asked (bind account email) owner = bind_owner account email owner
asked (unbind account email) owner = unbind_owner email owner

abbrev asked_all : List Request → Owners → Owners
asked_all [] owner = owner
asked_all (c ∷ cs) owner = asked_all cs (asked c owner)

-- An account that is named binds an email, or unbinds one of its own.
abbrev pub IsOwn : Request → Owners → Type 0
IsOwn (bind account email) owner = is_empty account ≡ false
IsOwn (unbind account email) owner = (is_empty account ≡ false) × (owner email ≡ account)

pub data Run {db : Database} (d : Directory db) : db.State → List Request → db.State → Type 0 where
  done : {s : db.State} → Run d s [] s
  next :
      {s : db.State} {cs : List Request} {s' : db.State} (c : Request)
      → IsOwn c (d.owner s)
      → (call db c s).0 ≡ ok tt
      → Run d (call db c s).1 cs s'
      → Run d s (c ∷ cs) s'

module _ {db : Database} (d : Directory db) where
  abbrev IsAgreed : db.State → Type 0
  IsAgreed s = Agree (d.owner s) (d.lists s)

  -- Every request of an agreeing state is answered as it asked, and the state still agrees.
  call-IsAgreed :
      (c : Request) (s : db.State)
      → IsAgreed s
      → IsOwn c (d.owner s)
      → (call db c s).0 ≡ ok tt
      → IsAgreed (call db c s).1
        × ((e : String) → d.owner (call db c s).1 e ≡ asked c (d.owner s) e)
  call-IsAgreed (bind account email) s agreed own h = (
    bind-Agree agreed account email own (λ e. d.update_owner account email s e h)
        (λ a e. d.update_lists account email s a e h),
    λ e. d.update_owner account email s e h,
  )
  call-IsAgreed (unbind account email) s agreed own h =
      let bound : is_empty (d.owner s email) ≡ false = ground (arith, own) in
      let listed : d.lists s account email ≡ true =
        ground (arith, own, agreed.bound_listed email) in
      (
        unbind-Agree agreed account email (λ a l. ground (arith, own, agreed.listed_bound a email))
            (λ e. d.delete_owner account email s e bound listed h)
            (λ a e. d.delete_lists account email s a e bound h),
        λ e. d.delete_owner account email s e bound listed h,
      )

asked-same :
    (cs : List Request) (o o' : Owners)
    → ((e : String) → o e ≡ o' e)
    → (e : String) → asked_all cs o e ≡ asked_all cs o' e
asked-same [] o o' same e = same e
asked-same (bind account email ∷ cs) o o' same e =
    asked-same cs (bind_owner account email o) (bind_owner account email o')
      (λ x. ground (arith, same x)) e
asked-same (unbind account email ∷ cs) o o' same e =
    asked-same cs (unbind_owner email o) (unbind_owner email o') (λ x. ground (arith, same x)) e

-- Over any database that meets the interface, after any run of requests that are each an account's
-- own and return no error, from a state whose two views agree, they agree again, and every email is
-- bound to what the requests ask.
run-IsAgreed :
    {db : Database} (d : Directory db) {s : db.State} {cs : List Request} {s' : db.State}
    → Run d s cs s'
    → IsAgreed d s
    → IsAgreed d s' × ((e : String) → d.owner s' e ≡ asked_all cs (d.owner s) e)
run-IsAgreed d done agreed = (agreed, λ e. refl)
run-IsAgreed {db = db} d (next {s = s} {cs = cs} c own h run) agreed =
    let (after, owners) = call-IsAgreed d c s agreed own h in
    let (at_end, all) = run-IsAgreed d run after in
    (at_end, λ e. all e ∙ asked-same cs (d.owner (call db c s).1) (asked c (d.owner s)) owners e)

agreed-lists :
    (owner owner' : Owners) (lists lists' : Lists)
    → Agree owner lists
    → Agree owner' lists'
    → ((e : String) → owner e ≡ owner' e)
    → (a e : String) → lists a e ≡ lists' a e
agreed-lists owner owner' lists lists' c c' same a e =
    ground
      (arith, same e, c.listed_bound a e, c'.listed_bound a e, c.bound_listed e, c'.bound_listed e)

-- Two databases whose emails are bound alike, each with views that agree, have their emails bound
-- and listed alike after the same requests, each an account's own, of which none returns an error.
pub run-same :
    {db db' : Database} (d : Directory db) (d' : Directory db') {cs : List Request} {s t : db.State}
    {s' t' : db'.State}
    → IsAgreed d s
    → IsAgreed d' s'
    → ((e : String) → d.owner s e ≡ d'.owner s' e)
    → Run d s cs t
    → Run d' s' cs t'
    → ((e : String) → d.owner t e ≡ d'.owner t' e)
      × ((a e : String) → d.lists t a e ≡ d'.lists t' a e)
run-same d d' {cs = cs} {s = s} {t = t} {s' = s'} {t' = t'} agreed agreed' alike run run' =
    let (at_end, owners) = run-IsAgreed d run agreed in
    let (at_end', owners') = run-IsAgreed d' run' agreed' in
    let same : (e : String) → d.owner t e ≡ d'.owner t' e =
      λ e. owners e ∙ asked-same cs (d.owner s) (d'.owner s') alike e ∙ sym (owners' e) in
    (same, agreed-lists (d.owner t) (d'.owner t') (d.lists t) (d'.lists t') at_end at_end' same)
