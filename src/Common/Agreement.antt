-- ===== src/Common/Agreement.antt =====
-- What the database methods of a binding come to, for a reader of two views of the state: the
-- address that an email is bound to, "" for none, and which account lists which email.
use contact_server.Base.{
  String, ◌≡◌, Bool, true, false, ◌==◌, ◌&&◌, not, is_empty, if◌then◌else◌, arith,
}

abbrev pub Owners : Type 0
Owners = String → String

abbrev pub Lists : Type 0
Lists = String → String → Bool

-- An email is bound to exactly the account that lists it.
pub record Agree (owner : Owners) (lists : Lists) : Type 0 where
  pub bound_listed : (e : String) → is_empty (owner e) ≡ false → lists (owner e) e ≡ true
  pub listed_bound : (a e : String) → lists a e ≡ true → (owner e ≡ a) × (is_empty a ≡ false)

-- `UpdateBinding` and `DeleteBinding` on the two views.
abbrev pub bind_owner : String → String → Owners → Owners
bind_owner account email owner e = if email == e then account else owner e

abbrev pub bind_lists : String → String → Owners → Lists → Lists
bind_lists account email owner lists a e =
    if email == e && account == a
    then true
    else if email == e && not (is_empty (owner email)) && owner email == a
    then false
    else lists a e

abbrev pub unbind_owner : String → Owners → Owners
unbind_owner email owner e = if email == e then "" else owner e

abbrev pub unbind_lists : String → String → Lists → Lists
unbind_lists account email lists a e = if account == a && email == e then false else lists a e

module _ {owner owner' : Owners} {lists lists' : Lists} (c : Agree owner lists)
    (account email : String) where
  pub bind-Agree :
      is_empty account ≡ false
      → ((e : String) → owner' e ≡ bind_owner account email owner e)
      → ((a e : String) → lists' a e ≡ bind_lists account email owner lists a e)
      → Agree owner' lists'
  bind-Agree named owners listed = record {
    bound_listed = λ e b.
        ground (
          arith,
          named,
          owners e,
          listed (owner' e) e,
          c.bound_listed e,
          c.listed_bound (owner e) e,
        );
    listed_bound = λ a e l. ground (arith, named, owners e, listed a e, c.listed_bound a e);
  }

  pub unbind-Agree :
      ((a : String) → lists a email ≡ true → account ≡ a)
      → ((e : String) → owner' e ≡ unbind_owner email owner e)
      → ((a e : String) → lists' a e ≡ unbind_lists account email lists a e)
      → Agree owner' lists'
  unbind-Agree own owners listed = record {
    bound_listed = λ e b. ground (arith, owners e, listed (owner e) e, c.bound_listed e);
    listed_bound = λ a e l. ground (arith, own a, owners e, listed a e, c.listed_bound a e);
  }
