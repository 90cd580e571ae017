-- ===== src/LevelDb/View.antt =====
-- What the values say: the account under an address, the address that an email is bound to, and
-- whether an account lists an email.
use contact_server.Base.{
  String, ◌≡◌, refl, Bool, false, Option, none, some, List, [], ◌∷◌, ◌==◌, if◌then◌else◌, has,
  arith,
}
use contact_server.Common.{BMailAccount}
use contact_server.Firestore.View.{decode, address_of}
use contact_server.LevelDb.Keys.{account_key, email_key}
use contact_server.LevelDb.Client.{LevelDb}
use contact_server.LevelDb.Account.{contains, remove}

module _ (ldb : LevelDb) where
  abbrev pub account_at : ldb.State → String → Option BMailAccount
  account_at s a = decode ldb.unmarshal_account (ldb.value s (account_key a))

  abbrev pub owner : ldb.State → String → String
  owner s e = address_of (decode ldb.unmarshal_reflect (ldb.value s (email_key e)))

abbrev pub holds : Option BMailAccount → String → Bool
holds none e = false
holds (some ba) e = has ba.e_mail_address e

module _ (ldb : LevelDb) where
  abbrev pub lists : ldb.State → String → String → Bool
  lists s a e = holds (account_at ldb s a) e

pub contains_lem : (slice : List String) (item : String) → contains slice item ≡ has slice item
unfolding contains
contains_lem [] item = refl
contains_lem (v ∷ rest) item = ground (arith, contains_lem rest item)

-- `remove` takes out every occurrence of the item and nothing else.
pub has-remove :
    (slice : List String) (item e : String)
    → has (remove slice item) e ≡ (if item == e then false else has slice e)
unfolding remove
has-remove [] item e = ground arith
has-remove (v ∷ rest) item e = ground (arith, has-remove rest item e)

abbrev pub stored : BMailAccount → BMailAccount
stored ba = record ba { mail_store_obj = none }
