-- ===== src/Redis/View.antt =====
-- What the keys say: the address that an email is bound to, and the emails that an account lists.
use contact_server.Base.{
  String, ◌≡◌, refl, Bool, false, Option, none, some, List, [], ◌∷◌, ◌==◌, is_empty, if◌then◌else◌,
  has, ok, text_dec, arith,
}
use contact_server.Redis.Keys.{account_key, email_key}
use contact_server.Redis.Client.{Redis}
use contact_server.Redis.Account.{filter_out}

abbrev pub text_or_empty : Option String → String
text_or_empty none = ""
text_or_empty (some t) = t

module _ (rdb : Redis) where
  abbrev pub owner : rdb.State → String → String
  owner s e = text_or_empty (rdb.text s (email_key e))

  -- What is no list of emails lists none.
  abbrev pub emails_in : String → List String
  emails_in t = if is_empty t then [] else elim (rdb.unmarshal_emails t) [ ok es ↦ es | _ ↦ [] ]

  abbrev pub emails_at : rdb.State → String → List String
  emails_at s a = emails_in (text_or_empty (rdb.field s (account_key a) "e_mail_address"))

  abbrev pub lists : rdb.State → String → String → Bool
  lists s a e = has (emails_at s a) e

pub has-filter_out :
    (item : String) (emails : List String) (e : String)
    → has (filter_out item emails) e ≡ (if item == e then false else has emails e)
unfolding filter_out
has-filter_out item [] e = ground arith
has-filter_out item (v ∷ rest) e = ground (arith, has-filter_out item rest e)

-- The names of the fields, and what an account without emails holds.
pub level_is_no_list : ("user_lel" == "e_mail_address") ≡ false
unfolding text_dec
level_is_no_list = refl

pub no_emails_is_text : is_empty "[]" ≡ false
unfolding text_dec
no_emails_is_text = refl
