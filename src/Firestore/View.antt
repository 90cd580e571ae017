-- ===== src/Firestore/View.antt =====
-- What the documents say: the account under an address, the address that an email is bound to,
-- and whether an account lists an email. Each client call, followed at one document.
use contact_server.Base.{ℕ, String, Bool, false, Option, none, some, find, Result, ok, [], is_some}
use contact_server.Common.{BMailAccount, EmailReflect, or_empty}
use contact_server.Firestore.Client.{Firestore, account_table, reflect_table}

abbrev pub decode : {D A : Type 0} → (D → Result A) → Option D → Option A
decode f none = none
decode f (some d) = elim (f d) [ ok a ↦ some a | _ ↦ none ]

-- "" where the email is bound to no address, as the code returns it.
abbrev pub address_of : Option EmailReflect → String
address_of none = ""
address_of (some r) = r.b_mail_address

abbrev pub holds : Option BMailAccount → String → Bool
holds none e = false
holds (some ba) e = is_some (find (or_empty ba.mail_store_obj) e)

module _ (fs : Firestore) where
  open fs use {State, doc, data_to_account, data_to_reflect}

  abbrev pub account_at : State → String → Option BMailAccount
  account_at s a = decode data_to_account (doc s account_table a)

  -- The reflection of an email, as the documents have it.
  abbrev pub reflect_at : State → String → Option EmailReflect
  reflect_at s e = decode data_to_reflect (doc s reflect_table e)

  abbrev pub owner : State → String → String
  owner s e = address_of (reflect_at s e)

  abbrev pub lists : State → String → String → Bool
  lists s a e = holds (account_at s a) e

-- What is read back of an account that was written.
abbrev pub stored : BMailAccount → BMailAccount
stored ba = record ba { e_mail_address = [] }

abbrev pub level_of : Option BMailAccount → Option ℕ
level_of none = none
level_of (some ba) = some ba.user_lel
