-- ===== src/Redis/Keys.antt =====
-- The two kinds of keys by the prefixes of db/db_redis/redis.go.
use Prim.Native.Char.{code}
use text.Mathlib.TextLemmas.{append_cancel_left}
use contact_server.Base.{
  String, first_code, first_code-append, ◌<>◌, ◌≡◌, ◌≢◌, false, ◌==◌, arith, sym, ◌∙◌, ap,
}

abbrev pub table_account : String
table_account = "account:"

abbrev pub table_email : String
table_email = "email:"

unfoldable pub account_key : String → String
account_key address = table_account <> address

unfoldable pub email_key : String → String
email_key email = table_email <> email

account_key-injective : (a b : String) → account_key a ≡ account_key b → a ≡ b
unfolding account_key
account_key-injective a b h = append_cancel_left table_account a b h

email_key-injective : (a b : String) → email_key a ≡ email_key b → a ≡ b
unfolding email_key
email_key-injective a b h = append_cancel_left table_email a b h

account_key-ne-email_key : (a e : String) → account_key a ≢ email_key e
unfolding account_key email_key
account_key-ne-email_key a e h =
    let firsts : code "a" ≡ code "e" =
      sym (first_code-append "a" "ccount:" a) ∙ ap first_code h ∙ first_code-append "e" "mail:" e in
    omega (arith, firsts)

-- How two keys compare.
pub account_key_eq : (a b : String) → (account_key a == account_key b) ≡ (a == b)
account_key_eq a b = ground (arith, account_key-injective a b)

pub email_key_eq : (a b : String) → (email_key a == email_key b) ≡ (a == b)
email_key_eq a b = ground (arith, email_key-injective a b)

pub account_email_key : (a e : String) → (account_key a == email_key e) ≡ false
account_email_key a e = ground (arith, account_key-ne-email_key a e)

pub email_account_key : (e a : String) → (email_key e == account_key a) ≡ false
email_account_key e a = ground (arith, account_key-ne-email_key a e)
