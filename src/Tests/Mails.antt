-- ===== src/Tests/Mails.antt =====
-- The mail of an activation link at a concrete wallet, link and mail server.
use contact_server.Base.{
  ℕ, ◌≡◌, refl, false, Option, some, List, [], ◌∷◌, ◌++◌, pos, replace_all, ok,
}
use contact_server.Wallet.Links.{
  WConf, Message, Smtp, send_twice, send_active_mail, link_text, verify_activation_link,
}
use contact_server.Wallet.Links.Accepted.{accepted_for_a_day, send_active_mail_accepted}
use contact_server.Wallet.Keys.{key_of, sign_with_key}
use contact_server.Tests.Requests.{key_bytes}
use contact_server.Tests.Wallets.{a_crypto, a_maker, maker-IsKeyMaker, opened, a_link}

-- A mail server that keeps what it was sent.
abbrev pub smtp : Smtp
smtp = record { State = List Message; dial_and_send = λ d m sent. (ok tt, sent ++ (m ∷ [])) }

abbrev pub mail_conf : Option WConf
mail_conf = some (record {
  wallet_path = "wallet.json";
  wallet_auth = "secret";
  smtp_host = "smtp.x";
  smtp_port = pos 25;
  e_mail = "admin@x";
  e_password = "";
})

send_active_mail_accepted_example :
    let signature = sign_with_key a_maker (key_of a_maker key_bytes) (1 ∷ []) in
    (send_active_mail smtp a_maker opened
        (λ l. 1 ∷ [])
        mail_conf
        a_link
        "s"
        "go __active_link__"
        false
      ≡ send_twice smtp mail_conf a_link.email "s" (
          replace_all "go __active_link__" "__active_link__"
            (link_text a_link.token signature false)))
    × ((now : ℕ)
        → verify_activation_link a_crypto opened (λ l. 1 ∷ []) now a_link signature
          ≡ accepted_for_a_day now a_link)
send_active_mail_accepted_example =
    send_active_mail_accepted a_crypto a_maker maker-IsKeyMaker key_bytes refl smtp opened
      (λ l. 1 ∷ []) mail_conf a_link "s" "go __active_link__" false refl refl
