-- ===== src/Wallet/Links.antt =====
-- `SendActiveMail`, `sendEmail` and `VerifyActivationLink` of wallet/wallet_inst.go. The JSON text of a link
-- (`SigData`) and the mail server are parameters.
pub mod Accepted
use contact_server.Base.{
  ℕ, ◌+◌, String, ◌<>◌, replace_all, Bool, true, false, List, [], ◌∷◌, ℤ, Option, plain, Result,
  err, Exec, pure, ◌>>=◌, branch, lift, ltb, if◌then◌else◌,
}
use contact_server.Common.{ActiveLinkData}
use contact_server.Wallet.Address.{Crypto, verify_message, ◌>>=ᵣ◌}
use contact_server.Wallet.Keys.{KeyMaker, Wallet, pointed, sign_message}

pub record WConf : Type 0 where
  pub wallet_path : String
  pub wallet_auth : String
  pub smtp_host : String
  pub smtp_port : ℤ
  pub e_mail : String
  pub e_password : String

-- A gomail message of three headers and one body, and a gomail dialer.
pub record Message : Type 0 where
  pub sender : String
  pub to : List String
  pub subject : String
  pub content_type : String
  pub body : String

pub record Dialer : Type 0 where
  pub host : String
  pub port : ℤ
  pub username : String
  pub password : String

-- `DialAndSend`
pub record Smtp : Type 1 where
  pub State : Type 0
  pub dial_and_send : Dialer → Message → Exec State (Unit {0})

abbrev pub active_veryfy_url : String
active_veryfy_url = "/active_verify"

-- `tokenExpiration` in seconds: 24 hours.
abbrev pub token_expiration : ℕ
token_expiration = 86400

abbrev pub bool_text : Bool → String
bool_text true = "true"
bool_text false = "false"

unfoldable pub link_text : String → String → Bool → String
link_text token signature is_unbind =
    active_veryfy_url
    <> "?token="
    <> token
    <> "&signature="
    <> signature
    <> "&unbind="
    <> bool_text is_unbind

-- Seconds since 1970 are not negative, so `now - data.CreateTime` does not wrap.
unfoldable pub verify_activation_link :
    Crypto → Wallet → (ActiveLinkData → List ℕ) → ℕ → ActiveLinkData → String → Result (Unit {0})
unfolding verify_message
verify_activation_link c w sig_data now link signature =
    if ltb (link.create_time + token_expiration) now
    then err (plain "activation link has expired")
    else (pointed w.address >>=ᵣ λ admin.
        verify_message c admin.bmail_address signature (sig_data link))

module _ (m : Smtp) where
  -- `sendEmail`, from the package's `_wConf`.
  unfoldable pub send_email : Option WConf → List String → String → String → Exec m.State (Unit {0})
  send_email conf tos subject body = do
    c ← lift (pointed conf)
    m.dial_and_send
        (record {
          host = c.smtp_host;
          port = c.smtp_port;
          username = c.e_mail;
          password = c.e_password;
        })
        (record {
          sender = c.e_mail;
          to = tos;
          subject = subject;
          content_type = "text/html";
          body = body;
        })

  -- One mail, and a second attempt if the first fails, whose failure is only logged.
  abbrev pub send_twice : Option WConf → String → String → String → Exec m.State (Unit {0})
  send_twice conf email subject body =
      branch (send_email conf (email ∷ []) subject body) (λ _. pure tt)
        (λ _. branch (send_email conf (email ∷ []) subject body) (λ _. pure tt) (λ _. pure tt))

  -- A failure to sign is only logged.
  unfoldable pub send_active_mail :
      KeyMaker
      → Wallet
      → (ActiveLinkData → List ℕ)
      → Option WConf
      → ActiveLinkData
      → String
      → String
      → Bool
      → Exec m.State (Unit {0})
  unfolding sign_message link_text replace_all send_email
  send_active_mail k w sig_data conf link subject body is_unbind =
      branch (lift (sign_message k w (sig_data link)))
        (λ signature.
          let text = link_text link.token signature is_unbind in
          send_twice conf link.email subject (replace_all body "__active_link__" text))
        (λ _. pure tt)
