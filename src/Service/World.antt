-- ===== src/Service/World.antt =====
-- What the handlers share: the parameters of the process and the state that a request changes.
use contact_server.Base.{ℕ, ◌+◌, String, Bool, List, [], ◌∷◌, ◌++◌, ok, Exec}
use contact_server.Common.{ActiveLinkData}
use contact_server.Proto.{ProtoCodec, BindAction}
use contact_server.Wallet.Address.{Crypto}
use contact_server.Wallet.Admin.{Boxes}
use contact_server.Wallet.Curve.{Field}
use contact_server.Wallet.Keys.{KeyMaker, Wallet}

-- `admin` is the server's wallet, `instance`. `uuid n` is the `n`-th answer of `uuid.NewString`, `sig_data` the JSON text of a link.
pub record Process : Type 1 where
  pub codec : ProtoCodec
  pub crypto : Crypto
  pub boxes : Boxes
  pub field : Field
  pub keys : KeyMaker
  pub admin : Wallet
  pub uuid : ℕ → String
  pub sig_data : ActiveLinkData → List ℕ

-- A goroutine that a handler has started.
pub data Task : Type 0 where
  send_bind_confirm_mail : BindAction → Bool → Task
  send_active_mail : ActiveLinkData → String → String → Bool → Task

-- The database `D`, the clock in seconds, the uuids drawn, and the goroutines not yet run.
pub record World (D : Type 0) : Type 0 where
  pub db : D
  pub now : ℕ
  pub drawn : ℕ
  pub spawned : List Task

module _ {D : Type 0} where
  -- A call of the database.
  abbrev pub on_db : {A : Type 0} → Exec D A → Exec (World D) A
  on_db m w = let (r, d) = m w.db in (r, record w { db = d })

  -- `go f()`
  abbrev pub spawn : Task → Exec (World D) (Unit {0})
  spawn t w = (ok tt, record w { spawned = w.spawned ++ (t ∷ []) })

  -- `uuid.NewString()`
  abbrev pub new_string : Process → Exec (World D) String
  new_string p w = (ok (p.uuid w.drawn), record w { drawn = w.drawn + 1 })

  -- `time.Now().Unix()`
  abbrev pub unix_now : Exec (World D) ℕ
  unix_now w = (ok w.now, w)
