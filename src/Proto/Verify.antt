-- ===== src/Proto/Verify.antt =====
-- proto/proto_ex.go: the signature of a request is checked against the address in the request.
use contact_server.Base.{plain, Result, ok}
use contact_server.Proto.{BmReq}
use contact_server.Wallet.Address.{Crypto, verify_with}

module _ (c : Crypto) where
  -- `VerifyProto`
  unfoldable pub verify_proto : BmReq → Result (Unit {0})
  unfolding verify_with
  verify_proto r =
      verify_with c (plain "ed25519 verify failed") r.address r.signature (ok r.payload)
