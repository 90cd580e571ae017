-- ===== src/Service/Http/Signed.antt =====
-- A request reaches its handler only through an accepted signature, and the status of the reply
-- says how the handler ended.
use contact_server.Base.{◌≡◌, ◌≢◌, ◌⊎◌, inl, inr, some, arith, Result, ok, Exec, Result-cases}
use contact_server.Proto.{Bytes, BmReq, BmRsp}
use contact_server.Proto.Verify.{verify_proto}
use contact_server.Service.World.{Process, World}
use contact_server.Service.Http.{Writer, call_func, status_ok}

module _ {D : Type 0} (p : Process) (handler : BmReq → Exec (World D) BmRsp) (body : Result Bytes)
    (s : World D) where
  abbrev reply : Result Writer × World D
  reply = call_func p handler body s

  -- The request that the body holds, with its signature accepted.
  abbrev Accepted : BmReq → Type 0
  Accepted r =
      (b : Bytes) × (body ≡ ok b)
      × (p.codec.unmarshal_request b ≡ ok r)
      × (verify_proto p.crypto r ≡ ok tt)

  -- Either `callFunc` changes nothing and does not reply with the status 200, or the body decodes
  -- to a request whose signature is accepted, and the state is what the handler left.
  pub call_func_authentic :
      ((reply.1 ≡ s) × ((x : Writer) → reply.0 ≡ ok x → x.status ≢ some status_ok))
      ⊎ ((r : BmReq) × Accepted r × (reply.1 ≡ (handler r s).1))
  unfolding call_func
  call_func_authentic = elim (Result-cases body) [
    | inl (b, e) ↦ elim (Result-cases (p.codec.unmarshal_request b)) [
      | inl (r, d) ↦ elim (Result-cases (verify_proto p.crypto r)) [
        | inl (u, v) ↦ inr (r, (b, e, d, ground (arith, v)), ground (arith, e, d, v))
        | inr bad ↦ inl (ground (arith, e, d, bad), λ x h st. ground (arith, e, d, bad))
      ]
      | inr bad ↦ inl (ground (arith, e, bad), λ x h st. ground (arith, e, bad))
    ]
    | inr bad ↦ inl (ground (arith, bad), λ x h st. ground (arith, bad))
  ]

  -- A reply of `callFunc` with the status 200 means that the body decodes to a request whose
  -- signature is accepted, and that the handler returned no error on it.
  call_func_success :
      {x : Writer}
      → reply.0 ≡ ok x
      → x.status ≡ some status_ok
      → (r : BmReq) × (y : BmRsp) × Accepted r × ((handler r s).0 ≡ ok y)
  unfolding call_func
  call_func_success {x} h st = elim call_func_authentic [
    | inl (same, not_ok) ↦ absurd (not_ok x h st)
    | inr (r, (b, e, d, v), after) ↦ elim (Result-cases (handler r s).0) [
      | inl (y, z) ↦ (r, y, (b, e, d, v), z)
      | inr bad ↦ absurd (ground (arith, e, d, v, bad))
    ]
  ]
