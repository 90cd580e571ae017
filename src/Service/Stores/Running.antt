-- ===== src/Service/Stores/Running.antt =====
-- Serial runs of the public server over Firestore: the levels of the accounts and the bounds on their emails.
use contact_server.Base.{
  ℕ, ◌≡◌, inl, inr, refl, String, some, Option-cases, Bool, true, false, arith,
}
use contact_server.Firestore.Client.{Firestore, IsLawful}
use contact_server.Firestore.View.{account_at, level_of}
use contact_server.Service.World.{Process, World}
use contact_server.Service.Router.{Mux}
use contact_server.Service.Server.{SerialRun}
use contact_server.Service.Server.Keeping.{SerialRun-kept_by_calls}
use contact_server.Service.Stores.{firestore_database}
use contact_server.Service.Stores.Limits.{WithinLimits}
use contact_server.Service.Stores.Bounded.{Bounded, firestore-IsKept}

module _ (fs : Firestore) (L : IsLawful fs) (p : Process) (m : Mux) where
  bounded_later :
      {s t : World fs.State} (a : String) (l : ℕ) (fresh : Bool)
      → SerialRun (firestore_database fs) p m s t
      → Bounded fs L a l fresh s.db
      → Bounded fs L a l fresh t.db
  bounded_later a l fresh run h =
      SerialRun-kept_by_calls (firestore_database fs) p (Bounded fs L a l fresh)
        (firestore-IsKept fs L a l fresh p) m run h

  -- Over a lawful Firestore client, and whatever the router answers: where requests to the public
  -- routes and goroutines run one at a time, each from its start to its end, and no request to the
  -- debug server comes between, then after each of them, and however its calls of the database ended,
  -- every account of the levels free, normal vip and plus vip lists at most 2, 4 and 8 emails, if
  -- that was so at first, and an account that was there at first has its level.
  pub SerialRun-WithinLimits :
      {s t : World fs.State}
      → SerialRun (firestore_database fs) p m s t
      → WithinLimits fs s.db
      → WithinLimits fs t.db
        × ((a : String) (l : ℕ)
            → level_of (account_at fs s.db a) ≡ some l
            → level_of (account_at fs t.db a) ≡ some l)
  SerialRun-WithinLimits {s} {t} run within = (
    λ a l at lo hi. elim (Option-cases (level_of (account_at fs s.db a))) [
      | inl missing ↦ ground (
        arith,
        at,
        lo,
        hi,
        bounded_later {s = s} {t = t} a 1 true run (inl (refl, missing, refl)),
      )
      | inr (was, held) ↦ ground (
        arith,
        at,
        lo,
        hi,
        bounded_later {s = s} {t = t} a was false run (inr (held, within a was held)),
      )
    ],
    λ a l at. elim (Option-cases (level_of (account_at fs t.db a))) [
      | inl gone ↦ absurd (
          ground (
            arith,
            gone,
            at,
            bounded_later {s = s} {t = t} a l false run (inr (at, within a l at)),
          ))
      | inr (now, there) ↦
          ground (
            arith,
            there,
            at,
            bounded_later {s = s} {t = t} a l false run (inr (at, within a l at)),
          )
    ],
  )
