-- ===== src/Base/Actions.antt =====
-- Methods that change a state and return an `error`. What was written before an error stays
-- written, so the state comes back beside the error; a panic ends the call.
use Prim.Native.Nat.{ℕ}
use Prim.Native.String.{String}
use mathlib.Core.Path.{◌≡◌, refl}
use mathlib.Core.Logic.{◌⊎◌, inl, inr}
use mathlib.Core.Bool.{Bool, true, false}
use contact_server.Base.Text.{◌<>◌, decimal}

-- `not_found` is the driver's own answer for a missing key (`codes.NotFound`,
-- `leveldb.ErrNotFound`, `redis.Nil`), `driver` any other error of code outside the repository,
-- `plain` an `errors.New` or `fmt.Errorf`, `bm_error` a `BMError`, `no_right` a wrapped
-- `NoRightError`, `wrapped` a `fmt.Errorf` that ends in `%w`,
-- `joined` an `errors.Join` with an error of that text.
pub data Error : Type 0 where
  not_found : String → Error
  driver : String → Error
  plain : String → Error
  bm_error : ℕ → String → Error
  no_right : String → Error
  wrapped : String → Error → Error
  joined : Error → String → Error

-- `errors.Is(err, ErrNotFound)` and `status.Code(err) == codes.NotFound`
abbrev pub is_not_found : Error → Bool
is_not_found (not_found m) = true
is_not_found (wrapped m e) = is_not_found e
is_not_found (joined e m) = is_not_found e
is_not_found (driver m) = false
is_not_found (plain m) = false
is_not_found (bm_error c m) = false
is_not_found (no_right m) = false

-- `err.Error()`
unfoldable pub error_text : Error → String
unfolding decimal
error_text (not_found m) = m
error_text (driver m) = m
error_text (plain m) = m
error_text (bm_error c m) = "Code: " <> decimal c <> ", Message: " <> m
error_text (no_right m) = "no right to operate" <> m
error_text (wrapped m e) = m <> error_text e
error_text (joined e m) = error_text e <> "\n" <> m

pub data Result (A : Type 0) : Type 0 where
  ok : A → Result A
  err : Error → Result A
  panic : String → Result A

pub Result-cases :
    {A : Type 0} (r : Result A)
    → ((a : A) × (r ≡ ok a)) ⊎ (((e : Error) × (r ≡ err e)) ⊎ ((w : String) × (r ≡ panic w)))
Result-cases (ok a) = inl (a, refl)
Result-cases (err e) = inr (inl (e, refl))
Result-cases (panic w) = inr (inr (w, refl))

-- A statement of what a call returned, where it returned no error.
abbrev pub IfOk : {A : Type 0} → Result A → (A → Type 0) → Type 0
IfOk (ok a) P = P a
IfOk (err e) P = Unit
IfOk (panic w) P = Unit

abbrev pub Exec : Type 0 → Type 0 → Type 0
Exec S A = S → Result A × S

module _ {S A : Type 0} where
  abbrev pub pure : A → Exec S A
  pure a s = (ok a, s)

  abbrev pub raise : Error → Exec S A
  raise e s = (err e, s)

  abbrev pub crash : String → Exec S A
  crash m s = (panic m, s)

  abbrev pub lift : Result A → Exec S A
  lift r s = (r, s)

module _ {S A B : Type 0} where
  -- Both ways that a call can return: `if err != nil { … }` and what follows it.
  abbrev pub branch : Exec S A → (A → Exec S B) → (Error → Exec S B) → Exec S B
  branch m f g s =
      let (r, s') = m s in elim r [ ok a ↦ f a s' | err e ↦ g e s' | panic w ↦ (panic w, s') ]

  infixl 5 ◌>>=◌
  abbrev pub ◌>>=◌ : Exec S A → (A → Exec S B) → Exec S B
  m >>= f = branch m f raise

infixl 5 ◌>>◌
abbrev pub ◌>>◌ : {S B : Type 0} → Exec S (Unit {0}) → Exec S B → Exec S B
m >> k = m >>= λ _. k
