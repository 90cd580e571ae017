-- ===== src/Base/Keeps.antt =====
-- What a call leaves true of its state, however it ends: a rule for each way to write an action.
use mathlib.Core.Bool.{Bool, true, false}
use contact_server.Base.Logic.{if◌then◌else◌}
use contact_server.Base.Actions.{
  Error, Result, ok, err, panic, Exec, pure, raise, crash, lift, branch, ◌>>=◌, ◌>>◌,
}

pub record Keeps {S A : Type 0} (P : S → Type 0) (m : Exec S A) : Type 0 where
  pub after : (s : S) → P s → P (m s).1

module _ {S A : Type 0} {P : S → Type 0} where
  pub Keeps-pure : (a : A) → Keeps P (pure a)
  Keeps-pure a = record { after = λ s h. h }

  pub Keeps-raise : (e : Error) → Keeps P (raise {A = A} e)
  Keeps-raise e = record { after = λ s h. h }

  pub Keeps-crash : (w : _) → Keeps P (crash {A = A} w)
  Keeps-crash w = record { after = λ s h. h }

  pub Keeps-lift : (r : Result A) → Keeps P (lift r)
  Keeps-lift r = record { after = λ s h. h }

  pub Keeps-if : (b : Bool) (m n : Exec S A) → Keeps P m → Keeps P n → Keeps P (if b then m else n)
  Keeps-if true m n first second = first
  Keeps-if false m n first second = second

module _ {S A B : Type 0} {P : S → Type 0} where
  branch_after :
      (r : Result A) (f : A → Exec S B) (g : Error → Exec S B) (s : S)
      → ((a : A) → Keeps P (f a))
      → ((e : Error) → Keeps P (g e))
      → P s
      → P (branch (lift r) f g s).1
  branch_after (ok a) f g s first second h = (first a).after s h
  branch_after (err e) f g s first second h = (second e).after s h
  branch_after (panic w) f g s first second h = h

  pub Keeps-branch :
      (m : Exec S A) (f : A → Exec S B) (g : Error → Exec S B)
      → Keeps P m
      → ((a : A) → Keeps P (f a))
      → ((e : Error) → Keeps P (g e))
      → Keeps P (branch m f g)
  Keeps-branch m f g call first second = record {
    after = λ s h. branch_after (m s).0 f g (m s).1 first second (call.after s h);
  }

  pub Keeps-bind :
      (m : Exec S A) (f : A → Exec S B) → Keeps P m → ((a : A) → Keeps P (f a)) → Keeps P (m >>= f)
  Keeps-bind m f call first = Keeps-branch m f raise call first Keeps-raise

pub Keeps-then :
    {S B : Type 0} {P : S → Type 0} (m : Exec S (Unit {0})) (k : Exec S B)
    → Keeps P m
    → Keeps P k
    → Keeps P (m >> k)
Keeps-then m k call next = Keeps-bind m (λ _. k) call (λ _. next)

pub ruleset keeping = (
  Keeps-pure, Keeps-raise, Keeps-crash, Keeps-lift, Keeps-if, Keeps-branch, Keeps-bind, Keeps-then,
)
