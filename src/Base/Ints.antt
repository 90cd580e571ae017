-- ===== src/Base/Ints.antt =====
-- Go's `int`, where the code computes with a value that may be negative.
use Prim.Native.Nat.{ℕ, zero, suc, ◌/◌}
use contact_server.Base.Actions.{Result, ok, panic}

pub data ℤ : Type 0 where
  pos : ℕ → ℤ
  negsuc : ℕ → ℤ

abbrev neg : ℕ → ℤ
neg zero = pos zero
neg (suc n) = negsuc n

-- `n / k`, which rounds towards zero.
abbrev pub quotient : ℕ → ℤ → Result ℤ
quotient n (pos zero) = panic "runtime error: integer divide by zero"
quotient n (pos (suc k)) = ok (pos (n / suc k))
quotient n (negsuc k) = ok (neg (n / suc k))
