-- ===== src/Base/Text.antt =====
-- Go strings as native texts: equality as a decision, the empty text, prefixes, decimal numbers.
use Prim.Native.Nat.{ℕ, zero, suc, ◌/◌, ◌%◌, ◌-◌}
use Prim.Native.Char.{Char, code}
use Prim.Native.String.{String, count, ◌++◌ as ◌<>◌}
use mathlib.Core.Path.{◌≡◌, ap}
use mathlib.Core.Logic.{dite}
use mathlib.Core.Bool.{Bool, true, false, Bool-discrete}
use mathlib.Core.Option.{Option, none, some}
use native.Mathlib.Omega.{arith}
use text.Mathlib.Text
use text.Mathlib.TextLemmas.{cons-append, nil-append}
use text.Mathlib.TextEquality.{eq_iff}
use contact_server.Base.Logic.{if◌then◌else◌, eqb, ltb}
pub use Prim.Native.String.{◌++◌ as ◌<>◌}

-- Shut in proofs, where a split on it yields the equation or its negation.
unfoldable pub text_dec : Discrete String
text_dec s t =
    dite (Bool-discrete (Text.◌==◌ s t) true) (λ same. yes ((eq_iff s t).0 same))
      (λ differ. no (λ p. differ ((eq_iff s t).1 p)))

infix 50 ◌==◌
abbrev pub ◌==◌ : String → String → Bool
s == t = elim (text_dec s t) [ yes _ ↦ true | no _ ↦ false ]

-- `len(s) == 0` or `s == ""`
abbrev pub is_empty : String → Bool
is_empty s = s == ""

-- `strings.HasPrefix(s, p)` with `strings.TrimPrefix(s, p)`: the rest of the text.
unfoldable pub strip_prefix : String → String → Option String
strip_prefix String.[] s = some s
strip_prefix (String.◌∷◌ c p) String.[] = none
strip_prefix (String.◌∷◌ c p) (String.◌∷◌ d s) =
    if eqb (code c) (code d) then strip_prefix p s else none

abbrev digit : ℕ → String
digit zero = "0"
digit (suc zero) = "1"
digit (suc (suc zero)) = "2"
digit (suc (suc (suc zero))) = "3"
digit (suc (suc (suc (suc zero)))) = "4"
digit (suc (suc (suc (suc (suc zero))))) = "5"
digit (suc (suc (suc (suc (suc (suc zero)))))) = "6"
digit (suc (suc (suc (suc (suc (suc (suc zero))))))) = "7"
digit (suc (suc (suc (suc (suc (suc (suc (suc zero)))))))) = "8"
digit _ = "9"

decimal_digits : ℕ → ℕ → String
decimal_digits zero n = ""
decimal_digits (suc fuel) n =
    let rest = decimal_digits fuel (n / 10) in if ltb n 10 then digit n else rest <> digit (n % 10)

-- `%d` of a number that is not negative; a number has no more digits than its value plus one.
unfoldable pub decimal : ℕ → String
unfolding decimal_digits
decimal n = decimal_digits (suc n) n

-- `strings.Replace(s, pattern, by, -1)` for a pattern that is not empty; `skip` counts the
-- characters of a match that are still to be passed over.
replace_from : ℕ → String → String → String → String
replace_from skip pattern by String.[] = ""
replace_from (suc skip) pattern by (String.◌∷◌ c s) = replace_from skip pattern by s
replace_from zero pattern by (String.◌∷◌ c s) =
    let matched = by <> replace_from (count pattern - 1) pattern by s in
    let kept = String.◌∷◌ c (replace_from zero pattern by s) in
    elim (strip_prefix pattern (String.◌∷◌ c s)) [ some rest ↦ matched | none ↦ kept ]

unfoldable pub replace_all : String → String → String → String
unfolding replace_from strip_prefix
replace_all s pattern by = replace_from zero pattern by s

-- The code of the first character, which the proofs tell texts apart by.
abbrev pub first_code : String → ℕ
first_code String.[] = 0
first_code (String.◌∷◌ c s) = code c

pub first_code-append : (c : Char) (s t : String) → first_code (String.◌∷◌ c s <> t) ≡ code c
first_code-append c s t = ap first_code (cons-append c s t)

-- A prefix is stripped.
pub strip_prefix-append : (p s : String) → strip_prefix p (p <> s) ≡ some s
unfolding strip_prefix
strip_prefix-append String.[] s = ap some (nil-append s)
strip_prefix-append (String.◌∷◌ c p) s =
    rw (cons-append c p s) (ground (arith, strip_prefix-append p s))
