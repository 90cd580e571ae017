-- ===== src/Redis/Numbers.antt =====
-- `strconv.ParseInt(level, 10, 8)` as `QueryAccount` of db/db_redis/account.go uses it: the value
-- without its error, as the pattern of an `int8`. A value out of range is the nearest in range, a
-- text that is no number is 0.
use Prim.Native.Char.{code}
use contact_server.Base.{ℕ, ◌+◌, ◌-◌, ◌*◌, ◌%◌, String, Option, none, some, if◌then◌else◌, ltb, eqb}

-- `ParseUint(s, 10, 8)` past the first character: it stops at the first digit that passes 255.
scan : ℕ → String → Option ℕ
scan n String.[] = some n
scan n (String.◌∷◌ c s) =
    let n1 = 10 * n + (code c - 48) in
    let rest = scan n1 s in
    if ltb (code c) 48
    then none
    else if ltb 57 (code c)
    then none
    else if ltb 255 n1
    then some 255
    else rest

-- `""` is a syntax error.
unsigned : String → Option ℕ
unsigned String.[] = none
unsigned (String.◌∷◌ c s) = scan 0 (String.◌∷◌ c s)

positive : Option ℕ → ℕ
positive none = 0
positive (some n) = if ltb n 128 then n else 127

negative : Option ℕ → ℕ
negative none = 0
negative (some n) = if ltb 128 n then 128 else (256 - n) % 256

unfoldable pub parse_int8 : String → ℕ
unfolding scan unsigned positive negative
parse_int8 String.[] = 0
parse_int8 (String.◌∷◌ c s) =
    if eqb (code c) 43
    then positive (unsigned s)
    else if eqb (code c) 45
    then negative (unsigned s)
    else positive (unsigned (String.◌∷◌ c s))
