-- ===== src/Wallet/Hex.antt =====
-- `encoding/hex` as the wallet and the signatures use it, on the bytes of a text. The message of an
-- invalid byte leaves out which byte it was.
use Prim.Native.Char.{Char, code}
use contact_server.Base.{
  ℕ, zero, suc, ◌+◌, ◌-◌, ◌*◌, ◌/◌, ◌%◌, ◌<◌, ◌≡◌, refl, ap, String, Bool, true, false, List, [],
  ◌∷◌, Option, none, some, Error, plain, Result, ok, err, panic, each_below, each_below_lem, leb,
  eqb, ◌&&◌, if◌then◌else◌, arith,
}

-- `[]byte(s)` of a text of ASCII characters.
abbrev pub text_bytes : String → List ℕ
text_bytes String.[] = []
text_bytes (String.◌∷◌ c s) = code c ∷ text_bytes s

-- Every number is a byte.
abbrev pub IsBytes : List ℕ → Type 0
IsBytes [] = Unit
IsBytes (b ∷ bs) = (b < 256) × IsBytes bs

abbrev char_at : ℕ → List Char → Char
char_at n [] = "0"
char_at zero (c ∷ cs) = c
char_at (suc n) (c ∷ cs) = char_at n cs

unfoldable pub nibble_char : ℕ → Char
nibble_char n = char_at n (
    "0" ∷ "1" ∷ "2" ∷ "3" ∷ "4" ∷ "5" ∷ "6" ∷ "7" ∷ "8" ∷ "9" ∷ "a" ∷ "b" ∷ "c" ∷ "d" ∷ "e" ∷ "f"
    ∷ [])

-- `hex.EncodeToString`
unfoldable pub hex_encode : List ℕ → String
hex_encode [] = String.[]
hex_encode (b ∷ bs) =
    String.◌∷◌ (nibble_char (b / 16)) (String.◌∷◌ (nibble_char (b % 16)) (hex_encode bs))

-- The value of a hex digit, of either case.
abbrev hex_value : ℕ → Option ℕ
hex_value c =
    if leb 48 c && leb c 57
    then some (c - 48)
    else if leb 97 c && leb c 102
    then some (c - 87)
    else if leb 65 c && leb c 70
    then some (c - 55)
    else none

abbrev invalid_byte : Error
invalid_byte = plain "encoding/hex: invalid byte"

abbrev with_byte : ℕ → ℕ → Result (List ℕ) → Result (List ℕ)
with_byte h l (ok bs) = ok ((h * 16 + l) ∷ bs)
with_byte h l (err e) = err e
with_byte h l (panic w) = panic w

abbrev byte_and : Option ℕ → Option ℕ → Result (List ℕ) → Result (List ℕ)
byte_and (some h) (some l) rest = with_byte h l rest
byte_and _ _ rest = err invalid_byte

-- `hex.DecodeString`: a digit left over is an invalid byte or an odd length.
unfoldable pub hex_decode_bytes : List ℕ → Result (List ℕ)
hex_decode_bytes [] = ok []
hex_decode_bytes (c ∷ []) = elim (hex_value c) [
  | some v ↦ err (plain "encoding/hex: odd length hex string")
  | none ↦ err invalid_byte
]
hex_decode_bytes (c ∷ d ∷ s) =
    let rest = hex_decode_bytes s in byte_and (hex_value c) (hex_value d) rest

unfoldable pub hex_decode : String → Result (List ℕ)
unfolding hex_decode_bytes
hex_decode s = hex_decode_bytes (text_bytes s)

-- A digit stands for its nibble, and its code is past the block size of AES.
abbrev is_digit : Option ℕ → ℕ → ℕ → Bool
is_digit none c n = false
is_digit (some v) c n = eqb v n && leb 17 c && leb c 255

digit_table :
    each_below (λ n. is_digit (hex_value (code (nibble_char n))) (code (nibble_char n)) n) 16 ≡ true
unfolding each_below nibble_char
digit_table = refl

value_of_digit :
    (v : Option ℕ) (c n : ℕ) → is_digit v c n ≡ true → (v ≡ some n) × (16 < c) × (c < 256)
value_of_digit none c n h = ground arith
value_of_digit (some v) c n h = ground arith

pub nibble_digit :
    (n : ℕ)
    → n < 16
    → (hex_value (code (nibble_char n)) ≡ some n)
      × (16 < code (nibble_char n))
      × (code (nibble_char n) < 256)
nibble_digit n h = value_of_digit (hex_value (code (nibble_char n))) (code (nibble_char n)) n (
    each_below_lem (λ n. is_digit (hex_value (code (nibble_char n))) (code (nibble_char n)) n) 16 n
      h digit_table)

join_nibbles : (b : ℕ) → b / 16 * 16 + b % 16 ≡ b
join_nibbles b = omega arith

-- What was encoded is decoded.
pub hex_decode-hex_encode : (bs : List ℕ) → IsBytes bs → hex_decode (hex_encode bs) ≡ ok bs
unfolding hex_decode hex_encode
hex_decode-hex_encode [] h = refl
hex_decode-hex_encode (b ∷ bs) (lt, rest) =
    let (high, _, _) = nibble_digit (b / 16) (omega arith) in
    let (low, _, _) = nibble_digit (b % 16) (omega arith) in
    rw high (rw low (rw (hex_decode-hex_encode bs rest) (ap (λ n. ok (n ∷ bs)) (join_nibbles b))))

-- The text is ASCII.
pub hex_encode-IsBytes : (bs : List ℕ) → IsBytes bs → IsBytes (text_bytes (hex_encode bs))
unfolding hex_encode
hex_encode-IsBytes [] h = tt
hex_encode-IsBytes (b ∷ bs) (lt, h) = (
  (nibble_digit (b / 16) (omega arith)).2,
  ((nibble_digit (b % 16) (omega arith)).2, hex_encode-IsBytes bs h),
)
