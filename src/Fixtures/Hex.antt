-- ===== src/Fixtures/Hex.antt =====
-- What the hex decoder reads.
use quietwire.Base.{
  ℕ, ◌+◌, ◌-◌, ◌*◌, ◌/◌, ◌%◌, ◌<◌, ◌≡◌, refl, ap, subst, Bool, true, false, Option, some, none, [],
  ◌∷◌, arith, length, ltb, ◌==◌, if◌then◌else◌, All,
}
use quietwire.Bytes.{Bytes, IsByte, IsArray}
use mathlib.Core.Option.{some-injective}
use quietwire.Fixtures.{digit, from_str_radix, pieces, hex, hex_array, ◌>>=◌}

-- A digit in base 16, and the hex text of bytes, in upper or lower case.
unfoldable pub digit_of : Bool → ℕ → ℕ
digit_of upper x = if ltb x 10 then b'0' + x else ((if upper then b'A' else b'a') + x - 10)

unfoldable pub encode : Bool → Bytes → Bytes
unfolding digit_of
encode upper [] = []
encode upper (byte ∷ bytes) =
    digit_of upper (byte / 16) ∷ digit_of upper (byte % 16) ∷ encode upper bytes

from_str_radix-digit_of :
    (upper : Bool) (byte : ℕ)
    → byte < 256
    → from_str_radix (digit_of upper (byte / 16)) (digit_of upper (byte % 16)) ≡ some byte
unfolding from_str_radix digit_of
from_str_radix-digit_of true byte h = ground arith
from_str_radix-digit_of false byte h = ground arith

length-encode : (upper : Bool) (bytes : Bytes) → length (encode upper bytes) ≡ 2 * length bytes
unfolding encode
length-encode upper [] = omega arith
length-encode upper (byte ∷ bytes) = omega (arith, length-encode upper bytes)

pieces-encode :
    (upper : Bool) (bytes : Bytes) → All IsByte bytes → pieces (encode upper bytes) ≡ some bytes
unfolding pieces encode
pieces-encode upper [] h = refl
pieces-encode upper (byte ∷ bytes) h =
    rw (from_str_radix-digit_of upper byte h.0, pieces-encode upper bytes h.1) refl

-- The hex text of any array, in upper or lower case, reads back as that array.
pub hex_array-encode :
    (upper : Bool) (n : ℕ) (bytes : Bytes)
    → IsArray n bytes
    → hex_array n (encode upper bytes) ≡ some bytes
unfolding hex_array
hex_array-encode upper n bytes h =
    let even : (length (encode upper bytes) % 2 == 0) ≡ true =
      let e : length (encode upper bytes) % 2 ≡ 0 = omega (arith, length-encode upper bytes) in
      ground arith in
    let size : (length bytes == n) ≡ true = let e = h.0 in ground arith in
    rw (even, pieces-encode upper bytes h.1, size) refl

digit-lt : (c : ℕ) {x : ℕ} → digit c ≡ some x → x < 16
unfolding digit
digit-lt c e = ground arith

from_str_radix-IsByte : (a b : ℕ) {byte : ℕ} → from_str_radix a b ≡ some byte → IsByte byte
unfolding from_str_radix
from_str_radix-IsByte a b e = ground arith

>>=-eq-some {ℓ κ} :
    {A : Type ℓ} {B : Type κ} (o : Option A) (f : A → Option B) {b : B}
    → (o >>= f) ≡ some b
    → (a : A) × (o ≡ some a) × (f a ≡ some b)
>>=-eq-some none f e = cc
>>=-eq-some (some a) f e = (a, refl, e)

pieces-nil : {bytes : Bytes} → pieces [] ≡ some bytes → [] ≡ bytes
unfolding pieces
pieces-nil e = some-injective _ _ e

pieces-one : (a : ℕ) {bytes : Bytes} → ¬ (pieces (a ∷ []) ≡ some bytes)
unfolding pieces
pieces-one a e = cc

pieces-cons :
    (a b : ℕ) (rest : Bytes) {bytes : Bytes}
    → pieces (a ∷ b ∷ rest) ≡ some bytes
    → (byte : ℕ) × (more : Bytes) × (from_str_radix a b ≡ some byte)
      × (pieces rest ≡ some more)
      × (byte ∷ more ≡ bytes)
unfolding pieces
pieces-cons a b rest e =
    let (byte, e1, e2) =
      >>=-eq-some (from_str_radix a b) (λ byte. pieces rest >>= λ bytes. some (byte ∷ bytes)) e in
    let (more, e3, e4) = >>=-eq-some (pieces rest) (λ bytes. some (byte ∷ bytes)) e2 in
    (byte, more, e1, e3, some-injective _ _ e4)

pieces-IsArray :
    (encoded : Bytes) {bytes : Bytes}
    → pieces encoded ≡ some bytes
    → (length encoded ≡ 2 * length bytes) × All IsByte bytes
pieces-IsArray [] e =
    subst (λ bs. (length {A = ℕ} [] ≡ 2 * length bs) × All IsByte bs) (pieces-nil e)
      (omega arith, tt)
pieces-IsArray (a ∷ []) e = absurd (pieces-one a e)
pieces-IsArray (a ∷ b ∷ rest) {bytes} e =
    let (byte, more, e1, e2, e3) = pieces-cons a b rest e in
    let (len, are) = pieces-IsArray rest e2 in
    subst (λ bs. (length (a ∷ b ∷ rest) ≡ 2 * length bs) × All IsByte bs) e3
      (omega (arith, len), (from_str_radix-IsByte a b e1, are))

-- `hex_array` panics unless the text has two characters for each byte, and what it gives is an array
-- of the expected length.
pub hex_array-IsArray :
    (n : ℕ) (encoded bytes : Bytes)
    → hex_array n encoded ≡ some bytes
    → (length encoded ≡ 2 * n) × IsArray n bytes
unfolding hex_array
hex_array-IsArray n encoded bytes e =
    let (read, e1, e2) =
      >>=-eq-some (hex encoded) (λ bytes. if length bytes == n then some bytes else none) e in
    let e3 : pieces encoded ≡ some read = unfold hex in ground arith in
    let (len, are) = pieces-IsArray encoded e3 in
    let same : read ≡ bytes = ground arith in
    let size : length read ≡ n = ground arith in
    subst (λ bs. (length encoded ≡ 2 * n) × IsArray n bs) same (omega arith, (size, are))

plus_zero : (o : Option ℕ) → o ≡ (o >>= λ y. some (16 * 0 + y))
plus_zero none = refl
plus_zero (some y) = ap some (omega arith)

-- A plus sign is read as a zero, whatever follows: `hex` does not refuse every text that is not of
-- hex digits only.
pub hex-plus : (c : ℕ) (rest : Bytes) → hex (b'+' ∷ c ∷ rest) ≡ hex (b'0' ∷ c ∷ rest)
unfolding hex pieces from_str_radix digit
hex-plus c rest = λ i.
    if length (b'+' ∷ c ∷ rest) % 2 == 0
    then (plus_zero (digit c) i >>= λ byte. pieces rest >>= λ bytes. some (byte ∷ bytes))
    else none
